-- ===== src/Dht/Codec/Find.antt =====
-- A FindRouterMessage is read back as it was written.
use uplexa_network.Prelude.{
  ℕ, ◌+◌, ◌-◌, ◌^◌, ◌<◌, ◌≡◌, refl, ap, subst, ◌∙◌, Bool, true, false, List, [], ◌∷◌, ◌++◌, Option,
  none, some, if◌then◌else◌, length, length-append, append_assoc, append-nil, arith,
}
use uplexa_network.Text.{print_int, print_long, decimal, to_digits}
use uplexa_network.Buffer.{Buffer, Io, ok, and_then, advance, load_all, Holds}
use uplexa_network.Buffer.Memory.{load_all-Holds, Holds-split}
use uplexa_network.Buffer.Valid.{IsValid}
use uplexa_network.Buffer.Write.{Appends, Appends-seq}
use uplexa_network.Bencode.{write_int}
use uplexa_network.Bencode.Wire.{
  int_text, string_text, write_bytestring-Appends, write_uint64-Appends, write_int-Appends,
  start_dict-Appends, end-Appends,
}
use uplexa_network.Bencode.RoundTrip.{read_integer-Reads, read_string_lem}
use uplexa_network.Bencode.Dict.{
  key_text, eq_letter, Takes, Entries, done, entry, read_dict-Entries,
}
use uplexa_network.Bencode.Fields.{write_key-Appends}
use uplexa_network.Dht.Key.{Key}
use uplexa_network.Dht.Message.{FindRouter, Message, find_router}
use uplexa_network.Dht.Codec.{
  RcCodec, encode_find_router, decode_find_router, key_of_string, Decoder, new_message, decode_key,
  on_key, the_message, decode_message,
}
use uplexa_network.Bencode.Dict.{read_string-IsKey}

-- The entries of the dictionary.
abbrev find_router_entries : FindRouter → List ℕ
find_router_entries m =
    key_text b'A'
    ++ (key_text b'R'
        ++ (key_text b'I'
            ++ (int_text (if m.iterative then 1 else 0)
                ++ (key_text b'K'
                    ++ (string_text m.target
                        ++ (key_text b'T'
                            ++ (int_text m.txid
                                ++ (key_text b'V' ++ (int_text m.version ++ [])))))))))

abbrev pub find_router_text : FindRouter → List ℕ
find_router_text m = b'd' ∷ (find_router_entries m ++ (b'e' ∷ []))

write_flag-Appends :
    (f : Bool) → Appends (write_int (if f then 1 else 0)) (int_text (if f then 1 else 0))
unfolding print_int print_long decimal to_digits
write_flag-Appends true = write_int-Appends 1
write_flag-Appends false = write_int-Appends 0

-- Where there is room, `BEncode` appends the text of the message.
pub encode_find_router-Appends :
    (m : FindRouter) → Appends (encode_find_router m) (find_router_text m)
unfolding encode_find_router
encode_find_router-Appends m =
    subst (Appends (encode_find_router m)) (simp (append_assoc, append-nil)) (
      Appends-seq start_dict-Appends (
        Appends-seq (write_key-Appends b'A') (
          Appends-seq (write_key-Appends b'R') (
            Appends-seq (write_key-Appends b'I') (
              Appends-seq (write_flag-Appends m.iterative) (
                Appends-seq (write_key-Appends b'K') (
                  Appends-seq (write_bytestring-Appends m.target) (
                    Appends-seq (write_key-Appends b'T') (
                      Appends-seq (write_uint64-Appends m.txid) (
                        Appends-seq (write_key-Appends b'V')
                          (Appends-seq (write_uint64-Appends m.version) end-Appends)))))))))))

blank : Key → Key → FindRouter
blank junk from = record { from = from; target = junk; iterative = false; txid = 0; version = 0 }

module _ {Rc : Type 0} (rcs : RcCodec Rc) (junk from : Key) where
  abbrev callback : Option Buffer → Decoder rcs → Io (Decoder rcs)
  callback = on_key rcs junk from

  abbrev found : FindRouter → Decoder rcs
  found m = some (find_router m)

  on_key-Takes_type : Takes callback b'A' (key_text b'R') none (found (blank junk from))
  unfolding on_key new_message blank
  on_key-Takes_type key b letter v h fits =
      let (s, r, l) = read_string-IsKey b'R' b v h fits in
      rw (eq_letter b'A' b'A' key letter) (rw r (ground arith))

  on_key-Takes_flag :
      (m : FindRouter) (f : Bool)
      → Takes callback b'I'
          (int_text (if f then 1 else 0))
          (found m)
          (found (record m { iterative = f }))
  unfolding on_key decode_key decode_find_router
  on_key-Takes_flag m f key b letter v h fits =
      rw (eq_letter b'I' b'I' key letter)
        (rw (read_integer-Reads (if f then 1 else 0) (ground arith) b v h fits) (ground arith))

  on_key-Takes_target :
      (m : FindRouter) (k : Key)
      → length k ≡ 32
      → Takes callback b'K' (string_text k) (found m) (found (record m { target = k }))
  unfolding on_key decode_key decode_find_router key_of_string
  on_key-Takes_target m k size key b letter v h fits =
      let n = length (print_long (length k)) + 1 in
      let bytes : Holds b.mem (b.cur + n) k =
        subst (λ x. Holds b.mem x k) (omega arith)
          (Holds-split (print_long (length k)) (b':' ∷ k) b.mem b.cur h).1.1 in
      let target : load_all b.mem (b.cur + n) 32 ≡ k =
        subst (λ x. load_all b.mem (b.cur + n) x ≡ k) size
          (load_all-Holds k b.mem (b.cur + n) bytes) in
      rw (eq_letter b'K' b'I' key letter, eq_letter b'K' b'K' key letter)
        (rw (read_string_lem k b (omega arith) v h fits) (ground (arith, target)))

  on_key-Takes_txid :
      (m : FindRouter) (i : ℕ)
      → i < 2 ^ 64 - 1
      → Takes callback b'T' (int_text i) (found m) (found (record m { txid = i }))
  unfolding on_key decode_key decode_find_router
  on_key-Takes_txid m i small key b letter v h fits =
      rw
        (
          eq_letter b'T' b'I' key letter,
          eq_letter b'T' b'K' key letter,
          eq_letter b'T' b'T' key letter,
        )
        (rw (read_integer-Reads i small b v h fits))

  on_key-Takes_version :
      (m : FindRouter) (i : ℕ)
      → i < 2 ^ 64 - 1
      → Takes callback b'V' (int_text i) (found m) (found (record m { version = i }))
  unfolding on_key decode_key decode_find_router
  on_key-Takes_version m i small key b letter v h fits =
      rw
        (
          eq_letter b'V' b'I' key letter,
          eq_letter b'V' b'K' key letter,
          eq_letter b'V' b'T' key letter,
          eq_letter b'V' b'V' key letter,
        )
        (rw (read_integer-Reads i small b v h fits))

  -- What can be written and read back: a key of 32 bytes, and numbers other than the one that
  -- `bencode_read_integer` takes for an error.
  find_router_Entries :
      (m : FindRouter)
      → length m.target ≡ 32
      → m.txid < 2 ^ 64 - 1
      → m.version < 2 ^ 64 - 1
      → Entries callback none (find_router_entries m) (found (record m { from = from }))
  unfolding blank
  find_router_Entries m k t v = entry b'A' (key_text b'R') on_key-Takes_type (
      entry b'I' (int_text (if m.iterative then 1 else 0))
        (on_key-Takes_flag (blank junk from) m.iterative)
        (entry b'K' (string_text m.target) (on_key-Takes_target _ m.target k) (
          entry b'T' (int_text m.txid) (on_key-Takes_txid _ m.txid t)
            (entry b'V' (int_text m.version) (on_key-Takes_version _ m.version v) done))))

  at_end : (m : FindRouter) (b : Buffer) → callback none (found m) b ≡ (ok (found m), b)
  unfolding on_key
  at_end m b = refl

  abbrev the_message_of : Decoder rcs → Io (Message Rc)
  the_message_of = the_message rcs

  the_end : (m : FindRouter) (b : Buffer) → the_message_of (found m) b ≡ (ok (find_router m), b)
  unfolding the_message
  the_end m b = refl

  -- A FindRouterMessage with a key of 32 bytes and numbers below 2 ^ 64 - 1 that BEncode writes
  -- into a valid buffer with a byte more of room than its text takes is read back from there by
  -- DecodeMesssage as it was, with the sender of the frame it came in.
  pub decode_message-encode_find_router :
      (m : FindRouter) (b : Buffer)
      → length m.target ≡ 32
      → m.txid < 2 ^ 64 - 1
      → m.version < 2 ^ 64 - 1
      → IsValid b
      → b.cur + length (find_router_text m) < b.base + b.sz
      → let r = encode_find_router m b in
        (r.0 ≡ ok tt)
        × (decode_message rcs junk from (record (r.1) { cur = b.cur })
            ≡ (ok (find_router (record m { from = from })), r.1))
  unfolding decode_message
  decode_message-encode_find_router m b k t w v room =
      let (c, e, x) = encode_find_router-Appends m b v room in
      let back = record c { cur = b.cur } in
      let size = length-append (find_router_entries m) (b'e' ∷ []) in
      let decoded =
        read_dict-Entries callback (find_router_Entries m k t w) back
          (record { ordered = omega arith; inside = omega arith }) x.holds (omega (arith, size))
          (at_end (record m { from = from })) in
      rw e (
        refl,
        ap (λ r. and_then r the_message_of) decoded
            ∙ the_end (record m { from = from }) (advance (length (find_router_entries m) + 2) back)
            ∙ ap (λ d. (ok (find_router (record m { from = from })), d)) (ground (arith, size)),
      )
