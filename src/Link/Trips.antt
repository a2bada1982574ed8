-- ===== src/Link/Trips.antt =====
-- A relayed message, a commit message and a discard message are read back as they were written.
use uplexa_network.Prelude.{
  ℕ, ◌+◌, ◌^◌, ◌<◌, ◌≤◌, ◌≡◌, refl, ap, subst, ◌∙◌, Bool, true, false, List, [], ◌∷◌, ◌++◌, Option,
  none, some, length, length-append, append_assoc, append-nil, arith,
}
use uplexa_network.Buffer.{Buffer, Io, ok}
use uplexa_network.Buffer.Valid.{IsValid}
use uplexa_network.Buffer.Write.{Appends, Appends-seq}
use uplexa_network.Bencode.{maybe_read_dict_entry, maybe_read_version}
use uplexa_network.Bencode.Wire.{int_text, string_text, start_dict-Appends, end-Appends}
use uplexa_network.Bencode.Fields.{
  write_dict_entry-Appends, write_dict_int-Appends, write_dict_msg_type-Appends,
  decode_aligned-Reads, decode_encrypted-Reads,
}
use uplexa_network.Bencode.RoundTrip.{read_integer-Reads}
use uplexa_network.Bencode.Dict.{
  key_text, eq_letter, Takes, Entries, done, entry, read_dict-Entries, read_string-IsKey,
}
use uplexa_network.Dht.Key.{Key}
use uplexa_network.Dht.Codec.{RcCodec}
use uplexa_network.Relay.{RelayMessage}
use uplexa_network.Relay.Codec.{encode_relay, decode_relay}
use uplexa_network.Link.{
  Incoming, upstream_in, downstream_in, new_incoming, decode_incoming, start_incoming, on_link_key,
  process_from,
}

abbrev relay_entries : ℕ → RelayMessage → List ℕ
relay_entries t m =
    key_text b'a'
    ++ (key_text t
        ++ (key_text b'p'
            ++ (string_text m.pathid
                ++ (key_text b'v'
                    ++ (int_text 0
                        ++ (key_text b'x'
                            ++ (string_text m.x ++ (key_text b'y' ++ (string_text m.y ++ [])))))))))

abbrev pub relay_text : ℕ → RelayMessage → List ℕ
relay_text t m = b'd' ∷ (relay_entries t m ++ (b'e' ∷ []))

-- What a relayed message has on the wire: a path id of 16 bytes, a nonce of 32 bytes, and some text.
pub record IsSendable (m : RelayMessage) : Type 0 where
  pub pathid_size : length m.pathid ≡ 16
  pub nonce_size : length m.y ≡ 32
  pub some_text : 1 ≤ length m.x
  pub short_text : length m.x < 10 ^ 9

pub encode_relay-Appends : (t : ℕ) (m : RelayMessage) → Appends (encode_relay t m) (relay_text t m)
unfolding encode_relay
encode_relay-Appends t m = subst (Appends (encode_relay t m)) (simp (append_assoc, append-nil)) (
    Appends-seq start_dict-Appends (
      Appends-seq (write_dict_msg_type-Appends b'a' t) (
        Appends-seq (write_dict_entry-Appends b'p' m.pathid) (
          Appends-seq (write_dict_int-Appends b'v' 0) (
            Appends-seq (write_dict_entry-Appends b'x' m.x)
              (Appends-seq (write_dict_entry-Appends b'y' m.y) end-Appends))))))

-- A callback that takes the fields of a relayed message, as `wrap` holds it.
module _ {U : Type 0} (callback : Option Buffer → U → Io U) (wrap : RelayMessage → U)
    (decodes : (key : Buffer) (m m' : RelayMessage) (b c : Buffer)
      → decode_relay key m b ≡ (ok m', c)
      → callback (some key) (wrap m) b ≡ (ok (wrap m'), c)) where
  Takes-pathid :
      (m : RelayMessage) (p : Key)
      → length p ≡ 16
      → Takes callback b'p' (string_text p) (wrap m) (wrap (record m { pathid = p }))
  unfolding decode_relay maybe_read_dict_entry maybe_read_version
  Takes-pathid m p size key b letter v h fits = decodes key m _ b _ (
      rw (eq_letter b'p' b'p' key letter) (
        rw (decode_aligned-Reads p 16 size (omega arith) b v h fits) (
          rw (
            eq_letter b'p' b'v' key letter,
            eq_letter b'p' b'x' key letter,
            eq_letter b'p' b'y' key letter,
          ))))

  Takes-version : (m : RelayMessage) → Takes callback b'v' (int_text 0) (wrap m) (wrap m)
  unfolding decode_relay maybe_read_dict_entry maybe_read_version
  Takes-version m key b letter v h fits = decodes key m _ b _ (
      rw (eq_letter b'v' b'p' key letter, eq_letter b'v' b'v' key letter)
        (rw (read_integer-Reads 0 (omega arith) b v h fits)
          (rw (eq_letter b'v' b'x' key letter, eq_letter b'v' b'y' key letter))))

  Takes-text :
      (m : RelayMessage) (x : List ℕ)
      → 1 ≤ length x
      → length x < 10 ^ 9
      → Takes callback b'x' (string_text x) (wrap m) (wrap (record m { x = x }))
  unfolding decode_relay maybe_read_dict_entry maybe_read_version
  Takes-text m x size small key b letter v h fits = decodes key m _ b _ (
      rw
        (
          eq_letter b'x' b'p' key letter,
          eq_letter b'x' b'v' key letter,
          eq_letter b'x' b'x' key letter,
        )
        (rw (decode_encrypted-Reads x size small b v h fits) (rw (eq_letter b'x' b'y' key letter))))

  Takes-nonce :
      (m : RelayMessage) (y : Key)
      → length y ≡ 32
      → Takes callback b'y' (string_text y) (wrap m) (wrap (record m { y = y }))
  unfolding decode_relay maybe_read_dict_entry maybe_read_version
  Takes-nonce m y size key b letter v h fits = decodes key m _ b _ (
      rw
        (
          eq_letter b'y' b'p' key letter,
          eq_letter b'y' b'v' key letter,
          eq_letter b'y' b'x' key letter,
          eq_letter b'y' b'y' key letter,
        )
        (rw (decode_aligned-Reads y 32 size (omega arith) b v h fits)))

  relay_Entries :
      (t : ℕ) (m old : RelayMessage) (u : U)
      → IsSendable m
      → Takes callback b'a' (key_text t) u (wrap old)
      → Entries callback u (relay_entries t m) (wrap m)
  relay_Entries t m old u s starts = entry b'a' (key_text t) starts (
      entry b'p' (string_text m.pathid) (Takes-pathid old m.pathid s.pathid_size) (
        entry b'v' (int_text 0) (Takes-version _) (
          entry b'x' (string_text m.x) (Takes-text _ m.x s.some_text s.short_text)
            (entry b'y' (string_text m.y) (Takes-nonce _ m.y s.nonce_size) done))))

-- The two kinds, and the letters of their types.
abbrev pub relay_in : {Rc : Type 0} → Bool → RelayMessage → Incoming Rc
relay_in true m = upstream_in m
relay_in false m = downstream_in m

abbrev pub relay_letter : Bool → ℕ
relay_letter true = b'u'
relay_letter false = b'd'

module _ {Rc : Type 0} (rcs : RcCodec Rc) (junk from : Key) (contact : Rc)
    (handles : Incoming Rc → Bool) where
  abbrev callback : Option Buffer → Option (Incoming Rc) → Io (Option (Incoming Rc))
  callback = on_link_key rcs junk from contact handles

  abbrev fresh_relay : RelayMessage
  fresh_relay = record { pathid = junk; x = []; y = junk }

  Takes-relay_type :
      (up : Bool)
      → Takes callback b'a' (key_text (relay_letter up)) none (some (relay_in up fresh_relay))
  unfolding on_link_key start_incoming new_incoming
  Takes-relay_type true key b letter v h fits =
      let (s, r, l) = read_string-IsKey b'u' b v h fits in
      rw (eq_letter b'a' b'a' key letter) (rw r (ground (arith, l)))
  Takes-relay_type false key b letter v h fits =
      let (s, r, l) = read_string-IsKey b'd' b v h fits in
      rw (eq_letter b'a' b'a' key letter) (rw r (ground (arith, l)))

  callback-decode_relay :
      (up : Bool) (key : Buffer) (m m' : RelayMessage) (b c : Buffer)
      → decode_relay key m b ≡ (ok m', c)
      → callback (some key) (some (relay_in up m)) b ≡ (ok (some (relay_in up m')), c)
  unfolding on_link_key decode_incoming
  callback-decode_relay true key m m' b c e = rw e refl
  callback-decode_relay false key m m' b c e = rw e refl

  on_key_end :
      (m : Incoming Rc) (b : Buffer)
      → handles m ≡ true
      → callback none (some m) b ≡ (ok (some m), b)
  unfolding on_link_key
  on_key_end m b h = rw h refl

  -- From the entries of a message to the message.
  pub process_from-Entries :
      (txt : List ℕ) (m : Incoming Rc) (f : Io (Unit {0})) (b : Buffer)
      → Entries callback none txt (some m)
      → Appends f (b'd' ∷ (txt ++ (b'e' ∷ [])))
      → IsValid b
      → b.cur + (length txt + 2) < b.base + b.sz
      → handles m ≡ true
      → let r = f b in
        (r.0 ≡ ok tt)
        × (process_from rcs junk from contact handles (record (r.1) { cur = b.cur })
            ≡ (ok (some m), r.1))
  unfolding process_from
  process_from-Entries txt m f b entries appends v room h =
      let size = length-append txt (b'e' ∷ []) in
      let (c, e, x) = appends b v (omega (arith, size)) in
      let back = record c { cur = b.cur } in
      let decoded =
        read_dict-Entries callback entries back
          (record { ordered = omega arith; inside = omega arith }) x.holds (omega (arith, size))
          (λ d. on_key_end m d h) in
      rw e (refl, decoded ∙ ap (λ d. (ok (some m), d)) (ground (arith, size)))

  -- A relayed message, upstream or downstream, with a path id of 16 bytes, a nonce of 32 and some
  -- text of less than 10 ^ 9 bytes, written into a valid buffer with a byte more of room than it
  -- takes, is read back by the link's parser as it was, if its handler accepts it.
  pub process_from-encode_relay :
      (up : Bool) (m : RelayMessage) (b : Buffer)
      → IsSendable m
      → handles (relay_in up m) ≡ true
      → IsValid b
      → b.cur + length (relay_text (relay_letter up) m) < b.base + b.sz
      → let r = encode_relay (relay_letter up) m b in
        (r.0 ≡ ok tt)
        × (process_from rcs junk from contact handles (record (r.1) { cur = b.cur })
            ≡ (ok (some (relay_in up m)), r.1))
  process_from-encode_relay up m b s h v room =
      let size = length-append (relay_entries (relay_letter up) m) (b'e' ∷ []) in
      process_from-Entries (relay_entries (relay_letter up) m) (relay_in up m)
        (encode_relay (relay_letter up) m) b
        (relay_Entries callback (λ m'. some (relay_in up m')) (callback-decode_relay up)
          (relay_letter up) m fresh_relay none s (Takes-relay_type up))
        (encode_relay-Appends (relay_letter up) m) v (omega (arith, size)) h
