-- ===== src/Link/Frames.antt =====
-- A commit message and a discard message are read back as they were written.
use uplexa_network.Prelude.{
  ℕ, ◌+◌, ◌^◌, ◌<◌, ◌≤◌, ◌≡◌, refl, ap, subst, Bool, true, false, List, [], ◌∷◌, ◌++◌, Option, none,
  some, length, length-append, append_assoc, append-nil, arith, All,
}
use uplexa_network.Buffer.{Buffer, Io, ok, advance}
use uplexa_network.Buffer.Valid.{IsValid}
use uplexa_network.Buffer.Write.{Appends, Appends-seq}
use uplexa_network.Bencode.{maybe_read_version}
use uplexa_network.Bencode.Wire.{
  int_text, string_text, write_bytestring-Appends, start_dict-Appends, end-Appends,
}
use uplexa_network.Bencode.Fields.{
  write_dict_msg_type-Appends, write_key-Appends, decode_encrypted-Reads, string-bytes,
  write_version-Appends,
}
use uplexa_network.Bencode.Items.{
  strings_text, write_dict_list-Appends, Items, item, read_list-Items, string_text-StartsItem,
}
use uplexa_network.Bencode.RoundTrip.{read_integer-Reads, read_string_lem}
use uplexa_network.Bencode.Dict.{key_text, eq_letter, Takes, done, entry, read_string-IsKey}
use uplexa_network.Dht.Key.{Key}
use uplexa_network.Dht.Codec.{RcCodec}
use uplexa_network.Link.{
  Incoming, commit_in, discard_in, new_incoming, decode_incoming, start_incoming, on_link_key,
  process_from, encode_discard, decode_discard, max_discard_size, encode_commit, decode_commit,
  read_frame,
}
use uplexa_network.Link.Trips.{process_from-Entries}

-- A frame is a string that Encrypted reads back.
abbrev pub IsFrame : List ℕ → Type 0
IsFrame f = (1 ≤ length f) × (length f < 10 ^ 9)

abbrev list_text : List (List ℕ) → List ℕ
list_text fs = b'l' ∷ (strings_text fs ++ (b'e' ∷ []))

abbrev commit_entries : List (List ℕ) → List ℕ
commit_entries fs =
    key_text b'a'
    ++ (key_text b'c' ++ (key_text b'c' ++ (list_text fs ++ (key_text b'v' ++ (int_text 0 ++ [])))))

abbrev pub commit_text : List (List ℕ) → List ℕ
commit_text fs = b'd' ∷ (commit_entries fs ++ (b'e' ∷ []))

encode_commit-Appends : (fs : List (List ℕ)) → Appends (encode_commit fs) (commit_text fs)
unfolding encode_commit
encode_commit-Appends fs = subst (Appends (encode_commit fs)) (simp (append_assoc, append-nil)) (
    Appends-seq start_dict-Appends (
      Appends-seq (write_dict_msg_type-Appends b'a' b'c') (
        Appends-seq (write_dict_list-Appends b'c' fs)
          (Appends-seq write_version-Appends end-Appends))))

abbrev discard_entries : List ℕ → List ℕ
discard_entries pad =
    key_text b'a'
    ++ (key_text b'z'
        ++ (key_text b'v' ++ (int_text 0 ++ (key_text b'z' ++ (string_text pad ++ [])))))

abbrev pub discard_text : List ℕ → List ℕ
discard_text pad = b'd' ∷ (discard_entries pad ++ (b'e' ∷ []))

encode_discard-Appends : (pad : List ℕ) → Appends (encode_discard pad) (discard_text pad)
unfolding encode_discard
encode_discard-Appends pad =
    subst (Appends (encode_discard pad)) (simp (append_assoc, append-nil)) (
      Appends-seq start_dict-Appends (
        Appends-seq (write_key-Appends b'a') (
          Appends-seq (write_key-Appends b'z') (
            Appends-seq write_version-Appends (
              Appends-seq (write_key-Appends b'z')
                (Appends-seq (write_bytestring-Appends pad) end-Appends))))))

read_frame-Items :
    (fs gs : List (List ℕ)) → All IsFrame fs → Items read_frame gs (strings_text fs) (gs ++ fs)
unfolding read_frame strings_text
read_frame-Items [] gs a = rw append-nil Items.done
read_frame-Items (f ∷ fs) gs a =
    item (string_text f) (string_text-StartsItem f)
      (λ b v h fits. rw (decode_encrypted-Reads f a.0.0 a.0.1 b v h fits))
      (subst (Items read_frame (gs ++ (f ∷ [])) (strings_text fs)) (append_assoc gs (f ∷ []) fs)
        (read_frame-Items fs (gs ++ (f ∷ [])) a.1))

read_frame_end : (fs : List (List ℕ)) (b : Buffer) → read_frame false fs b ≡ (ok fs, b)
unfolding read_frame
read_frame_end fs b = refl

module _ {Rc : Type 0} (rcs : RcCodec Rc) (junk from : Key) (contact : Rc)
    (handles : Incoming Rc → Bool) where
  abbrev callback : Option Buffer → Option (Incoming Rc) → Io (Option (Incoming Rc))
  callback = on_link_key rcs junk from contact handles

  Takes-commit : Takes callback b'a' (key_text b'c') none (some (commit_in []))
  unfolding on_link_key start_incoming new_incoming
  Takes-commit key b letter v h fits =
      let (s, r, l) = read_string-IsKey b'c' b v h fits in
      rw (eq_letter b'a' b'a' key letter) (rw r (ground (arith, l)))

  Takes-frames :
      (fs : List (List ℕ))
      → All IsFrame fs
      → Takes callback b'c' (list_text fs) (some (commit_in [])) (some (commit_in fs))
  unfolding on_link_key decode_incoming decode_commit
  Takes-frames fs a key b letter v h fits =
      let size = length-append (strings_text fs) (b'e' ∷ []) in
      rw (eq_letter b'c' b'c' key letter) (
        rw
          (read_list-Items read_frame (read_frame-Items fs [] a) b v h (omega (arith, size))
            (read_frame_end fs))
          (ap (λ n. (ok (some (commit_in fs)), advance n b)) (omega (arith, size))))

  Takes-version :
      (fs : List (List ℕ))
      → Takes callback b'v' (int_text 0) (some (commit_in fs)) (some (commit_in fs))
  unfolding on_link_key decode_incoming decode_commit maybe_read_version
  Takes-version fs key b letter v h fits =
      rw (eq_letter b'v' b'c' key letter, eq_letter b'v' b'v' key letter)
        (rw (read_integer-Reads 0 (omega arith) b v h fits))

  -- A commit message whose frames have between one byte and 10 ^ 9 - 1, written into a valid
  -- buffer with a byte more of room than it takes, is read back by the link's parser with the same
  -- frames in order, if its handler accepts it.
  pub process_from-encode_commit :
      (fs : List (List ℕ)) (b : Buffer)
      → All IsFrame fs
      → handles (commit_in fs) ≡ true
      → IsValid b
      → b.cur + length (commit_text fs) < b.base + b.sz
      → let r = encode_commit fs b in
        (r.0 ≡ ok tt)
        × (process_from rcs junk from contact handles (record (r.1) { cur = b.cur })
            ≡ (ok (some (commit_in fs)), r.1))
  process_from-encode_commit fs b a h v room =
      let size = length-append (commit_entries fs) (b'e' ∷ []) in
      process_from-Entries rcs junk from contact handles (commit_entries fs) (commit_in fs)
        (encode_commit fs) b
        (entry b'a' (key_text b'c') Takes-commit (
          entry b'c' (list_text fs) (Takes-frames fs a)
            (entry b'v' (int_text 0) (Takes-version fs) done)))
        (encode_commit-Appends fs) v (omega (arith, size)) h

  Takes-discard : Takes callback b'a' (key_text b'z') none (some (discard_in []))
  unfolding on_link_key start_incoming new_incoming
  Takes-discard key b letter v h fits =
      let (s, r, l) = read_string-IsKey b'z' b v h fits in
      rw (eq_letter b'a' b'a' key letter) (rw r (ground (arith, l)))

  Takes-discard_version :
      (pad : List ℕ)
      → Takes callback b'v' (int_text 0) (some (discard_in pad)) (some (discard_in pad))
  unfolding on_link_key decode_incoming decode_discard
  Takes-discard_version pad key b letter v h fits =
      rw (eq_letter b'v' b'v' key letter) (rw (read_integer-Reads 0 (omega arith) b v h fits))

  Takes-pad :
      (pad old : List ℕ)
      → length pad ≤ max_discard_size
      → Takes callback b'z' (string_text pad) (some (discard_in old)) (some (discard_in pad))
  unfolding on_link_key decode_incoming decode_discard
  Takes-pad pad old size key b letter v h fits =
      let bytes = string-bytes pad b h in
      rw (eq_letter b'z' b'v' key letter, eq_letter b'z' b'z' key letter)
        (rw (read_string_lem pad b (omega arith) v h fits) (ground (arith, bytes)))

  -- discard
  pub process_from-encode_discard :
      (pad : List ℕ) (b : Buffer)
      → length pad ≤ max_discard_size
      → handles (discard_in pad) ≡ true
      → IsValid b
      → b.cur + length (discard_text pad) < b.base + b.sz
      → let r = encode_discard pad b in
        (r.0 ≡ ok tt)
        × (process_from rcs junk from contact handles (record (r.1) { cur = b.cur })
            ≡ (ok (some (discard_in pad)), r.1))
  process_from-encode_discard pad b a h v room =
      let size = length-append (discard_entries pad) (b'e' ∷ []) in
      process_from-Entries rcs junk from contact handles (discard_entries pad) (discard_in pad)
        (encode_discard pad) b
        (entry b'a' (key_text b'z') Takes-discard (
          entry b'v' (int_text 0) (Takes-discard_version [])
            (entry b'z' (string_text pad) (Takes-pad pad [] a) done)))
        (encode_discard-Appends pad) v (omega (arith, size)) h
