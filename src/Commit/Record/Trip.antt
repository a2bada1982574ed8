-- ===== src/Commit/Record/Trip.antt =====
-- A commit record without work is read back as it was written.
use uplexa_network.Prelude.{
  ℕ, ◌+◌, ◌≤◌, ◌≡◌, refl, sym, ap, subst, ◌∙◌, List, [], ◌∷◌, ◌++◌, Option, none, length,
  length-append, append_assoc, append-nil, arith,
}
use uplexa_network.Buffer.{Buffer, ok, advance}
use uplexa_network.Buffer.Memory.{Holds}
use uplexa_network.Buffer.Valid.{IsValid}
use uplexa_network.Buffer.Write.{Appends, Appends-seq, return-Appends}
use uplexa_network.Bencode.{maybe_read_dict_entry, maybe_read_version}
use uplexa_network.Bencode.Wire.{int_text, string_text, start_dict-Appends, end-Appends}
use uplexa_network.Bencode.Fields.{
  write_dict_entry-Appends, write_version-Appends, decode_aligned-Reads,
}
use uplexa_network.Bencode.RoundTrip.{read_integer-Reads}
use uplexa_network.Bencode.Dict.{
  key_text, eq_letter, Takes, Entries, done, entry, read_dict-Entries,
}
use uplexa_network.Dht.Key.{Key}
use uplexa_network.Commit.Record.{
  CommitRecord, encode_record, decode_record_key, record_work, on_record_key, decode_record,
}

-- The sizes of the fields, no work, and the version that is written.
pub record IsPlain (m : CommitRecord) : Type 0 where
  pub commkey_size : length m.commkey ≡ 32
  pub next_hop_size : length m.next_hop ≡ 32
  pub nonce_size : length m.nonce ≡ 32
  pub rxid_size : length m.rxid ≡ 16
  pub txid_size : length m.txid ≡ 16
  pub no_work : m.work ≡ none
  pub version_zero : m.version ≡ 0

abbrev pub record_entries : CommitRecord → List ℕ
record_entries m =
    key_text b'c'
    ++ (string_text m.commkey
        ++ (key_text b'i'
            ++ (string_text m.next_hop
                ++ (key_text b'n'
                    ++ (string_text m.nonce
                        ++ (key_text b'r'
                            ++ (string_text m.rxid
                                ++ (key_text b't'
                                    ++ (string_text m.txid
                                        ++ (key_text b'v' ++ (int_text 0 ++ [])))))))))))

abbrev pub record_text : CommitRecord → List ℕ
record_text m = b'd' ∷ (record_entries m ++ (b'e' ∷ []))

Takes-commkey :
    (m : CommitRecord) (x : Key)
    → length x ≡ 32
    → Takes on_record_key b'c' (string_text x) m (record m { commkey = x })
unfolding on_record_key decode_record_key record_work maybe_read_dict_entry maybe_read_version
Takes-commkey m x size key b letter v h fits = rw (eq_letter b'c' b'c' key letter) (
    rw (decode_aligned-Reads x 32 size (omega arith) b v h fits) (
      rw (
        eq_letter b'c' b'i' key letter,
        eq_letter b'c' b'n' key letter,
        eq_letter b'c' b'r' key letter,
        eq_letter b'c' b't' key letter,
        eq_letter b'c' b'v' key letter,
        eq_letter b'c' b'w' key letter,
      )))

Takes-next_hop :
    (m : CommitRecord) (x : Key)
    → length x ≡ 32
    → Takes on_record_key b'i' (string_text x) m (record m { next_hop = x })
unfolding on_record_key decode_record_key record_work maybe_read_dict_entry maybe_read_version
Takes-next_hop m x size key b letter v h fits =
    rw (eq_letter b'i' b'c' key letter, eq_letter b'i' b'i' key letter)
      (rw (decode_aligned-Reads x 32 size (omega arith) b v h fits) (
        rw (
          eq_letter b'i' b'n' key letter,
          eq_letter b'i' b'r' key letter,
          eq_letter b'i' b't' key letter,
          eq_letter b'i' b'v' key letter,
          eq_letter b'i' b'w' key letter,
        )))

Takes-nonce :
    (m : CommitRecord) (x : Key)
    → length x ≡ 32
    → Takes on_record_key b'n' (string_text x) m (record m { nonce = x })
unfolding on_record_key decode_record_key record_work maybe_read_dict_entry maybe_read_version
Takes-nonce m x size key b letter v h fits =
    rw
      (
        eq_letter b'n' b'c' key letter,
        eq_letter b'n' b'i' key letter,
        eq_letter b'n' b'n' key letter,
      )
      (rw (decode_aligned-Reads x 32 size (omega arith) b v h fits) (
        rw (
          eq_letter b'n' b'r' key letter,
          eq_letter b'n' b't' key letter,
          eq_letter b'n' b'v' key letter,
          eq_letter b'n' b'w' key letter,
        )))

Takes-rxid :
    (m : CommitRecord) (x : Key)
    → length x ≡ 16
    → Takes on_record_key b'r' (string_text x) m (record m { rxid = x })
unfolding on_record_key decode_record_key record_work maybe_read_dict_entry maybe_read_version
Takes-rxid m x size key b letter v h fits =
    rw
      (
        eq_letter b'r' b'c' key letter,
        eq_letter b'r' b'i' key letter,
        eq_letter b'r' b'n' key letter,
        eq_letter b'r' b'r' key letter,
      )
      (rw (decode_aligned-Reads x 16 size (omega arith) b v h fits) (
        rw (
          eq_letter b'r' b't' key letter,
          eq_letter b'r' b'v' key letter,
          eq_letter b'r' b'w' key letter,
        )))

Takes-txid :
    (m : CommitRecord) (x : Key)
    → length x ≡ 16
    → Takes on_record_key b't' (string_text x) m (record m { txid = x })
unfolding on_record_key decode_record_key record_work maybe_read_dict_entry maybe_read_version
Takes-txid m x size key b letter v h fits =
    rw
      (
        eq_letter b't' b'c' key letter,
        eq_letter b't' b'i' key letter,
        eq_letter b't' b'n' key letter,
        eq_letter b't' b'r' key letter,
        eq_letter b't' b't' key letter,
      )
      (rw (decode_aligned-Reads x 16 size (omega arith) b v h fits)
        (rw (eq_letter b't' b'v' key letter, eq_letter b't' b'w' key letter)))

Takes-version :
    (m : CommitRecord) → Takes on_record_key b'v' (int_text 0) m (record m { version = 0 })
unfolding on_record_key decode_record_key record_work maybe_read_dict_entry maybe_read_version
Takes-version m key b letter v h fits =
    rw
      (
        eq_letter b'v' b'c' key letter,
        eq_letter b'v' b'i' key letter,
        eq_letter b'v' b'n' key letter,
        eq_letter b'v' b'r' key letter,
        eq_letter b'v' b't' key letter,
        eq_letter b'v' b'v' key letter,
      )
      (rw (read_integer-Reads 0 (omega arith) b v h fits) (rw (eq_letter b'v' b'w' key letter)))

-- A record whose work is not set yet gets the fields of `m`.
record_Entries :
    (m old : CommitRecord)
    → IsPlain m
    → Entries on_record_key old (record_entries m) (record m { work = old.work })
record_Entries m old s = rw (s.version_zero) (
    entry b'c' (string_text m.commkey) (Takes-commkey old m.commkey s.commkey_size) (
      entry b'i' (string_text m.next_hop) (Takes-next_hop _ m.next_hop s.next_hop_size) (
        entry b'n' (string_text m.nonce) (Takes-nonce _ m.nonce s.nonce_size) (
          entry b'r' (string_text m.rxid) (Takes-rxid _ m.rxid s.rxid_size) (
            entry b't' (string_text m.txid) (Takes-txid _ m.txid s.txid_size)
              (entry b'v' (int_text 0) (Takes-version _) done))))))

pub encode_record-Appends :
    (m : CommitRecord) → m.work ≡ none → Appends (encode_record m) (record_text m)
unfolding encode_record
encode_record-Appends m e = rw e (
    subst (Appends _) (simp (append_assoc, append-nil)) (
      Appends-seq start_dict-Appends (
        Appends-seq (write_dict_entry-Appends b'c' m.commkey) (
          Appends-seq (write_dict_entry-Appends b'i' m.next_hop) (
            Appends-seq (write_dict_entry-Appends b'n' m.nonce) (
              Appends-seq (write_dict_entry-Appends b'r' m.rxid) (
                Appends-seq (write_dict_entry-Appends b't' m.txid) (
                  Appends-seq write_version-Appends (Appends-seq return-Appends end-Appends)))))))))

with_work : (m : CommitRecord) (w : Option _) → m.work ≡ w → record m { work = w } ≡ m
with_work m w e = rw⁻¹ e refl

record_end : (m : CommitRecord) (b : Buffer) → on_record_key none m b ≡ (ok m, b)
unfolding on_record_key
record_end m b = refl

-- A record that stands in a buffer.
pub decode_record-record_text :
    (m old : CommitRecord) (b : Buffer)
    → IsPlain m
    → old.work ≡ none
    → IsValid b
    → Holds b.mem b.cur (record_text m)
    → b.cur + length (record_text m) ≤ b.base + b.sz
    → decode_record old b ≡ (ok m, advance (length (record_text m)) b)
unfolding decode_record
decode_record-record_text m old b s fresh v h fits =
    let size = length-append (record_entries m) (b'e' ∷ []) in
    let same : record m { work = old.work } ≡ m = with_work m old.work (s.no_work ∙ sym fresh) in
    read_dict-Entries on_record_key (record_Entries m old s) b v h (omega (arith, size))
      (record_end _)
    ∙ ap (λ z. (ok z, advance (length (record_entries m) + 2) b)) same
    ∙ ap (λ n. (ok m, advance n b)) (omega (arith, size))
