-- ===== src/Bencode/Fields.antt =====
-- The byte fields of messages: AlignedBuffer of include/udap/aligned.hpp and Encrypted of
-- include/udap/encrypted.hpp, and dictionary entries of one field.
use uplexa_network.Prelude.{
  ℕ, ◌+◌, ◌^◌, ◌<◌, ◌≡◌, subst, List, [], ◌∷◌, ◌++◌, if◌then◌else◌, length, arith, ◌==◌, ◌≤◌,
}
use uplexa_network.Text.{print_long, decimal, to_digits}
use uplexa_network.Buffer.{Buffer, Io, ok, failed, and_then, load_all}
use uplexa_network.Buffer.Memory.{Holds, load_all-Holds, Holds-split}
use uplexa_network.Buffer.Read.{Reads}
use uplexa_network.Buffer.Write.{Appends, Appends-seq}
use uplexa_network.Bencode.{
  write_bytestring, write_version_entry, read_string, write_dict_entry, write_dict_int,
  write_dict_msg_type,
}
use uplexa_network.Bencode.Wire.{
  int_text, string_text, write_bytestring-Appends, write_uint64-Appends,
  write_version_entry-Appends,
}
use uplexa_network.Bencode.RoundTrip.{read_string_lem}
use uplexa_network.Bencode.Dict.{key_text}

-- AlignedBuffer::BDecode for a buffer of `n` bytes.
unfoldable pub decode_aligned : ℕ → Io (List ℕ)
decode_aligned n b =
    and_then (read_string b)
      (λ s c. if s.sz == n then (ok (load_all s.mem s.base n), c) else (failed, c))

-- Encrypted::BDecode.
unfoldable pub decode_encrypted : Io (List ℕ)
decode_encrypted b =
    and_then (read_string b)
      (λ s c. if s.sz == 0 then (failed, c) else (ok (load_all s.mem s.base s.sz), c))

-- The bytes that a string's buffer is over.
pub string-bytes :
    (xs : List ℕ) (b : Buffer)
    → Holds b.mem b.cur (string_text xs)
    → load_all b.mem (b.cur + (length (print_long (length xs)) + 1)) (length xs) ≡ xs
string-bytes xs b h =
    let n = length (print_long (length xs)) + 1 in
    load_all-Holds xs b.mem (b.cur + n) (
      subst (λ x. Holds b.mem x xs) (omega arith)
        (Holds-split (print_long (length xs)) (b':' ∷ xs) b.mem b.cur h).1.1)

pub decode_aligned-Reads :
    (xs : List ℕ) (n : ℕ)
    → length xs ≡ n
    → n < 10 ^ 9
    → Reads (decode_aligned n) (string_text xs) xs
unfolding decode_aligned
decode_aligned-Reads xs n size small b v h fits =
    let bytes = string-bytes xs b h in
    rw⁻¹ size (rw (read_string_lem xs b (omega arith) v h fits) (ground (arith, bytes)))

pub decode_encrypted-Reads :
    (xs : List ℕ) → 1 ≤ length xs → length xs < 10 ^ 9 → Reads decode_encrypted (string_text xs) xs
unfolding decode_encrypted
decode_encrypted-Reads xs size small b v h fits =
    let bytes = string-bytes xs b h in
    rw (read_string_lem xs b small v h fits) (ground (arith, bytes))

pub write_key-Appends : (k : ℕ) → Appends (write_bytestring (k ∷ [])) (key_text k)
unfolding print_long decimal to_digits
write_key-Appends k = write_bytestring-Appends (k ∷ [])

pub write_dict_entry-Appends :
    (k : ℕ) (xs : List ℕ)
    → Appends (write_dict_entry k (write_bytestring xs)) (key_text k ++ string_text xs)
unfolding write_dict_entry
write_dict_entry-Appends k xs = Appends-seq (write_key-Appends k) (write_bytestring-Appends xs)

pub write_dict_int-Appends : (k i : ℕ) → Appends (write_dict_int k i) (key_text k ++ int_text i)
unfolding write_dict_int
write_dict_int-Appends k i = Appends-seq (write_key-Appends k) (write_uint64-Appends i)

pub write_dict_msg_type-Appends :
    (k t : ℕ) → Appends (write_dict_msg_type k t) (key_text k ++ key_text t)
unfolding write_dict_msg_type
write_dict_msg_type-Appends k t = Appends-seq (write_key-Appends k) (write_key-Appends t)

pub write_version-Appends : Appends write_version_entry (key_text b'v' ++ int_text 0)
unfolding print_long decimal to_digits
write_version-Appends = write_version_entry-Appends
