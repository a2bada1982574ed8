-- ===== src/Bencode/Wire.antt =====
-- The bencoded texts, and that the writing functions of bencode.c append them.
use uplexa_network.Prelude.{ℕ, List, [], ◌∷◌, ◌++◌, arith, length, length-append, append_assoc}
use uplexa_network.Text.{print_long, print_int}
use uplexa_network.Buffer.Write.{Appends, write-Appends, writef-Appends, Appends-seq}
use uplexa_network.Bencode.{
  write_bytestring, write_uint64, start_list, start_dict, end, write_version_entry, write_int,
}

abbrev pub int_text : ℕ → List ℕ
int_text v = b'i' ∷ (print_long v ++ (b'e' ∷ []))

abbrev pub string_text : List ℕ → List ℕ
string_text xs = print_long (length xs) ++ (b':' ∷ xs)

abbrev pub version_text : List ℕ
version_text = b'1' ∷ b':' ∷ b'v' ∷ b'i' ∷ b'0' ∷ b'e' ∷ []

pub write_bytestring-Appends : (xs : List ℕ) → Appends (write_bytestring xs) (string_text xs)
unfolding write_bytestring
write_bytestring-Appends xs = rw (← append_assoc (print_long (length xs)) (b':' ∷ []) xs) (
    Appends-seq
      (writef-Appends (print_long (length xs) ++ (b':' ∷ []))
        (omega (arith, length-append (print_long (length xs)) (b':' ∷ []))))
      (write-Appends xs))

pub write_uint64-Appends : (v : ℕ) → Appends (write_uint64 v) (int_text v)
unfolding write_uint64
write_uint64-Appends v = writef-Appends (int_text v) (omega arith)

pub write_int-Appends : (v : ℕ) → Appends (write_int v) (b'i' ∷ (print_int v ++ (b'e' ∷ [])))
unfolding write_int
write_int-Appends v = writef-Appends (b'i' ∷ (print_int v ++ (b'e' ∷ []))) (omega arith)

pub start_list-Appends : Appends start_list (b'l' ∷ [])
unfolding start_list
start_list-Appends = write-Appends (b'l' ∷ [])

pub start_dict-Appends : Appends start_dict (b'd' ∷ [])
unfolding start_dict
start_dict-Appends = write-Appends (b'd' ∷ [])

pub end-Appends : Appends end (b'e' ∷ [])
unfolding end
end-Appends = write-Appends (b'e' ∷ [])

pub write_version_entry-Appends : Appends write_version_entry version_text
unfolding write_version_entry print_int
write_version_entry-Appends = writef-Appends version_text (omega arith)
