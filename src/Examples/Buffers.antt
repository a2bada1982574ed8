-- ===== src/Examples/Buffers.antt =====
-- Runs of udap/buffer.cpp and udap/bencode.c.
use uplexa_network.Prelude.{
  ℕ, ◌≤◌, ◌<◌, ◌≡◌, ◌↔◌, ◌⊎◌, inr, Bool, true, false, Option, none, some, List, [], ◌∷◌, arith,
  length,
}
use uplexa_network.Buffer.{Buffer, Io, ok, failed, size_left, writef, eq, Holds, and_then}
use uplexa_network.Buffer.Memory.{store_all}
use uplexa_network.Buffer.Valid.{IsValid}
use uplexa_network.Buffer.Bounds.{writef-bounds}
use uplexa_network.Buffer.Read.{eq_iff}
use uplexa_network.Bencode.{read_integer, read_dict, read_list}
use uplexa_network.Bencode.Progress.{
  Forward, KeyForward, ItemForward, Moves-refl, read_integer-Forward, read_dict-Forward,
  read_list-Forward, and_then-Forward,
}

-- A buffer over a text that stands at address 0.
abbrev holding : List ℕ → Buffer
holding text = record { mem = store_all (λ _. 0) 0 text; base = 0; cur = 0; sz = length text }

abbrev largest_text : List ℕ
largest_text = b'i' ∷ b'-' ∷ b'1' ∷ b'e' ∷ []

abbrev four_bytes : Buffer
four_bytes = record { mem = λ _. 7; base = 8; cur = 8; sz = 4 }

four_bytes-IsValid : IsValid four_bytes
four_bytes-IsValid = record { ordered = omega arith; inside = omega arith }

-- A callback that reads a number for each key.
abbrev numbers_on_key : Option Buffer → List ℕ → Io (List ℕ)
numbers_on_key none ns b = (ok ns, b)
numbers_on_key (some _) ns b = and_then (read_integer b) (λ n c. (ok (n ∷ ns), c))

numbers_on_key-KeyForward : KeyForward numbers_on_key
numbers_on_key-KeyForward none ns b h = Moves-refl b
numbers_on_key-KeyForward (some _) ns b h =
    and_then-Forward 1 0 0 b (read_integer b) _ (omega arith) (read_integer-Forward b)
      (λ n c m. Moves-refl c)

abbrev numbers_on_item : Bool → List ℕ → Io (List ℕ)
numbers_on_item false ns b = (ok ns, b)
numbers_on_item true ns b = and_then (read_integer b) (λ n c. (ok (n ∷ ns), c))

numbers_on_item-ItemForward : ItemForward numbers_on_item
numbers_on_item-ItemForward ns b h = (
  and_then-Forward 1 0 1 b (read_integer b) _ (omega arith) (read_integer-Forward b)
      (λ n c m. Moves-refl c),
  Moves-refl b,
)

abbrev a_dict : Buffer
a_dict = holding (b'd' ∷ b'1' ∷ b':' ∷ b'a' ∷ b'i' ∷ b'7' ∷ b'e' ∷ b'e' ∷ [])

abbrev a_list : Buffer
a_list = holding (b'l' ∷ b'i' ∷ b'7' ∷ b'e' ∷ b'e' ∷ [])

read_dict-Forward_example : Forward 2 a_dict (read_dict numbers_on_key [] a_dict)
read_dict-Forward_example =
    read_dict-Forward numbers_on_key [] a_dict numbers_on_key-KeyForward (omega arith)

read_list-Forward_example : Forward 2 a_list (read_list numbers_on_item [] a_list)
read_list-Forward_example =
    read_list-Forward numbers_on_item [] a_list numbers_on_item-ItemForward (omega arith)

abbrev a_prefix : List ℕ
a_prefix = b'4' ∷ b':' ∷ []

writef-bounds_example :
    let r = writef a_prefix four_bytes in
    IsValid r.1
    × (r.1.mem 20 ≡ 7)
    × (((r.0 ≡ ok tt) × (1 ≤ 2) × (2 ≤ size_left four_bytes) × (r.1.cur ≡ 10))
        ⊎ ((r.0 ≡ failed) × ((a_prefix ≡ []) ⊎ (size_left four_bytes < 2)) × (r.1.cur ≡ 8)))
writef-bounds_example = writef-bounds four_bytes a_prefix 20 four_bytes-IsValid (inr (omega arith))

abbrev hello : List ℕ
hello = b'h' ∷ b'e' ∷ b'y' ∷ []

abbrev a_string : Buffer
a_string = holding (b'3' ∷ b':' ∷ hello)

eq_iff_example :
    (eq (holding hello) (b'h' ∷ b'e' ∷ []) ≡ true)
    ↔ ((2 ≤ 3) × Holds (holding hello).mem 0 (b'h' ∷ b'e' ∷ []))
eq_iff_example =
    eq_iff (holding hello) (b'h' ∷ b'e' ∷ [])
      (record { ordered = omega arith; inside = omega arith })
