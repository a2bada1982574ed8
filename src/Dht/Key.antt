-- ===== src/Dht/Key.antt =====
-- Key_t of include/udap/dht.hpp over AlignedBuffer of include/udap/aligned.hpp: 32 bytes under the
-- XOR metric. A key is the list of its bytes; the word-wise `^` of the source is byte-wise.
pub mod Laws
use Prim.Native.Nat.{bit_xor}
use uplexa_network.Prelude.{
  ℕ, zero, suc, ◌+◌, Bool, true, false, List, [], ◌∷◌, ltb, ◌==◌, if◌then◌else◌, length, ◌≡◌,
}

abbrev pub Key : Type 0
Key = List ℕ

-- `operator^`.
unfoldable pub xor : Key → Key → Key
xor [] ys = []
xor (x ∷ xs) [] = []
xor (x ∷ xs) (y ∷ ys) = bit_xor x y ∷ xor xs ys

-- memcmp(a, b, 32) < 0, and memcmp(a, b, 32) == 0.
unfoldable pub lt : Key → Key → Bool
lt [] ys = false
lt (x ∷ xs) [] = false
lt (x ∷ xs) (y ∷ ys) =
    let rest = lt xs ys in if ltb x y then true else if x == y then rest else false

unfoldable pub eq : Key → Key → Bool
eq [] [] = true
eq [] (y ∷ ys) = false
eq (x ∷ xs) [] = false
eq (x ∷ xs) (y ∷ ys) = let rest = eq xs ys in if x == y then rest else false

unfoldable pub fill : ℕ → ℕ → Key
fill zero f = []
fill (suc n) f = f ∷ fill n f

-- `Fill(0xff)` and `Zero()` of a 32-byte key.
abbrev pub all_ones : Key
all_ones = fill 32 255

unfoldable pub is_zero : Key → Bool
is_zero k = eq k (fill 32 0)

-- XorMetric(us)(left, right).
unfoldable pub closer : Key → Key → Key → Bool
closer us left right = lt (xor us left) (xor us right)
