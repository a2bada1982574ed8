-- ===== src/Iwp/Words.antt =====
-- Machine words as memcpy lays them out on a little-endian host.
use uplexa_network.Prelude.{
  ℕ, zero, suc, ◌+◌, ◌*◌, ◌/◌, ◌%◌, ◌^◌, ◌<◌, ◌≡◌, refl, List, [], ◌∷◌, arith, length, ap,
}
use uplexa_network.Buffer.{Mem, Holds}

-- The `n` bytes of a word, and the word of `n` bytes at an address.
unfoldable pub word : ℕ → ℕ → List ℕ
word zero v = []
word (suc n) v = (v % 256) ∷ word n (v / 256)

unfoldable pub word_at : ℕ → Mem → ℕ → ℕ
word_at zero m a = 0
word_at (suc n) m a = m a + 256 * word_at n m (suc a)

pub length-word : (n v : ℕ) → length (word n v) ≡ n
unfolding word
length-word zero v = refl
length-word (suc n) v = ap suc (length-word n (v / 256))

-- A word is read back where it fits.
pub word_at-word :
    (n v : ℕ) (m : Mem) (a : ℕ) → v < 256 ^ n → Holds m a (word n v) → word_at n m a ≡ v
unfolding word word_at
word_at-word zero v m a h p = omega arith
word_at-word (suc n) v m a h p =
    omega (arith, p.0, word_at-word n (v / 256) m (suc a) (ground arith) p.1)
