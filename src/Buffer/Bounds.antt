-- ===== src/Buffer/Bounds.antt =====
-- The writing functions stay inside the region, and what `udap_buffer_writef` does when it is full.
use uplexa_network.Prelude.{
  ℕ, zero, suc, ◌+◌, ◌≤◌, ◌<◌, ◌≡◌, refl, List, [], ◌∷◌, ◌++◌, arith, length, length-append, ◌⊎◌,
  inl, inr,
}
use uplexa_network.Buffer.Memory.{Mem, store, store_all}
use uplexa_network.Buffer.{Buffer, ok, failed, size_left, write, writef, vsnprintf}
use uplexa_network.Buffer.Valid.{IsValid, size_left_lem}

-- The address is not between the cursor and the end of the region.
abbrev pub Outside : Buffer → ℕ → Type 0
Outside b x = (x < b.cur) ⊎ (b.base + b.sz ≤ x)

store_all-outside :
    (vs : List ℕ) (m : Mem) (a x : ℕ) → (x < a) ⊎ (a + length vs ≤ x) → store_all m a vs x ≡ m x
unfolding store_all
store_all-outside [] m a x h = refl
store_all-outside (v ∷ vs) m a x h = ground (arith, store_all-outside vs (store m a v) (suc a) x)

vsnprintf-outside :
    (n : ℕ) (text : List ℕ) (m : Mem) (a x : ℕ)
    → (x < a) ⊎ (a + n ≤ x)
    → vsnprintf m a n text x ≡ m x
unfolding vsnprintf
vsnprintf-outside zero text m a x h = refl
vsnprintf-outside (suc zero) text m a x h = ground arith
vsnprintf-outside (suc (suc n)) [] m a x h = ground arith
vsnprintf-outside (suc (suc n)) (c ∷ text) m a x h =
    ground (arith, vsnprintf-outside (suc n) text (store m a c) (suc a) x)

-- udap_buffer_write on a valid buffer either copies all its bytes and moves behind them, exactly
-- when they fit, or changes nothing; a byte outside the free part of the region stays as it is,
-- and the buffer stays valid.
pub write-bounds :
    (b : Buffer) (xs : List ℕ) (x : ℕ)
    → IsValid b
    → Outside b x
    → let r = write xs b in
      IsValid r.1
      × (r.1.mem x ≡ b.mem x)
      × (((r.0 ≡ ok tt) × (length xs ≤ size_left b) × (r.1.cur ≡ b.cur + length xs))
          ⊎ ((r.0 ≡ failed) × (size_left b < length xs) × (r.1 ≡ b)))
unfolding write
write-bounds b xs x v o = (
  ground (arith, size_left_lem b v.ordered),
  ground (arith, size_left_lem b v.ordered, store_all-outside xs b.mem b.cur x),
  ground arith,
)

-- udap_buffer_writef on a valid buffer leaves a byte outside the free part of the region as it is,
-- and the buffer valid; it fails exactly when the text is empty or longer than the free part, and
-- leaves the cursor then.
pub writef-bounds :
    (b : Buffer) (xs : List ℕ) (x : ℕ)
    → IsValid b
    → Outside b x
    → let r = writef xs b in
      IsValid r.1
      × (r.1.mem x ≡ b.mem x)
      × (((r.0 ≡ ok tt)
            × (1 ≤ length xs)
            × (length xs ≤ size_left b)
            × (r.1.cur ≡ b.cur + length xs))
          ⊎ ((r.0 ≡ failed) × ((xs ≡ []) ⊎ (size_left b < length xs)) × (r.1.cur ≡ b.cur)))
unfolding writef
writef-bounds b [] x v o = (
  ground (arith, size_left_lem b v.ordered),
  ground (arith, size_left_lem b v.ordered, vsnprintf-outside (size_left b) [] b.mem b.cur x),
  inr (refl, inl refl, refl),
)
writef-bounds b (y ∷ xs) x v o = (
  ground (arith, size_left_lem b v.ordered),
  ground (arith, size_left_lem b v.ordered, vsnprintf-outside (size_left b) (y ∷ xs) b.mem b.cur x),
  ground arith,
)

vsnprintf_cut :
    (xs : List ℕ) (c : ℕ) (m : Mem) (a : ℕ)
    → vsnprintf m a (suc (length xs)) (xs ++ (c ∷ [])) (a + length xs) ≡ 0
unfolding vsnprintf
vsnprintf_cut [] c m a = ground arith
vsnprintf_cut (x ∷ xs) c m a = ground (arith, vsnprintf_cut xs c (store m a x) (suc a))

-- A text that fills the free part of a valid buffer to the last byte is not refused:
-- udap_buffer_writef returns true and counts the whole text, but the byte of its last character is
-- a NUL.
pub writef_full :
    (b : Buffer) (xs : List ℕ) (c : ℕ)
    → IsValid b
    → size_left b ≡ length xs + 1
    → let r = writef (xs ++ (c ∷ [])) b in
      (r.0 ≡ ok tt) × (r.1.cur ≡ b.base + b.sz) × (r.1.mem (b.cur + length xs) ≡ 0)
unfolding writef
writef_full b xs c v h =
    ground
      (arith, size_left_lem b v.ordered, length-append xs (c ∷ []), vsnprintf_cut xs c b.mem b.cur)
