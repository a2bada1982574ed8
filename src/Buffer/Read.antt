-- ===== src/Buffer/Read.antt =====
-- What the reading functions take from a buffer whose region holds given bytes.
use uplexa_network.Prelude.{
  ℕ, zero, suc, ◌+◌, ◌≤◌, ◌<◌, ◌≡◌, refl, subst, List, [], ◌∷◌, arith, length, ◌↔◌, Lacks, true,
}
use uplexa_network.Buffer.Memory.{Holds}
use uplexa_network.Buffer.{Buffer, Io, ok, read_loop, read_until, advance, eq_from, eq}
use native.Mathlib.Decide.{dec_lt}
use uplexa_network.Buffer.Valid.{IsValid, size_left_lem}

-- The operation reads the value from exactly these bytes, wherever they stand in a buffer.
abbrev pub Reads {ℓ} : {A : Type ℓ} → Io A → List ℕ → A → Type ℓ
Reads f xs a =
    (b : Buffer)
    → IsValid b
    → Holds b.mem b.cur xs
    → b.cur + length xs ≤ b.base + b.sz
    → f b ≡ (ok a, advance (length xs) b)

-- The loop stops at the delimiter.
read_loop-delim :
    (b : Buffer) (delim : ℕ) (xs : List ℕ) (room cur : ℕ)
    → Lacks delim xs
    → length xs ≤ room
    → Holds b.mem cur xs
    → b.mem (cur + length xs) ≡ delim
    → cur + length xs < b.base + b.sz
    → read_loop b delim room cur ≡ (xs, cur + length xs)
unfolding read_loop
read_loop-delim b delim [] zero cur l r h d e = ground arith
read_loop-delim b delim [] (suc room) cur l r h d e = ground arith
read_loop-delim b delim (x ∷ xs) zero cur l r h d e = absurd (omega arith)
read_loop-delim b delim (x ∷ xs) (suc room) cur l r h d e = ground (
  arith,
  read_loop-delim b delim xs room (suc cur) l.1 (omega arith) h.1
      (subst (λ n. b.mem n ≡ delim) (omega arith) d) (omega arith),
)

pub read_until-delim :
    (b : Buffer) (delim : ℕ) (xs : List ℕ) (room : ℕ)
    → IsValid b
    → Lacks delim xs
    → length xs ≤ room
    → Holds b.mem b.cur xs
    → b.mem (b.cur + length xs) ≡ delim
    → b.cur + length xs < b.base + b.sz
    → read_until delim room b ≡ (xs, advance (length xs) b)
unfolding read_until
read_until-delim b delim xs room v l r h d e =
    rw (read_loop-delim b delim xs room b.cur l r h d e)
      (ground (arith, size_left_lem (advance (length xs) b) (omega arith)))

-- The loop moves forward, by at most `room` bytes and one for each byte that it copies.
pub read_loop-bounds :
    (b : Buffer) (delim room cur : ℕ)
    → let r = read_loop b delim room cur in (r.1 ≡ cur + length r.0) × (length r.0 ≤ room)
unfolding read_loop
read_loop-bounds b delim zero cur = ground arith
read_loop-bounds b delim (suc room) cur = ground (arith, read_loop-bounds b delim room (suc cur))

-- From inside the region, it does not move past the end.
read_loop-inside :
    (b : Buffer) (delim room cur : ℕ)
    → cur ≤ b.base + b.sz
    → (read_loop b delim room cur).1 ≤ b.base + b.sz
unfolding read_loop
read_loop-inside b delim zero cur h = ground arith
read_loop-inside b delim (suc room) cur h = ground (arith, read_loop-inside b delim room (suc cur))

-- udap_buffer_read_until on a valid buffer leaves it valid and its memory as it is, never goes
-- back nor past the end, and gives at most as many bytes as there is room for.
pub read_until-bounds :
    (b : Buffer) (delim room : ℕ)
    → IsValid b
    → let r = read_until delim room b in
      IsValid r.1 × (b.cur ≤ r.1.cur) × (r.1 ≡ record b { cur = r.1.cur }) × (length r.0 ≤ room)
unfolding read_until
read_until-bounds b delim room v =
    ground (arith, read_loop-bounds b delim room b.cur, read_loop-inside b delim room b.cur)

eq_from_iff :
    (b : Buffer) (cur : ℕ) (str : List ℕ)
    → cur ≤ b.base + b.sz
    → (eq_from b cur str ≡ true) ↔ ((cur + length str ≤ b.base + b.sz) × Holds b.mem cur str)
unfolding eq_from
eq_from_iff b cur [] h = (λ _. (omega arith, tt), λ _. refl)
eq_from_iff b cur (c ∷ str) h = elim (dec_lt cur (b.base + b.sz)) [
  | yes p ↦ (
    λ e. ground (arith, (eq_from_iff b (suc cur) str p).0),
    λ e. ground (arith, (eq_from_iff b (suc cur) str p).1 (omega arith, e.1.1)),
  )
  | no p ↦ (λ e. ground arith, λ e. absurd (omega arith))
]

-- udap_buffer_eq on a valid buffer answers true exactly when the string is a prefix of what is
-- left in the buffer.
pub eq_iff :
    (b : Buffer) (str : List ℕ)
    → IsValid b
    → (eq b str ≡ true) ↔ ((b.cur + length str ≤ b.base + b.sz) × Holds b.mem b.cur str)
unfolding eq
eq_iff b str v = eq_from_iff b b.cur str v.inside
