-- ===== src/Buffer/Write.antt =====
-- What the writing functions put into a buffer.
use uplexa_network.Prelude.{
  ℕ, zero, suc, ◌+◌, ◌≤◌, ◌<◌, ◌≡◌, refl, subst, ◌∙◌, List, [], ◌∷◌, ◌++◌, arith, length,
  length-append,
}
use uplexa_network.Buffer.Memory.{
  Mem, store, store_all, Holds, store_all-below, store_all-Holds, Holds-Agree, Holds-append,
}
use uplexa_network.Buffer.{Buffer, Io, ok, ◌>>◌, return, size_left, write, writef, vsnprintf}
use uplexa_network.Buffer.Valid.{IsValid, size_left_lem}

-- `c` is `b` with the bytes stored at the cursor and the cursor behind them.
pub record Extends (b c : Buffer) (xs : List ℕ) : Type 0 where
  pub base_same : c.base ≡ b.base
  pub sz_same : c.sz ≡ b.sz
  pub moved : c.cur ≡ b.cur + length xs
  pub holds : Holds c.mem b.cur xs
  pub below_same : (x : ℕ) → x < b.cur → c.mem x ≡ b.mem x

-- The operation appends exactly these bytes where a byte more than they take is free.
abbrev pub Appends : Io (Unit {0}) → List ℕ → Type 0
Appends f xs =
    (b : Buffer)
    → IsValid b
    → b.cur + length xs < b.base + b.sz
    → (c : Buffer) × (f b ≡ (ok tt, c)) × Extends b c xs

pub write-Appends : (xs : List ℕ) → Appends (write xs) xs
unfolding write
write-Appends xs b v h = (
  record b { mem = store_all b.mem b.cur xs; cur = b.cur + length xs },
  ground (arith, size_left_lem b v.ordered),
  record {
    base_same = refl;
    sz_same = refl;
    moved = refl;
    holds = store_all-Holds xs b.mem b.cur;
    below_same = λ x k. store_all-below xs b.mem b.cur x k;
  },
)

vsnprintf-below : (n : ℕ) (text : List ℕ) (m : Mem) (a x : ℕ) → x < a → vsnprintf m a n text x ≡ m x
unfolding vsnprintf
vsnprintf-below zero text m a x h = refl
vsnprintf-below (suc zero) text m a x h = ground arith
vsnprintf-below (suc (suc n)) [] m a x h = ground arith
vsnprintf-below (suc (suc n)) (c ∷ text) m a x h =
    ground (arith, vsnprintf-below (suc n) text (store m a c) (suc a) x)

vsnprintf-Holds :
    (text : List ℕ) (n : ℕ) (m : Mem) (a : ℕ)
    → length text < n
    → Holds (vsnprintf m a n text) a text
unfolding vsnprintf
vsnprintf-Holds [] n m a h = tt
vsnprintf-Holds (c ∷ text) zero m a h = absurd (omega arith)
vsnprintf-Holds (c ∷ text) (suc zero) m a h = absurd (omega arith)
vsnprintf-Holds (c ∷ text) (suc (suc n)) m a h = (
  ground (arith, vsnprintf-below (suc n) text (store m a c) (suc a) a),
  vsnprintf-Holds text (suc n) (store m a c) (suc a) (omega arith),
)

pub writef-Appends : (xs : List ℕ) → 1 ≤ length xs → Appends (writef xs) xs
unfolding writef
writef-Appends xs p b v h = (
  record b { mem = vsnprintf b.mem b.cur (size_left b) xs; cur = b.cur + length xs },
  ground (arith, size_left_lem b v.ordered),
  record {
    base_same = refl;
    sz_same = refl;
    moved = refl;
    holds = vsnprintf-Holds xs (size_left b) b.mem b.cur (omega (arith, size_left_lem b v.ordered));
    below_same = λ x k. vsnprintf-below (size_left b) xs b.mem b.cur x k;
  },
)

Extends-IsValid :
    (b c : Buffer) (xs : List ℕ)
    → IsValid b
    → b.cur + length xs ≤ b.base + b.sz
    → Extends b c xs
    → IsValid c
Extends-IsValid b c xs v h e = omega arith

Extends-trans :
    (b c d : Buffer) (xs ys : List ℕ) → Extends b c xs → Extends c d ys → Extends b d (xs ++ ys)
Extends-trans b c d xs ys e f = record {
  base_same = f.base_same ∙ e.base_same;
  sz_same = f.sz_same ∙ e.sz_same;
  moved = omega (arith, length-append xs ys);
  holds =
      Holds-append xs ys d.mem b.cur
        (Holds-Agree xs c.mem d.mem b.cur 0 c.cur (λ x _ k. f.below_same x k) (omega arith)
          (omega arith) e.holds)
        (subst (λ n. Holds d.mem n ys) e.moved f.holds);
  below_same = λ x k. f.below_same x (omega arith) ∙ e.below_same x k;
}

-- Two operations, one after the other.
-- Nothing is appended.
pub return-Appends : Appends (return tt) []
return-Appends b v h = (
  b,
  refl,
  record {
    base_same = refl;
    sz_same = refl;
    moved = omega arith;
    holds = tt;
    below_same = λ x _. refl;
  },
)

pub Appends-seq :
    {f g : Io (Unit {0})} {xs ys : List ℕ}
    → Appends f xs
    → Appends g ys
    → Appends (f >> g) (xs ++ ys)
Appends-seq {f} {g} {xs} {ys} p q b v h =
    let (c, e, x) = p b v (omega (arith, length-append xs ys)) in
    let (d, e', y) =
      q c (Extends-IsValid b c xs v (omega (arith, length-append xs ys)) x)
        (omega (arith, length-append xs ys)) in
    (d, rw e e', Extends-trans b c d xs ys x y)
