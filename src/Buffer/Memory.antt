-- ===== src/Buffer/Memory.antt =====
-- Memory as a function from addresses to bytes, and memcpy into and out of it.
use uplexa_network.Prelude.{
  ℕ, zero, suc, ◌+◌, ◌≤◌, ◌<◌, ◌≡◌, refl, List, [], ◌∷◌, ◌++◌, ◌==◌, if◌then◌else◌, length, arith,
  ◌∙◌, subst, ap,
}
use native.Mathlib.Nat.{add-zero, zero-add}

abbrev pub Mem : Type 0
Mem = ℕ → ℕ

abbrev pub store : Mem → ℕ → ℕ → Mem
store m a v x = if x == a then v else m x

-- memcpy of a list of bytes to the address `a`.
unfoldable pub store_all : Mem → ℕ → List ℕ → Mem
store_all m a [] = m
store_all m a (v ∷ vs) = store_all (store m a v) (suc a) vs

-- The `n` bytes at the address `a`.
unfoldable pub load_all : Mem → ℕ → ℕ → List ℕ
load_all m a zero = []
load_all m a (suc n) = m a ∷ load_all m (suc a) n

-- The bytes stand at the address `a`.
abbrev pub Holds : Mem → ℕ → List ℕ → Type 0
Holds m a [] = Unit {0}
Holds m a (v ∷ vs) = (m a ≡ v) × Holds m (suc a) vs

-- Two memories agree on the addresses from `lo` up to `hi`.
abbrev Agree : ℕ → ℕ → Mem → Mem → Type 0
Agree lo hi m m' = (x : ℕ) → lo ≤ x → x < hi → m' x ≡ m x

pub store_all-below : (vs : List ℕ) (m : Mem) (a x : ℕ) → x < a → store_all m a vs x ≡ m x
unfolding store_all
store_all-below [] m a x h = refl
store_all-below (v ∷ vs) m a x h = ground (arith, store_all-below vs (store m a v) (suc a) x)

pub store_all-Holds : (vs : List ℕ) (m : Mem) (a : ℕ) → Holds (store_all m a vs) a vs
unfolding store_all
store_all-Holds [] m a = tt
store_all-Holds (v ∷ vs) m a = (
  ground (arith, store_all-below vs (store m a v) (suc a) a),
  store_all-Holds vs (store m a v) (suc a),
)

pub Holds-Agree :
    (vs : List ℕ) (m m' : Mem) (a lo hi : ℕ)
    → Agree lo hi m m'
    → lo ≤ a
    → a + length vs ≤ hi
    → Holds m a vs
    → Holds m' a vs
Holds-Agree [] m m' a lo hi g h k p = tt
Holds-Agree (v ∷ vs) m m' a lo hi g h k p =
    (g a h (omega arith) ∙ p.0, Holds-Agree vs m m' (suc a) lo hi g (omega arith) (omega arith) p.1)

pub Holds-append :
    (xs ys : List ℕ) (m : Mem) (a : ℕ)
    → Holds m a xs
    → Holds m (a + length xs) ys
    → Holds m a (xs ++ ys)
Holds-append [] ys m a h k = rw add-zero at k
Holds-append (x ∷ xs) ys m a h k =
    (h.0, Holds-append xs ys m (suc a) h.1 (subst (λ n. Holds m n ys) (omega arith) k))

pub Holds-split :
    (xs ys : List ℕ) (m : Mem) (a : ℕ)
    → Holds m a (xs ++ ys)
    → Holds m a xs × Holds m (a + length xs) ys
Holds-split [] ys m a h = (tt, rw add-zero h)
Holds-split (x ∷ xs) ys m a h =
    let r = Holds-split xs ys m (suc a) h.1 in
    ((h.0, r.0), subst (λ n. Holds m n ys) (omega arith) r.1)

pub load_all-Holds : (vs : List ℕ) (m : Mem) (a : ℕ) → Holds m a vs → load_all m a (length vs) ≡ vs
unfolding load_all
load_all-Holds [] m a h = refl
load_all-Holds (v ∷ vs) m a h = ground (arith, load_all-Holds vs m (suc a) h.1)

pub load_all-split :
    (m : Mem) (a k j : ℕ) → load_all m a (k + j) ≡ load_all m a k ++ load_all m (a + k) j
unfolding load_all
load_all-split m a zero j = rw (zero-add, add-zero) refl
load_all-split m a (suc k) j =
    let front : suc k + j ≡ suc (k + j) = omega arith in
    let back : a + suc k ≡ suc a + k = omega arith in
    rw (front, back) (ap (λ xs. m a ∷ xs) (load_all-split m (suc a) k j))

pub length-load_all : (m : Mem) (a k : ℕ) → length (load_all m a k) ≡ k
unfolding load_all
length-load_all m a zero = refl
length-load_all m a (suc k) = ap (λ n. suc n) (length-load_all m (suc a) k)
