-- ===== src/Codel/Drops.antt =====
-- The queue gives out all of its items and drops none.
use uplexa_network.Prelude.{
  ℕ, zero, suc, ◌-◌, ◌^◌, ◌<◌, ◌≡◌, ◌≢◌, ◌⊎◌, inl, inr, refl, List, [], ◌∷◌, ◌++◌, length, arith,
  ltb, ◌==◌, Bool-cases,
}
use mathlib.Core.List.{Perm}
use mathlib.Core.List.Perm
use uplexa_network.Clock.{elapsed}
use uplexa_network.Codel.{
  Item, CodelQueue, put, take_top, min, Processed, last_item, drain, process,
}

-- An item of the time of the first put is there, or nothing was put yet.
abbrev pub HasTime : ℕ → List Item → Type 0
HasTime t [] = ⊥
HasTime t (i ∷ is) = (i.time ≡ t) ⊎ HasTime t is

abbrev pub IsFilled : CodelQueue → Type 0
IsFilled q =
    (q.first_put < 2 ^ 64) × ((q.first_put ≡ 0) × (q.items ≡ []) ⊎ HasTime q.first_put q.items)

length-take_top : (i : Item) (is : List Item) → length (take_top i is).1 ≡ length is
unfolding take_top
length-take_top i [] = refl
length-take_top i (j ∷ js) = ground (arith, length-take_top j js)

Perm-take_top : (i : Item) (is : List Item) → Perm ((take_top i is).0 ∷ (take_top i is).1) (i ∷ is)
unfolding take_top
Perm-take_top i [] = Perm.refl _
Perm-take_top i (j ∷ js) = elim (Bool-cases (ltb i.time (take_top j js).0.time)) [
  | inl e ↦ rw e (Perm.trans (Perm.swap _ _ _) (Perm.cons i (Perm-take_top j js)))
  | inr e ↦ rw e (Perm.refl _)
]

HasTime-take_top :
    (t : ℕ) (i : Item) (is : List Item)
    → HasTime t (i ∷ is)
    → ((take_top i is).0.time ≡ t) ⊎ HasTime t (take_top i is).1
unfolding take_top
HasTime-take_top t i [] h = h
HasTime-take_top t i (j ∷ js) h = elim (Bool-cases (ltb i.time (take_top j js).0.time)) [
  | inr e ↦ rw e h
  | inl e ↦ rw e (elim h [
    | inl here ↦ inr (inl here)
    | inr there ↦ elim (HasTime-take_top t j js there) [
      | inl top ↦ inl top
      | inr rest ↦ inr (inr rest)
    ]
  ])
]

-- The lowest difference is 0 once the item of the first put was seen.
elapsed_same : (t : ℕ) → t < 2 ^ 64 → elapsed t t ≡ 0
elapsed_same t h = omega arith

-- The lowest difference after a top.
low_zero :
    (t lowest : ℕ) (i : Item) (is : List Item)
    → t < 2 ^ 64
    → (lowest ≡ 0) ⊎ HasTime t (i ∷ is)
    → (min (elapsed (take_top i is).0.time t) lowest ≡ 0) ⊎ HasTime t (take_top i is).1
low_zero t lowest i is small (inl z) = inl (ground arith)
low_zero t lowest i is small (inr h) = elim (HasTime-take_top t i is h) [
  | inl e ↦ inl (rw (e, elapsed_same t small) (ground arith))
  | inr rest ↦ inr rest
]

module _ (slower : ℕ → ℕ → ℕ) where
  round :
      (q : CodelQueue) (low : ℕ) (top : Item) (rest : List Item) (r : Processed)
      → (low ≡ 0) ⊎ HasTime q.first_put rest
      → Perm r.delivered rest × (r.dropped ≡ [])
      → let done : Processed = elim rest [
        | [] ↦ last_item slower low top q
        | _ ∷ _ ↦ record r { delivered = top ∷ r.delivered }
      ] in
        Perm done.delivered (top ∷ rest) × (done.dropped ≡ [])
  unfolding last_item
  round q low top [] r (inl z) p = rw z (Perm.refl _, refl)
  round q low top [] r (inr h) p = elim h [ ]
  round q low top (x ∷ rest) r z (p, d) = (Perm.cons top p, d)

  drain-Perm :
      (n lowest : ℕ) (q : CodelQueue) (is : List Item)
      → q.first_put < 2 ^ 64
      → n ≡ length is
      → (lowest ≡ 0) ⊎ HasTime q.first_put is
      → Perm (drain slower n lowest q is).delivered is × ((drain slower n lowest q is).dropped ≡ [])
  unfolding drain
  drain-Perm zero lowest q [] small e h = (Perm.refl [], refl)
  drain-Perm zero lowest q (i ∷ is) small e h = absurd (omega (arith, e))
  drain-Perm (suc n) lowest q [] small e h = absurd (omega (arith, e))
  drain-Perm (suc n) lowest q (i ∷ is) small e h =
      let low = low_zero q.first_put lowest i is small h in
      let rest =
        drain-Perm n _ q (take_top i is).1 small (omega (arith, e, length-take_top i is)) low in
      let done = round q _ (take_top i is).0 (take_top i is).1 _ low rest in
      (Perm.trans done.0 (Perm-take_top i is), done.1)

  drain_empty :
      (lowest : ℕ) (q : CodelQueue) (is : List Item)
      → is ≡ []
      → Perm (drain slower (length is) lowest q is).delivered is
        × ((drain slower (length is) lowest q is).dropped ≡ [])
  unfolding drain
  drain_empty lowest q [] e = (Perm.refl [], refl)
  drain_empty lowest q (i ∷ is) e = cc

  -- Process gives out every item that was put into the queue, and drops none, if nothing was put
  -- yet or the time of the first put is that of an item in the queue.
  pub process-Perm :
      (q : CodelQueue)
      → IsFilled q
      → Perm (process slower q).1.delivered q.items × ((process slower q).1.dropped ≡ [])
  unfolding process
  process-Perm q (small, inl (z, e)) = drain_empty _ q q.items e
  process-Perm q (small, inr h) =
      drain-Perm (length q.items) (2 ^ 64 - 1) q q.items small refl (inr h)

HasTime-append : (t : ℕ) (is js : List Item) → HasTime t is → HasTime t (is ++ js)
HasTime-append t [] js h = elim h [ ]
HasTime-append t (i ∷ is) js (inl e) = inl e
HasTime-append t (i ∷ is) js (inr h) = inr (HasTime-append t is js h)

HasTime-last : (i : Item) (is : List Item) → HasTime i.time (is ++ (i ∷ []))
HasTime-last i [] = inl refl
HasTime-last i (j ∷ is) = inr (HasTime-last i is)

pub put-IsFilled :
    (now payload : ℕ) (q : CodelQueue)
    → now < 2 ^ 64
    → now ≢ 0
    → IsFilled q
    → IsFilled (put now payload q)
unfolding put
put-IsFilled now payload q small live f =
    let i : Item = record { time = now; payload = payload } in
    elim (Bool-cases (q.first_put == 0)) [
      | inl e ↦ rw e (small, inr (HasTime-last i q.items))
      | inr e ↦ rw e (
        f.0,
        elim f.1 [
          | inl (z, _) ↦ absurd (ground arith)
          | inr h ↦ inr (HasTime-append q.first_put q.items (i ∷ []) h)
        ],
      )
    ]

pub process-IsFilled : (slower : ℕ → ℕ → ℕ) (q : CodelQueue) → IsFilled (process slower q).0
unfolding process
process-IsFilled slower q = (omega arith, inl (refl, refl))
