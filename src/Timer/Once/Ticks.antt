-- ===== src/Timer/Once/Ticks.antt =====
-- A tick keeps what says that the callback of a timer is called once at most.
use uplexa_network.Prelude.{
  ℕ, ◌+◌, ◌≤◌, ◌≡◌, ◌≢◌, Bool, true, false, List, [], ◌∷◌, Option, none, some, if◌then◌else◌, leb,
  arith, ◌==◌, ==_iff, ◌&&◌, Bool-cases, inl, inr, ◌⊎◌, refl,
}
use uplexa_network.Timer.{Timer, Heap, hit, gone, update_timer, verdict}
use uplexa_network.Timer.Logic.{Pool, visit, tick_entries, Logic, Ticked}
use uplexa_network.Timer.Views.{
  one_if, queued, called, listed, IsOnce, queued-queue_job, queued-queue_job_suc,
}

-- The pointer `p` in a state.
abbrev pub IsOnceIn : ℕ → Logic → Type 0
IsOnceIn p l =
    IsOnce (l.context.heap p) (leb l.context.next p) (queued p l.pool.jobs) (called p l.calls)
      (listed p l.context.table)

-- Fewer jobs and fewer places in the table do no harm.
pub IsOnce-fewer :
    (t : Option Timer) (fresh : Bool) (j j' c n n' : ℕ)
    → j' ≤ j
    → n' ≤ n
    → IsOnce t fresh j c n
    → IsOnce t fresh j' c n'
IsOnce-fewer none fresh j j' c n n' a b (h0, h1, h2, h3) = (omega arith, omega arith, h2, h3)
IsOnce-fewer (some t) fresh j j' c n n' a b (h0, h1, h2, h3, h4) = (
  h0,
  omega arith,
  omega arith,
  λ e. (omega (arith, (h3 e).0), (h3 e).1),
  λ e. omega (arith, h4 e),
)

-- Two pointers are one or differ.
pub same_or_other : (q p : ℕ) → (q ≡ p) ⊎ ((q == p) ≡ false)
same_or_other q p = elim (Bool-cases (q == p)) [ inl e ↦ inl ((==_iff q p).0 e) | inr e ↦ inr e ]

-- A change that keeps `called_at` and `done`.
pub IsOnce-update_timer :
    (f : Timer → Timer) (p q : ℕ) (heap : Heap) (fresh : Bool) (j c n : ℕ)
    → ((t : Timer) → ((f t).called_at ≡ t.called_at) × ((f t).done ≡ t.done))
    → (o : Option Timer) → heap p ≡ o
    → IsOnce o fresh j c n
    → IsOnce (update_timer f q heap p) fresh j c n
IsOnce-update_timer f p q heap fresh j c n same none e h = ground (arith, ==_iff q p, ==_iff p q)
IsOnce-update_timer f p q heap fresh j c n same (some t) e h =
    let kept = same t in ground (arith, ==_iff q p, ==_iff p q)

pub visit-other :
    (now p q : ℕ) (heap : Heap) (pool : Pool)
    → (q == p) ≡ false
    → ((visit now q heap pool).heap p ≡ heap p)
      × (queued p (visit now q heap pool).pool.jobs ≤ queued p pool.jobs)
unfolding visit verdict
visit-other now p q heap pool e = ground (arith, queued-queue_job p q pool)

pub verdict-hit : (now : ℕ) (t : Timer) → verdict now t ≡ hit → t.called_at ≡ 0
unfolding verdict
verdict-hit now t e = ground arith

pub verdict-gone : (now : ℕ) (t : Timer) → verdict now t ≡ gone → t.done ≡ true
unfolding verdict
verdict-gone now t e = ground arith

visit-same :
    (now p c k r : ℕ) (heap : Heap) (pool : Pool) (fresh : Bool) (o : Option Timer) (b : Bool)
    → b ≡ true
    → now ≢ 0
    → heap p ≡ o
    → IsOnce o fresh (queued p pool.jobs) c (k + (one_if b + r))
    → IsOnce
        ((visit now p heap pool).heap p)
        fresh
        (queued p (visit now p heap pool).pool.jobs)
        c
        (k + (one_if ((visit now p heap pool).keep && b) + r))
unfolding visit
visit-same now p c k r heap pool fresh none b eb live e h = ground arith
visit-same now p c k r heap pool fresh (some t) b eb live e h =
    ground (arith, queued-queue_job_suc p p pool, verdict-hit now t, verdict-gone now t)

same_one : (p : ℕ) → (p == p) ≡ true
same_one p = ground arith

one_if-and : (b c : Bool) → one_if (b && c) ≤ one_if c
one_if-and b c = ground arith

pub visit-IsOnce :
    (now p q c k r : ℕ) (heap : Heap) (pool : Pool) (fresh : Bool)
    → now ≢ 0
    → IsOnce (heap p) fresh (queued p pool.jobs) c (k + (one_if (q == p) + r))
    → IsOnce
        ((visit now q heap pool).heap p)
        fresh
        (queued p (visit now q heap pool).pool.jobs)
        c
        (k + (one_if ((visit now q heap pool).keep && (q == p)) + r))
visit-IsOnce now p q c k r heap pool fresh live h = elim (same_or_other q p) [
  | inl e ↦
      let at_p = visit-same now p c k r heap pool fresh (heap p) (p == p) (same_one p) live refl in
      rw e (at_p (rw e at h))
  | inr e ↦
      let same = visit-other now p q heap pool e in
      let fewer = one_if-and (visit now q heap pool).keep (q == p) in
      rw (same.0) (IsOnce-fewer (heap p) fresh _ _ c _ _ same.1 (omega (arith, fewer)) h)
]

-- The entry stands before those that stay, or is dropped.
entry-IsOnce :
    (p q id c k : ℕ) (b : Bool) (fresh : Bool) (rest : Ticked)
    → IsOnce
        (rest.heap p)
        fresh
        (queued p rest.pool.jobs)
        c
        (k + one_if (b && (q == p)) + listed p rest.table)
    → IsOnce
        ((if b then record rest { table = (id, q) ∷ rest.table } else rest).heap p)
        fresh
        (queued p (if b then record rest { table = (id, q) ∷ rest.table } else rest).pool.jobs)
        c
        (k + listed p (if b then record rest { table = (id, q) ∷ rest.table } else rest).table)
unfolding listed
entry-IsOnce p q id c k true fresh rest h =
    IsOnce-fewer _ fresh _ _ c _ _ (omega arith) (omega arith) h
entry-IsOnce p q id c k false fresh rest h =
    IsOnce-fewer _ fresh _ _ c _ _ (omega arith) (omega arith) h

pub tick_entries-IsOnce :
    (now p c k : ℕ) (es : List (ℕ × ℕ)) (heap : Heap) (pool : Pool) (fresh : Bool)
    → now ≢ 0
    → IsOnce (heap p) fresh (queued p pool.jobs) c (k + listed p es)
    → IsOnce
        ((tick_entries now es heap pool).heap p)
        fresh
        (queued p (tick_entries now es heap pool).pool.jobs)
        c
        (k + listed p (tick_entries now es heap pool).table)
unfolding tick_entries listed
tick_entries-IsOnce now p c k [] heap pool fresh live h = h
tick_entries-IsOnce now p c k ((id, q) ∷ es) heap pool fresh live h =
    let v = visit now q heap pool in
    let here = visit-IsOnce now p q c k (listed p es) heap pool fresh live h in
    entry-IsOnce p q id c k v.keep fresh (tick_entries now es v.heap v.pool) (
      tick_entries-IsOnce now p c (k + one_if (v.keep && (q == p))) es v.heap v.pool fresh live
        (IsOnce-fewer _ fresh _ _ c _ _ (omega arith) (omega arith) here))
