-- ===== src/Timer/Phases/Steps.antt =====
-- A tick, a run of a callback and a new timer are steps of the abstract machine.
use uplexa_network.Prelude.{
  ℕ, ◌+◌, ◌≡◌, ◌≢◌, Bool, true, false, ◌&&◌, List, [], ◌∷◌, Option, none, some, leb, arith, ◌==◌,
  ==_iff, inl, inr, refl, Bool-cases,
}
use uplexa_network.Timer.{Timer, Heap, call_later}
use uplexa_network.Timer.Logic.{timer_job, Pool, exec, visit, tick_entries, Logic, run_timer}
use uplexa_network.Timer.Views.{
  one_if, queued, called, listed, IsOnce, queued-queue_job_suc, queue_job-more,
}
use uplexa_network.Timer.Fires.Hits.{visit-more}
use uplexa_network.Timer.Once.Ticks.{
  visit-other, verdict-hit, verdict-gone, visit-IsOnce, IsOnce-fewer, same_or_other,
}
use uplexa_network.Timer.Phases.Machine.{
  may_follow, phase, phase_in, tick_moves, tick_moves_trans, tick_same,
}

visit-moves :
    (now p c n : ℕ) (heap : Heap) (pool : Pool) (fresh : Bool) (o : Option Timer)
    → now ≢ 0
    → heap p ≡ o
    → IsOnce o fresh (queued p pool.jobs) c n
    → tick_moves (phase o fresh (queued p pool.jobs) c) (
        phase ((visit now p heap pool).heap p) fresh (queued p (visit now p heap pool).pool.jobs) c)
      ≡ true
unfolding visit phase
visit-moves now p c n heap pool fresh none live e h = ground arith
visit-moves now p c n heap pool fresh (some t) live e h = ground (
  arith,
  queue_job-more p (timer_job p) pool,
  queued-queue_job_suc p p pool,
  verdict-hit now t,
  verdict-gone now t,
)

phase-other :
    (o : Option Timer) (fresh : Bool) (j j' c : ℕ)
    → j ≡ j'
    → tick_moves (phase o fresh j c) (phase o fresh j' c) ≡ true
phase-other o fresh j j' c e = rw e (tick_same (phase o fresh j' c))

pub exec-follows :
    (p q : ℕ) (l : Logic) (o : Option Timer)
    → l.context.heap p ≡ o
    → IsOnce o
        (leb l.context.next p)
        (one_if (q == p) + queued p l.pool.jobs)
        (called p l.calls)
        (listed p l.context.table)
    → may_follow
        (phase o (leb l.context.next p) (one_if (q == p) + queued p l.pool.jobs) (called p l.calls))
        (phase_in p (run_timer q l))
      ≡ true
unfolding run_timer exec called phase
exec-follows p q l none e h = ground (arith, ==_iff q p, ==_iff p q)
exec-follows p q l (some t) e h = ground (arith, ==_iff q p, ==_iff p q)

pub later-follows :
    (p user func timeout now : ℕ) (l : Logic) (o : Option Timer)
    → l.context.heap p ≡ o
    → IsOnce o
        (leb l.context.next p)
        (queued p l.pool.jobs)
        (called p l.calls)
        (listed p l.context.table)
    → may_follow
        (phase_in p l)
        (phase_in p (record l { context = (call_later user func timeout now l.context).0 }))
      ≡ true
unfolding call_later phase
later-follows p user func timeout now l none e h =
    ground (arith, ==_iff l.context.next p, ==_iff p l.context.next)
later-follows p user func timeout now l (some t) e h =
    ground (arith, ==_iff l.context.next p, ==_iff p l.context.next)

visit-queued_other :
    (now p q : ℕ) (heap : Heap) (pool : Pool)
    → (q == p) ≡ false
    → queued p (visit now q heap pool).pool.jobs ≡ queued p pool.jobs
visit-queued_other now p q heap pool e =
    omega (arith, (visit-other now p q heap pool e).1, visit-more now p q heap pool)

visit-moves_any :
    (now p q c n : ℕ) (heap : Heap) (pool : Pool) (fresh : Bool)
    → now ≢ 0
    → IsOnce (heap p) fresh (queued p pool.jobs) c n
    → tick_moves (phase (heap p) fresh (queued p pool.jobs) c) (
        phase ((visit now q heap pool).heap p) fresh (queued p (visit now q heap pool).pool.jobs) c)
      ≡ true
visit-moves_any now p q c n heap pool fresh live h = elim (same_or_other q p) [
  | inl e ↦ rw e (visit-moves now p c n heap pool fresh (heap p) live refl h)
  | inr e ↦
      rw ((visit-other now p q heap pool e).0, visit-queued_other now p q heap pool e)
        (tick_same (phase (heap p) fresh (queued p pool.jobs) c))
]

pub tick_entries-moves :
    (now p c k : ℕ) (es : List (ℕ × ℕ)) (heap : Heap) (pool : Pool) (fresh : Bool)
    → now ≢ 0
    → IsOnce (heap p) fresh (queued p pool.jobs) c (k + listed p es)
    → tick_moves (phase (heap p) fresh (queued p pool.jobs) c) (
        phase
          ((tick_entries now es heap pool).heap p)
          fresh
          (queued p (tick_entries now es heap pool).pool.jobs)
          c)
      ≡ true
unfolding tick_entries listed
tick_entries-moves now p c k [] heap pool fresh live h = tick_same _
tick_entries-moves now p c k ((id, q) ∷ es) heap pool fresh live h =
    let v = visit now q heap pool in
    let here = visit-IsOnce now p q c k (listed p es) heap pool fresh live h in
    let moved = visit-moves_any now p q c _ heap pool fresh live h in
    let rest =
      tick_entries-moves now p c (k + one_if (v.keep && (q == p))) es v.heap v.pool fresh live
        (IsOnce-fewer _ fresh _ _ c _ _ (omega arith) (omega arith) here) in
    elim (Bool-cases (v.keep)) [
      | inl b ↦ rw b (tick_moves_trans _ _ _ moved rest)
      | inr b ↦ rw b (tick_moves_trans _ _ _ moved rest)
    ]
