-- ===== src/Timer/Fires/Hits.antt =====
-- A tick hits the timers that are due and queues their jobs.
use uplexa_network.Prelude.{
  ℕ, ◌≤◌, ◌≡◌, ◌≢◌, true, false, ◌&&◌, List, [], ◌∷◌, none, some, if◌then◌else◌, leb, arith, ◌==◌,
  ==_iff, inl, inr, Bool-cases,
}
use uplexa_network.Clock.{elapsed}
use uplexa_network.Timer.{Timer, Heap, hit, stays, verdict}
use uplexa_network.Timer.Logic.{Job, timer_job, Pool, queue_job, Call, visit, tick_entries}
use uplexa_network.Timer.Views.{queued, listed, queued-append, queue_job-more}

abbrev pub hit_timer : ℕ → Timer → Timer
hit_timer now t = record t { called_at = now }

abbrev pub over_timer : ℕ → Timer → Timer
over_timer now t = record t { called_at = now; func = none; done = true }

-- The call that the timer gets.
abbrev pub the_call : ℕ → ℕ → ℕ → Timer → Call
the_call p f now t = record {
  timer = p;
  func = f;
  user = t.user;
  timeout = t.timeout;
  left = if leb t.timeout (elapsed t.started now) then 0 else elapsed t.started now;
}

-- Hit, and with its job in the queue.
abbrev IsHit : ℕ → ℕ → Timer → Heap → Pool → Type 0
IsHit now p t heap pool = (heap p ≡ some (hit_timer now t)) × (1 ≤ queued p pool.jobs)

pub visit-more :
    (now p q : ℕ) (heap : Heap) (pool : Pool)
    → queued p pool.jobs ≤ queued p (visit now q heap pool).pool.jobs
unfolding visit
visit-more now p q heap pool = ground (arith, queue_job-more p (timer_job q) pool)

verdict-hit_timer :
    (now : ℕ) (t : Timer) → now ≢ 0 → t.done ≡ false → verdict now (hit_timer now t) ≡ stays
unfolding verdict
verdict-hit_timer now t live d = ground arith

visit-IsHit :
    (now p q : ℕ) (t : Timer) (heap : Heap) (pool : Pool)
    → now ≢ 0
    → t.done ≡ false
    → IsHit now p t heap pool
    → IsHit now p t (visit now q heap pool).heap (visit now q heap pool).pool
unfolding visit
visit-IsHit now p q t heap pool live d h =
    ground
      (arith, verdict-hit_timer now t, ==_iff q p, ==_iff p q, queue_job-more p (timer_job q) pool)

tick_entries-IsHit :
    (now p : ℕ) (t : Timer) (es : List (ℕ × ℕ)) (heap : Heap) (pool : Pool)
    → now ≢ 0
    → t.done ≡ false
    → IsHit now p t heap pool
    → IsHit now p t (tick_entries now es heap pool).heap (tick_entries now es heap pool).pool
unfolding tick_entries
tick_entries-IsHit now p t [] heap pool live d h = h
tick_entries-IsHit now p t ((id, q) ∷ es) heap pool live d h =
    let v = visit now q heap pool in
    let rest =
      tick_entries-IsHit now p t es v.heap v.pool live d
        (visit-IsHit now p q t heap pool live d h) in
    ground (arith, rest)

queue_job-open :
    (j : Job) (pool : Pool)
    → (pool.threaded && pool.stop) ≡ false
    → ((queue_job j pool).threaded && (queue_job j pool).stop) ≡ false
unfolding queue_job
queue_job-open j pool e = ground arith

queued-queue_job_open :
    (p : ℕ) (pool : Pool)
    → (pool.threaded && pool.stop) ≡ false
    → 1 ≤ queued p (queue_job (timer_job p) pool).jobs
unfolding queue_job queued
queued-queue_job_open p pool e = ground (arith, queued-append p (timer_job p) pool.jobs)

-- The timer's own visit, and the others'.
visit-hits :
    (now p : ℕ) (t : Timer) (heap : Heap) (pool : Pool)
    → heap p ≡ some t
    → verdict now t ≡ hit
    → (pool.threaded && pool.stop) ≡ false
    → IsHit now p t (visit now p heap pool).heap (visit now p heap pool).pool
unfolding visit
visit-hits now p t heap pool e v o = ground (arith, queued-queue_job_open p pool)

visit-others :
    (now p q : ℕ) (t : Timer) (heap : Heap) (pool : Pool)
    → (q == p) ≡ false
    → heap p ≡ some t
    → (pool.threaded && pool.stop) ≡ false
    → ((visit now q heap pool).heap p ≡ some t)
      × (((visit now q heap pool).pool.threaded && (visit now q heap pool).pool.stop) ≡ false)
unfolding visit
visit-others now p q t heap pool n e o = ground (arith, queue_job-open (timer_job q) pool)

pub tick_entries-hits :
    (now p : ℕ) (t : Timer) (es : List (ℕ × ℕ)) (heap : Heap) (pool : Pool)
    → now ≢ 0
    → t.done ≡ false
    → heap p ≡ some t
    → verdict now t ≡ hit
    → (pool.threaded && pool.stop) ≡ false
    → 1 ≤ listed p es
    → IsHit now p t (tick_entries now es heap pool).heap (tick_entries now es heap pool).pool
unfolding tick_entries listed
tick_entries-hits now p t [] heap pool live d e v o l = ground arith
tick_entries-hits now p t ((id, q) ∷ es) heap pool live d e v o l = elim (Bool-cases (q == p)) [
  | inl s ↦
      let at_p = visit-hits now p t heap pool e v o in
      let u = visit now q heap pool in
      let at_q : IsHit now p t u.heap u.pool = rw ((==_iff q p).0 s) at_p in
      let rest = tick_entries-IsHit now p t es u.heap u.pool live d at_q in ground (arith, rest)
  | inr s ↦
      let u = visit now q heap pool in
      let other = visit-others now p q t heap pool s e o in
      let rest =
        tick_entries-hits now p t es u.heap u.pool live d other.0 v other.1
          (omega (arith, rw s at l)) in
      ground (arith, rest)
]
