-- ===== src/Timer/Fires.antt =====
-- A timer that is due is called at the next tick, when the pool runs its jobs.
pub mod Hits
use uplexa_network.Prelude.{
  ℕ, zero, suc, ◌+◌, ◌≤◌, ◌≡◌, ◌≢◌, ◌∙◌, ap, sym, subst, true, false, ◌&&◌, List, [], ◌∷◌, Option,
  none, some, if◌then◌else◌, arith, ◌==◌, ==_iff, ◌⊎◌, inl, inr, refl, length, Bool-cases,
}
use uplexa_network.Timer.{Timer, hit, verdict, due}
use uplexa_network.Timer.Logic.{
  Job, timer_job, work_job, Call, exec, Logic, tick_all, run_timer, run_job, run_jobs, pool_tick,
}
use uplexa_network.Timer.Views.{one_if, queued, listed}
use uplexa_network.Timer.Fires.Hits.{hit_timer, over_timer, the_call, tick_entries-hits}

-- The last call of the timer.
unfoldable pub find_call : ℕ → List Call → Option Call
find_call p [] = none
find_call p (c ∷ cs) = let rest = find_call p cs in if c.timer == p then some c else rest

-- The job waits, or has run: the last call is the timer's.
abbrev Awaits : ℕ → ℕ → ℕ → Timer → Logic → Type 0
Awaits now p f t l =
    (1 ≤ queued p l.pool.jobs) × (l.context.heap p ≡ some (hit_timer now t))
    ⊎ (find_call p l.calls ≡ some (the_call p f now t))
      × (l.context.heap p ≡ some (over_timer now t))

run_timer-hit :
    (now p f : ℕ) (t : Timer) (l : Logic)
    → t.func ≡ some f
    → l.context.heap p ≡ some (hit_timer now t)
    → (find_call p (run_timer p l).calls ≡ some (the_call p f now t))
      × ((run_timer p l).context.heap p ≡ some (over_timer now t))
unfolding run_timer exec find_call
run_timer-hit now p f t l ef e = ground arith

run_timer-over :
    (now p : ℕ) (t : Timer) (l : Logic)
    → l.context.heap p ≡ some (over_timer now t)
    → (find_call p (run_timer p l).calls ≡ find_call p l.calls)
      × ((run_timer p l).context.heap p ≡ some (over_timer now t))
unfolding run_timer exec
run_timer-over now p t l e = ground arith

run_timer-other :
    (p q : ℕ) (l : Logic)
    → (q == p) ≡ false
    → (find_call p (run_timer q l).calls ≡ find_call p l.calls)
      × ((run_timer q l).context.heap p ≡ l.context.heap p)
unfolding run_timer exec find_call
run_timer-other p q l e = ground arith

run_timer_pool : (q : ℕ) (l : Logic) → (run_timer q l).pool ≡ l.pool
unfolding run_timer
run_timer_pool q l = ground arith

run_timer-Awaits :
    (now p f q : ℕ) (t : Timer) (l : Logic)
    → t.func ≡ some f
    → (l.context.heap p ≡ some (hit_timer now t)) × (1 ≤ one_if (q == p) + queued p l.pool.jobs)
      ⊎ (find_call p l.calls ≡ some (the_call p f now t))
        × (l.context.heap p ≡ some (over_timer now t))
    → Awaits now p f t (run_timer q l)
run_timer-Awaits now p f q t l ef h = elim (Bool-cases (q == p)) [
  | inl s ↦ rw ((==_iff q p).0 s) (elim h [
    | inl (e, _) ↦ inr (run_timer-hit now p f t l ef e)
    | inr (c, e) ↦ let r = run_timer-over now p t l e in inr (r.0 ∙ c, r.1)
  ])
  | inr s ↦
      let r = run_timer-other p q l s in
      elim h [
        | inl (e, n) ↦ inl (rw (run_timer_pool q l) (omega (arith, rw s at n)), r.1 ∙ e)
        | inr (c, e) ↦ inr (r.0 ∙ c, r.1 ∙ e)
      ]
]

run_job_empty : (l : Logic) → l.pool.jobs ≡ [] → run_job l ≡ l
unfolding run_job
run_job_empty l e = rw e refl

run_job-Awaits :
    (now p f : ℕ) (t : Timer) (l : Logic) (js : List Job)
    → t.func ≡ some f
    → l.pool.jobs ≡ js
    → Awaits now p f t l
    → Awaits now p f t (run_job l)
unfolding run_job queued
run_job-Awaits now p f t l [] ef e h = subst (Awaits now p f t) (sym (run_job_empty l e)) h
run_job-Awaits now p f t l (work_job w ∷ js) ef e h = ground arith
run_job-Awaits now p f t l (timer_job q ∷ js) ef e h = rw e (
    run_timer-Awaits now p f q t (record l { pool = record (l.pool) { jobs = js } }) ef
      (elim h [ inl (n, g) ↦ inl (g, rw e at n) | inr g ↦ inr g ]))

length-run_job :
    (l : Logic) (js : List Job) (n : ℕ)
    → l.pool.jobs ≡ js
    → length js ≡ suc n
    → length (run_job l).pool.jobs ≡ n
unfolding run_job
length-run_job l [] n e s = absurd (omega (arith, s))
length-run_job l (work_job w ∷ js) n e s = rw e (omega (arith, s))
length-run_job l (timer_job q ∷ js) n e s = rw e (
    ap (λ z. length z.jobs) (run_timer_pool q (record l { pool = record (l.pool) { jobs = js } }))
    ∙ omega (arith, s))

queued_none : (p : ℕ) (js : List Job) → length js ≡ 0 → queued p js ≡ 0
unfolding queued
queued_none p [] e = refl
queued_none p (j ∷ js) e = absurd (omega (arith, e))

run_jobs-Awaits :
    (now p f : ℕ) (t : Timer) (n : ℕ) (l : Logic)
    → t.func ≡ some f
    → length l.pool.jobs ≡ n
    → Awaits now p f t l
    → (find_call p (run_jobs n l).calls ≡ some (the_call p f now t))
      × ((run_jobs n l).context.heap p ≡ some (over_timer now t))
unfolding run_jobs
run_jobs-Awaits now p f t zero l ef e h = elim h [
  | inl (n, _) ↦ absurd (omega (arith, queued_none p l.pool.jobs e))
  | inr c ↦ c
]
run_jobs-Awaits now p f t (suc n) l ef e h =
    run_jobs-Awaits now p f t n (run_job l) ef (length-run_job l l.pool.jobs n refl e)
      (run_job-Awaits now p f t l l.pool.jobs ef refl h)

-- A timer in the table that has a function, was not hit yet and has run out or was cancelled is
-- called by one tick, not at the time 0, of a running context whose pool is not stopped, once the
-- pool has run the jobs that are queued then: the timer's last call has its user and timeout, and
-- 0 or, if the time was not up, the time since its start.
pub pool_tick-tick_all :
    (now p f : ℕ) (t : Timer) (l : Logic)
    → now ≢ 0
    → l.context.running ≡ true
    → (l.pool.threaded && l.pool.stop) ≡ false
    → 1 ≤ listed p l.context.table
    → l.context.heap p ≡ some t
    → t.func ≡ some f
    → t.called_at ≡ 0
    → t.done ≡ false
    → due now t ≡ true
    → (find_call p (pool_tick (tick_all now l)).calls ≡ some (the_call p f now t))
      × ((pool_tick (tick_all now l)).context.heap p ≡ some (over_timer now t))
unfolding tick_all
pool_tick-tick_all now p f t l live r o n e ef c d u =
    let v : verdict now t ≡ hit = unfold verdict in ground arith in
    let h = tick_entries-hits now p t l.context.table l.context.heap l.pool live d e v o n in
    rw r (run_jobs-Awaits now p f t _ _ ef refl (inl (h.1, h.0)))
