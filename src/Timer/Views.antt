-- ===== src/Timer/Views.antt =====
-- What the logic holds of one timer: how often it is queued, was called and stands in the table.
use uplexa_network.Prelude.{
  ℕ, ◌+◌, ◌≤◌, ◌≡◌, Bool, true, false, List, [], ◌∷◌, ◌++◌, Option, none, some, if◌then◌else◌,
  arith, ◌==◌,
}
use uplexa_network.Timer.{Timer, put_timer}
use uplexa_network.Timer.Logic.{Job, timer_job, work_job, Pool, queue_job, Call}

abbrev pub one_if : Bool → ℕ
one_if b = if b then 1 else 0

unfoldable pub queued : ℕ → List Job → ℕ
queued p [] = 0
queued p (timer_job q ∷ js) = one_if (q == p) + queued p js
queued p (work_job _ ∷ js) = queued p js

unfoldable pub called : ℕ → List Call → ℕ
called p [] = 0
called p (c ∷ cs) = one_if (c.timer == p) + called p cs

unfoldable pub listed : ℕ → List (ℕ × ℕ) → ℕ
listed p [] = 0
listed p ((_, q) ∷ es) = one_if (q == p) + listed p es

-- What holds of a pointer with `j` jobs, `c` calls and `n` places in the table. `fresh` tells that the
-- pointer has not been allocated.
abbrev pub IsOnce : Option Timer → Bool → ℕ → ℕ → ℕ → Type 0
IsOnce none fresh j c n = (j ≡ 0) × (n ≡ 0) × (c ≤ 1) × (fresh ≡ true → c ≡ 0)
IsOnce (some t) fresh j c n =
    (fresh ≡ false)
    × (j + c ≤ 1)
    × (n ≤ 1)
    × (t.called_at ≡ 0 → (j + c ≡ 0) × (t.done ≡ false))
    × (t.done ≡ true → j ≡ 0)

pub queued-append :
    (p : ℕ) (j : Job) (js : List Job) → queued p (js ++ (j ∷ [])) ≡ queued p js + queued p (j ∷ [])
unfolding queued
queued-append p j [] = omega arith
queued-append p j (timer_job q ∷ js) = omega (arith, queued-append p j js)
queued-append p j (work_job w ∷ js) = queued-append p j js

-- A queued job is there at most once more.
pub queued-queue_job :
    (p q : ℕ) (pool : Pool)
    → queued p (queue_job (timer_job q) pool).jobs ≤ queued p pool.jobs + one_if (q == p)
unfolding queue_job queued
queued-queue_job p q pool = ground (arith, queued-append p (timer_job q) pool.jobs)

pub queued-queue_job_suc :
    (p q : ℕ) (pool : Pool) → queued p (queue_job (timer_job q) pool).jobs ≤ queued p pool.jobs + 1
queued-queue_job_suc p q pool = ground (arith, queued-queue_job p q pool)

pub queued-work_job :
    (p w : ℕ) (pool : Pool) → queued p (queue_job (work_job w) pool).jobs ≡ queued p pool.jobs
unfolding queue_job queued
queued-work_job p w pool = ground (arith, queued-append p (work_job w) pool.jobs)

pub listed-put_timer :
    (p id q : ℕ) (es : List (ℕ × ℕ)) → listed p (put_timer id q es) ≤ listed p es + one_if (q == p)
unfolding listed put_timer
listed-put_timer p id q [] = ground arith
listed-put_timer p id q ((k, r) ∷ es) = ground (arith, listed-put_timer p id q es)

pub queue_job-more :
    (p : ℕ) (j : Job) (pool : Pool) → queued p pool.jobs ≤ queued p (queue_job j pool).jobs
unfolding queue_job
queue_job-more p j pool = ground (arith, queued-append p j pool.jobs)
