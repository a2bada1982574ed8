-- ===== src/Timer/Logic.antt =====
-- The thread pool of udap/threadpool.cpp, timer::exec and udap_timer_tick_all of udap/timer.cpp, and
-- udap/logic.cpp. What a queued job of another kind does is not modelled: it is a number.
use uplexa_network.Prelude.{
  ℕ, zero, suc, length, Bool, true, false, ◌&&◌, List, [], ◌∷◌, ◌++◌, Option, none, some,
  if◌then◌else◌, leb, ◌≢◌,
}
use uplexa_network.Clock.{elapsed}
use uplexa_network.Timer.{
  Timer, Heap, TimerContext, hit, gone, stays, set_timer, init_timer, cancel, remove, call_later,
  cancel_all, timer_stop, verdict,
}

-- A job: timer::call for a timer, or other work.
pub data Job : Type 0 where
  timer_job : ℕ → Job
  work_job : ℕ → Job

-- Without threads a pool is ticked, and has no stop flag.
pub record Pool : Type 0 where
  pub threaded : Bool
  pub stop : Bool
  pub jobs : List Job

unfoldable pub queue_job : Job → Pool → Pool
queue_job j pool =
    if pool.threaded && pool.stop then pool else record pool { jobs = pool.jobs ++ (j ∷ []) }

unfoldable pub pool_stop : Pool → Pool
pool_stop pool = if pool.threaded then record pool { stop = true } else pool

-- A call of a timer's callback.
pub record Call : Type 0 where
  pub timer : ℕ
  pub func : ℕ
  pub user : ℕ
  pub timeout : ℕ
  pub left : ℕ

-- timer::exec: the timer after it, and the call that it makes.
unfoldable pub exec : ℕ → Timer → Timer × Option Call
exec p t = elim t.func [
  | none ↦ (record t { done = true }, none)
  | some f ↦
      let diff = elapsed t.started t.called_at in
      (
        record t { func = none; done = true },
        some (record {
          timer = p;
          func = f;
          user = t.user;
          timeout = t.timeout;
          left = if leb t.timeout diff then 0 else diff;
        }),
      )
]

-- One timer of a tick: whether it stays in the table.
pub record Visit : Type 0 where
  pub keep : Bool
  pub heap : Heap
  pub pool : Pool

unfoldable pub visit : ℕ → ℕ → Heap → Pool → Visit
visit now p heap pool = elim (heap p) [
  | none ↦ record { keep = true; heap = heap; pool = pool }
  | some t ↦ elim (verdict now t) [
    | hit ↦ record {
      keep = true;
      heap = set_timer p (some (record t { called_at = now })) heap;
      pool = queue_job (timer_job p) pool;
    }
    | gone ↦ record { keep = false; heap = set_timer p none heap; pool = pool }
    | stays ↦ record { keep = true; heap = heap; pool = pool }
  ]
]

-- The loop of udap_timer_tick_all.
pub record Ticked : Type 0 where
  pub table : List (ℕ × ℕ)
  pub heap : Heap
  pub pool : Pool

unfoldable pub tick_entries : ℕ → List (ℕ × ℕ) → Heap → Pool → Ticked
tick_entries now [] heap pool = record { table = []; heap = heap; pool = pool }
tick_entries now ((id, p) ∷ es) heap pool =
    let v = visit now p heap pool in
    let rest = tick_entries now es v.heap v.pool in
    if v.keep then record rest { table = (id, p) ∷ rest.table } else rest

-- udap_logic, with the calls that were made, the last one first.
pub record Logic : Type 0 where
  pub context : TimerContext
  pub pool : Pool
  pub calls : List Call

unfoldable pub tick_all : ℕ → Logic → Logic
tick_all now l =
    let r = tick_entries now l.context.table l.context.heap l.pool in
    if l.context.running
    then record l { context = record (l.context) { table = r.table; heap = r.heap }; pool = r.pool }
    else l

-- The pool runs its first job.
unfoldable pub run_timer : ℕ → Logic → Logic
run_timer p l = elim (l.context.heap p) [
  | none ↦ l
  | some t ↦
      let r = exec p t in
      record l {
        context = record (l.context) { heap = set_timer p (some r.0) l.context.heap };
        calls = elim r.1 [ none ↦ l.calls | some c ↦ c ∷ l.calls ];
      }
]

unfoldable pub run_job : Logic → Logic
run_job l = elim l.pool.jobs [
  | [] ↦ l
  | timer_job p ∷ js ↦ run_timer p (record l { pool = record (l.pool) { jobs = js } })
  | work_job _ ∷ js ↦ record l { pool = record (l.pool) { jobs = js } }
]

unfoldable pub run_jobs : ℕ → Logic → Logic
run_jobs zero l = l
run_jobs (suc n) l = run_jobs n (run_job l)

-- udap_threadpool_tick: the jobs that are queued.
abbrev pub pool_tick : Logic → Logic
pool_tick l = run_jobs (length l.pool.jobs) l

-- udap_init_logic, and udap_init_single_process_logic on a pool without threads.
abbrev pub init_logic : Bool → Logic
init_logic threaded = record {
  context = init_timer;
  pool = record { threaded = threaded; stop = false; jobs = [] };
  calls = [];
}

-- What callers, the ticker and the workers do, in any order.
pub data Event : Type 0 where
  later_event : ℕ → ℕ → ℕ → ℕ → Event
  cancel_event : ℕ → Event
  remove_event : ℕ → Event
  cancel_all_event : Event
  tick_event : ℕ → Event
  queue_event : ℕ → Event
  run_event : Event
  pool_stop_event : Event
  timer_stop_event : Event

unfoldable pub handle : Event → Logic → Logic
handle (later_event user func timeout now) l = record l {
  context = (call_later user func timeout now l.context).0;
}
handle (cancel_event id) l = record l { context = cancel id l.context }
handle (remove_event id) l = record l { context = remove id l.context }
handle cancel_all_event l = record l { context = cancel_all l.context }
handle (tick_event now) l = tick_all now l
handle (queue_event w) l = record l { pool = queue_job (work_job w) l.pool }
handle run_event l = run_job l
handle pool_stop_event l = record l { pool = pool_stop l.pool }
handle timer_stop_event l = record l { context = timer_stop l.context }

-- The clock does not show 0 at a tick.
abbrev pub IsTimed : Event → Type 0
IsTimed (tick_event now) = now ≢ 0
IsTimed _ = Unit

-- The states that come up.
pub data Reachable : Logic → Type 0 where
  init : (threaded : Bool) → Reachable (init_logic threaded)
  after : {l : Logic} (e : Event) → IsTimed e → Reachable l → Reachable (handle e l)
