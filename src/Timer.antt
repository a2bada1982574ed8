-- ===== src/Timer.antt =====
-- udap_timer_context of udap/timer.cpp. A pointer to a timer is the number of its `new`, the heap is
-- what the pointers lead to, and a deleted timer is `none`. The table is in the order in which
-- the unordered map is gone through; a callback and its user pointer are numbers.
pub mod Logic
pub mod Views
pub mod Once
pub mod Fires
pub mod Phases
use uplexa_network.Prelude.{
  ℕ, ◌+◌, ◌%◌, ◌^◌, Bool, true, false, ◌&&◌, ◌||◌, List, [], ◌∷◌, ◌++◌, Option, none, some,
  if◌then◌else◌, leb, ◌==◌,
}
use uplexa_network.Clock.{elapsed}

pub record Timer : Type 0 where
  pub user : ℕ
  pub called_at : ℕ
  pub started : ℕ
  pub timeout : ℕ
  pub func : Option ℕ
  pub done : Bool
  pub canceled : Bool

-- The constructor at the time `now`.
abbrev pub new_timer : ℕ → ℕ → ℕ → ℕ → Timer
new_timer ms user func now = record {
  user = user;
  called_at = 0;
  started = now;
  timeout = ms;
  func = some func;
  done = false;
  canceled = false;
}

abbrev pub Heap : Type 0
Heap = ℕ → Option Timer

abbrev pub set_timer : ℕ → Option Timer → Heap → Heap
set_timer p t heap q = if q == p then t else heap q

pub record TimerContext : Type 0 where
  pub heap : Heap
  pub next : ℕ
  pub table : List (ℕ × ℕ)
  pub ids : ℕ
  pub running : Bool

-- udap_init_timer.
abbrev pub init_timer : TimerContext
init_timer = record { heap = λ _. none; next = 0; table = []; ids = 0; running = true }

unfoldable pub find_timer : ℕ → List (ℕ × ℕ) → Option ℕ
find_timer id [] = none
find_timer id ((k, p) ∷ es) = let rest = find_timer id es in if k == id then some p else rest

-- `timers[id] = p`.
unfoldable pub put_timer : ℕ → ℕ → List (ℕ × ℕ) → List (ℕ × ℕ)
put_timer id p [] = (id, p) ∷ []
put_timer id p ((k, q) ∷ es) =
    let rest = put_timer id p es in if k == id then (k, p) ∷ es else (k, q) ∷ rest

-- A change of the timer at the pointer; one that is not there cannot be written to.
abbrev pub update_timer : (Timer → Timer) → ℕ → Heap → Heap
update_timer f p heap = elim (heap p) [ none ↦ heap | some t ↦ set_timer p (some (f t)) heap ]

abbrev update_at : (Timer → Timer) → ℕ → TimerContext → TimerContext
update_at f id ctx = elim (find_timer id ctx.table) [
  | none ↦ ctx
  | some p ↦ record ctx { heap = update_timer f p ctx.heap }
]

abbrev pub canceled_timer : Timer → Timer
canceled_timer t = record t { canceled = true }

abbrev pub removed_timer : Timer → Timer
removed_timer t = record t { func = none; canceled = true }

unfoldable pub cancel : ℕ → TimerContext → TimerContext
cancel id ctx = update_at canceled_timer id ctx

unfoldable pub remove : ℕ → TimerContext → TimerContext
remove id ctx = update_at removed_timer id ctx

-- call_later at the time `now`: the context and the id.
unfoldable pub call_later : ℕ → ℕ → ℕ → ℕ → TimerContext → TimerContext × ℕ
call_later user func timeout now ctx =
    let id = (ctx.ids + 1) % 2 ^ 32 in
    (
      record ctx {
        ids = id;
        heap = set_timer ctx.next (some (new_timer timeout user func now)) ctx.heap;
        next = ctx.next + 1;
        table = put_timer id ctx.next ctx.table;
      },
      id,
    )

unfoldable pub cancel_each : List (ℕ × ℕ) → TimerContext → TimerContext
cancel_each [] ctx = ctx
cancel_each ((id, _) ∷ es) ctx = cancel_each es (cancel id ctx)

unfoldable pub cancel_all : TimerContext → TimerContext
cancel_all ctx = cancel_each ctx.table ctx

-- udap_timer_stop.
unfoldable pub timer_stop : TimerContext → TimerContext
timer_stop ctx = record ctx { table = []; running = false }

-- What a tick does to a timer: its job is queued, it is deleted, or nothing.
pub data Verdict : Type 0 where
  hit gone stays : Verdict

abbrev pub due : ℕ → Timer → Bool
due now t = leb t.timeout (elapsed t.started now) || t.canceled

unfoldable pub verdict : ℕ → Timer → Verdict
verdict now t =
    let over = if t.done then gone else stays in
    if due now t
    then elim t.func [ none ↦ over | some _ ↦ if t.called_at == 0 then hit else over ]
    else stays
