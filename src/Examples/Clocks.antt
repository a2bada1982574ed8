-- ===== src/Examples/Clocks.antt =====
-- Runs of the timers and of the queue with controlled delay.
use uplexa_network.Prelude.{◌+◌, ◌≤◌, ◌≡◌, refl, true, [], some, arith, inl}
use mathlib.Core.List.{Perm}
use uplexa_network.Timer.{call_later, put_timer, verdict, new_timer}
use uplexa_network.Timer.Logic.{
  Logic, later_event, tick_event, run_event, handle, Reachable, init, after, init_logic, tick_all,
  tick_entries, visit, queue_job, run_job, run_timer, exec, pool_tick,
}
use uplexa_network.Timer.Views.{queued, called, listed}
use uplexa_network.Timer.Once.{called-Reachable, deleted-Reachable}
use uplexa_network.Timer.Fires.{find_call, pool_tick-tick_all}
use uplexa_network.Timer.Fires.Hits.{the_call, over_timer}
use uplexa_network.Timer.Phases.{handle-may_follow}
use uplexa_network.Timer.Phases.Machine.{may_follow, phase_in}
use uplexa_network.Codel.{CodelQueue, new_queue, put, process}
use uplexa_network.Codel.Drops.{process-Perm, put-IsFilled}

-- A timer of 100 milliseconds that is set at the time 1000.
abbrev set_timer_logic : Logic
set_timer_logic = handle (later_event 3 9 100 1000) (init_logic true)

abbrev called_logic : Logic
called_logic = handle run_event (handle (tick_event 1200) set_timer_logic)

abbrev deleted_logic : Logic
deleted_logic = handle (tick_event 1300) called_logic

set_timer-Reachable : Reachable set_timer_logic
set_timer-Reachable = after (later_event 3 9 100 1000) tt (init true)

called_logic-Reachable : Reachable called_logic
called_logic-Reachable =
    after run_event tt (after (tick_event 1200) (omega arith) set_timer-Reachable)

deleted_logic-Reachable : Reachable deleted_logic
deleted_logic-Reachable = after (tick_event 1300) (omega arith) called_logic-Reachable

called-Reachable_example : queued 0 deleted_logic.pool.jobs + called 0 deleted_logic.calls ≤ 1
called-Reachable_example = called-Reachable 0 deleted_logic deleted_logic-Reachable

deleted-Reachable_example :
    (queued 0 deleted_logic.pool.jobs ≡ 0) × (listed 0 deleted_logic.context.table ≡ 0)
unfolding handle tick_all tick_entries visit verdict run_job run_timer exec queue_job call_later
    put_timer
deleted-Reachable_example = deleted-Reachable 0 deleted_logic deleted_logic-Reachable refl

pool_tick-tick_all_example :
    (find_call 0 (pool_tick (tick_all 1200 set_timer_logic)).calls
      ≡ some (the_call 0 9 1200 (new_timer 100 3 9 1000)))
    × ((pool_tick (tick_all 1200 set_timer_logic)).context.heap 0
        ≡ some (over_timer 1200 (new_timer 100 3 9 1000)))
unfolding handle call_later put_timer listed
pool_tick-tick_all_example =
    pool_tick-tick_all 1200 0 9 (new_timer 100 3 9 1000) set_timer_logic (omega arith) refl refl
      (omega arith) refl refl refl refl refl

handle-may_follow_example :
    may_follow (phase_in 0 set_timer_logic) (phase_in 0 (handle (tick_event 1200) set_timer_logic))
    ≡ true
handle-may_follow_example =
    handle-may_follow (tick_event 1200) 0 set_timer_logic (omega arith) set_timer-Reachable

abbrev two_items : CodelQueue
two_items = put 1050 8 (put 1000 7 new_queue)

process-Perm_example :
    Perm (process (λ n _. n) two_items).1.delivered two_items.items
    × ((process (λ n _. n) two_items).1.dropped ≡ [])
process-Perm_example =
    process-Perm (λ n _. n) two_items
      (put-IsFilled 1050 8 (put 1000 7 new_queue) (omega arith) (omega arith)
        (put-IsFilled 1000 7 new_queue (omega arith) (omega arith) (omega arith, inl (refl, refl))))
