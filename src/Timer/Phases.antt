-- ===== src/Timer/Phases.antt =====
-- The abstract life of a timer, and the logic as an implementation of it.
pub mod Steps
pub mod Machine
use uplexa_network.Prelude.{
  ℕ, ◌+◌, ◌≡◌, ◌≢◌, ◌∙◌, Bool, true, List, [], ◌∷◌, Option, none, some, arith, ◌==◌, ==_iff, ◌⊎◌,
  inl, inr, refl, sym, Bool-cases,
}
use uplexa_network.Timer.{
  Timer, Heap, update_timer, canceled_timer, removed_timer, cancel, remove, cancel_each, cancel_all,
  timer_stop, find_timer,
}
use uplexa_network.Timer.Logic.{
  Job, timer_job, work_job, pool_stop, Logic, tick_all, run_job, Event, later_event, cancel_event,
  remove_event, cancel_all_event, tick_event, queue_event, run_event, pool_stop_event,
  timer_stop_event, handle, IsTimed, Reachable,
}
use uplexa_network.Timer.Views.{queued, called, listed, queued-work_job}
use uplexa_network.Timer.Once.{Reachable-IsOnce}
use uplexa_network.Timer.Once.Ticks.{IsOnceIn, IsOnce-fewer}
use uplexa_network.Timer.Phases.Machine.{
  Phase, may_follow, phase, phase_in, tick_moves_follow, follow_same,
}
use uplexa_network.Timer.Phases.Steps.{exec-follows, later-follows, tick_entries-moves}

-- A change of flags, or the clearing of a function.
update-follows :
    (f : Timer → Timer) (p q : ℕ) (heap : Heap) (fresh : Bool) (j c : ℕ) (o : Option Timer)
    → ((t : Timer)
        → ((f t).called_at ≡ t.called_at) × (((f t).func ≡ t.func) ⊎ ((f t).func ≡ none)))
    → heap p ≡ o
    → may_follow (phase o fresh j c) (phase (update_timer f q heap p) fresh j c) ≡ true
unfolding phase
update-follows f p q heap fresh j c none kept e = ground (arith, ==_iff q p, ==_iff p q)
update-follows f p q heap fresh j c (some t) kept e =
    let k = kept t in ground (arith, ==_iff q p, ==_iff p q)

cancel_timer-phase :
    (p q : ℕ) (heap : Heap) (fresh : Bool) (j c : ℕ) (o : Option Timer)
    → heap p ≡ o
    → phase (update_timer canceled_timer q heap p) fresh j c ≡ phase o fresh j c
unfolding phase
cancel_timer-phase p q heap fresh j c none e = ground (arith, ==_iff q p, ==_iff p q)
cancel_timer-phase p q heap fresh j c (some t) e = ground (arith, ==_iff q p, ==_iff p q)

cancel-phase :
    (p : ℕ) (l : Logic) (o : Option ℕ)
    → phase_in p (record l {
      context = elim o [
        | none ↦ l.context
        | some q ↦ record (l.context) { heap = update_timer canceled_timer q l.context.heap }
      ];
    })
      ≡ phase_in p l
cancel-phase p l none = refl
cancel-phase p l (some q) = cancel_timer-phase p q l.context.heap _ _ _ (l.context.heap p) refl

cancel_each-phase :
    (p : ℕ) (es : List (ℕ × ℕ)) (l : Logic)
    → phase_in p (record l { context = cancel_each es l.context }) ≡ phase_in p l
unfolding cancel_each cancel
cancel_each-phase p [] l = refl
cancel_each-phase p ((id, _) ∷ es) l =
    cancel_each-phase p es (record l { context = cancel id l.context })
    ∙ cancel-phase p l (find_timer id l.context.table)

remove-follows :
    (p : ℕ) (l : Logic) (o : Option ℕ)
    → may_follow (phase_in p l) (
        phase_in p (record l {
          context = elim o [
            | none ↦ l.context
            | some q ↦ record (l.context) { heap = update_timer removed_timer q l.context.heap }
          ];
        }))
      ≡ true
remove-follows p l none = follow_same _
remove-follows p l (some q) =
    update-follows removed_timer p q l.context.heap _ _ _ (l.context.heap p) (λ t. (refl, inr refl))
      refl

run_job-follows :
    (p : ℕ) (l : Logic) (js : List Job)
    → l.pool.jobs ≡ js
    → IsOnceIn p l
    → may_follow (phase_in p l) (phase_in p (run_job l)) ≡ true
unfolding run_job queued
run_job-follows p l [] e h = rw e (follow_same _)
run_job-follows p l (work_job w ∷ js) e h = rw e (follow_same _)
run_job-follows p l (timer_job q ∷ js) e h =
    rw e (exec-follows p q (record l { pool = record (l.pool) { jobs = js } }) _ refl (rw e at h))

tick_all-follows :
    (now p : ℕ) (l : Logic)
    → now ≢ 0
    → IsOnceIn p l
    → may_follow (phase_in p l) (phase_in p (tick_all now l)) ≡ true
unfolding tick_all
tick_all-follows now p l live h =
    let start =
      IsOnce-fewer _ _ _ _ _ _ (0 + listed p l.context.table) (omega arith) (omega arith) h in
    let moved =
      tick_entries-moves now p (called p l.calls) 0 l.context.table l.context.heap l.pool _ live
        start in
    elim (Bool-cases l.context.running) [
      | inl r ↦ rw r (tick_moves_follow _ _ moved)
      | inr r ↦ rw r (follow_same (phase_in p l))
    ]

same_follows : (a b : Phase) → a ≡ b → may_follow a b ≡ true
same_follows a b e = ground arith

-- Whatever happens to the logic in a state that comes up, a tick not at the time 0, each timer
-- makes at most a step of the abstract machine that goes from unborn over waiting and pending to
-- fired, or is lost on its way.
pub handle-may_follow :
    (e : Event) (p : ℕ) (l : Logic)
    → IsTimed e
    → Reachable l
    → may_follow (phase_in p l) (phase_in p (handle e l)) ≡ true
unfolding handle
handle-may_follow (later_event user func timeout now) p l timed r =
    later-follows p user func timeout now l _ refl (Reachable-IsOnce p l r)
handle-may_follow (cancel_event id) p l timed r =
    unfold cancel in same_follows _ _ (sym (cancel-phase p l (find_timer id l.context.table)))
handle-may_follow (remove_event id) p l timed r =
    unfold remove in remove-follows p l (find_timer id l.context.table)
handle-may_follow cancel_all_event p l timed r =
    unfold cancel_all in same_follows _ _ (sym (cancel_each-phase p l.context.table l))
handle-may_follow (tick_event now) p l timed r =
    tick_all-follows now p l timed (Reachable-IsOnce p l r)
handle-may_follow (queue_event w) p l timed r = rw (queued-work_job p w l.pool) (follow_same _)
handle-may_follow run_event p l timed r =
    run_job-follows p l l.pool.jobs refl (Reachable-IsOnce p l r)
handle-may_follow pool_stop_event p l timed r =
    unfold pool_stop in
    elim (Bool-cases (l.pool.threaded)) [
      | inl t ↦ rw t (follow_same _)
      | inr t ↦ rw t (follow_same _)
    ]
handle-may_follow timer_stop_event p l timed r = unfold timer_stop in follow_same _
