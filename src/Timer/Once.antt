-- ===== src/Timer/Once.antt =====
-- The callback of a timer is called once at most, and a deleted timer is not used.
pub mod Ticks
use uplexa_network.Prelude.{
  ℕ, ◌+◌, ◌%◌, ◌^◌, ◌≤◌, ◌≡◌, ◌≢◌, Bool, List, [], ◌∷◌, Option, none, some, leb, arith, ◌==◌,
  ==_iff, Bool-cases, inl, inr, refl,
}
use uplexa_network.Timer.{
  Timer, update_timer, canceled_timer, removed_timer, cancel, remove, cancel_each, cancel_all,
  call_later, timer_stop, find_timer,
}
use uplexa_network.Timer.Logic.{
  Job, timer_job, work_job, pool_stop, exec, Logic, tick_all, run_timer, run_job, Event,
  later_event, cancel_event, remove_event, cancel_all_event, tick_event, queue_event, run_event,
  pool_stop_event, timer_stop_event, handle, IsTimed, Reachable, init, after, init_logic,
}
use uplexa_network.Timer.Views.{
  one_if, queued, called, listed, IsOnce, queued-work_job, listed-put_timer,
}
use uplexa_network.Timer.Once.Ticks.{
  IsOnceIn, IsOnce-fewer, IsOnce-update_timer, tick_entries-IsOnce,
}

-- A run of the callback.
exec-IsOnce :
    (p q : ℕ) (l : Logic) (o : Option Timer)
    → l.context.heap p ≡ o
    → IsOnce o
        (leb l.context.next p)
        (one_if (q == p) + queued p l.pool.jobs)
        (called p l.calls)
        (listed p l.context.table)
    → IsOnceIn p (run_timer q l)
unfolding run_timer exec called
exec-IsOnce p q l none e h = ground (arith, ==_iff q p, ==_iff p q)
exec-IsOnce p q l (some t) e h = ground (arith, ==_iff q p, ==_iff p q)

update-IsOnce :
    (f : Timer → Timer) (p : ℕ) (l : Logic) (o : Option ℕ)
    → ((t : Timer) → ((f t).called_at ≡ t.called_at) × ((f t).done ≡ t.done))
    → IsOnceIn p l
    → IsOnceIn p (record l {
      context = elim o [
        | none ↦ l.context
        | some q ↦ record (l.context) { heap = update_timer f q l.context.heap }
      ];
    })
update-IsOnce f p l none same h = h
update-IsOnce f p l (some q) same h =
    IsOnce-update_timer f p q l.context.heap _ _ _ _ same (l.context.heap p) refl h

cancel-IsOnce :
    (p id : ℕ) (l : Logic) → IsOnceIn p l → IsOnceIn p (record l { context = cancel id l.context })
unfolding cancel
cancel-IsOnce p id l h =
    update-IsOnce canceled_timer p l (find_timer id l.context.table) (λ t. (refl, refl)) h

cancel_each-IsOnce :
    (p : ℕ) (es : List (ℕ × ℕ)) (l : Logic)
    → IsOnceIn p l
    → IsOnceIn p (record l { context = cancel_each es l.context })
unfolding cancel_each
cancel_each-IsOnce p [] l h = h
cancel_each-IsOnce p ((id, _) ∷ es) l h =
    cancel_each-IsOnce p es (record l { context = cancel id l.context }) (cancel-IsOnce p id l h)

call_later-IsOnce :
    (p user func timeout now : ℕ) (l : Logic) (o : Option Timer)
    → l.context.heap p ≡ o
    → IsOnce o
        (leb l.context.next p)
        (queued p l.pool.jobs)
        (called p l.calls)
        (listed p l.context.table)
    → IsOnceIn p (record l { context = (call_later user func timeout now l.context).0 })
unfolding call_later
call_later-IsOnce p user func timeout now l none e h = ground (
  arith,
  ==_iff l.context.next p,
  ==_iff p l.context.next,
  listed-put_timer p ((l.context.ids + 1) % 2 ^ 32) l.context.next l.context.table,
)
call_later-IsOnce p user func timeout now l (some t) e h = ground (
  arith,
  ==_iff l.context.next p,
  ==_iff p l.context.next,
  listed-put_timer p ((l.context.ids + 1) % 2 ^ 32) l.context.next l.context.table,
)

run_job-IsOnce :
    (p : ℕ) (l : Logic) (js : List Job) → l.pool.jobs ≡ js → IsOnceIn p l → IsOnceIn p (run_job l)
unfolding run_job queued
run_job-IsOnce p l [] e h = ground arith
run_job-IsOnce p l (work_job w ∷ js) e h = ground arith
run_job-IsOnce p l (timer_job q ∷ js) e h =
    rw e (exec-IsOnce p q (record l { pool = record (l.pool) { jobs = js } }) _ refl (rw e at h))

tick_all-IsOnce : (now p : ℕ) (l : Logic) → now ≢ 0 → IsOnceIn p l → IsOnceIn p (tick_all now l)
unfolding tick_all
tick_all-IsOnce now p l live h =
    let start =
      IsOnce-fewer _ _ _ _ _ _ (0 + listed p l.context.table) (omega arith) (omega arith) h in
    let ticked =
      tick_entries-IsOnce now p (called p l.calls) 0 l.context.table l.context.heap l.pool _ live
        start in
    elim (Bool-cases l.context.running) [
      | inl r ↦ rw r (IsOnce-fewer _ _ _ _ _ _ _ (omega arith) (omega arith) ticked)
      | inr r ↦ rw r h
    ]

-- once
pub handle-IsOnce :
    (e : Event) (p : ℕ) (l : Logic) → IsTimed e → IsOnceIn p l → IsOnceIn p (handle e l)
unfolding handle
handle-IsOnce (later_event user func timeout now) p l timed h =
    call_later-IsOnce p user func timeout now l _ refl h
handle-IsOnce (cancel_event id) p l timed h = cancel-IsOnce p id l h
handle-IsOnce (remove_event id) p l timed h =
    unfold remove in
    update-IsOnce removed_timer p l (find_timer id l.context.table) (λ t. (refl, refl)) h
handle-IsOnce cancel_all_event p l timed h =
    unfold cancel_all in cancel_each-IsOnce p l.context.table l h
handle-IsOnce (tick_event now) p l timed h = tick_all-IsOnce now p l timed h
handle-IsOnce (queue_event w) p l timed h = rw (queued-work_job p w l.pool) h
handle-IsOnce run_event p l timed h = run_job-IsOnce p l l.pool.jobs refl h
handle-IsOnce pool_stop_event p l timed h =
    unfold pool_stop in elim (Bool-cases (l.pool.threaded)) [ inl t ↦ rw t h | inr t ↦ rw t h ]
handle-IsOnce timer_stop_event p l timed h =
    unfold timer_stop listed in IsOnce-fewer _ _ _ _ _ _ 0 (omega arith) (omega arith) h

init-IsOnce : (p : ℕ) (threaded : Bool) → IsOnceIn p (init_logic threaded)
unfolding queued called listed
init-IsOnce p threaded = ground arith

pub Reachable-IsOnce : (p : ℕ) (l : Logic) → Reachable l → IsOnceIn p l
Reachable-IsOnce p _ (init threaded) = init-IsOnce p threaded
Reachable-IsOnce p _ (after {l} e timed r) = handle-IsOnce e p l timed (Reachable-IsOnce p l r)

one_call : (o : Option Timer) (fresh : Bool) (j c n : ℕ) → IsOnce o fresh j c n → j + c ≤ 1
one_call none fresh j c n h = ground arith
one_call (some t) fresh j c n h = h.1

-- In every state that comes up with no tick at the time 0, the callback of a timer was called at
-- most once, and not at all while its job is in the queue, which holds it at most once.
pub called-Reachable :
    (p : ℕ) (l : Logic) → Reachable l → queued p l.pool.jobs + called p l.calls ≤ 1
called-Reachable p l r = one_call _ _ _ _ _ (Reachable-IsOnce p l r)

used_alive :
    (o : Option Timer) (fresh : Bool) (j c n : ℕ)
    → IsOnce o fresh j c n
    → o ≡ none
    → (j ≡ 0) × (n ≡ 0)
used_alive none fresh j c n h e = (h.0, h.1)
used_alive (some t) fresh j c n h e = cc

-- In every state that comes up with no tick at the time 0, a pointer whose timer was deleted or
-- not made yet stands neither in the queue of jobs nor in the table of timers.
pub deleted-Reachable :
    (p : ℕ) (l : Logic)
    → Reachable l
    → l.context.heap p ≡ none
    → (queued p l.pool.jobs ≡ 0) × (listed p l.context.table ≡ 0)
deleted-Reachable p l r e = used_alive _ _ _ _ _ (Reachable-IsOnce p l r) e
