-- ===== src/Timer/Phases/Machine.antt =====
-- The abstract machine of a timer's life, and the phase of a timer of the logic.
use uplexa_network.Prelude.{
  ℕ, ◌≡◌, Bool, true, false, Option, none, some, if◌then◌else◌, leb, arith, ◌==◌,
}
use uplexa_network.Timer.{Timer}
use uplexa_network.Timer.Logic.{Logic}
use uplexa_network.Timer.Views.{queued, called}

-- Not made yet, waiting for its time, with its job in the queue, called, or never to be called.
pub data Phase : Type 0 where
  unborn waiting pending fired lost : Phase

-- The abstract machine: where a timer may go in one event.
abbrev pub may_follow : Phase → Phase → Bool
may_follow unborn unborn = true
may_follow unborn waiting = true
may_follow waiting waiting = true
may_follow waiting pending = true
may_follow waiting lost = true
may_follow pending pending = true
may_follow pending fired = true
may_follow pending lost = true
may_follow fired fired = true
may_follow lost lost = true
may_follow _ _ = false

-- The phase of a timer with `j` jobs and `c` calls.
unfoldable pub phase : Option Timer → Bool → ℕ → ℕ → Phase
phase o fresh j c = if leb 1 c then fired else elim o [
  | none ↦ if fresh then unborn else lost
  | some t ↦ elim t.func [
    | none ↦ lost
    | some _ ↦ if leb 1 j then pending else (if t.called_at == 0 then waiting else lost)
  ]
]

abbrev pub phase_in : ℕ → Logic → Phase
phase_in p l =
    phase (l.context.heap p) (leb l.context.next p) (queued p l.pool.jobs) (called p l.calls)

-- What a tick may do.
abbrev pub tick_moves : Phase → Phase → Bool
tick_moves waiting waiting = true
tick_moves waiting pending = true
tick_moves waiting lost = true
tick_moves unborn unborn = true
tick_moves pending pending = true
tick_moves fired fired = true
tick_moves lost lost = true
tick_moves _ _ = false

pub tick_moves_trans :
    (a b c : Phase) → tick_moves a b ≡ true → tick_moves b c ≡ true → tick_moves a c ≡ true
tick_moves_trans a b c e f = ground arith

pub tick_moves_follow : (a b : Phase) → tick_moves a b ≡ true → may_follow a b ≡ true
tick_moves_follow a b e = ground arith

pub follow_same : (a : Phase) → may_follow a a ≡ true
follow_same a = ground arith

pub tick_same : (a : Phase) → tick_moves a a ≡ true
tick_same a = ground arith
