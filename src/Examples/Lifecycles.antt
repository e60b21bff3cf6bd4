-- ===== src/Examples/Lifecycles.antt =====
-- Runs of a connection and its closer.
use clavex_operator.Prelude.{true, false, ◌≡◌, refl, ◌≢◌, ◌↔◌, ◌⊎◌}
use clavex_operator.Stream.Lifecycle.{
  System, by_closer, closing, joining, created, locking, looping, closed, stay, then_step,
  Reachable, set_cancel, others_unlock, connect, get_message, take_lock, call_cancel, set_cancel,
}
use clavex_operator.Stream.Lifecycle.Safety.{IsConsistent, Reachable-IsConsistent}
use clavex_operator.Stream.Lifecycle.Stop.{CanFinish, CanFinish-iff, missed_cancel_waits}

-- A message comes, and the closer takes the mutex before the connection does.
abbrev deadlocked : System
deadlocked = record {
  mu = by_closer;
  closer = joining;
  conn = locking;
  cancel_set = true;
  own_cancelled = true;
  parent_cancelled = false;
}

deadlocked-Reachable : Reachable deadlocked
deadlocked-Reachable =
    then_step
      (then_step
        (then_step
          (then_step (then_step (then_step stay (set_cancel refl)) (others_unlock refl))
            (connect refl refl))
          (get_message refl))
        (take_lock refl refl))
      (call_cancel refl)

IsConsistent-example : IsConsistent deadlocked
IsConsistent-example = Reachable-IsConsistent deadlocked deadlocked-Reachable

finish_example : CanFinish deadlocked ↔ (deadlocked.conn ≢ locking)
finish_example = CanFinish-iff deadlocked deadlocked-Reachable refl refl

-- The closer comes before the connection's goroutine has begun.
abbrev too_early : System
too_early = record {
  mu = by_closer;
  closer = closing;
  conn = created;
  cancel_set = false;
  own_cancelled = false;
  parent_cancelled = false;
}

abbrev begun : System
begun = record too_early { closer = joining; conn = looping; cancel_set = true }

missed_example :
    (begun.parent_cancelled ≡ true) ⊎ ((begun.closer ≡ joining) × (begun.conn ≢ closed))
missed_example =
    missed_cancel_waits too_early begun refl refl refl refl (then_step stay (set_cancel refl))
