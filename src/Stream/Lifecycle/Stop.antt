-- ===== src/Stream/Lifecycle/Stop.antt =====
-- Whether closing a connection comes to an end.
use clavex_operator.Prelude.{true, false, ◌||◌, ◌≡◌, refl, ◌≢◌, ◌↔◌, ◌⊎◌, inl, inr, arith}
use clavex_operator.Stream.Lifecycle.{
  by_closer, closing, joining, finished, Phase, created, looping, reading, locking, holding,
  delivering, dropped, waiting, closed, System, Step, Steps, stay, then_step, Reachable,
  is_cancelled, take_lock, call_cancel, join_done, set_cancel, leave_loop, connect, fail_dial,
  get_message, lock_regs, unlock_regs, deliver, fail_read, leave_dropped, back_off, leave_waiting,
  wake_up, others_lock, others_unlock, end_parent,
}
use clavex_operator.Stream.Lifecycle.Safety.{IsConsistent, Reachable-IsConsistent}

-- The connection waits for the mutex that the closer holds while it waits for the connection.
abbrev pub IsBlocked : System → Type 0
IsBlocked s = (s.closer ≡ joining) × (s.conn ≡ locking) × (s.mu ≡ by_closer)

Step-IsBlocked : {s t : System} → Step s t → IsBlocked s → IsBlocked t
Step-IsBlocked (take_lock a b) i = ground arith
Step-IsBlocked (call_cancel a) i = ground arith
Step-IsBlocked (join_done a b) i = ground arith
Step-IsBlocked (set_cancel a) i = ground arith
Step-IsBlocked (leave_loop a b) i = ground arith
Step-IsBlocked (connect a b) i = ground arith
Step-IsBlocked (fail_dial a b) i = ground arith
Step-IsBlocked (get_message a) i = ground arith
Step-IsBlocked (lock_regs a b) i = ground arith
Step-IsBlocked (unlock_regs a) i = ground arith
Step-IsBlocked (deliver a) i = ground arith
Step-IsBlocked (fail_read a) i = ground arith
Step-IsBlocked (leave_dropped a b) i = ground arith
Step-IsBlocked (back_off a b) i = ground arith
Step-IsBlocked (leave_waiting a b) i = ground arith
Step-IsBlocked (wake_up a) i = ground arith
Step-IsBlocked (others_lock a) i = ground arith
Step-IsBlocked (others_unlock a) i = ground arith
Step-IsBlocked end_parent i = i

Steps-IsBlocked : {s t : System} → Steps s t → IsBlocked s → IsBlocked t
Steps-IsBlocked stay i = i
Steps-IsBlocked (then_step r st) i = Step-IsBlocked st (Steps-IsBlocked r i)

-- `stop` found no `c.cancel`: unless the manager ends, nothing will end the connection.
abbrev pub IsMissed : System → Type 0
IsMissed s =
    (s.parent_cancelled ≡ true)
    ⊎ ((s.closer ≡ joining) × (s.own_cancelled ≡ false) × (s.conn ≢ closed))

Step-IsMissed : {s t : System} → Step s t → IsMissed s → IsMissed t
Step-IsMissed (take_lock a b) i = ground arith
Step-IsMissed (call_cancel a) i = ground arith
Step-IsMissed (join_done a b) i = ground arith
Step-IsMissed (set_cancel a) i = ground arith
Step-IsMissed (leave_loop a b) i = ground arith
Step-IsMissed (connect a b) i = ground arith
Step-IsMissed (fail_dial a b) i = ground arith
Step-IsMissed (get_message a) i = ground arith
Step-IsMissed (lock_regs a b) i = ground arith
Step-IsMissed (unlock_regs a) i = ground arith
Step-IsMissed (deliver a) i = ground arith
Step-IsMissed (fail_read a) i = ground arith
Step-IsMissed (leave_dropped a b) i = ground arith
Step-IsMissed (back_off a b) i = ground arith
Step-IsMissed (leave_waiting a b) i = ground arith
Step-IsMissed (wake_up a) i = ground arith
Step-IsMissed (others_lock a) i = ground arith
Step-IsMissed (others_unlock a) i = ground arith
Step-IsMissed end_parent i = ground arith

Steps-IsMissed : {s t : System} → Steps s t → IsMissed s → IsMissed t
Steps-IsMissed stay i = i
Steps-IsMissed (then_step r st) i = Step-IsMissed st (Steps-IsMissed r i)

before_step : {s t u : System} → Step s t → Steps t u → Steps s u
before_step st stay = then_step stay st
before_step st (then_step r st') = then_step (before_step st r) st'

-- Some order of steps brings the closer to its end.
abbrev pub CanFinish : System → Type 0
CanFinish s = (t : System) × Steps s t × (t.closer ≡ finished)

after_step : {s t : System} → Step s t → CanFinish t → CanFinish s
after_step st (u, r, e) = (u, before_step st r, e)

module _ (s : System) (j : s.closer ≡ joining) where
  closed_finishes : s.conn ≡ closed → CanFinish s
  closed_finishes e = (_, then_step stay (join_done j e), refl)

module _ (s : System) (j : s.closer ≡ joining) (c : is_cancelled s ≡ true) where
  looping_finishes : s.conn ≡ looping → CanFinish s
  looping_finishes e = after_step (leave_loop e c) (closed_finishes _ j refl)

  dropped_finishes : s.conn ≡ dropped → CanFinish s
  dropped_finishes e = after_step (leave_dropped e c) (closed_finishes _ j refl)

  waiting_finishes : s.conn ≡ waiting → CanFinish s
  waiting_finishes e = after_step (leave_waiting e c) (closed_finishes _ j refl)

module _ (s : System) (j : s.closer ≡ joining) (c : is_cancelled s ≡ true) where
  reading_finishes : s.conn ≡ reading → CanFinish s
  reading_finishes e =
      after_step (fail_read e) (dropped_finishes (record s { conn = dropped }) j c refl)

  created_finishes : s.conn ≡ created → CanFinish s
  created_finishes e =
      after_step (set_cancel e)
        (looping_finishes (record s { conn = looping; cancel_set = true }) j c refl)

finishes :
    (s : System) (p : Phase)
    → IsConsistent s
    → s.closer ≡ joining
    → is_cancelled s ≡ true
    → s.conn ≡ p
    → p ≢ locking
    → CanFinish s
finishes s created i j c e n = created_finishes s j c e
finishes s looping i j c e n = looping_finishes s j c e
finishes s reading i j c e n = reading_finishes s j c e
finishes s locking i j c e n = absurd (n refl)
finishes s holding i j c e n = ground arith
finishes s delivering i j c e n =
    after_step (deliver e) (reading_finishes (record s { conn = reading }) j c refl)
finishes s dropped i j c e n = dropped_finishes s j c e
finishes s waiting i j c e n = waiting_finishes s j c e
finishes s closed i j c e n = closed_finishes s j e

-- In a state that can be reached, with the closer waiting for a connection whose context is
-- cancelled, some order of steps brings the closing to its end exactly if the connection does not
-- wait for the mutex, on its way to deliver a message.
pub CanFinish-iff :
    (s : System)
    → Reachable s
    → s.closer ≡ joining
    → is_cancelled s ≡ true
    → CanFinish s ↔ (s.conn ≢ locking)
CanFinish-iff s r j c = (sound, λ n. finishes s s.conn i j c refl n)
  where
    i : IsConsistent s
    i = Reachable-IsConsistent s r

    sound : CanFinish s → s.conn ≢ locking
    sound (t, path, e) l =
        let blocked = Steps-IsBlocked path (j, l, ground (arith, i)) in ground (arith, blocked, e)

-- A closer that found the connection's goroutine not yet begun waits for as long as the manager
-- runs: it calls no `cancel`, and in every later state the manager has ended or the closer waits.
pub missed_cancel_waits :
    (s t : System)
    → s.closer ≡ closing
    → s.conn ≡ created
    → s.cancel_set ≡ false
    → s.own_cancelled ≡ false
    → Steps (record s { closer = joining; own_cancelled = s.own_cancelled || s.cancel_set }) t
    → (t.parent_cancelled ≡ true) ⊎ ((t.closer ≡ joining) × (t.conn ≢ closed))
missed_cancel_waits s t a b d o r =
    elim (Steps-IsMissed r (inr (refl, ground arith, ground arith))) [
      | inl e ↦ inl e
      | inr (e, f, g) ↦ inr (e, g)
    ]
