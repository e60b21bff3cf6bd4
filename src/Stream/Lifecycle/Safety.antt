-- ===== src/Stream/Lifecycle/Safety.antt =====
-- What holds in every state of a connection and its closer.
use clavex_operator.Prelude.{Bool, true, false, ◌||◌, ◌≡◌, refl, arith}
use clavex_operator.Stream.Lifecycle.{
  Holder, by_closer, by_conn, Closer, closing, joining, Phase, created, holding, System, Step,
  Steps, stay, then_step, Reachable, take_lock, call_cancel, join_done, set_cancel, leave_loop,
  connect, fail_dial, get_message, lock_regs, unlock_regs, deliver, fail_read, leave_dropped,
  back_off, leave_waiting, wake_up, others_lock, others_unlock, end_parent,
}

-- The closer has the mutex while it closes the connection.
abbrev pub is_closing : Closer → Bool
is_closing closing = true
is_closing joining = true
is_closing _ = false

abbrev pub is_holding : Phase → Bool
is_holding holding = true
is_holding _ = false

abbrev pub is_created : Phase → Bool
is_created created = true
is_created _ = false

abbrev pub held_by_closer : Holder → Bool
held_by_closer by_closer = true
held_by_closer _ = false

abbrev pub held_by_conn : Holder → Bool
held_by_conn by_conn = true
held_by_conn _ = false

-- The mutex is held by whom it says, and `c.cancel` is set as soon as `run` has begun.
abbrev pub IsConsistent : System → Type 0
IsConsistent s =
    (held_by_closer s.mu ≡ is_closing s.closer)
    × (held_by_conn s.mu ≡ is_holding s.conn)
    × ((s.cancel_set || is_created s.conn) ≡ true)

Step-IsConsistent : {s t : System} → Step s t → IsConsistent s → IsConsistent t
Step-IsConsistent (take_lock a b) i = ground arith
Step-IsConsistent (call_cancel a) i = ground arith
Step-IsConsistent (join_done a b) i = ground arith
Step-IsConsistent (set_cancel a) i = ground arith
Step-IsConsistent (leave_loop a b) i = ground arith
Step-IsConsistent (connect a b) i = ground arith
Step-IsConsistent (fail_dial a b) i = ground arith
Step-IsConsistent (get_message a) i = ground arith
Step-IsConsistent (lock_regs a b) i = ground arith
Step-IsConsistent (unlock_regs a) i = ground arith
Step-IsConsistent (deliver a) i = ground arith
Step-IsConsistent (fail_read a) i = ground arith
Step-IsConsistent (leave_dropped a b) i = ground arith
Step-IsConsistent (back_off a b) i = ground arith
Step-IsConsistent (leave_waiting a b) i = ground arith
Step-IsConsistent (wake_up a) i = ground arith
Step-IsConsistent (others_lock a) i = ground arith
Step-IsConsistent (others_unlock a) i = ground arith
Step-IsConsistent end_parent i = i

Steps-IsConsistent : {s t : System} → Steps s t → IsConsistent s → IsConsistent t
Steps-IsConsistent stay i = i
Steps-IsConsistent (then_step r st) i = Step-IsConsistent st (Steps-IsConsistent r i)

-- In every state that can be reached, the mutex is with the closer exactly while it closes the
-- connection and with the connection exactly while it reads the registry, and `c.cancel` is set
-- once the connection's goroutine has begun.
pub Reachable-IsConsistent : (s : System) → Reachable s → IsConsistent s
Reachable-IsConsistent s r = Steps-IsConsistent r (refl, refl, refl)
