-- ===== src/Stream/Lifecycle.antt =====
-- internal/eventstream: one connection's goroutine (`run`, `connectAndRead` and the part of
-- `dispatch` that takes the manager's mutex) beside the goroutine that closes it (`reconcileConns`
-- or `shutdown`, which call `stop` with the mutex held) and the other users of the mutex. A step is
-- one action of one goroutine, in any order.
pub mod Safety
pub mod Stop
use clavex_operator.Prelude.{Bool, true, false, ◌||◌, ◌≡◌, ◌⊎◌}

-- Who holds `Manager.mu`: nobody; the pass of `reconcileConns`, or the `shutdown`, that closes this
-- connection, for the whole of its time under the mutex; this connection's `dispatch`; or any other
-- code. `others` are `EnsureOrgWithKey`, `Register`, `discover`, `Start`, the dispatches of other
-- connections, and the passes of `reconcileConns` that do not close this connection.
pub data Holder : Type 0 where
  free by_closer by_conn others : Holder

-- Where the closing goroutine stands: before it takes the mutex; with the mutex, up to the test of
-- `c.cancel` in this connection's `stop`; at `<-c.done`; after it deleted the connection and released
-- the mutex. Under the mutex `reconcileConns` also resolves keys and opens and stops other
-- connections: `closing` and `others` take as long as that does, and what it waits for there is taken
-- to end.
pub data Closer : Type 0 where
  idle closing joining finished : Closer

-- Where the connection's goroutine stands: created by `go c.run(ctx)`; at the head of the loop of
-- `run`; connected and reading; in `dispatch` before `m.mu.Lock()`, with the mutex, and after
-- `m.mu.Unlock()`; after `connectAndRead` returned; waiting for the backoff; after `close(done)`.
pub data Phase : Type 0 where
  created looping reading locking holding delivering dropped waiting closed : Phase

pub record System : Type 0 where
  pub mu : Holder
  pub closer : Closer
  pub conn : Phase
  -- `c.cancel != nil`
  pub cancel_set : Bool
  -- The connection's own context was cancelled by `c.cancel()`, and its parent by the end of the
  -- manager.
  pub own_cancelled : Bool
  pub parent_cancelled : Bool

-- `ctx.Err() != nil` in the connection's goroutine.
abbrev pub is_cancelled : System → Bool
is_cancelled s = s.own_cancelled || s.parent_cancelled

pub data Step (s : System) : System → Type 0 where
  -- The closer takes the mutex, cancels where it can, waits, and lets the mutex go.
  take_lock : s.closer ≡ idle → s.mu ≡ free → Step s (record s { closer = closing; mu = by_closer })
  call_cancel :
      s.closer ≡ closing
      → Step s (record s { closer = joining; own_cancelled = s.own_cancelled || s.cancel_set })
  join_done :
      s.closer ≡ joining → s.conn ≡ closed → Step s (record s { closer = finished; mu = free })
  -- The head of `run` and of its loop.
  set_cancel : s.conn ≡ created → Step s (record s { conn = looping; cancel_set = true })
  leave_loop : s.conn ≡ looping → is_cancelled s ≡ true → Step s (record s { conn = closed })
  connect : s.conn ≡ looping → is_cancelled s ≡ false → Step s (record s { conn = reading })
  fail_dial : s.conn ≡ looping → is_cancelled s ≡ false → Step s (record s { conn = dropped })
  -- A message of a managed type, whether the context is cancelled or not: the socket is closed by
  -- another goroutine, some time after the cancellation.
  get_message : s.conn ≡ reading → Step s (record s { conn = locking })
  lock_regs : s.conn ≡ locking → s.mu ≡ free → Step s (record s { conn = holding; mu = by_conn })
  unlock_regs : s.conn ≡ holding → Step s (record s { conn = delivering; mu = free })
  deliver : s.conn ≡ delivering → Step s (record s { conn = reading })
  fail_read : s.conn ≡ reading → Step s (record s { conn = dropped })
  leave_dropped : s.conn ≡ dropped → is_cancelled s ≡ true → Step s (record s { conn = closed })
  back_off : s.conn ≡ dropped → is_cancelled s ≡ false → Step s (record s { conn = waiting })
  leave_waiting : s.conn ≡ waiting → is_cancelled s ≡ true → Step s (record s { conn = closed })
  wake_up : s.conn ≡ waiting → Step s (record s { conn = looping })
  -- The rest of the program, which holds the mutex for any time.
  others_lock : s.mu ≡ free → Step s (record s { mu = others })
  others_unlock : s.mu ≡ others → Step s (record s { mu = free })
  end_parent : Step s (record s { parent_cancelled = true })

-- The connection is in the map and its goroutine was just created, with the mutex held by the one
-- who did so.
abbrev pub opened_now : System
opened_now = record {
  mu = others;
  closer = idle;
  conn = created;
  cancel_set = false;
  own_cancelled = false;
  parent_cancelled = false;
}

pub data Steps (s : System) : System → Type 0 where
  stay : Steps s s
  then_step : {t u : System} → Steps s t → Step t u → Steps s u

abbrev pub Reachable : System → Type 0
Reachable s = Steps opened_now s
