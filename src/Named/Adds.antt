-- ===== src/Named/Adds.antt =====
-- The remote half of a deletion adds to the log of a pass only what it writes to the Admin API.
use clavex_operator.Prelude.{String, List, Option, none, some}
use clavex_operator.Reconcile.Flow.{pure, ◌>>=◌}
use clavex_operator.Reconcile.Calls.{State, Session, Event, sdk_write, deletes, tell, confirm}
use clavex_operator.Reconcile.Rules.{KeepsWrites, Triple-ask_keeps, Triple-write, Triple-confirm}
use clavex_operator.Reconcile.Triple.{Triple, Triple-pure, Triple-leave, Triple-bind, Triple-answer}
use clavex_operator.Named.{Directory, delete_by_name}

module _ {W Spec Live : Type 0} (d : Directory W Live) where
  -- The deletion writes to the Admin API only.
  pub delete_by_name_adds :
      (what : String) (session : Session) (org_id key : String) (L : List (Event Spec × W) → Type 0)
      → KeepsWrites L
      → Triple
          (λ s. L s.log)
          (delete_by_name d what session org_id key)
          (λ _ s. L s.log)
          (λ _. Unit {0})
  unfolding delete_by_name
  delete_by_name_adds what session org_id key L h =
      Triple-bind (λ _ s. L s.log) _ _ (Triple-ask_keeps L _)
        λ a. Triple-answer (λ _ s. L s.log) a _ _ by_existing (λ e. Triple-leave _ (λ s p. tt))
    where
      by_existing :
          (existing : Option Live)
          → Triple {S = State W Spec}
              (λ s. L s.log)
              (elim existing [
                | none ↦ pure tt
                | some live ↦ do
                  answer ←
                      tell (sdk_write (deletes (d.id live))) (d.delete session org_id (d.id live))
                  confirm answer
              ])
              (λ _ s. L s.log)
              (λ _. Unit {0})
      by_existing none = Triple-pure tt (λ s p. p)
      by_existing (some x) =
          Triple-bind (λ _ s. L s.log) _ _ (Triple-write L _ _ h) (Triple-confirm L)
