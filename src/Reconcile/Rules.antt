-- ===== src/Reconcile/Rules.antt =====
-- Rules for the calls: what holds of the log, and of an answer, after each.
use clavex_operator.Prelude.{Bool, List, ◌∷◌}
use clavex_operator.Api.{Answer}
use clavex_operator.Stream.Pool.{Pool}
use clavex_operator.Api.{ok, fail, is_not_found}
use clavex_operator.Reconcile.Calls.{
  Cluster, State, Event, Mutation, sdk_write, ask, tell, on_stream, clock, succeeded, confirm,
}
use clavex_operator.Reconcile.Triple.{Triple, Triple-pure, Triple-leave, Triple-if}

module _ {W Spec : Type 0} {R : State W Spec → Type 0} (L : List (Event Spec × W) → Type 0) where
  pub Triple-ask_keeps :
      {A : Type 0} (call : W → A × W) → Triple (λ s. L s.log) (ask call) (λ a s. L s.log) R
  unfolding ask
  Triple-ask_keeps call = record { at = λ s p. p }

  pub Triple-clock : (c : Cluster W Spec) → Triple (λ s. L s.log) (clock c) (λ a s. L s.log) R
  unfolding clock
  Triple-clock c = record { at = λ s p. p }

  pub Triple-on_stream : (f : Pool → Pool) → Triple (λ s. L s.log) (on_stream f) (λ a s. L s.log) R
  unfolding on_stream
  Triple-on_stream f = record { at = λ s p. p }

module _ {W Spec : Type 0} {R : State W Spec → Type 0} where
  -- A write adds its event, in the state of the world before it.
  pub Triple-tell :
      {A : Type 0} {P : State W Spec → Type 0} (M : Bool → List (Event Spec × W) → Type 0)
      (event : Bool → Event Spec) (call : W → Answer A × W)
      → ((s : State W Spec) (b : Bool) → P s → M b ((event b, s.world) ∷ s.log))
      → Triple P (tell event call) (λ a s. M (succeeded a) s.log) R
  unfolding tell
  Triple-tell M event call h = record { at = λ s p. h s (succeeded (call s.world).0) p }

-- A fact of the log that a write to the Admin API keeps.
abbrev pub KeepsWrites : {W Spec : Type 0} → (List (Event Spec × W) → Type 0) → Type 0
KeepsWrites {W} {Spec} L =
    (m : Mutation) (b : Bool) (w : W) (log : List (Event Spec × W))
    → L log
    → L ((sdk_write m b, w) ∷ log)

module _ {W Spec : Type 0} (L : List (Event Spec × W) → Type 0) where
  pub Triple-write :
      {A : Type 0} (m : Mutation) (call : W → Answer A × W)
      → KeepsWrites L
      → Triple (λ s. L s.log) (tell (sdk_write m) call) (λ _ s. L s.log) (λ _. Unit {0})
  Triple-write m call h = Triple-tell (λ _. L) (sdk_write m) call (λ s b p. h m b s.world s.log p)

  pub Triple-confirm :
      (a : Answer (Unit {0})) → Triple (λ s. L s.log) (confirm a) (λ _ s. L s.log) (λ _. Unit {0})
  unfolding confirm
  Triple-confirm (ok u) = Triple-pure tt (λ s p. p)
  Triple-confirm (fail e) =
      Triple-if (is_not_found e) _ _ (λ _. Triple-pure tt (λ s p. p))
        (λ _. Triple-leave _ (λ s p. tt))
