-- ===== src/Reconcile/Flow.antt =====
-- Early return. A step of a method either goes on with a value or returns from the whole method
-- with the pair `(ctrl.Result, error)`.
use clavex_operator.Prelude.{ℕ, Option, none, some}
use clavex_operator.Api.{Error}

-- `ctrl.Result` is its `RequeueAfter`, in milliseconds; 0 asks for no later pass.
pub record Outcome : Type 0 where
  pub requeue_after : ℕ
  pub error : Option Error

abbrev pub finished : Outcome
finished = record { requeue_after = 0; error = none }

abbrev pub requeue : ℕ → Outcome
requeue delay = record { requeue_after = delay; error = none }

abbrev pub failed : Error → Outcome
failed e = record { requeue_after = 0; error = some e }

pub data Flow (S A : Type 0) : Type 0 where
  next : A → S → Flow S A
  exit : Outcome → S → Flow S A

abbrev pub Step : Type 0 → Type 0 → Type 0
Step S A = S → Flow S A

module _ {S A : Type 0} where
  abbrev pub pure : A → Step S A
  pure a s = next a s

  abbrev pub leave : Outcome → Step S A
  leave o s = exit o s

module _ {S A B : Type 0} where
  abbrev pub continue : Flow S A → (A → Step S B) → Flow S B
  continue (next a s) f = f a s
  continue (exit o s) f = exit o s

  infixl 5 ◌>>=◌ ◌>>◌
  abbrev pub ◌>>=◌ : Step S A → (A → Step S B) → Step S B
  ◌>>=◌ m f s = continue (m s) f

  abbrev pub ◌>>◌ : Step S A → Step S B → Step S B
  m >> k = m >>= λ _. k

-- The state in which a step ends, and what a method that always returns gives back.
abbrev pub state_of : {S A : Type 0} → Flow S A → S
state_of (next a s) = s
state_of (exit o s) = s

abbrev pub outcome_of : {S : Type 0} → Flow S ⊥ → Outcome
outcome_of (next x s) = absurd x
outcome_of (exit o s) = o
