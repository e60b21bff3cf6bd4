-- ===== src/Drift.antt =====
-- The middle of the `reconcile…` methods: create the live object where there is none, and where
-- there is one correct it if it differs from the spec, with an event when the difference did not
-- come from an edit of the spec.
pub mod Laws
pub mod Goes
use clavex_operator.Prelude.{ℕ, String, Bool, true, false, ◌<>◌, ◌&&◌, ◌==◌, if◌then◌else◌}
use clavex_operator.Api.{Answer, ok, fail, Error, wrapped, Resource}
use clavex_operator.Reconcile.{Synced}
use clavex_operator.Reconcile.Flow.{Step, pure, ◌>>=◌, ◌>>◌}
use clavex_operator.Reconcile.Calls.{State, sdk_write, creates, updates, announced, ask, tell, note}

abbrev pub event_reason_drift_detected : String
event_reason_drift_detected = "DriftDetected"

abbrev pub unchanged : String → Synced
unchanged id = record { remote_id = id; drifted = false; secret = "" }

-- `cr.Status.ObservedGeneration == cr.Generation`: the spec is the one last synced.
abbrev pub spec_unchanged : {Spec : Type 0} → Resource Spec → Bool
spec_unchanged cr = cr.status.observed_generation == cr.meta.generation

abbrev pub updated : {A : Type 0} → String → String → Bool → Answer A → Answer Synced
updated what id drifted (ok a) = ok (record { remote_id = id; drifted = drifted; secret = "" })
updated what id drifted (fail e) = fail (wrapped ("updating " <> what) e)

abbrev pub created : {A : Type 0} → String → (A → Synced) → Answer A → Answer Synced
created what synced (ok a) = ok (synced a)
created what synced (fail e) = fail (wrapped ("creating " <> what) e)

module _ {W Spec : Type 0} where
  -- `x, err := call; if err != nil { return …, err }`, and then the rest.
  unfoldable pub or_return :
      {A : Type 0}
      → (W → Answer A × W)
      → (A → Step (State W Spec) (Answer Synced))
      → Step (State W Spec) (Answer Synced)
  or_return call rest = do answer ← ask call; elim answer [ ok a ↦ rest a | fail e ↦ pure (fail e) ]

  -- `if drifted && r.Recorder != nil { r.Recorder.Eventf(…) }`
  unfoldable pub announce : Bool → Step (State W Spec) (Unit {0})
  announce due = if due then note (announced event_reason_drift_detected) else pure tt

  -- From the `…UpToDate` test to the end of the method.
  unfoldable pub correct :
      {A : Type 0}
      → Bool
      → String
      → String
      → Resource Spec
      → Bool
      → (W → Answer A × W)
      → Step (State W Spec) (Answer Synced)
  unfolding announce
  correct recorder what id cr up_to_date update =
      if up_to_date then pure (ok (unchanged id)) else do
        announce (spec_unchanged cr && recorder)
        answer ← tell (sdk_write (updates id)) update
        pure (updated what id (spec_unchanged cr) answer)

  -- The branch `if existing == nil`.
  unfoldable pub create_missing :
      {A : Type 0}
      → String
      → String
      → (A → Synced)
      → (W → Answer A × W)
      → Step (State W Spec) (Answer Synced)
  create_missing what name synced create = do
    answer ← tell (sdk_write (creates name)) create
    pure (created what synced answer)
