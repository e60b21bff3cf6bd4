-- ===== src/Reconcile.antt =====
-- internal/controller: what the seven `Reconcile` methods share. Their text is the same up to the
-- names, so it is written once over a `Kind`, which holds what the methods differ in.
-- The Kubernetes client, the SDK's constructor and the finalizer helpers of controller-runtime are
-- the parameter `Cluster`, over a state `W` of all that lies outside the operator.
pub mod Flow
pub mod Calls
pub mod Triple
pub mod Rules
pub mod Lawful
pub mod Start
pub mod Safety
pub mod Report
pub mod Steady
pub mod Goes
pub mod Environment
pub mod Steps
pub mod Converges
use clavex_operator.Prelude.{
  ℕ, String, Bool, true, false, List, [], ◌∷◌, Option, none, some, ◌<>◌, ◌&&◌, if◌then◌else◌,
}
use clavex_operator.Api.{
  Answer, ok, fail, Error, wrapped, is_not_found, SecretRef, NamespacedName, Resource, Status, Meta,
  ConditionStatus, condition_true, condition_false, Message, text, rendered, is_deleting,
}
use clavex_operator.Conditions.{set_condition}
use clavex_operator.AuthSecret.{Credentials, resolve_auth_secret}
use clavex_operator.Stream.Pool.{Pool, ensure_org_with_key}
use Flow.{Outcome, finished, requeue, failed, Step, pure, leave, ◌>>=◌, ◌>>◌}
use Calls.{
  Cluster, State, Session, Marker, Event, read_resource, put_resource, put_status, ask, tell, clock,
}

-- What a successful sync hands on: the Admin API's id, whether out-of-band drift was corrected, and
-- a client secret that was just generated (empty if none).
pub record Synced : Type 0 where
  pub remote_id : String
  pub drifted : Bool
  pub secret : String

pub record Kind (W Spec : Type 0) : Type 0 where
  pub label : String
  pub finalizer : String
  pub org_ref : Spec → String
  pub auth_secret_ref : Spec → SecretRef
  -- A ClavexOrg drops its finalizer without credentials; the other kinds wait for them.
  pub releases_without_secret : Bool
  pub refetch_error : String
  pub in_sync : String
  pub corrected : String
  -- A ClavexOrg's Ready condition has the reason and message of its Synced condition.
  pub ready_shows_drift : Bool
  -- The remote half of a deletion; it leaves the method where it fails.
  pub delete_remote : Session → String → Resource Spec → Step (State W Spec) (Unit {0})
  pub sync : Session → String → Resource Spec → Step (State W Spec) (Answer Synced)
  -- What stands between the sync and the status update.
  pub after_sync : Resource Spec → Synced → Step (State W Spec) (Unit {0})
  -- What the method returns after a sync that failed.
  pub on_failure : Error → Outcome

-- `requeueInterval` and the two shorter delays, in milliseconds.
abbrev pub requeue_interval : ℕ
requeue_interval = 900000

abbrev pub auth_retry : ℕ
auth_retry = 30000

abbrev pub condition_type_ready : String
condition_type_ready = "Ready"

abbrev pub condition_type_synced : String
condition_type_synced = "Synced"

abbrev pub sync_reason_synced : String
sync_reason_synced = "Synced"

abbrev pub sync_reason_drift_corrected : String
sync_reason_drift_corrected = "DriftCorrected"

module _ {W Spec : Type 0} (c : Cluster W Spec) (kind : Kind W Spec) where
  open c use {contains_finalizer, add_finalizer, remove_finalizer}

  abbrev S : Type 0
  S = State W Spec

  abbrev pub has_finalizer : Resource Spec → Bool
  has_finalizer cr = contains_finalizer kind.finalizer cr.meta.finalizers

  abbrev pub with_finalizers : List String → Resource Spec → Resource Spec
  with_finalizers fs cr = record cr { meta = record cr.meta { finalizers = fs } }

  -- `r.Get` into the resource; a resource that is gone ends the method quietly.
  unfoldable pub fetch : NamespacedName → Step S (Resource Spec)
  fetch key = do
    answer ← Calls.get_resource c key
    elim answer [
      | ok cr ↦ pure cr
      | fail e ↦
          if is_not_found e
          then leave finished
          else leave (failed (wrapped ("getting " <> kind.label) e))
    ]

  unfoldable pub condition :
      String → ConditionStatus → String → Message → Resource Spec → Step S (Resource Spec)
  condition type status reason message cr = do
    now ← clock c
    pure (set_condition now type status reason message cr)

  unfoldable pub drop_finalizer : Resource Spec → Step S ⊥
  drop_finalizer cr = do
    let cr' = with_finalizers (remove_finalizer kind.finalizer cr.meta.finalizers) cr
    answer ← tell (put_resource cr') (c.update cr')
    elim answer [
      | ok stored ↦ leave finished
      | fail e ↦ leave (failed (wrapped "removing finalizer" e))
    ]

  -- `finalizeWithoutClient`
  unfoldable pub finalize_without_client : Resource Spec → Step S ⊥
  unfolding drop_finalizer
  finalize_without_client cr = if has_finalizer cr then drop_finalizer cr else leave finished

  unfoldable pub report_auth_error : Resource Spec → Error → Step S ⊥
  unfolding condition
  report_auth_error cr e = do
    cr' ← condition condition_type_ready condition_false "AuthSecretError" (rendered e) cr
    tell (put_status cr') (c.update_status cr')
    leave (requeue auth_retry)

  unfoldable pub authenticate : Resource Spec → Step S Credentials
  unfolding finalize_without_client report_auth_error
  authenticate cr = do
    answer ← ask (resolve_auth_secret c.get_secret (kind.auth_secret_ref cr.spec) cr.meta.namespace)
    elim answer [
      | ok credentials ↦ pure credentials
      | fail e ↦
          if kind.releases_without_secret && is_deleting cr
          then finalize_without_client cr >>= absurd
          else report_auth_error cr e >>= absurd
    ]

  -- `if r.EventStream != nil { r.EventStream.EnsureOrgWithKey(…) }`
  unfoldable pub connect_stream : Resource Spec → Credentials → Step S (Unit {0})
  connect_stream cr credentials =
      Calls.on_stream (ensure_org_with_key (kind.org_ref cr.spec) credentials.api_key)

  unfoldable pub build_client : Credentials → Step S Session
  build_client credentials = do
    answer ← ask (c.new_client credentials.api_key)
    elim answer [
      | ok session ↦ pure session
      | fail e ↦ leave (failed (wrapped "building Clavex client" e))
    ]

  unfoldable pub finalize : Session → String → Resource Spec → Step S ⊥
  unfolding drop_finalizer
  finalize session org_id cr =
      if has_finalizer cr
      then kind.delete_remote session org_id cr >> drop_finalizer cr
      else leave finished

  unfoldable pub ensure_finalizer : NamespacedName → Resource Spec → Step S (Resource Spec)
  ensure_finalizer key cr =
      let cr' = with_finalizers (add_finalizer kind.finalizer cr.meta.finalizers) cr in
      if has_finalizer cr then pure cr else do
        answer ← tell (put_resource cr') (c.update cr')
        elim answer [
          | fail e ↦ leave (failed (wrapped "adding finalizer" e))
          | ok stored ↦ do
            again ← Calls.get_resource c key
            elim again [
              | ok fresh ↦ pure fresh
              | fail e ↦ leave (failed (wrapped kind.refetch_error e))
            ]
        ]

  unfoldable pub report_failure : Resource Spec → Error → Step S ⊥
  unfolding condition
  report_failure cr e = do
    cr₁ ← condition condition_type_ready condition_false "ReconcileError" (rendered e) cr
    cr₂ ← condition condition_type_synced condition_false "ReconcileError" (rendered e) cr₁
    tell (put_status cr₂) (c.update_status cr₂)
    leave (kind.on_failure e)

  abbrev pub sync_reason : Bool → String
  sync_reason drifted = if drifted then sync_reason_drift_corrected else sync_reason_synced

  abbrev pub sync_message : Bool → Message
  sync_message drifted = text (if drifted then kind.corrected else kind.in_sync)

  abbrev pub observed : ℕ → String → Resource Spec → Resource Spec
  observed now remote_id cr = record cr {
    status = record cr.status {
      observed_generation = cr.meta.generation;
      remote_id = remote_id;
      last_synced_at = some now;
    };
  }

  unfoldable pub report_success : Resource Spec → Synced → Step S ⊥
  unfolding condition
  report_success cr synced = do
    let shown = kind.ready_shows_drift && synced.drifted
    kind.after_sync cr synced
    now ← clock c
    let cr₁ = observed now synced.remote_id cr
    cr₂ ← condition condition_type_ready condition_true (sync_reason shown) (sync_message shown) cr₁
    cr₃ ←
        condition condition_type_synced condition_true (sync_reason synced.drifted)
          (sync_message synced.drifted) cr₂
    answer ← tell (put_status cr₃) (c.update_status cr₃)
    elim answer [
      | ok stored ↦ leave (requeue requeue_interval)
      | fail e ↦ leave (failed (wrapped "updating status" e))
    ]

  unfoldable pub converge : Session → String → Resource Spec → Step S ⊥
  unfolding report_failure report_success
  converge session org_id cr = do
    answer ← kind.sync session org_id cr
    elim answer [ ok synced ↦ report_success cr synced | fail e ↦ report_failure cr e ]

  -- `Reconcile`
  unfoldable pub reconcile : NamespacedName → Step S ⊥
  unfolding fetch authenticate connect_stream build_client finalize ensure_finalizer converge
  reconcile key = do
    cr ← fetch key
    credentials ← authenticate cr
    connect_stream cr credentials
    session ← build_client credentials
    if is_deleting cr
        then finalize session credentials.org_id cr
        else do cr' ← ensure_finalizer key cr; converge session credentials.org_id cr'
