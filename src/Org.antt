-- ===== src/Org.antt =====
-- internal/controller/clavexorg_controller.go, with the spec of api/v1alpha1/clavexorg_types.go. An
-- org is not created or deleted: two sections of its settings are kept as the spec says, each with
-- a marker that is released when the spec or the resource lets go of the section.
pub mod Settings
pub mod Laws
pub mod Settles
use clavex_operator.Prelude.{
  ℤ, String, Bool, true, false, Option, none, some, ◌<>◌, ◌&&◌, ◌||◌, not, bool_eq, int_eq, str_eq,
  if◌then◌else◌,
}
use clavex_operator.Api.{
  Answer, ok, fail, wrapped, is_not_found, SecretRef, NamespacedName, Resource,
}
use clavex_operator.AuthSecret.{and_then}
use clavex_operator.Reconcile.{Kind, Synced, reconcile}
use clavex_operator.Reconcile.Flow.{Step, pure, leave, failed, ◌>>=◌}
use clavex_operator.Reconcile.Calls.{
  Cluster, State, Session, Marker, managed_by, with_managed, sdk_write, updates, releases_marker,
  ask, tell,
}
use clavex_operator.Drift.{announce}
use Settings.{
  PasswordPolicySpec, RateLimitsSpec, OrgSpec, PasswordPolicy, RateLimitConfig, policy_standing,
  rates_standing, desired_policy, desired_rates, release_section, reconcile_section,
  section_or_release,
}

-- The SDK's `PasswordPolicy` and `RateLimits`; what is got may be nil.
pub record OrgService (W : Type 0) : Type 0 where
  pub get_policy : Session → String → W → Answer (Option PasswordPolicy) × W
  pub put_policy : Session → Marker → String → PasswordPolicy → W → Answer (Unit {0}) × W
  pub release_policy : Session → String → W → Answer (Unit {0}) × W
  pub get_rates : Session → String → W → Answer (Option RateLimitConfig) × W
  pub update_rates : Session → Marker → String → RateLimitConfig → W → Answer (Unit {0}) × W
  pub release_rates : Session → String → W → Answer (Unit {0}) × W

abbrev pub clavex_org_finalizer : String
clavex_org_finalizer = "clavex.eu/clavexorg-finalizer"

module _ {W : Type 0} (recorder : Bool) (sdk : OrgService W) where
  -- `reconcilePasswordPolicy`
  unfoldable pub reconcile_password_policy :
      Session
      → String
      → Resource OrgSpec
      → PasswordPolicySpec
      → Step (State W OrgSpec) (Answer Bool)
  unfolding reconcile_section policy_standing
  reconcile_password_policy session org_id cr spec =
      let desired = desired_policy org_id spec in
      reconcile_section "password policy" (sdk.get_policy session org_id) (policy_standing desired)
        (sdk.put_policy session (with_managed "ClavexOrg" cr.meta) org_id desired)

  -- `reconcileRateLimits`
  unfoldable pub reconcile_rate_limits :
      Session → String → Resource OrgSpec → RateLimitsSpec → Step (State W OrgSpec) (Answer Bool)
  unfolding reconcile_section rates_standing
  reconcile_rate_limits session org_id cr spec =
      let desired = desired_rates org_id spec in
      reconcile_section "rate limits" (sdk.get_rates session org_id) (rates_standing desired)
        (sdk.update_rates session (with_managed "ClavexOrg" cr.meta) org_id desired)

  -- `reconcileOrgSettings`
  unfoldable pub reconcile_org_settings :
      Session → String → Resource OrgSpec → Step (State W OrgSpec) (Answer Bool)
  unfolding section_or_release reconcile_password_policy reconcile_rate_limits
  reconcile_org_settings session org_id cr = do
    first ←
        section_or_release "password policy" "password-policy" cr.spec.password_policy
          (reconcile_password_policy session org_id cr) (sdk.release_policy session org_id)
    elim first [
      | fail e ↦ pure (fail e)
      | ok d₁ ↦ do
        second ←
            section_or_release "rate limits" "rate-limits" cr.spec.rate_limits
              (reconcile_rate_limits session org_id cr) (sdk.release_rates session org_id)
        pure (and_then (λ e. e) (λ d₂. ok (d₁ || d₂)) second)
    ]

  abbrev pub org_synced : Bool → Synced
  org_synced drifted = record { remote_id = ""; drifted = drifted; secret = "" }

  unfoldable pub sync_org :
      Session → String → Resource OrgSpec → Step (State W OrgSpec) (Answer Synced)
  unfolding reconcile_org_settings
  sync_org session org_id cr = do
    answer ← reconcile_org_settings session org_id cr
    pure (and_then (λ e. e) (λ drifted. ok (org_synced drifted)) answer)

  -- The deletion branch: both markers are released.
  unfoldable pub release_org :
      Session → String → Resource OrgSpec → Step (State W OrgSpec) (Unit {0})
  unfolding release_section
  release_org session org_id cr = do
    first ← release_section "password-policy" (sdk.release_policy session org_id)
    elim first [
      | fail e ↦ leave (failed e)
      | ok done ↦ do
        second ← release_section "rate-limits" (sdk.release_rates session org_id)
        elim second [ fail e ↦ leave (failed e) | ok done ↦ pure tt ]
    ]

  unfoldable pub org_kind : Kind W OrgSpec
  unfolding sync_org release_org announce
  org_kind = record {
    label = "ClavexOrg";
    finalizer = clavex_org_finalizer;
    refetch_error = "re-fetching after finalizer add";
    org_ref = λ spec. spec.org_ref;
    auth_secret_ref = λ spec. spec.auth_secret_ref;
    releases_without_secret = true;
    in_sync = "Org settings are in sync with the Admin API";
    corrected = "Live org settings had diverged from spec out-of-band; corrected to match spec";
    ready_shows_drift = true;
    delete_remote = release_org;
    sync = sync_org;
    after_sync = λ cr synced. announce (synced.drifted && recorder);
    on_failure = failed;
  }

  -- `ClavexOrgReconciler.Reconcile`
  unfoldable pub reconcile_clavex_org :
      Cluster W OrgSpec → NamespacedName → Step (State W OrgSpec) ⊥
  unfolding org_kind
  reconcile_clavex_org c key = reconcile c org_kind key
