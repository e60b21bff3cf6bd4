-- ===== src/AuthPolicy.antt =====
-- internal/controller/clavexauthpolicy_controller.go, with the spec of
-- api/v1alpha1/clavexauthpolicy_types.go.
pub mod Laws
pub mod Created
pub mod Unset
use clavex_operator.Prelude.{
  ℤ, String, Bool, true, false, List, Option, none, some, ◌&&◌, not, ◌||◌, bool_eq, int_eq, str_eq,
  if◌then◌else◌,
}
use clavex_operator.Api.{Answer, SecretRef, NamespacedName, Resource}
use clavex_operator.Compare.{same_elements}
use clavex_operator.Reconcile.{Kind, Synced, reconcile}
use clavex_operator.Reconcile.Flow.{Step, pure, failed}
use clavex_operator.Reconcile.Calls.{Cluster, State, Session, Marker, with_managed}
use clavex_operator.Named.{Directory, find_by_name, delete_by_name}
use clavex_operator.Drift.{unchanged, or_return, correct, create_missing}

pub record HourRange : Type 0 where
  pub from : ℤ
  pub to : ℤ

-- `AuthPolicyConditions`, and the SDK's `PolicyConditions`, which has the same fields. A slice is
-- `none` where it is nil, which `reflect.DeepEqual` tells from an empty one.
pub record PolicyConditions : Type 0 where
  pub ip_cidrs : Option (List String)
  pub countries : Option (List String)
  pub not_countries : Option (List String)
  pub client_ids : Option (List String)
  pub mfa_enrolled : Option Bool
  pub new_country : Option Bool
  pub days_of_week : Option (List String)
  pub hour_range : Option HourRange
  pub last_login_before : String

pub record AuthPolicySpec : Type 0 where
  pub org_ref : String
  pub auth_secret_ref : SecretRef
  pub name : String
  pub priority : ℤ
  pub action : String
  pub enabled : Bool
  pub conditions : PolicyConditions

-- `clavex.PolicyRule`, by the fields that the program reads.
pub record PolicyRule : Type 0 where
  pub id : String
  pub name : String
  pub priority : ℤ
  pub action : String
  pub enabled : Bool
  pub conditions : PolicyConditions

-- A rule is created without an `Enabled` of its own.
pub record CreatePolicyRuleParams : Type 0 where
  pub name : String
  pub priority : ℤ
  pub action : String
  pub conditions : PolicyConditions

pub record UpdatePolicyRuleParams : Type 0 where
  pub name : String
  pub priority : ℤ
  pub action : String
  pub enabled : Bool
  pub conditions : PolicyConditions

pub record PolicyService (W : Type 0) : Type 0 where
  pub rules : Directory W PolicyRule
  pub create : Session → Marker → String → CreatePolicyRuleParams → W → Answer PolicyRule × W
  pub update :
      Session → Marker → String → String → UpdatePolicyRuleParams → W → Answer PolicyRule × W

-- `findAuthPolicyByName`
abbrev pub find_auth_policy_by_name :
    {W : Type 0} → PolicyService W → Session → String → String → W → Answer (Option PolicyRule) × W
find_auth_policy_by_name sdk = find_by_name sdk.rules "policy rules"

abbrev pub clavex_auth_policy_finalizer : String
clavex_auth_policy_finalizer = "clavex.eu/clavexauthpolicy-finalizer"

-- `buildAuthPolicyConditions`: a field by field copy, the hour range by its two ends.
unfoldable pub build_auth_policy_conditions : PolicyConditions → PolicyConditions
build_auth_policy_conditions spec = record {
  ip_cidrs = spec.ip_cidrs;
  countries = spec.countries;
  not_countries = spec.not_countries;
  client_ids = spec.client_ids;
  mfa_enrolled = spec.mfa_enrolled;
  new_country = spec.new_country;
  days_of_week = spec.days_of_week;
  hour_range = (elim spec.hour_range [
    | none ↦ none
    | some range ↦ some (record { from = range.from; to = range.to })
  ]);
  last_login_before = spec.last_login_before;
}

-- `reflect.DeepEqual` on slices, on pointers, and on the conditions.
abbrev pub deep_equal : {A : Type 0} → (A → A → Bool) → Option A → Option A → Bool
deep_equal same none none = true
deep_equal same none (some b) = false
deep_equal same (some a) none = false
deep_equal same (some a) (some b) = same a b

abbrev pub same_range : HourRange → HourRange → Bool
same_range a b = int_eq a.from b.from && int_eq a.to b.to

unfoldable pub same_conditions : PolicyConditions → PolicyConditions → Bool
same_conditions a b =
    deep_equal same_elements a.ip_cidrs b.ip_cidrs
    && deep_equal same_elements a.countries b.countries
    && deep_equal same_elements a.not_countries b.not_countries
    && deep_equal same_elements a.client_ids b.client_ids
    && deep_equal bool_eq a.mfa_enrolled b.mfa_enrolled
    && deep_equal bool_eq a.new_country b.new_country
    && deep_equal same_elements a.days_of_week b.days_of_week
    && deep_equal same_range a.hour_range b.hour_range
    && str_eq a.last_login_before b.last_login_before

-- `authPolicyUpToDate`
unfoldable pub auth_policy_up_to_date : PolicyRule → Resource AuthPolicySpec → Bool
auth_policy_up_to_date live cr =
    if not (str_eq live.name cr.spec.name)
      || not (int_eq live.priority cr.spec.priority)
      || not (str_eq live.action cr.spec.action)
      || not (bool_eq live.enabled cr.spec.enabled)
    then false
    else same_conditions live.conditions (build_auth_policy_conditions cr.spec.conditions)

abbrev pub rule_synced : PolicyRule → Synced
rule_synced rule = unchanged rule.id

module _ {W : Type 0} (c : Cluster W AuthPolicySpec) (recorder : Bool) (sdk : PolicyService W) where
  unfoldable pub create_auth_policy :
      Session → String → Resource AuthPolicySpec → Step (State W AuthPolicySpec) (Answer Synced)
  create_auth_policy session org_id cr = create_missing "policy rule" cr.spec.name rule_synced (
      sdk.create session (with_managed "ClavexAuthPolicy" cr.meta) org_id (record {
        name = cr.spec.name;
        priority = cr.spec.priority;
        action = cr.spec.action;
        conditions = build_auth_policy_conditions cr.spec.conditions;
      }))

  unfoldable pub update_auth_policy :
      Session
      → String
      → Resource AuthPolicySpec
      → PolicyRule
      → Step (State W AuthPolicySpec) (Answer Synced)
  update_auth_policy session org_id cr live =
      correct recorder "policy rule" live.id cr (auth_policy_up_to_date live cr) (
        sdk.update session (with_managed "ClavexAuthPolicy" cr.meta) org_id live.id (record {
          name = cr.spec.name;
          priority = cr.spec.priority;
          action = cr.spec.action;
          enabled = cr.spec.enabled;
          conditions = build_auth_policy_conditions cr.spec.conditions;
        }))

  -- `reconcileAuthPolicy`
  unfoldable pub reconcile_auth_policy :
      Session → String → Resource AuthPolicySpec → Step (State W AuthPolicySpec) (Answer Synced)
  unfolding create_auth_policy update_auth_policy
  reconcile_auth_policy session org_id cr =
      or_return (find_auth_policy_by_name sdk session org_id cr.spec.name) λ existing.
        elim existing [
          | none ↦ create_auth_policy session org_id cr
          | some live ↦ update_auth_policy session org_id cr live
        ]

  unfoldable pub auth_policy_kind : Kind W AuthPolicySpec
  unfolding reconcile_auth_policy
  auth_policy_kind = record {
    label = "ClavexAuthPolicy";
    finalizer = clavex_auth_policy_finalizer;
    refetch_error = "re-fetching ClavexAuthPolicy after finalizer update";
    org_ref = λ spec. spec.org_ref;
    auth_secret_ref = λ spec. spec.auth_secret_ref;
    releases_without_secret = false;
    in_sync = "Policy rule is in sync with the Admin API";
    corrected = "Live policy rule had diverged from spec out-of-band; corrected to match spec";
    ready_shows_drift = false;
    delete_remote =
        λ session org_id cr. delete_by_name sdk.rules "policy rules" session org_id cr.spec.name;
    sync = reconcile_auth_policy;
    after_sync = λ cr synced. pure tt;
    on_failure = failed;
  }

  -- `ClavexAuthPolicyReconciler.Reconcile`
  unfoldable pub reconcile_clavex_auth_policy : NamespacedName → Step (State W AuthPolicySpec) ⊥
  unfolding auth_policy_kind
  reconcile_clavex_auth_policy key = reconcile c auth_policy_kind key
