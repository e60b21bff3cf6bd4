-- ===== src/Org/Settings.antt =====
-- internal/controller/clavexorg_controller.go: a section of an org's settings, the values that the
-- spec asks for and the live ones, and how one section is brought to the spec or let go.
use clavex_operator.Prelude.{
  ℤ, String, Bool, false, Option, none, some, ◌<>◌, ◌&&◌, not, bool_eq, int_eq, str_eq,
  if◌then◌else◌,
}
use clavex_operator.Api.{Answer, ok, fail, wrapped, is_not_found, SecretRef}
use clavex_operator.AuthSecret.{and_then}
use clavex_operator.Reconcile.Flow.{Step, pure, ◌>>=◌}
use clavex_operator.Reconcile.Calls.{
  State, managed_by, sdk_write, updates, releases_marker, ask, tell,
}

pub record PasswordPolicySpec : Type 0 where
  pub min_length : ℤ
  pub require_upper : Bool
  pub require_lower : Bool
  pub require_number : Bool
  pub require_special : Bool
  pub max_age_days : ℤ
  pub history_count : ℤ

pub record RateLimitsSpec : Type 0 where
  pub max_attempts_per_minute : ℤ
  pub lockout_duration_seconds : ℤ
  pub ip_max_attempts_per_minute : ℤ

pub record OrgSpec : Type 0 where
  pub org_ref : String
  pub auth_secret_ref : SecretRef
  pub password_policy : Option PasswordPolicySpec
  pub rate_limits : Option RateLimitsSpec

-- `clavex.PasswordPolicy` and `clavex.RateLimitConfig`: the org's id, the values that the spec has
-- too, and what the marker says.
pub record PasswordPolicy : Type 0 where
  pub org_id : String
  pub values : PasswordPolicySpec
  pub managed_by : Option String

pub record RateLimitConfig : Type 0 where
  pub org_id : String
  pub values : RateLimitsSpec
  pub managed_by : Option String

-- `passwordPolicyUpToDate`
unfoldable pub password_policy_up_to_date : PasswordPolicy → PasswordPolicy → Bool
password_policy_up_to_date live desired =
    int_eq live.values.min_length desired.values.min_length
    && bool_eq live.values.require_upper desired.values.require_upper
    && bool_eq live.values.require_lower desired.values.require_lower
    && bool_eq live.values.require_number desired.values.require_number
    && bool_eq live.values.require_special desired.values.require_special
    && int_eq live.values.max_age_days desired.values.max_age_days
    && int_eq live.values.history_count desired.values.history_count

-- `rateLimitsUpToDate`
unfoldable pub rate_limits_up_to_date : RateLimitConfig → RateLimitConfig → Bool
rate_limits_up_to_date live desired =
    int_eq live.values.max_attempts_per_minute desired.values.max_attempts_per_minute
    && int_eq live.values.lockout_duration_seconds desired.values.lockout_duration_seconds
    && int_eq live.values.ip_max_attempts_per_minute desired.values.ip_max_attempts_per_minute

-- `live.ManagedBy != nil && *live.ManagedBy == managedBy`
unfoldable pub is_ours : Option String → Bool
is_ours none = false
is_ours (some m) = str_eq m managed_by

-- What is known of a live section: that it is there with the values wanted, and that its marker is
-- the operator's.
pub record Standing : Type 0 where
  pub up_to_date : Bool
  pub managed : Bool

abbrev pub missing : Standing
missing = record { up_to_date = false; managed = false }

unfoldable pub policy_standing : PasswordPolicy → Option PasswordPolicy → Standing
unfolding password_policy_up_to_date is_ours
policy_standing desired none = missing
policy_standing desired (some live) = record {
  up_to_date = password_policy_up_to_date live desired;
  managed = is_ours live.managed_by;
}

unfoldable pub rates_standing : RateLimitConfig → Option RateLimitConfig → Standing
unfolding rate_limits_up_to_date is_ours
rates_standing desired none = missing
rates_standing desired (some live) = record {
  up_to_date = rate_limits_up_to_date live desired;
  managed = is_ours live.managed_by;
}

abbrev pub desired_policy : String → PasswordPolicySpec → PasswordPolicy
desired_policy org_id spec = record { org_id = org_id; values = spec; managed_by = none }

abbrev pub desired_rates : String → RateLimitsSpec → RateLimitConfig
desired_rates org_id spec = record { org_id = org_id; values = spec; managed_by = none }

-- A release that went through, or that found no section.
abbrev pub released : String → Answer (Unit {0}) → Answer (Unit {0})
released what (ok done) = ok tt
released what (fail e) =
    if is_not_found e then ok tt else fail (wrapped ("releasing " <> what <> " marker") e)

module _ {W : Type 0} where
  -- The end of `reconcilePasswordPolicy` and of `reconcileRateLimits`: whether the values differed.
  unfoldable pub converge_section :
      String → Standing → (W → Answer (Unit {0}) × W) → Step (State W OrgSpec) (Answer Bool)
  converge_section what standing put =
      if standing.up_to_date && standing.managed then pure (ok false) else do
        answer ← tell (sdk_write (updates what)) put
        pure
            (and_then (wrapped ("updating " <> what)) (λ done. ok (not standing.up_to_date)) answer)

  -- A section's `Get`, and then the rest.
  unfoldable pub reconcile_section :
      {A : Type 0}
      → String
      → (W → Answer (Option A) × W)
      → (Option A → Standing)
      → (W → Answer (Unit {0}) × W)
      → Step (State W OrgSpec) (Answer Bool)
  unfolding converge_section
  reconcile_section what get standing put = do
    answer ← ask get
    elim answer [
      | ok live ↦ converge_section what (standing live) put
      | fail e ↦ pure (fail (wrapped ("getting " <> what) e))
    ]

  -- `ReleaseManagedMarker` with its `!clavex.IsNotFound(err)`.
  unfoldable pub release_section :
      String → (W → Answer (Unit {0}) × W) → Step (State W OrgSpec) (Answer (Unit {0}))
  release_section what call = do
    answer ← tell (sdk_write (releases_marker what)) call
    pure (released what answer)

  -- One half of `reconcileOrgSettings`.
  unfoldable pub section_or_release :
      {A : Type 0}
      → String
      → String
      → Option A
      → (A → Step (State W OrgSpec) (Answer Bool))
      → (W → Answer (Unit {0}) × W)
      → Step (State W OrgSpec) (Answer Bool)
  unfolding release_section
  section_or_release what marker none section release = do
    answer ← release_section marker release
    pure (and_then (λ e. e) (λ done. ok false) answer)
  section_or_release what marker (some spec) section release = do
    answer ← section spec
    pure (and_then (wrapped ("reconciling " <> what)) ok answer)
