-- ===== src/DeepCopy/Methods.antt =====
-- The DeepCopyInto and DeepCopy methods of api/v1alpha1/zz_generated.deepcopy.go, up to the objects.
-- Those of the Kubernetes libraries are given.
use clavex_operator.Prelude.{List, Option}
use clavex_operator.Api.{SecretRef}
use clavex_operator.AuthPolicy.{HourRange}
use clavex_operator.Org.Settings.{PasswordPolicySpec, RateLimitsSpec}
use clavex_operator.Role.{RoleSpec}
use clavex_operator.DeepCopy.Into.{
  assigned, copy_pointer, copy_each, new_strings, new_entries, deep_copy,
}
use clavex_operator.DeepCopy.Structs.{
  Types, AuthPolicyConditions, ClavexAuthPolicySpec, ClavexClientSpec, ClavexGroupSpec,
  ClavexIdentityProviderSpec, ClavexOrgSpec, ClavexWebhookSpec, ClavexStatus,
}
use clavex_operator.DeepCopy.Cells.{
  Cell, strings, entries, flag, hours, secret_ref, policy, limits, time, conditions,
}

-- `DeepCopyInto` and `DeepCopy` of the library's types.
pub record Platform (t : Types) : Type 0 where
  pub object_meta_into : t.ObjectMeta → List (Cell t) → t.ObjectMeta × List (Cell t)
  pub list_meta_into : t.ListMeta → List (Cell t) → t.ListMeta × List (Cell t)
  pub condition_into : t.Condition → List (Cell t) → t.Condition × List (Cell t)
  pub time_deep_copy : t.Time → t.Time

-- A `DeepCopyInto`, and a `DeepCopy`, which has a nil to copy too.
abbrev pub CopyInto : Types → Type 0 → Type 0
CopyInto t T = T → List (Cell t) → T × List (Cell t)

abbrev pub DeepCopy : Types → Type 0 → Type 0
DeepCopy t T = Option T → List (Cell t) → Option T × List (Cell t)

module _ {t : Types} where
  unfoldable pub secret_ref_into : CopyInto t SecretRef
  secret_ref_into = assigned

  unfoldable pub secret_ref_deep_copy : DeepCopy t SecretRef
  unfolding secret_ref_into
  secret_ref_deep_copy = deep_copy secret_ref_into

  unfoldable pub hour_range_into : CopyInto t HourRange
  hour_range_into = assigned

  unfoldable pub hour_range_deep_copy : DeepCopy t HourRange
  unfolding hour_range_into
  hour_range_deep_copy = deep_copy hour_range_into

  unfoldable pub password_policy_into : CopyInto t PasswordPolicySpec
  password_policy_into = assigned

  unfoldable pub password_policy_deep_copy : DeepCopy t PasswordPolicySpec
  unfolding password_policy_into
  password_policy_deep_copy = deep_copy password_policy_into

  unfoldable pub rate_limits_into : CopyInto t RateLimitsSpec
  rate_limits_into = assigned

  unfoldable pub rate_limits_deep_copy : DeepCopy t RateLimitsSpec
  unfolding rate_limits_into
  rate_limits_deep_copy = deep_copy rate_limits_into

  unfoldable pub role_spec_into : CopyInto t RoleSpec
  role_spec_into = assigned

  unfoldable pub role_spec_deep_copy : DeepCopy t RoleSpec
  unfolding role_spec_into
  role_spec_deep_copy = deep_copy role_spec_into

  unfoldable pub auth_policy_conditions_into : CopyInto t AuthPolicyConditions
  auth_policy_conditions_into x m =
      let (y₁, m₁) = copy_pointer strings new_strings x.ip_cidrs m in
      let (y₂, m₂) = copy_pointer strings new_strings x.countries m₁ in
      let (y₃, m₃) = copy_pointer strings new_strings x.not_countries m₂ in
      let (y₄, m₄) = copy_pointer strings new_strings x.client_ids m₃ in
      let (y₅, m₅) = copy_pointer flag assigned x.mfa_enrolled m₄ in
      let (y₆, m₆) = copy_pointer flag assigned x.new_country m₅ in
      let (y₇, m₇) = copy_pointer strings new_strings x.days_of_week m₆ in
      let (y₈, m₈) = copy_pointer hours assigned x.hour_range m₇ in
      (
        record x {
          ip_cidrs = y₁;
          countries = y₂;
          not_countries = y₃;
          client_ids = y₄;
          mfa_enrolled = y₅;
          new_country = y₆;
          days_of_week = y₇;
          hour_range = y₈;
        },
        m₈,
      )

  unfoldable pub auth_policy_conditions_deep_copy : DeepCopy t AuthPolicyConditions
  unfolding auth_policy_conditions_into
  auth_policy_conditions_deep_copy = deep_copy auth_policy_conditions_into

  unfoldable pub auth_policy_spec_into : CopyInto t ClavexAuthPolicySpec
  auth_policy_spec_into x m =
      let (y₁, m₁) = auth_policy_conditions_into x.conditions m in
      (record x { conditions = y₁ }, m₁)

  unfoldable pub auth_policy_spec_deep_copy : DeepCopy t ClavexAuthPolicySpec
  unfolding auth_policy_spec_into
  auth_policy_spec_deep_copy = deep_copy auth_policy_spec_into

  unfoldable pub client_spec_into : CopyInto t ClavexClientSpec
  client_spec_into x m =
      let (y₁, m₁) = copy_pointer strings new_strings x.redirect_uris m in
      let (y₂, m₂) = copy_pointer strings new_strings x.post_logout_redirect_uris m₁ in
      let (y₃, m₃) = copy_pointer strings new_strings x.grant_types m₂ in
      let (y₄, m₄) = copy_pointer strings new_strings x.response_types m₃ in
      let (y₅, m₅) = copy_pointer strings new_strings x.scopes m₄ in
      let (y₆, m₆) = copy_pointer secret_ref assigned x.client_secret_ref m₅ in
      (
        record x {
          redirect_uris = y₁;
          post_logout_redirect_uris = y₂;
          grant_types = y₃;
          response_types = y₄;
          scopes = y₅;
          client_secret_ref = y₆;
        },
        m₆,
      )

  unfoldable pub client_spec_deep_copy : DeepCopy t ClavexClientSpec
  unfolding client_spec_into
  client_spec_deep_copy = deep_copy client_spec_into

  unfoldable pub group_spec_into : CopyInto t ClavexGroupSpec
  group_spec_into x m =
      let (y₁, m₁) = copy_pointer strings new_strings x.roles m in (record x { roles = y₁ }, m₁)

  unfoldable pub group_spec_deep_copy : DeepCopy t ClavexGroupSpec
  unfolding group_spec_into
  group_spec_deep_copy = deep_copy group_spec_into

  unfoldable pub identity_provider_spec_into : CopyInto t ClavexIdentityProviderSpec
  identity_provider_spec_into x m =
      let (y₁, m₁) = copy_pointer secret_ref assigned x.client_secret_ref m in
      let (y₂, m₂) = copy_pointer entries new_entries x.config m₁ in
      let (y₃, m₃) = copy_pointer entries new_entries x.role_claim_mappings m₂ in
      (record x { client_secret_ref = y₁; config = y₂; role_claim_mappings = y₃ }, m₃)

  unfoldable pub identity_provider_spec_deep_copy : DeepCopy t ClavexIdentityProviderSpec
  unfolding identity_provider_spec_into
  identity_provider_spec_deep_copy = deep_copy identity_provider_spec_into

  unfoldable pub org_spec_into : CopyInto t ClavexOrgSpec
  org_spec_into x m =
      let (y₁, m₁) = copy_pointer policy assigned x.password_policy m in
      let (y₂, m₂) = copy_pointer limits assigned x.rate_limits m₁ in
      (record x { password_policy = y₁; rate_limits = y₂ }, m₂)

  unfoldable pub org_spec_deep_copy : DeepCopy t ClavexOrgSpec
  unfolding org_spec_into
  org_spec_deep_copy = deep_copy org_spec_into

  unfoldable pub webhook_spec_into : CopyInto t ClavexWebhookSpec
  webhook_spec_into x m =
      let (y₁, m₁) = copy_pointer strings new_strings x.events m in
      let (y₂, m₂) = copy_pointer secret_ref assigned x.signing_key_ref m₁ in
      (record x { events = y₁; signing_key_ref = y₂ }, m₂)

  unfoldable pub webhook_spec_deep_copy : DeepCopy t ClavexWebhookSpec
  unfolding webhook_spec_into
  webhook_spec_deep_copy = deep_copy webhook_spec_into

module _ {t : Types} (p : Platform t) where
  unfoldable pub status_into : CopyInto t ClavexStatus
  status_into x m =
      let (y₁, m₁) = copy_pointer conditions (copy_each p.condition_into) x.conditions m in
      let (y₂, m₂) = copy_pointer time (λ v n. (p.time_deep_copy v, n)) x.last_synced_at m₁ in
      (record x { conditions = y₁; last_synced_at = y₂ }, m₂)

  unfoldable pub auth_policy_status_into : CopyInto t ClavexStatus
  unfolding status_into
  auth_policy_status_into = status_into

  unfoldable pub auth_policy_status_deep_copy : DeepCopy t ClavexStatus
  unfolding auth_policy_status_into
  auth_policy_status_deep_copy = deep_copy auth_policy_status_into

  unfoldable pub client_status_into : CopyInto t ClavexStatus
  unfolding status_into
  client_status_into = status_into

  unfoldable pub client_status_deep_copy : DeepCopy t ClavexStatus
  unfolding client_status_into
  client_status_deep_copy = deep_copy client_status_into

  unfoldable pub group_status_into : CopyInto t ClavexStatus
  unfolding status_into
  group_status_into = status_into

  unfoldable pub group_status_deep_copy : DeepCopy t ClavexStatus
  unfolding group_status_into
  group_status_deep_copy = deep_copy group_status_into

  unfoldable pub identity_provider_status_into : CopyInto t ClavexStatus
  unfolding status_into
  identity_provider_status_into = status_into

  unfoldable pub identity_provider_status_deep_copy : DeepCopy t ClavexStatus
  unfolding identity_provider_status_into
  identity_provider_status_deep_copy = deep_copy identity_provider_status_into

  unfoldable pub org_status_into : CopyInto t ClavexStatus
  unfolding status_into
  org_status_into = status_into

  unfoldable pub org_status_deep_copy : DeepCopy t ClavexStatus
  unfolding org_status_into
  org_status_deep_copy = deep_copy org_status_into

  unfoldable pub role_status_into : CopyInto t ClavexStatus
  unfolding status_into
  role_status_into = status_into

  unfoldable pub role_status_deep_copy : DeepCopy t ClavexStatus
  unfolding role_status_into
  role_status_deep_copy = deep_copy role_status_into

  unfoldable pub webhook_status_into : CopyInto t ClavexStatus
  unfolding status_into
  webhook_status_into = status_into

  unfoldable pub webhook_status_deep_copy : DeepCopy t ClavexStatus
  unfolding webhook_status_into
  webhook_status_deep_copy = deep_copy webhook_status_into
