-- ===== src/DeepCopy/Layouts.antt =====
-- What each struct shows: the contents of its slices, pointers and maps, and its other fields.
use clavex_operator.Prelude.{ℕ, List, Option, none, ◌≡◌}
use clavex_operator.AuthPolicy.{}
use clavex_operator.Role.{}
use clavex_operator.DeepCopy.Layout.{Layout, shown, both, along, each, pointer}
use clavex_operator.DeepCopy.Copies.{Copies, at_keys}
use clavex_operator.DeepCopy.Memory.{Part}
use clavex_operator.DeepCopy.Structs.{
  Types, AuthPolicyConditions, ClavexAuthPolicySpec, ClavexClientSpec, ClavexGroupSpec,
  ClavexIdentityProviderSpec, ClavexOrgSpec, ClavexWebhookSpec, ClavexStatus, Object, ObjectList,
}
use clavex_operator.DeepCopy.Cells.{
  Cell, strings, entries, flag, hours, secret_ref, policy, limits, time, conditions,
  auth_policy_elements, client_elements, group_elements, identity_provider_elements, org_elements,
  role_elements, webhook_elements,
}
use clavex_operator.DeepCopy.Methods.{Platform}
use clavex_operator.DeepCopy.Objects.{
  RuntimeType, Of, a_auth_policy, a_client, a_group, a_identity_provider, a_org, a_role, a_webhook,
  a_auth_policy_list, a_client_list, a_group_list, a_identity_provider_list, a_org_list,
  a_role_list, a_webhook_list,
}

-- The documented behaviour of the library's methods: they are deep copies.
pub record PlatformLaws {t : Types} (p : Platform t) : Type 1 where
  pub object_meta : Layout (Cell t) t.ObjectMeta
  pub list_meta : Layout (Cell t) t.ListMeta
  pub condition : Layout (Cell t) t.Condition
  pub object_meta_copies : Copies object_meta p.object_meta_into
  pub list_meta_copies : Copies list_meta p.list_meta_into
  pub condition_copies : Copies condition p.condition_into
  pub same_time : (v : t.Time) → p.time_deep_copy v ≡ v

-- A value without addresses.
abbrev pub plain : {C T : Type 0} → Layout C T
plain {C} {T} = shown (λ (x : T). x)

abbrev pub auth_policy_conditions_fields :
    AuthPolicyConditions
    → Option ℕ
      × (Option ℕ
          × (Option ℕ
              × (Option ℕ
                  × (Option ℕ × (Option ℕ × (Option ℕ × (Option ℕ × AuthPolicyConditions)))))))
auth_policy_conditions_fields x = (
  x.ip_cidrs,
  (
    x.countries,
    (
      x.not_countries,
      (
        x.client_ids,
        (
          x.mfa_enrolled,
          (
            x.new_country,
            (
              x.days_of_week,
              (
                x.hour_range,
                record x {
                  ip_cidrs = none;
                  countries = none;
                  not_countries = none;
                  client_ids = none;
                  mfa_enrolled = none;
                  new_country = none;
                  days_of_week = none;
                  hour_range = none;
                },
              ),
            ),
          ),
        ),
      ),
    ),
  ),
)

unfoldable pub auth_policy_conditions_layout : {t : Types} → Layout (Cell t) AuthPolicyConditions
auth_policy_conditions_layout = along auth_policy_conditions_fields (
    both (pointer strings plain) (
      both (pointer strings plain) (
        both (pointer strings plain) (
          both (pointer strings plain) (
            both (pointer flag plain) (
              both (pointer flag plain)
                (both (pointer strings plain) (both (pointer hours plain) plain))))))))

abbrev pub no_conditions : AuthPolicyConditions
no_conditions = record {
  ip_cidrs = none;
  countries = none;
  not_countries = none;
  client_ids = none;
  mfa_enrolled = none;
  new_country = none;
  days_of_week = none;
  hour_range = none;
  last_login_before = "";
}

abbrev pub auth_policy_spec_fields :
    ClavexAuthPolicySpec → AuthPolicyConditions × ClavexAuthPolicySpec
auth_policy_spec_fields x = (x.conditions, record x { conditions = no_conditions })

unfoldable pub auth_policy_spec_layout : {t : Types} → Layout (Cell t) ClavexAuthPolicySpec
auth_policy_spec_layout = along auth_policy_spec_fields (both auth_policy_conditions_layout plain)

abbrev pub client_spec_fields :
    ClavexClientSpec
    → Option ℕ × (Option ℕ × (Option ℕ × (Option ℕ × (Option ℕ × (Option ℕ × ClavexClientSpec)))))
client_spec_fields x = (
  x.redirect_uris,
  (
    x.post_logout_redirect_uris,
    (
      x.grant_types,
      (
        x.response_types,
        (
          x.scopes,
          (
            x.client_secret_ref,
            record x {
              redirect_uris = none;
              post_logout_redirect_uris = none;
              grant_types = none;
              response_types = none;
              scopes = none;
              client_secret_ref = none;
            },
          ),
        ),
      ),
    ),
  ),
)

unfoldable pub client_spec_layout : {t : Types} → Layout (Cell t) ClavexClientSpec
client_spec_layout = along client_spec_fields (
    both (pointer strings plain) (
      both (pointer strings plain) (
        both (pointer strings plain) (
          both (pointer strings plain)
            (both (pointer strings plain) (both (pointer secret_ref plain) plain))))))

abbrev pub group_spec_fields : ClavexGroupSpec → Option ℕ × ClavexGroupSpec
group_spec_fields x = (x.roles, record x { roles = none })

unfoldable pub group_spec_layout : {t : Types} → Layout (Cell t) ClavexGroupSpec
group_spec_layout = along group_spec_fields (both (pointer strings plain) plain)

abbrev pub identity_provider_spec_fields :
    ClavexIdentityProviderSpec → Option ℕ × (Option ℕ × (Option ℕ × ClavexIdentityProviderSpec))
identity_provider_spec_fields x = (
  x.client_secret_ref,
  (
    x.config,
    (
      x.role_claim_mappings,
      record x { client_secret_ref = none; config = none; role_claim_mappings = none },
    ),
  ),
)

unfoldable pub identity_provider_spec_layout :
    {t : Types} → Layout (Cell t) ClavexIdentityProviderSpec
identity_provider_spec_layout = along identity_provider_spec_fields (
    both (pointer secret_ref plain)
      (both (pointer entries (shown at_keys)) (both (pointer entries (shown at_keys)) plain)))

abbrev pub org_spec_fields : ClavexOrgSpec → Option ℕ × (Option ℕ × ClavexOrgSpec)
org_spec_fields x =
    (x.password_policy, (x.rate_limits, record x { password_policy = none; rate_limits = none }))

unfoldable pub org_spec_layout : {t : Types} → Layout (Cell t) ClavexOrgSpec
org_spec_layout =
    along org_spec_fields (both (pointer policy plain) (both (pointer limits plain) plain))

abbrev pub webhook_spec_fields : ClavexWebhookSpec → Option ℕ × (Option ℕ × ClavexWebhookSpec)
webhook_spec_fields x =
    (x.events, (x.signing_key_ref, record x { events = none; signing_key_ref = none }))

unfoldable pub webhook_spec_layout : {t : Types} → Layout (Cell t) ClavexWebhookSpec
webhook_spec_layout =
    along webhook_spec_fields (both (pointer strings plain) (both (pointer secret_ref plain) plain))

abbrev pub status_fields : ClavexStatus → Option ℕ × (Option ℕ × ClavexStatus)
status_fields x =
    (x.conditions, (x.last_synced_at, record x { conditions = none; last_synced_at = none }))

abbrev pub object_fields :
    {t : Types} {Spec : Type 0}
    → Object t Spec
    → t.ObjectMeta × (Spec × (ClavexStatus × t.TypeMeta))
object_fields x = (x.object_meta, (x.spec, (x.status, x.type_meta)))

abbrev pub list_fields : {t : Types} → ObjectList t → t.ListMeta × (Option ℕ × t.TypeMeta)
list_fields x = (x.list_meta, (x.items, x.type_meta))

module _ {t : Types} {p : Platform t} (laws : PlatformLaws p) where
  unfoldable pub status_layout : Layout (Cell t) ClavexStatus
  status_layout =
      along status_fields
        (both (pointer conditions (each laws.condition)) (both (pointer time plain) plain))

  unfoldable pub object_layout :
      {Spec : Type 0} → Layout (Cell t) Spec → Layout (Cell t) (Object t Spec)
  object_layout spec =
      along object_fields (both laws.object_meta (both spec (both status_layout plain)))

  unfoldable pub list_layout :
      {T : Type 0} → Part (Cell t) (List T) → Layout (Cell t) T → Layout (Cell t) (ObjectList t)
  list_layout part item =
      along list_fields (both laws.list_meta (both (pointer part (each item)) plain))

  -- What an object shows, by its type.
  unfoldable pub layout : (k : RuntimeType) → Layout (Cell t) (Of t k)
  layout a_auth_policy = object_layout auth_policy_spec_layout
  layout a_client = object_layout client_spec_layout
  layout a_group = object_layout group_spec_layout
  layout a_identity_provider = object_layout identity_provider_spec_layout
  layout a_org = object_layout org_spec_layout
  layout a_role = object_layout plain
  layout a_webhook = object_layout webhook_spec_layout
  layout a_auth_policy_list =
      list_layout auth_policy_elements (object_layout auth_policy_spec_layout)
  layout a_client_list = list_layout client_elements (object_layout client_spec_layout)
  layout a_group_list = list_layout group_elements (object_layout group_spec_layout)
  layout a_identity_provider_list =
      list_layout identity_provider_elements (object_layout identity_provider_spec_layout)
  layout a_org_list = list_layout org_elements (object_layout org_spec_layout)
  layout a_role_list = list_layout role_elements (object_layout plain)
  layout a_webhook_list = list_layout webhook_elements (object_layout webhook_spec_layout)
