-- ===== src/DeepCopy/Objects.antt =====
-- The DeepCopyInto, DeepCopy and DeepCopyObject methods of the custom resources and their lists, in
-- api/v1alpha1/zz_generated.deepcopy.go.
use clavex_operator.Prelude.{List, Option, none, some}
use clavex_operator.DeepCopy.Memory.{Part}
use clavex_operator.DeepCopy.Into.{copy_pointer, copy_each, deep_copy}
use clavex_operator.DeepCopy.Structs.{
  Types, ClavexStatus, Object, ObjectList, ClavexAuthPolicy, ClavexClient, ClavexGroup,
  ClavexIdentityProvider, ClavexOrg, ClavexRole, ClavexWebhook,
}
use clavex_operator.DeepCopy.Cells.{Cell}
use clavex_operator.DeepCopy.Methods.{
  Platform, CopyInto, DeepCopy, auth_policy_spec_into, client_spec_into, group_spec_into,
  identity_provider_spec_into, org_spec_into, role_spec_into, webhook_spec_into,
  auth_policy_status_into, client_status_into, group_status_into, identity_provider_status_into,
  org_status_into, role_status_into, webhook_status_into,
}

-- The types that are a `runtime.Object`, and such an object: its type, and what it is.
pub data RuntimeType : Type 0 where
  a_auth_policy a_client a_group a_identity_provider a_org a_role a_webhook : RuntimeType
  a_auth_policy_list a_client_list a_group_list a_identity_provider_list a_org_list a_role_list
        a_webhook_list :
      RuntimeType

module _ (t : Types) where
  abbrev pub Of : RuntimeType → Type 0
  Of a_auth_policy = ClavexAuthPolicy t
  Of a_client = ClavexClient t
  Of a_group = ClavexGroup t
  Of a_identity_provider = ClavexIdentityProvider t
  Of a_org = ClavexOrg t
  Of a_role = ClavexRole t
  Of a_webhook = ClavexWebhook t
  Of a_auth_policy_list = ObjectList t
  Of a_client_list = ObjectList t
  Of a_group_list = ObjectList t
  Of a_identity_provider_list = ObjectList t
  Of a_org_list = ObjectList t
  Of a_role_list = ObjectList t
  Of a_webhook_list = ObjectList t

  abbrev pub RuntimeObject : Type 0
  RuntimeObject = (k : RuntimeType) × Of k

-- `if c := in.DeepCopy(); c != nil { return c }; return nil`
unfoldable pub as_object :
    {t : Types} (k : RuntimeType)
    → Option (Of t k) × List (Cell t)
    → Option (RuntimeObject t) × List (Cell t)
as_object k (none, m) = (none, m)
as_object k (some c, m) = (some (k, c), m)

-- A `DeepCopyObject` has a receiver that may be nil.
abbrev pub CopyObject : Types → RuntimeType → Type 0
CopyObject t k = Option (Of t k) → List (Cell t) → Option (RuntimeObject t) × List (Cell t)

module _ {t : Types} (p : Platform t) where
  unfoldable pub object_into :
      {Spec : Type 0} → CopyInto t Spec → CopyInto t ClavexStatus → CopyInto t (Object t Spec)
  object_into spec_into status_into x m =
      let (y₁, m₁) = p.object_meta_into x.object_meta m in
      let (y₂, m₂) = spec_into x.spec m₁ in
      let (y₃, m₃) = status_into x.status m₂ in
      (record x { object_meta = y₁; spec = y₂; status = y₃ }, m₃)

  unfoldable pub list_into :
      {T : Type 0} → Part (Cell t) (List T) → CopyInto t T → CopyInto t (ObjectList t)
  list_into part into x m =
      let (y₁, m₁) = p.list_meta_into x.list_meta m in
      let (y₂, m₂) = copy_pointer part (copy_each into) x.items m₁ in
      (record x { list_meta = y₁; items = y₂ }, m₂)

  unfoldable pub auth_policy_into : CopyInto t (ClavexAuthPolicy t)
  unfolding object_into auth_policy_spec_into auth_policy_status_into
  auth_policy_into = object_into auth_policy_spec_into (auth_policy_status_into p)

  unfoldable pub auth_policy_deep_copy : DeepCopy t (ClavexAuthPolicy t)
  unfolding auth_policy_into
  auth_policy_deep_copy = deep_copy auth_policy_into

  unfoldable pub auth_policy_deep_copy_object : CopyObject t a_auth_policy
  unfolding auth_policy_deep_copy
  auth_policy_deep_copy_object x m = as_object a_auth_policy (auth_policy_deep_copy x m)

  unfoldable pub client_into : CopyInto t (ClavexClient t)
  unfolding object_into client_spec_into client_status_into
  client_into = object_into client_spec_into (client_status_into p)

  unfoldable pub client_deep_copy : DeepCopy t (ClavexClient t)
  unfolding client_into
  client_deep_copy = deep_copy client_into

  unfoldable pub client_deep_copy_object : CopyObject t a_client
  unfolding client_deep_copy
  client_deep_copy_object x m = as_object a_client (client_deep_copy x m)

  unfoldable pub group_into : CopyInto t (ClavexGroup t)
  unfolding object_into group_spec_into group_status_into
  group_into = object_into group_spec_into (group_status_into p)

  unfoldable pub group_deep_copy : DeepCopy t (ClavexGroup t)
  unfolding group_into
  group_deep_copy = deep_copy group_into

  unfoldable pub group_deep_copy_object : CopyObject t a_group
  unfolding group_deep_copy
  group_deep_copy_object x m = as_object a_group (group_deep_copy x m)

  unfoldable pub identity_provider_into : CopyInto t (ClavexIdentityProvider t)
  unfolding object_into identity_provider_spec_into identity_provider_status_into
  identity_provider_into = object_into identity_provider_spec_into (identity_provider_status_into p)

  unfoldable pub identity_provider_deep_copy : DeepCopy t (ClavexIdentityProvider t)
  unfolding identity_provider_into
  identity_provider_deep_copy = deep_copy identity_provider_into

  unfoldable pub identity_provider_deep_copy_object : CopyObject t a_identity_provider
  unfolding identity_provider_deep_copy
  identity_provider_deep_copy_object x m =
      as_object a_identity_provider (identity_provider_deep_copy x m)

  unfoldable pub org_into : CopyInto t (ClavexOrg t)
  unfolding object_into org_spec_into org_status_into
  org_into = object_into org_spec_into (org_status_into p)

  unfoldable pub org_deep_copy : DeepCopy t (ClavexOrg t)
  unfolding org_into
  org_deep_copy = deep_copy org_into

  unfoldable pub org_deep_copy_object : CopyObject t a_org
  unfolding org_deep_copy
  org_deep_copy_object x m = as_object a_org (org_deep_copy x m)

  unfoldable pub role_into : CopyInto t (ClavexRole t)
  unfolding object_into role_spec_into role_status_into
  role_into = object_into role_spec_into (role_status_into p)

  unfoldable pub role_deep_copy : DeepCopy t (ClavexRole t)
  unfolding role_into
  role_deep_copy = deep_copy role_into

  unfoldable pub role_deep_copy_object : CopyObject t a_role
  unfolding role_deep_copy
  role_deep_copy_object x m = as_object a_role (role_deep_copy x m)

  unfoldable pub webhook_into : CopyInto t (ClavexWebhook t)
  unfolding object_into webhook_spec_into webhook_status_into
  webhook_into = object_into webhook_spec_into (webhook_status_into p)

  unfoldable pub webhook_deep_copy : DeepCopy t (ClavexWebhook t)
  unfolding webhook_into
  webhook_deep_copy = deep_copy webhook_into

  unfoldable pub webhook_deep_copy_object : CopyObject t a_webhook
  unfolding webhook_deep_copy
  webhook_deep_copy_object x m = as_object a_webhook (webhook_deep_copy x m)
