-- ===== src/DeepCopy/Lists.antt =====
-- The same methods of the lists of custom resources, and the methods by the type of the receiver.
use clavex_operator.DeepCopy.Into.{deep_copy}
use clavex_operator.DeepCopy.Structs.{Types, ObjectList}
use clavex_operator.DeepCopy.Cells.{
  auth_policy_elements, client_elements, group_elements, identity_provider_elements, org_elements,
  role_elements, webhook_elements,
}
use clavex_operator.DeepCopy.Methods.{Platform, CopyInto, DeepCopy}
use clavex_operator.DeepCopy.Objects.{
  RuntimeType, Of, CopyObject, as_object, list_into, a_auth_policy, a_client, a_group,
  a_identity_provider, a_org, a_role, a_webhook, a_auth_policy_list, a_client_list, a_group_list,
  a_identity_provider_list, a_org_list, a_role_list, a_webhook_list, auth_policy_into, client_into,
  group_into, identity_provider_into, org_into, role_into, webhook_into,
  auth_policy_deep_copy_object, client_deep_copy_object, group_deep_copy_object,
  identity_provider_deep_copy_object, org_deep_copy_object, role_deep_copy_object,
  webhook_deep_copy_object,
}

module _ {t : Types} (p : Platform t) where
  unfoldable pub auth_policy_list_into : CopyInto t (ObjectList t)
  unfolding list_into auth_policy_into
  auth_policy_list_into = list_into p auth_policy_elements (auth_policy_into p)

  unfoldable pub auth_policy_list_deep_copy : DeepCopy t (ObjectList t)
  unfolding auth_policy_list_into
  auth_policy_list_deep_copy = deep_copy auth_policy_list_into

  unfoldable pub auth_policy_list_deep_copy_object : CopyObject t a_auth_policy_list
  unfolding auth_policy_list_deep_copy
  auth_policy_list_deep_copy_object x m =
      as_object a_auth_policy_list (auth_policy_list_deep_copy x m)

  unfoldable pub client_list_into : CopyInto t (ObjectList t)
  unfolding list_into client_into
  client_list_into = list_into p client_elements (client_into p)

  unfoldable pub client_list_deep_copy : DeepCopy t (ObjectList t)
  unfolding client_list_into
  client_list_deep_copy = deep_copy client_list_into

  unfoldable pub client_list_deep_copy_object : CopyObject t a_client_list
  unfolding client_list_deep_copy
  client_list_deep_copy_object x m = as_object a_client_list (client_list_deep_copy x m)

  unfoldable pub group_list_into : CopyInto t (ObjectList t)
  unfolding list_into group_into
  group_list_into = list_into p group_elements (group_into p)

  unfoldable pub group_list_deep_copy : DeepCopy t (ObjectList t)
  unfolding group_list_into
  group_list_deep_copy = deep_copy group_list_into

  unfoldable pub group_list_deep_copy_object : CopyObject t a_group_list
  unfolding group_list_deep_copy
  group_list_deep_copy_object x m = as_object a_group_list (group_list_deep_copy x m)

  unfoldable pub identity_provider_list_into : CopyInto t (ObjectList t)
  unfolding list_into identity_provider_into
  identity_provider_list_into = list_into p identity_provider_elements (identity_provider_into p)

  unfoldable pub identity_provider_list_deep_copy : DeepCopy t (ObjectList t)
  unfolding identity_provider_list_into
  identity_provider_list_deep_copy = deep_copy identity_provider_list_into

  unfoldable pub identity_provider_list_deep_copy_object : CopyObject t a_identity_provider_list
  unfolding identity_provider_list_deep_copy
  identity_provider_list_deep_copy_object x m =
      as_object a_identity_provider_list (identity_provider_list_deep_copy x m)

  unfoldable pub org_list_into : CopyInto t (ObjectList t)
  unfolding list_into org_into
  org_list_into = list_into p org_elements (org_into p)

  unfoldable pub org_list_deep_copy : DeepCopy t (ObjectList t)
  unfolding org_list_into
  org_list_deep_copy = deep_copy org_list_into

  unfoldable pub org_list_deep_copy_object : CopyObject t a_org_list
  unfolding org_list_deep_copy
  org_list_deep_copy_object x m = as_object a_org_list (org_list_deep_copy x m)

  unfoldable pub role_list_into : CopyInto t (ObjectList t)
  unfolding list_into role_into
  role_list_into = list_into p role_elements (role_into p)

  unfoldable pub role_list_deep_copy : DeepCopy t (ObjectList t)
  unfolding role_list_into
  role_list_deep_copy = deep_copy role_list_into

  unfoldable pub role_list_deep_copy_object : CopyObject t a_role_list
  unfolding role_list_deep_copy
  role_list_deep_copy_object x m = as_object a_role_list (role_list_deep_copy x m)

  unfoldable pub webhook_list_into : CopyInto t (ObjectList t)
  unfolding list_into webhook_into
  webhook_list_into = list_into p webhook_elements (webhook_into p)

  unfoldable pub webhook_list_deep_copy : DeepCopy t (ObjectList t)
  unfolding webhook_list_into
  webhook_list_deep_copy = deep_copy webhook_list_into

  unfoldable pub webhook_list_deep_copy_object : CopyObject t a_webhook_list
  unfolding webhook_list_deep_copy
  webhook_list_deep_copy_object x m = as_object a_webhook_list (webhook_list_deep_copy x m)

  -- The methods by the type of the receiver.
  unfoldable pub into : (k : RuntimeType) → CopyInto t (Of t k)
  into a_auth_policy = auth_policy_into p
  into a_client = client_into p
  into a_group = group_into p
  into a_identity_provider = identity_provider_into p
  into a_org = org_into p
  into a_role = role_into p
  into a_webhook = webhook_into p
  into a_auth_policy_list = auth_policy_list_into
  into a_client_list = client_list_into
  into a_group_list = group_list_into
  into a_identity_provider_list = identity_provider_list_into
  into a_org_list = org_list_into
  into a_role_list = role_list_into
  into a_webhook_list = webhook_list_into

  unfoldable pub deep_copy_object : (k : RuntimeType) → CopyObject t k
  deep_copy_object a_auth_policy = auth_policy_deep_copy_object p
  deep_copy_object a_client = client_deep_copy_object p
  deep_copy_object a_group = group_deep_copy_object p
  deep_copy_object a_identity_provider = identity_provider_deep_copy_object p
  deep_copy_object a_org = org_deep_copy_object p
  deep_copy_object a_role = role_deep_copy_object p
  deep_copy_object a_webhook = webhook_deep_copy_object p
  deep_copy_object a_auth_policy_list = auth_policy_list_deep_copy_object
  deep_copy_object a_client_list = client_list_deep_copy_object
  deep_copy_object a_group_list = group_list_deep_copy_object
  deep_copy_object a_identity_provider_list = identity_provider_list_deep_copy_object
  deep_copy_object a_org_list = org_list_deep_copy_object
  deep_copy_object a_role_list = role_list_deep_copy_object
  deep_copy_object a_webhook_list = webhook_list_deep_copy_object
