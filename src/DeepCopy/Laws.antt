-- ===== src/DeepCopy/Laws.antt =====
-- The DeepCopyInto methods make deep copies.
use clavex_operator.Prelude.{List, refl}
use clavex_operator.DeepCopy.Copies.{
  Copies, shown-Copies, both-Copies, along-Copies, each-Copies, pointer-Copies, strings-Copies,
  entries-Copies, assigned-Copies, at_keys, in_turn,
}
use clavex_operator.DeepCopy.Layout.{Layout, shown, both, pointer}
use clavex_operator.DeepCopy.Into.{assigned, copy_pointer, new_strings, new_entries}
use clavex_operator.DeepCopy.Memory.{Part}
use clavex_operator.DeepCopy.Structs.{Types}
use clavex_operator.DeepCopy.Cells.{Cell, strings, entries, flag, hours, secret_ref, policy, limits}
use clavex_operator.DeepCopy.Methods.{
  Platform, CopyInto, status_into, role_spec_into, auth_policy_conditions_into,
  auth_policy_spec_into, client_spec_into, group_spec_into, identity_provider_spec_into,
  org_spec_into, webhook_spec_into, auth_policy_status_into, client_status_into, group_status_into,
  identity_provider_status_into, org_status_into, role_status_into, webhook_status_into,
}
use clavex_operator.DeepCopy.Objects.{
  RuntimeType, object_into, list_into, a_auth_policy, a_client, a_group, a_identity_provider, a_org,
  a_role, a_webhook, a_auth_policy_list, a_client_list, a_group_list, a_identity_provider_list,
  a_org_list, a_role_list, a_webhook_list, auth_policy_into, client_into, group_into,
  identity_provider_into, org_into, role_into, webhook_into,
}
use clavex_operator.DeepCopy.Lists.{
  into, auth_policy_list_into, client_list_into, group_list_into, identity_provider_list_into,
  org_list_into, role_list_into, webhook_list_into,
}
use clavex_operator.DeepCopy.Layouts.{
  PlatformLaws, plain, status_fields, status_layout, object_fields, object_layout, list_fields,
  list_layout, layout, auth_policy_conditions_fields, auth_policy_spec_fields, client_spec_fields,
  group_spec_fields, identity_provider_spec_fields, org_spec_fields, webhook_spec_fields,
  auth_policy_conditions_layout, auth_policy_spec_layout, client_spec_layout, group_spec_layout,
  identity_provider_spec_layout, org_spec_layout, webhook_spec_layout,
}

module _ {t : Types} {U : Type 0} {M : Layout (Cell t) U} {g : CopyInto t U} where
  -- The fields before the others, by what they hold.
  strings_then :
      Copies M g
      → Copies
          (both (pointer strings plain) M)
          (in_turn (pointer strings plain) M (copy_pointer strings new_strings) g)
  strings_then h = both-Copies _ _ _ _ (pointer-Copies _ _ _ strings-Copies) h

  entries_then :
      Copies M g
      → Copies
          (both (pointer entries (shown at_keys)) M)
          (in_turn (pointer entries (shown at_keys)) M (copy_pointer entries new_entries) g)
  entries_then h = both-Copies _ _ _ _ (pointer-Copies _ _ _ entries-Copies) h

  assigned_then :
      {A : Type 0} (part : Part (Cell t) A)
      → Copies M g
      → Copies
          (both (pointer part plain) M)
          (in_turn (pointer part plain) M (copy_pointer part assigned) g)
  assigned_then part h = both-Copies _ _ _ _ (pointer-Copies _ _ _ assigned-Copies) h

module _ {t : Types} where
  auth_policy_conditions-Copies :
      Copies {C = Cell t} auth_policy_conditions_layout auth_policy_conditions_into
  unfolding auth_policy_conditions_into auth_policy_conditions_layout
  auth_policy_conditions-Copies =
      along-Copies auth_policy_conditions_fields _ _ _ (λ x m. (refl, refl))
        (strings_then (
          strings_then (
            strings_then (
              strings_then (
                assigned_then flag
                  (assigned_then flag (strings_then (assigned_then hours assigned-Copies))))))))

  auth_policy_spec-Copies : Copies {C = Cell t} auth_policy_spec_layout auth_policy_spec_into
  unfolding auth_policy_spec_into auth_policy_spec_layout
  auth_policy_spec-Copies =
      along-Copies auth_policy_spec_fields _ _ _ (λ x m. (refl, refl))
        (both-Copies _ _ _ _ auth_policy_conditions-Copies assigned-Copies)

  client_spec-Copies : Copies {C = Cell t} client_spec_layout client_spec_into
  unfolding client_spec_into client_spec_layout
  client_spec-Copies =
      along-Copies client_spec_fields _ _ _ (λ x m. (refl, refl))
        (strings_then (
          strings_then (
            strings_then (strings_then (strings_then (assigned_then secret_ref assigned-Copies))))))

  group_spec-Copies : Copies {C = Cell t} group_spec_layout group_spec_into
  unfolding group_spec_into group_spec_layout
  group_spec-Copies =
      along-Copies group_spec_fields _ _ _ (λ x m. (refl, refl)) (strings_then assigned-Copies)

  identity_provider_spec-Copies :
      Copies {C = Cell t} identity_provider_spec_layout identity_provider_spec_into
  unfolding identity_provider_spec_into identity_provider_spec_layout
  identity_provider_spec-Copies =
      along-Copies identity_provider_spec_fields _ _ _ (λ x m. (refl, refl))
        (assigned_then secret_ref (entries_then (entries_then assigned-Copies)))

  org_spec-Copies : Copies {C = Cell t} org_spec_layout org_spec_into
  unfolding org_spec_into org_spec_layout
  org_spec-Copies =
      along-Copies org_spec_fields _ _ _ (λ x m. (refl, refl))
        (assigned_then policy (assigned_then limits assigned-Copies))

  webhook_spec-Copies : Copies {C = Cell t} webhook_spec_layout webhook_spec_into
  unfolding webhook_spec_into webhook_spec_layout
  webhook_spec-Copies =
      along-Copies webhook_spec_fields _ _ _ (λ x m. (refl, refl))
        (strings_then (assigned_then secret_ref assigned-Copies))

module _ {t : Types} {p : Platform t} (laws : PlatformLaws p) where
  status-Copies : Copies (status_layout laws) (status_into p)
  unfolding status_into status_layout
  status-Copies =
      along-Copies status_fields _ _ _ (λ x m. (refl, refl))
        (both-Copies _ _ _ _ (pointer-Copies _ _ _ (each-Copies _ _ laws.condition_copies)) (
          both-Copies _ _ _ _ (pointer-Copies _ _ _ (shown-Copies _ _ laws.same_time))
            assigned-Copies))

  object-Copies :
      {Spec : Type 0} (spec : Layout (Cell t) Spec) (spec_into : CopyInto t Spec)
      → Copies spec spec_into
      → Copies (object_layout laws spec) (object_into p spec_into (status_into p))
  unfolding object_into object_layout
  object-Copies spec spec_into h =
      along-Copies object_fields _ _ _ (λ x m. (refl, refl))
        (both-Copies _ _ _ _ laws.object_meta_copies
          (both-Copies _ _ _ _ h (both-Copies _ _ _ _ status-Copies assigned-Copies)))

  list-Copies :
      {T : Type 0} (part : Part (Cell t) (List T)) (item : Layout (Cell t) T)
      (item_into : CopyInto t T)
      → Copies item item_into
      → Copies (list_layout laws part item) (list_into p part item_into)
  unfolding list_into list_layout
  list-Copies part item item_into h =
      along-Copies list_fields _ _ _ (λ x m. (refl, refl))
        (both-Copies _ _ _ _ laws.list_meta_copies
          (both-Copies _ _ _ _ (pointer-Copies _ _ _ (each-Copies _ _ h)) assigned-Copies))

  auth_policy-Copies : Copies (layout laws a_auth_policy) (auth_policy_into p)
  unfolding auth_policy_into auth_policy_status_into layout
  auth_policy-Copies = object-Copies _ _ auth_policy_spec-Copies

  client-Copies : Copies (layout laws a_client) (client_into p)
  unfolding client_into client_status_into layout
  client-Copies = object-Copies _ _ client_spec-Copies

  group-Copies : Copies (layout laws a_group) (group_into p)
  unfolding group_into group_status_into layout
  group-Copies = object-Copies _ _ group_spec-Copies

  identity_provider-Copies : Copies (layout laws a_identity_provider) (identity_provider_into p)
  unfolding identity_provider_into identity_provider_status_into layout
  identity_provider-Copies = object-Copies _ _ identity_provider_spec-Copies

  org-Copies : Copies (layout laws a_org) (org_into p)
  unfolding org_into org_status_into layout
  org-Copies = object-Copies _ _ org_spec-Copies

  role-Copies : Copies (layout laws a_role) (role_into p)
  unfolding role_into role_status_into layout role_spec_into
  role-Copies = object-Copies _ _ assigned-Copies

  webhook-Copies : Copies (layout laws a_webhook) (webhook_into p)
  unfolding webhook_into webhook_status_into layout
  webhook-Copies = object-Copies _ _ webhook_spec-Copies

  pub into-Copies : (k : RuntimeType) → Copies (layout laws k) (into p k)
  unfolding into layout auth_policy_list_into client_list_into group_list_into
      identity_provider_list_into org_list_into role_list_into webhook_list_into
  into-Copies a_auth_policy = auth_policy-Copies
  into-Copies a_client = client-Copies
  into-Copies a_group = group-Copies
  into-Copies a_identity_provider = identity_provider-Copies
  into-Copies a_org = org-Copies
  into-Copies a_role = role-Copies
  into-Copies a_webhook = webhook-Copies
  into-Copies a_auth_policy_list = list-Copies _ _ _ auth_policy-Copies
  into-Copies a_client_list = list-Copies _ _ _ client-Copies
  into-Copies a_group_list = list-Copies _ _ _ group-Copies
  into-Copies a_identity_provider_list = list-Copies _ _ _ identity_provider-Copies
  into-Copies a_org_list = list-Copies _ _ _ org-Copies
  into-Copies a_role_list = list-Copies _ _ _ role-Copies
  into-Copies a_webhook_list = list-Copies _ _ _ webhook-Copies
