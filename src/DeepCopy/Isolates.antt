-- ===== src/DeepCopy/Isolates.antt =====
-- DeepCopyObject, for every type and in every memory.
use clavex_operator.Prelude.{
  ℕ, Bool, true, false, List, none, some, ◌≡◌, refl, ◌∙◌, arith, if◌then◌else◌, ltb, length,
}
use clavex_operator.DeepCopy.Memory.{store, load-store}
use clavex_operator.DeepCopy.Into.{deep_copy}
use clavex_operator.DeepCopy.Layout.{Layout}
use clavex_operator.DeepCopy.Copies.{Copied, unmoved}
use clavex_operator.DeepCopy.Structs.{Types}
use clavex_operator.DeepCopy.Cells.{Cell}
use clavex_operator.DeepCopy.Methods.{Platform}
use clavex_operator.DeepCopy.Objects.{
  RuntimeType, Of, as_object, a_auth_policy, a_client, a_group, a_identity_provider, a_org, a_role,
  a_webhook, a_auth_policy_list, a_client_list, a_group_list, a_identity_provider_list, a_org_list,
  a_role_list, a_webhook_list, auth_policy_deep_copy, auth_policy_deep_copy_object,
  client_deep_copy, client_deep_copy_object, group_deep_copy, group_deep_copy_object,
  identity_provider_deep_copy, identity_provider_deep_copy_object, org_deep_copy,
  org_deep_copy_object, role_deep_copy, role_deep_copy_object, webhook_deep_copy,
  webhook_deep_copy_object,
}
use clavex_operator.DeepCopy.Lists.{
  into, deep_copy_object, auth_policy_list_deep_copy, auth_policy_list_deep_copy_object,
  client_list_deep_copy, client_list_deep_copy_object, group_list_deep_copy,
  group_list_deep_copy_object, identity_provider_list_deep_copy,
  identity_provider_list_deep_copy_object, org_list_deep_copy, org_list_deep_copy_object,
  role_list_deep_copy, role_list_deep_copy_object, webhook_list_deep_copy,
  webhook_list_deep_copy_object,
}
use clavex_operator.DeepCopy.Layouts.{PlatformLaws, layout}
use clavex_operator.DeepCopy.Laws.{into-Copies}

module _ {t : Types} (p : Platform t) where
  abbrev WithNil : RuntimeType → Type 0
  WithNil k =
      (x : Of t k) (m : List (Cell t))
      → (deep_copy_object p k none m ≡ (none, m))
        × (deep_copy_object p k (some x) m ≡ (some (k, (into p k x m).0), (into p k x m).1))

  -- The methods by type give what DeepCopyInto does, and nil for nil.
  deep_copy_object_runs : (k : RuntimeType) → WithNil k
  unfolding deep_copy_object into deep_copy as_object auth_policy_deep_copy_object
      auth_policy_list_deep_copy_object client_deep_copy_object client_list_deep_copy_object
      group_deep_copy_object group_list_deep_copy_object identity_provider_deep_copy_object
      identity_provider_list_deep_copy_object org_deep_copy_object org_list_deep_copy_object
      role_deep_copy_object role_list_deep_copy_object webhook_deep_copy_object
      webhook_list_deep_copy_object auth_policy_deep_copy auth_policy_list_deep_copy
      client_deep_copy client_list_deep_copy group_deep_copy group_list_deep_copy
      identity_provider_deep_copy identity_provider_list_deep_copy org_deep_copy org_list_deep_copy
      role_deep_copy role_list_deep_copy webhook_deep_copy webhook_list_deep_copy
  deep_copy_object_runs a_auth_policy x m = (refl, refl)
  deep_copy_object_runs a_client x m = (refl, refl)
  deep_copy_object_runs a_group x m = (refl, refl)
  deep_copy_object_runs a_identity_provider x m = (refl, refl)
  deep_copy_object_runs a_org x m = (refl, refl)
  deep_copy_object_runs a_role x m = (refl, refl)
  deep_copy_object_runs a_webhook x m = (refl, refl)
  deep_copy_object_runs a_auth_policy_list x m = (refl, refl)
  deep_copy_object_runs a_client_list x m = (refl, refl)
  deep_copy_object_runs a_group_list x m = (refl, refl)
  deep_copy_object_runs a_identity_provider_list x m = (refl, refl)
  deep_copy_object_runs a_org_list x m = (refl, refl)
  deep_copy_object_runs a_role_list x m = (refl, refl)
  deep_copy_object_runs a_webhook_list x m = (refl, refl)

module _ {C T : Type 0} (L : Layout C T) {x y : T} {m m' : List C} where
  old_kept : L.IsTyped m x → Copied L x m y m' → L.see m' x ≡ L.see m x
  old_kept t c = L.sees t (unmoved L m m' t c.keeps)

  written :
      (a : ℕ) (cell : C)
      → L.IsTyped m x
      → Copied L x m y m'
      → L.see (store a cell m') (if ltb a (length m) then y else x) ≡ L.see m x
  written a cell t c = by_test (ltb a (length m)) refl
    where
      by_test :
          (b : Bool)
          → ltb a (length m) ≡ b
          → L.see (store a cell m') (if b then y else x) ≡ L.see m x
      by_test true e =
          L.sees c.typed (λ b r. load-store b a cell m' (λ q. ground (arith, q, e, c.fresh b r)))
          ∙ c.same
      by_test false e = L.sees t (λ b r.
          load-store b a cell m' (λ q. ground (arith, q, e, L.within t r))
          ∙ c.keeps b (L.within t r))

-- Where the methods of the Kubernetes libraries make deep copies, for every type, DeepCopyObject of
-- a nil is nil. Of an object whose addresses are each of a cell of the field's type it is an object
-- of the same type that shows the same, while the one that was copied still shows the same too. The
-- two share no memory: whatever is written later to any address, one of them shows the same as
-- before, the copy where the address was in use before the call and the original where it was not.
pub deep_copy_object_isolates :
    {t : Types} {p : Platform t} (laws : PlatformLaws p) (k : RuntimeType) (x : Of t k)
    (m : List (Cell t)) (a : ℕ) (cell : Cell t)
    → (layout laws k).IsTyped m x
    → let y = (into p k x m).0 in
      let m' = (into p k x m).1 in
      let see = (layout laws k).see in
      (deep_copy_object p k none m ≡ (none, m))
      × (deep_copy_object p k (some x) m ≡ (some (k, y), m'))
      × (see m' y ≡ see m x)
      × (see m' x ≡ see m x)
      × (see (store a cell m') (if ltb a (length m) then y else x) ≡ see m x)
deep_copy_object_isolates {p = p} laws k x m a cell t =
    let L = layout laws k in
    let c = (into-Copies laws k).copied x m t in
    let (nil, runs) = deep_copy_object_runs p k x m in
    (nil, runs, c.same, old_kept L t c, written L a cell t c)
