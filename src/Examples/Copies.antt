-- ===== src/Examples/Copies.antt =====
-- A copy of a list of one ClavexClient, in a memory of four cells.
use clavex_operator.Prelude.{
  ℕ, String, true, List, [], ◌∷◌, Option, none, some, ◌≡◌, refl, ltb, length, if◌then◌else◌,
}
use clavex_operator.DeepCopy.Memory.{load, store, load_as}
use clavex_operator.DeepCopy.Into.{assigned, copy_pointer}
use clavex_operator.DeepCopy.Layout.{shown, both, along, each, pointer}
use clavex_operator.DeepCopy.Copies.{pointer-Copies, assigned-Copies}
use clavex_operator.DeepCopy.Structs.{Types, ClavexClient, ObjectList}
use clavex_operator.DeepCopy.Cells.{
  Cell, string_slice, a_foreign, a_secret_ref, client_slice, foreign,
}
use clavex_operator.DeepCopy.Methods.{Platform}
use clavex_operator.DeepCopy.Objects.{a_client_list}
use clavex_operator.DeepCopy.Lists.{into, deep_copy_object}
use clavex_operator.DeepCopy.Layouts.{
  PlatformLaws, plain, client_spec_layout, status_layout, object_layout, list_layout, layout,
}
use clavex_operator.DeepCopy.Isolates.{deep_copy_object_isolates}
use clavex_operator.Examples.Passes.{a_ref}

-- The metadata of an object is its labels.
abbrev types : Types
types = record {
  TypeMeta = String;
  ObjectMeta = Option ℕ;
  ListMeta = String;
  Condition = String;
  Time = ℕ;
  Foreign = List String;
}

abbrev platform : Platform types
platform = record {
  object_meta_into = copy_pointer foreign assigned;
  list_meta_into = assigned;
  condition_into = assigned;
  time_deep_copy = λ v. v;
}

platform-PlatformLaws : PlatformLaws platform
platform-PlatformLaws = record {
  object_meta = pointer foreign plain;
  list_meta = plain;
  condition = plain;
  object_meta_copies = pointer-Copies _ _ _ assigned-Copies;
  list_meta_copies = assigned-Copies;
  condition_copies = assigned-Copies;
  same_time = λ v. refl;
}

abbrev shop : ClavexClient types
shop = record {
  type_meta = "ClavexClient";
  object_meta = some 0;
  spec = record {
    org_ref = "acme";
    auth_secret_ref = a_ref;
    client_id = "shop";
    name = "Shop";
    redirect_uris = some 1;
    post_logout_redirect_uris = none;
    grant_types = some 1;
    response_types = none;
    scopes = none;
    is_public = true;
    is_active = true;
    token_endpoint_auth_method = "";
    id_token_signed_response_alg = "";
    client_secret_ref = some 2;
  };
  status = record {
    conditions = none;
    observed_generation = 1;
    remote_id = "";
    last_synced_at = none;
  };
}

abbrev memory : List (Cell types)
memory =
    client_slice (shop ∷ [])
    ∷ a_secret_ref a_ref
    ∷ string_slice ("https://a" ∷ [])
    ∷ a_foreign ("team" ∷ [])
    ∷ []

abbrev shops : ObjectList types
shops = record { type_meta = "ClavexClientList"; list_meta = "12"; items = some 3 }

shops-IsTyped : (layout platform-PlatformLaws a_client_list).IsTyped memory shops
unfolding layout list_layout object_layout client_spec_layout status_layout both along each pointer
    shown load_as load platform-PlatformLaws
shops-IsTyped = (tt, ((_, refl, ((labels, (spec, ((tt, (tt, tt)), tt))), tt)), tt))
  where
    labels : (pointer foreign (plain {T = List String})).IsTyped memory (some 0)
    labels = (_, refl, tt)

    spec : client_spec_layout.IsTyped memory shop.spec
    spec = ((_, refl, tt), (tt, ((_, refl, tt), (tt, (tt, ((_, refl, tt), tt))))))

isolates_example :
    let y = (into platform a_client_list shops memory).0 in
    let m = (into platform a_client_list shops memory).1 in
    let see = (layout platform-PlatformLaws a_client_list).see in
    (deep_copy_object platform a_client_list none memory ≡ (none, memory))
    × (deep_copy_object platform a_client_list (some shops) memory ≡ (some (a_client_list, y), m))
    × (see m y ≡ see memory shops)
    × (see m shops ≡ see memory shops)
    × (see (store 1 (string_slice []) m) (if ltb 1 (length memory) then y else shops)
        ≡ see memory shops)
isolates_example =
    deep_copy_object_isolates platform-PlatformLaws a_client_list shops memory 1 (string_slice [])
      shops-IsTyped
