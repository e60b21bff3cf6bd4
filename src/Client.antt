-- ===== src/Client.antt =====
-- internal/controller/clavexclient_controller.go, with the spec of
-- api/v1alpha1/clavexclient_types.go. A client has an id of the user's own, and its secret comes
-- once, from the call that creates it.
pub mod Laws
pub mod Settles
pub mod Steady
pub mod Serving
pub mod Sync
pub mod Converges
pub mod Secrets
pub mod Admission
use clavex_operator.Prelude.{
  String, Bool, true, false, List, [], ◌∷◌, Option, none, some, ◌<>◌, ◌&&◌, not, bool_eq, str_eq,
  if◌then◌else◌,
}
use clavex_operator.Api.{
  Answer, ok, fail, Error, wrapped, is_not_found, SecretRef, NamespacedName, Resource, or_default,
}
use clavex_operator.Compare.{equal_string_sets}
use clavex_operator.AuthSecret.{
  Secret, put_entry, target, shown, default_client_secret_key, validate_auth_secret_ref,
}
use clavex_operator.Reconcile.{Kind, Synced, reconcile}
use clavex_operator.Reconcile.Flow.{Step, pure, leave, failed, ◌>>=◌}
use clavex_operator.Reconcile.Calls.{
  Cluster, State, Session, Marker, with_managed, put_secret, sdk_write, deletes, ask, tell, confirm,
}
use clavex_operator.Drift.{or_return, correct, create_missing}

pub record ClientSpec : Type 0 where
  pub org_ref : String
  pub auth_secret_ref : SecretRef
  pub client_id : String
  pub name : String
  pub redirect_uris : List String
  pub post_logout_redirect_uris : List String
  pub grant_types : List String
  pub response_types : List String
  pub scopes : List String
  pub is_public : Bool
  pub is_active : Bool
  pub token_endpoint_auth_method : String
  pub id_token_signed_response_alg : String
  pub client_secret_ref : Option SecretRef

-- `clavex.OIDCClient`, by the fields that the program reads.
pub record OidcClient : Type 0 where
  pub name : String
  pub redirect_uris : List String
  pub post_logout_redirect_uris : List String
  pub grant_types : List String
  pub is_active : Bool
  pub client_secret : Option String

pub record CreateClientParams : Type 0 where
  pub name : String
  pub client_id : String
  pub redirect_uris : List String
  pub post_logout_redirects : List String
  pub grant_types : List String
  pub response_types : List String
  pub is_public : Bool
  pub is_active : Bool

pub record UpdateClientParams : Type 0 where
  pub name : String
  pub redirect_uris : List String
  pub post_logout_redirects : List String
  pub grant_types : List String
  pub response_types : List String
  pub is_active : Bool

pub record ClientService (W : Type 0) : Type 0 where
  pub get : Session → String → String → W → Answer OidcClient × W
  pub create : Session → Marker → String → CreateClientParams → W → Answer OidcClient × W
  pub update : Session → Marker → String → String → UpdateClientParams → W → Answer OidcClient × W
  pub delete : Session → String → String → W → Answer (Unit {0}) × W

abbrev pub clavex_client_finalizer : String
clavex_client_finalizer = "clavex.eu/clavexclient-finalizer"

abbrev pub client_synced : String → OidcClient → Synced
client_synced id client = record {
  remote_id = id;
  drifted = false;
  secret = (elim client.client_secret [ none ↦ "" | some secret ↦ secret ]);
}

-- The parameters of `Clients.Create` and `Clients.Update`.
abbrev pub create_params : ClientSpec → CreateClientParams
create_params spec = record {
  name = spec.name;
  client_id = spec.client_id;
  redirect_uris = spec.redirect_uris;
  post_logout_redirects = spec.post_logout_redirect_uris;
  grant_types = spec.grant_types;
  response_types = spec.response_types;
  is_public = spec.is_public;
  is_active = spec.is_active;
}

abbrev pub update_params : ClientSpec → UpdateClientParams
update_params spec = record {
  name = spec.name;
  redirect_uris = spec.redirect_uris;
  post_logout_redirects = spec.post_logout_redirect_uris;
  grant_types = spec.grant_types;
  response_types = spec.response_types;
  is_active = spec.is_active;
}

-- `clientUpToDate`
unfoldable pub client_up_to_date : OidcClient → Resource ClientSpec → Bool
client_up_to_date live cr =
    str_eq live.name cr.spec.name
    && equal_string_sets live.redirect_uris cr.spec.redirect_uris
    && equal_string_sets live.post_logout_redirect_uris cr.spec.post_logout_redirect_uris
    && equal_string_sets live.grant_types cr.spec.grant_types
    && bool_eq live.is_active cr.spec.is_active

-- The first lines of `reconcileClient`: the answer of `Clients.Get`, not found as nil.
unfoldable pub existing_client : Answer OidcClient → Answer (Option OidcClient)
existing_client (ok live) = ok (some live)
existing_client (fail e) =
    if is_not_found e then ok none else fail (wrapped "fetching existing client" e)

module _ {W : Type 0} (c : Cluster W ClientSpec) (recorder : Bool) (sdk : ClientService W) where
  unfoldable pub get_client : Session → String → String → W → Answer (Option OidcClient) × W
  unfolding existing_client
  get_client session org_id id w =
      let (answer, w') = sdk.get session org_id id w in (existing_client answer, w')

  unfoldable pub converge_client :
      Session
      → String
      → Resource ClientSpec
      → Option OidcClient
      → Step (State W ClientSpec) (Answer Synced)
  converge_client session org_id cr none =
      create_missing "client" cr.spec.client_id (client_synced cr.spec.client_id)
        (sdk.create session (with_managed "ClavexClient" cr.meta) org_id (create_params cr.spec))
  converge_client session org_id cr (some live) =
      correct recorder "client" cr.spec.client_id cr (client_up_to_date live cr) (
        sdk.update session (with_managed "ClavexClient" cr.meta) org_id cr.spec.client_id
          (update_params cr.spec))

  -- `reconcileClient`
  unfoldable pub reconcile_client :
      Session → String → Resource ClientSpec → Step (State W ClientSpec) (Answer Synced)
  unfolding get_client converge_client
  reconcile_client session org_id cr =
      or_return (get_client session org_id cr.spec.client_id) (converge_client session org_id cr)

  -- The end of `writeClientSecret`, by what its `Get` answered.
  unfoldable pub store_secret :
      NamespacedName
      → String
      → String
      → Answer Secret
      → Step (State W ClientSpec) (Answer (Unit {0}))
  store_secret key key_name value (ok secret) =
      let secret' = record secret { contents = put_entry key_name value secret.contents } in
      tell (put_secret secret') (c.update_secret secret')
  store_secret key key_name value (fail e) =
      let secret : Secret = record { key = key; contents = (key_name, value) ∷ [] } in
      if is_not_found e
      then tell (put_secret secret) (c.create_secret secret)
      else pure (fail (wrapped ("fetching clientSecretRef " <> shown key) e))

  -- `writeClientSecret`
  unfoldable pub write_client_secret :
      Resource ClientSpec → SecretRef → String → Step (State W ClientSpec) (Answer (Unit {0}))
  unfolding store_secret
  write_client_secret cr ref value = do
    let key = target ref cr.meta.namespace
    answer ← ask (c.get_secret key)
    store_secret key (or_default ref.key default_client_secret_key) value answer

  -- `if secret != "" && cr.Spec.ClientSecretRef != nil { … }` in `Reconcile`.
  unfoldable pub persist_secret :
      Resource ClientSpec → Option SecretRef → String → Step (State W ClientSpec) (Unit {0})
  unfolding write_client_secret
  persist_secret cr none value = pure tt
  persist_secret cr (some ref) value = if str_eq value "" then pure tt else do
    answer ← write_client_secret cr ref value
    elim answer [ ok done ↦ pure tt | fail e ↦ leave (failed e) ]

  unfoldable pub delete_client :
      Session → String → Resource ClientSpec → Step (State W ClientSpec) (Unit {0})
  delete_client session org_id cr = do
    answer ←
        tell (sdk_write (deletes cr.spec.client_id)) (sdk.delete session org_id cr.spec.client_id)
    confirm answer

  unfoldable pub client_kind : Kind W ClientSpec
  unfolding reconcile_client persist_secret delete_client
  client_kind = record {
    label = "ClavexClient";
    finalizer = clavex_client_finalizer;
    refetch_error = "re-fetching ClavexClient after finalizer update";
    org_ref = λ spec. spec.org_ref;
    auth_secret_ref = λ spec. spec.auth_secret_ref;
    releases_without_secret = false;
    in_sync = "Client is in sync with the Admin API";
    corrected = "Live client had diverged from spec out-of-band; corrected to match spec";
    ready_shows_drift = false;
    delete_remote = delete_client;
    sync = reconcile_client;
    after_sync = λ cr synced. persist_secret cr cr.spec.client_secret_ref synced.secret;
    on_failure = failed;
  }

  -- `ClavexClientReconciler.Reconcile`
  unfoldable pub reconcile_clavex_client : NamespacedName → Step (State W ClientSpec) ⊥
  unfolding client_kind
  reconcile_clavex_client key = reconcile c client_kind key
