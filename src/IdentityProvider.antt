-- ===== src/IdentityProvider.antt =====
-- internal/controller/clavexidentityprovider_controller.go, with the spec of
-- api/v1alpha1/clavexidentityprovider_types.go.
pub mod Laws
pub mod Drifts
use clavex_operator.Prelude.{
  String, Bool, true, false, List, [], ◌∷◌, Option, none, some, ◌&&◌, not, ◌||◌, ◌==◌, length,
  bool_eq, str_eq, if◌then◌else◌,
}
use clavex_operator.Api.{Answer, ok, fail, Error, wrapped, SecretRef, NamespacedName, Resource}
use clavex_operator.AuthSecret.{
  Secret, entry, put_entry, and_then, default_client_secret_key, resolve_secret_value,
}
use clavex_operator.Reconcile.{Kind, Synced, reconcile}
use clavex_operator.Reconcile.Flow.{Step, pure, failed}
use clavex_operator.Reconcile.Calls.{Cluster, State, Session, Marker, with_managed}
use clavex_operator.Named.{Directory, find_by_name, delete_by_name}
use clavex_operator.Drift.{unchanged, or_return, correct, create_missing}

-- A `map[string]string`, `none` where it is nil.
abbrev pub StringMap : Type 0
StringMap = Option (List (String × String))

pub record IdentityProviderSpec : Type 0 where
  pub org_ref : String
  pub auth_secret_ref : SecretRef
  pub name : String
  pub provider_type : String
  pub enabled : Bool
  pub client_id : String
  pub client_secret_ref : Option SecretRef
  pub config : StringMap
  pub allow_jit : Bool
  pub roles_claim : String
  pub role_claim_mappings : StringMap

-- `clavex.IdentityProvider`, by the fields that the program reads.
pub record IdentityProvider : Type 0 where
  pub id : String
  pub name : String
  pub provider_type : String
  pub is_active : Bool
  pub allow_jit : Bool
  pub client_id : String
  pub roles_claim : Option String
  pub role_claim_mappings : StringMap

pub record CreateIdpParams : Type 0 where
  pub name : String
  pub type : String
  pub enabled : Bool
  pub config : List (String × String)
  pub allow_jit : Bool
  pub roles_claim : String
  pub role_claim_mappings : StringMap

pub record IdentityProviderService (W : Type 0) : Type 0 where
  pub providers : Directory W IdentityProvider
  pub create : Session → Marker → String → CreateIdpParams → W → Answer IdentityProvider × W
  pub update :
      Session → Marker → String → String → CreateIdpParams → W → Answer IdentityProvider × W

-- `findIDPByName`
abbrev pub find_idp_by_name :
    {W : Type 0}
    → IdentityProviderService W
    → Session
    → String
    → String
    → W
    → Answer (Option IdentityProvider) × W
find_idp_by_name sdk = find_by_name sdk.providers "identity providers"

abbrev pub clavex_idp_finalizer : String
clavex_idp_finalizer = "clavex.eu/clavexidentityprovider-finalizer"

-- `config := maps.Clone(…); if config == nil { config = map[string]string{} }`
abbrev pub cloned : StringMap → List (String × String)
cloned none = []
cloned (some m) = m

-- The map with the client's id, where the spec gives one.
abbrev pub with_client_id : IdentityProviderSpec → List (String × String)
with_client_id spec =
    if str_eq spec.client_id ""
    then cloned spec.config
    else put_entry "client_id" spec.client_id (cloned spec.config)

abbrev pub idp_params : IdentityProviderSpec → List (String × String) → CreateIdpParams
idp_params spec config = record {
  name = spec.name;
  type = spec.provider_type;
  enabled = spec.enabled;
  config = config;
  allow_jit = spec.allow_jit;
  roles_claim = spec.roles_claim;
  role_claim_mappings = spec.role_claim_mappings;
}

module _ {W : Type 0} (get_secret : NamespacedName → W → Answer Secret × W) where
  -- `config["client_secret"] = secretValue`, for the reference given.
  unfoldable pub with_client_secret :
      Resource IdentityProviderSpec → Option SecretRef → W → Answer (List (String × String)) × W
  unfolding put_entry
  with_client_secret cr none w = (ok (with_client_id cr.spec), w)
  with_client_secret cr (some ref) w =
      let (answer, w') =
        resolve_secret_value get_secret (some ref) cr.meta.namespace default_client_secret_key w in
      (
        and_then (wrapped "resolving clientSecretRef")
            (λ secret. ok (put_entry "client_secret" secret (with_client_id cr.spec))) answer,
        w',
      )

  -- `buildIDPParams`
  unfoldable pub build_idp_params : Resource IdentityProviderSpec → W → Answer CreateIdpParams × W
  unfolding with_client_secret
  build_idp_params cr w =
      let (answer, w') = with_client_secret cr cr.spec.client_secret_ref w in
      (and_then (λ e. e) (λ config. ok (idp_params cr.spec config)) answer, w')

-- `reflect.DeepEqual` on maps: both nil or neither, as many keys, and each key's value the same.
unfoldable pub entries_in : List (String × String) → List (String × String) → Bool
unfolding entry
entries_in [] b = true
entries_in ((k, v) ∷ a) b =
    (elim (entry k b) [ none ↦ false | some w ↦ str_eq v w ]) && entries_in a b

unfoldable pub same_map : StringMap → StringMap → Bool
unfolding entries_in
same_map none none = true
same_map none (some b) = false
same_map (some a) none = false
same_map (some a) (some b) = length a == length b && entries_in a b

-- `live.RolesClaim == nil || *live.RolesClaim != cr.Spec.RolesClaim`, negated.
abbrev pub has_claim : Option String → String → Bool
has_claim none claim = false
has_claim (some c) claim = str_eq c claim

-- `idpUpToDate`
unfoldable pub idp_up_to_date : IdentityProvider → Resource IdentityProviderSpec → Bool
unfolding same_map
idp_up_to_date live cr =
    if not (str_eq live.name cr.spec.name)
      || not (str_eq live.provider_type cr.spec.provider_type)
      || not (bool_eq live.is_active cr.spec.enabled)
      || not (bool_eq live.allow_jit cr.spec.allow_jit)
      || not (str_eq live.client_id cr.spec.client_id)
    then false
    else if not (str_eq cr.spec.roles_claim "")
        && not (has_claim live.roles_claim cr.spec.roles_claim)
    then false
    else same_map live.role_claim_mappings cr.spec.role_claim_mappings

abbrev pub idp_synced : IdentityProvider → Synced
idp_synced idp = unchanged idp.id

module _ {W : Type 0} (c : Cluster W IdentityProviderSpec) (recorder : Bool) where
  module _ (sdk : IdentityProviderService W) where
    unfoldable pub converge_idp :
        Session
        → String
        → Resource IdentityProviderSpec
        → CreateIdpParams
        → Option IdentityProvider
        → Step (State W IdentityProviderSpec) (Answer Synced)
    converge_idp session org_id cr params none =
        create_missing "identity provider" cr.spec.name idp_synced
          (sdk.create session (with_managed "ClavexIdentityProvider" cr.meta) org_id params)
    converge_idp session org_id cr params (some live) =
        correct recorder "identity provider" live.id cr (idp_up_to_date live cr)
          (sdk.update session (with_managed "ClavexIdentityProvider" cr.meta) org_id live.id params)

    -- `reconcileIDP`
    unfoldable pub reconcile_idp :
        Session
        → String
        → Resource IdentityProviderSpec
        → Step (State W IdentityProviderSpec) (Answer Synced)
    unfolding converge_idp
    reconcile_idp session org_id cr =
        or_return (find_idp_by_name sdk session org_id cr.spec.name) λ existing.
          or_return (build_idp_params c.get_secret cr)
            λ params. converge_idp session org_id cr params existing

    unfoldable pub idp_kind : Kind W IdentityProviderSpec
    unfolding reconcile_idp
    idp_kind = record {
      label = "ClavexIdentityProvider";
      finalizer = clavex_idp_finalizer;
      refetch_error = "re-fetching ClavexIdentityProvider after finalizer update";
      org_ref = λ spec. spec.org_ref;
      auth_secret_ref = λ spec. spec.auth_secret_ref;
      releases_without_secret = false;
      in_sync = "Identity provider is in sync with the Admin API";
      corrected =
          "Live identity provider had diverged from spec out-of-band; corrected to match spec";
      ready_shows_drift = false;
      delete_remote = λ session org_id cr.
          delete_by_name sdk.providers "identity providers" session org_id cr.spec.name;
      sync = reconcile_idp;
      after_sync = λ cr synced. pure tt;
      on_failure = failed;
    }

    -- `ClavexIdentityProviderReconciler.Reconcile`
    unfoldable pub reconcile_clavex_identity_provider :
        NamespacedName → Step (State W IdentityProviderSpec) ⊥
    unfolding idp_kind
    reconcile_clavex_identity_provider key = reconcile c idp_kind key
