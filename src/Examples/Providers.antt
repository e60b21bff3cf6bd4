-- ===== src/Examples/Providers.antt =====
-- Passes over a ClavexIdentityProvider, and what its test for differences misses.
use clavex_operator.Named.{find_by_name}
use clavex_operator.Reconcile.Calls.{State, Session}
use clavex_operator.IdentityProvider.{reconcile_idp}
use clavex_operator.Api.{Resource}
use clavex_operator.Prelude.{true, [], ◌∷◌, none, some, ◌≡◌, refl}
use clavex_operator.Api.{ok, Resource}
use clavex_operator.Reconcile.Flow.{state_of}
use clavex_operator.Reconcile.Calls.{start}
use clavex_operator.Reconcile.Lawful.{Lawful}
use clavex_operator.IdentityProvider.{
  IdentityProviderSpec, IdentityProvider, IdentityProviderService, idp_up_to_date, idp_kind,
  reconcile_clavex_identity_provider,
}
use clavex_operator.IdentityProvider.Laws.{IdpRemoved, reconcile_clavex_identity_provider-Lawful}
use clavex_operator.IdentityProvider.Drifts.{reconcile_idp_ignores_config}
use clavex_operator.Examples.World.{
  World, cluster, cluster-FinalizerLaws, directory, directory-DirectoryLaws,
}
use clavex_operator.Examples.Passes.{a_ref, key, fresh, holding}

abbrev an_idp_spec : IdentityProviderSpec
an_idp_spec = record {
  org_ref = "acme";
  auth_secret_ref = a_ref;
  name = "corp";
  provider_type = "oidc";
  enabled = true;
  client_id = "c1";
  client_secret_ref = none;
  config = some (("issuer", "https://idp.example") ∷ []);
  allow_jit = true;
  roles_claim = "";
  role_claim_mappings = none;
}

abbrev an_idp : IdentityProvider
an_idp = record {
  id = "i1";
  name = "corp";
  provider_type = "oidc";
  is_active = true;
  allow_jit = true;
  client_id = "c1";
  roles_claim = none;
  role_claim_mappings = some [];
}

abbrev idp_service : IdentityProviderService (World IdentityProviderSpec IdentityProvider)
idp_service = record {
  providers = directory IdentityProviderSpec (λ x. x.id) (λ x. x.name);
  create = λ session marker org p w. (ok an_idp, record w { live = some an_idp });
  update = λ session marker org id p w. (ok an_idp, record w { live = some an_idp });
}

abbrev idp_world : World IdentityProviderSpec IdentityProvider
idp_world =
    holding IdentityProviderSpec IdentityProvider (fresh IdentityProviderSpec an_idp_spec)
      (some an_idp)

identity_provider_example :
    Lawful
      (cluster IdentityProviderSpec IdentityProvider)
      (idp_kind (cluster IdentityProviderSpec IdentityProvider) true idp_service)
      (IdpRemoved
        (cluster IdentityProviderSpec IdentityProvider)
        true
        idp_service
        (directory-DirectoryLaws IdentityProviderSpec (λ x. x.id) (λ x. x.name)))
      (state_of (
        reconcile_clavex_identity_provider
          (cluster IdentityProviderSpec IdentityProvider)
          true
          idp_service
          key
          (start idp_world none))).log
identity_provider_example =
    reconcile_clavex_identity_provider-Lawful (cluster IdentityProviderSpec IdentityProvider) true
      idp_service (directory-DirectoryLaws IdentityProviderSpec (λ x. x.id) (λ x. x.name)) key
      idp_world none (cluster-FinalizerLaws IdentityProviderSpec IdentityProvider)

abbrev an_edit : Resource IdentityProviderSpec
an_edit =
    fresh IdentityProviderSpec
      (record an_idp_spec { config = some (("issuer", "https://other.example") ∷ []) })

abbrev matching : IdentityProvider
matching = record an_idp { role_claim_mappings = none }

abbrev begin : State (World IdentityProviderSpec IdentityProvider) IdentityProviderSpec
begin =
    start
      (holding IdentityProviderSpec IdentityProvider (fresh IdentityProviderSpec an_idp_spec)
        (some matching))
      none

abbrev a_session : Session
a_session = record { api_key = "k1" }

found_live :
    (find_by_name idp_service.providers "identity providers" a_session "acme-id" "corp"
      begin.world).0
    ≡ ok (some matching)
unfolding find_by_name
found_live = refl

matches : idp_up_to_date matching (fresh IdentityProviderSpec an_idp_spec) ≡ true
unfolding idp_up_to_date
matches = refl

config_example :
    (state_of (
      reconcile_idp
        (cluster IdentityProviderSpec IdentityProvider)
        true
        idp_service
        a_session
        "acme-id"
        an_edit
        begin)).log
    ≡ []
config_example =
    reconcile_idp_ignores_config (cluster IdentityProviderSpec IdentityProvider) true idp_service
      a_session "acme-id" (fresh IdentityProviderSpec an_idp_spec)
      (some (("issuer", "https://other.example") ∷ [])) begin matching found_live matches
