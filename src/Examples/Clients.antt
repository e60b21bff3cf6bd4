-- ===== src/Examples/Clients.antt =====
-- Passes over a ClavexClient and its secret, from states of the small world.
use mathlib.Core.List.Perm
use clavex_operator.Prelude.{true, false, [], ◌∷◌, Option, none, some, ◌≡◌, refl}
use clavex_operator.Api.{Answer, ok, fail, remote, Resource}
use clavex_operator.AuthSecret.{target}
use clavex_operator.Reconcile.{Synced}
use clavex_operator.Reconcile.Flow.{next, state_of}
use clavex_operator.Reconcile.Calls.{Cluster, State, Session, start, succeeded, ask, tell}
use clavex_operator.Reconcile.Lawful.{Lawful}
use clavex_operator.Drift.{unchanged, or_return, correct}
use clavex_operator.Client.{
  ClientSpec, OidcClient, ClientService, UpdateClientParams, client_up_to_date, reconcile_client,
  persist_secret, client_kind, reconcile_clavex_client,
}
use clavex_operator.Client.Laws.{ClientLaws, ClientAbsent, reconcile_clavex_client-Lawful}
use clavex_operator.Client.Settles.{ReadsBack, Shows, client_settles}
use clavex_operator.Client.Secrets.{Stored, held, persist_secret-Stored, reconcile_client_no_secret}
use clavex_operator.Examples.World.{World, cluster, cluster-FinalizerLaws, given}
use clavex_operator.Examples.Passes.{a_ref, key, fresh, leaving, holding}

abbrev pub W : Type 0
W = World ClientSpec OidcClient

abbrev pub k8s : Cluster W ClientSpec
k8s = cluster ClientSpec OidcClient

abbrev pub a_spec : ClientSpec
a_spec = record {
  org_ref = "acme";
  auth_secret_ref = a_ref;
  client_id = "shop";
  name = "Shop";
  redirect_uris = "https://a" ∷ "https://b" ∷ [];
  post_logout_redirect_uris = [];
  grant_types = "authorization_code" ∷ [];
  response_types = "code" ∷ [];
  scopes = [];
  is_public = false;
  is_active = true;
  token_endpoint_auth_method = "";
  id_token_signed_response_alg = "";
  client_secret_ref = some a_ref;
}

abbrev pub a_client : OidcClient
a_client = record {
  name = "Old shop";
  redirect_uris = "https://b" ∷ "https://a" ∷ [];
  post_logout_redirect_uris = [];
  grant_types = "authorization_code" ∷ [];
  is_active = true;
  client_secret = none;
}

-- What the server keeps of an update.
abbrev pub changed : UpdateClientParams → OidcClient
changed p = record {
  name = p.name;
  redirect_uris = p.redirect_uris;
  post_logout_redirect_uris = p.post_logout_redirects;
  grant_types = p.grant_types;
  is_active = p.is_active;
  client_secret = none;
}

abbrev change : UpdateClientParams → W → Option OidcClient → Answer OidcClient × W
change p w none = (fail (remote true "no such client"), w)
change p w (some live) = (ok (changed p), record w { live = some (changed p) })

abbrev pub service : ClientService W
service = record {
  get = λ session org id w. (given w.live, w);
  create = λ session marker org p w. (ok a_client, record w { live = some a_client });
  update = λ session marker org id p w. change p w w.live;
  delete = λ session org id w. (ok tt, record w { live = none });
}

service-ClientLaws : ClientLaws service
service-ClientLaws = record {
  Missing = λ org id w. w.live ≡ none;
  delete_removes = λ session org id w h. refl;
}

service-ReadsBack : ReadsBack service
service-ReadsBack = record { get_after_update = λ session marker org id p w h. reads p w w.live h }
  where
    reads :
        (p : UpdateClientParams) (w : W) (o : Option OidcClient)
        → succeeded (change p w o).0 ≡ true
        → (live : OidcClient) × (given (change p w o).1.live ≡ ok live) × Shows live p
    reads p w none h = cc
    reads p w (some live) h = (
      changed p,
      refl,
      record {
        name = refl;
        redirect_uris = Perm.refl _;
        post_logout_redirects = Perm.refl _;
        grant_types = Perm.refl _;
        is_active = refl;
      },
    )

abbrev pub a_session : Session
a_session = record { api_key = "k1" }

abbrev pub cr : Resource ClientSpec
cr = fresh ClientSpec a_spec

abbrev here : W
here = holding ClientSpec OidcClient cr (some a_client)

abbrev pub begin : State W ClientSpec
begin = start here none

abbrev going : W
going =
    holding ClientSpec OidcClient (leaving ClientSpec "clavex.eu/clavexclient-finalizer" a_spec)
      (some a_client)

-- A client is deleted with its resource.
client_example :
    Lawful k8s
      (client_kind k8s true service)
      (ClientAbsent k8s true service service-ClientLaws)
      (state_of (reconcile_clavex_client k8s true service key (start going none))).log
client_example =
    reconcile_clavex_client-Lawful k8s true service service-ClientLaws key going none
      (cluster-FinalizerLaws ClientSpec OidcClient)

differs : client_up_to_date a_client cr ≡ false
unfolding client_up_to_date
differs = refl

settles_example :
    let s₁ = state_of (reconcile_client k8s true service a_session "acme-id" cr begin) in
    reconcile_client k8s true service a_session "acme-id" cr s₁
    ≡ next (ok (unchanged "shop")) (record s₁ { world = s₁.world })
settles_example =
    client_settles k8s true service a_session "acme-id" cr cr begin a_client service-ReadsBack refl
      refl differs refl

persists :
    persist_secret k8s true service cr (some a_ref) "s9" begin
    ≡ next tt (state_of (persist_secret k8s true service cr (some a_ref) "s9" begin))
unfolding persist_secret ask tell
persists = refl

stored_example :
    Stored k8s true service "clientSecret" "s9"
      (held (k8s.get_secret (target a_ref "team") here).0)
      begin
      (state_of (persist_secret k8s true service cr (some a_ref) "s9" begin))
stored_example = persist_secret-Stored k8s true service cr a_ref "s9" begin _ refl persists

abbrev pub after : State W ClientSpec
after = state_of (reconcile_client k8s true service a_session "acme-id" cr begin)

abbrev pub done : Synced
done = record { remote_id = "shop"; drifted = false; secret = "" }

pub passes : reconcile_client k8s true service a_session "acme-id" cr begin ≡ next (ok done) after
unfolding reconcile_client or_return ask correct client_up_to_date tell
passes = refl

no_secret_example : persist_secret k8s true service cr (some a_ref) "" after ≡ next tt after
no_secret_example =
    reconcile_client_no_secret k8s true service a_session "acme-id" cr begin after a_client done
      refl passes
