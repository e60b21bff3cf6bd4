-- ===== src/Examples/Steady.antt =====
-- A pass over a client that is as it should be.
use clavex_operator.Prelude.{true, [], ◌∷◌, some, ◌≡◌, refl}
use clavex_operator.Api.{Resource}
use clavex_operator.AuthSecret.{
  Credentials, resolve_auth_secret, read_credentials, required_entry, entry,
}
use clavex_operator.Reconcile.Calls.{State, start, on_stream}
use clavex_operator.Reconcile.{connect_stream}
use clavex_operator.Reconcile.Report.{SuccessReport}
use clavex_operator.Reconcile.Steady.{IsInPlace}
use clavex_operator.Stream.Pool.{Pool}
use clavex_operator.Compare.{equal_string_sets}
use clavex_operator.Drift.{unchanged}
use clavex_operator.Client.{
  ClientSpec, OidcClient, client_kind, client_up_to_date, reconcile_clavex_client,
}
use clavex_operator.Client.Steady.{looked_at, reconcile_clavex_client-SuccessReport}
use clavex_operator.Examples.World.{contains}
use clavex_operator.Examples.Passes.{key, fresh, holding}
use clavex_operator.Examples.Clients.{W, k8s, service, a_spec, a_client, a_session}

abbrev cr : Resource ClientSpec
cr =
    let new = fresh ClientSpec a_spec in
    record new { meta = record new.meta { finalizers = "clavex.eu/clavexclient-finalizer" ∷ [] } }

abbrev live : OidcClient
live = record a_client { name = "Shop" }

abbrev idle : Pool
idle = record { running = true; conns = [] }

abbrev begin : State W ClientSpec
begin = start (holding ClientSpec OidcClient cr (some live)) (some idle)

abbrev credentials : Credentials
credentials = record { api_key = "k1"; org_id = "acme-id" }

in_place : IsInPlace k8s (client_kind k8s true service) key begin cr credentials a_session
unfolding resolve_auth_secret read_credentials required_entry entry connect_stream on_stream
    client_kind contains
in_place = record { gets = refl; resolves = refl; builds = refl; stays = refl; holds = refl }

same : client_up_to_date live cr ≡ true
unfolding client_up_to_date equal_string_sets
same = refl

steady_example :
    SuccessReport k8s
      (client_kind k8s true service)
      cr
      (unchanged "shop")
      (looked_at k8s true service key begin cr credentials a_session)
      (reconcile_clavex_client k8s true service key begin)
unfolding connect_stream on_stream resolve_auth_secret
steady_example =
    reconcile_clavex_client-SuccessReport k8s true service key begin cr credentials a_session live
      in_place refl same
