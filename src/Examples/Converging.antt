-- ===== src/Examples/Converging.antt =====
-- Passes over a client that is not there yet, in a world that serves it.
use mathlib.Core.List.Perm
use clavex_operator.Prelude.{true, Option, none, some, ◌≡◌, refl, ap, ◌∙◌, arith, ◌≤◌, inl}
use clavex_operator.Api.{Answer, ok, fail, remote, is_not_found}
use clavex_operator.Reconcile.{requeue_interval}
use clavex_operator.Reconcile.Flow.{outcome_of, requeue}
use clavex_operator.Reconcile.Calls.{Cluster, State, start, succeeded}
use clavex_operator.Reconcile.Environment.{Environment, sdk_writes}
use clavex_operator.Reconcile.Converges.{passes}
use clavex_operator.Client.{
  ClientSpec, OidcClient, ClientService, UpdateClientParams, client_kind, client_up_to_date,
  reconcile_clavex_client,
}
use clavex_operator.Client.Settles.{Shows}
use clavex_operator.Client.Serving.{Serving, Reads}
use clavex_operator.Client.Converges.{client_converges}
use clavex_operator.Examples.World.{given}
use clavex_operator.Examples.Calm.{Place, Has, credentials, session, calm_cluster, calm-Environment}
use clavex_operator.Examples.Passes.{key, fresh}
use clavex_operator.Examples.Clients.{a_spec, a_client, changed}

abbrev W : Type 0
W = Place ClientSpec OidcClient

abbrev k8s : Cluster W ClientSpec
k8s = calm_cluster ClientSpec OidcClient

abbrev change : UpdateClientParams → W → Option OidcClient → Answer OidcClient × W
change p w none = (fail (remote true "no such client"), w)
change p w (some live) = (ok (changed p), record w { live = some (changed p) })

abbrev service : ClientService W
service = record {
  get = λ session org id w. (given w.live, w);
  create = λ session marker org p w. (ok a_client, record w { live = some a_client });
  update = λ session marker org id p w. change p w w.live;
  delete = λ session org id w. (ok tt, record w { live = none });
}

calm :
    Environment k8s
      (client_kind k8s true service)
      (Has ClientSpec OidcClient a_spec)
      (λ w. w.stored)
      (λ w. w.live)
      key
      credentials
      session
unfolding client_kind
calm = calm-Environment ClientSpec OidcClient (client_kind k8s true service) a_spec (λ x. x) refl

reads : (x : Option OidcClient) → Reads x (given x)
unfolding is_not_found
reads none = (_, refl, refl)
reads (some x) = refl

writes :
    (p : UpdateClientParams) (w : W) (o : Option OidcClient) (x : OidcClient)
    → o ≡ some x
    → (succeeded (change p w o).0 ≡ true)
      × ((change p w o).1.stored ≡ w.stored)
      × ((y : OidcClient) × ((change p w o).1.live ≡ some y) × Shows y p)
writes p w none x e = cc
writes p w (some y) x e = (
  refl,
  refl,
  (
    changed p,
    refl,
    record {
      name = refl;
      redirect_uris = Perm.refl _;
      post_logout_redirects = Perm.refl _;
      grant_types = Perm.refl _;
      is_active = refl;
    },
  ),
)

served :
    Serving k8s true service
      (Has ClientSpec OidcClient a_spec)
      (λ w. w.stored)
      (λ w. w.live)
      session
      "acme-id"
      "shop"
served = record {
  gets_client = λ w i. (reads w.live, (i, refl, refl));
  creates_client = λ marker p w i e m. (refl, (i, refl, (_, refl, tt)));
  updates_client = λ marker p w x i m.
      let (took, kept, shown) = writes p w w.live x m in
      (took, (ap (λ cr. cr.spec) kept ∙ i, kept, shown));
  reads_secret = λ key w i. inl (_, refl);
  creates_secret = λ secret w i. (refl, (i, refl, refl));
  updates_secret = λ secret w i. (refl, (i, refl, refl));
}

abbrev begin : State W ClientSpec
begin = start (record { stored = fresh ClientSpec a_spec; live = none }) none

client_converges_example :
    let after = passes k8s (client_kind k8s true service) key in
    (outcome_of (reconcile_clavex_client k8s true service key (after 0 begin))
      ≡ requeue requeue_interval)
    × ((x : OidcClient) × ((after 2 begin).world.live ≡ some x)
        × (client_up_to_date x (fresh ClientSpec a_spec) ≡ true))
    × (sdk_writes (after 2 begin).log ≤ 2)
    × (sdk_writes (after 3 begin).log ≤ sdk_writes (after 2 begin).log)
unfolding sdk_writes
client_converges_example =
    client_converges k8s true service calm begin served refl refl 0 2 (omega arith)
