-- ===== src/Examples/Listing.antt =====
-- Passes over a webhook that is not there yet, in a world that lists what was written.
use clavex_operator.Prelude.{
  String, true, List, [], ◌∷◌, Option, none, some, ◌≡◌, refl, arith, ◌≤◌, str_eq,
}
use clavex_operator.Api.{ok}
use clavex_operator.AuthSecret.{resolve_secret_value}
use clavex_operator.Reconcile.{requeue_interval}
use clavex_operator.Reconcile.Flow.{outcome_of, requeue}
use clavex_operator.Reconcile.Calls.{Cluster, State, start}
use clavex_operator.Reconcile.Environment.{Environment, sdk_writes}
use clavex_operator.Reconcile.Converges.{passes}
use clavex_operator.Named.{first_match}
use clavex_operator.Webhook.{
  WebhookSpec, Webhook, WebhookService, CreateWebhookParams, webhook_kind, webhook_up_to_date,
  reconcile_clavex_webhook,
}
use clavex_operator.Webhook.Serving.{Serving}
use clavex_operator.Webhook.Converges.{webhook_converges}
use clavex_operator.Examples.Calm.{Place, Has, credentials, session, calm_cluster, calm-Environment}
use clavex_operator.Examples.Passes.{key, fresh, a_webhook_spec}

abbrev W : Type 0
W = Place WebhookSpec Webhook

abbrev k8s : Cluster W WebhookSpec
k8s = calm_cluster WebhookSpec Webhook

abbrev all : Option Webhook → List Webhook
all none = []
all (some x) = x ∷ []

abbrev made : String → CreateWebhookParams → Webhook
made id p = record { id = id; url = p.url; is_active = p.is_active; events = p.events }

abbrev service : WebhookService W
service = record {
  webhooks = record {
    id = λ x. x.id;
    name = λ x. x.url;
    list = λ session org w. (ok (all w.live), w);
    delete = λ session org id w. (ok tt, record w { live = none });
  };
  create = λ session marker org p w. (ok (made "h1" p), record w { live = some (made "h1" p) });
  update = λ session marker org id p w. (ok (made id p), record w { live = some (made id p) });
}

abbrev spec : WebhookSpec
spec = record a_webhook_spec { signing_key_ref = none }

abbrev url : String
url = "https://hooks.example"

abbrev found : Option Webhook → Option Webhook
found x = first_match (λ x. x.url) url (all x)

calm :
    Environment k8s
      (webhook_kind k8s true service)
      (Has WebhookSpec Webhook spec)
      (λ w. w.stored)
      (λ w. found w.live)
      key
      credentials
      session
unfolding webhook_kind
calm = calm-Environment WebhookSpec Webhook (webhook_kind k8s true service) spec found refl

is_found :
    (id : String) (p : CreateWebhookParams)
    → p.url ≡ url
    → found (some (made id p)) ≡ some (made id p)
unfolding first_match
is_found id p e = rw (matches p.url e) refl
  where
    matches : (u : String) → u ≡ url → str_eq u url ≡ true
    matches u e = rw e refl

served :
    Serving k8s true service
      (Has WebhookSpec Webhook spec)
      (λ w. w.stored)
      (λ w. found w.live)
      session
      "acme-id"
      url
unfolding resolve_secret_value
served = record {
  lists = λ w i. ((all w.live, refl, refl), (i, refl, refl));
  resolves = λ w i. ("", rw i refl);
  creates = λ marker p w i e m. (
    refl,
    (
      i,
      refl,
      (made "h1" p, is_found "h1" p e, record { url = refl; is_active = refl; events = refl }),
    ),
  );
  changes = λ marker p w x i e m. (
    refl,
    (
      i,
      refl,
      (made x.id p, is_found x.id p e, record { url = refl; is_active = refl; events = refl }),
    ),
  );
}

abbrev begin : State W WebhookSpec
begin = start (record { stored = fresh WebhookSpec spec; live = none }) none

webhook_converges_example :
    let after = passes k8s (webhook_kind k8s true service) key in
    (outcome_of (reconcile_clavex_webhook k8s true service key (after 0 begin))
      ≡ requeue requeue_interval)
    × ((x : Webhook) × (found (after 1 begin).world.live ≡ some x)
        × (webhook_up_to_date x (fresh WebhookSpec spec) ≡ true))
    × (sdk_writes (after 1 begin).log ≤ 1)
    × (sdk_writes (after 2 begin).log ≤ sdk_writes (after 1 begin).log)
unfolding sdk_writes
webhook_converges_example =
    webhook_converges k8s true service calm begin served refl refl 0 1 (omega arith)
