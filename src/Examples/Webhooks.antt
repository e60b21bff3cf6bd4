-- ===== src/Examples/Webhooks.antt =====
-- A webhook with two events, at a server that lists them the other way round.
use mathlib.Core.List.{Perm}
use mathlib.Core.List.Perm
use clavex_operator.Prelude.{String, true, false, List, [], ◌∷◌, none, some, ◌≡◌, refl, eq_refl}
use clavex_operator.Api.{ok, Resource}
use clavex_operator.Reconcile.Flow.{state_of}
use clavex_operator.Reconcile.Calls.{Cluster, State, Session, start}
use clavex_operator.Named.{first_match, find_by_name}
use clavex_operator.AuthSecret.{resolve_secret_value}
use clavex_operator.Webhook.{
  WebhookSpec, Webhook, WebhookService, CreateWebhookParams, webhook_params, build_webhook_params,
  webhook_up_to_date, reconcile_webhook,
}
use clavex_operator.Webhook.Settles.{ListsUpdated, Again, webhook_settles}
use clavex_operator.Examples.World.{World, cluster}
use clavex_operator.Examples.Passes.{a_webhook_spec, webhook_service, fresh, holding}

abbrev W : Type 0
W = World WebhookSpec Webhook

abbrev k8s : Cluster W WebhookSpec
k8s = cluster WebhookSpec Webhook

abbrev turned : List String → List String
turned (x ∷ y ∷ []) = y ∷ x ∷ []
turned xs = xs

turned-perm : (xs : List String) → Perm (turned xs) xs
turned-perm [] = Perm.refl _
turned-perm (x ∷ []) = Perm.refl _
turned-perm (x ∷ y ∷ []) = Perm.swap x y []
turned-perm (x ∷ y ∷ z ∷ xs) = Perm.refl _

abbrev stored : String → CreateWebhookParams → Webhook
stored id p = record { id = id; url = p.url; is_active = p.is_active; events = turned p.events }

abbrev service : WebhookService W
service = record webhook_service {
  update = λ session marker org id p w. (ok (stored id p), record w { live = some (stored id p) });
}

service-ListsUpdated : ListsUpdated service
unfolding first_match
service-ListsUpdated = record {
  list_after_update = λ session marker org id p w h. (
    stored id p ∷ [],
    stored id p,
    refl,
    rw (eq_refl p.url) refl,
    record { url = refl; is_active = refl; events = turned-perm p.events },
  );
}

abbrev session : Session
session = record { api_key = "k1" }

abbrev cr : Resource WebhookSpec
cr = fresh WebhookSpec (record a_webhook_spec {
  events = "user.created" ∷ "user.deleted" ∷ [];
  signing_key_ref = none;
})

abbrev off : Webhook
off = record { id = "h1"; url = "https://hooks.example"; is_active = false; events = [] }

abbrev begin : State W WebhookSpec
begin = start (holding WebhookSpec Webhook cr (some off)) none

found :
    (find_by_name service.webhooks "webhooks" session "acme-id" cr.spec.url begin.world).0
    ≡ ok (some off)
unfolding find_by_name first_match
found = refl

built : (build_webhook_params k8s.get_secret cr begin.world).0 ≡ ok (webhook_params cr.spec "")
unfolding build_webhook_params resolve_secret_value
built = refl

differs : webhook_up_to_date off cr ≡ false
unfolding webhook_up_to_date
differs = refl

settling_example :
    let s₁ = state_of (reconcile_webhook k8s true service session "acme-id" cr begin) in
    let w₁ = find_by_name service.webhooks "webhooks" session "acme-id" cr.spec.url s₁.world in
    (webhook : Webhook) × (w₁.0 ≡ ok (some webhook))
    × Perm webhook.events cr.spec.events
    × Again k8s true service session "acme-id" cr s₁ webhook
        (build_webhook_params k8s.get_secret cr w₁.1).0
unfolding find_by_name
settling_example =
    webhook_settles k8s true service session "acme-id" cr cr begin off (webhook_params cr.spec "")
      service-ListsUpdated refl found built differs refl
