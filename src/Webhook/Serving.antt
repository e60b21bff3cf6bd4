-- ===== src/Webhook/Serving.antt =====
-- The calls that the sync of a ClavexWebhook makes, where none fails and nobody else writes, and the
-- server keeps the events in their order.
use clavex_operator.Prelude.{ℕ, String, Bool, true, List, Option, none, some, ◌≡◌, if◌then◌else◌}
use clavex_operator.Api.{Answer, ok, Resource}
use clavex_operator.AuthSecret.{resolve_secret_value, default_client_secret_key}
use clavex_operator.Reconcile.{}
use clavex_operator.Reconcile.Environment.{Keeps}
use clavex_operator.Reconcile.Calls.{Cluster, Session, Marker, succeeded}
use clavex_operator.Named.{first_match}
use clavex_operator.Webhook.{
  WebhookSpec, Webhook, WebhookService, CreateWebhookParams, webhook_kind, webhook_up_to_date,
}
use clavex_operator.Drift.Goes.{}

-- The writes that are due for a webhook: its creation or an update, or none.
abbrev pub webhook_writes_due : Resource WebhookSpec → Option Webhook → ℕ
webhook_writes_due cr none = 1
webhook_writes_due cr (some live) = if webhook_up_to_date live cr then 0 else 1

-- The webhook as it was asked for.
pub record Matches (live : Webhook) (p : CreateWebhookParams) : Type 0 where
  pub url : live.url ≡ p.url
  pub is_active : live.is_active ≡ p.is_active
  pub events : live.events ≡ p.events

abbrev pub resolved :
    {W : Type 0} → Cluster W WebhookSpec → Resource WebhookSpec → W → Answer String × W
resolved c cr =
    resolve_secret_value c.get_secret cr.spec.signing_key_ref cr.meta.namespace
      default_client_secret_key

module _ {W : Type 0} (c : Cluster W WebhookSpec) (recorder : Bool) (sdk : WebhookService W) where
  module _ (IsSound : W → Type 0) (resource : W → Resource WebhookSpec) (live : W → Option Webhook)
      (session : Session) (org url : String) where
    abbrev pub Puts : W → W → CreateWebhookParams → Type 0
    Puts w w' p =
        IsSound w' × (resource w' ≡ resource w) × ((x : Webhook) × (live w' ≡ some x) × Matches x p)

    -- What the SDK and the Kubernetes API document of the calls that the sync of a webhook makes,
    -- where no call fails and nobody else writes. `live` is the first webhook of the org with the
    -- URL.
    pub record Serving : Type 0 where
      pub lists :
          (w : W)
          → IsSound w
          → ((xs : List Webhook) × ((sdk.webhooks.list session org w).0 ≡ ok xs)
              × (first_match sdk.webhooks.name url xs ≡ live w))
            × Keeps c
                (webhook_kind c recorder sdk)
                IsSound
                resource
                live
                w
                (sdk.webhooks.list session org w).1
      pub resolves :
          (w : W) → IsSound w → (secret : String) × ((resolved c (resource w) w).0 ≡ ok secret)
      pub creates :
          (marker : Marker) (p : CreateWebhookParams) (w : W)
          → IsSound w
          → p.url ≡ url
          → live w ≡ none
          → (succeeded (sdk.create session marker org p w).0 ≡ true)
            × Puts w (sdk.create session marker org p w).1 p
      pub changes :
          (marker : Marker) (p : CreateWebhookParams) (w : W) (x : Webhook)
          → IsSound w
          → p.url ≡ url
          → live w ≡ some x
          → (succeeded (sdk.update session marker org x.id p w).0 ≡ true)
            × Puts w (sdk.update session marker org x.id p w).1 p
