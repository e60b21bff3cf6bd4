-- ===== src/Webhook.antt =====
-- internal/controller/clavexwebhook_controller.go, with the spec of
-- api/v1alpha1/clavexwebhook_types.go. A webhook has no name: it is found by its URL.
pub mod Laws
pub mod Settles
pub mod Serving
pub mod Sync
pub mod Converges
use clavex_operator.Prelude.{
  String, Bool, true, false, List, Option, none, some, ◌&&◌, not, ◌||◌, bool_eq, str_eq,
  if◌then◌else◌,
}
use clavex_operator.Api.{Answer, ok, fail, Error, wrapped, SecretRef, NamespacedName, Resource}
use clavex_operator.Compare.{same_elements}
use clavex_operator.AuthSecret.{Secret, and_then, default_client_secret_key, resolve_secret_value}
use clavex_operator.Reconcile.{Kind, Synced, reconcile}
use clavex_operator.Reconcile.Flow.{Step, pure, failed}
use clavex_operator.Reconcile.Calls.{Cluster, State, Session, Marker, with_managed}
use clavex_operator.Named.{Directory, find_by_name, delete_by_name}
use clavex_operator.Drift.{unchanged, or_return, correct, create_missing}

pub record WebhookSpec : Type 0 where
  pub org_ref : String
  pub auth_secret_ref : SecretRef
  pub url : String
  pub events : List String
  pub enabled : Bool
  pub signing_key_ref : Option SecretRef

-- `clavex.Webhook`, by the fields that the program reads.
pub record Webhook : Type 0 where
  pub id : String
  pub url : String
  pub is_active : Bool
  pub events : List String

pub record CreateWebhookParams : Type 0 where
  pub url : String
  pub events : List String
  pub is_active : Bool
  pub secret : String

pub record WebhookService (W : Type 0) : Type 0 where
  pub webhooks : Directory W Webhook
  pub create : Session → Marker → String → CreateWebhookParams → W → Answer Webhook × W
  pub update : Session → Marker → String → String → CreateWebhookParams → W → Answer Webhook × W

-- `findWebhookByURL`
abbrev pub find_webhook_by_url :
    {W : Type 0} → WebhookService W → Session → String → String → W → Answer (Option Webhook) × W
find_webhook_by_url sdk = find_by_name sdk.webhooks "webhooks"

abbrev pub clavex_webhook_finalizer : String
clavex_webhook_finalizer = "clavex.eu/clavexwebhook-finalizer"

abbrev pub webhook_params : WebhookSpec → String → CreateWebhookParams
webhook_params spec secret = record {
  url = spec.url;
  events = spec.events;
  is_active = spec.enabled;
  secret = secret;
}

-- `buildWebhookParams`
module _ {W : Type 0} (get_secret : NamespacedName → W → Answer Secret × W) where
  unfoldable pub build_webhook_params : Resource WebhookSpec → W → Answer CreateWebhookParams × W
  build_webhook_params cr w =
      let (answer, w') =
        resolve_secret_value get_secret cr.spec.signing_key_ref cr.meta.namespace
          default_client_secret_key w in
      (
        and_then (wrapped "resolving signingKeyRef") (λ secret. ok (webhook_params cr.spec secret))
            answer,
        w',
      )

-- `webhookUpToDate`: `slices.Equal` compares the events in order.
unfoldable pub webhook_up_to_date : Webhook → Resource WebhookSpec → Bool
webhook_up_to_date live cr =
    if not (str_eq live.url cr.spec.url) || not (bool_eq live.is_active cr.spec.enabled)
    then false
    else same_elements live.events cr.spec.events

abbrev pub webhook_synced : Webhook → Synced
webhook_synced webhook = unchanged webhook.id

module _ {W : Type 0} (c : Cluster W WebhookSpec) (recorder : Bool) (sdk : WebhookService W) where
  unfoldable pub converge_webhook :
      Session
      → String
      → Resource WebhookSpec
      → CreateWebhookParams
      → Option Webhook
      → Step (State W WebhookSpec) (Answer Synced)
  converge_webhook session org_id cr params none =
      create_missing "webhook" cr.spec.url webhook_synced
        (sdk.create session (with_managed "ClavexWebhook" cr.meta) org_id params)
  converge_webhook session org_id cr params (some live) =
      correct recorder "webhook" live.id cr (webhook_up_to_date live cr)
        (sdk.update session (with_managed "ClavexWebhook" cr.meta) org_id live.id params)

  -- `reconcileWebhook`
  unfoldable pub reconcile_webhook :
      Session → String → Resource WebhookSpec → Step (State W WebhookSpec) (Answer Synced)
  unfolding converge_webhook
  reconcile_webhook session org_id cr =
      or_return (find_webhook_by_url sdk session org_id cr.spec.url) λ existing.
        or_return (build_webhook_params c.get_secret cr)
          λ params. converge_webhook session org_id cr params existing

  unfoldable pub webhook_kind : Kind W WebhookSpec
  unfolding reconcile_webhook
  webhook_kind = record {
    label = "ClavexWebhook";
    finalizer = clavex_webhook_finalizer;
    refetch_error = "re-fetching ClavexWebhook after finalizer update";
    org_ref = λ spec. spec.org_ref;
    auth_secret_ref = λ spec. spec.auth_secret_ref;
    releases_without_secret = false;
    in_sync = "Webhook is in sync with the Admin API";
    corrected = "Live webhook had diverged from spec out-of-band; corrected to match spec";
    ready_shows_drift = false;
    delete_remote =
        λ session org_id cr. delete_by_name sdk.webhooks "webhooks" session org_id cr.spec.url;
    sync = reconcile_webhook;
    after_sync = λ cr synced. pure tt;
    on_failure = failed;
  }

  -- `ClavexWebhookReconciler.Reconcile`
  unfoldable pub reconcile_clavex_webhook : NamespacedName → Step (State W WebhookSpec) ⊥
  unfolding webhook_kind
  reconcile_clavex_webhook key = reconcile c webhook_kind key
