-- ===== src/Webhook/Laws.antt =====
-- What a pass over a ClavexWebhook guarantees.
use clavex_operator.Prelude.{String, Bool, Option, none, some}
use clavex_operator.Api.{NamespacedName, Resource}
use clavex_operator.Stream.Pool.{Pool}
use clavex_operator.Reconcile.{Kind}
use clavex_operator.Reconcile.Flow.{state_of}
use clavex_operator.Reconcile.Calls.{Cluster, start, Session}
use clavex_operator.Reconcile.Triple.{Triple, Triple-pure}
use clavex_operator.Reconcile.Lawful.{FinalizerLaws, Lawful, Law, ReadyLaw, KindLaws}
use clavex_operator.Reconcile.Safety.{reconcile-Lawful}
use clavex_operator.Named.Adds.{delete_by_name_adds}
use clavex_operator.Named.Laws.{DirectoryLaws, Removed, delete_by_name_gone}
use clavex_operator.Drift.Laws.{correct-Law, create_missing-Law, or_return-Law}
use clavex_operator.Webhook.{
  WebhookSpec, Webhook, WebhookService, CreateWebhookParams, converge_webhook, reconcile_webhook,
  webhook_kind, reconcile_clavex_webhook,
}

abbrev pub webhook_url : WebhookSpec → String
webhook_url spec = spec.url

module _ {W : Type 0} (c : Cluster W WebhookSpec) (recorder : Bool) (sdk : WebhookService W) where
  module _ (laws : DirectoryLaws sdk.webhooks) where
    abbrev kind : Kind W WebhookSpec
    kind = webhook_kind c recorder sdk

    -- What the listing, and the deletion of the first webhook with the URL of the spec, left.
    abbrev pub WebhookRemoved : String → WebhookSpec → W → Type 0
    WebhookRemoved = Removed c kind sdk.webhooks laws webhook_url

    reconcile_webhook-Law :
        (session : Session) (org_id : String) (cr : Resource WebhookSpec)
        → Triple
            (ReadyLaw c kind WebhookRemoved)
            (reconcile_webhook c recorder sdk session org_id cr)
            (λ _. Law c kind WebhookRemoved)
            (Law c kind WebhookRemoved)
    unfolding reconcile_webhook
    reconcile_webhook-Law session org_id cr =
        or_return-Law c kind WebhookRemoved _ _
          λ existing. or_return-Law c kind WebhookRemoved _ _ (by_existing existing)
      where
        by_existing :
            (existing : Option Webhook) (params : CreateWebhookParams)
            → Triple
                (ReadyLaw c kind WebhookRemoved)
                (converge_webhook c recorder sdk session org_id cr params existing)
                (λ _. Law c kind WebhookRemoved)
                (Law c kind WebhookRemoved)
        by_existing none params = create_missing-Law c kind WebhookRemoved _ _ _ _
        by_existing (some live) params = correct-Law c kind WebhookRemoved _ _ _ _ _ _

    webhook_kind-KindLaws : KindLaws c kind WebhookRemoved
    unfolding webhook_kind
    webhook_kind-KindLaws = record {
      delete_remote_gone = λ session org_id cr.
          delete_by_name_gone c kind sdk.webhooks laws webhook_url "webhooks" session org_id
            cr.spec;
      delete_remote_adds = λ session org_id cr.
          delete_by_name_adds sdk.webhooks "webhooks" session org_id cr.spec.url;
      sync_lawful = reconcile_webhook-Law;
      after_sync_lawful = λ cr synced. Triple-pure tt (λ s p. p);
    }

    -- By what is documented of the SDK's listing and deletion and of AddFinalizer, and whatever
    -- the calls answer, a pass over a ClavexWebhook writes to the Admin API only after it has
    -- seen the finalizer in the cluster, and gives the finalizer up only in a state that a
    -- listing and a deletion left: the org is the one that the credentials name which this pass
    -- resolved, after it read the resource, and its live webhooks are those listed less every
    -- one with the id of the first that has the URL of the spec, whose deletion was accepted or
    -- answered with not found; where none has it, they are those listed. A further one with that
    -- URL, under another id, is still live. The type doc of ClavexWebhook calls two webhooks
    -- with one URL a known limitation.
    pub reconcile_clavex_webhook-Lawful :
        (key : NamespacedName) (w : W) (stream : Option Pool)
        → FinalizerLaws c
        → Lawful c kind WebhookRemoved
            (state_of (reconcile_clavex_webhook c recorder sdk key (start w stream))).log
    unfolding reconcile_clavex_webhook
    reconcile_clavex_webhook-Lawful key w stream f =
        reconcile-Lawful c kind WebhookRemoved f webhook_kind-KindLaws key w stream
