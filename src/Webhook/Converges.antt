-- ===== src/Webhook/Converges.antt =====
-- Passes over a ClavexWebhook in an environment where nothing fails and nobody else writes.
use clavex_operator.Prelude.{
  ℕ, suc, ◌+◌, ◌≤◌, Bool, true, false, Option, none, some, ◌≡◌, refl, arith,
}
use clavex_operator.Api.{NamespacedName, Resource, is_deleting}
use clavex_operator.AuthSecret.{Credentials}
use clavex_operator.Reconcile.{requeue_interval}
use clavex_operator.Reconcile.Flow.{outcome_of, requeue}
use clavex_operator.Reconcile.Goes.{Goes-map}
use clavex_operator.Reconcile.Environment.{Environment, sdk_writes}
use clavex_operator.Reconcile.Converges.{Syncs, passes, converges}
use clavex_operator.Reconcile.Calls.{Cluster, State, Session}
use clavex_operator.Webhook.{
  WebhookSpec, Webhook, WebhookService, webhook_kind, webhook_up_to_date, reconcile_clavex_webhook,
}
use clavex_operator.Webhook.Serving.{webhook_writes_due, Serving}
use clavex_operator.Webhook.Sync.{sync-Goes}

at_most : (cr : Resource WebhookSpec) (x : Option Webhook) → webhook_writes_due cr x ≤ 1
at_most cr none = omega arith
at_most cr (some x) = ground arith

settled :
    (cr : Resource WebhookSpec) (x : Option Webhook)
    → webhook_writes_due cr x ≤ 0
    → (y : Webhook) × (x ≡ some y) × (webhook_up_to_date y cr ≡ true)
settled cr none h = absurd (omega arith)
settled cr (some x) h = (x, refl, ground arith)

module _ {W : Type 0} (c : Cluster W WebhookSpec) (recorder : Bool) (sdk : WebhookService W)
    {IsSound : W → Type 0} {resource : W → Resource WebhookSpec} {live : W → Option Webhook}
    {key : NamespacedName} {credentials : Credentials} {session : Session}
    (env : Environment c
      (webhook_kind c recorder sdk)
      IsSound
      resource
      live
      key
      credentials
      session) where
  webhook_kind-Syncs :
      (cr₀ : Resource WebhookSpec)
      → Serving c recorder sdk IsSound resource live session credentials.org_id cr₀.spec.url
      → Syncs env (webhook_writes_due cr₀) cr₀.spec
  unfolding webhook_kind
  webhook_kind-Syncs cr₀ serving cr x n s same h =
      Goes-map _ s (sync-Goes c recorder sdk cr₀ env serving cr x n s same h)
        λ a t (synced, e, advances).
          (synced, e, record { value = tt; after = t; runs = refl; holds = advances })

  -- In an environment where no call fails, nobody else writes, the credentials stay as they are and
  -- the server keeps the events of a webhook in their order, for a ClavexWebhook whose resource is
  -- in place and is not being deleted: every pass asks for the next one after the long interval.
  -- After one pass or more the live webhook is there and passes the test against the spec, at most
  -- one call that changes the Admin API was made, and the next pass makes none.
  pub webhook_converges :
      (s : State W WebhookSpec)
      (serving : Serving c recorder sdk IsSound resource live session credentials.org_id
        (resource s.world).spec.url)
      → IsSound s.world
      → is_deleting (resource s.world) ≡ false
      → (k n : ℕ) → 1 ≤ n
      → let after = passes c (webhook_kind c recorder sdk) key in
        (outcome_of (reconcile_clavex_webhook c recorder sdk key (after k s))
          ≡ requeue requeue_interval)
        × ((x : Webhook) × (live (after n s).world ≡ some x)
            × (webhook_up_to_date x (resource s.world) ≡ true))
        × (sdk_writes (after n s).log ≤ sdk_writes s.log + 1)
        × (sdk_writes (after (suc n) s).log ≤ sdk_writes (after n s).log)
  unfolding reconcile_clavex_webhook
  webhook_converges s serving i stays k n h =
      let cr = resource s.world in
      let syncs = webhook_kind-Syncs cr serving in
      let due = webhook_writes_due cr in
      let first = converges env due cr.spec s syncs i refl stays k in
      let (returns, less, sum, stable) = converges env due cr.spec s syncs i refl stays n in
      let after = passes c (webhook_kind c recorder sdk) key in
      let few = at_most cr (live s.world) in
      let none_due : due (live (after n s).world) ≤ 0 = omega (arith, less, few) in
      (
        first.0,
        settled cr (live (after n s).world) none_due,
        omega (arith, sum, few),
        omega (arith, stable, none_due),
      )
