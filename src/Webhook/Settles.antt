-- ===== src/Webhook/Settles.antt =====
-- The pass after the one that updated a webhook.
use mathlib.Core.List.{Perm}
use mathlib.Core.Path.{subst}
use clavex_operator.Prelude.{
  bool_eq_refl, eq_refl, String, Bool, true, false, List, Option, some, ◌≡◌, refl, arith,
  if◌then◌else◌, ◌++◌, ◌∙◌, sym, ap,
}
use clavex_operator.Api.{Answer, ok, fail, Error, Resource}
use clavex_operator.Compare.{same_elements}
use clavex_operator.AuthSecret.{resolve_secret_value, default_client_secret_key}
use clavex_operator.AuthSecret.Laws.{and_then-eq-ok}
use clavex_operator.Reconcile.Flow.{next, state_of}
use clavex_operator.Reconcile.Calls.{Cluster, State, Session, Marker, with_managed, succeeded, ask}
use clavex_operator.Named.{first_match, find_by_name}
use clavex_operator.Drift.{unchanged, updated, spec_unchanged, or_return, correct}
use clavex_operator.Drift.Laws.{correction, correct_lem}
use clavex_operator.Webhook.{
  WebhookSpec, Webhook, CreateWebhookParams, WebhookService, webhook_params, build_webhook_params,
  webhook_up_to_date, reconcile_webhook,
}

-- A listed webhook shows what an update asked for, with the events in an order of the server's
-- choice.
pub record Shows (webhook : Webhook) (p : CreateWebhookParams) : Type 0 where
  pub url : webhook.url ≡ p.url
  pub is_active : webhook.is_active ≡ p.is_active
  pub events : Perm webhook.events p.events

-- The documented behaviour of the SDK: the listing after an accepted update shows it.
pub record ListsUpdated {W : Type 0} (sdk : WebhookService W) : Type 0 where
  pub list_after_update :
      (session : Session) (marker : Marker) (org id : String) (p : CreateWebhookParams) (w : W)
      → let after = sdk.update session marker org id p w in
        succeeded after.0 ≡ true
        → (webhooks : List Webhook) × (webhook : Webhook) × ((sdk.webhooks.list session org
              after.1).0
            ≡ ok webhooks)
          × (first_match sdk.webhooks.name p.url webhooks ≡ some webhook)
          × Shows webhook p

up_to_date-Shows :
    (webhook : Webhook) (cr : Resource WebhookSpec) (secret : String)
    → Shows webhook (webhook_params cr.spec secret)
    → webhook_up_to_date webhook cr ≡ same_elements webhook.events cr.spec.events
unfolding webhook_up_to_date
up_to_date-Shows webhook cr secret h =
    rw h.url (rw h.is_active (ground (arith, eq_refl cr.spec.url, bool_eq_refl cr.spec.enabled)))

module _ {W : Type 0} (c : Cluster W WebhookSpec) (recorder : Bool) (sdk : WebhookService W) where
  module _ (session : Session) (org_id : String) where
    abbrev find : Resource WebhookSpec → W → Answer (Option Webhook) × W
    find cr = find_by_name sdk.webhooks "webhooks" session org_id cr.spec.url

    abbrev build : Resource WebhookSpec → W → Answer CreateWebhookParams × W
    build cr = build_webhook_params c.get_secret cr

    abbrev update : Resource WebhookSpec → Webhook → CreateWebhookParams → W → Answer Webhook × W
    update cr live params =
        sdk.update session (with_managed "ClavexWebhook" cr.meta) org_id live.id params

    -- The world in which the pass comes to the comparison.
    abbrev compares_in : Resource WebhookSpec → State W WebhookSpec → W
    compares_in cr s = (build cr (find cr s.world).1).1

    pass_found :
        (cr : Resource WebhookSpec) (s : State W WebhookSpec) (live : Webhook)
        (params : CreateWebhookParams)
        → (find cr s.world).0 ≡ ok (some live)
        → (build cr (find cr s.world).1).0 ≡ ok params
        → reconcile_webhook c recorder sdk session org_id cr s
          ≡ correct recorder "webhook" live.id cr
              (webhook_up_to_date live cr)
              (update cr live params)
              (record s { world = compares_in cr s })
    unfolding reconcile_webhook or_return ask
    pass_found cr s live params h k = rw h (rw k refl)

    built :
        (cr : Resource WebhookSpec) (w : W) (params : CreateWebhookParams)
        → (build cr w).0 ≡ ok params
        → (secret : String) × (webhook_params cr.spec secret ≡ params)
    unfolding build_webhook_params
    built cr w params h =
        let resolved =
          (resolve_secret_value c.get_secret cr.spec.signing_key_ref cr.meta.namespace
            default_client_secret_key w).0 in
        let (secret, e, k) = and_then-eq-ok _ _ resolved params h in (secret, ground (arith, k))

    pass_updated :
        (cr : Resource WebhookSpec) (s : State W WebhookSpec) (live : Webhook)
        (params : CreateWebhookParams)
        → (find cr s.world).0 ≡ ok (some live)
        → (build cr (find cr s.world).1).0 ≡ ok params
        → webhook_up_to_date live cr ≡ false
        → (state_of (reconcile_webhook c recorder sdk session org_id cr s)).world
          ≡ (update cr live params (compares_in cr s)).1
    pass_updated cr s live params h k differs =
        rw (pass_found cr s live params h k) (rw differs (rw correct_lem refl))

    found_after :
        (laws : ListsUpdated sdk) (cr next_cr : Resource WebhookSpec) (live : Webhook)
        (params : CreateWebhookParams) (w w₀ : W)
        → next_cr.spec ≡ cr.spec
        → (build cr w₀).0 ≡ ok params
        → succeeded (update cr live params w).0 ≡ true
        → (webhook : Webhook) × ((find next_cr (update cr live params w).1).0 ≡ ok (some webhook))
          × (webhook_up_to_date webhook next_cr ≡ same_elements webhook.events next_cr.spec.events)
          × Perm webhook.events next_cr.spec.events
    unfolding find_by_name
    found_after laws cr next_cr live params w w₀ same k accepted =
        let (secret, e) = built cr w₀ params k in
        let (webhooks, webhook, listed, matched, shows) =
          laws.list_after_update session _ org_id live.id params w accepted in
        let e' : params ≡ webhook_params next_cr.spec secret =
          sym (ap (λ spec. webhook_params spec secret) same ∙ e) in
        let shows' = subst (Shows webhook) e' shows in
        let matched' =
          subst (λ p. first_match sdk.webhooks.name p.url webhooks ≡ some webhook) e' matched in
        (
          webhook,
          rw listed (rw matched' refl),
          up_to_date-Shows webhook next_cr secret shows',
          shows'.events,
        )

    -- What the pass after an update returns and leaves, by the webhook that it finds.
    abbrev pub SecondPass :
        Resource WebhookSpec → State W WebhookSpec → Webhook → CreateWebhookParams → Type 0
    SecondPass cr s webhook params =
        let settled = same_elements webhook.events cr.spec.events in
        let w = compares_in cr s in
        let answer = (update cr webhook params w).0 in
        reconcile_webhook c recorder sdk session org_id cr s
        ≡ next
            (if settled
              then ok (unchanged webhook.id)
              else updated "webhook" webhook.id (spec_unchanged cr) answer)
            (record s {
              world = (if settled then w else (update cr webhook params w).1);
              log = correction recorder settled webhook.id cr (succeeded answer) w ++ s.log;
            })

    second :
        (cr : Resource WebhookSpec) (s : State W WebhookSpec) (webhook : Webhook)
        (params : CreateWebhookParams)
        → (find cr s.world).0 ≡ ok (some webhook)
        → (build cr (find cr s.world).1).0 ≡ ok params
        → webhook_up_to_date webhook cr ≡ same_elements webhook.events cr.spec.events
        → SecondPass cr s webhook params
    second cr s webhook params h k test =
        pass_found cr s webhook params h k
        ∙ rw test (
            correct_lem recorder "webhook" webhook.id cr
              (same_elements webhook.events cr.spec.events) (update cr webhook params)
              (record s { world = compares_in cr s }))

    pass_failed :
        (cr : Resource WebhookSpec) (s : State W WebhookSpec) (webhook : Webhook) (e : Error)
        → (find cr s.world).0 ≡ ok (some webhook)
        → (build cr (find cr s.world).1).0 ≡ fail e
        → reconcile_webhook c recorder sdk session org_id cr s
          ≡ next (fail e) (record s { world = compares_in cr s })
    unfolding reconcile_webhook or_return ask
    pass_failed cr s webhook e h k = rw h (rw k refl)

    -- The same, by the parameters of an update; where there are none, the pass fails and writes
    -- nothing.
    abbrev pub Again :
        Resource WebhookSpec → State W WebhookSpec → Webhook → Answer CreateWebhookParams → Type 0
    Again cr s webhook (ok params) = SecondPass cr s webhook params
    Again cr s webhook (fail e) =
        reconcile_webhook c recorder sdk session org_id cr s
        ≡ next (fail e) (record s { world = compares_in cr s })

    again :
        (cr : Resource WebhookSpec) (s : State W WebhookSpec) (webhook : Webhook)
        → (find cr s.world).0 ≡ ok (some webhook)
        → webhook_up_to_date webhook cr ≡ same_elements webhook.events cr.spec.events
        → (a : Answer CreateWebhookParams) → (build cr (find cr s.world).1).0 ≡ a
        → Again cr s webhook a
    again cr s webhook h test (ok params) k = second cr s webhook params h k test
    again cr s webhook h test (fail e) k = pass_failed cr s webhook e h k

    -- Where an accepted update is what the next listing shows, with the events in any order: the
    -- pass after one that found the webhook, saw a difference and had its update accepted finds it
    -- with the events asked for. Where it cannot resolve the signing key it fails; where it can, it
    -- writes nothing exactly if the server kept the order of the events, and else updates once more,
    -- and reports drift where the spec is the one last synced.
    pub webhook_settles :
        (cr next_cr : Resource WebhookSpec) (s : State W WebhookSpec) (live : Webhook)
        (params : CreateWebhookParams)
        → ListsUpdated sdk
        → next_cr.spec ≡ cr.spec
        → (find cr s.world).0 ≡ ok (some live)
        → (build cr (find cr s.world).1).0 ≡ ok params
        → webhook_up_to_date live cr ≡ false
        → succeeded (update cr live params (compares_in cr s)).0 ≡ true
        → let s₁ = state_of (reconcile_webhook c recorder sdk session org_id cr s) in
          (webhook : Webhook) × ((find next_cr s₁.world).0 ≡ ok (some webhook))
          × Perm webhook.events next_cr.spec.events
          × Again next_cr s₁ webhook (build next_cr (find next_cr s₁.world).1).0
    webhook_settles cr next_cr s live params laws same h k differs accepted =
        let s₁ = state_of (reconcile_webhook c recorder sdk session org_id cr s) in
        let (webhook, e, test, events) =
          found_after laws cr next_cr live params (compares_in cr s) (find cr s.world).1 same k
            accepted in
        let found : (find next_cr s₁.world).0 ≡ ok (some webhook) =
          rw (pass_updated cr s live params h k differs) e in
        (webhook, found, events, again next_cr s₁ webhook found test _ refl)
