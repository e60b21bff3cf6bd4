-- ===== src/Webhook/Sync.antt =====
-- The sync of a ClavexWebhook where no call fails and nobody else writes.
use clavex_operator.Prelude.{
  ℕ, String, Bool, true, false, Option, none, some, ◌≡◌, refl, sym, ap, ◌∙◌, arith, eq_refl,
  bool_eq_refl,
}
use clavex_operator.Api.{Answer, ok, SecretRef, NamespacedName, Resource}
use clavex_operator.AuthSecret.{
  Credentials, resolve_secret_value, default_client_secret_key, target,
}
use clavex_operator.Compare.Perm.{same_elements_refl}
use clavex_operator.Reconcile.{Synced}
use clavex_operator.Reconcile.Goes.{Goes, Goes-bind, Goes-map}
use clavex_operator.Reconcile.Environment.{Environment, Stands}
use clavex_operator.Reconcile.Converges.{Advances}
use clavex_operator.Reconcile.Calls.{Cluster, State, Session, ask, with_managed}
use clavex_operator.Named.{find_by_name}
use clavex_operator.Webhook.{
  WebhookSpec, Webhook, WebhookService, CreateWebhookParams, webhook_kind, webhook_params,
  build_webhook_params, webhook_up_to_date, webhook_synced, converge_webhook, reconcile_webhook,
}
use clavex_operator.Drift.{or_return, correct}
use clavex_operator.Drift.Goes.{create_missing-Goes, correct-Goes, advance}
use clavex_operator.Webhook.Serving.{webhook_writes_due, Serving, resolved, Matches}

module _ {W : Type 0} (c : Cluster W WebhookSpec) (recorder : Bool) (sdk : WebhookService W) where
  module _ {IsSound : W → Type 0} {resource : W → Resource WebhookSpec} {live : W → Option Webhook}
      {key : NamespacedName} {credentials : Credentials} {session : Session}
      (cr₀ : Resource WebhookSpec)
      (env : Environment c
        (webhook_kind c recorder sdk)
        IsSound
        resource
        live
        key
        credentials
        session)
      (serving : Serving c recorder sdk IsSound resource live session credentials.org_id
        cr₀.spec.url) where
    abbrev At : Resource WebhookSpec → Option Webhook → ℕ → State W WebhookSpec → Type 0
    At = Stands env

    abbrev Onward : Resource WebhookSpec → Option Webhook → ℕ → State W WebhookSpec → Type 0
    Onward = Advances env (webhook_writes_due cr₀) cr₀.spec

    find-Goes :
        (x : Option Webhook) (cr : Resource WebhookSpec) (url : String) (n : ℕ)
        (s : State W WebhookSpec)
        → url ≡ cr₀.spec.url
        → At cr x n s
        → Goes
            (ask (find_by_name sdk.webhooks "webhooks" session credentials.org_id url))
            s
            (λ a t. (a ≡ ok x) × At cr x n t)
    unfolding ask find_by_name
    find-Goes x cr url n s same (i, r, m, l) =
        let ((xs, e, f), keeps) = serving.lists s.world i in
        rw same (record {
          value = _;
          after = _;
          runs = refl;
          holds = (rw e (ap ok (f ∙ m)), (keeps.0, keeps.1 ∙ r, keeps.2 ∙ m, l));
        })

    -- Resolving reads at most one Secret.
    resolved_At :
        (ref : Option SecretRef) (namespace key_name : String) (x : Option Webhook)
        (cr : Resource WebhookSpec) (n : ℕ) (s : State W WebhookSpec)
        → At cr x n s
        → At cr x n (record s {
          world = (resolve_secret_value c.get_secret ref namespace key_name s.world).1;
        })
    unfolding resolve_secret_value
    resolved_At none namespace key_name x cr n s h = h
    resolved_At (some ref) namespace key_name x cr n s (i, r, m, l) =
        let keeps = env.reads_secret (target ref namespace) s.world i in
        (keeps.0, keeps.1 ∙ r, keeps.2 ∙ m, l)

    resolves_stored :
        (cr : Resource WebhookSpec) (w : W)
        → IsSound w
        → resource w ≡ cr
        → (secret : String) × ((resolved c cr w).0 ≡ ok secret)
    resolves_stored cr w i r = rw (sym r) (serving.resolves w i)

    build-Goes :
        (x : Option Webhook) (cr : Resource WebhookSpec) (n : ℕ) (s : State W WebhookSpec)
        → At cr x n s
        → Goes
            (ask (build_webhook_params c.get_secret cr))
            s
            (λ a t. ((secret : String) × (a ≡ ok (webhook_params cr.spec secret))) × At cr x n t)
    unfolding ask build_webhook_params
    build-Goes x cr n s h =
        let (secret, e) = resolves_stored cr s.world h.0 h.1 in
        record {
          value = _;
          after = _;
          runs = refl;
          holds = (
            (secret, rw e refl),
            resolved_At cr.spec.signing_key_ref cr.meta.namespace default_client_secret_key x cr n s
                h,
          );
        }

    same_test :
        (x : Webhook) (cr : Resource WebhookSpec)
        → cr.spec ≡ cr₀.spec
        → webhook_up_to_date x cr ≡ webhook_up_to_date x cr₀
    unfolding webhook_up_to_date
    same_test x cr same = rw same refl

    -- A webhook as it was asked for passes the test.
    matching :
        (x : Webhook) (cr : Resource WebhookSpec) (secret : String)
        → Matches x (webhook_params cr.spec secret)
        → webhook_up_to_date x cr ≡ true
    unfolding webhook_up_to_date
    matching x cr secret h = rw h.url (
        rw h.is_active (
          rw h.events (
            ground (
              arith,
              eq_refl cr.spec.url,
              bool_eq_refl cr.spec.enabled,
              same_elements_refl cr.spec.events,
            ))))

    create-Goes :
        (cr : Resource WebhookSpec) (secret : String) (n : ℕ) (s : State W WebhookSpec)
        → cr.spec ≡ cr₀.spec
        → At cr none n s
        → Goes
            (converge_webhook c recorder sdk session credentials.org_id cr
              (webhook_params cr.spec secret)
              none)
            s
            (λ a t. (synced : Synced) × (a ≡ ok synced) × Onward cr none n t)
    unfolding converge_webhook
    create-Goes cr secret n s same h =
        let marker = with_managed "ClavexWebhook" cr.meta in
        let p = webhook_params cr.spec secret in
        let create = sdk.create session marker credentials.org_id p in
        let (took, (sound, stored, (y, shown, shows))) =
          serving.creates marker p s.world h.0 (ap (λ a. a.url) same) h.2 in
        let latest = sym (same_test y cr same) ∙ matching y cr secret shows in
        Goes-map _ s (create_missing-Goes "webhook" cr.spec.url webhook_synced create s took)
          λ a t ((synced, e), g, k). (
            synced,
            e,
            advance env (webhook_writes_due cr₀) cr₀.spec create cr none (some y) n s t h (g, k)
                sound stored shown (rw latest (omega arith)),
          )

    update-Goes :
        (cr : Resource WebhookSpec) (secret : String) (x : Webhook) (n : ℕ)
        (s : State W WebhookSpec)
        → cr.spec ≡ cr₀.spec
        → At cr (some x) n s
        → Goes
            (converge_webhook c recorder sdk session credentials.org_id cr
              (webhook_params cr.spec secret)
              (some x))
            s
            (λ a t. (synced : Synced) × (a ≡ ok synced) × Onward cr (some x) n t)
    unfolding converge_webhook correct
    update-Goes cr secret x n s same h = by_test (webhook_up_to_date x cr) (same_test x cr same)
      where
        p : CreateWebhookParams
        p = webhook_params cr.spec secret

        update : W → Answer Webhook × W
        update = sdk.update session (with_managed "ClavexWebhook" cr.meta) credentials.org_id x.id p

        by_test :
            (b : Bool)
            → b ≡ webhook_up_to_date x cr₀
            → Goes
                (correct recorder "webhook" x.id cr b update)
                s
                (λ a t. (synced : Synced) × (a ≡ ok synced) × Onward cr (some x) n t)
        by_test true e = record {
          value = _;
          after = _;
          runs = refl;
          holds = (_, refl, (some x, n, h, omega arith, rw (sym e) (omega arith)));
        }
        by_test false e =
            let (took, (sound, stored, (y, shown, shows))) =
              serving.changes (with_managed "ClavexWebhook" cr.meta) p s.world x h.0
                (ap (λ a. a.url) same) h.2 in
            let latest = sym (same_test y cr same) ∙ matching y cr secret shows in
            Goes-map _ s (correct-Goes "webhook" x.id cr update recorder s took)
              λ a t ((synced, f), g, k). (
                synced,
                f,
                advance env (webhook_writes_due cr₀) cr₀.spec update cr (some x) (some y) n s t h
                    (g, k) sound stored shown (rw (sym e) (rw latest (omega arith))),
              )

    converge-Goes :
        (cr : Resource WebhookSpec) (secret : String) (x : Option Webhook) (n : ℕ)
        (s : State W WebhookSpec)
        → cr.spec ≡ cr₀.spec
        → At cr x n s
        → Goes
            (converge_webhook c recorder sdk session credentials.org_id cr
              (webhook_params cr.spec secret)
              x)
            s
            (λ a t. (synced : Synced) × (a ≡ ok synced) × Onward cr x n t)
    converge-Goes cr secret none n s same h = create-Goes cr secret n s same h
    converge-Goes cr secret (some x) n s same h = update-Goes cr secret x n s same h

    pub sync-Goes :
        (cr : Resource WebhookSpec) (x : Option Webhook) (n : ℕ) (s : State W WebhookSpec)
        → cr.spec ≡ cr₀.spec
        → At cr x n s
        → Goes
            (reconcile_webhook c recorder sdk session credentials.org_id cr)
            s
            (λ a t. (synced : Synced) × (a ≡ ok synced) × Onward cr x n t)
    unfolding reconcile_webhook or_return
    sync-Goes cr x n s same h =
        Goes-bind _ _ s (find-Goes x cr cr.spec.url n s (ap (λ a. a.url) same) h) λ a t (e, g).
          rw e (
            Goes-bind _ _ t (build-Goes x cr n t g)
              λ b u ((secret, f), k). rw f (converge-Goes cr secret x n u same k))
