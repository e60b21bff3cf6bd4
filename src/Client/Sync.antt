-- ===== src/Client/Sync.antt =====
-- The sync of a ClavexClient where no call fails and nobody else writes.
use clavex_operator.Prelude.{
  ℕ, ◌≤◌, String, Bool, true, false, Option, none, some, ◌≡◌, refl, sym, ap, ◌∙◌, arith,
}
use clavex_operator.Api.{Answer, ok, NamespacedName, Resource}
use clavex_operator.AuthSecret.{Credentials}
use clavex_operator.Reconcile.{Synced}
use clavex_operator.Reconcile.Goes.{Goes, Goes-bind, Goes-map}
use clavex_operator.Reconcile.Environment.{Environment, Stands}
use clavex_operator.Reconcile.Converges.{Advances}
use clavex_operator.Reconcile.Calls.{Cluster, State, Session, Marker, ask, succeeded, with_managed}
use clavex_operator.Client.{
  ClientSpec, OidcClient, ClientService, UpdateClientParams, client_kind, client_up_to_date,
  reconcile_client, update_params, get_client, existing_client, converge_client, create_params,
}
use clavex_operator.Drift.{or_return, correct}
use clavex_operator.Drift.Goes.{create_missing-Goes, correct-Goes, advance}
use clavex_operator.Client.Settles.{Shows, client_up_to_date-Shows}
use clavex_operator.Client.Serving.{writes_due, Serving, answers, Puts}

module _ {W : Type 0} (c : Cluster W ClientSpec) (recorder : Bool) (sdk : ClientService W) where
  module _ {IsSound : W → Type 0} {resource : W → Resource ClientSpec}
      {live : W → Option OidcClient} {key : NamespacedName} {credentials : Credentials}
      {session : Session} (cr₀ : Resource ClientSpec)
      (env : Environment c
        (client_kind c recorder sdk)
        IsSound
        resource
        live
        key
        credentials
        session)
      (serving : Serving c recorder sdk IsSound resource live session credentials.org_id
        cr₀.spec.client_id) where
    abbrev At : Resource ClientSpec → Option OidcClient → ℕ → State W ClientSpec → Type 0
    At = Stands env

    abbrev Onward : Resource ClientSpec → Option OidcClient → ℕ → State W ClientSpec → Type 0
    Onward = Advances env (writes_due cr₀) cr₀.spec

    get-Goes :
        (x : Option OidcClient) (cr : Resource ClientSpec) (id : String) (n : ℕ)
        (s : State W ClientSpec)
        → id ≡ cr₀.spec.client_id
        → At cr x n s
        → Goes
            (ask (get_client c recorder sdk session credentials.org_id id))
            s
            (λ a t. (a ≡ ok x) × At cr x n t)
    unfolding ask get_client
    get-Goes x cr id n s same (i, r, m, l) =
        let (reads, keeps) = serving.gets_client s.world i in
        rw same (record {
          value = existing_client (sdk.get session credentials.org_id cr₀.spec.client_id s.world).0;
          after = record s {
            world = (sdk.get session credentials.org_id cr₀.spec.client_id s.world).1;
          };
          runs = refl;
          holds = (answers _ (live s.world) x m reads, (keeps.0, keeps.1 ∙ r, keeps.2 ∙ m, l));
        })

    -- The debt of a live client.
    one_at_most : (y : OidcClient) → writes_due cr₀ (some y) ≤ 1
    one_at_most y = ground arith

    create-Goes :
        (cr : Resource ClientSpec) (n : ℕ) (s : State W ClientSpec)
        → cr.spec ≡ cr₀.spec
        → At cr none n s
        → Goes
            (converge_client c recorder sdk session credentials.org_id cr none)
            s
            (λ a t. (synced : Synced) × (a ≡ ok synced) × Onward cr none n t)
    unfolding converge_client
    create-Goes cr n s same h =
        let marker = with_managed "ClavexClient" cr.meta in
        let create = sdk.create session marker credentials.org_id (create_params cr.spec) in
        let (took, (sound, stored, (y, shown, any))) =
          serving.creates_client marker (create_params cr.spec) s.world h.0
            (ap (λ a. a.client_id) same) (h.2) in
        Goes-map _ s (create_missing-Goes "client" cr.spec.client_id _ create s took)
          λ a t ((synced, e), g, k). (
            synced,
            e,
            advance env (writes_due cr₀) cr₀.spec create cr none (some y) n s t h (g, k) sound
                stored shown (omega (arith, one_at_most y)),
          )

    same_test :
        (x : OidcClient) (cr : Resource ClientSpec)
        → cr.spec ≡ cr₀.spec
        → client_up_to_date x cr ≡ client_up_to_date x cr₀
    unfolding client_up_to_date
    same_test x cr same = rw same refl

    stands_still :
        (cr : Resource ClientSpec) (x : OidcClient) (n : ℕ) (s : State W ClientSpec)
        → At cr (some x) n s
        → client_up_to_date x cr₀ ≡ true
        → Onward cr (some x) n s
    stands_still cr x n s h k = (some x, n, h, omega arith, rw k (omega arith))

    takes :
        (id : String) (marker : Marker) (p : UpdateClientParams) (w : W) (x : OidcClient)
        → IsSound w
        → id ≡ cr₀.spec.client_id
        → live w ≡ some x
        → let call = sdk.update session marker credentials.org_id id p w in
          (succeeded call.0 ≡ true)
          × Puts c recorder sdk IsSound resource live session credentials.org_id id w call.1
              (λ y. Shows y p)
    takes id marker p w x i e m = rw e (serving.updates_client marker p w x i m)

    update-Goes :
        (cr : Resource ClientSpec) (x : OidcClient) (n : ℕ) (s : State W ClientSpec)
        → cr.spec ≡ cr₀.spec
        → At cr (some x) n s
        → Goes
            (converge_client c recorder sdk session credentials.org_id cr (some x))
            s
            (λ a t. (synced : Synced) × (a ≡ ok synced) × Onward cr (some x) n t)
    unfolding converge_client correct
    update-Goes cr x n s same h = by_test (client_up_to_date x cr) (same_test x cr same)
      where
        update : W → Answer OidcClient × W
        update =
            sdk.update session (with_managed "ClavexClient" cr.meta) credentials.org_id
              cr.spec.client_id (update_params cr.spec)

        latest : (y : OidcClient) → Shows y (update_params cr.spec) → client_up_to_date y cr₀ ≡ true
        latest y shows = sym (same_test y cr same) ∙ client_up_to_date-Shows y cr shows

        by_test :
            (b : Bool)
            → b ≡ client_up_to_date x cr₀
            → Goes
                (correct recorder "client" cr.spec.client_id cr b update)
                s
                (λ a t. (synced : Synced) × (a ≡ ok synced) × Onward cr (some x) n t)
        by_test true e = record {
          value = _;
          after = _;
          runs = refl;
          holds = (_, refl, stands_still cr x n s h (sym e));
        }
        by_test false e =
            let (took, (sound, stored, (y, shown, shows))) =
              takes cr.spec.client_id (with_managed "ClavexClient" cr.meta) (update_params cr.spec)
                s.world x h.0 (ap (λ a. a.client_id) same) (h.2) in
            Goes-map _ s (correct-Goes "client" cr.spec.client_id cr update recorder s took)
              λ a t ((synced, f), g, k). (
                synced,
                f,
                advance env (writes_due cr₀) cr₀.spec update cr (some x) (some y) n s t h (g, k)
                    sound stored shown (rw (sym e) (rw (latest y shows) (omega arith))),
              )

    converge-Goes :
        (cr : Resource ClientSpec) (x : Option OidcClient) (n : ℕ) (s : State W ClientSpec)
        → cr.spec ≡ cr₀.spec
        → At cr x n s
        → Goes
            (converge_client c recorder sdk session credentials.org_id cr x)
            s
            (λ a t. (synced : Synced) × (a ≡ ok synced) × Onward cr x n t)
    converge-Goes cr none n s same h = create-Goes cr n s same h
    converge-Goes cr (some x) n s same h = update-Goes cr x n s same h

    pub sync-Goes :
        (cr : Resource ClientSpec) (x : Option OidcClient) (n : ℕ) (s : State W ClientSpec)
        → cr.spec ≡ cr₀.spec
        → At cr x n s
        → Goes
            (reconcile_client c recorder sdk session credentials.org_id cr)
            s
            (λ a t. (synced : Synced) × (a ≡ ok synced) × Onward cr x n t)
    unfolding reconcile_client or_return
    sync-Goes cr x n s same h =
        Goes-bind _ _ s (get-Goes x cr cr.spec.client_id n s (ap (λ a. a.client_id) same) h)
          λ a t (e, g). rw e (converge-Goes cr x n t same g)
