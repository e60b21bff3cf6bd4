-- ===== src/Client/Converges.antt =====
-- A ClavexClient in an environment where nothing fails and nobody else writes: after two writes at
-- most, the live client is as the spec says.
use clavex_operator.Prelude.{
  ℕ, suc, ◌+◌, ◌≤◌, String, Bool, true, false, Option, none, some, ◌≡◌, refl, ◌∙◌, arith, ◌⊎◌, inl,
  inr, str_eq,
}
use clavex_operator.Api.{
  Answer, ok, fail, Error, is_not_found, SecretRef, NamespacedName, Resource, is_deleting,
}
use clavex_operator.AuthSecret.{Secret, Credentials, target}
use clavex_operator.Reconcile.{requeue_interval}
use clavex_operator.Reconcile.Flow.{outcome_of, requeue}
use clavex_operator.Reconcile.Goes.{Goes, Goes-bind, Goes-map, Goes-if, succeeded-ok}
use clavex_operator.Reconcile.Environment.{Environment, Keeps, Stands, sdk_writes}
use clavex_operator.Reconcile.Converges.{Syncs, Advances, passes, converges}
use clavex_operator.Reconcile.Calls.{Cluster, State, Session, ask, tell, succeeded, put_secret}
use clavex_operator.Client.{
  ClientSpec, OidcClient, ClientService, client_kind, client_up_to_date, reconcile_clavex_client,
  persist_secret, store_secret, write_client_secret,
}
use clavex_operator.Drift.Goes.{}
use clavex_operator.Client.Serving.{writes_due, Serving}
use clavex_operator.Client.Sync.{sync-Goes}

module _ {W : Type 0} (c : Cluster W ClientSpec) (recorder : Bool) (sdk : ClientService W) where
  module _ {IsSound : W → Type 0} {resource : W → Resource ClientSpec}
      {live : W → Option OidcClient} {key : NamespacedName} {credentials : Credentials}
      {session : Session} (cr₀ : Resource ClientSpec)
      (env : Environment c
        (client_kind c recorder sdk)
        IsSound
        resource
        live
        key
        credentials
        session)
      (serving : Serving c recorder sdk IsSound resource live session credentials.org_id
        cr₀.spec.client_id) where
    abbrev At : Resource ClientSpec → Option OidcClient → ℕ → State W ClientSpec → Type 0
    At = Stands env

    abbrev Onward : Resource ClientSpec → Option OidcClient → ℕ → State W ClientSpec → Type 0
    Onward = Advances env (writes_due cr₀) cr₀.spec

    tell-Goes :
        {A : Type 0} (secret : Secret) (call : W → Answer A × W) (cr : Resource ClientSpec)
        (x : Option OidcClient) (n : ℕ) (s : State W ClientSpec)
        → ((w : W)
            → IsSound w
            → (succeeded (call w).0 ≡ true)
              × Keeps c (client_kind c recorder sdk) IsSound resource live w (call w).1)
        → At cr x n s
        → Goes (tell (put_secret secret) call) s (λ a t. ((v : A) × (a ≡ ok v)) × At cr x n t)
    unfolding tell sdk_writes
    tell-Goes secret call cr x n s law (i, r, m, l) =
        let (took, (sound, stored, same)) = law s.world i in
        record {
          value = _;
          after = _;
          runs = refl;
          holds = (succeeded-ok _ took, (sound, stored ∙ r, same ∙ m, l));
        }

    Found : Answer Secret → Type 0
    Found a =
        ((secret : Secret) × (a ≡ ok secret))
        ⊎ ((e : Error) × (a ≡ fail e) × (is_not_found e ≡ true))

    store-Goes :
        (key : NamespacedName) (key_name value : String) (a : Answer Secret)
        (cr : Resource ClientSpec) (x : Option OidcClient) (n : ℕ) (s : State W ClientSpec)
        → Found a
        → At cr x n s
        → Goes
            (store_secret c recorder sdk key key_name value a)
            s
            (λ b t. ((v : Unit {0}) × (b ≡ ok v)) × At cr x n t)
    unfolding store_secret Found
    store-Goes key key_name value (ok secret) cr x n s found h =
        tell-Goes _ _ cr x n s (serving.updates_secret _) h
    store-Goes key key_name value (fail e) cr x n s (inl (secret, f)) h = cc
    store-Goes key key_name value (fail e) cr x n s (inr (e', f, k)) h =
        let missing : is_not_found e ≡ true = cc in
        rw missing (tell-Goes _ _ cr x n s (serving.creates_secret _) h)

    read_secret-Goes :
        (at : NamespacedName) (cr : Resource ClientSpec) (x : Option OidcClient) (n : ℕ)
        (s : State W ClientSpec)
        → At cr x n s
        → Goes (ask (c.get_secret at)) s (λ a t. Found a × At cr x n t)
    unfolding ask Found
    read_secret-Goes at cr x n s (i, r, m, l) =
        let keeps = env.reads_secret at s.world i in
        record {
          value = _;
          after = _;
          runs = refl;
          holds = (serving.reads_secret at s.world i, (keeps.0, keeps.1 ∙ r, keeps.2 ∙ m, l));
        }

    write_secret-Goes :
        (ref : SecretRef) (value : String) (cr : Resource ClientSpec) (x : Option OidcClient)
        (n : ℕ) (s : State W ClientSpec)
        → At cr x n s
        → Goes
            (write_client_secret c recorder sdk cr ref value)
            s
            (λ b t. ((v : Unit {0}) × (b ≡ ok v)) × At cr x n t)
    unfolding write_client_secret
    write_secret-Goes ref value cr x n s h =
        Goes-bind _ _ s (read_secret-Goes (target ref cr.meta.namespace) cr x n s h)
          λ a t (found, g). store-Goes _ _ value a cr x n t found g

    persist-Goes :
        (ref : Option SecretRef) (value : String) (cr : Resource ClientSpec) (x : Option OidcClient)
        (n : ℕ) (s : State W ClientSpec)
        → At cr x n s
        → Goes (persist_secret c recorder sdk cr ref value) s (λ _ t. At cr x n t)
    unfolding persist_secret
    persist-Goes none value cr x n s h = record { value = tt; after = s; runs = refl; holds = h }
    persist-Goes (some ref) value cr x n s h =
        Goes-if (str_eq value "") _ _ s (record { value = tt; after = s; runs = refl; holds = h })
          (Goes-bind _ _ s (write_secret-Goes ref value cr x n s h)
            λ a t ((v, e), g). rw e (record { value = tt; after = t; runs = refl; holds = g }))

    client_kind-Syncs : Syncs env (writes_due cr₀) cr₀.spec
    unfolding client_kind
    client_kind-Syncs cr x n s same h =
        Goes-map _ s (sync-Goes c recorder sdk cr₀ env serving cr x n s same h)
          λ a t (synced, e, (x', n', g, sum, less)). (
            synced,
            e,
            Goes-map _ t (persist-Goes cr.spec.client_secret_ref synced.secret cr x' n' t g)
                λ _ u k. (x', n', k, sum, less),
          )

  at_most : (cr : Resource ClientSpec) (x : Option OidcClient) → writes_due cr x ≤ 2
  at_most cr none = omega arith
  at_most cr (some x) = ground arith

  settled :
      (cr : Resource ClientSpec) (x : Option OidcClient)
      → writes_due cr x ≤ 0
      → (y : OidcClient) × (x ≡ some y) × (client_up_to_date y cr ≡ true)
  settled cr none h = absurd (omega arith)
  settled cr (some x) h = (x, refl, ground arith)

  -- In an environment where no call fails, nobody else writes and the credentials stay as they are,
  -- for a ClavexClient whose resource is in place and is not being deleted: every pass asks for the
  -- next one after the long interval. After two passes or more the live client is there and passes
  -- the test against the spec, at most two calls that change the Admin API were made, and the next
  -- pass makes none.
  pub client_converges :
      {IsSound : W → Type 0} {resource : W → Resource ClientSpec} {live : W → Option OidcClient}
      {key : NamespacedName} {credentials : Credentials} {session : Session}
      (env : Environment c
        (client_kind c recorder sdk)
        IsSound
        resource
        live
        key
        credentials
        session)
      (s : State W ClientSpec)
      (serving : Serving c recorder sdk IsSound resource live session credentials.org_id
        (resource s.world).spec.client_id)
      → IsSound s.world
      → is_deleting (resource s.world) ≡ false
      → (k n : ℕ) → 2 ≤ n
      → let after = passes c (client_kind c recorder sdk) key in
        (outcome_of (reconcile_clavex_client c recorder sdk key (after k s))
          ≡ requeue requeue_interval)
        × ((x : OidcClient) × (live (after n s).world ≡ some x)
            × (client_up_to_date x (resource s.world) ≡ true))
        × (sdk_writes (after n s).log ≤ sdk_writes s.log + 2)
        × (sdk_writes (after (suc n) s).log ≤ sdk_writes (after n s).log)
  unfolding reconcile_clavex_client
  client_converges {resource = resource} {live = live} {key = key} env s serving i stays k n h =
      let cr = resource s.world in
      let syncs = client_kind-Syncs cr env serving in
      let first = converges env (writes_due cr) cr.spec s syncs i refl stays k in
      let (returns, less, sum, stable) =
        converges env (writes_due cr) cr.spec s syncs i refl stays n in
      let after = passes c (client_kind c recorder sdk) key in
      let few = at_most cr (live s.world) in
      let none_due : writes_due cr (live (after n s).world) ≤ 0 = omega (arith, less, few) in
      (
        first.0,
        settled cr (live (after n s).world) none_due,
        omega (arith, sum, few),
        omega (arith, stable, none_due),
      )
