-- ===== src/Reconcile/Steps.antt =====
-- The steps of `Reconcile` in an environment where nothing fails and nobody else writes.
use clavex_operator.Prelude.{
  ℕ, String, Bool, true, false, ◌∷◌, ◌≡◌, refl, sym, ap, ◌∙◌, if◌then◌else◌,
}
use clavex_operator.Conditions.{set_condition}
use clavex_operator.Api.{
  ok, fail, ConditionStatus, Message, wrapped, NamespacedName, Resource, is_deleting,
}
use clavex_operator.AuthSecret.{Credentials, resolve_auth_secret, target}
use clavex_operator.Reconcile.{
  Kind, condition, fetch, authenticate, connect_stream, build_client, ensure_finalizer,
  has_finalizer, with_finalizers,
}
use clavex_operator.Reconcile.Flow.{pure, leave, failed, ◌>>=◌}
use clavex_operator.Reconcile.Goes.{Goes, Goes-bind, succeeded-ok}
use clavex_operator.Reconcile.Calls.{
  Cluster, State, Session, read_resource, put_resource, put_status, succeeded, ask, tell, clock,
  get_resource, on_stream,
}
use clavex_operator.Reconcile.Environment.{sdk_writes, Stores, Environment, Stands}

module _ {W Spec Remote : Type 0} {c : Cluster W Spec} {kind : Kind W Spec} {IsSound : W → Type 0}
    {resource : W → Resource Spec} {remote : W → Remote} {key : NamespacedName}
    {credentials : Credentials} {session : Session}
    (env : Environment c kind IsSound resource remote key credentials session) where
  get_resource-Goes :
      (cr : Resource Spec) (x : Remote) (n : ℕ) (s : State W Spec)
      → Stands env cr x n s
      → Goes (get_resource c key) s (λ a t. (a ≡ ok cr) × Stands env cr x n t)
  unfolding get_resource ask sdk_writes
  get_resource-Goes cr x n s (i, r, m, l) =
      let (e, keeps) = env.gets s.world i in
      record {
        value = ok (resource s.world);
        after = record s {
          world = (c.get key s.world).1;
          log = (read_resource (resource s.world), (c.get key s.world).1) ∷ s.log;
        };
        runs = rw e refl;
        holds = (ap ok r, (keeps.0, keeps.1 ∙ r, keeps.2 ∙ m, l));
      }

  pub fetch-Goes :
      (cr : Resource Spec) (x : Remote) (n : ℕ) (s : State W Spec)
      → Stands env cr x n s
      → Goes (fetch c kind key) s (λ a t. (a ≡ cr) × Stands env cr x n t)
  unfolding fetch
  fetch-Goes cr x n s h =
      Goes-bind _ _ s (get_resource-Goes cr x n s h)
        λ a t (e, g). rw e (record { value = cr; after = t; runs = refl; holds = (refl, g) })

  pub authenticate-Goes :
      (cr : Resource Spec) (x : Remote) (n : ℕ) (s : State W Spec)
      → Stands env cr x n s
      → Goes (authenticate c kind cr) s (λ a t. (a ≡ credentials) × Stands env cr x n t)
  unfolding authenticate ask resolve_auth_secret
  authenticate-Goes cr x n s (i, r, m, l) =
      let keeps =
        env.reads_secret (target (kind.auth_secret_ref cr.spec) cr.meta.namespace) s.world i in
      record {
        value = credentials;
        after = record s {
          world =
              (resolve_auth_secret c.get_secret (kind.auth_secret_ref cr.spec) cr.meta.namespace
                s.world).1;
        };
        runs = rw (resolves cr s.world i r) refl;
        holds = (refl, (keeps.0, keeps.1 ∙ r, keeps.2 ∙ m, l));
      }
    where
      resolves :
          (cr : Resource Spec) (w : W)
          → IsSound w
          → resource w ≡ cr
          → (resolve_auth_secret c.get_secret (kind.auth_secret_ref cr.spec) cr.meta.namespace w).0
            ≡ ok credentials
      resolves cr w i r = rw (sym r) (env.resolves w i)

  pub connect_stream-Goes :
      (cr : Resource Spec) (x : Remote) (n : ℕ) (s : State W Spec)
      → Stands env cr x n s
      → Goes (connect_stream c kind cr credentials) s (λ a t. Stands env cr x n t)
  unfolding connect_stream on_stream
  connect_stream-Goes cr x n s h = record { value = tt; after = _; runs = refl; holds = h }

  pub build_client-Goes :
      (cr : Resource Spec) (x : Remote) (n : ℕ) (s : State W Spec)
      → Stands env cr x n s
      → Goes (build_client c kind credentials) s (λ a t. (a ≡ session) × Stands env cr x n t)
  unfolding build_client ask
  build_client-Goes cr x n s (i, r, m, l) =
      let (e, keeps) = env.builds s.world i in
      record {
        value = session;
        after = record s { world = (c.new_client credentials.api_key s.world).1 };
        runs = rw e refl;
        holds = (refl, (keeps.0, keeps.1 ∙ r, keeps.2 ∙ m, l));
      }

  pub clock-Goes :
      (cr : Resource Spec) (x : Remote) (n : ℕ) (s : State W Spec)
      → Stands env cr x n s
      → Goes (clock c) s (λ a t. Stands env cr x n t)
  unfolding clock ask
  clock-Goes cr x n s (i, r, m, l) =
      let keeps = env.tells_time s.world i in
      record {
        value = (c.now s.world).0;
        after = record s { world = (c.now s.world).1 };
        runs = refl;
        holds = (keeps.0, keeps.1 ∙ r, keeps.2 ∙ m, l);
      }

  -- The resource with or without its finalizer; its spec and the mark of its deletion are kept.
  abbrev pub IsSame : Resource Spec → Resource Spec → Type 0
  IsSame cr cr' = (cr'.spec ≡ cr.spec) × (is_deleting cr' ≡ is_deleting cr)

  add_finalizer-Goes :
      (cr : Resource Spec) (x : Remote) (n : ℕ) (s : State W Spec)
      → Stands env cr x n s
      → let cr' = with_finalizers c kind (c.add_finalizer kind.finalizer cr.meta.finalizers) cr in
        Goes
          (tell (put_resource cr') (c.update cr'))
          s
          (λ a t. ((stored : Resource Spec) × (a ≡ ok stored)) × Stands env cr' x n t)
  unfolding tell sdk_writes
  add_finalizer-Goes cr x n s (i, r, m, l) =
      let cr' = with_finalizers c kind (c.add_finalizer kind.finalizer cr.meta.finalizers) cr in
      let (took, (sound, stored, same)) = updates cr i r in
      record {
        value = (c.update cr' s.world).0;
        after = record s {
          world = (c.update cr' s.world).1;
          log = (put_resource cr' (succeeded (c.update cr' s.world).0), s.world) ∷ s.log;
        };
        runs = refl;
        holds = (succeeded-ok _ took, (sound, stored, same ∙ m, l));
      }
    where
      updates :
          (cr : Resource Spec)
          → IsSound s.world
          → resource s.world ≡ cr
          → let cr' =
              with_finalizers c kind (c.add_finalizer kind.finalizer cr.meta.finalizers) cr in
            (succeeded (c.update cr' s.world).0 ≡ true)
            × Stores c kind IsSound resource remote s.world (c.update cr' s.world).1 cr'
      updates cr i r = rw (sym r) (env.updates s.world _ i)

  pub ensure_finalizer-Goes :
      (cr : Resource Spec) (x : Remote) (n : ℕ) (s : State W Spec)
      → Stands env cr x n s
      → Goes (ensure_finalizer c kind key cr) s (λ a t. IsSame cr a × Stands env a x n t)
  unfolding ensure_finalizer
  ensure_finalizer-Goes cr x n s h = by_test (has_finalizer c kind cr)
    where
      cr' : Resource Spec
      cr' = with_finalizers c kind (c.add_finalizer kind.finalizer cr.meta.finalizers) cr

      by_test :
          (b : Bool)
          → Goes
              (if b then pure cr else do
                answer ← tell (put_resource cr') (c.update cr')
                elim answer [
                  | fail e ↦ leave (failed (wrapped "adding finalizer" e))
                  | ok stored ↦ do
                    again ← get_resource c key
                    elim again [
                      | ok fresh ↦ pure fresh
                      | fail e ↦ leave (failed (wrapped kind.refetch_error e))
                    ]
                ])
              s
              (λ a t. IsSame cr a × Stands env a x n t)
      by_test true = record { value = cr; after = s; runs = refl; holds = ((refl, refl), h) }
      by_test false = Goes-bind _ _ s (add_finalizer-Goes cr x n s h) λ a t ((stored, e), g). rw e (
          Goes-bind _ _ t (get_resource-Goes cr' x n t g) λ again u (e', g').
            rw e' (record { value = cr'; after = u; runs = refl; holds = ((refl, refl), g') }))

  pub condition-Goes :
      (type : String) (status : ConditionStatus) (reason : String) (message : Message)
      (cr cr' : Resource Spec) (x : Remote) (n : ℕ) (s : State W Spec)
      → Stands env cr x n s
      → Goes
          (condition c kind type status reason message cr')
          s
          (λ a t. ((a.meta ≡ cr'.meta) × (a.spec ≡ cr'.spec)) × Stands env cr x n t)
  unfolding condition set_condition
  condition-Goes type status reason message cr cr' x n s h =
      Goes-bind _ _ s (clock-Goes cr x n s h)
        λ now t g. record { value = _; after = t; runs = refl; holds = ((refl, refl), g) }

  pub put_status-Goes :
      (cr cr' : Resource Spec) (x : Remote) (n : ℕ) (s : State W Spec)
      → Stands env cr x n s
      → cr'.meta ≡ cr.meta
      → cr'.spec ≡ cr.spec
      → Goes
          (tell (put_status cr') (c.update_status cr'))
          s
          (λ a t. ((stored : Resource Spec) × (a ≡ ok stored)) × Stands env cr' x n t)
  unfolding tell sdk_writes
  put_status-Goes cr cr' x n s (i, r, m, l) e f =
      let (took, (sound, stored, same)) =
        env.updates_status s.world cr' i (e ∙ ap (λ a. a.meta) (sym r))
          (f ∙ ap (λ a. a.spec) (sym r)) in
      record {
        value = (c.update_status cr' s.world).0;
        after = record s {
          world = (c.update_status cr' s.world).1;
          log = (put_status cr' (succeeded (c.update_status cr' s.world).0), s.world) ∷ s.log;
        };
        runs = refl;
        holds = (succeeded-ok _ took, (sound, stored, same ∙ m, l));
      }
