-- ===== src/Reconcile/Converges.antt =====
-- Passes over one resource in an environment where nothing fails and nobody else writes.
use clavex_operator.Prelude.{
  ℕ, zero, suc, ◌+◌, ◌-◌, ◌≤◌, Bool, true, false, ◌≡◌, refl, ap, ◌∙◌, arith, if◌then◌else◌,
}
use clavex_operator.Api.{ok, NamespacedName, Resource, is_deleting}
use clavex_operator.AuthSecret.{Credentials}
use clavex_operator.Reconcile.{
  Kind, Synced, ensure_finalizer, finalize, report_success, converge, reconcile, requeue_interval,
}
use clavex_operator.Reconcile.Flow.{Flow, state_of, outcome_of, requeue, ◌>>=◌}
use clavex_operator.Reconcile.Goes.{Goes, Returns, Returns-bind, Returns-known}
use clavex_operator.Reconcile.Calls.{Cluster, State, Session}
use clavex_operator.Reconcile.Environment.{sdk_writes, Environment, Stands}
use clavex_operator.Reconcile.Steps.{
  IsSame, fetch-Goes, authenticate-Goes, connect_stream-Goes, build_client-Goes, clock-Goes,
  ensure_finalizer-Goes, condition-Goes, put_status-Goes,
}

module _ {W Spec : Type 0} (c : Cluster W Spec) (kind : Kind W Spec) (key : NamespacedName) where
  -- The state after so many passes.
  unfoldable pub passes : ℕ → State W Spec → State W Spec
  passes zero s = s
  passes (suc n) s = state_of (reconcile c kind key (passes n s))

module _ {W Spec Remote : Type 0} {c : Cluster W Spec} {kind : Kind W Spec} {IsSound : W → Type 0}
    {resource : W → Resource Spec} {remote : W → Remote} {key : NamespacedName}
    {credentials : Credentials} {session : Session}
    (env : Environment c kind IsSound resource remote key credentials session) where
  abbrev At : Resource Spec → Remote → ℕ → State W Spec → Type 0
  At = Stands env

  module _ (debt : Remote → ℕ) (spec : Spec) where
    -- Fewer writes are due than before, unless none was, and no more were made than that.
    abbrev pub Advances : Resource Spec → Remote → ℕ → State W Spec → Type 0
    Advances cr x n s =
        (x' : Remote) × (n' : ℕ) × At cr x' n' s
        × (debt x' + n' ≤ debt x + n)
        × (debt x' ≤ debt x - 1)

    -- What is asked of the kind: with the spec in place, its sync succeeds and what follows it
    -- goes on, and the two advance.
    abbrev pub Syncs : Type 0
    Syncs =
        (cr : Resource Spec) (x : Remote) (n : ℕ) (s : State W Spec)
        → cr.spec ≡ spec
        → At cr x n s
        → Goes (kind.sync session credentials.org_id cr) s (λ a t.
          (synced : Synced) × (a ≡ ok synced)
          × Goes (kind.after_sync cr synced) t (λ _ u. Advances cr x n u))

    report_success-Returns :
        (cr : Resource Spec) (synced : Synced) (x : Remote) (n : ℕ) (s : State W Spec)
        → Goes (kind.after_sync cr synced) s (λ _ u. Advances cr x n u)
        → Returns
            (report_success c kind cr synced)
            s
            (requeue requeue_interval)
            (λ t. (cr' : Resource Spec) × IsSame env cr cr' × Advances cr' x n t)
    unfolding report_success
    report_success-Returns cr synced x n s g =
        Returns-bind _ _ s g λ _ t (x', n', stands, sum, less).
          Returns-bind _ _ t (clock-Goes env cr x' n' t stands) λ now u h₁.
            Returns-bind _ _ u (condition-Goes env _ _ _ _ cr _ x' n' u h₁) λ cr₂ v ((m₂, e₂), h₂).
              Returns-bind _ _ v (condition-Goes env _ _ _ _ cr cr₂ x' n' v h₂)
                λ cr₃ w ((m₃, e₃), h₃).
                  Returns-bind _ _ w (put_status-Goes env cr cr₃ x' n' w h₃ (m₃ ∙ m₂) (e₃ ∙ e₂))
                    λ a y ((stored, e), h₄). rw e (record {
                      after = y;
                      runs = refl;
                      holds = (
                        cr₃,
                        (e₃ ∙ e₂, ap (λ m. is_deleting (record cr { meta = m })) (m₃ ∙ m₂)),
                        (x', n', h₄, sum, less),
                      );
                    })

    converge-Returns :
        (cr : Resource Spec) (x : Remote) (n : ℕ) (s : State W Spec)
        → Syncs
        → cr.spec ≡ spec
        → At cr x n s
        → Returns
            (converge c kind session credentials.org_id cr)
            s
            (requeue requeue_interval)
            (λ t. (cr' : Resource Spec) × IsSame env cr cr' × Advances cr' x n t)
    unfolding converge
    converge-Returns cr x n s syncs e h =
        Returns-bind _ _ s (syncs cr x n s e h)
          λ a t (synced, e', g). rw e' (report_success-Returns cr synced x n t g)

    -- A pass over a resource that is not being deleted: it asks for the next one after the long
    -- interval, and advances.
    pub reconcile-Returns :
        (cr : Resource Spec) (x : Remote) (n : ℕ) (s : State W Spec)
        → Syncs
        → cr.spec ≡ spec
        → is_deleting cr ≡ false
        → At cr x n s
        → Returns
            (reconcile c kind key)
            s
            (requeue requeue_interval)
            (λ t. (cr' : Resource Spec) × IsSame env cr cr' × Advances cr' x n t)
    unfolding reconcile
    reconcile-Returns cr x n s syncs same stays h =
        Returns-known _ _ s cr (fetch-Goes env cr x n s h) λ s₁ h₁.
          Returns-known _ _ s₁ credentials (authenticate-Goes env cr x n s₁ h₁) λ s₂ h₂.
            Returns-bind _ _ s₂ (connect_stream-Goes env cr x n s₂ h₂) λ _ s₃ h₃.
              Returns-known _ _ s₃ session (build_client-Goes env cr x n s₃ h₃)
                λ s₄ h₄. in_place (is_deleting cr) stays s₄ h₄
      where
        kept :
            (cr cr' : Resource Spec) (x : Remote) (n : ℕ) (s : State W Spec)
            → cr'.spec ≡ cr.spec
            → is_deleting cr' ≡ is_deleting cr
            → Returns
                (converge c kind session credentials.org_id cr')
                s
                (requeue requeue_interval)
                (λ t. (a : Resource Spec) × IsSame env cr' a × Advances a x n t)
            → Returns
                (converge c kind session credentials.org_id cr')
                s
                (requeue requeue_interval)
                (λ t. (a : Resource Spec) × IsSame env cr a × Advances a x n t)
        kept cr cr' x n s f d r =
            let (a, (g, e), rest) = r.holds in
            record { after = r.after; runs = r.runs; holds = (a, (g ∙ f, e ∙ d), rest) }

        in_place :
            (b : Bool)
            → b ≡ false
            → (t : State W Spec) → At cr x n t
            → Returns
                (if b then finalize c kind session credentials.org_id cr else do
                  cr' ← ensure_finalizer c kind key cr
                  converge c kind session credentials.org_id cr')
                t
                (requeue requeue_interval)
                (λ u. (cr' : Resource Spec) × IsSame env cr cr' × Advances cr' x n u)
        in_place true e t g = cc
        in_place false e t g =
            Returns-bind _ _ t (ensure_finalizer-Goes env cr x n t g) λ cr' u ((f, d), k).
              kept cr cr' x n u f d (converge-Returns cr' x n u syncs (f ∙ same) k)

    abbrev pub due : State W Spec → ℕ
    due s = debt (remote s.world)

    record Reached (s : State W Spec) (n : ℕ) (t : State W Spec) : Type 0 where
      cr : Resource Spec
      stands : At cr (remote t.world) (sdk_writes t.log) t
      same : cr.spec ≡ spec
      stays : is_deleting cr ≡ false
      sum : due t + sdk_writes t.log ≤ due s + sdk_writes s.log
      less : due t ≤ due s - n

    -- What one more pass returns, and leaves.
    record Passed (t : State W Spec) (x : Flow (State W Spec) ⊥) : Type 0 where
      returns : outcome_of x ≡ requeue requeue_interval
      next_cr : Resource Spec
      reached : At next_cr (remote (state_of x).world) (sdk_writes (state_of x).log) (state_of x)
      same : next_cr.spec ≡ spec
      stays : is_deleting next_cr ≡ false
      sum : due (state_of x) + sdk_writes (state_of x).log ≤ due t + sdk_writes t.log
      less : due (state_of x) ≤ due t - 1

    reconcile-Passed :
        (cr : Resource Spec) (t : State W Spec)
        → Syncs
        → cr.spec ≡ spec
        → is_deleting cr ≡ false
        → At cr (remote t.world) (sdk_writes t.log) t
        → Passed t (reconcile c kind key t)
    reconcile-Passed cr t syncs same stays h =
        let r = reconcile-Returns cr (remote t.world) (sdk_writes t.log) t syncs same stays h in
        let (cr', (e, d), (x', n', (i, stored, m, l), sum, less)) = r.holds in
        rw r.runs (record {
          returns = refl;
          next_cr = cr';
          reached = (i, stored, refl, refl);
          same = e ∙ same;
          stays = d ∙ stays;
          sum = rw m (rw l sum);
          less = rw m less;
        })

    reached :
        (s : State W Spec) (cr : Resource Spec)
        → Syncs
        → cr.spec ≡ spec
        → is_deleting cr ≡ false
        → At cr (remote s.world) (sdk_writes s.log) s
        → (n : ℕ) → Reached s n (passes c kind key n s)
    unfolding passes
    reached s cr syncs same stays h zero = record {
      cr = cr;
      stands = h;
      same = same;
      stays = stays;
      sum = omega arith;
      less = omega arith;
    }
    reached s cr syncs same stays h (suc n) =
        let r = reached s cr syncs same stays h n in
        let p = reconcile-Passed r.cr (passes c kind key n s) syncs r.same r.stays r.stands in
        record {
          cr = p.next_cr;
          stands = p.reached;
          same = p.same;
          stays = p.stays;
          sum = omega (arith, p.sum, r.sum);
          less = omega (arith, p.less, r.less);
        }

    -- After `n` passes: the next one asks for another after the long interval, as every pass does.
    abbrev pub Converging : State W Spec → ℕ → Type 0
    Converging s n =
        let t = passes c kind key n s in
        let next = passes c kind key (suc n) s in
        (outcome_of (reconcile c kind key t) ≡ requeue requeue_interval)
        × (due t ≤ due s - n)
        × (due t + sdk_writes t.log ≤ due s + sdk_writes s.log)
        × (due next + sdk_writes next.log ≤ due t + sdk_writes t.log)

    pub converges :
        (s : State W Spec)
        → Syncs
        → IsSound s.world
        → (resource s.world).spec ≡ spec
        → is_deleting (resource s.world) ≡ false
        → (n : ℕ) → Converging s n
    unfolding passes
    converges s syncs i same stays n =
        let r = reached s (resource s.world) syncs same stays (i, refl, refl, refl) n in
        let p = reconcile-Passed r.cr (passes c kind key n s) syncs r.same r.stays r.stands in
        (p.returns, r.less, r.sum, p.sum)
