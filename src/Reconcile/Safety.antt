-- ===== src/Reconcile/Safety.antt =====
-- Every reconcile pass is lawful: a proof for each part of the method, and for the whole.
use clavex_operator.Prelude.{String, Bool, true, List, Option, ◌≡◌, refl, inl, inr}
use clavex_operator.Api.{Answer, ok, fail, Error, NamespacedName, Resource, is_deleting}
use clavex_operator.AuthSecret.{Credentials}
use clavex_operator.Reconcile.{
  Kind, Synced, has_finalizer, finalize, ensure_finalizer, report_failure, report_success, converge,
  reconcile,
}
use clavex_operator.Stream.Pool.{Pool}
use clavex_operator.Reconcile.Flow.{Flow, next, exit, Step, state_of}
use clavex_operator.Reconcile.Calls.{
  Cluster, State, start, Session, Event, get_resource, note_read, succeeded,
}
use clavex_operator.Reconcile.Triple.{
  Triple, Ends, Triple-pure, Triple-leave, Triple-if, Triple-bind, Triple-answer, Triple-weaken,
  Triple-both,
}
use clavex_operator.Reconcile.Rules.{Triple-ask_keeps, Triple-clock, Triple-tell}
use clavex_operator.Reconcile.Lawful.{
  FinalizerLaws, Guarded, Resolves, Lawful, Ready, Law, ReadyLaw, KindLaws,
}
use clavex_operator.Reconcile.Start.{
  Fetched, JustRead, Authenticated, condition-I, put_status-I, drop_finalizer-I, fetch-Fetched,
  authenticate-Authenticated, connect_stream-Authenticated, build_client-Authenticated,
}

module _ {W Spec : Type 0} (c : Cluster W Spec) (kind : Kind W Spec) where
  module _ (Gone : String → Spec → W → Type 0) where
    abbrev L : List (Event Spec × W) → Type 0
    L = Lawful c kind Gone

    abbrev I : State W Spec → Type 0
    I = Law c kind Gone

    note_read-Ready :
        (a : Answer (Resource Spec))
        → Triple (ReadyLaw c kind Gone) (note_read a) (λ _. ReadyLaw c kind Gone) I
    note_read-Ready (ok cr) = record { at = λ s p. ((tt, p.0), inr p.1) }
    note_read-Ready (fail e) = record { at = λ s p. p }

    get_resource-Ready :
        (key : NamespacedName)
        → Triple (ReadyLaw c kind Gone) (get_resource c key) (λ _. ReadyLaw c kind Gone) I
    unfolding get_resource
    get_resource-Ready key =
        Triple-bind (λ a. ReadyLaw c kind Gone) _ note_read
          (Triple-ask_keeps (Ready c kind Gone) (c.get key)) note_read-Ready

    -- What the log shows after the finalizer was written.
    abbrev Added : Bool → List (Event Spec × W) → Type 0
    Added b log = L log × (b ≡ true → Guarded c kind log)

    after_add :
        (a : Answer (Resource Spec)) (m : Resource Spec → Step (State W Spec) (Resource Spec))
        (n : Error → Step (State W Spec) (Resource Spec))
        → ((r : Resource Spec) → Triple (ReadyLaw c kind Gone) (m r) (λ _. ReadyLaw c kind Gone) I)
        → ((e : Error) → Triple I (n e) (λ _. ReadyLaw c kind Gone) I)
        → Triple
            (λ s. Added (succeeded a) s.log)
            (elim a [ fail e ↦ n e | ok r ↦ m r ])
            (λ _. ReadyLaw c kind Gone)
            I
    after_add (ok r) m n hm hn = Triple-weaken _ (λ s p. (p.0, p.1 refl)) (hm r)
    after_add (fail e) m n hm hn = Triple-weaken _ (λ s p. p.0) (hn e)

    ended : (x : Flow (State W Spec) ⊥) → Ends (λ _. I) I x → I (state_of x)
    ended (next a s) h = h
    ended (exit o s) h = h

    module _ (laws : FinalizerLaws c) where
      ensure_finalizer-Ready :
          (key : NamespacedName) (cr : Resource Spec)
          → Triple
              (Fetched c kind Gone (ok cr))
              (ensure_finalizer c kind key cr)
              (λ _. ReadyLaw c kind Gone)
              I
      unfolding ensure_finalizer
      ensure_finalizer-Ready key cr =
          Triple-if (has_finalizer c kind cr) _ _ (λ h. Triple-pure cr (λ s p. (p.0, p.1 h)))
            λ _.
              Triple-bind (λ a s. Added (succeeded a) s.log) _ _
                (Triple-tell Added _ _ (λ s b p. ((inl added, p.0), λ h. inl (added, h))))
                λ a.
                  after_add a _ _
                    (λ r.
                      Triple-bind (λ b. ReadyLaw c kind Gone) _ _ (get_resource-Ready key)
                        λ b.
                          Triple-answer (λ _. ReadyLaw c kind Gone) b _ _
                            (λ fresh. Triple-pure fresh (λ s p. p))
                            (λ e. Triple-leave _ (λ s p. p.0)))
                    (λ e. Triple-leave _ (λ s p. p))
        where
          added :
              c.contains_finalizer kind.finalizer
                (c.add_finalizer kind.finalizer cr.meta.finalizers)
              ≡ true
          added = laws.contains_add kind.finalizer cr.meta.finalizers

      module _ (own : KindLaws c kind Gone) where
        finalize-I :
            (session : Session) (x : Credentials) (cr : Resource Spec)
            → Triple
                (Authenticated c kind Gone cr x)
                (finalize c kind session x.org_id cr)
                (λ _. I)
                I
        unfolding finalize
        finalize-I session x cr =
            Triple-if (has_finalizer c kind cr) _ _
              (λ h.
                Triple-weaken _ (λ s p. ((p.0.0, p.0.1 h), p.1))
                  (Triple-bind
                    (λ _ s. (I s × Gone x.org_id cr.spec s.world) × Resolves c kind cr s.log (ok x))
                    _ _
                    (Triple-both _ (own.delete_remote_gone session x.org_id cr) (
                      own.delete_remote_adds session x.org_id cr
                        (λ log. Resolves c kind cr log (ok x))
                        (λ m b w log r. (r.0, inr r.1, r.2))))
                    λ _.
                      Triple-weaken _ (λ s p. (p.0.0, inl (x, p.1, p.0.1)))
                        (drop_finalizer-I c kind Gone cr)))
              (λ _. Triple-leave _ (λ s p. p.0.0))

        report_failure-I :
            (cr : Resource Spec) (e : Error) → Triple I (report_failure c kind cr e) (λ _. I) I
        unfolding report_failure
        report_failure-I cr e =
            Triple-bind (λ _. I) _ _ (condition-I c kind Gone _ _ _ _ cr)
              λ cr₁.
                Triple-bind (λ _. I) _ _ (condition-I c kind Gone _ _ _ _ cr₁)
                  λ cr₂.
                    Triple-bind (λ _. I) _ _ (put_status-I c kind Gone cr₂)
                      (λ a. Triple-leave _ (λ s p. p))

        report_success-I :
            (cr : Resource Spec) (synced : Synced)
            → Triple I (report_success c kind cr synced) (λ _. I) I
        unfolding report_success
        report_success-I cr synced =
            Triple-bind (λ _. I) _ _ (own.after_sync_lawful cr synced)
              λ _.
                Triple-bind (λ _. I) _ _ (Triple-clock L c)
                  λ now.
                    Triple-bind (λ _. I) _ _ (condition-I c kind Gone _ _ _ _ _)
                      λ cr₂.
                        Triple-bind (λ _. I) _ _ (condition-I c kind Gone _ _ _ _ cr₂)
                          λ cr₃.
                            Triple-bind (λ _. I) _ _ (put_status-I c kind Gone cr₃)
                              λ a.
                                Triple-answer (λ _. I) a _ _ (λ _. Triple-leave _ (λ s p. p))
                                  (λ e. Triple-leave _ (λ s p. p))

        converge-I :
            (session : Session) (org_id : String) (cr : Resource Spec)
            → Triple (ReadyLaw c kind Gone) (converge c kind session org_id cr) (λ _. I) I
        unfolding converge
        converge-I session org_id cr =
            Triple-bind (λ _. I) _ _ (own.sync_lawful session org_id cr)
              λ a. Triple-answer (λ _. I) a _ _ (report_success-I cr) (report_failure-I cr)

        reconcile-I : (key : NamespacedName) → Triple I (reconcile c kind key) (λ _. I) I
        unfolding reconcile
        reconcile-I key =
            Triple-bind (JustRead c kind Gone) _ _ (fetch-Fetched c kind Gone key) λ cr.
              Triple-bind (Authenticated c kind Gone cr) _ _
                (authenticate-Authenticated c kind Gone cr)
                λ x.
                  Triple-bind (λ _. Authenticated c kind Gone cr x) _ _
                    (connect_stream-Authenticated c kind Gone cr x)
                    λ _.
                      Triple-bind (λ _. Authenticated c kind Gone cr x) _ _
                        (build_client-Authenticated c kind Gone cr x)
                        λ session.
                          Triple-if (is_deleting cr) _ _ (λ _. finalize-I session x cr)
                            (λ _.
                              Triple-bind (λ _. ReadyLaw c kind Gone) _ _
                                (Triple-weaken _ (λ s p. p.0) (ensure_finalizer-Ready key cr))
                                λ cr'. converge-I session x.org_id cr')

        -- Every pass, from any state of the world and whatever the calls answer, is lawful.
        pub reconcile-Lawful :
            (key : NamespacedName) (w : W) (stream : Option Pool)
            → Lawful c kind Gone (state_of (reconcile c kind key (start w stream))).log
        reconcile-Lawful key w stream =
            ended (reconcile c kind key (start w stream)) ((reconcile-I key).at (start w stream) tt)
