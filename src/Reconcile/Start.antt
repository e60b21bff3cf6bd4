-- ===== src/Reconcile/Start.antt =====
-- The first half of a pass, up to the SDK's client: each part keeps the log lawful.
use clavex_operator.Prelude.{String, true, List, ◌≡◌, refl, inl, inr, arith, ◌&&◌}
use clavex_operator.Api.{
  Answer, ok, fail, Error, is_not_found, NamespacedName, Resource, ConditionStatus, Message,
  is_deleting,
}
use clavex_operator.AuthSecret.{Credentials, resolve_auth_secret}
use clavex_operator.Reconcile.{
  Kind, has_finalizer, fetch, condition, drop_finalizer, finalize_without_client, report_auth_error,
  authenticate, connect_stream, build_client,
}
use clavex_operator.Reconcile.Flow.{Step, ◌>>=◌}
use clavex_operator.Reconcile.Calls.{
  Cluster, State, Event, put_status, ask, tell, clock, get_resource, note_read,
}
use clavex_operator.Reconcile.Triple.{
  Triple, Triple-pure, Triple-leave, Triple-if, Triple-bind, Triple-answer, Triple-weaken,
}
use clavex_operator.Reconcile.Rules.{Triple-ask_keeps, Triple-clock, Triple-on_stream, Triple-tell}
use clavex_operator.Reconcile.Lawful.{Guarded, ReadIn, Resolves, MayRelease, Lawful, Law}

module _ {W Spec : Type 0} (c : Cluster W Spec) (kind : Kind W Spec) where
  module _ (Gone : String → Spec → W → Type 0) where
    abbrev L : List (Event Spec × W) → Type 0
    L = Lawful c kind Gone

    abbrev pub I : State W Spec → Type 0
    I = Law c kind Gone

    -- What a read or written resource tells of the log.
    abbrev pub Seen : Resource Spec → List (Event Spec × W) → Type 0
    Seen cr log = has_finalizer c kind cr ≡ true → Guarded c kind log

    abbrev pub Fetched : Answer (Resource Spec) → State W Spec → Type 0
    Fetched (ok cr) s = I s × Seen cr s.log
    Fetched (fail e) s = I s

    -- A resource as it was just read.
    abbrev pub JustRead : Resource Spec → State W Spec → Type 0
    JustRead cr s = Fetched (ok cr) s × ReadIn c kind s.log cr.spec cr.meta.namespace s.world

    abbrev Answered : Answer (Resource Spec) → State W Spec → Type 0
    Answered (ok cr) s = JustRead cr s
    Answered (fail e) s = I s

    note_read-Fetched : (a : Answer (Resource Spec)) → Triple I (note_read a) Answered I
    note_read-Fetched (ok cr) = record {
      at = λ s p. (((tt, p), λ h. inl h), inl (refl, refl, refl));
    }
    note_read-Fetched (fail e) = record { at = λ s p. p }

    get_resource-Fetched : (key : NamespacedName) → Triple I (get_resource c key) Answered I
    unfolding get_resource
    get_resource-Fetched key =
        Triple-bind (λ a. I) (ask (c.get key)) note_read (Triple-ask_keeps L (c.get key))
          note_read-Fetched

    pub fetch-Fetched : (key : NamespacedName) → Triple I (fetch c kind key) JustRead I
    unfolding fetch
    fetch-Fetched key = Triple-bind Answered (get_resource c key) _ (get_resource-Fetched key) λ a.
        Triple-answer Answered a _ _ (λ cr. Triple-pure cr (λ s p. p))
          λ e.
            Triple-if (is_not_found e) _ _ (λ _. Triple-leave _ (λ s p. p))
              (λ _. Triple-leave _ (λ s p. p))

    -- A step that never goes on may stand before anything.
    stops :
        {A : Type 0} (Q : A → State W Spec → Type 0) (P : State W Spec → Type 0)
        (m : Step (State W Spec) ⊥)
        → Triple P m (λ x. I) I
        → Triple P (m >>= absurd) Q I
    stops Q P m t = Triple-bind (λ x. I) m absurd t (λ x. absurd x)

    pub condition-I :
        (type : String) (status : ConditionStatus) (reason : String) (m : Message)
        (cr : Resource Spec)
        → Triple I (condition c kind type status reason m cr) (λ a. I) I
    unfolding condition
    condition-I type status reason m cr =
        Triple-bind (λ a. I) (clock c) _ (Triple-clock L c) (λ now. Triple-pure _ (λ s p. p))

    pub put_status-I :
        (cr : Resource Spec) → Triple I (tell (put_status cr) (c.update_status cr)) (λ a. I) I
    put_status-I cr = Triple-tell (λ _. L) (put_status cr) (c.update_status cr) (λ s b p. (tt, p))

    pub drop_finalizer-I :
        (cr : Resource Spec)
        → Triple
            (λ s. I s × MayRelease c kind Gone cr s.world s.log)
            (drop_finalizer c kind cr)
            (λ x. I)
            I
    unfolding drop_finalizer
    drop_finalizer-I cr =
        Triple-bind (λ a. I) _ _ (Triple-tell (λ _. L) _ _ (λ s b p. (inr p.1, p.0)))
          λ a.
            Triple-answer (λ _. I) a _ _ (λ r. Triple-leave _ (λ s p. p))
              (λ e. Triple-leave _ (λ s p. p))

    finalize_without_client-I :
        (cr : Resource Spec) (e : Error)
        → kind.releases_without_secret ≡ true
        → Triple
            (λ s. I s × Resolves c kind cr s.log (fail e))
            (finalize_without_client c kind cr)
            (λ x. I)
            I
    unfolding finalize_without_client
    finalize_without_client-I cr e h =
        Triple-if (has_finalizer c kind cr) _ _
          (λ _. Triple-weaken _ (λ s p. (p.0, inr (e, p.1, h))) (drop_finalizer-I cr))
          (λ _. Triple-leave _ (λ s p. p.0))

    report_auth_error-I :
        (cr : Resource Spec) (e : Error) → Triple I (report_auth_error c kind cr e) (λ x. I) I
    unfolding report_auth_error
    report_auth_error-I cr e =
        Triple-bind (λ a. I) _ _ (condition-I _ _ _ _ cr)
          λ cr'. Triple-bind (λ a. I) _ _ (put_status-I cr') (λ a. Triple-leave _ (λ s p. p))

    -- After the resource's reference was resolved, by the answer.
    abbrev Resolved : Resource Spec → Answer Credentials → State W Spec → Type 0
    Resolved cr a s = Fetched (ok cr) s × Resolves c kind cr s.log a

    abbrev pub Authenticated : Resource Spec → Credentials → State W Spec → Type 0
    Authenticated cr credentials = Resolved cr (ok credentials)

    ask-Resolved :
        (cr : Resource Spec)
        → Triple
            (JustRead cr)
            (ask
              (resolve_auth_secret c.get_secret (kind.auth_secret_ref cr.spec) cr.meta.namespace))
            (Resolved cr)
            I
    unfolding ask
    ask-Resolved cr = record { at = λ s p. (p.0, (s.world, p.1, refl)) }

    pub authenticate-Authenticated :
        (cr : Resource Spec) → Triple (JustRead cr) (authenticate c kind cr) (Authenticated cr) I
    unfolding authenticate
    authenticate-Authenticated cr = Triple-bind (Resolved cr) _ _ (ask-Resolved cr) λ a.
        Triple-answer (Resolved cr) a _ _ (λ x. Triple-pure x (λ s p. p))
          λ e.
            Triple-if _ _ _
              (λ h.
                stops (Authenticated cr) _ _
                  (Triple-weaken _ (λ s p. (p.0.0, p.1)) (finalize_without_client-I cr e (both h))))
              (λ h.
                stops (Authenticated cr) _ _
                  (Triple-weaken _ (λ s p. p.0.0) (report_auth_error-I cr e)))
      where
        both :
            (kind.releases_without_secret && is_deleting cr) ≡ true
            → kind.releases_without_secret ≡ true
        both h = ground arith

    module _ (cr : Resource Spec) (x : Credentials) where
      abbrev Known : List (Event Spec × W) → Type 0
      Known log = (L log × Seen cr log) × Resolves c kind cr log (ok x)

      pub connect_stream-Authenticated :
          Triple (Authenticated cr x) (connect_stream c kind cr x) (λ _. Authenticated cr x) I
      unfolding connect_stream
      connect_stream-Authenticated = Triple-on_stream Known _

      pub build_client-Authenticated :
          Triple (Authenticated cr x) (build_client c kind x) (λ _. Authenticated cr x) I
      unfolding build_client
      build_client-Authenticated =
          Triple-bind (λ a. Authenticated cr x) _ _ (Triple-ask_keeps Known _)
            λ a.
              Triple-answer (λ _. Authenticated cr x) a _ _ (λ r. Triple-pure r (λ s p. p))
                (λ e. Triple-leave _ (λ s p. p.0.0))
