-- ===== src/Client/Laws.antt =====
-- What a pass over a ClavexClient guarantees.
use clavex_operator.Prelude.{String, Bool, true, List, Option, none, some, ◌≡◌, refl, str_eq}
use clavex_operator.Api.{Answer, ok, fail, is_not_found, SecretRef, NamespacedName, Resource}
use clavex_operator.AuthSecret.{Secret}
use clavex_operator.Stream.Pool.{Pool}
use clavex_operator.Reconcile.{Kind}
use clavex_operator.Reconcile.Flow.{state_of}
use clavex_operator.Reconcile.Calls.{
  Cluster, State, Event, start, Session, tell, confirm, sdk_write, deletes,
}
use clavex_operator.Reconcile.Triple.{
  Triple, Triple-pure, Triple-leave, Triple-if, Triple-bind, Triple-answer,
}
use clavex_operator.Reconcile.Rules.{
  Triple-tell, Triple-ask_keeps, KeepsWrites, Triple-write, Triple-confirm,
}
use clavex_operator.Reconcile.Lawful.{FinalizerLaws, Lawful, Law, ReadyLaw, KindLaws}
use clavex_operator.Reconcile.Safety.{reconcile-Lawful}
use clavex_operator.Named.Laws.{is_done}
use clavex_operator.Drift.Laws.{correct-Law, create_missing-Law, or_return-Law}
use clavex_operator.Client.{
  ClientSpec, OidcClient, ClientService, converge_client, store_secret, write_client_secret,
  persist_secret, delete_client, client_kind, reconcile_clavex_client,
}

-- The documented behaviour of the SDK's deletion: a client that was deleted, or that was not found,
-- is not there.
pub record ClientLaws {W : Type 0} (sdk : ClientService W) : Type 1 where
  pub Missing : String → String → W → Type 0
  pub delete_removes :
      (session : Session) (org id : String) (w : W)
      → is_done (sdk.delete session org id w).0 ≡ true
      → Missing org id (sdk.delete session org id w).1

module _ {W : Type 0} (c : Cluster W ClientSpec) (recorder : Bool) (sdk : ClientService W) where
  module _ (laws : ClientLaws sdk) where
    abbrev kind : Kind W ClientSpec
    kind = client_kind c recorder sdk

    -- The org has no client with the id of the spec.
    abbrev pub ClientAbsent : String → ClientSpec → W → Type 0
    ClientAbsent org_id spec w = laws.Missing org_id spec.client_id w

    abbrev I : State W ClientSpec → Type 0
    I = Law c kind ClientAbsent

    abbrev J : State W ClientSpec → Type 0
    J = ReadyLaw c kind ClientAbsent

    abbrev Deleted : String → ClientSpec → Answer (Unit {0}) → State W ClientSpec → Type 0
    Deleted org_id spec a s = I s × (is_done a ≡ true → ClientAbsent org_id spec s.world)

    confirm-Gone :
        (org_id : String) (spec : ClientSpec) (a : Answer (Unit {0}))
        → Triple
            (Deleted org_id spec a)
            (confirm a)
            (λ _ s. I s × ClientAbsent org_id spec s.world)
            I
    unfolding confirm
    confirm-Gone org_id spec (ok u) = Triple-pure tt (λ s p. (p.0, p.1 refl))
    confirm-Gone org_id spec (fail e) =
        Triple-if (is_not_found e) _ _ (λ h. Triple-pure tt (λ s p. (p.0, p.1 h)))
          (λ _. Triple-leave _ (λ s p. p.0))

    delete_client-Gone :
        (session : Session) (org_id : String) (cr : Resource ClientSpec)
        → Triple J
            (delete_client c recorder sdk session org_id cr)
            (λ _ s. I s × ClientAbsent org_id cr.spec s.world)
            I
    unfolding delete_client tell
    delete_client-Gone session org_id cr =
        Triple-bind (Deleted org_id cr.spec)
          (tell (sdk_write (deletes cr.spec.client_id))
            (sdk.delete session org_id cr.spec.client_id))
          _
          (record {
            at = λ s p.
                ((p.1, p.0), λ h. laws.delete_removes session org_id cr.spec.client_id s.world h);
          })
          (confirm-Gone org_id cr.spec)

    delete_client-adds :
        (session : Session) (org_id : String) (cr : Resource ClientSpec)
        (L : List (Event ClientSpec × W) → Type 0)
        → KeepsWrites L
        → Triple
            (λ s. L s.log)
            (delete_client c recorder sdk session org_id cr)
            (λ _ s. L s.log)
            (λ _. Unit {0})
    unfolding delete_client
    delete_client-adds session org_id cr L h =
        Triple-bind (λ _ s. L s.log) _ _ (Triple-write L _ _ h) (Triple-confirm L)

    converge_client-Law :
        (session : Session) (org_id : String) (cr : Resource ClientSpec)
        (existing : Option OidcClient)
        → Triple J (converge_client c recorder sdk session org_id cr existing) (λ _. I) I
    unfolding converge_client
    converge_client-Law session org_id cr none = create_missing-Law c kind ClientAbsent _ _ _ _
    converge_client-Law session org_id cr (some live) = correct-Law c kind ClientAbsent _ _ _ _ _ _

    store_secret-Law :
        (key : NamespacedName) (key_name value : String) (a : Answer Secret)
        → Triple I (store_secret c recorder sdk key key_name value a) (λ _. I) I
    unfolding store_secret
    store_secret-Law key key_name value (ok secret) =
        Triple-tell (λ _. Lawful c kind ClientAbsent) _ _ (λ s b p. (tt, p))
    store_secret-Law key key_name value (fail e) =
        Triple-if (is_not_found e) _ _
          (λ _. Triple-tell (λ _. Lawful c kind ClientAbsent) _ _ (λ s b p. (tt, p)))
          (λ _. Triple-pure _ (λ s p. p))

    persist_secret-Law :
        (cr : Resource ClientSpec) (ref : Option SecretRef) (value : String)
        → Triple I (persist_secret c recorder sdk cr ref value) (λ _. I) I
    unfolding persist_secret write_client_secret
    persist_secret-Law cr none value = Triple-pure tt (λ s p. p)
    persist_secret-Law cr (some ref) value =
        Triple-if (str_eq value "") _ _ (λ _. Triple-pure tt (λ s p. p))
          λ _.
            Triple-bind (λ _. I) _ _
              (Triple-bind (λ _. I) _ _ (Triple-ask_keeps (Lawful c kind ClientAbsent) _)
                (store_secret-Law _ _ value))
              λ a.
                Triple-answer (λ _. I) a _ _ (λ _. Triple-pure tt (λ s p. p))
                  (λ e. Triple-leave _ (λ s p. p))

    client_kind-KindLaws : KindLaws c kind ClientAbsent
    unfolding client_kind
    client_kind-KindLaws = record {
      delete_remote_gone = delete_client-Gone;
      delete_remote_adds = delete_client-adds;
      sync_lawful = λ session org_id cr.
          or_return-Law c kind ClientAbsent _ _ (converge_client-Law session org_id cr);
      after_sync_lawful =
          λ cr synced. persist_secret-Law cr cr.spec.client_secret_ref synced.secret;
    }

    -- By what is documented of the SDK's deletion and of AddFinalizer, and whatever the calls
    -- answer, a pass over a ClavexClient writes to the Admin API only after it has seen the
    -- finalizer in the cluster, and gives the finalizer up only in a state where the org that the
    -- credentials name which this pass resolved, after it read the resource, has no client with
    -- the id of the spec.
    pub reconcile_clavex_client-Lawful :
        (key : NamespacedName) (w : W) (stream : Option Pool)
        → FinalizerLaws c
        → Lawful c kind ClientAbsent
            (state_of (reconcile_clavex_client c recorder sdk key (start w stream))).log
    unfolding reconcile_clavex_client
    reconcile_clavex_client-Lawful key w stream f =
        reconcile-Lawful c kind ClientAbsent f client_kind-KindLaws key w stream
