-- ===== src/Reconcile/Lawful.antt =====
-- The two safety rules of a reconcile pass, as a condition on the log of its calls, and the proof
-- that every pass of every kind obeys them.
use clavex_operator.Prelude.{String, true, List, [], ◌∷◌, ◌≡◌, ◌⊎◌}
use clavex_operator.Api.{Answer, ok, fail, Error, Resource}
use clavex_operator.AuthSecret.{Credentials, resolve_auth_secret}
use clavex_operator.Reconcile.{Kind, Synced, has_finalizer}
use clavex_operator.Reconcile.Calls.{
  Cluster, State, Session, Event, read_resource, put_resource, sdk_write,
}
use clavex_operator.Reconcile.Triple.{Triple}
use clavex_operator.Reconcile.Rules.{KeepsWrites}

-- The documented behaviour of `controllerutil.AddFinalizer`.
pub record FinalizerLaws {W Spec : Type 0} (c : Cluster W Spec) : Type 0 where
  pub contains_add :
      (f : String) (fs : List String) → c.contains_finalizer f (c.add_finalizer f fs) ≡ true

module _ {W Spec : Type 0} (c : Cluster W Spec) (kind : Kind W Spec) where
  abbrev Log : Type 0
  Log = List (Event Spec × W)

  -- The event shows the resource with its finalizer in the cluster: read so, or written so.
  abbrev pub ShowsFinalizer : Event Spec → Type 0
  ShowsFinalizer (read_resource cr) = has_finalizer c kind cr ≡ true
  ShowsFinalizer (put_resource cr accepted) = (has_finalizer c kind cr ≡ true) × (accepted ≡ true)
  ShowsFinalizer _ = ⊥

  abbrev pub Guarded : Log → Type 0
  Guarded [] = ⊥
  Guarded ((e, w) ∷ log) = ShowsFinalizer e ⊎ Guarded log

  -- The log has a read of a resource of this spec in this namespace, and `v` is the state that
  -- the read left.
  abbrev IsRead : Event Spec → W → Spec → String → W → Type 0
  IsRead (read_resource stored) w spec ns v =
      (stored.spec ≡ spec) × (stored.meta.namespace ≡ ns) × (v ≡ w)
  IsRead _ w spec ns v = ⊥

  abbrev pub ReadIn : Log → Spec → String → W → Type 0
  ReadIn [] spec ns v = ⊥
  ReadIn ((e, w) ∷ log) spec ns v = IsRead e w spec ns v ⊎ ReadIn log spec ns v

  -- What the resource's reference resolves to in the state that this pass's read of it left.
  abbrev pub Resolves : Resource Spec → Log → Answer Credentials → Type 0
  Resolves cr log answer =
      (w : W) × ReadIn log cr.spec cr.meta.namespace w
      × ((resolve_auth_secret c.get_secret (kind.auth_secret_ref cr.spec) cr.meta.namespace w).0
          ≡ answer)

  module _ (Gone : String → Spec → W → Type 0) where
    -- The finalizer may go: the remote object is gone from the org that the credentials name which
    -- this pass resolved, or the kind does without credentials and this pass did not resolve them.
    abbrev pub MayRelease : Resource Spec → W → Log → Type 0
    MayRelease cr w log =
        ((credentials : Credentials) × Resolves cr log (ok credentials)
          × Gone credentials.org_id cr.spec w)
        ⊎ ((e : Error) × Resolves cr log (fail e) × (kind.releases_without_secret ≡ true))

    -- What may be done after the calls in the log: the Admin API is written to only when this pass
    -- has seen the finalizer in place, and a resource is written without it only when that is due.
    abbrev pub Allowed : Event Spec → W → Log → Type 0
    Allowed (sdk_write m accepted) w log = Guarded log
    Allowed (put_resource cr accepted) w log =
        (has_finalizer c kind cr ≡ true) ⊎ MayRelease cr w log
    Allowed _ w log = Unit {0}

    abbrev pub Lawful : Log → Type 0
    Lawful [] = Unit {0}
    Lawful ((e, w) ∷ log) = Allowed e w log × Lawful log

    abbrev pub Ready : Log → Type 0
    Ready log = Lawful log × Guarded log

    abbrev pub Law : State W Spec → Type 0
    Law s = Lawful s.log

    abbrev pub ReadyLaw : State W Spec → Type 0
    ReadyLaw s = Ready s.log

    -- What a kind's own steps have to obey.
    pub record KindLaws : Type 1 where
      pub delete_remote_gone :
          (session : Session) (org_id : String) (cr : Resource Spec)
          → Triple ReadyLaw
              (kind.delete_remote session org_id cr)
              (λ _ s. Law s × Gone org_id cr.spec s.world)
              Law
      pub delete_remote_adds :
          (session : Session) (org_id : String) (cr : Resource Spec) (R : Log → Type 0)
          → KeepsWrites R
          → Triple
              (λ s. R s.log)
              (kind.delete_remote session org_id cr)
              (λ _ s. R s.log)
              (λ _. Unit)
      pub sync_lawful :
          (session : Session) (org_id : String) (cr : Resource Spec)
          → Triple ReadyLaw (kind.sync session org_id cr) (λ _. Law) Law
      pub after_sync_lawful :
          (cr : Resource Spec) (synced : Synced)
          → Triple Law (kind.after_sync cr synced) (λ _. Law) Law
