-- ===== src/Role/Laws.antt =====
-- What a pass over a ClavexRole guarantees.
use clavex_operator.Prelude.{String, Option, none, some}
use clavex_operator.Api.{ok, NamespacedName, Resource}
use clavex_operator.Stream.Pool.{Pool}
use clavex_operator.Reconcile.{Kind}
use clavex_operator.Reconcile.Flow.{pure, state_of}
use clavex_operator.Reconcile.Calls.{Cluster, start, Session}
use clavex_operator.Reconcile.Triple.{Triple, Triple-pure}
use clavex_operator.Reconcile.Lawful.{FinalizerLaws, Lawful, Law, ReadyLaw, KindLaws}
use clavex_operator.Reconcile.Safety.{reconcile-Lawful}
use clavex_operator.Named.Adds.{delete_by_name_adds}
use clavex_operator.Named.Laws.{DirectoryLaws, Removed, delete_by_name_gone}
use clavex_operator.Drift.{unchanged}
use clavex_operator.Drift.Laws.{create_missing-Law, or_return-Law}
use clavex_operator.Role.{
  RoleSpec, Role, RoleService, create_role, reconcile_role, role_kind, reconcile_clavex_role,
}

abbrev pub role_name : RoleSpec → String
role_name spec = spec.name

module _ {W : Type 0} (c : Cluster W RoleSpec) (sdk : RoleService W)
    (laws : DirectoryLaws sdk.roles) where
  abbrev kind : Kind W RoleSpec
  kind = role_kind sdk

  -- What the listing, and the deletion of the first role with the name of the spec, left.
  abbrev pub RoleRemoved : String → RoleSpec → W → Type 0
  RoleRemoved = Removed c kind sdk.roles laws role_name

  reconcile_role-Law :
      (session : Session) (org_id : String) (cr : Resource RoleSpec)
      → Triple
          (ReadyLaw c kind RoleRemoved)
          (reconcile_role sdk session org_id cr)
          (λ _. Law c kind RoleRemoved)
          (Law c kind RoleRemoved)
  unfolding reconcile_role
  reconcile_role-Law session org_id cr = or_return-Law c kind RoleRemoved _ _ by_existing
    where
      by_existing :
          (existing : Option Role)
          → Triple
              (ReadyLaw c kind RoleRemoved)
              (elim existing [
                | some role ↦ pure (ok (unchanged role.id))
                | none ↦ create_role sdk session org_id cr
              ])
              (λ _. Law c kind RoleRemoved)
              (Law c kind RoleRemoved)
      by_existing none = create_missing-Law c kind RoleRemoved _ _ _ _
      by_existing (some role) = Triple-pure _ (λ s p. p.0)

  role_kind-KindLaws : KindLaws c kind RoleRemoved
  unfolding role_kind
  role_kind-KindLaws = record {
    delete_remote_gone = λ session org_id cr.
        delete_by_name_gone c kind sdk.roles laws role_name "roles" session org_id cr.spec;
    delete_remote_adds =
        λ session org_id cr. delete_by_name_adds sdk.roles "roles" session org_id cr.spec.name;
    sync_lawful = reconcile_role-Law;
    after_sync_lawful = λ cr synced. Triple-pure tt (λ s p. p);
  }

  -- By what is documented of the SDK's listing and deletion and of AddFinalizer, and whatever
  -- the calls answer, a pass over a ClavexRole writes to the Admin API only after it has seen
  -- the finalizer in the cluster, and gives the finalizer up only in a state that a listing and
  -- a deletion left: the org is the one that the credentials name which this pass resolved,
  -- after it read the resource, and its live roles are those listed less every one with the id
  -- of the first that has the name of the spec, whose deletion was accepted or answered with not
  -- found; where none has it, they are those listed. A further one with that name, under another
  -- id, is still live.
  pub reconcile_clavex_role-Lawful :
      (key : NamespacedName) (w : W) (stream : Option Pool)
      → FinalizerLaws c
      → Lawful c kind RoleRemoved (state_of (reconcile_clavex_role sdk c key (start w stream))).log
  unfolding reconcile_clavex_role
  reconcile_clavex_role-Lawful key w stream f =
      reconcile-Lawful c kind RoleRemoved f role_kind-KindLaws key w stream
