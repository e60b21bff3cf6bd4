-- ===== src/Group/Laws.antt =====
-- What a pass over a ClavexGroup guarantees.
use clavex_operator.Prelude.{String, List, [], ◌∷◌, Option, none, some, inr}
use clavex_operator.Api.{Answer, ok, fail, NamespacedName, Resource}
use clavex_operator.Stream.Pool.{Pool}
use clavex_operator.Reconcile.{Kind}
use clavex_operator.Reconcile.Flow.{Step, pure, state_of, ◌>>=◌}
use clavex_operator.Reconcile.Calls.{Cluster, State, start, Session, Mutation, sdk_write, tell}
use clavex_operator.Reconcile.Triple.{Triple, Triple-pure, Triple-if, Triple-bind, Triple-answer}
use clavex_operator.Reconcile.Rules.{Triple-tell, Triple-ask_keeps}
use clavex_operator.Reconcile.Lawful.{FinalizerLaws, Lawful, Ready, Law, ReadyLaw, KindLaws}
use clavex_operator.Reconcile.Safety.{reconcile-Lawful}
use clavex_operator.Named.Adds.{delete_by_name_adds}
use clavex_operator.Named.Laws.{DirectoryLaws, Removed, delete_by_name_gone}
use clavex_operator.Drift.Laws.{or_return-Law}
use clavex_operator.Role.{Role}
use clavex_operator.Group.{
  GroupSpec, Group, GroupService, has_id, each_outside, assign, unassign, converge_roles,
  with_current_roles, with_wanted, wanted, sync_group_roles, with_roles, create_group,
  reconcile_group, group_kind, reconcile_clavex_group,
}

abbrev pub group_name : GroupSpec → String
group_name spec = spec.name

module _ {W : Type 0} (c : Cluster W GroupSpec) (sdk : GroupService W)
    (laws : DirectoryLaws sdk.groups) where
  abbrev kind : Kind W GroupSpec
  kind = group_kind sdk

  -- What the listing, and the deletion of the first group with the name of the spec, left.
  abbrev pub GroupRemoved : String → GroupSpec → W → Type 0
  GroupRemoved = Removed c kind sdk.groups laws group_name

  abbrev I : State W GroupSpec → Type 0
  I = Law c kind GroupRemoved

  abbrev J : State W GroupSpec → Type 0
  J = ReadyLaw c kind GroupRemoved

  write-J :
      {A B : Type 0} (m : Mutation) (call : W → Answer A × W) (f : Answer A → B)
      → Triple J (do answer ← tell (sdk_write m) call; pure (f answer)) (λ _. J) I
  write-J m call f =
      Triple-bind (λ _. J) _ _
        (Triple-tell (λ _. Ready c kind GroupRemoved) _ call (λ s b p. ((p.1, p.0), inr p.1)))
        λ a. Triple-pure _ (λ s p. p)

  each_outside-J :
      (call : String → Step (State W GroupSpec) (Answer (Unit {0}))) (others ids : List String)
      → ((id : String) → Triple J (call id) (λ _. J) I)
      → Triple J (each_outside call others ids) (λ _. J) I
  unfolding each_outside
  each_outside-J call others [] h = Triple-pure _ (λ s p. p)
  each_outside-J call others (id ∷ ids) h =
      Triple-if (has_id id others) _ _ (λ _. each_outside-J call others ids h)
        λ _.
          Triple-bind (λ _. J) _ _ (h id)
            λ a.
              Triple-answer (λ _. J) a _ _ (λ _. each_outside-J call others ids h)
                (λ e. Triple-pure _ (λ s p. p))

  module _ (session : Session) (org_id group_id : String) where
    converge_roles-J :
        (want current : List String)
        → Triple J (converge_roles sdk session org_id group_id want current) (λ _. J) I
    unfolding converge_roles assign unassign
    converge_roles-J want current =
        Triple-bind (λ _. J) _ _ (each_outside-J _ current want (λ id. write-J _ _ _))
          λ a.
            Triple-answer (λ _. J) a _ _ (λ _. each_outside-J _ want current (λ id. write-J _ _ _))
              (λ e. Triple-pure _ (λ s p. p))

    with_current_roles-J :
        (want : List String) (a : Answer (List Role))
        → Triple J (with_current_roles sdk session org_id group_id want a) (λ _. J) I
    unfolding with_current_roles
    with_current_roles-J want (ok roles) = converge_roles-J want _
    with_current_roles-J want (fail e) = Triple-pure _ (λ s p. p)

    with_wanted-J :
        (a : Answer (List String)) → Triple J (with_wanted sdk session org_id group_id a) (λ _. J) I
    unfolding with_wanted
    with_wanted-J (ok want) =
        Triple-bind (λ _. J) _ _ (Triple-ask_keeps (Ready c kind GroupRemoved) _)
          (with_current_roles-J want)
    with_wanted-J (fail e) = Triple-pure _ (λ s p. p)

    with_roles-J :
        (names : List String) → Triple J (with_roles sdk session org_id group_id names) (λ _. I) I
    unfolding with_roles sync_group_roles
    with_roles-J names =
        Triple-bind (λ _. J) _ _
          (Triple-bind (λ _. J) _ _ (Triple-ask_keeps (Ready c kind GroupRemoved) _)
            λ a. with_wanted-J (wanted sdk session org_id group_id names a))
          λ a. Triple-pure _ (λ s p. p.0)

  reconcile_group-Law :
      (session : Session) (org_id : String) (cr : Resource GroupSpec)
      → Triple J (reconcile_group sdk session org_id cr) (λ _. I) I
  unfolding reconcile_group create_group
  reconcile_group-Law session org_id cr = or_return-Law c kind GroupRemoved _ _ by_existing
    where
      by_existing :
          (existing : Option Group)
          → Triple J
              (elim existing [
                | none ↦ create_group sdk session org_id cr
                | some group ↦ with_roles sdk session org_id group.id cr.spec.roles
              ])
              (λ _. I)
              I
      by_existing none =
          Triple-bind (λ _. J) _ _
            (Triple-tell (λ _. Ready c kind GroupRemoved) _ _ (λ s b p. ((p.1, p.0), inr p.1)))
            λ a.
              Triple-answer (λ _. J) a _ _
                (λ group. with_roles-J session org_id group.id cr.spec.roles)
                (λ e. Triple-pure _ (λ s p. p.0))
      by_existing (some group) = with_roles-J session org_id group.id cr.spec.roles

  group_kind-KindLaws : KindLaws c kind GroupRemoved
  unfolding group_kind
  group_kind-KindLaws = record {
    delete_remote_gone = λ session org_id cr.
        delete_by_name_gone c kind sdk.groups laws group_name "groups" session org_id cr.spec;
    delete_remote_adds =
        λ session org_id cr. delete_by_name_adds sdk.groups "groups" session org_id cr.spec.name;
    sync_lawful = reconcile_group-Law;
    after_sync_lawful = λ cr synced. Triple-pure tt (λ s p. p);
  }

  -- By what is documented of the SDK's listing and deletion and of AddFinalizer, and whatever
  -- the calls answer, a pass over a ClavexGroup writes to the Admin API only after it has seen
  -- the finalizer in the cluster, and gives the finalizer up only in a state that a listing and
  -- a deletion left: the org is the one that the credentials name which this pass resolved,
  -- after it read the resource, and its live groups are those listed less every one with the id
  -- of the first that has the name of the spec, whose deletion was accepted or answered with not
  -- found; where none has it, they are those listed. A further one with that name, under another
  -- id, is still live.
  pub reconcile_clavex_group-Lawful :
      (key : NamespacedName) (w : W) (stream : Option Pool)
      → FinalizerLaws c
      → Lawful c kind GroupRemoved
          (state_of (reconcile_clavex_group sdk c key (start w stream))).log
  unfolding reconcile_clavex_group
  reconcile_clavex_group-Lawful key w stream f =
      reconcile-Lawful c kind GroupRemoved f group_kind-KindLaws key w stream
