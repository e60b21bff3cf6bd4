-- ===== src/Group.antt =====
-- internal/controller/clavexgroup_controller.go, with the spec of
-- api/v1alpha1/clavexgroup_types.go. The roles of a group are brought to those that the spec names.
-- Go walks its sets of ids in any order; the lists stand for one such order.
pub mod Sets
pub mod Members
pub mod Progress
pub mod Laws
use clavex_operator.Prelude.{
  ℕ, String, Bool, true, false, List, [], ◌∷◌, Option, none, some, ◌<>◌, ◌||◌, str_eq,
  if◌then◌else◌,
}
use clavex_operator.Api.{
  Answer, ok, fail, wrapped, missing_role, SecretRef, NamespacedName, Resource,
}
use clavex_operator.AuthSecret.{entry, put_entry, and_then}
use clavex_operator.Reconcile.{Kind, Synced, reconcile}
use clavex_operator.Reconcile.Flow.{Step, pure, requeue, ◌>>=◌}
use clavex_operator.Reconcile.Calls.{
  Cluster, State, Session, Marker, with_managed, sdk_write, creates, assigns_role, removes_role,
  ask, tell,
}
use clavex_operator.Named.{Directory, find_by_name, delete_by_name}
use clavex_operator.Drift.{unchanged, or_return}
use clavex_operator.Role.{Role}

pub record GroupSpec : Type 0 where
  pub org_ref : String
  pub auth_secret_ref : SecretRef
  pub name : String
  pub roles : List String

-- `clavex.Group`, by the fields that the program reads.
pub record Group : Type 0 where
  pub id : String
  pub name : String

-- The SDK's `Groups`, and the listing of its `Roles`.
pub record GroupService (W : Type 0) : Type 0 where
  pub groups : Directory W Group
  pub create : Session → Marker → String → String → W → Answer Group × W
  pub list_org_roles : Session → String → W → Answer (List Role) × W
  pub list_roles : Session → String → String → W → Answer (List Role) × W
  pub assign_role : Session → String → String → String → W → Answer (Unit {0}) × W
  pub remove_role : Session → String → String → String → W → Answer (Unit {0}) × W

-- `findGroupByName`
abbrev pub find_group_by_name :
    {W : Type 0} → GroupService W → Session → String → String → W → Answer (Option Group) × W
find_group_by_name sdk = find_by_name sdk.groups "groups"

abbrev pub clavex_group_finalizer : String
clavex_group_finalizer = "clavex.eu/clavexgroup-finalizer"

-- `15 * time.Second`, in milliseconds.
abbrev pub role_retry : ℕ
role_retry = 15000

-- `roleIDByName`: of two roles with one name the later one counts.
unfoldable pub role_id_by_name : List Role → List (String × String) → List (String × String)
unfolding put_entry
role_id_by_name [] m = m
role_id_by_name (role ∷ roles) m = role_id_by_name roles (put_entry role.name role.id m)

-- A `map[string]struct{}`: membership, and `set[id] = struct{}{}`.
unfoldable pub has_id : String → List String → Bool
has_id id [] = false
has_id id (x ∷ ids) = str_eq x id || has_id id ids

unfoldable pub add_id : String → List String → List String
unfolding has_id
add_id id ids = if has_id id ids then ids else id ∷ ids

unfoldable pub want_ids :
    String → List (String × String) → List String → List String → Answer (List String)
unfolding entry add_id
want_ids org_id m [] ids = ok ids
want_ids org_id m (name ∷ names) ids = elim (entry name m) [
  | none ↦ fail (missing_role name org_id)
  | some id ↦ want_ids org_id m names (add_id id ids)
]

unfoldable pub current_ids : List Role → List String → List String
unfolding add_id
current_ids [] ids = ids
current_ids (role ∷ roles) ids = current_ids roles (add_id role.id ids)

abbrev pub wrap_with : String → Answer (Unit {0}) → Answer (Unit {0})
wrap_with what = and_then (wrapped what) ok

module _ {W : Type 0} where
  -- `for id := range ids { if _, ok := others[id]; !ok { if err := call(id); err != nil { return … } } }`
  unfoldable pub each_outside :
      (String → Step (State W GroupSpec) (Answer (Unit {0})))
      → List String
      → List String
      → Step (State W GroupSpec) (Answer (Unit {0}))
  unfolding has_id
  each_outside call others [] = pure (ok tt)
  each_outside call others (id ∷ ids) =
      let rest = each_outside call others ids in
      if has_id id others
      then rest
      else do answer ← call id; elim answer [ ok done ↦ rest | fail e ↦ pure (fail e) ]

module _ {W : Type 0} (sdk : GroupService W) where
  module _ (session : Session) (org_id group_id : String) where
    unfoldable pub assign : String → Step (State W GroupSpec) (Answer (Unit {0}))
    assign id = do
      answer ← tell (sdk_write (assigns_role id)) (sdk.assign_role session org_id group_id id)
      pure (wrap_with ("assigning role " <> id <> " to group") answer)

    unfoldable pub unassign : String → Step (State W GroupSpec) (Answer (Unit {0}))
    unassign id = do
      answer ← tell (sdk_write (removes_role id)) (sdk.remove_role session org_id group_id id)
      pure (wrap_with ("removing role " <> id <> " from group") answer)

    -- The two loops of `syncGroupRoles`.
    unfoldable pub converge_roles :
        List String → List String → Step (State W GroupSpec) (Answer (Unit {0}))
    unfolding each_outside assign unassign
    converge_roles want current = do
      assigned ← each_outside assign current want
      elim assigned [ ok done ↦ each_outside unassign want current | fail e ↦ pure (fail e) ]

    unfoldable pub with_current_roles :
        List String → Answer (List Role) → Step (State W GroupSpec) (Answer (Unit {0}))
    unfolding converge_roles current_ids
    with_current_roles want (ok roles) = converge_roles want (current_ids roles [])
    with_current_roles want (fail e) = pure (fail (wrapped "listing group roles" e))

    unfoldable pub with_wanted : Answer (List String) → Step (State W GroupSpec) (Answer (Unit {0}))
    unfolding with_current_roles
    with_wanted (fail e) = pure (fail e)
    with_wanted (ok want) = ask (sdk.list_roles session org_id group_id) >>= with_current_roles want

    -- `wantIDs` of `syncGroupRoles`, from what `Roles.List` answered.
    unfoldable pub wanted : List String → Answer (List Role) → Answer (List String)
    unfolding want_ids role_id_by_name
    wanted names answer =
        and_then (wrapped "listing roles")
          (λ roles. want_ids org_id (role_id_by_name roles []) names []) answer

    -- `syncGroupRoles`
    unfoldable pub sync_group_roles : List String → Step (State W GroupSpec) (Answer (Unit {0}))
    unfolding with_wanted wanted
    sync_group_roles names = do
      answer ← ask (sdk.list_org_roles session org_id)
      with_wanted (wanted names answer)

    unfoldable pub with_roles : List String → Step (State W GroupSpec) (Answer Synced)
    unfolding sync_group_roles
    with_roles names = do
      answer ← sync_group_roles names
      pure (and_then (λ e. e) (λ done. ok (unchanged group_id)) answer)

  unfoldable pub create_group :
      Session → String → Resource GroupSpec → Step (State W GroupSpec) (Answer Synced)
  unfolding with_roles
  create_group session org_id cr = do
    answer ←
        tell (sdk_write (creates cr.spec.name))
          (sdk.create session (with_managed "ClavexGroup" cr.meta) org_id cr.spec.name)
    elim answer [
      | ok group ↦ with_roles session org_id group.id cr.spec.roles
      | fail e ↦ pure (fail (wrapped "creating group" e))
    ]

  -- `reconcileGroup`
  unfoldable pub reconcile_group :
      Session → String → Resource GroupSpec → Step (State W GroupSpec) (Answer Synced)
  unfolding create_group
  reconcile_group session org_id cr =
      or_return (find_group_by_name sdk session org_id cr.spec.name) λ existing. elim existing [
        | none ↦ create_group session org_id cr
        | some group ↦ with_roles session org_id group.id cr.spec.roles
      ]

  unfoldable pub group_kind : Kind W GroupSpec
  unfolding reconcile_group
  group_kind = record {
    label = "ClavexGroup";
    finalizer = clavex_group_finalizer;
    refetch_error = "re-fetching ClavexGroup after finalizer update";
    org_ref = λ spec. spec.org_ref;
    auth_secret_ref = λ spec. spec.auth_secret_ref;
    releases_without_secret = false;
    in_sync = "Group is in sync with the Admin API";
    corrected = "";
    ready_shows_drift = false;
    delete_remote =
        λ session org_id cr. delete_by_name sdk.groups "groups" session org_id cr.spec.name;
    sync = reconcile_group;
    after_sync = λ cr synced. pure tt;
    on_failure = λ e. requeue role_retry;
  }

  -- `ClavexGroupReconciler.Reconcile`
  unfoldable pub reconcile_clavex_group :
      Cluster W GroupSpec → NamespacedName → Step (State W GroupSpec) ⊥
  unfolding group_kind
  reconcile_clavex_group c key = reconcile c group_kind key
