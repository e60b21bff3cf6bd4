-- ===== src/Role.antt =====
-- internal/controller/clavexrole_controller.go, with the spec of api/v1alpha1/clavexrole_types.go.
-- A role is created where none has the name; a live role is never changed.
pub mod Laws
use clavex_operator.Prelude.{String, Bool, true, false, Option, none, some}
use clavex_operator.Api.{Answer, ok, fail, Error, SecretRef, NamespacedName, Resource}
use clavex_operator.Reconcile.{Kind, Synced, reconcile}
use clavex_operator.Reconcile.Flow.{Step, pure, failed, ◌>>=◌}
use clavex_operator.Reconcile.Calls.{Cluster, State, Session, Marker, with_managed, ask}
use clavex_operator.Named.{Directory, find_by_name, delete_by_name}
use clavex_operator.Drift.{unchanged, or_return, create_missing}

pub record RoleSpec : Type 0 where
  pub org_ref : String
  pub auth_secret_ref : SecretRef
  pub name : String
  pub description : String

-- `clavex.Role`, by the fields that the program reads.
pub record Role : Type 0 where
  pub id : String
  pub name : String

pub record CreateRoleParams : Type 0 where
  pub name : String
  pub description : String

-- The SDK's `Roles`: it has no update.
pub record RoleService (W : Type 0) : Type 0 where
  pub roles : Directory W Role
  pub create : Session → Marker → String → CreateRoleParams → W → Answer Role × W

-- `findRoleByName`
abbrev pub find_role_by_name :
    {W : Type 0} → RoleService W → Session → String → String → W → Answer (Option Role) × W
find_role_by_name sdk = find_by_name sdk.roles "roles"

abbrev pub clavex_role_finalizer : String
clavex_role_finalizer = "clavex.eu/clavexrole-finalizer"

abbrev pub role_synced : Role → Synced
role_synced role = unchanged role.id

module _ {W : Type 0} (sdk : RoleService W) where
  unfoldable pub create_role :
      Session → String → Resource RoleSpec → Step (State W RoleSpec) (Answer Synced)
  create_role session org_id cr = create_missing "role" cr.spec.name role_synced (
      sdk.create session (with_managed "ClavexRole" cr.meta) org_id
        (record { name = cr.spec.name; description = cr.spec.description }))

  -- `reconcileRole`
  unfoldable pub reconcile_role :
      Session → String → Resource RoleSpec → Step (State W RoleSpec) (Answer Synced)
  unfolding create_role
  reconcile_role session org_id cr =
      or_return (find_role_by_name sdk session org_id cr.spec.name) λ existing. elim existing [
        | some role ↦ pure (ok (unchanged role.id))
        | none ↦ create_role session org_id cr
      ]

  -- What `ClavexRoleReconciler.Reconcile` differs in from the other kinds.
  unfoldable pub role_kind : Kind W RoleSpec
  unfolding reconcile_role
  role_kind = record {
    label = "ClavexRole";
    finalizer = clavex_role_finalizer;
    refetch_error = "re-fetching ClavexRole after finalizer update";
    org_ref = λ spec. spec.org_ref;
    auth_secret_ref = λ spec. spec.auth_secret_ref;
    releases_without_secret = false;
    in_sync = "Role is in sync with the Admin API";
    corrected = "";
    ready_shows_drift = false;
    delete_remote =
        λ session org_id cr. delete_by_name sdk.roles "roles" session org_id cr.spec.name;
    sync = reconcile_role;
    after_sync = λ cr synced. pure tt;
    on_failure = failed;
  }

  -- `ClavexRoleReconciler.Reconcile`
  unfoldable pub reconcile_clavex_role :
      Cluster W RoleSpec → NamespacedName → Step (State W RoleSpec) ⊥
  unfolding role_kind
  reconcile_clavex_role c key = reconcile c role_kind key
