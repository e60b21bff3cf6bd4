-- ===== src/Examples/Groups.antt =====
-- Passes over a ClavexGroup and its roles. The world holds one role of the group, or none; the org
-- has the one role `r1`, named editor.
use clavex_operator.Prelude.{
  String, true, false, List, [], ◌∷◌, none, some, ◌≡◌, refl, arith, str_eq, eq_iff, if◌then◌else◌,
}
use clavex_operator.Api.{Answer, ok}
use clavex_operator.Reconcile.Flow.{state_of}
use clavex_operator.Reconcile.Calls.{State, Session, start}
use clavex_operator.Reconcile.Lawful.{Lawful}
use clavex_operator.Role.{Role}
use clavex_operator.Group.{
  GroupSpec, Group, GroupService, group_kind, reconcile_clavex_group, sync_group_roles,
  role_id_by_name, has_id,
}
use clavex_operator.AuthSecret.{entry, put_entry}
use clavex_operator.Group.Sets.{named, all_known, shows_role}
use clavex_operator.Group.Laws.{GroupRemoved, reconcile_clavex_group-Lawful}
use clavex_operator.Group.Members.{MemberLaws, sync_group_roles-exact}
use clavex_operator.Group.Progress.{Accepts, GoesOn, sync_group_roles-GoesOn}
use clavex_operator.Examples.World.{
  World, cluster, cluster-FinalizerLaws, directory, directory-DirectoryLaws,
}
use clavex_operator.Examples.Passes.{a_ref, key, leaving, holding}

abbrev W : Type 0
W = World GroupSpec Group

abbrev a_spec : GroupSpec
a_spec = record { org_ref = "acme"; auth_secret_ref = a_ref; name = "staff"; roles = "editor" ∷ [] }

abbrev staff : Group
staff = record { id = "g1"; name = "staff" }

abbrev editor : Role
editor = record { id = "r1"; name = "editor" }

abbrev service : GroupService W
service = record {
  groups = directory GroupSpec (λ x. x.id) (λ x. x.name);
  create = λ session marker org name w. (ok staff, record w { live = some staff });
  list_org_roles = λ session org w. (ok (editor ∷ []), w);
  list_roles = λ session org group w. (ok [], w);
  assign_role = λ session org group id w. (ok tt, w);
  remove_role = λ session org group id w. (ok tt, w);
}

abbrev going : W
going =
    holding GroupSpec Group (leaving GroupSpec "clavex.eu/clavexgroup-finalizer" a_spec)
      (some staff)

group_example :
    Lawful
      (cluster GroupSpec Group)
      (group_kind service)
      (GroupRemoved
        (cluster GroupSpec Group)
        service
        (directory-DirectoryLaws GroupSpec (λ x. x.id) (λ x. x.name)))
      (state_of
        (reconcile_clavex_group service (cluster GroupSpec Group) key (start going none))).log
group_example =
    reconcile_clavex_group-Lawful (cluster GroupSpec Group) service
      (directory-DirectoryLaws GroupSpec (λ x. x.id) (λ x. x.name)) key going none
      (cluster-FinalizerLaws GroupSpec Group)

-- A world that is the ids of the roles assigned.
unfoldable dropped : String → List String → List String
dropped id [] = []
dropped id (x ∷ ids) = if str_eq x id then dropped id ids else x ∷ dropped id ids

abbrev as_roles : List String → List Role
as_roles [] = []
as_roles (id ∷ ids) = record { id = id; name = id } ∷ as_roles ids

abbrev roles_service : GroupService (List String)
roles_service = record {
  groups = record {
    id = λ (x : Group). x.id;
    name = λ x. x.name;
    list = λ session org w. (ok (staff ∷ []), w);
    delete = λ session org id w. (ok tt, w);
  };
  create = λ session marker org name w. (ok staff, w);
  list_org_roles = λ session org w. (ok (editor ∷ []), w);
  list_roles = λ session org group w. (ok (as_roles w), w);
  assign_role = λ session org group id w. (ok tt, id ∷ w);
  remove_role = λ session org group id w. (ok tt, dropped id w);
}

shows-as_roles : (id : String) (ids : List String) → has_id id ids ≡ shows_role id (as_roles ids)
unfolding has_id shows_role
shows-as_roles id [] = refl
shows-as_roles id (x ∷ ids) = ground (arith, shows-as_roles id ids)

has_id-dropped :
    (id j : String) (ids : List String)
    → has_id j (dropped id ids) ≡ (if str_eq id j then false else has_id j ids)
unfolding has_id dropped
has_id-dropped id j [] = ground arith
has_id-dropped id j (x ∷ ids) =
    ground (arith, eq_iff x id, eq_iff x j, eq_iff id j, has_id-dropped id j ids)

service-MemberLaws : MemberLaws roles_service
unfolding has_id
service-MemberLaws = record {
  is_member = λ org group id w. has_id id w;
  list_reads = λ session org group id w roles h. ground (arith, h, shows-as_roles id w);
  assign_adds = λ session org group id j w h. refl;
  remove_removes = λ session org group id j w h. ground (arith, has_id-dropped id j w);
}

service-Accepts : Accepts roles_service
service-Accepts = record {
  lists = λ session org group w. (as_roles w, refl);
  assigns = λ session org group id w. refl;
  removes = λ session org group id w. refl;
}

abbrev a_session : Session
a_session = record { api_key = "k1" }

abbrev begin : State (List String) GroupSpec
begin = start ("r9" ∷ []) none

known : all_known (role_id_by_name (editor ∷ []) []) ("editor" ∷ []) ≡ true
unfolding all_known role_id_by_name put_entry entry
known = refl

goes_on_example :
    GoesOn (sync_group_roles roles_service a_session "acme-id" "g1" ("editor" ∷ [])) begin
goes_on_example =
    sync_group_roles-GoesOn roles_service service-Accepts a_session "acme-id" "g1" ("editor" ∷ [])
      (editor ∷ []) begin refl known

settled : GoesOn (sync_group_roles roles_service a_session "acme-id" "g1" ("editor" ∷ [])) begin
settled =
    sync_group_roles-GoesOn roles_service service-Accepts a_session "acme-id" "g1" ("editor" ∷ [])
      (editor ∷ []) begin refl known

abbrev the_roles : Answer (List Role)
the_roles = ok (editor ∷ [])

exact_example :
    (roles : List Role) × (the_roles ≡ ok roles)
    × (all_known (role_id_by_name roles []) ("editor" ∷ []) ≡ true)
    × (service-MemberLaws.is_member "acme-id" "g1" "r9" settled.0.world
        ≡ named (role_id_by_name roles []) "r9" ("editor" ∷ []))
exact_example =
    sync_group_roles-exact roles_service service-MemberLaws a_session "acme-id" "g1" "r9"
      ("editor" ∷ []) begin settled.0 settled.1
