-- ===== src/Group/Progress.antt =====
-- A sync of a group's roles succeeds where the Admin API accepts its calls.
use clavex_operator.Prelude.{
  String, true, List, [], ◌∷◌, ◌≡◌, refl, arith, Option-cases, inl, inr, Bool-cases,
}
use clavex_operator.Api.{Answer, ok}
use clavex_operator.AuthSecret.{entry}
use clavex_operator.Reconcile.Flow.{next, Step, pure, ◌>>=◌}
use clavex_operator.Reconcile.Calls.{State, Session, ask, tell, sdk_write, Mutation}
use clavex_operator.Role.{Role}
use clavex_operator.Group.{
  GroupSpec, GroupService, role_id_by_name, has_id, add_id, want_ids, current_ids, each_outside,
  wrap_with, assign, unassign, converge_roles, with_current_roles, with_wanted, wanted,
  sync_group_roles,
}
use clavex_operator.Group.Sets.{all_known}

-- The step goes on with a success.
abbrev pub GoesOn : {S : Type 0} → Step S (Answer (Unit {0})) → S → Type 0
GoesOn {S} m s = (t : S) × (m s ≡ next (ok tt) t)

-- The calls on a group's roles are all accepted.
pub record Accepts {W : Type 0} (sdk : GroupService W) : Type 0 where
  pub lists :
      (session : Session) (org group : String) (w : W)
      → (roles : List Role) × ((sdk.list_roles session org group w).0 ≡ ok roles)
  pub assigns :
      (session : Session) (org group id : String) (w : W)
      → (sdk.assign_role session org group id w).0 ≡ ok tt
  pub removes :
      (session : Session) (org group id : String) (w : W)
      → (sdk.remove_role session org group id w).0 ≡ ok tt

want_ids-ok :
    (org : String) (m : List (String × String)) (names ids : List String)
    → all_known m names ≡ true
    → (want : List String) × (want_ids org m names ids ≡ ok want)
unfolding want_ids all_known
want_ids-ok org m [] ids h = (ids, refl)
want_ids-ok org m (name ∷ names) ids h = elim (Option-cases (entry name m)) [
  | inl k ↦ absurd (ground (arith, k))
  | inr (id, k) ↦ rw (k, want_ids) (want_ids-ok org m names (add_id id ids) (ground (arith, k)))
]

module _ {W : Type 0} where
  each_outside-GoesOn :
      (call : String → Step (State W GroupSpec) (Answer (Unit {0}))) (others ids : List String)
      → ((id : String) (t : State W GroupSpec) → GoesOn (call id) t)
      → (s : State W GroupSpec) → GoesOn (each_outside call others ids) s
  unfolding each_outside
  each_outside-GoesOn call others [] law s = (s, refl)
  each_outside-GoesOn call others (id ∷ ids) law s = elim (Bool-cases (has_id id others)) [
    | inl k ↦ rw k (each_outside-GoesOn call others ids law s)
    | inr k ↦ let (t, e) = law id s in rw k (rw e (each_outside-GoesOn call others ids law t))
  ]

  change-GoesOn :
      (m : Mutation) (call : W → Answer (Unit {0}) × W) (what : String) (t : State W GroupSpec)
      → (call t.world).0 ≡ ok tt
      → GoesOn (tell (sdk_write m) call >>= λ a. pure (wrap_with what a)) t
  unfolding tell
  change-GoesOn m call what t h = rw h (_, refl)

module _ {W : Type 0} (sdk : GroupService W) (accepts : Accepts sdk) where
  module _ (session : Session) (org_id group_id : String) where
    converge_roles-GoesOn :
        (want current : List String) (s : State W GroupSpec)
        → GoesOn (converge_roles sdk session org_id group_id want current) s
    unfolding converge_roles assign unassign
    converge_roles-GoesOn want current s =
        let (t, e) =
          each_outside-GoesOn (assign sdk session org_id group_id) current want
            (λ id u. change-GoesOn _ _ _ u (accepts.assigns session org_id group_id id u.world))
            s in
        rw e (
          each_outside-GoesOn (unassign sdk session org_id group_id) want current
            (λ id u. change-GoesOn _ _ _ u (accepts.removes session org_id group_id id u.world)) t)

    -- Where the org's roles are listed, every name of the spec is among them, and the calls on the
    -- group's roles are accepted, a sync succeeds.
    pub sync_group_roles-GoesOn :
        (names : List String) (roles : List Role) (s : State W GroupSpec)
        → (sdk.list_org_roles session org_id s.world).0 ≡ ok roles
        → all_known (role_id_by_name roles []) names ≡ true
        → GoesOn (sync_group_roles sdk session org_id group_id names) s
    unfolding sync_group_roles wanted with_wanted with_current_roles ask
    sync_group_roles-GoesOn names roles s listed known =
        let read : State W GroupSpec = record s {
          world = (sdk.list_org_roles session org_id s.world).1;
        } in
        let (want, e) = want_ids-ok org_id (role_id_by_name roles []) names [] known in
        let (current, k) = accepts.lists session org_id group_id read.world in
        rw listed (
          rw e (
            rw k (
              converge_roles-GoesOn want (current_ids current [])
                (record read { world = (sdk.list_roles session org_id group_id read.world).1 }))))
