-- ===== src/Group/Members.antt =====
-- The roles of a group after a sync that succeeds.
use mathlib.Core.Path.{ap}
use clavex_operator.Prelude.{
  String, Bool, true, List, [], ◌≡◌, refl, arith, ◌&&◌, ◌||◌, not, str_eq, ◌∙◌,
}
use clavex_operator.Api.{Answer, ok, fail}
use clavex_operator.AuthSecret.Laws.{and_then-eq-ok}
use clavex_operator.Reconcile.Flow.{next}
use clavex_operator.Reconcile.Calls.{State, Session, ask, succeeded}
use clavex_operator.Role.{Role}
use clavex_operator.Group.{
  GroupSpec, GroupService, role_id_by_name, has_id, current_ids, assign, unassign, converge_roles,
  with_current_roles, with_wanted, wanted, sync_group_roles,
}
use clavex_operator.Group.Sets.{
  shows_role, named, all_known, has_id-current_ids, want_ids-all_known, has_id-want_ids, bind-ok,
  answer-ok, each_outside-sets, changes,
}

-- The documented behaviour of the SDK on a group's roles: a listing shows them, and an accepted
-- assignment or removal changes one of them.
pub record MemberLaws {W : Type 0} (sdk : GroupService W) : Type 0 where
  pub is_member : String → String → String → W → Bool
  pub list_reads :
      (session : Session) (org group id : String) (w : W) (roles : List Role)
      → (sdk.list_roles session org group w).0 ≡ ok roles
      → is_member org group id (sdk.list_roles session org group w).1 ≡ shows_role id roles
  pub assign_adds :
      (session : Session) (org group id j : String) (w : W)
      → succeeded (sdk.assign_role session org group id w).0 ≡ true
      → is_member org group j (sdk.assign_role session org group id w).1
        ≡ (str_eq id j || is_member org group j w)
  pub remove_removes :
      (session : Session) (org group id j : String) (w : W)
      → succeeded (sdk.remove_role session org group id w).0 ≡ true
      → is_member org group j (sdk.remove_role session org group id w).1
        ≡ (not (str_eq id j) && is_member org group j w)

module _ {W : Type 0} (sdk : GroupService W) (laws : MemberLaws sdk) where
  module _ (session : Session) (org_id group_id j : String) where
    abbrev member_at : State W GroupSpec → Bool
    member_at s = laws.is_member org_id group_id j s.world

    assign-sets :
        (id : String) (t t₁ : State W GroupSpec)
        → assign sdk session org_id group_id id t ≡ next (ok tt) t₁
        → member_at t₁ ≡ (str_eq id j || member_at t)
    unfolding assign
    assign-sets id t t₁ h =
        let (accepted, e) = changes _ (sdk.assign_role session org_id group_id id) _ t t₁ h in
        rw e (laws.assign_adds session org_id group_id id j t.world accepted)

    unassign-clears :
        (id : String) (t t₁ : State W GroupSpec)
        → unassign sdk session org_id group_id id t ≡ next (ok tt) t₁
        → not (member_at t₁) ≡ (str_eq id j || not (member_at t))
    unfolding unassign
    unassign-clears id t t₁ h =
        let (accepted, e) = changes _ (sdk.remove_role session org_id group_id id) _ t t₁ h in
        rw e (ground (arith, laws.remove_removes session org_id group_id id j t.world accepted))

    converge_roles-exact :
        (want current : List String) (s s₁ : State W GroupSpec)
        → member_at s ≡ has_id j current
        → converge_roles sdk session org_id group_id want current s ≡ next (ok tt) s₁
        → member_at s₁ ≡ has_id j want
    unfolding converge_roles
    converge_roles-exact want current s s₁ start h =
        let (a, t, e, g) = bind-ok _ _ _ s₁ h in
        let (x, e₁, g₁) = answer-ok a _ _ t s₁ g in
        let first =
          each_outside-sets (assign sdk session org_id group_id) member_at j current want s t
            assign-sets (e ∙ ap (λ z. next z t) e₁) in
        let second =
          each_outside-sets (unassign sdk session org_id group_id) (λ u. not (member_at u)) j want
            current t s₁ unassign-clears g₁ in
        ground (arith, start, first, second)

    with_wanted-exact :
        (want : List String) (s s₁ : State W GroupSpec)
        → with_wanted sdk session org_id group_id (ok want) s ≡ next (ok tt) s₁
        → member_at s₁ ≡ has_id j want
    unfolding with_wanted with_current_roles ask has_id
    with_wanted-exact want s s₁ h =
        by_listing (sdk.list_roles session org_id group_id s.world).0 refl h
      where
        after : State W GroupSpec
        after = record s { world = (sdk.list_roles session org_id group_id s.world).1 }

        listed : (roles : List Role) → shows_role j roles ≡ has_id j (current_ids roles [])
        listed roles = ground (arith, has_id-current_ids j roles [])

        by_listing :
            (a : Answer (List Role))
            → (sdk.list_roles session org_id group_id s.world).0 ≡ a
            → with_current_roles sdk session org_id group_id want a after ≡ next (ok tt) s₁
            → member_at s₁ ≡ has_id j want
        by_listing (ok roles) k g =
            converge_roles-exact want (current_ids roles []) after s₁
              (laws.list_reads session org_id group_id j s.world roles k ∙ listed roles) g
        by_listing (fail e) k g = cc

    with_wanted-ok :
        (a : Answer (List String)) (s s₁ : State W GroupSpec)
        → with_wanted sdk session org_id group_id a s ≡ next (ok tt) s₁
        → (want : List String) × (a ≡ ok want) × (member_at s₁ ≡ has_id j want)
    unfolding with_wanted
    with_wanted-ok (ok want) s s₁ h = (want, refl, with_wanted-exact want s s₁ h)
    with_wanted-ok (fail e) s s₁ h = cc

    -- By what is documented of listing, assigning and removing a group's roles: after a sync that
    -- succeeds, a role is assigned to the group exactly when some name of the spec stands for it
    -- in the listing of the org's roles, and that listing has every name of the spec.
    pub sync_group_roles-exact :
        (names : List String) (s s₁ : State W GroupSpec)
        → sync_group_roles sdk session org_id group_id names s ≡ next (ok tt) s₁
        → (roles : List Role) × ((sdk.list_org_roles session org_id s.world).0 ≡ ok roles)
          × (all_known (role_id_by_name roles []) names ≡ true)
          × (laws.is_member org_id group_id j s₁.world ≡ named (role_id_by_name roles []) j names)
    unfolding sync_group_roles wanted ask has_id
    sync_group_roles-exact names s s₁ h =
        let read : State W GroupSpec = record s {
          world = (sdk.list_org_roles session org_id s.world).1;
        } in
        let (want, e, member) = with_wanted-ok _ read s₁ h in
        let (roles, listed, f) =
          and_then-eq-ok _ _ (sdk.list_org_roles session org_id s.world).0 want e in
        let m = role_id_by_name roles [] in
        (
          roles,
          listed,
          want_ids-all_known org_id m names [] want f,
          member ∙ has_id-want_ids org_id m names [] want j f,
        )
