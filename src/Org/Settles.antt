-- ===== src/Org/Settles.antt =====
-- A section that was written stays: the next pass finds it as the spec says, and marked.
use clavex_operator.Prelude.{
  bool_eq_refl, String, Bool, true, false, Option, some, ◌≡◌, refl, arith, ◌&&◌, int_eq_iff,
  eq_refl,
}
use clavex_operator.Api.{Answer, ok, Resource}
use clavex_operator.Reconcile.Flow.{next, state_of}
use clavex_operator.Reconcile.Calls.{
  State, Session, Marker, managed_by, with_managed, succeeded, ask, tell,
}
use clavex_operator.Org.Settings.{
  OrgSpec, PasswordPolicySpec, PasswordPolicy, Standing, password_policy_up_to_date, is_ours,
  policy_standing, desired_policy, converge_section, reconcile_section,
}
use clavex_operator.Org.{OrgService, reconcile_password_policy}

-- The documented behaviour of the SDK: what an accepted put wrote is what the next get shows, with
-- the marker of the put.
pub record PolicyReadsBack {W : Type 0} (sdk : OrgService W) : Type 0 where
  pub get_after_put :
      (session : Session) (marker : Marker) (org : String) (p : PasswordPolicy) (w : W)
      → let after = sdk.put_policy session marker org p w in
        succeeded after.0 ≡ true
        → (live : PasswordPolicy) × ((sdk.get_policy session org after.1).0 ≡ ok (some live))
          × (live.values ≡ p.values)
          × (live.managed_by ≡ some marker.managed_by)

up_to_date-same :
    (live desired : PasswordPolicy)
    → live.values ≡ desired.values
    → password_policy_up_to_date live desired ≡ true
unfolding password_policy_up_to_date
up_to_date-same live desired h =
    let v = desired.values in
    rw h (
      ground (
        arith,
        (int_eq_iff v.min_length v.min_length).1 refl,
        bool_eq_refl v.require_upper,
        bool_eq_refl v.require_lower,
        bool_eq_refl v.require_number,
        bool_eq_refl v.require_special,
        (int_eq_iff v.max_age_days v.max_age_days).1 refl,
        (int_eq_iff v.history_count v.history_count).1 refl,
      ))

module _ {W : Type 0} (recorder : Bool) (sdk : OrgService W) (session : Session)
    (org_id : String) where
  module _ (cr : Resource OrgSpec) (spec : PasswordPolicySpec) where
    abbrev read : W → Answer (Option PasswordPolicy) × W
    read = sdk.get_policy session org_id

    abbrev write : W → Answer (Unit {0}) × W
    write =
        sdk.put_policy session (with_managed "ClavexOrg" cr.meta) org_id
          (desired_policy org_id spec)

    abbrev standing : Option PasswordPolicy → Standing
    standing = policy_standing (desired_policy org_id spec)

    -- The section needs no write: its values are the spec's and its marker is the operator's.
    abbrev pub is_settled : Option PasswordPolicy → Bool
    is_settled live = (standing live).up_to_date && (standing live).managed

    quiet :
        (s : State W OrgSpec) (live : Option PasswordPolicy)
        → (read s.world).0 ≡ ok live
        → is_settled live ≡ true
        → reconcile_password_policy recorder sdk session org_id cr spec s
          ≡ next (ok false) (record s { world = (read s.world).1 })
    unfolding reconcile_password_policy reconcile_section converge_section ask
    quiet s live h k = rw h (rw k refl)

    wrote :
        (s : State W OrgSpec) (live : Option PasswordPolicy)
        → (read s.world).0 ≡ ok live
        → is_settled live ≡ false
        → (state_of (reconcile_password_policy recorder sdk session org_id cr spec s)).world
          ≡ (write (read s.world).1).1
    unfolding reconcile_password_policy reconcile_section converge_section ask tell
    wrote s live h k = rw h (rw k refl)

    settled_by :
        (live : PasswordPolicy)
        → live.values ≡ spec
        → live.managed_by ≡ some managed_by
        → is_settled (some live) ≡ true
    unfolding policy_standing is_ours
    settled_by live h k =
        rw k
          (ground (arith, up_to_date-same live (desired_policy org_id spec) h, eq_refl managed_by))

    -- Where an accepted put is what the next get shows: after a pass that read the password
    -- policy, saw values or a marker other than wanted and had its put accepted, the next pass
    -- reads once, writes nothing and reports no drift.
    pub password_policy_settles :
        (s : State W OrgSpec) (live : Option PasswordPolicy)
        → PolicyReadsBack sdk
        → (read s.world).0 ≡ ok live
        → is_settled live ≡ false
        → succeeded (write (read s.world).1).0 ≡ true
        → let s₁ = state_of (reconcile_password_policy recorder sdk session org_id cr spec s) in
          reconcile_password_policy recorder sdk session org_id cr spec s₁
          ≡ next (ok false) (record s₁ { world = (read s₁.world).1 })
    unfolding with_managed
    password_policy_settles s live laws h k accepted =
        let s₁ = state_of (reconcile_password_policy recorder sdk session org_id cr spec s) in
        let (live', e, values, marked) =
          laws.get_after_put session _ org_id (desired_policy org_id spec) (read s.world).1
            accepted in
        quiet s₁ (some live') (rw (wrote s live h k) e) (settled_by live' values marked)
