-- ===== src/AuthPolicy/Unset.antt =====
-- A policy that leaves a list of its conditions unset, at a server that lists every one: what
-- compare.go says of the Admin API.
use clavex_operator.Prelude.{
  String, Bool, true, false, Option, none, some, not, ◌≡◌, refl, arith, ◌||◌, ◌++◌, ◌∙◌,
}
use clavex_operator.Api.{ok, Resource}
use clavex_operator.Reconcile.Flow.{next}
use clavex_operator.Reconcile.Calls.{Cluster, State, Session, succeeded}
use clavex_operator.Drift.{updated, spec_unchanged}
use clavex_operator.Drift.Laws.{correction, correct_lem}
use clavex_operator.Compare.{same_elements}
use clavex_operator.AuthPolicy.{
  AuthPolicySpec, PolicyConditions, PolicyRule, PolicyService, build_auth_policy_conditions,
  deep_equal, same_conditions, auth_policy_up_to_date, reconcile_auth_policy,
}
use clavex_operator.AuthPolicy.Created.{find, update, pass_found}

abbrev is_set : {A : Type 0} → Option A → Bool
is_set none = false
is_set (some a) = true

-- Every list of the conditions is there, if only as an empty one.
pub record AllListed (c : PolicyConditions) : Type 0 where
  pub ip_cidrs : is_set c.ip_cidrs ≡ true
  pub countries : is_set c.countries ≡ true
  pub not_countries : is_set c.not_countries ≡ true
  pub client_ids : is_set c.client_ids ≡ true
  pub days_of_week : is_set c.days_of_week ≡ true

-- Some list is nil.
abbrev pub has_unset : PolicyConditions → Bool
has_unset c =
    not (is_set c.ip_cidrs)
    || not (is_set c.countries)
    || not (is_set c.not_countries)
    || not (is_set c.client_ids)
    || not (is_set c.days_of_week)

deep_equal-unset :
    {A : Type 0} (same : A → A → Bool) (live spec : Option A)
    → is_set live ≡ true
    → is_set spec ≡ false
    → deep_equal same live spec ≡ false
deep_equal-unset same none spec h g = cc
deep_equal-unset same (some a) none h g = refl
deep_equal-unset same (some a) (some b) h g = cc

unset_differs :
    (live spec : PolicyConditions)
    → AllListed live
    → has_unset spec ≡ true
    → same_conditions live (build_auth_policy_conditions spec) ≡ false
unfolding same_conditions build_auth_policy_conditions
unset_differs live spec all unset = ground (
  arith,
  deep_equal-unset same_elements live.ip_cidrs spec.ip_cidrs all.ip_cidrs,
  deep_equal-unset same_elements live.countries spec.countries all.countries,
  deep_equal-unset same_elements live.not_countries spec.not_countries all.not_countries,
  deep_equal-unset same_elements live.client_ids spec.client_ids all.client_ids,
  deep_equal-unset same_elements live.days_of_week spec.days_of_week all.days_of_week,
)

up_to_date-unset :
    (rule : PolicyRule) (cr : Resource AuthPolicySpec)
    → AllListed rule.conditions
    → has_unset cr.spec.conditions ≡ true
    → auth_policy_up_to_date rule cr ≡ false
unfolding auth_policy_up_to_date
up_to_date-unset rule cr all unset =
    ground (arith, unset_differs rule.conditions cr.spec.conditions all unset)

module _ {W : Type 0} (c : Cluster W AuthPolicySpec) (recorder : Bool) (sdk : PolicyService W) where
  module _ (session : Session) (org_id : String) where
    -- Where the policy leaves some list of its conditions unset, and the rule that the pass finds
    -- has every list, an empty one where nothing was set: the pass writes the rule again, whatever
    -- else it shows, and so does every later pass that finds it so; the pass reports drift where the
    -- spec is the one last synced, and returns the update's error where it is refused.
    pub reconcile_auth_policy_unset :
        (cr : Resource AuthPolicySpec) (s : State W AuthPolicySpec) (rule : PolicyRule)
        → (find c recorder sdk session org_id cr s.world).0 ≡ ok (some rule)
        → AllListed rule.conditions
        → has_unset cr.spec.conditions ≡ true
        → let w = (find c recorder sdk session org_id cr s.world).1 in
          let (answer, w') = update c recorder sdk session org_id cr rule w in
          reconcile_auth_policy c recorder sdk session org_id cr s
          ≡ next (updated "policy rule" rule.id (spec_unchanged cr) answer) (record s {
            world = w';
            log = correction recorder false rule.id cr (succeeded answer) w ++ s.log;
          })
    reconcile_auth_policy_unset cr s rule h all unset =
        pass_found c recorder sdk session org_id cr s rule h
        ∙ rw (up_to_date-unset rule cr all unset) (
            correct_lem recorder "policy rule" rule.id cr false
              (update c recorder sdk session org_id cr rule)
              (record s { world = (find c recorder sdk session org_id cr s.world).1 }))
