-- ===== src/AuthPolicy/Created.antt =====
-- The pass after the one that created a policy rule.
use clavex_operator.Prelude.{
  int_eq_iff, eq_refl, String, Bool, true, List, Option, none, some, ◌≡◌, refl, arith, bool_eq,
  if◌then◌else◌, ◌++◌, ◌∙◌, ◌&&◌,
}
use clavex_operator.Api.{Answer, ok, Resource}
use clavex_operator.Compare.Perm.{}
use clavex_operator.Reconcile.Flow.{next, state_of}
use clavex_operator.Reconcile.Calls.{
  Cluster, State, Session, Marker, with_managed, succeeded, ask, tell,
}
use clavex_operator.Named.{first_match, find_by_name}
use clavex_operator.Drift.{unchanged, updated, spec_unchanged, or_return, correct, create_missing}
use clavex_operator.Drift.Laws.{correction, correct_lem}
use clavex_operator.AuthPolicy.{
  AuthPolicySpec, PolicyRule, PolicyService, CreatePolicyRuleParams, UpdatePolicyRuleParams,
  build_auth_policy_conditions, same_conditions, auth_policy_up_to_date, reconcile_auth_policy,
}

-- A listed rule shows the name, the priority and the action that its creation asked for. Whether it
-- is enabled is the server's choice, since the creation does not say; and so is how it shows the
-- conditions: compare.go says that the Admin API returns an unset list as an empty one, and the
-- elements of a list in an order of its own.
pub record Shows (rule : PolicyRule) (p : CreatePolicyRuleParams) : Type 0 where
  pub name : rule.name ≡ p.name
  pub priority : rule.priority ≡ p.priority
  pub action : rule.action ≡ p.action

-- The documented behaviour of the SDK: the listing after an accepted creation has the rule.
pub record ListsCreated {W : Type 0} (sdk : PolicyService W) : Type 0 where
  pub list_after_create :
      (session : Session) (marker : Marker) (org : String) (p : CreatePolicyRuleParams) (w : W)
      → let after = sdk.create session marker org p w in
        succeeded after.0 ≡ true
        → (rules : List PolicyRule) × (rule : PolicyRule) × ((sdk.rules.list session org after.1).0
            ≡ ok rules)
          × (first_match sdk.rules.name p.name rules ≡ some rule)
          × Shows rule p

abbrev pub rule_params : AuthPolicySpec → CreatePolicyRuleParams
rule_params spec = record {
  name = spec.name;
  priority = spec.priority;
  action = spec.action;
  conditions = build_auth_policy_conditions spec.conditions;
}

abbrev rule_changes : AuthPolicySpec → UpdatePolicyRuleParams
rule_changes spec = record {
  name = spec.name;
  priority = spec.priority;
  action = spec.action;
  enabled = spec.enabled;
  conditions = build_auth_policy_conditions spec.conditions;
}

-- What the creation does not settle: the comparison of the conditions, and whether the rule is
-- enabled.
abbrev pub is_settled : PolicyRule → AuthPolicySpec → Bool
is_settled rule spec =
    bool_eq rule.enabled spec.enabled
    && same_conditions rule.conditions (build_auth_policy_conditions spec.conditions)

up_to_date-Shows :
    (rule : PolicyRule) (cr : Resource AuthPolicySpec)
    → Shows rule (rule_params cr.spec)
    → auth_policy_up_to_date rule cr ≡ is_settled rule cr.spec
unfolding auth_policy_up_to_date
up_to_date-Shows rule cr h = rw h.name (
    rw h.priority (
      rw h.action (
        ground (
          arith,
          eq_refl cr.spec.name,
          (int_eq_iff cr.spec.priority cr.spec.priority).1 refl,
          eq_refl cr.spec.action,
        ))))

module _ {W : Type 0} (c : Cluster W AuthPolicySpec) (recorder : Bool) (sdk : PolicyService W) where
  module _ (session : Session) (org_id : String) where
    abbrev pub find : Resource AuthPolicySpec → W → Answer (Option PolicyRule) × W
    find cr = find_by_name sdk.rules "policy rules" session org_id cr.spec.name

    abbrev create : Resource AuthPolicySpec → W → Answer PolicyRule × W
    create cr =
        sdk.create session (with_managed "ClavexAuthPolicy" cr.meta) org_id (rule_params cr.spec)

    abbrev pub update : Resource AuthPolicySpec → PolicyRule → W → Answer PolicyRule × W
    update cr rule =
        sdk.update session (with_managed "ClavexAuthPolicy" cr.meta) org_id rule.id
          (rule_changes cr.spec)

    -- The pass that finds a rule.
    pub pass_found :
        (cr : Resource AuthPolicySpec) (s : State W AuthPolicySpec) (rule : PolicyRule)
        → (find cr s.world).0 ≡ ok (some rule)
        → reconcile_auth_policy c recorder sdk session org_id cr s
          ≡ correct recorder "policy rule" rule.id cr
              (auth_policy_up_to_date rule cr)
              (update cr rule)
              (record s { world = (find cr s.world).1 })
    unfolding reconcile_auth_policy or_return ask
    pass_found cr s rule h = rw h refl

    pass_created :
        (cr : Resource AuthPolicySpec) (s : State W AuthPolicySpec)
        → (find cr s.world).0 ≡ ok none
        → (state_of (reconcile_auth_policy c recorder sdk session org_id cr s)).world
          ≡ (create cr (find cr s.world).1).1
    unfolding reconcile_auth_policy or_return ask create_missing tell
    pass_created cr s h = rw h refl

    found_after :
        (laws : ListsCreated sdk) (cr next_cr : Resource AuthPolicySpec) (w : W)
        → next_cr.spec ≡ cr.spec
        → succeeded (create cr w).0 ≡ true
        → (rule : PolicyRule) × ((find next_cr (create cr w).1).0 ≡ ok (some rule))
          × Shows rule (rule_params cr.spec)
    unfolding find_by_name
    found_after laws cr next_cr w same accepted =
        let (rules, rule, listed, matched, shows) =
          laws.list_after_create session _ org_id (rule_params cr.spec) w accepted in
        (rule, rw listed (rw same (rw matched refl)), shows)

    -- What the pass after a creation returns and leaves, by the rule that it finds.
    abbrev pub SecondPass : Resource AuthPolicySpec → State W AuthPolicySpec → PolicyRule → Type 0
    SecondPass cr s rule =
        let settled = is_settled rule cr.spec in
        let w = (find cr s.world).1 in
        let answer = (update cr rule w).0 in
        reconcile_auth_policy c recorder sdk session org_id cr s
        ≡ next
            (if settled
              then ok (unchanged rule.id)
              else updated "policy rule" rule.id (spec_unchanged cr) answer)
            (record s {
              world = (if settled then w else (update cr rule w).1);
              log = correction recorder settled rule.id cr (succeeded answer) w ++ s.log;
            })

    second :
        (cr : Resource AuthPolicySpec) (s : State W AuthPolicySpec) (rule : PolicyRule)
        → (find cr s.world).0 ≡ ok (some rule)
        → auth_policy_up_to_date rule cr ≡ is_settled rule cr.spec
        → SecondPass cr s rule
    second cr s rule h k =
        pass_found cr s rule h
        ∙ rw k (
            correct_lem recorder "policy rule" rule.id cr (is_settled rule cr.spec) (update cr rule)
              (record s { world = (find cr s.world).1 }))

    -- Where the listing after an accepted creation has the rule, with the name, the priority and
    -- the action that were asked for: the pass after one that found no rule and had its creation
    -- accepted finds the rule, and writes nothing if the server chose to enable it as the spec says
    -- and lists each of its conditions as the operator sent it, an unset list unset and the elements
    -- of a list in the order sent; else it updates the rule, and reports drift where the spec is the
    -- one last synced.
    pub auth_policy_created :
        (cr next_cr : Resource AuthPolicySpec) (s : State W AuthPolicySpec)
        → ListsCreated sdk
        → next_cr.spec ≡ cr.spec
        → (find cr s.world).0 ≡ ok none
        → succeeded (create cr (find cr s.world).1).0 ≡ true
        → let s₁ = state_of (reconcile_auth_policy c recorder sdk session org_id cr s) in
          (rule : PolicyRule) × ((find next_cr s₁.world).0 ≡ ok (some rule))
          × Shows rule (rule_params cr.spec)
          × SecondPass next_cr s₁ rule
    auth_policy_created cr next_cr s laws same h accepted =
        let s₁ = state_of (reconcile_auth_policy c recorder sdk session org_id cr s) in
        let (rule, e, shows) = found_after laws cr next_cr (find cr s.world).1 same accepted in
        let found : (find next_cr s₁.world).0 ≡ ok (some rule) = rw (pass_created cr s h) e in
        let test : auth_policy_up_to_date rule next_cr ≡ is_settled rule next_cr.spec =
          up_to_date-Shows rule next_cr (rw same shows) in
        (rule, found, shows, second next_cr s₁ rule found test)
