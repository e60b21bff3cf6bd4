-- ===== src/Examples/Policies.antt =====
-- A policy that is to be disabled, at a server that enables what it creates; and one that leaves
-- lists unset, which the server shows as empty.
use clavex_operator.Prelude.{true, false, [], ◌∷◌, none, some, ◌++◌, ◌≡◌, refl, eq_refl}
use clavex_operator.Api.{ok, Resource}
use clavex_operator.Reconcile.Flow.{next, state_of}
use clavex_operator.Reconcile.Calls.{Cluster, State, Session, start, succeeded}
use clavex_operator.Named.{first_match, find_by_name}
use clavex_operator.AuthPolicy.{
  AuthPolicySpec, PolicyConditions, PolicyRule, CreatePolicyRuleParams, reconcile_auth_policy,
}
use clavex_operator.AuthPolicy.Created.{
  find, update, ListsCreated, Shows, SecondPass, rule_params, auth_policy_created,
}
use clavex_operator.AuthPolicy.Unset.{reconcile_auth_policy_unset}
use clavex_operator.Drift.{updated, spec_unchanged}
use clavex_operator.Drift.Laws.{correction}
use clavex_operator.Examples.World.{World, cluster}
use clavex_operator.Examples.Passes.{a_policy_spec, policy_service, fresh, holding}

abbrev W : Type 0
W = World AuthPolicySpec PolicyRule

abbrev k8s : Cluster W AuthPolicySpec
k8s = cluster AuthPolicySpec PolicyRule

abbrev rule_of : CreatePolicyRuleParams → PolicyRule
rule_of p = record {
  id = "p1";
  name = p.name;
  priority = p.priority;
  action = p.action;
  enabled = true;
  conditions = p.conditions;
}

policy_service-ListsCreated : ListsCreated policy_service
unfolding first_match
policy_service-ListsCreated = record {
  list_after_create = λ session marker org p w h. (
    rule_of p ∷ [],
    rule_of p,
    refl,
    rw ((eq_refl p.name)) refl,
    record { name = refl; priority = refl; action = refl },
  );
}

abbrev session : Session
session = record { api_key = "k1" }

abbrev cr : Resource AuthPolicySpec
cr = fresh AuthPolicySpec (record a_policy_spec { enabled = false })

abbrev begin : State W AuthPolicySpec
begin = start (holding AuthPolicySpec PolicyRule cr none) none

absent :
    (find_by_name policy_service.rules "policy rules" session "acme-id" cr.spec.name begin.world).0
    ≡ ok none
unfolding find_by_name first_match
absent = refl

created_example :
    let s₁ = state_of (reconcile_auth_policy k8s true policy_service session "acme-id" cr begin) in
    (rule : PolicyRule) × ((find_by_name policy_service.rules "policy rules" session "acme-id"
        cr.spec.name s₁.world).0
      ≡ ok (some rule))
    × Shows rule (rule_params cr.spec)
    × SecondPass k8s true policy_service session "acme-id" cr s₁ rule
created_example =
    auth_policy_created k8s true policy_service session "acme-id" cr cr begin
      policy_service-ListsCreated refl absent refl

-- The server shows each list that was never set as an empty one.
abbrev empty_lists : PolicyConditions
empty_lists = record a_policy_spec.conditions {
  ip_cidrs = some [];
  not_countries = some [];
  client_ids = some [];
  days_of_week = some [];
}

abbrev shown_rule : PolicyRule
shown_rule = record {
  id = "p1";
  name = "block abroad";
  priority = a_policy_spec.priority;
  action = "deny";
  enabled = true;
  conditions = empty_lists;
}

abbrev enabled_cr : Resource AuthPolicySpec
enabled_cr = fresh AuthPolicySpec a_policy_spec

abbrev in_place : State W AuthPolicySpec
in_place = start (holding AuthPolicySpec PolicyRule enabled_cr (some shown_rule)) none

shown :
    (find k8s true policy_service session "acme-id" enabled_cr in_place.world).0
    ≡ ok (some shown_rule)
unfolding find_by_name first_match
shown = refl

unset_example :
    let w = (find k8s true policy_service session "acme-id" enabled_cr in_place.world).1 in
    let (answer, w') = update k8s true policy_service session "acme-id" enabled_cr shown_rule w in
    reconcile_auth_policy k8s true policy_service session "acme-id" enabled_cr in_place
    ≡ next (updated "policy rule" "p1" (spec_unchanged enabled_cr) answer) (record in_place {
      world = w';
      log = correction true false "p1" enabled_cr (succeeded answer) w ++ in_place.log;
    })
unset_example =
    reconcile_auth_policy_unset k8s true policy_service session "acme-id" enabled_cr in_place
      shown_rule shown
      (record {
        ip_cidrs = refl;
        countries = refl;
        not_countries = refl;
        client_ids = refl;
        days_of_week = refl;
      })
      refl
