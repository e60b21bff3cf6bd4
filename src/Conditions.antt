-- ===== src/Conditions.antt =====
-- `setCondition`, the same method on each of the seven reconcilers of internal/controller.
pub mod Laws
use clavex_operator.Prelude.{
  ℕ, String, Bool, List, [], ◌∷◌, Option, none, some, str_eq, if◌then◌else◌,
}
use clavex_operator.Api.{Condition, ConditionStatus, Message, Resource, status_eq}

-- `newCond.LastTransitionTime = existing.LastTransitionTime` where the status stays.
unfoldable pub carry_time : Condition → Condition → Condition
unfolding status_eq
carry_time new existing =
    if status_eq existing.status new.status
    then record new { last_transition_time = existing.last_transition_time }
    else new

-- The loop and the final append: the first condition of that type is replaced in place.
unfoldable pub upsert : Condition → List Condition → List Condition
upsert new [] = new ∷ []
upsert new (existing ∷ rest) =
    if str_eq existing.type new.type
    then carry_time new existing ∷ rest
    else existing ∷ upsert new rest

abbrev pub new_condition : ℕ → String → ConditionStatus → String → Message → ℕ → Condition
new_condition now type status reason message generation = record {
  type = type;
  status = status;
  reason = reason;
  message = message;
  observed_generation = generation;
  last_transition_time = now;
}

-- The method, with the time that `metav1.Now()` gave.
unfoldable pub set_condition :
    {Spec : Type 0}
    → ℕ
    → String
    → ConditionStatus
    → String
    → Message
    → Resource Spec
    → Resource Spec
set_condition now type status reason message cr =
    let new = new_condition now type status reason message cr.meta.generation in
    record cr { status = record cr.status { conditions = upsert new cr.status.conditions } }

-- The first condition of a type, as a reader of the status finds it.
unfoldable pub find_condition : String → List Condition → Option Condition
find_condition type [] = none
find_condition type (c ∷ cs) = if str_eq c.type type then some c else find_condition type cs
