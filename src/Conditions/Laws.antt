-- ===== src/Conditions/Laws.antt =====
-- What `setCondition` does to a status: one condition changes, and no type is listed twice.
use mathlib.Core.Path.{subst}
use clavex_operator.Prelude.{
  ℕ, String, true, false, List, [], ◌∷◌, Option, none, some, ◌≡◌, refl, sym, ◌∙◌, ◌≢◌, arith,
  str_eq, eq_iff, eq_refl, Bool-cases, inl, inr, if◌then◌else◌,
}
use clavex_operator.Api.{Condition, ConditionStatus, Message, Resource, status_eq}
use clavex_operator.Conditions.{carry_time, new_condition, upsert, set_condition, find_condition}

type-carry_time : (new old : Condition) → (carry_time new old).type ≡ new.type
unfolding carry_time
type-carry_time new old = ground arith

-- What the written type is found with: the new content, its time kept where the status is.
abbrev pub written : Condition → Option Condition → Condition
written new none = new
written new (some old) = carry_time new old

-- The time that a write at `now` leaves: the old one, where the status stays.
abbrev pub time_after : ℕ → ConditionStatus → Option Condition → ℕ
time_after now status none = now
time_after now status (some old) =
    if status_eq old.status status then old.last_transition_time else now

find_condition-upsert_self :
    (new : Condition) (cs : List Condition)
    → find_condition new.type (upsert new cs) ≡ some (written new (find_condition new.type cs))
unfolding find_condition upsert
find_condition-upsert_self new [] = rw (eq_refl new.type)
find_condition-upsert_self new (c ∷ cs) = elim (Bool-cases (str_eq c.type new.type)) [
  | inl e ↦ rw (e, type-carry_time new c, eq_refl new.type)
  | inr e ↦ rw (e, e) (find_condition-upsert_self new cs)
]

str_eq_ne : (a b t : String) → str_eq a b ≡ true → str_eq b t ≡ false → str_eq a t ≡ false
str_eq_ne a b t h k = ground (arith, eq_iff a b, eq_iff b t, eq_iff a t)

str_eq_of_ne : (a b : String) → b ≢ a → str_eq a b ≡ false
str_eq_of_ne a b h = ground (arith, eq_iff a b)

find_condition-upsert_other :
    (type : String) (new : Condition) (cs : List Condition)
    → str_eq new.type type ≡ false
    → find_condition type (upsert new cs) ≡ find_condition type cs
unfolding find_condition upsert
find_condition-upsert_other type new [] h = rw h
find_condition-upsert_other type new (c ∷ cs) h = elim (Bool-cases (str_eq c.type new.type)) [
  | inl e ↦ rw (e, type-carry_time new c, h, str_eq_ne c.type new.type type e h)
  | inr e ↦ rw (e, find_condition-upsert_other type new cs h)
]

abbrev pub Fresh : String → List Condition → Type 0
Fresh type [] = Unit {0}
Fresh type (c ∷ cs) = (c.type ≢ type) × Fresh type cs

-- No type stands twice: the list is keyed by type, as its `listType=map` marker in the CRD says.
abbrev pub IsKeyed : List Condition → Type 0
IsKeyed [] = Unit {0}
IsKeyed (c ∷ cs) = Fresh c.type cs × IsKeyed cs

Fresh-upsert :
    (type : String) (new : Condition) (cs : List Condition)
    → new.type ≢ type
    → Fresh type cs
    → Fresh type (upsert new cs)
unfolding upsert
Fresh-upsert type new [] h f = (h, tt)
Fresh-upsert type new (c ∷ cs) h f = elim (Bool-cases (str_eq c.type new.type)) [
  | inl e ↦ rw e (subst (λ t. t ≢ type) (sym (type-carry_time new c)) h, f.1)
  | inr e ↦ rw e (f.0, Fresh-upsert type new cs h f.1)
]

IsKeyed-upsert : (new : Condition) (cs : List Condition) → IsKeyed cs → IsKeyed (upsert new cs)
unfolding upsert
IsKeyed-upsert new [] k = (tt, tt)
IsKeyed-upsert new (c ∷ cs) k = elim (Bool-cases (str_eq c.type new.type)) [
  | inl e ↦ rw e (subst (λ t. Fresh t cs) ((eq_iff _ _).0 e ∙ sym (type-carry_time new c)) k.0, k.1)
  | inr e ↦ rw e (
    Fresh-upsert c.type new cs (λ q. cc (e, (eq_iff c.type new.type).1 (sym q))) k.0,
    IsKeyed-upsert new cs k.1,
  )
]

written_fields :
    (new : Condition) (o : Option Condition)
    → ((written new o).status ≡ new.status)
      × ((written new o).reason ≡ new.reason)
      × ((written new o).message ≡ new.message)
      × ((written new o).observed_generation ≡ new.observed_generation)
      × ((written new o).last_transition_time ≡ time_after new.last_transition_time new.status o)
unfolding carry_time
written_fields new none = (refl, refl, refl, refl, refl)
written_fields new (some old) = ground arith

module _ {Spec : Type 0} (now : ℕ) (type : String) (status : ConditionStatus) where
  module _ (reason : String) (message : Message) (cr : Resource Spec) where
    abbrev before : List Condition
    before = cr.status.conditions

    abbrev after : List Condition
    after = (set_condition now type status reason message cr).status.conditions

    -- The written condition is the one found under its type: its status, reason and message are
    -- those given and its generation is the resource's. Its time is the old one when a condition
    -- of that type was there with that status, and the present time otherwise.
    pub set_condition_written :
        (c : Condition) × (find_condition type after ≡ some c)
        × (c.status ≡ status)
        × (c.reason ≡ reason)
        × (c.message ≡ message)
        × (c.observed_generation ≡ cr.meta.generation)
        × (c.last_transition_time ≡ time_after now status (find_condition type before))
    unfolding set_condition
    set_condition_written =
        let new = new_condition now type status reason message cr.meta.generation in
        let old = find_condition type before in
        let (a, b, c, d, e) = written_fields new old in
        (written new old, find_condition-upsert_self new before, a, b, c, d, e)

    -- Where no type is listed twice, none is afterwards, and every other type is found as before.
    pub set_condition_keeps :
        (t : String)
        → IsKeyed before
        → t ≢ type
        → IsKeyed after × (find_condition t after ≡ find_condition t before)
    unfolding set_condition
    set_condition_keeps t k h =
        let new = new_condition now type status reason message cr.meta.generation in
        (
          IsKeyed-upsert new before k,
          find_condition-upsert_other t new before (str_eq_of_ne type t h),
        )

-- What a reader of the status finds under a type.
pub record Reads {Spec : Type 0} (cr : Resource Spec) (type : String) (status : ConditionStatus)
    (reason : String) (message : Message) : Type 0 where
  pub condition : Condition
  pub found : find_condition type cr.status.conditions ≡ some condition
  pub status_read : condition.status ≡ status
  pub reason_read : condition.reason ≡ reason
  pub message_read : condition.message ≡ message

pub set_condition-Reads :
    {Spec : Type 0} (now : ℕ) (type : String) (status : ConditionStatus) (reason : String)
    (message : Message) (cr : Resource Spec)
    → Reads (set_condition now type status reason message cr) type status reason message
set_condition-Reads now type status reason message cr =
    let (c, f, s, r, m, _, _) = set_condition_written now type status reason message cr in
    record { condition = c; found = f; status_read = s; reason_read = r; message_read = m }

-- A write of another type leaves what is read.
pub set_condition_keeps-Reads :
    {Spec : Type 0} (now : ℕ) (type t : String) (status st : ConditionStatus) (reason r : String)
    (message m : Message) (cr : Resource Spec)
    → str_eq type t ≡ false
    → Reads cr t st r m
    → Reads (set_condition now type status reason message cr) t st r m
unfolding set_condition
set_condition_keeps-Reads now type t status st reason r message m cr h p = record {
  condition = p.condition;
  found =
      find_condition-upsert_other t
        (new_condition now type status reason message cr.meta.generation) cr.status.conditions h
      ∙ p.found;
  status_read = p.status_read;
  reason_read = p.reason_read;
  message_read = p.message_read;
}
