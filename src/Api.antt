-- ===== src/Api.antt =====
-- api/v1alpha1: what the seven custom resources share. A resource is its metadata, a spec of its
-- own kind and a status; the kinds' specs stand in the modules of their controllers.
use clavex_operator.Prelude.{
  ℕ, String, Bool, true, false, List, Option, none, some, str_eq, if◌then◌else◌,
}

-- An error value. `remote` is what the Kubernetes client or the Clavex SDK returned, with what
-- their `IsNotFound` answers for it; `wrapped` is `fmt.Errorf` with `%w`, which keeps that answer.
-- The other two are the errors that the operator makes itself.
pub data Error : Type 0 where
  remote : Bool → String → Error
  wrapped : String → Error → Error
  missing_key : String → String → String → Error
  missing_role : String → String → Error

unfoldable pub is_not_found : Error → Bool
is_not_found (remote b t) = b
is_not_found (wrapped t e) = is_not_found e
is_not_found (missing_key ns name key) = false
is_not_found (missing_role name org) = false

-- A value or an error, as Go's `(v, err)`.
pub data Answer (A : Type 0) : Type 0 where
  ok : A → Answer A
  fail : Error → Answer A

pub record SecretRef : Type 0 where
  pub name : String
  pub namespace : String
  pub key : String

pub record NamespacedName : Type 0 where
  pub namespace : String
  pub name : String

pub data ConditionStatus : Type 0 where
  condition_true condition_false condition_unknown : ConditionStatus

unfoldable pub status_eq : ConditionStatus → ConditionStatus → Bool
status_eq condition_true condition_true = true
status_eq condition_false condition_false = true
status_eq condition_unknown condition_unknown = true
status_eq _ _ = false

-- A condition's message: a text of the operator, or `err.Error()`.
pub data Message : Type 0 where
  text : String → Message
  rendered : Error → Message

pub record Condition : Type 0 where
  pub type : String
  pub status : ConditionStatus
  pub reason : String
  pub message : Message
  pub observed_generation : ℕ
  pub last_transition_time : ℕ

-- The status of every kind. `remote_id` is `ClavexClientID`, `ClavexRoleID`, `ClavexGroupID`,
-- `ClavexWebhookID`, `ClavexIDPID` or `ClavexAuthPolicyID`; a ClavexOrg has none and leaves it empty.
pub record Status : Type 0 where
  pub conditions : List Condition
  pub observed_generation : ℕ
  pub remote_id : String
  pub last_synced_at : Option ℕ

pub record Meta : Type 0 where
  pub namespace : String
  pub name : String
  pub generation : ℕ
  pub deletion_timestamp : Option ℕ
  pub finalizers : List String

pub record Resource (Spec : Type 0) : Type 0 where
  pub meta : Meta
  pub spec : Spec
  pub status : Status

-- `!cr.DeletionTimestamp.IsZero()`
abbrev pub is_deleting : {Spec : Type 0} → Resource Spec → Bool
is_deleting cr = elim cr.meta.deletion_timestamp [ none ↦ false | some t ↦ true ]

-- A value given, or the default where it is empty, as in `if ns == "" { ns = … }`.
abbrev pub or_default : String → String → String
or_default given default = if str_eq given "" then default else given
