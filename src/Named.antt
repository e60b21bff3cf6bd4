-- ===== src/Named.antt =====
-- What the controllers of ClavexRole, ClavexGroup, ClavexWebhook, ClavexIdentityProvider and
-- ClavexAuthPolicy share: the Admin API assigns its own ids, so the live object is found by a key
-- of the spec (a name, or a URL) in the listing of the org. Each controller has its own
-- `find…By…` with this text.
pub mod Adds
pub mod Laws
pub mod Without
use clavex_operator.Prelude.{
  String, Bool, true, false, List, [], ◌∷◌, Option, none, some, ◌<>◌, str_eq, if◌then◌else◌,
}
use clavex_operator.Api.{Answer, ok, fail, Error, wrapped}
use clavex_operator.AuthSecret.{and_then}
use clavex_operator.Reconcile.Flow.{Step, pure, leave, failed, ◌>>=◌}
use clavex_operator.Reconcile.Calls.{State, Session, sdk_write, deletes, ask, tell, confirm}

-- The SDK's service for one kind of object: given, not modelled. `id` and `name` are the fields of
-- an object that the program reads; the name of a webhook is its URL.
pub record Directory (W Live : Type 0) : Type 0 where
  pub id : Live → String
  pub name : Live → String
  pub list : Session → String → W → Answer (List Live) × W
  pub delete : Session → String → String → W → Answer (Unit {0}) × W

module _ {Live : Type 0} (name_of : Live → String) where
  -- The loop `for i := range xs { if xs[i].Name == name { return &xs[i], nil } }`.
  unfoldable pub first_match : String → List Live → Option Live
  first_match name [] = none
  first_match name (x ∷ xs) = if str_eq (name_of x) name then some x else first_match name xs

module _ {W Live : Type 0} (d : Directory W Live) where
  -- `findRoleByName`, `findGroupByName`, `findWebhookByURL`, `findIDPByName`, `findAuthPolicyByName`;
  -- `what` names the objects in the error.
  unfoldable pub find_by_name : String → Session → String → String → W → Answer (Option Live) × W
  unfolding first_match
  find_by_name what session org_id name w =
      let (answer, w') = d.list session org_id w in
      (and_then (wrapped ("listing " <> what)) (λ xs. ok (first_match d.name name xs)) answer, w')

  module _ {Spec : Type 0} where
    -- The remote half of the deletion branch of the five methods.
    unfoldable pub delete_by_name :
        String → Session → String → String → Step (State W Spec) (Unit {0})
    unfolding find_by_name confirm
    delete_by_name what session org_id name = do
      found ← ask (find_by_name what session org_id name)
      elim found [
        | fail e ↦ leave (failed e)
        | ok existing ↦ elim existing [
          | none ↦ pure tt
          | some live ↦ do
            answer ← tell (sdk_write (deletes (d.id live))) (d.delete session org_id (d.id live))
            confirm answer
        ]
      ]
