-- ===== src/Named/Laws.antt =====
-- What the remote half of a deletion leaves live, by what the Admin API documents of its listing
-- and its deletion. Two live objects may have one name: the first that the listing has is deleted.
use clavex_operator.Prelude.{String, Bool, true, List, Option, none, some, ◌≡◌, refl, sym, arith}
use clavex_operator.Api.{Answer, ok, fail, is_not_found}
use clavex_operator.AuthSecret.Laws.{and_then-eq-ok}
use clavex_operator.Reconcile.Flow.{pure, leave, failed, ◌>>=◌}
use clavex_operator.Reconcile.Calls.{
  Cluster, State, Session, sdk_write, deletes, ask, tell, confirm,
}
use clavex_operator.Reconcile.{Kind}
use clavex_operator.Reconcile.Triple.{Triple, Triple-pure, Triple-leave, Triple-if, Triple-bind}
use clavex_operator.Reconcile.Lawful.{Law, ReadyLaw}
use clavex_operator.Named.Without.{without, IsUnique, first_match-without}
use clavex_operator.Named.{Directory, first_match, find_by_name, delete_by_name}

-- The deletion is done: accepted, or the object was not there.
abbrev pub is_done : Answer (Unit {0}) → Bool
is_done (ok u) = true
is_done (fail e) = is_not_found e

-- The documented behaviour of a service, over what is live in an org.
pub record DirectoryLaws {W Live : Type 0} (d : Directory W Live) : Type 0 where
  pub live : String → W → List Live
  pub list_reads :
      (session : Session) (org : String) (w : W) (xs : List Live)
      → (d.list session org w).0 ≡ ok xs
      → live org (d.list session org w).1 ≡ xs
  pub delete_removes :
      (session : Session) (org id : String) (w : W)
      → is_done (d.delete session org id w).0 ≡ true
      → live org (d.delete session org id w).1 ≡ without d.id id (live org w)

module _ {W Spec Live : Type 0} (c : Cluster W Spec) (kind : Kind W Spec)
    (d : Directory W Live) where
  module _ (laws : DirectoryLaws d) (name_of_spec : Spec → String) where
    -- `w` is the state that the pass comes to from the listing's: with nothing found it is that
    -- state, and all that was listed is live; else the deletion of the object found is done, and
    -- what was listed is live but for the objects with the id of the one found.
    abbrev Leaves : Session → String → List Live → W → Option Live → W → Type 0
    Leaves session org_id listed w₁ none w = (w ≡ w₁) × (laws.live org_id w ≡ listed)
    Leaves session org_id listed w₁ (some x) w =
        (is_done (d.delete session org_id (d.id x) w₁).0 ≡ true)
        × (w ≡ (d.delete session org_id (d.id x) w₁).1)
        × (laws.live org_id w ≡ without d.id (d.id x) listed)

    -- `w` is what a listing of the org, and the deletion of the first listed object that has the
    -- name of the spec, left.
    pub record Removed (org_id : String) (spec : Spec) (w : W) : Type 0 where
      pub session : Session
      pub before : W
      pub listed : List Live
      pub answered : (d.list session org_id before).0 ≡ ok listed
      pub left :
          Leaves session org_id listed
            (d.list session org_id before).1
            (first_match d.name (name_of_spec spec) listed)
            w

    -- What the lookup found, in the state after it.
    record Looked (session : Session) (org_id : String) (spec : Spec) (o : Option Live) (w : W)
        : Type 0 where
      before : W
      listed : List Live
      answered : (d.list session org_id before).0 ≡ ok listed
      found : first_match d.name (name_of_spec spec) listed ≡ o
      after : w ≡ (d.list session org_id before).1

    abbrev Finds : Session → String → Spec → Answer (Option Live) → W → Type 0
    Finds session org_id spec (fail e) w = Unit {0}
    Finds session org_id spec (ok o) w = Looked session org_id spec o w

    -- Where no two listed objects have one name, none that has the name of the spec is left.
    Removed-none_left :
        (org_id : String) (spec : Spec) (w : W) (r : Removed org_id spec w)
        → IsUnique d.name r.listed
        → first_match d.name (name_of_spec spec) (laws.live org_id w) ≡ none
    Removed-none_left org_id spec w r u =
        by_found (first_match d.name (name_of_spec spec) r.listed) refl r.left
      where
        by_found :
            (o : Option Live)
            → first_match d.name (name_of_spec spec) r.listed ≡ o
            → Leaves r.session org_id r.listed (d.list r.session org_id r.before).1 o w
            → first_match d.name (name_of_spec spec) (laws.live org_id w) ≡ none
        by_found none h l = rw l.1 h
        by_found (some x) h l = rw l.2 (first_match-without d.id d.name _ r.listed x u h)

    module _ (what : String) (session : Session) (org_id : String) (spec : Spec) where
      abbrev name : String
      name = name_of_spec spec

      -- What the lookup tells of the state after it.
      find_by_name-Finds :
          (w : W) (a : Answer (Option Live))
          → (find_by_name d what session org_id name w).0 ≡ a
          → Finds session org_id spec a (find_by_name d what session org_id name w).1
      unfolding find_by_name
      find_by_name-Finds w (fail e) h = tt
      find_by_name-Finds w (ok o) h =
          let (xs, answered, e) = and_then-eq-ok _ _ (d.list session org_id w).0 o h in
          record {
            before = w;
            listed = xs;
            answered = answered;
            found = ground arith;
            after = refl;
          }

      abbrev ReadyState : State W Spec → Type 0
      ReadyState = ReadyLaw c kind Removed

      abbrev Done : Unit {0} → State W Spec → Type 0
      Done _ s = Law c kind Removed s × Removed org_id spec s.world

      abbrev Found : Answer (Option Live) → State W Spec → Type 0
      Found a s = ReadyState s × Finds session org_id spec a s.world

      ask-Found :
          Triple ReadyState
            (ask (find_by_name d what session org_id name))
            Found
            (Law c kind Removed)
      unfolding ask
      ask-Found = record { at = λ s p. (p, find_by_name-Finds s.world _ refl) }

      -- After the call the object found is gone, if the answer says so.
      abbrev Deleted : Answer (Unit {0}) → State W Spec → Type 0
      Deleted a s = Law c kind Removed s × (is_done a ≡ true → Removed org_id spec s.world)

      confirm-Done :
          (a : Answer (Unit {0})) → Triple (Deleted a) (confirm a) Done (Law c kind Removed)
      unfolding confirm
      confirm-Done (ok u) = Triple-pure tt (λ s p. (p.0, p.1 refl))
      confirm-Done (fail e) =
          Triple-if (is_not_found e) _ _ (λ h. Triple-pure tt (λ s p. (p.0, p.1 h)))
            (λ _. Triple-leave _ (λ s p. p.0))

      module _ (before : W) (listed : List Live)
          (answered : (d.list session org_id before).0 ≡ ok listed) where
        abbrev w₁ : W
        w₁ = (d.list session org_id before).1

        listed_live : laws.live org_id w₁ ≡ listed
        listed_live = laws.list_reads session org_id before listed answered

        none-Removed :
            first_match d.name name listed ≡ none → (w : W) → w ≡ w₁ → Removed org_id spec w
        none-Removed found w e = record {
          session = session;
          before = before;
          listed = listed;
          answered = answered;
          left = rw found (e, rw e listed_live);
        }

        some-Removed :
            (x : Live)
            → first_match d.name name listed ≡ some x
            → (w : W) → w ≡ w₁
            → is_done (d.delete session org_id (d.id x) w).0 ≡ true
            → Removed org_id spec (d.delete session org_id (d.id x) w).1
        some-Removed x found w e h = record {
          session = session;
          before = before;
          listed = listed;
          answered = answered;
          left = rw found (
            rw (sym e) h,
            rw (sym e) refl,
            rw (laws.delete_removes session org_id (d.id x) w h, e, listed_live) refl,
          );
        }

      delete-Deleted :
          (x : Live)
          → Triple
              (Found (ok (some x)))
              (tell (sdk_write (deletes (d.id x))) (d.delete session org_id (d.id x)))
              Deleted
              (Law c kind Removed)
      unfolding tell
      delete-Deleted x = record {
        at = λ s p. (
          (p.0.1, p.0.0),
          λ h. some-Removed p.1.before p.1.listed p.1.answered x p.1.found s.world p.1.after h,
        );
      }

      pub delete_by_name_gone :
          Triple
            (ReadyLaw c kind Removed)
            (delete_by_name d what session org_id (name_of_spec spec))
            (λ _ s. Law c kind Removed s × Removed org_id spec s.world)
            (Law c kind Removed)
      unfolding delete_by_name
      delete_by_name_gone = Triple-bind Found _ _ ask-Found λ a. by_answer a
        where
          by_answer :
              (a : Answer (Option Live))
              → Triple
                  (Found a)
                  (elim a [
                    | fail e ↦ leave (failed e)
                    | ok existing ↦ elim existing [
                      | none ↦ pure tt
                      | some live ↦ do
                        answer ←
                            tell
                              (sdk_write (deletes (d.id live)))
                              (d.delete session org_id (d.id live))
                        confirm answer
                    ]
                  ])
                  Done
                  (Law c kind Removed)
          by_answer (fail e) = Triple-leave _ (λ s p. p.0.0)
          by_answer (ok none) = Triple-pure tt λ s p.
              (p.0.0, none-Removed p.1.before p.1.listed p.1.answered p.1.found s.world p.1.after)
          by_answer (ok (some x)) = Triple-bind Deleted _ _ (delete-Deleted x) confirm-Done
