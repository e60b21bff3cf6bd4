-- ===== src/Named/Without.antt =====
-- A listing less the objects with one id, and what it has under a name.
use clavex_operator.Prelude.{
  String, List, [], ◌∷◌, none, some, ◌≡◌, refl, arith, str_eq, eq_iff, if◌then◌else◌,
}
use clavex_operator.Named.{first_match}

-- What is left after an object is deleted by its id.
unfoldable pub without : {Live : Type 0} → (Live → String) → String → List Live → List Live
without id_of id [] = []
without id_of id (x ∷ xs) =
    if str_eq (id_of x) id then without id_of id xs else x ∷ without id_of id xs

-- No two objects have one name.
abbrev pub IsUnique : {Live : Type 0} → (Live → String) → List Live → Type 0
IsUnique name_of [] = Unit {0}
IsUnique name_of (x ∷ xs) = (first_match name_of (name_of x) xs ≡ none) × IsUnique name_of xs

module _ {Live : Type 0} (id_of name_of : Live → String) where
  first_match-without-none :
      (n id : String) (xs : List Live)
      → first_match name_of n xs ≡ none
      → first_match name_of n (without id_of id xs) ≡ none
  unfolding first_match without
  first_match-without-none n id [] h = refl
  first_match-without-none n id (x ∷ xs) h = ground (arith, first_match-without-none n id xs)

  -- Deleting the object that the lookup found leaves none of that name.
  pub first_match-without :
      (n : String) (xs : List Live) (x : Live)
      → IsUnique name_of xs
      → first_match name_of n xs ≡ some x
      → first_match name_of n (without id_of (id_of x) xs) ≡ none
  unfolding first_match without
  first_match-without n [] x u h = cc
  first_match-without n (y ∷ ys) x u h = ground (
    arith,
    eq_iff (name_of y) n,
    eq_iff (id_of y) (id_of x),
    first_match-without-none n (id_of x) ys,
    first_match-without n ys x u.1,
  )
