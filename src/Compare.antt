-- ===== src/Compare.antt =====
-- internal/controller/compare.go: the order-insensitive comparison behind drift detection, and
-- the two standard comparisons of slices and optional values that the reconcilers use.
-- `slices.Sort` is modelled by insertion; any sorting routine gives the same list, since the
-- order of strings is total and antisymmetric.
pub mod Perm
use clavex_operator.Prelude.{
  String, Bool, true, false, List, [], ◌∷◌, Option, none, some, not, ◌&&◌, ◌==◌, length, str_eq,
  str_le, if◌then◌else◌,
}

pub insert : String → List String → List String
insert x [] = x ∷ []
insert x (y ∷ ys) = if str_le x y then x ∷ y ∷ ys else y ∷ insert x ys

-- `slices.Sort`
pub sort : List String → List String
unfolding insert
sort [] = []
sort (x ∷ xs) = insert x (sort xs)

-- The loop over `ca`: the first index at which the sorted copies differ ends it. It is the whole
-- of `slices.Equal` too, where the lengths are compared first.
unfoldable pub same_elements : List String → List String → Bool
same_elements [] [] = true
same_elements [] (y ∷ ys) = false
same_elements (x ∷ xs) [] = false
same_elements (x ∷ xs) (y ∷ ys) = str_eq x y && same_elements xs ys

unfoldable pub equal_string_sets : List String → List String → Bool
unfolding sort same_elements
equal_string_sets a b =
    if not (length a == length b)
    then false
    else if length a == 0
    then true
    else same_elements (sort a) (sort b)
