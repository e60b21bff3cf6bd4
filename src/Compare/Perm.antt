-- ===== src/Compare/Perm.antt =====
-- `equal_string_sets` decides whether two lists are permutations of one another.
use mathlib.Core.List.{Perm, Permᴰ}
use mathlib.Core.List.Perm
use mathlib.Core.Logic.{∥∥₁_elim}
use clavex_operator.Prelude.{
  suc, String, true, List, [], ◌∷◌, ◌≡◌, refl, sym, ap, ◌∙◌, ◌↔◌, ◌⊎◌, arith, inl, inr, length,
  str_le, eq_iff, eq_refl, str_le_total, str_le_antisymm, str_le_trans, Bool-cases,
}
use clavex_operator.Compare.{insert, sort, same_elements, equal_string_sets}

-- Inserting two elements in either order gives one list.
insert_comm : (x y : String) (l : List String) → insert x (insert y l) ≡ insert y (insert x l)
unfolding insert
insert_comm x y [] = ground (arith, str_le_total x y, str_le_antisymm x y)
insert_comm x y (z ∷ l) = ground (
  arith,
  str_le_total x y,
  str_le_total y z,
  str_le_total x z,
  str_le_antisymm x y,
  str_le_trans x y z,
  str_le_trans y x z,
  insert_comm x y l,
)

sort-Permᴰ : {a b : List String} → Permᴰ a b → sort a ≡ sort b
unfolding sort
sort-Permᴰ Permᴰ.nil = refl
sort-Permᴰ (Permᴰ.cons {a = x} e h) = cc (sort-Permᴰ h)
sort-Permᴰ (Permᴰ.swap {a = x} {b = y} {l = l} p q) = cc (insert_comm x y (sort l))
sort-Permᴰ (Permᴰ.trans h k) = sort-Permᴰ h ∙ sort-Permᴰ k

length-Permᴰ : {a b : List String} → Permᴰ a b → length a ≡ length b
length-Permᴰ Permᴰ.nil = refl
length-Permᴰ (Permᴰ.cons e h) = ap suc (length-Permᴰ h)
length-Permᴰ (Permᴰ.swap p q) = refl
length-Permᴰ (Permᴰ.trans h k) = length-Permᴰ h ∙ length-Permᴰ k

insert-perm : (x : String) (l : List String) → Perm (insert x l) (x ∷ l)
unfolding insert
insert-perm x [] = Perm.refl _
insert-perm x (y ∷ l) = elim (Bool-cases (str_le x y)) [
  | inl e ↦ rw e (Perm.refl _)
  | inr e ↦ rw e (Perm.trans (Perm.cons y (insert-perm x l)) (Perm.swap x y l))
]

sort-perm : (l : List String) → Perm (sort l) l
unfolding sort
sort-perm [] = Perm.refl _
sort-perm (x ∷ l) = Perm.trans (insert-perm x (sort l)) (Perm.cons x (sort-perm l))

pub same_elements_refl : (l : List String) → same_elements l l ≡ true
unfolding same_elements
same_elements_refl [] = refl
same_elements_refl (x ∷ l) = ground (arith, eq_refl x, same_elements_refl l)

pub same_elements_sound : (a b : List String) → same_elements a b ≡ true → a ≡ b
unfolding same_elements
same_elements_sound [] [] h = refl
same_elements_sound [] (y ∷ b) h = cc
same_elements_sound (x ∷ a) [] h = cc
same_elements_sound (x ∷ a) (y ∷ b) h = ground (arith, eq_iff x y, same_elements_sound a b)

pub length-perm : {a b : List String} → Perm a b → length a ≡ length b
length-perm h = ∥∥₁_elim h (hlevel) length-Permᴰ

pub sort-eq_of_perm : {a b : List String} → Perm a b → same_elements (sort a) (sort b) ≡ true
sort-eq_of_perm {a} {b} h =
    ∥∥₁_elim h (hlevel)
      (λ d. ap (same_elements (sort a)) (sym (sort-Permᴰ d)) ∙ same_elements_refl (sort a))

perm_of_sort : (a b : List String) → sort a ≡ sort b → Perm a b
perm_of_sort a b e = Perm.trans (Perm.symm (sort-perm a)) (rw e (sort-perm b))

perm_of_empty : (a b : List String) → length a ≡ 0 → length a ≡ length b → Perm a b
perm_of_empty [] [] h k = Perm.refl []
perm_of_empty [] (y ∷ b) h k = absurd (omega arith)
perm_of_empty (x ∷ a) b h k = absurd (omega arith)

-- The three returns of the function: a length test, the empty case, the element loop.
inversion :
    (a b : List String)
    → equal_string_sets a b ≡ true
    → (length a ≡ length b) × ((length a ≡ 0) ⊎ (sort a ≡ sort b))
unfolding equal_string_sets
inversion a b h = ground (arith, same_elements_sound (sort a) (sort b))

accepted :
    (a b : List String)
    → length a ≡ length b
    → same_elements (sort a) (sort b) ≡ true
    → equal_string_sets a b ≡ true
unfolding equal_string_sets
accepted a b h k = ground arith

perm_of_equal : (a b : List String) → equal_string_sets a b ≡ true → Perm a b
perm_of_equal a b h =
    let (k, e) = inversion a b h in
    elim e [ inl z ↦ perm_of_empty a b z k | inr p ↦ perm_of_sort a b p ]

-- The comparison answers yes exactly when the two slices hold the same strings equally often, in
-- whatever order.
pub equal_string_sets_iff : (a b : List String) → (equal_string_sets a b ≡ true) ↔ Perm a b
equal_string_sets_iff a b =
    (perm_of_equal a b, λ h. accepted a b (length-perm h) (sort-eq_of_perm h))

pub equal_string_sets_refl : (a : List String) → equal_string_sets a a ≡ true
equal_string_sets_refl a = (equal_string_sets_iff a a).1 (Perm.refl a)
