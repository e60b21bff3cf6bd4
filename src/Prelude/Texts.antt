-- ===== src/Prelude/Texts.antt =====
-- Go compares strings byte by byte, which on UTF-8 is the order of the code points. The laws of
-- that order, and the operations on texts that the program uses.
use Prim.Native.Nat.{Ordering, compare as compare_ℕ}
use Prim.Native.Char.{Char, code}
use Prim.Native.String.{String, [], ◌∷◌, ◌++◌, compare}
use Prim.Native.String.compare
use mathlib.Core.Path.{◌≡◌, refl}
use mathlib.Core.Bool.{Bool, true, false}
use native.Mathlib.Omega.{arith}
use text.Mathlib.Text
use text.Mathlib.TextEquality.{Char-path}

abbrev pub str_eq : String → String → Bool
str_eq s t = Text.◌==◌ s t

infixr 65 ◌<>◌
abbrev pub ◌<>◌ : String → String → String
s <> t = s ++ t

-- s ≤ t, as Go's `<=` on strings.
abbrev pub str_le : String → String → Bool
str_le s t = elim (compare s t) [ Ordering.gt ↦ false | _ ↦ true ]

-- The three answers of a comparison, by clauses: equal texts, and the first difference.
str_le-cons :
    (c d : Char) (s t : String)
    → str_le (c ∷ s) (d ∷ t) ≡ (elim (compare_ℕ (code c) (code d)) [
      | Ordering.lt ↦ true
      | Ordering.eq ↦ str_le s t
      | Ordering.gt ↦ false
    ])
str_le-cons c d s t = ground (arith, compare.cons-cons c d s t)

pub str_le_total : (s t : String) → str_le s t ≡ false → str_le t s ≡ true
str_le_total [] [] h = ground (arith, compare.nil-nil)
str_le_total [] (d ∷ t) h = ground (arith, compare.nil-cons d t)
str_le_total (c ∷ s) [] h = ground (arith, compare.nil-cons c s)
str_le_total (c ∷ s) (d ∷ t) h =
    ground (arith, str_le-cons c d s t, str_le-cons d c t s, str_le_total s t)

pub str_le_antisymm : (s t : String) → str_le s t ≡ true → str_le t s ≡ true → s ≡ t
str_le_antisymm [] [] h k = refl
str_le_antisymm [] (d ∷ t) h k = ground (arith, compare.cons-nil d t)
str_le_antisymm (c ∷ s) [] h k = ground (arith, compare.cons-nil c s)
str_le_antisymm (c ∷ s) (d ∷ t) h k =
    ground (arith, str_le-cons c d s t, str_le-cons d c t s, Char-path c d, str_le_antisymm s t)

pub str_le_trans : (s t u : String) → str_le s t ≡ true → str_le t u ≡ true → str_le s u ≡ true
str_le_trans [] t [] h k = ground (arith, compare.nil-nil)
str_le_trans [] t (e ∷ u) h k = ground (arith, compare.nil-cons e u)
str_le_trans (c ∷ s) [] u h k = ground (arith, compare.cons-nil c s)
str_le_trans (c ∷ s) (d ∷ t) [] h k = ground (arith, compare.cons-nil d t)
str_le_trans (c ∷ s) (d ∷ t) (e ∷ u) h k =
    ground
      (arith, str_le-cons c d s t, str_le-cons d e t u, str_le-cons c e s u, str_le_trans s t u)
