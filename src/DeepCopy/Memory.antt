-- ===== src/DeepCopy/Memory.antt =====
-- Memory: what a pointer, slice or map of Go points to is a cell, at an address of its own. The
-- newest cell comes first, so the address of a cell is the number of the cells before it.
use clavex_operator.Prelude.{
  ℕ, ◌<◌, List, [], ◌∷◌, Option, none, some, ◌≡◌, ◌≢◌, refl, arith, ◌==◌, if◌then◌else◌, length,
}

module _ {C : Type 0} where
  unfoldable pub load : ℕ → List C → Option C
  load a [] = none
  load a (c ∷ m) = if a == length m then some c else load a m

  unfoldable pub store : ℕ → C → List C → List C
  store a c [] = []
  store a c (d ∷ m) = if a == length m then c ∷ m else d ∷ store a c m

  pub load_new : (c : C) (m : List C) → load (length m) (c ∷ m) ≡ some c
  unfolding load
  load_new c m = ground arith

  pub load_old : (a : ℕ) (c : C) (m : List C) → a < length m → load a (c ∷ m) ≡ load a m
  unfolding load
  load_old a c m h = ground arith

  pub length-store : (a : ℕ) (c : C) (m : List C) → length (store a c m) ≡ length m
  unfolding store
  length-store a c [] = refl
  length-store a c (d ∷ m) = ground (arith, length-store a c m)

  pub load-store : (a b : ℕ) (c : C) (m : List C) → a ≢ b → load a (store b c m) ≡ load a m
  unfolding load store
  load-store a b c [] h = refl
  load-store a b c (d ∷ m) h = ground (arith, load-store a b c m h, length-store b c m)

-- How a cell holds an `A`.
pub record Part (C A : Type 0) : Type 0 where
  pub wrap : A → C
  pub read : C → Option A
  pub reads : (v : A) → read (wrap v) ≡ some v

module _ {C A : Type 0} (part : Part C A) where
  unfoldable pub load_as : ℕ → List C → Option A
  load_as a m = elim (load a m) [ none ↦ none | some c ↦ part.read c ]

  pub load_as_same : (a : ℕ) (m m' : List C) → load a m' ≡ load a m → load_as a m' ≡ load_as a m
  unfolding load_as
  load_as_same a m m' e = rw (load_as, e) refl

  pub load_as_new : (v : A) (m : List C) → load_as (length m) (part.wrap v ∷ m) ≡ some v
  unfolding load_as
  load_as_new v m = rw (load_as, load_new (part.wrap v) m) (part.reads v)

  pub load_as_inside : (a : ℕ) (m : List C) (v : A) → load_as a m ≡ some v → a < length m
  unfolding load_as load
  load_as_inside a [] v e = cc
  load_as_inside a (c ∷ m) v e = ground (arith, load_as_inside a m v)
