-- ===== src/DeepCopy/Layout.antt =====
-- What a Go value shows through its addresses, and which addresses it reaches.
use clavex_operator.Prelude.{
  ℕ, ◌<◌, List, [], ◌∷◌, Option, none, some, ◌≡◌, refl, ap, ◌∙◌, ◌⊎◌, inl, inr, map, length,
}
use clavex_operator.DeepCopy.Memory.{load, Part, load_as, load_as_same, load_as_inside}

pub record Layout (C T : Type 0) : Type 1 where
  -- What `x` shows in the memory `m`; `Reaches m x a` where it does so through the address `a`.
  pub View : Type 0
  pub see : List C → T → View
  pub Reaches : List C → T → ℕ → Type 0
  -- No address in use is one of nothing, or of something of another type.
  pub IsTyped : List C → T → Type 0
  pub within : {m : List C} {x : T} {a : ℕ} → IsTyped m x → Reaches m x a → a < length m
  -- All that counts are the cells at the addresses that are reached.
  pub sees :
      {m m' : List C} {x : T}
      → IsTyped m x
      → ((a : ℕ) → Reaches m x a → load a m' ≡ load a m)
      → see m' x ≡ see m x
  pub reaches :
      {m m' : List C} {x : T} {a : ℕ}
      → IsTyped m x
      → ((a : ℕ) → Reaches m x a → load a m' ≡ load a m)
      → Reaches m' x a
      → Reaches m x a
  pub stays :
      {m m' : List C} {x : T}
      → IsTyped m x
      → ((a : ℕ) → Reaches m x a → load a m' ≡ load a m)
      → IsTyped m' x

-- A value without addresses, or of which only `show` is seen.
unfoldable pub shown : {C T V : Type 0} → (T → V) → Layout C T
shown {V = V} show = record {
  View = V;
  see = λ m x. show x;
  Reaches = λ m x a. ⊥;
  IsTyped = λ m x. Unit;
  within = λ t r. absurd r;
  sees = λ t f. refl;
  reaches = λ t f r. r;
  stays = λ t f. tt;
}

-- Two fields.
unfoldable pub both : {C T U : Type 0} → Layout C T → Layout C U → Layout C (T × U)
both L M = record {
  View = L.View × M.View;
  see = λ m x. (L.see m x.0, M.see m x.1);
  Reaches = λ m x a. L.Reaches m x.0 a ⊎ M.Reaches m x.1 a;
  IsTyped = λ m x. L.IsTyped m x.0 × M.IsTyped m x.1;
  within = λ t r. elim r [ inl p ↦ L.within t.0 p | inr p ↦ M.within t.1 p ];
  sees = λ t f i. (L.sees t.0 (λ a r. f a (inl r)) i, M.sees t.1 (λ a r. f a (inr r)) i);
  reaches = λ t f r. elim r [
    | inl p ↦ inl (L.reaches t.0 (λ a r. f a (inl r)) p)
    | inr p ↦ inr (M.reaches t.1 (λ a r. f a (inr r)) p)
  ];
  stays = λ t f. (L.stays t.0 (λ a r. f a (inl r)), M.stays t.1 (λ a r. f a (inr r)));
}

-- A struct, by its fields.
unfoldable pub along : {C T U : Type 0} → (T → U) → Layout C U → Layout C T
along fields L = record {
  View = L.View;
  see = λ m x. L.see m (fields x);
  Reaches = λ m x a. L.Reaches m (fields x) a;
  IsTyped = λ m x. L.IsTyped m (fields x);
  within = λ t r. L.within t r;
  sees = λ t f. L.sees t f;
  reaches = λ t f r. L.reaches t f r;
  stays = λ t f. L.stays t f;
}

module _ {C T : Type 0} (L : Layout C T) where
  abbrev Among : List C → List T → ℕ → Type 0
  Among m [] a = ⊥
  Among m (x ∷ xs) a = L.Reaches m x a ⊎ Among m xs a

  abbrev AllTyped : List C → List T → Type 0
  AllTyped m [] = Unit
  AllTyped m (x ∷ xs) = L.IsTyped m x × AllTyped m xs

  pub within_list : (m : List C) (xs : List T) (a : ℕ) → AllTyped m xs → Among m xs a → a < length m
  within_list m [] a t r = absurd r
  within_list m (x ∷ xs) a t (inl p) = L.within t.0 p
  within_list m (x ∷ xs) a t (inr p) = within_list m xs a t.1 p

  pub sees_list :
      (m m' : List C) (xs : List T)
      → AllTyped m xs
      → ((a : ℕ) → Among m xs a → load a m' ≡ load a m)
      → map (L.see m') xs ≡ map (L.see m) xs
  sees_list m m' [] t f i = []
  sees_list m m' (x ∷ xs) t f i =
      L.sees t.0 (λ a r. f a (inl r)) i ∷ sees_list m m' xs t.1 (λ a r. f a (inr r)) i

  pub reaches_list :
      (m m' : List C) (xs : List T) (a : ℕ)
      → AllTyped m xs
      → ((a : ℕ) → Among m xs a → load a m' ≡ load a m)
      → Among m' xs a
      → Among m xs a
  reaches_list m m' [] a t f r = r
  reaches_list m m' (x ∷ xs) a t f (inl p) = inl (L.reaches t.0 (λ a r. f a (inl r)) p)
  reaches_list m m' (x ∷ xs) a t f (inr p) = inr (reaches_list m m' xs a t.1 (λ a r. f a (inr r)) p)

  pub stays_list :
      (m m' : List C) (xs : List T)
      → AllTyped m xs
      → ((a : ℕ) → Among m xs a → load a m' ≡ load a m)
      → AllTyped m' xs
  stays_list m m' [] t f = tt
  stays_list m m' (x ∷ xs) t f =
      (L.stays t.0 (λ a r. f a (inl r)), stays_list m m' xs t.1 (λ a r. f a (inr r)))

  -- The elements of a slice.
  unfoldable pub each : Layout C (List T)
  each = record {
    View = List L.View;
    see = λ m xs. map (L.see m) xs;
    Reaches = Among;
    IsTyped = AllTyped;
    within = λ {m} {x} {a} t r. within_list m x a t r;
    sees = λ {m} {m'} {x} t f. sees_list m m' x t f;
    reaches = λ {m} {m'} {x} {a} t f r. reaches_list m m' x a t f r;
    stays = λ {m} {m'} {x} t f. stays_list m m' x t f;
  }

-- A pointer, a slice or a map: nil, or an address.
module _ {C A : Type 0} (part : Part C A) (L : Layout C A) where
  abbrev look : List C → Option A → Option L.View
  look m none = none
  look m (some v) = some (L.see m v)

  abbrev Content : List C → Option A → ℕ → Type 0
  Content m none a = ⊥
  Content m (some v) a = L.Reaches m v a

  abbrev seen : List C → Option ℕ → Option (Option L.View)
  seen m none = none
  seen m (some b) = some (look m (load_as part b m))

  abbrev Follows : List C → Option ℕ → ℕ → Type 0
  Follows m none a = ⊥
  Follows m (some b) a = (a ≡ b) ⊎ Content m (load_as part b m) a

  abbrev Points : List C → Option ℕ → Type 0
  Points m none = Unit
  Points m (some b) = (v : A) × (load_as part b m ≡ some v) × L.IsTyped m v

  kept :
      (m m' : List C) (b : ℕ) (v : A)
      → load_as part b m ≡ some v
      → ((a : ℕ) → Follows m (some b) a → load a m' ≡ load a m)
      → load_as part b m' ≡ some v
  kept m m' b v e f = load_as_same part b m m' (f b (inl refl)) ∙ e

  inner :
      (m m' : List C) (b : ℕ) (v : A)
      → load_as part b m ≡ some v
      → ((a : ℕ) → Follows m (some b) a → load a m' ≡ load a m)
      → ((a : ℕ) → L.Reaches m v a → load a m' ≡ load a m)
  inner m m' b v e f a r = f a (inr (rw e r))

  pub point_within : (m : List C) (x : Option ℕ) (a : ℕ) → Points m x → Follows m x a → a < length m
  point_within m none a t r = absurd r
  point_within m (some b) a (v, e, t) (inl p) = rw p (load_as_inside part b m v e)
  point_within m (some b) a (v, e, t) (inr p) = L.within t (rw e at p)

  pub point_sees :
      (m m' : List C) (x : Option ℕ)
      → Points m x
      → ((a : ℕ) → Follows m x a → load a m' ≡ load a m)
      → seen m' x ≡ seen m x
  point_sees m m' none t f = refl
  point_sees m m' (some b) (v, e, t) f =
      rw (kept m m' b v e f) (rw e (ap (λ x. some (some x)) (L.sees t (inner m m' b v e f))))

  pub point_reaches :
      (m m' : List C) (x : Option ℕ) (a : ℕ)
      → Points m x
      → ((a : ℕ) → Follows m x a → load a m' ≡ load a m)
      → Follows m' x a
      → Follows m x a
  point_reaches m m' none a t f r = r
  point_reaches m m' (some b) a (v, e, t) f (inl p) = inl p
  point_reaches m m' (some b) a (v, e, t) f (inr p) =
      inr (rw e (L.reaches t (inner m m' b v e f) (rw (kept m m' b v e f) at p)))

  pub point_stays :
      (m m' : List C) (x : Option ℕ)
      → Points m x
      → ((a : ℕ) → Follows m x a → load a m' ≡ load a m)
      → Points m' x
  point_stays m m' none t f = tt
  point_stays m m' (some b) (v, e, t) f = (v, kept m m' b v e f, L.stays t (inner m m' b v e f))

  unfoldable pub pointer : Layout C (Option ℕ)
  pointer = record {
    View = Option (Option L.View);
    see = seen;
    Reaches = Follows;
    IsTyped = Points;
    within = λ {m} {x} {a} t r. point_within m x a t r;
    sees = λ {m} {m'} {x} t f. point_sees m m' x t f;
    reaches = λ {m} {m'} {x} {a} t f r. point_reaches m m' x a t f r;
    stays = λ {m} {m'} {x} t f. point_stays m m' x t f;
  }
