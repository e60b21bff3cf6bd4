-- ===== src/DeepCopy/Copies.antt =====
-- What a deep copy is, and that the steps of the DeepCopyInto methods make one.
use clavex_operator.Prelude.{
  ℕ, ◌<◌, ◌≤◌, String, List, [], ◌∷◌, Option, none, some, ◌≡◌, refl, ap, ◌∙◌, arith, inl, inr,
  length,
}
use clavex_operator.AuthSecret.{entry}
use clavex_operator.AuthSecret.Laws.{entry-put_entry}
use clavex_operator.DeepCopy.Memory.{load, load_old, Part, load_as, load_as_new}
use clavex_operator.DeepCopy.Layout.{Layout, shown, both, along, each, pointer}
use clavex_operator.DeepCopy.Into.{
  assigned, copy_pointer, copy_each, make_strings, copy_strings, new_strings, copy_entries,
  new_entries,
}

-- `y` in the memory `m'` is a deep copy of `x` in `m`: it shows the same, all that it reaches is new,
-- and what there was before is still there.
pub record Copied {C T : Type 0} (L : Layout C T) (x : T) (m : List C) (y : T) (m' : List C)
    : Type 0 where
  pub same : L.see m' y ≡ L.see m x
  pub typed : L.IsTyped m' y
  pub fresh : (a : ℕ) → L.Reaches m' y a → length m ≤ a
  pub longer : length m ≤ length m'
  pub keeps : (a : ℕ) → a < length m → load a m' ≡ load a m

-- The method makes a deep copy of every value whose addresses are in order.
pub record Copies {C T : Type 0} (L : Layout C T) (into : T → List C → T × List C) : Type 0 where
  pub copied : (x : T) (m : List C) → L.IsTyped m x → Copied L x m (into x m).0 (into x m).1

-- What was reached before is as it was.
module _ {C T : Type 0} (L : Layout C T) {x : T} (m m' : List C) where
  pub unmoved :
      L.IsTyped m x
      → ((a : ℕ) → a < length m → load a m' ≡ load a m)
      → ((a : ℕ) → L.Reaches m x a → load a m' ≡ load a m)
  unmoved t f a r = f a (L.within t r)

pub shown-Copies :
    {C T V : Type 0} (show : T → V) (f : T → T)
    → ((x : T) → show (f x) ≡ show x)
    → Copies {C = C} (shown show) (λ x m. (f x, m))
unfolding shown
shown-Copies show f e = record {
  copied = λ x m t. record {
    same = e x;
    typed = tt;
    fresh = λ a r. absurd r;
    longer = omega arith;
    keeps = λ a h. refl;
  };
}

module _ {C T U : Type 0} (L : Layout C T) (M : Layout C U) (f : T → List C → T × List C)
    (g : U → List C → U × List C) where
  abbrev pub in_turn : T × U → List C → (T × U) × List C
  in_turn x m = let (y, m₁) = f x.0 m in let (z, m₂) = g x.1 m₁ in ((y, z), m₂)

  both-Copied :
      Copies L f
      → Copies M g
      → (x : T × U) (m : List C) → (both L M).IsTyped m x
      → Copied (both L M) x m (in_turn x m).0 (in_turn x m).1
  unfolding both
  both-Copied p q x m (t, u) =
      let (y, m₁) = f x.0 m in
      let c = p.copied x.0 m t in
      let m₂ = (g x.1 m₁).1 in
      let before = unmoved M m m₁ u c.keeps in
      let d = q.copied x.1 m₁ (M.stays u before) in
      let still = unmoved L m₁ m₂ c.typed d.keeps in
      record {
        same = λ i. ((L.sees c.typed still ∙ c.same) i, (d.same ∙ M.sees u before) i);
        typed = (L.stays c.typed still, d.typed);
        fresh = λ a r. elim r [
          | inl s ↦ c.fresh a (L.reaches c.typed still s)
          | inr s ↦ omega (arith, d.fresh a s, c.longer)
        ];
        longer = omega (arith, c.longer, d.longer);
        keeps = λ a h. d.keeps a (omega (arith, c.longer, h)) ∙ c.keeps a h;
      }

  pub both-Copies : Copies L f → Copies M g → Copies (both L M) in_turn
  both-Copies p q = record { copied = both-Copied p q }

module _ {C T U : Type 0} (fields : T → U) (L : Layout C U) (f : U → List C → U × List C)
    (g : T → List C → T × List C) where
  -- A method that copies the fields of a struct in turn.
  pub along-Copies :
      ((x : T) (m : List C)
        → (fields (g x m).0 ≡ (f (fields x) m).0) × ((g x m).1 ≡ (f (fields x) m).1))
      → Copies L f
      → Copies (along fields L) g
  unfolding along
  along-Copies e p = record {
    copied = λ x m t.
        let c = p.copied (fields x) m t in
        let (e₁, e₂) = e x m in
        record {
          same = rw (e₁, e₂) c.same;
          typed = rw (e₁, e₂) c.typed;
          fresh = λ a r. c.fresh a (rw (e₁, e₂) at r);
          longer = rw e₂ c.longer;
          keeps = λ a h. rw e₂ (c.keeps a h);
        };
  }

module _ {C T : Type 0} (L : Layout C T) (f : T → List C → T × List C) where
  each-Copied :
      Copies L f
      → (xs : List T) (m : List C) → (each L).IsTyped m xs
      → Copied (each L) xs m (copy_each f xs m).0 (copy_each f xs m).1
  unfolding copy_each each
  each-Copied p [] m t = record {
    same = refl;
    typed = tt;
    fresh = λ a r. absurd r;
    longer = omega arith;
    keeps = λ a h. refl;
  }
  each-Copied p (x ∷ xs) m (t, u) =
      let m₁ = (f x m).1 in
      let m₂ = (copy_each f xs m₁).1 in
      let c = p.copied x m t in
      let before = unmoved (each L) m m₁ u c.keeps in
      let d = each-Copied p xs m₁ ((each L).stays u before) in
      let still = unmoved L m₁ m₂ c.typed d.keeps in
      record {
        same = λ i. (L.sees c.typed still ∙ c.same) i ∷ (d.same ∙ (each L).sees u before) i;
        typed = (L.stays c.typed still, d.typed);
        fresh = λ a r. elim r [
          | inl s ↦ c.fresh a (L.reaches c.typed still s)
          | inr s ↦ omega (arith, d.fresh a s, c.longer)
        ];
        longer = omega (arith, c.longer, d.longer);
        keeps = λ a h. d.keeps a (omega (arith, c.longer, h)) ∙ c.keeps a h;
      }

  pub each-Copies : Copies L f → Copies (each L) (copy_each f)
  each-Copies p = record { copied = each-Copied p }

module _ {C A : Type 0} (part : Part C A) (L : Layout C A) (f : A → List C → A × List C) where
  -- A cell of its own for the copy of what was found.
  new_cell :
      (b : ℕ) (m : List C) (v : A)
      → load_as part b m ≡ some v
      → L.IsTyped m v
      → Copied L v m (f v m).0 (f v m).1
      → Copied
          (pointer part L)
          (some b)
          m
          (some (length (f v m).1))
          (part.wrap (f v m).0 ∷ (f v m).1)
  unfolding pointer
  new_cell b m v e t c =
      let w = (f v m).0 in
      let m₁ = (f v m).1 in
      let m₂ = part.wrap w ∷ m₁ in
      let old : (a : ℕ) → a < length m₁ → load a m₂ ≡ load a m₁ =
        λ a h. load_old a (part.wrap w) m₁ h in
      let still = unmoved L m₁ m₂ c.typed old in
      let found = load_as_new part w m₁ in
      record {
        same = rw found (rw e (ap (λ x. some (some x)) (L.sees c.typed still ∙ c.same)));
        typed = (w, found, L.stays c.typed still);
        fresh = λ a r. elim r [
          | inl s ↦ rw s c.longer
          | inr s ↦ c.fresh a (L.reaches c.typed still (rw found at s))
        ];
        longer = omega (arith, c.longer);
        keeps = λ a h. old a (omega (arith, c.longer, h)) ∙ c.keeps a h;
      }

  pointer-Copied :
      Copies L f
      → (x : Option ℕ) (m : List C) → (pointer part L).IsTyped m x
      → Copied (pointer part L) x m (copy_pointer part f x m).0 (copy_pointer part f x m).1
  unfolding copy_pointer pointer
  pointer-Copied p none m t = record {
    same = refl;
    typed = tt;
    fresh = λ a r. absurd r;
    longer = omega arith;
    keeps = λ a h. refl;
  }
  pointer-Copied p (some b) m (v, e, t) = rw (copy_pointer, e) (new_cell b m v e t (p.copied v m t))

  pub pointer-Copies : Copies L f → Copies (pointer part L) (copy_pointer part f)
  pointer-Copies p = record { copied = pointer-Copied p }

copy_strings_all : (xs : List String) → copy_strings (make_strings (length xs)) xs ≡ xs
unfolding copy_strings make_strings
copy_strings_all [] = refl
copy_strings_all (x ∷ xs) = ap (λ ys. x ∷ ys) (copy_strings_all xs)

pub strings-Copies : {C : Type 0} → Copies {C = C} (shown (λ (xs : List String). xs)) new_strings
strings-Copies = shown-Copies _ _ copy_strings_all

kept : (es : List (String × String)) (j : String) → entry j (copy_entries es) ≡ entry j es
unfolding copy_entries entry
kept [] j = refl
kept ((k, v) ∷ es) j = entry-put_entry k j v (copy_entries es) ∙ rw (kept es j) refl

-- A map shows what it has at each key.
abbrev pub at_keys : List (String × String) → String → Option String
at_keys es k = entry k es

pub entries-Copies : {C : Type 0} → Copies {C = C} (shown at_keys) new_entries
entries-Copies = shown-Copies _ _ (λ es i k. kept es k i)

pub assigned-Copies : {C T : Type 0} → Copies {C = C} (shown (λ (x : T). x)) assigned
assigned-Copies = shown-Copies _ _ (λ x. refl)
