-- ===== src/Group/Sets.antt =====
-- The sets of ids that a sync builds, and its two loops over them.
use mathlib.Core.Path.{ap}
use clavex_operator.Prelude.{
  String, Bool, true, false, List, [], ◌∷◌, none, some, ◌≡◌, refl, arith, ◌&&◌, ◌||◌, not, str_eq,
  eq_iff, if◌then◌else◌, Option-cases, inl, inr, ◌⊎◌, ◌∙◌,
}
use clavex_operator.Api.{Answer, ok, fail, wrapped}
use clavex_operator.AuthSecret.{entry}
use clavex_operator.AuthSecret.Laws.{and_then-eq-ok}
use clavex_operator.Reconcile.Flow.{Flow, next, exit, Step, pure, continue, ◌>>=◌}
use clavex_operator.Reconcile.Calls.{State, tell, sdk_write, Mutation, succeeded}
use clavex_operator.Role.{Role}
use clavex_operator.Group.{
  GroupSpec, has_id, add_id, want_ids, current_ids, each_outside, wrap_with,
}

-- The listing has a role with this id.
unfoldable pub shows_role : String → List Role → Bool
shows_role id [] = false
shows_role id (role ∷ roles) = str_eq role.id id || shows_role id roles

-- Some of the names stands for this id.
unfoldable pub named : List (String × String) → String → List String → Bool
unfolding entry
named m id [] = false
named m id (name ∷ names) =
    (elim (entry name m) [ none ↦ false | some x ↦ str_eq x id ]) || named m id names

pub has_id-add_id :
    (j id : String) (ids : List String) → has_id j (add_id id ids) ≡ (str_eq id j || has_id j ids)
unfolding add_id
has_id-add_id j id ids = ground (arith, eq_iff id j)

-- Every name stands for some id.
unfoldable pub all_known : List (String × String) → List String → Bool
unfolding entry
all_known m [] = true
all_known m (name ∷ names) =
    (elim (entry name m) [ none ↦ false | some x ↦ true ]) && all_known m names

pub has_id-current_ids :
    (j : String) (roles : List Role) (ids : List String)
    → has_id j (current_ids roles ids) ≡ (shows_role j roles || has_id j ids)
unfolding current_ids shows_role
has_id-current_ids j [] ids = refl
has_id-current_ids j (role ∷ roles) ids =
    ground (arith, has_id-current_ids j roles (add_id role.id ids), has_id-add_id j role.id ids)

pub want_ids-all_known :
    (org : String) (m : List (String × String)) (names ids want : List String)
    → want_ids org m names ids ≡ ok want
    → all_known m names ≡ true
unfolding want_ids all_known
want_ids-all_known org m [] ids want h = refl
want_ids-all_known org m (name ∷ names) ids want h = elim (Option-cases (entry name m)) [
  | inl k ↦ cc
  | inr (id, k) ↦ ground (arith, k, want_ids-all_known org m names (add_id id ids) want)
]

pub has_id-want_ids :
    (org : String) (m : List (String × String)) (names ids want : List String) (j : String)
    → want_ids org m names ids ≡ ok want
    → has_id j want ≡ (has_id j ids || named m j names)
unfolding want_ids named
has_id-want_ids org m [] ids want j h = ground arith
has_id-want_ids org m (name ∷ names) ids want j h = elim (Option-cases (entry name m)) [
  | inl k ↦ cc
  | inr (id, k) ↦
      ground (arith, k, has_id-want_ids org m names (add_id id ids) want j, has_id-add_id j id ids)
]

-- How a step that goes on with a success came about.
pub bind-ok :
    {S A B : Type 0} (x : Flow S A) (f : A → Step S B) (y : B) (s : S)
    → continue x f ≡ next y s
    → (a : A) × (t : S) × (x ≡ next a t) × (f a t ≡ next y s)
bind-ok (next a t) f y s h = (a, t, refl, h)
bind-ok (exit o t) f y s h = cc

abbrev on_ok : {S A B : Type 0} → Answer A → (A → Step S (Answer B)) → Step S (Answer B)
on_ok a f = elim a [ ok x ↦ f x | fail e ↦ pure (fail e) ]

pub answer-ok :
    {S A B : Type 0} (a : Answer A) (f : A → Step S (Answer B)) (y : B) (t s : S)
    → on_ok a f t ≡ next (ok y) s
    → (x : A) × (a ≡ ok x) × (f x t ≡ next (ok y) s)
answer-ok (ok x) f y t s h = (x, refl, h)
answer-ok (fail e) f y t s h = cc

branch_taken :
    {S A : Type 0} (b : Bool) (m n : Step S A) (s : S) (y : Flow S A)
    → (if b then m else n) s ≡ y
    → ((b ≡ true) × (m s ≡ y)) ⊎ ((b ≡ false) × (n s ≡ y))
branch_taken true m n s y h = inl (refl, h)
branch_taken false m n s y h = inr (refl, h)

module _ {W : Type 0} where
  -- A loop whose calls each set one id: afterwards the test `holds` is set for the ids outside.
  pub each_outside-sets :
      (call : String → Step (State W GroupSpec) (Answer (Unit {0})))
      (holds : State W GroupSpec → Bool) (j : String) (others ids : List String)
      (s s₁ : State W GroupSpec)
      → ((id : String) (t t₁ : State W GroupSpec)
          → call id t ≡ next (ok tt) t₁
          → holds t₁ ≡ (str_eq id j || holds t))
      → each_outside call others ids s ≡ next (ok tt) s₁
      → holds s₁ ≡ ((has_id j ids && not (has_id j others)) || holds s)
  unfolding each_outside
  each_outside-sets call holds j others [] s s₁ law h = let e : s ≡ s₁ = cc h in ground (arith, e)
  each_outside-sets call holds j others (id ∷ ids) s s₁ law h =
      elim (branch_taken (has_id id others) _ _ s _ h) [
        | inl (k, g) ↦
            ground (arith, k, eq_iff id j, each_outside-sets call holds j others ids s s₁ law g)
        | inr (k, g) ↦
            let (a, t, e, g₁) = bind-ok (call id s) _ _ s₁ g in
            let (x, e₁, g₂) = answer-ok a _ _ t s₁ g₁ in
            let called : call id s ≡ next (ok tt) t = e ∙ ap (λ z. next z t) e₁ in
            ground (
              arith,
              k,
              eq_iff id j,
              law id s t called,
              each_outside-sets call holds j others ids t s₁ law g₂,
            )
      ]

  -- What a single change that succeeds leaves.
  pub changes :
      (m : Mutation) (call : W → Answer (Unit {0}) × W) (what : String) (t t₁ : State W GroupSpec)
      → (tell (sdk_write m) call >>= λ a. pure (wrap_with what a)) t ≡ next (ok tt) t₁
      → (succeeded (call t.world).0 ≡ true) × (t₁.world ≡ (call t.world).1)
  unfolding tell
  changes m call what t t₁ h =
      let e : wrap_with what (call t.world).0 ≡ ok tt = cc h in
      let (x, e₁, e₂) = and_then-eq-ok (wrapped what) ok (call t.world).0 tt e in
      (ap succeeded e₁, ground (arith, h))
