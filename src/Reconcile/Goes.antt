-- ===== src/Reconcile/Goes.antt =====
-- Rules for steps that are known to go on, or to return: total correctness, from one state.
use clavex_operator.Prelude.{Bool, true, false, if◌then◌else◌, ◌≡◌, refl}
use clavex_operator.Api.{Answer, ok, fail}
use clavex_operator.Reconcile.Calls.{succeeded}
use clavex_operator.Reconcile.Flow.{Outcome, next, exit, Step, ◌>>=◌}

-- From `s` the step goes on, with a value and in a state of which `Q` holds.
pub record Goes {S A : Type 0} (m : Step S A) (s : S) (Q : A → S → Type 0) : Type 0 where
  pub value : A
  pub after : S
  pub runs : m s ≡ next value after
  pub holds : Q value after

-- From `s` the method returns `o`, in a state of which `Q` holds.
pub record Returns {S A : Type 0} (m : Step S A) (s : S) (o : Outcome) (Q : S → Type 0)
    : Type 0 where
  pub after : S
  pub runs : m s ≡ exit o after
  pub holds : Q after

module _ {S A B : Type 0} {Q : A → S → Type 0} where
  pub Goes-bind :
      {R : B → S → Type 0} (m : Step S A) (f : A → Step S B) (s : S)
      → Goes m s Q
      → ((a : A) (t : S) → Q a t → Goes (f a) t R)
      → Goes (m >>= f) s R
  Goes-bind m f s g h =
      let r = h g.value g.after g.holds in
      record { value = r.value; after = r.after; runs = rw g.runs r.runs; holds = r.holds }

  pub Returns-bind :
      {R : S → Type 0} {o : Outcome} (m : Step S A) (f : A → Step S B) (s : S)
      → Goes m s Q
      → ((a : A) (t : S) → Q a t → Returns (f a) t o R)
      → Returns (m >>= f) s o R
  Returns-bind m f s g h =
      let r = h g.value g.after g.holds in
      record { after = r.after; runs = rw g.runs r.runs; holds = r.holds }

-- The same where the value is known.
module _ {S A B : Type 0} {P : S → Type 0} {R : S → Type 0} {o : Outcome} where
  pub Returns-known :
      (m : Step S A) (f : A → Step S B) (s : S) (v : A)
      → Goes m s (λ a t. (a ≡ v) × P t)
      → ((t : S) → P t → Returns (f v) t o R)
      → Returns (m >>= f) s o R
  Returns-known m f s v g h =
      let r = h g.after (g.holds.1) in
      record { after = r.after; runs = runs g.value (g.holds.0) g.runs r.runs; holds = r.holds }
    where
      runs : {t u : S} (a : A) → a ≡ v → m s ≡ next a t → f v t ≡ exit o u → (m >>= f) s ≡ exit o u
      runs a e k l = rw k (rw e l)

module _ {S A : Type 0} {Q R : A → S → Type 0} where
  pub Goes-map :
      (m : Step S A) (s : S) → Goes m s Q → ((a : A) (t : S) → Q a t → R a t) → Goes m s R
  Goes-map m s g h = record {
    value = g.value;
    after = g.after;
    runs = g.runs;
    holds = h g.value g.after g.holds;
  }

module _ {S A : Type 0} {Q : A → S → Type 0} where
  pub Goes-if :
      (b : Bool) (m n : Step S A) (s : S) → Goes m s Q → Goes n s Q → Goes (if b then m else n) s Q
  Goes-if true m n s g h = g
  Goes-if false m n s g h = h

-- An answer that is a success.
pub succeeded-ok : {A : Type 0} (a : Answer A) → succeeded a ≡ true → (v : A) × (a ≡ ok v)
succeeded-ok (ok v) h = (v, refl)
succeeded-ok (fail e) h = cc
