-- ===== src/Reconcile/Triple.antt =====
-- Rules for what a step guarantees: from a state where `P` holds it goes on in a state where `Q`
-- holds of its value, or returns from the method in a state where `R` holds.
use clavex_operator.Prelude.{Bool, true, false, ◌≡◌, refl, if◌then◌else◌}
use clavex_operator.Api.{Answer, ok, fail, Error}
use clavex_operator.Reconcile.Flow.{Outcome, Flow, next, exit, Step, pure, leave, continue, ◌>>=◌}

abbrev pub Ends : {S A : Type 0} → (A → S → Type 0) → (S → Type 0) → Flow S A → Type 0
Ends Q R (next a s) = Q a s
Ends Q R (exit o s) = R s

pub record Triple {S A : Type 0} (P : S → Type 0) (m : Step S A) (Q : A → S → Type 0)
    (R : S → Type 0) : Type 0 where
  pub at : (s : S) → P s → Ends Q R (m s)

module _ {S A : Type 0} {P : S → Type 0} {Q : A → S → Type 0} {R : S → Type 0} where
  pub Triple-pure : (a : A) → ((s : S) → P s → Q a s) → Triple P (pure a) Q R
  Triple-pure a h = record { at = h }

  pub Triple-leave : (o : Outcome) → ((s : S) → P s → R s) → Triple P (leave o) Q R
  Triple-leave o h = record { at = h }

  pub Triple-if :
      (b : Bool) (m n : Step S A)
      → (b ≡ true → Triple P m Q R)
      → (b ≡ false → Triple P n Q R)
      → Triple P (if b then m else n) Q R
  Triple-if true m n hm hn = hm refl
  Triple-if false m n hm hn = hn refl

  -- A fact that does not depend on the state is a hypothesis of the whole rule.
  pub Triple-given :
      {H : Type 0} (m : Step S A) → (H → Triple P m Q R) → Triple (λ s. P s × H) m Q R
  Triple-given m h = record { at = λ s p. (h p.1).at s p.0 }

  pub Triple-weaken :
      {P' : S → Type 0} (m : Step S A) → ((s : S) → P' s → P s) → Triple P m Q R → Triple P' m Q R
  Triple-weaken m h t = record { at = λ s p. t.at s (h s p) }

-- Two guarantees of one step.
Ends-both :
    {S A : Type 0} (Q Q' : A → S → Type 0) (R R' : S → Type 0) (x : Flow S A)
    → Ends Q R x
    → Ends Q' R' x
    → Ends (λ a s. Q a s × Q' a s) R x
Ends-both Q Q' R R' (next a s) h k = (h, k)
Ends-both Q Q' R R' (exit o s) h k = h

pub Triple-both :
    {S A : Type 0} {P P' : S → Type 0} {Q Q' : A → S → Type 0} {R R' : S → Type 0} (m : Step S A)
    → Triple P m Q R
    → Triple P' m Q' R'
    → Triple (λ s. P s × P' s) m (λ a s. Q a s × Q' a s) R
Triple-both {Q = Q} {Q' = Q'} {R = R} {R' = R'} m t u = record {
  at = λ s p. Ends-both Q Q' R R' (m s) (t.at s p.0) (u.at s p.1);
}

Ends-continue :
    {S A B : Type 0} {Q : A → S → Type 0} {T : B → S → Type 0} {R : S → Type 0} (x : Flow S A)
    (f : A → Step S B)
    → Ends Q R x
    → ((a : A) → Triple (Q a) (f a) T R)
    → Ends T R (continue x f)
Ends-continue (next a s) f h t = (t a).at s h
Ends-continue (exit o s) f h t = h

module _ {S A B : Type 0} {P : S → Type 0} {T : B → S → Type 0} {R : S → Type 0} where
  pub Triple-bind :
      (Q : A → S → Type 0) (m : Step S A) (f : A → Step S B)
      → Triple P m Q R
      → ((a : A) → Triple (Q a) (f a) T R)
      → Triple P (m >>= f) T R
  Triple-bind Q m f h t = record { at = λ s p. Ends-continue (m s) f (h.at s p) t }

-- The two ways of an answer.
pub Triple-answer :
    {S A B : Type 0} {Q : B → S → Type 0} {R : S → Type 0} (P : Answer A → S → Type 0)
    (answer : Answer A) (m : A → Step S B) (n : Error → Step S B)
    → ((a : A) → Triple (P (ok a)) (m a) Q R)
    → ((e : Error) → Triple (P (fail e)) (n e) Q R)
    → Triple (P answer) (elim answer [ ok a ↦ m a | fail e ↦ n e ]) Q R
Triple-answer P (ok a) m n hm hn = hm a
Triple-answer P (fail e) m n hm hn = hn e
