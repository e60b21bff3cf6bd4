-- ===== src/Drift/Laws.antt =====
-- What the correction writes and reports.
use clavex_operator.Prelude.{
  String, Bool, true, false, List, [], ◌∷◌, ◌++◌, ◌≡◌, refl, inr, arith, ◌&&◌, if◌then◌else◌,
}
use clavex_operator.Api.{Answer, ok, Resource}
use clavex_operator.Reconcile.{Kind, Synced}
use clavex_operator.Reconcile.Flow.{Step, next}
use clavex_operator.Reconcile.Calls.{
  Cluster, State, Event, sdk_write, announced, updates, tell, note, succeeded,
}
use clavex_operator.Reconcile.Triple.{Triple, Triple-pure, Triple-if, Triple-bind, Triple-answer}
use clavex_operator.Reconcile.Rules.{Triple-tell, Triple-ask_keeps}
use clavex_operator.Reconcile.Lawful.{Lawful, Ready, Law, ReadyLaw}
use clavex_operator.Drift.{
  event_reason_drift_detected, unchanged, spec_unchanged, or_return, announce, updated, correct,
  create_missing,
}

module _ {W Spec : Type 0} (c : Cluster W Spec) (kind : Kind W Spec) where
  module _ (Gone : String → Spec → W → Type 0) where
    abbrev I : State W Spec → Type 0
    I = Law c kind Gone

    abbrev J : State W Spec → Type 0
    J = ReadyLaw c kind Gone

    pub or_return-Law :
        {A : Type 0} (call : W → Answer A × W) (rest : A → Step (State W Spec) (Answer Synced))
        → ((a : A) → Triple J (rest a) (λ _. I) I)
        → Triple J (or_return call rest) (λ _. I) I
    unfolding or_return
    or_return-Law call rest h =
        Triple-bind (λ _. J) _ _ (Triple-ask_keeps (Ready c kind Gone) call)
          λ a. Triple-answer (λ _. J) a _ _ h (λ e. Triple-pure _ (λ s p. p.0))

    announce-Ready : (due : Bool) → Triple J (announce due) (λ _. J) I
    unfolding announce note
    announce-Ready true = record { at = λ s p. ((tt, p.0), inr p.1) }
    announce-Ready false = Triple-pure tt (λ s p. p)

    pub correct-Law :
        {A : Type 0} (recorder : Bool) (what id : String) (cr : Resource Spec) (up_to_date : Bool)
        (update : W → Answer A × W)
        → Triple J (correct recorder what id cr up_to_date update) (λ _. I) I
    unfolding correct
    correct-Law recorder what id cr up_to_date update =
        Triple-if up_to_date _ _ (λ _. Triple-pure _ (λ s p. p.0))
          λ _.
            Triple-bind (λ _. J) _ _ (announce-Ready _)
              λ _.
                Triple-bind (λ _. I) _ _
                  (Triple-tell (λ _. Lawful c kind Gone) _ _ (λ s b p. (p.1, p.0)))
                  λ a. Triple-pure _ (λ s p. p)

    pub create_missing-Law :
        {A : Type 0} (what name : String) (synced : A → Synced) (create : W → Answer A × W)
        → Triple J (create_missing what name synced create) (λ _. I) I
    unfolding create_missing
    create_missing-Law what name synced create =
        Triple-bind (λ _. I) _ _ (Triple-tell (λ _. Lawful c kind Gone) _ _ (λ s b p. (p.1, p.0)))
          λ a. Triple-pure _ (λ s p. p)

-- What the step adds to the log, newest first.
abbrev pub correction :
    {W Spec : Type 0} → Bool → Bool → String → Resource Spec → Bool → W → List (Event Spec × W)
correction recorder up_to_date id cr accepted w =
    if up_to_date
    then []
    else if spec_unchanged cr && recorder
    then (sdk_write (updates id) accepted, w) ∷ (announced event_reason_drift_detected, w) ∷ []
    else (sdk_write (updates id) accepted, w) ∷ []

-- The value and the log of a correction, on every branch: a live object that matches the spec is
-- left alone and reported as no drift; any other is written once, announced before that exactly
-- when the spec is the one last synced and a recorder is there, and reported as drift exactly when
-- the spec is the one last synced and the write is accepted.
pub correct_lem :
    {W Spec A : Type 0} (recorder : Bool) (what id : String) (cr : Resource Spec)
    (up_to_date : Bool) (update : W → Answer A × W) (s : State W Spec)
    → let answer = (update s.world).0 in
      correct recorder what id cr up_to_date update s
      ≡ next
          (if up_to_date then ok (unchanged id) else updated what id (spec_unchanged cr) answer)
          (record s {
            world = (if up_to_date then s.world else (update s.world).1);
            log = correction recorder up_to_date id cr (succeeded answer) s.world ++ s.log;
          })
unfolding correct tell note
correct_lem recorder what id cr true update s = refl
correct_lem recorder what id cr false update s = ground arith
