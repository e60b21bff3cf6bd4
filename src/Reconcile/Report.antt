-- ===== src/Reconcile/Report.antt =====
-- What a pass writes into the status of the resource, and what it returns, once its sync is done.
use clavex_operator.Prelude.{String, Bool, true, false, ◌∷◌, ◌≡◌, refl, ◌⊎◌, inl, inr, ◌&&◌}
use clavex_operator.Api.{
  Answer, ok, fail, Error, wrapped, Resource, condition_true, condition_false, rendered,
}
use clavex_operator.Conditions.{set_condition}
use clavex_operator.Conditions.Laws.{Reads, set_condition-Reads, set_condition_keeps-Reads}
use clavex_operator.Reconcile.{
  Kind, Synced, condition, report_failure, report_success, converge, observed, sync_reason,
  sync_message, requeue_interval, condition_type_ready, condition_type_synced,
}
use clavex_operator.Reconcile.Flow.{Flow, Step, next, exit, Outcome, requeue, failed, leave, ◌>>=◌}
use clavex_operator.Reconcile.Calls.{
  Cluster, State, Session, put_status, tell, clock, ask, succeeded,
}

-- The last thing that a pass does: the status is written once more, and the pass ends.
pub record Ended {W Spec : Type 0} (before : State W Spec) (reported : Resource Spec)
    (accepted : Bool) (o : Outcome) (x : Flow (State W Spec) ⊥) : Type 0 where
  pub last : State W Spec
  pub at_world : W
  pub ends : x ≡ exit o last
  pub logged : last.log ≡ (put_status reported accepted, at_world) ∷ before.log

module _ {W Spec : Type 0} (c : Cluster W Spec) (kind : Kind W Spec) where
  -- The report of a failure: both conditions are false and show the error, the generation and the
  -- remote id are as they were, and the pass returns what the kind returns on a failure.
  pub record FailureReport (cr : Resource Spec) (e : Error) (before : State W Spec)
      (x : Flow (State W Spec) ⊥) : Type 0 where
    pub reported : Resource Spec
    pub accepted : Bool
    pub ended : Ended before reported accepted (kind.on_failure e) x
    pub ready : Reads reported condition_type_ready condition_false "ReconcileError" (rendered e)
    pub synced : Reads reported condition_type_synced condition_false "ReconcileError" (rendered e)
    pub kept_generation : reported.status.observed_generation ≡ cr.status.observed_generation
    pub kept_id : reported.status.remote_id ≡ cr.status.remote_id

  report_failure-FailureReport :
      (cr : Resource Spec) (e : Error) (s : State W Spec)
      → FailureReport cr e s (report_failure c kind cr e s)
  unfolding report_failure condition clock ask tell set_condition
  report_failure-FailureReport cr e s =
      let now₁ = (c.now s.world).0 in
      let w₁ = (c.now s.world).1 in
      let now₂ = (c.now w₁).0 in
      let w₂ = (c.now w₁).1 in
      let cr₁ =
        set_condition now₁ condition_type_ready condition_false "ReconcileError" (rendered e) cr in
      let cr₂ =
        set_condition now₂ condition_type_synced condition_false "ReconcileError" (rendered e)
          cr₁ in
      record {
        reported = cr₂;
        accepted = succeeded (c.update_status cr₂ w₂).0;
        ended = record { last = _; at_world = w₂; ends = refl; logged = refl };
        ready =
            set_condition_keeps-Reads now₂ condition_type_synced condition_type_ready
              condition_false condition_false "ReconcileError" "ReconcileError" (rendered e)
              (rendered e) cr₁ refl
              (set_condition-Reads now₁ condition_type_ready condition_false "ReconcileError"
                (rendered e) cr);
        synced =
            set_condition-Reads now₂ condition_type_synced condition_false "ReconcileError"
              (rendered e) cr₁;
        kept_generation = refl;
        kept_id = refl;
      }

  -- The report of a success: Ready is true, Synced is true with the reason and message that tell
  -- whether drift was corrected, the generation and the remote id are those of this pass, and the
  -- pass asks for the next one after the long interval exactly if the write is accepted.
  pub record SuccessReport (cr : Resource Spec) (synced : Synced) (before : State W Spec)
      (x : Flow (State W Spec) ⊥) : Type 0 where
    pub reported : Resource Spec
    pub accepted : Bool
    pub outcome : Outcome
    pub ended : Ended before reported accepted outcome x
    pub shown :
        (accepted ≡ true × outcome ≡ requeue requeue_interval)
        ⊎ (accepted ≡ false × ((e : Error) × (outcome ≡ failed (wrapped "updating status" e))))
    pub ready :
        Reads reported condition_type_ready condition_true
          (sync_reason c kind (kind.ready_shows_drift && synced.drifted))
          (sync_message c kind (kind.ready_shows_drift && synced.drifted))
    pub in_sync :
        Reads reported condition_type_synced condition_true
          (sync_reason c kind synced.drifted)
          (sync_message c kind synced.drifted)
    pub generation : reported.status.observed_generation ≡ cr.meta.generation
    pub id : reported.status.remote_id ≡ synced.remote_id

  -- The last write of the status, and what the pass returns by its answer.
  write_status : Resource Spec → Step (State W Spec) ⊥
  write_status cr = do
    answer ← tell (put_status cr) (c.update_status cr)
    elim answer [
      | ok stored ↦ leave (requeue requeue_interval)
      | fail e ↦ leave (failed (wrapped "updating status" e))
    ]

  record Written (cr : Resource Spec) (before : State W Spec) (x : Flow (State W Spec) ⊥)
      : Type 0 where
    accepted : Bool
    outcome : Outcome
    ended : Ended before cr accepted outcome x
    shown :
        (accepted ≡ true × outcome ≡ requeue requeue_interval)
        ⊎ (accepted ≡ false × ((e : Error) × (outcome ≡ failed (wrapped "updating status" e))))

  write_status-Written :
      (cr : Resource Spec) (s t : State W Spec) → t.log ≡ s.log → Written cr s (write_status cr t)
  unfolding write_status tell
  write_status-Written cr s t h = by_answer (c.update_status cr t.world).0
    where
      end_state : Bool → State W Spec
      end_state b = record t {
        world = (c.update_status cr t.world).1;
        log = (put_status cr b, t.world) ∷ t.log;
      }

      by_answer :
          (a : Answer (Resource Spec))
          → Written cr s (
              (elim a as (λ _. Step (State W Spec) ⊥) [
                | ok stored ↦ leave (requeue requeue_interval)
                | fail e ↦ leave (failed (wrapped "updating status" e))
              ])
                (end_state (succeeded a)))
      by_answer (ok stored) = record {
        accepted = true;
        outcome = requeue requeue_interval;
        ended = record {
          last = end_state true;
          at_world = t.world;
          ends = refl;
          logged = rw h refl;
        };
        shown = inl (refl, refl);
      }
      by_answer (fail e) = record {
        accepted = false;
        outcome = failed (wrapped "updating status" e);
        ended = record {
          last = end_state false;
          at_world = t.world;
          ends = refl;
          logged = rw h refl;
        };
        shown = inr (refl, (e, refl));
      }

  report_success-SuccessReport :
      (cr : Resource Spec) (synced : Synced) (s s₁ : State W Spec)
      → kind.after_sync cr synced s ≡ next tt s₁
      → SuccessReport cr synced s₁ (report_success c kind cr synced s)
  unfolding report_success condition clock ask set_condition write_status
  report_success-SuccessReport cr synced s s₁ h =
      let shown = kind.ready_shows_drift && synced.drifted in
      let d = synced.drifted in
      let (now, w) = c.now s₁.world in
      let (now₁, w₁) = c.now w in
      let (now₂, w₂) = c.now w₁ in
      let cr₁ = observed c kind now synced.remote_id cr in
      let cr₂ =
        set_condition now₁ condition_type_ready condition_true (sync_reason c kind shown)
          (sync_message c kind shown) cr₁ in
      let cr₃ =
        set_condition now₂ condition_type_synced condition_true (sync_reason c kind d)
          (sync_message c kind d) cr₂ in
      let written = write_status-Written cr₃ s₁ (record s₁ { world = w₂ }) refl in
      rw h (record {
        reported = cr₃;
        accepted = written.accepted;
        outcome = written.outcome;
        ended = written.ended;
        shown = written.shown;
        ready =
            set_condition_keeps-Reads now₂ condition_type_synced condition_type_ready condition_true
              condition_true _ _ _ _ cr₂ refl
              (set_condition-Reads now₁ condition_type_ready condition_true
                (sync_reason c kind shown) (sync_message c kind shown) cr₁);
        in_sync =
            set_condition-Reads now₂ condition_type_synced condition_true (sync_reason c kind d)
              (sync_message c kind d) cr₂;
        generation = refl;
        id = refl;
      })

  -- For every kind: a sync that fails ends the pass with one more write, of a status in which Ready
  -- and Synced are false, with the reason "ReconcileError" and the error as their message, and the
  -- generation and the remote id are as before. Whether the write is accepted or not, the pass
  -- returns what the kind returns on the failure.
  pub converge-FailureReport :
      (session : Session) (org_id : String) (cr : Resource Spec) (s s₁ : State W Spec) (e : Error)
      → kind.sync session org_id cr s ≡ next (fail e) s₁
      → FailureReport cr e s₁ (converge c kind session org_id cr s)
  unfolding converge
  converge-FailureReport session org_id cr s s₁ e h = rw h (report_failure-FailureReport cr e s₁)

  -- For every kind: where the sync succeeds and what follows it goes on, the pass ends with one more
  -- write, of a status in which Ready and Synced are true, with the reason and message that tell
  -- whether drift was corrected (Ready only where the kind shows it there), and the generation and
  -- the remote id are those of this pass. It asks for the next pass after 15 minutes if the write
  -- is accepted, and returns the error if not.
  pub converge-SuccessReport :
      (session : Session) (org_id : String) (cr : Resource Spec) (synced : Synced)
      (s s₁ s₂ : State W Spec)
      → kind.sync session org_id cr s ≡ next (ok synced) s₁
      → kind.after_sync cr synced s₁ ≡ next tt s₂
      → SuccessReport cr synced s₂ (converge c kind session org_id cr s)
  unfolding converge
  converge-SuccessReport session org_id cr synced s s₁ s₂ h k =
      rw h (report_success-SuccessReport cr synced s₁ s₂ k)
