-- ===== src/Drift/Goes.antt =====
-- A creation or a correction that is accepted goes on, with one write more.
use clavex_operator.Prelude.{
  ℕ, ◌+◌, ◌≤◌, String, Bool, true, false, ◌≡◌, refl, ap, ◌∙◌, arith, ◌&&◌, if◌then◌else◌,
}
use clavex_operator.Api.{Answer, ok, NamespacedName, Resource}
use clavex_operator.AuthSecret.{Credentials}
use clavex_operator.Reconcile.{Kind, Synced}
use clavex_operator.Reconcile.Flow.{pure, ◌>>=◌, ◌>>◌}
use clavex_operator.Reconcile.Goes.{Goes, succeeded-ok}
use clavex_operator.Reconcile.Calls.{
  Cluster, Session, State, sdk_write, updates, announced, tell, note, succeeded,
}
use clavex_operator.Reconcile.Environment.{Environment, Stands, sdk_writes}
use clavex_operator.Reconcile.Converges.{Advances}
use clavex_operator.Drift.{
  correct, create_missing, created, updated, spec_unchanged, announce, event_reason_drift_detected,
}

-- The call was made, and nothing else.
abbrev pub IsWritten :
    {W Spec A : Type 0} → (W → Answer A × W) → State W Spec → Answer Synced → State W Spec → Type 0
IsWritten call s a t =
    ((synced : Synced) × (a ≡ ok synced))
    × (t.world ≡ (call s.world).1)
    × (sdk_writes t.log ≡ sdk_writes s.log + 1)

module _ {W Spec A : Type 0} where
  pub create_missing-Goes :
      (what name : String) (synced : A → Synced) (create : W → Answer A × W) (s : State W Spec)
      → succeeded (create s.world).0 ≡ true
      → Goes (create_missing what name synced create) s (IsWritten create s)
  unfolding create_missing tell sdk_writes
  create_missing-Goes what name synced create s took =
      let (v, e) = succeeded-ok (create s.world).0 took in
      record {
        value = created what synced (create s.world).0;
        after = _;
        runs = refl;
        holds = ((_, ap (created what synced) e), refl, refl);
      }

  pub correct-Goes :
      (what id : String) (cr : Resource Spec) (update : W → Answer A × W) (recorder : Bool)
      (s : State W Spec)
      → succeeded (update s.world).0 ≡ true
      → Goes (correct recorder what id cr false update) s (IsWritten update s)
  unfolding correct announce tell note sdk_writes
  correct-Goes what id cr update recorder s took = by_test (spec_unchanged cr && recorder)
    where
      by_test :
          (b : Bool)
          → Goes
              (do
                if b then note (announced event_reason_drift_detected) else pure tt
                answer ← tell (sdk_write (updates id)) update
                pure (updated what id (spec_unchanged cr) answer))
              s
              (IsWritten update s)
      by_test true =
          let (v, e) = succeeded-ok (update s.world).0 took in
          record {
            value = _;
            after = _;
            runs = refl;
            holds = ((_, ap (updated what id (spec_unchanged cr)) e), refl, refl);
          }
      by_test false =
          let (v, e) = succeeded-ok (update s.world).0 took in
          record {
            value = _;
            after = _;
            runs = refl;
            holds = ((_, ap (updated what id (spec_unchanged cr)) e), refl, refl);
          }

module _ {W Spec Remote : Type 0} {c : Cluster W Spec} {kind : Kind W Spec} {IsSound : W → Type 0}
    {resource : W → Resource Spec} {remote : W → Remote} {key : NamespacedName}
    {credentials : Credentials} {session : Session}
    (env : Environment c kind IsSound resource remote key credentials session) (debt : Remote → ℕ)
    (spec : Spec) where
  -- A write after which fewer are due advances.
  pub advance :
      {A : Type 0} (call : W → Answer A × W) (cr : Resource Spec) (x x' : Remote) (n : ℕ)
      (s t : State W Spec)
      → Stands env cr x n s
      → (t.world ≡ (call s.world).1) × (sdk_writes t.log ≡ sdk_writes s.log + 1)
      → IsSound (call s.world).1
      → resource (call s.world).1 ≡ resource s.world
      → remote (call s.world).1 ≡ x'
      → debt x' + 1 ≤ debt x
      → Advances env debt spec cr x n t
  advance call cr x x' n s t (i, r, m, l) (g, k) sound stored stands fewer = (
    x',
    n + 1,
    (rw g sound, rw g stored ∙ r, rw g stands, omega (arith, k, l)),
    omega (arith, fewer),
    omega (arith, fewer),
  )
