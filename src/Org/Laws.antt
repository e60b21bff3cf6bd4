-- ===== src/Org/Laws.antt =====
-- What a pass over a ClavexOrg guarantees.
use clavex_operator.Prelude.{
  String, Bool, true, false, List, Option, none, some, ◌≡◌, refl, sym, ◌∙◌, arith, inr, ◌&&◌,
}
use clavex_operator.Api.{Answer, ok, fail, NamespacedName, Resource}
use clavex_operator.Stream.Pool.{Pool}
use clavex_operator.Reconcile.{Kind}
use clavex_operator.Reconcile.Flow.{Step, pure, state_of, ◌>>=◌}
use clavex_operator.Reconcile.Calls.{
  Cluster, State, Event, start, Session, Mutation, sdk_write, with_managed, tell, note,
}
use clavex_operator.Reconcile.Triple.{
  Triple, Triple-pure, Triple-leave, Triple-if, Triple-weaken, Triple-bind, Triple-answer,
}
use clavex_operator.Reconcile.Rules.{Triple-tell, Triple-ask_keeps, KeepsWrites, Triple-write}
use clavex_operator.Reconcile.Lawful.{FinalizerLaws, Lawful, Ready, Law, ReadyLaw, KindLaws}
use clavex_operator.Reconcile.Safety.{reconcile-Lawful}
use clavex_operator.Named.Laws.{is_done}
use clavex_operator.Drift.{announce}
use clavex_operator.Org.Settings.{
  OrgSpec, PasswordPolicySpec, RateLimitsSpec, Standing, policy_standing, rates_standing,
  desired_policy, desired_rates, converge_section, reconcile_section, release_section, released,
  section_or_release,
}
use clavex_operator.Org.{
  OrgService, reconcile_password_policy, reconcile_rate_limits, reconcile_org_settings, sync_org,
  release_org, org_kind, reconcile_clavex_org,
}

-- The documented behaviour of the SDK: a marker that was released, or that was not found, is not
-- there, and releasing the one leaves the other alone.
pub record OrgLaws {W : Type 0} (sdk : OrgService W) : Type 1 where
  pub PolicyFree : String → W → Type 0
  pub RatesFree : String → W → Type 0
  pub policy_released :
      (session : Session) (org : String) (w : W)
      → is_done (sdk.release_policy session org w).0 ≡ true
      → PolicyFree org (sdk.release_policy session org w).1
  pub rates_released :
      (session : Session) (org : String) (w : W)
      → is_done (sdk.release_rates session org w).0 ≡ true
      → RatesFree org (sdk.release_rates session org w).1
  pub rates_keep_policy :
      (session : Session) (org : String) (w : W)
      → PolicyFree org w
      → PolicyFree org (sdk.release_rates session org w).1

abbrev is_ok : Answer (Unit {0}) → Bool
is_ok (ok u) = true
is_ok (fail e) = false

is_ok-released : (what : String) (a : Answer (Unit {0})) → is_ok (released what a) ≡ is_done a
is_ok-released what (ok u) = refl
is_ok-released what (fail e) = ground arith

module _ {W : Type 0} (c : Cluster W OrgSpec) (recorder : Bool) (sdk : OrgService W) where
  module _ (laws : OrgLaws sdk) where
    abbrev kind : Kind W OrgSpec
    kind = org_kind recorder sdk

    -- Neither section of the org carries a marker.
    abbrev pub Unmarked : String → OrgSpec → W → Type 0
    Unmarked org_id spec w = laws.PolicyFree org_id w × laws.RatesFree org_id w

    abbrev I : State W OrgSpec → Type 0
    I = Law c kind Unmarked

    abbrev J : State W OrgSpec → Type 0
    J = ReadyLaw c kind Unmarked

    write-J :
        {A B : Type 0} (m : Mutation) (call : W → Answer A × W) (f : Answer A → B)
        → Triple J (do answer ← tell (sdk_write m) call; pure (f answer)) (λ _. J) I
    write-J m call f =
        Triple-bind (λ _. J) _ _
          (Triple-tell (λ _. Ready c kind Unmarked) _ call (λ s b p. ((p.1, p.0), inr p.1)))
          λ a. Triple-pure _ (λ s p. p)

    converge_section-J :
        (what : String) (standing : Standing) (put : W → Answer (Unit {0}) × W)
        → Triple J (converge_section what standing put) (λ _. J) I
    unfolding converge_section
    converge_section-J what standing put =
        Triple-if (standing.up_to_date && standing.managed) _ _ (λ _. Triple-pure _ (λ s p. p))
          (λ _. write-J _ put _)

    reconcile_section-J :
        {A : Type 0} (what : String) (get : W → Answer (Option A) × W)
        (standing : Option A → Standing) (put : W → Answer (Unit {0}) × W)
        → Triple J (reconcile_section what get standing put) (λ _. J) I
    unfolding reconcile_section
    reconcile_section-J what get standing put =
        Triple-bind (λ _. J) _ _ (Triple-ask_keeps (Ready c kind Unmarked) get)
          λ a.
            Triple-answer (λ _. J) a _ _ (λ live. converge_section-J what (standing live) put)
              (λ e. Triple-pure _ (λ s p. p))

    section_or_release-J :
        {A : Type 0} (what marker : String) (o : Option A)
        (section : A → Step (State W OrgSpec) (Answer Bool)) (release : W → Answer (Unit {0}) × W)
        → ((a : A) → Triple J (section a) (λ _. J) I)
        → Triple J (section_or_release what marker o section release) (λ _. J) I
    unfolding section_or_release release_section
    section_or_release-J what marker none section release h =
        Triple-bind (λ _. J) _ _ (write-J _ release _) λ a. Triple-pure _ (λ s p. p)
    section_or_release-J what marker (some spec) section release h =
        Triple-bind (λ _. J) _ _ (h spec) λ a. Triple-pure _ (λ s p. p)

    module _ (session : Session) (org_id : String) (cr : Resource OrgSpec) where
      policy-J :
          (spec : PasswordPolicySpec)
          → Triple J (reconcile_password_policy recorder sdk session org_id cr spec) (λ _. J) I
      unfolding reconcile_password_policy
      policy-J spec =
          reconcile_section-J "password policy" (sdk.get_policy session org_id)
            (policy_standing (desired_policy org_id spec))
            (sdk.put_policy session (with_managed "ClavexOrg" cr.meta) org_id
              (desired_policy org_id spec))

      rates-J :
          (spec : RateLimitsSpec)
          → Triple J (reconcile_rate_limits recorder sdk session org_id cr spec) (λ _. J) I
      unfolding reconcile_rate_limits
      rates-J spec =
          reconcile_section-J "rate limits" (sdk.get_rates session org_id)
            (rates_standing (desired_rates org_id spec))
            (sdk.update_rates session (with_managed "ClavexOrg" cr.meta) org_id
              (desired_rates org_id spec))

      settings-J : Triple J (reconcile_org_settings recorder sdk session org_id cr) (λ _. J) I
      unfolding reconcile_org_settings
      settings-J =
          Triple-bind (λ _. J) _ _
            (section_or_release-J "password policy" "password-policy" cr.spec.password_policy
              (reconcile_password_policy recorder sdk session org_id cr)
              (sdk.release_policy session org_id) policy-J)
            λ first.
              Triple-answer (λ _. J) first _ _
                (λ d₁.
                  Triple-bind (λ _. J) _ _
                    (section_or_release-J "rate limits" "rate-limits" cr.spec.rate_limits
                      (reconcile_rate_limits recorder sdk session org_id cr)
                      (sdk.release_rates session org_id) rates-J)
                    λ second. Triple-pure _ (λ s p. p))
                (λ e. Triple-pure _ (λ s p. p))

      sync_org-Law : Triple J (sync_org recorder sdk session org_id cr) (λ _. I) I
      unfolding sync_org
      sync_org-Law = Triple-bind (λ _. J) _ _ settings-J λ a. Triple-pure _ (λ s p. p.0)

    -- After a release the fact holds, if it went through.
    release-J :
        (what : String) (call : W → Answer (Unit {0}) × W) (Before Fact : W → Type 0)
        → ((w : W) → Before w → is_done (call w).0 ≡ true → Fact (call w).1)
        → Triple
            (λ s. J s × Before s.world)
            (release_section what call)
            (λ a s. J s × (is_ok a ≡ true → Fact s.world))
            I
    unfolding release_section tell
    release-J what call Before Fact h = record {
      at = λ s p. (
        ((p.0.1, p.0.0), inr p.0.1),
        λ k. h s.world p.1 (sym (is_ok-released what (call s.world).0) ∙ k),
      );
    }

    release_org-Unmarked :
        (session : Session) (org_id : String) (cr : Resource OrgSpec)
        → Triple J
            (release_org recorder sdk session org_id cr)
            (λ _ s. I s × Unmarked org_id cr.spec s.world)
            I
    unfolding release_org
    release_org-Unmarked session org_id cr =
        Triple-bind (λ a s. J s × (is_ok a ≡ true → laws.PolicyFree org_id s.world)) _ _
          (Triple-weaken _ (λ s p. (p, tt))
            (release-J _ _ (λ _. Unit {0}) (laws.PolicyFree org_id)
              (λ w _. laws.policy_released session org_id w)))
          λ first.
            Triple-answer (λ a s. J s × (is_ok a ≡ true → laws.PolicyFree org_id s.world)) first _ _
              (λ _.
                Triple-bind (λ a s. J s × (is_ok a ≡ true → Unmarked org_id cr.spec s.world)) _ _
                  (Triple-weaken _ (λ s p. (p.0, p.1 refl))
                    (release-J _ _ (laws.PolicyFree org_id) (Unmarked org_id cr.spec) (λ w f k. (
                      laws.rates_keep_policy session org_id w f,
                      laws.rates_released session org_id w k,
                    ))))
                  λ second.
                    Triple-answer (λ a s. J s × (is_ok a ≡ true → Unmarked org_id cr.spec s.world))
                      second _ _ (λ _. Triple-pure tt (λ s p. (p.0.0, p.1 refl)))
                      (λ e. Triple-leave _ (λ s p. p.0.0)))
              (λ e. Triple-leave _ (λ s p. p.0.0))

    release_section-adds :
        (what : String) (call : W → Answer (Unit {0}) × W) (L : List (Event OrgSpec × W) → Type 0)
        → KeepsWrites L
        → Triple (λ s. L s.log) (release_section what call) (λ _ s. L s.log) (λ _. Unit {0})
    unfolding release_section
    release_section-adds what call L h =
        Triple-bind (λ _ s. L s.log) _ _ (Triple-write L _ call h) (λ a. Triple-pure _ (λ s p. p))

    release_org-adds :
        (session : Session) (org_id : String) (cr : Resource OrgSpec)
        (L : List (Event OrgSpec × W) → Type 0)
        → KeepsWrites L
        → Triple
            (λ s. L s.log)
            (release_org recorder sdk session org_id cr)
            (λ _ s. L s.log)
            (λ _. Unit {0})
    unfolding release_org
    release_org-adds session org_id cr L h =
        Triple-bind (λ _ s. L s.log) _ _ (release_section-adds _ _ L h)
          λ first.
            Triple-answer (λ _ s. L s.log) first _ _
              (λ _.
                Triple-bind (λ _ s. L s.log) _ _ (release_section-adds _ _ L h)
                  λ second.
                    Triple-answer (λ _ s. L s.log) second _ _ (λ _. Triple-pure tt (λ s p. p))
                      (λ e. Triple-leave _ (λ s p. tt)))
              (λ e. Triple-leave _ (λ s p. tt))

    announce-Law : (due : Bool) → Triple I (announce due) (λ _. I) I
    unfolding announce note
    announce-Law true = record { at = λ s p. (tt, p) }
    announce-Law false = Triple-pure tt (λ s p. p)

    org_kind-KindLaws : KindLaws c kind Unmarked
    unfolding org_kind
    org_kind-KindLaws = record {
      delete_remote_gone = release_org-Unmarked;
      delete_remote_adds = release_org-adds;
      sync_lawful = sync_org-Law;
      after_sync_lawful = λ cr synced. announce-Law (synced.drifted && recorder);
    }

    -- By what is documented of the SDK's release of a marker and of AddFinalizer, and whatever
    -- the calls answer, a pass over a ClavexOrg writes to the Admin API only after it has seen
    -- the finalizer in the cluster, and gives the finalizer up only in a state where neither
    -- section of the org that the credentials name which this pass resolved, after it read the
    -- resource, carries a marker, or where this pass failed to resolve them.
    pub reconcile_clavex_org-Lawful :
        (key : NamespacedName) (w : W) (stream : Option Pool)
        → FinalizerLaws c
        → Lawful c kind Unmarked
            (state_of (reconcile_clavex_org recorder sdk c key (start w stream))).log
    unfolding reconcile_clavex_org
    reconcile_clavex_org-Lawful key w stream f =
        reconcile-Lawful c kind Unmarked f org_kind-KindLaws key w stream
