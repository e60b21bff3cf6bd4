-- ===== src/IdentityProvider/Drifts.antt =====
-- What `idpUpToDate` sees of a difference, and what it does not.
use clavex_operator.Prelude.{
  String, Bool, true, false, List, Option, none, some, ◌≡◌, refl, ◌∙◌, arith,
}
use clavex_operator.Api.{Answer, ok, fail, Resource}
use clavex_operator.Reconcile.Flow.{Step, pure, state_of}
use clavex_operator.Reconcile.{Synced}
use clavex_operator.Reconcile.Calls.{Cluster, State, Session, ask}
use clavex_operator.Named.{find_by_name}
use clavex_operator.Drift.{or_return}
use clavex_operator.Drift.Laws.{correct_lem}
use clavex_operator.IdentityProvider.{
  IdentityProviderSpec, IdentityProvider, IdentityProviderService, CreateIdpParams, StringMap,
  idp_up_to_date, build_idp_params, converge_idp, reconcile_idp,
}

-- A live provider whose mappings come back as a map, even as an empty one, never matches a spec
-- that sets none.
pub idp_up_to_date_nil :
    (live : IdentityProvider) (cr : Resource IdentityProviderSpec) (m : List (String × String))
    → live.role_claim_mappings ≡ some m
    → cr.spec.role_claim_mappings ≡ none
    → idp_up_to_date live cr ≡ false
unfolding idp_up_to_date
idp_up_to_date_nil live cr m h k = ground arith

-- The test gives for a resource with another config what it gives for the resource.
idp_up_to_date_config :
    (live : IdentityProvider) (cr : Resource IdentityProviderSpec) (config : StringMap)
    → idp_up_to_date live (record cr { spec = record cr.spec { config = config } })
      ≡ idp_up_to_date live cr
unfolding idp_up_to_date
idp_up_to_date_config live cr config = refl

module _ {W : Type 0} (c : Cluster W IdentityProviderSpec) (recorder : Bool) where
  module _ (sdk : IdentityProviderService W) (session : Session) (org_id : String) where
    abbrev find : Resource IdentityProviderSpec → W → Answer (Option IdentityProvider) × W
    find cr = find_by_name sdk.providers "identity providers" session org_id cr.spec.name

    abbrev with_params :
        Resource IdentityProviderSpec
        → IdentityProvider
        → Answer CreateIdpParams
        → Step (State W IdentityProviderSpec) (Answer Synced)
    with_params cr live a = elim a [
      | ok params ↦ converge_idp c recorder sdk session org_id cr params (some live)
      | fail e ↦ pure (fail e)
    ]

    quiet :
        (cr : Resource IdentityProviderSpec) (s : State W IdentityProviderSpec)
        (live : IdentityProvider)
        → idp_up_to_date live cr ≡ true
        → (state_of (
            or_return
              (build_idp_params c.get_secret cr)
              (λ params. converge_idp c recorder sdk session org_id cr params (some live))
              s)).log
          ≡ s.log
    unfolding or_return converge_idp ask
    quiet cr s live h = by_params (build_idp_params c.get_secret cr s.world).0
      where
        after : State W IdentityProviderSpec
        after = record s { world = (build_idp_params c.get_secret cr s.world).1 }

        by_params :
            (a : Answer CreateIdpParams) → (state_of (with_params cr live a after)).log ≡ s.log
        by_params (ok params) = rw correct_lem (rw h refl)
        by_params (fail e) = refl

    -- An edit of `spec.config` alone is never sent: where the live provider is found and matched the
    -- resource before the edit, a sync of the edited resource makes no call that writes, whatever
    -- the new config and the Secret hold.
    pub reconcile_idp_ignores_config :
        (cr : Resource IdentityProviderSpec) (config : StringMap) (s : State W IdentityProviderSpec)
        (live : IdentityProvider)
        → (find cr s.world).0 ≡ ok (some live)
        → idp_up_to_date live cr ≡ true
        → (state_of (
            reconcile_idp c recorder sdk session org_id
              (record cr { spec = record cr.spec { config = config } })
              s)).log
          ≡ s.log
    unfolding reconcile_idp or_return ask
    reconcile_idp_ignores_config cr config s live found h =
        let cr' : Resource IdentityProviderSpec = record cr {
          spec = record cr.spec { config = config };
        } in
        let read : State W IdentityProviderSpec = record s { world = (find cr s.world).1 } in
        rw found (quiet cr' read live (idp_up_to_date_config live cr config ∙ h))
