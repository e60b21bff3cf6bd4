-- ===== src/IdentityProvider/Laws.antt =====
-- What a pass over a ClavexIdentityProvider guarantees.
use clavex_operator.Prelude.{String, Bool, Option, none, some}
use clavex_operator.Api.{NamespacedName, Resource}
use clavex_operator.Stream.Pool.{Pool}
use clavex_operator.Reconcile.{Kind}
use clavex_operator.Reconcile.Flow.{state_of}
use clavex_operator.Reconcile.Calls.{Cluster, start, Session}
use clavex_operator.Reconcile.Triple.{Triple, Triple-pure}
use clavex_operator.Reconcile.Lawful.{FinalizerLaws, Lawful, Law, ReadyLaw, KindLaws}
use clavex_operator.Reconcile.Safety.{reconcile-Lawful}
use clavex_operator.Named.Adds.{delete_by_name_adds}
use clavex_operator.Named.Laws.{DirectoryLaws, Removed, delete_by_name_gone}
use clavex_operator.Drift.Laws.{correct-Law, create_missing-Law, or_return-Law}
use clavex_operator.IdentityProvider.{
  IdentityProviderSpec, IdentityProvider, IdentityProviderService, CreateIdpParams, converge_idp,
  reconcile_idp, idp_kind, reconcile_clavex_identity_provider,
}

abbrev pub idp_name : IdentityProviderSpec → String
idp_name spec = spec.name

module _ {W : Type 0} (c : Cluster W IdentityProviderSpec) (recorder : Bool)
    (sdk : IdentityProviderService W) where
  module _ (laws : DirectoryLaws sdk.providers) where
    abbrev kind : Kind W IdentityProviderSpec
    kind = idp_kind c recorder sdk

    -- What the listing, and the deletion of the first identity provider with the name of the spec, left.
    abbrev pub IdpRemoved : String → IdentityProviderSpec → W → Type 0
    IdpRemoved = Removed c kind sdk.providers laws idp_name

    reconcile_idp-Law :
        (session : Session) (org_id : String) (cr : Resource IdentityProviderSpec)
        → Triple
            (ReadyLaw c kind IdpRemoved)
            (reconcile_idp c recorder sdk session org_id cr)
            (λ _. Law c kind IdpRemoved)
            (Law c kind IdpRemoved)
    unfolding reconcile_idp
    reconcile_idp-Law session org_id cr =
        or_return-Law c kind IdpRemoved _ _
          λ existing. or_return-Law c kind IdpRemoved _ _ (by_existing existing)
      where
        by_existing :
            (existing : Option IdentityProvider) (params : CreateIdpParams)
            → Triple
                (ReadyLaw c kind IdpRemoved)
                (converge_idp c recorder sdk session org_id cr params existing)
                (λ _. Law c kind IdpRemoved)
                (Law c kind IdpRemoved)
        by_existing none params = create_missing-Law c kind IdpRemoved _ _ _ _
        by_existing (some live) params = correct-Law c kind IdpRemoved _ _ _ _ _ _

    idp_kind-KindLaws : KindLaws c kind IdpRemoved
    unfolding idp_kind
    idp_kind-KindLaws = record {
      delete_remote_gone = λ session org_id cr.
          delete_by_name_gone c kind sdk.providers laws idp_name "identity providers" session org_id
            cr.spec;
      delete_remote_adds = λ session org_id cr.
          delete_by_name_adds sdk.providers "identity providers" session org_id cr.spec.name;
      sync_lawful = reconcile_idp-Law;
      after_sync_lawful = λ cr synced. Triple-pure tt (λ s p. p);
    }

    -- By what is documented of the SDK's listing and deletion and of AddFinalizer, and whatever
    -- the calls answer, a pass over a ClavexIdentityProvider writes to the Admin API only after
    -- it has seen the finalizer in the cluster, and gives the finalizer up only in a state that
    -- a listing and a deletion left: the org is the one that the credentials name which this
    -- pass resolved, after it read the resource, and its live identity providers are those
    -- listed less every one with the id of the first that has the name of the spec, whose
    -- deletion was accepted or answered with not found; where none has it, they are those
    -- listed. A further one with that name, under another id, is still live.
    pub reconcile_clavex_identity_provider-Lawful :
        (key : NamespacedName) (w : W) (stream : Option Pool)
        → FinalizerLaws c
        → Lawful c kind IdpRemoved
            (state_of (reconcile_clavex_identity_provider c recorder sdk key (start w stream))).log
    unfolding reconcile_clavex_identity_provider
    reconcile_clavex_identity_provider-Lawful key w stream f =
        reconcile-Lawful c kind IdpRemoved f idp_kind-KindLaws key w stream
