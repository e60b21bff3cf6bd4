-- ===== src/AuthPolicy/Laws.antt =====
-- What a pass over a ClavexAuthPolicy guarantees.
use clavex_operator.Prelude.{String, Bool, Option, none, some}
use clavex_operator.Api.{NamespacedName, Resource}
use clavex_operator.Stream.Pool.{Pool}
use clavex_operator.Reconcile.{Kind}
use clavex_operator.Reconcile.Flow.{state_of}
use clavex_operator.Reconcile.Calls.{Cluster, start, Session}
use clavex_operator.Reconcile.Triple.{Triple, Triple-pure}
use clavex_operator.Reconcile.Lawful.{FinalizerLaws, Lawful, Law, ReadyLaw, KindLaws}
use clavex_operator.Reconcile.Safety.{reconcile-Lawful}
use clavex_operator.Named.Adds.{delete_by_name_adds}
use clavex_operator.Named.Laws.{DirectoryLaws, Removed, delete_by_name_gone}
use clavex_operator.Drift.Laws.{correct-Law, create_missing-Law, or_return-Law}
use clavex_operator.AuthPolicy.{
  AuthPolicySpec, PolicyRule, PolicyService, create_auth_policy, update_auth_policy,
  reconcile_auth_policy, auth_policy_kind, reconcile_clavex_auth_policy,
}

abbrev pub rule_name : AuthPolicySpec → String
rule_name spec = spec.name

module _ {W : Type 0} (c : Cluster W AuthPolicySpec) (recorder : Bool) (sdk : PolicyService W) where
  module _ (laws : DirectoryLaws sdk.rules) where
    abbrev kind : Kind W AuthPolicySpec
    kind = auth_policy_kind c recorder sdk

    -- What the listing, and the deletion of the first rule with the name of the spec, left.
    abbrev pub AuthPolicyRemoved : String → AuthPolicySpec → W → Type 0
    AuthPolicyRemoved = Removed c kind sdk.rules laws rule_name

    reconcile_auth_policy-Law :
        (session : Session) (org_id : String) (cr : Resource AuthPolicySpec)
        → Triple
            (ReadyLaw c kind AuthPolicyRemoved)
            (reconcile_auth_policy c recorder sdk session org_id cr)
            (λ _. Law c kind AuthPolicyRemoved)
            (Law c kind AuthPolicyRemoved)
    unfolding reconcile_auth_policy
    reconcile_auth_policy-Law session org_id cr =
        or_return-Law c kind AuthPolicyRemoved _ _ by_existing
      where
        by_existing :
            (existing : Option PolicyRule)
            → Triple
                (ReadyLaw c kind AuthPolicyRemoved)
                (elim existing [
                  | none ↦ create_auth_policy c recorder sdk session org_id cr
                  | some live ↦ update_auth_policy c recorder sdk session org_id cr live
                ])
                (λ _. Law c kind AuthPolicyRemoved)
                (Law c kind AuthPolicyRemoved)
        by_existing none = create_missing-Law c kind AuthPolicyRemoved _ _ _ _
        by_existing (some live) = correct-Law c kind AuthPolicyRemoved _ _ _ _ _ _

    auth_policy_kind-KindLaws : KindLaws c kind AuthPolicyRemoved
    unfolding auth_policy_kind
    auth_policy_kind-KindLaws = record {
      delete_remote_gone = λ session org_id cr.
          delete_by_name_gone c kind sdk.rules laws rule_name "policy rules" session org_id cr.spec;
      delete_remote_adds = λ session org_id cr.
          delete_by_name_adds sdk.rules "policy rules" session org_id cr.spec.name;
      sync_lawful = reconcile_auth_policy-Law;
      after_sync_lawful = λ cr synced. Triple-pure tt (λ s p. p);
    }

    -- By what is documented of the SDK's listing and deletion and of AddFinalizer, and whatever
    -- the calls answer, a pass over a ClavexAuthPolicy writes to the Admin API only after it has
    -- seen the finalizer in the cluster, and gives the finalizer up only in a state that a
    -- listing and a deletion left: the org is the one that the credentials name which this pass
    -- resolved, after it read the resource, and its live rules are those listed less every one
    -- with the id of the first that has the name of the spec, whose deletion was accepted or
    -- answered with not found; where none has it, they are those listed. A further one with that
    -- name, under another id, is still live.
    pub reconcile_clavex_auth_policy-Lawful :
        (key : NamespacedName) (w : W) (stream : Option Pool)
        → FinalizerLaws c
        → Lawful c kind AuthPolicyRemoved
            (state_of (reconcile_clavex_auth_policy c recorder sdk key (start w stream))).log
    unfolding reconcile_clavex_auth_policy
    reconcile_clavex_auth_policy-Lawful key w stream f =
        reconcile-Lawful c kind AuthPolicyRemoved f auth_policy_kind-KindLaws key w stream
