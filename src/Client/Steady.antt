-- ===== src/Client/Steady.antt =====
-- The pass over a ClavexClient that has nothing to correct, from the first line of `Reconcile` to
-- its return.
use clavex_operator.Prelude.{Bool, true, Option, none, some, ◌≡◌, refl}
use clavex_operator.Api.{ok, SecretRef, NamespacedName, Resource}
use clavex_operator.AuthSecret.{Credentials}
use clavex_operator.Reconcile.Flow.{next}
use clavex_operator.Reconcile.Calls.{Cluster, State, Session}
use clavex_operator.Reconcile.Report.{SuccessReport, converge-SuccessReport}
use clavex_operator.Reconcile.Steady.{ready, IsInPlace, reconcile-converge}
use clavex_operator.Drift.{unchanged}
use clavex_operator.Client.{
  ClientSpec, OidcClient, ClientService, client_up_to_date, client_kind, persist_secret,
  reconcile_clavex_client,
}
use clavex_operator.Client.Settles.{reconcile_client_quiet}

module _ {W : Type 0} (c : Cluster W ClientSpec) (recorder : Bool) (sdk : ClientService W) where
  module _ (key : NamespacedName) (s : State W ClientSpec) (cr : Resource ClientSpec)
      (credentials : Credentials) (session : Session) where
    abbrev before : State W ClientSpec
    before = ready c (client_kind c recorder sdk) key s cr credentials session

    -- The state in which the status is written: the live client was read, nothing else was done.
    abbrev pub looked_at : State W ClientSpec
    looked_at = record before {
      world = (sdk.get session credentials.org_id cr.spec.client_id before.world).1;
    }

    no_secret :
        (ref : Option SecretRef)
        → persist_secret c recorder sdk cr ref "" looked_at ≡ next tt looked_at
    unfolding persist_secret
    no_secret none = refl
    no_secret (some ref) = refl

    -- Where the resource is there, is not being deleted, has its finalizer and credentials that
    -- resolve, and the live client is as its spec says: the whole pass, from the first line of
    -- `Reconcile`, writes nothing but the status, as a success without drift, and asks for the next
    -- pass after 15 minutes if that write is accepted.
    pub reconcile_clavex_client-SuccessReport :
        (live : OidcClient)
        → IsInPlace c (client_kind c recorder sdk) key s cr credentials session
        → (sdk.get session credentials.org_id cr.spec.client_id before.world).0 ≡ ok live
        → client_up_to_date live cr ≡ true
        → SuccessReport c
            (client_kind c recorder sdk)
            cr
            (unchanged cr.spec.client_id)
            looked_at
            (reconcile_clavex_client c recorder sdk key s)
    unfolding reconcile_clavex_client client_kind
    reconcile_clavex_client-SuccessReport live h found same =
        rw (reconcile-converge c (client_kind c recorder sdk) key s cr credentials session h) (
          converge-SuccessReport c (client_kind c recorder sdk) session credentials.org_id cr
            (unchanged cr.spec.client_id) before looked_at looked_at
            (reconcile_client_quiet c recorder sdk session credentials.org_id cr before live found
              same)
            (no_secret cr.spec.client_secret_ref))
