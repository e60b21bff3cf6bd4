-- ===== src/Examples/Reports.antt =====
-- What a pass reports, for a ClavexClient in the small world.
use clavex_operator.Prelude.{true, false, ◌≡◌, refl}
use clavex_operator.Api.{ok, fail, Error, remote, wrapped, is_not_found}
use clavex_operator.Reconcile.{converge}
use clavex_operator.Reconcile.Flow.{next, state_of}
use clavex_operator.Reconcile.Calls.{State, ask}
use clavex_operator.Reconcile.Report.{
  FailureReport, SuccessReport, converge-FailureReport, converge-SuccessReport,
}
use clavex_operator.Drift.{or_return}
use clavex_operator.Client.{
  ClientService, ClientSpec, reconcile_client, persist_secret, client_kind,
}
use clavex_operator.Examples.Clients.{W, k8s, service, a_session, cr, begin, after, done, passes}

-- A server that is down.
abbrev broken : ClientService W
broken = record service { get = λ session org id w. (fail (remote false "down"), w) }

abbrev failing : State W ClientSpec
failing = state_of (reconcile_client k8s true broken a_session "acme-id" cr begin)

abbrev down : Error
down = wrapped "fetching existing client" (remote false "down")

fails : (client_kind k8s true broken).sync a_session "acme-id" cr begin ≡ next (fail down) failing
unfolding client_kind reconcile_client or_return ask is_not_found
fails = refl

failure_example :
    FailureReport k8s
      (client_kind k8s true broken)
      cr
      down
      failing
      (converge k8s (client_kind k8s true broken) a_session "acme-id" cr begin)
failure_example =
    converge-FailureReport k8s (client_kind k8s true broken) a_session "acme-id" cr begin failing
      down fails

keeps_none : (client_kind k8s true service).after_sync cr done after ≡ next tt after
unfolding client_kind persist_secret
keeps_none = refl

syncs : (client_kind k8s true service).sync a_session "acme-id" cr begin ≡ next (ok done) after
unfolding client_kind
syncs = passes

success_example :
    SuccessReport k8s
      (client_kind k8s true service)
      cr
      done
      after
      (converge k8s (client_kind k8s true service) a_session "acme-id" cr begin)
success_example =
    converge-SuccessReport k8s (client_kind k8s true service) a_session "acme-id" cr done begin
      after after syncs keeps_none
