-- ===== src/Examples/Orgs.antt =====
-- Passes over a ClavexOrg. The world holds the org's password policy; the marker of the rate limits
-- is never there.
use clavex_operator.Prelude.{String, true, false, Option, none, some, ◌≡◌, refl, pos}
use clavex_operator.Api.{ok, fail, remote, Resource}
use clavex_operator.Reconcile.Flow.{next, state_of}
use clavex_operator.Reconcile.Calls.{State, Session, start}
use clavex_operator.Reconcile.Lawful.{Lawful}
use clavex_operator.Org.Settings.{OrgSpec, PasswordPolicySpec, PasswordPolicy, policy_standing}
use clavex_operator.Org.{OrgService, org_kind, reconcile_clavex_org, reconcile_password_policy}
use clavex_operator.Org.Laws.{OrgLaws, Unmarked, reconcile_clavex_org-Lawful}
use clavex_operator.Org.Settles.{PolicyReadsBack, is_settled, password_policy_settles}
use clavex_operator.Examples.World.{World, cluster, cluster-FinalizerLaws}
use clavex_operator.Examples.Passes.{a_ref, key, fresh, leaving, holding}

abbrev W : Type 0
W = World OrgSpec PasswordPolicy

abbrev wanted : PasswordPolicySpec
wanted = record {
  min_length = pos 12;
  require_upper = true;
  require_lower = true;
  require_number = true;
  require_special = false;
  max_age_days = pos 0;
  history_count = pos 3;
}

abbrev a_spec : OrgSpec
a_spec = record {
  org_ref = "acme";
  auth_secret_ref = a_ref;
  password_policy = some wanted;
  rate_limits = none;
}

abbrev unmarked : Option PasswordPolicy → Option PasswordPolicy
unmarked none = none
unmarked (some p) = some (record p { managed_by = none })

abbrev marks : Option PasswordPolicy → Option String
marks none = none
marks (some p) = p.managed_by

abbrev service : OrgService W
service = record {
  get_policy = λ session org w. (ok w.live, w);
  put_policy = λ session marker org p w.
      (ok tt, record w { live = some (record p { managed_by = some marker.managed_by }) });
  release_policy = λ session org w. (ok tt, record w { live = unmarked w.live });
  get_rates = λ session org w. (ok none, w);
  update_rates = λ session marker org p w. (fail (remote false "no rate limits"), w);
  release_rates = λ session org w. (fail (remote true "no rate limits"), w);
}

marks-unmarked : (o : Option PasswordPolicy) → marks (unmarked o) ≡ none
marks-unmarked none = refl
marks-unmarked (some p) = refl

service-OrgLaws : OrgLaws service
service-OrgLaws = record {
  PolicyFree = λ org w. marks w.live ≡ none;
  RatesFree = λ org w. Unit {0};
  policy_released = λ session org w h. marks-unmarked w.live;
  rates_released = λ session org w h. tt;
  rates_keep_policy = λ session org w h. h;
}

abbrev live : PasswordPolicy
live = record { org_id = "acme-id"; values = wanted; managed_by = none }

abbrev going : W
going =
    holding OrgSpec PasswordPolicy (leaving OrgSpec "clavex.eu/clavexorg-finalizer" a_spec)
      (some live)

org_example :
    Lawful
      (cluster OrgSpec PasswordPolicy)
      (org_kind true service)
      (Unmarked (cluster OrgSpec PasswordPolicy) true service service-OrgLaws)
      (state_of (
        reconcile_clavex_org true service
          (cluster OrgSpec PasswordPolicy)
          key
          (start going none))).log
org_example =
    reconcile_clavex_org-Lawful (cluster OrgSpec PasswordPolicy) true service service-OrgLaws key
      going none (cluster-FinalizerLaws OrgSpec PasswordPolicy)

service-PolicyReadsBack : PolicyReadsBack service
service-PolicyReadsBack = record {
  get_after_put = λ session marker org p w h.
      (record p { managed_by = some marker.managed_by }, refl, refl, refl);
}

abbrev a_session : Session
a_session = record { api_key = "k1" }

abbrev cr : Resource OrgSpec
cr = fresh OrgSpec a_spec

abbrev begin : State W OrgSpec
begin = start (holding OrgSpec PasswordPolicy cr (some live)) none

-- The values are the spec's, but the marker is missing.
unsettled : is_settled true service a_session "acme-id" cr wanted (some live) ≡ false
unfolding policy_standing
unsettled = refl

policy_example :
    let s₁ =
      state_of (reconcile_password_policy true service a_session "acme-id" cr wanted begin) in
    reconcile_password_policy true service a_session "acme-id" cr wanted s₁
    ≡ next (ok false) (record s₁ { world = s₁.world })
policy_example =
    password_policy_settles true service a_session "acme-id" cr wanted begin (some live)
      service-PolicyReadsBack refl unsettled refl
