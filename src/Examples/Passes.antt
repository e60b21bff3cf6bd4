-- ===== src/Examples/Passes.antt =====
-- Passes over a resource of each kind, from states of the small world.
use clavex_operator.Prelude.{String, true, false, [], ◌∷◌, Option, none, some, pos}
use clavex_operator.Api.{ok, SecretRef, NamespacedName, Resource}
use clavex_operator.Stream.Pool.{Pool}
use clavex_operator.Reconcile.Flow.{state_of}
use clavex_operator.Reconcile.Calls.{start}
use clavex_operator.Reconcile.Lawful.{Lawful}
use clavex_operator.Role.{RoleSpec, Role, RoleService, role_kind, reconcile_clavex_role}
use clavex_operator.Role.Laws.{RoleRemoved, reconcile_clavex_role-Lawful}
use clavex_operator.Webhook.{
  WebhookSpec, Webhook, WebhookService, webhook_kind, reconcile_clavex_webhook,
}
use clavex_operator.Webhook.Laws.{WebhookRemoved, reconcile_clavex_webhook-Lawful}
use clavex_operator.AuthPolicy.{
  AuthPolicySpec, PolicyConditions, PolicyRule, PolicyService, auth_policy_kind,
  reconcile_clavex_auth_policy,
}
use clavex_operator.AuthPolicy.Laws.{AuthPolicyRemoved, reconcile_clavex_auth_policy-Lawful}
use clavex_operator.IdentityProvider.Laws.{}
use clavex_operator.Examples.World.{
  World, cluster, cluster-FinalizerLaws, directory, directory-DirectoryLaws,
}

abbrev pub a_ref : SecretRef
a_ref = record { name = "creds"; namespace = ""; key = "" }

abbrev pub key : NamespacedName
key = record { namespace = "team"; name = "thing" }

-- A resource that was never synced, and has no finalizer yet.
abbrev pub fresh : (Spec : Type 0) → Spec → Resource Spec
fresh Spec spec = record {
  meta = record {
    namespace = "team";
    name = "thing";
    generation = 1;
    deletion_timestamp = none;
    finalizers = [];
  };
  spec = spec;
  status = record {
    conditions = [];
    observed_generation = 0;
    remote_id = "";
    last_synced_at = none;
  };
}

-- A resource that is being deleted, with its finalizer in place.
abbrev pub leaving : (Spec : Type 0) → String → Spec → Resource Spec
leaving Spec finalizer spec =
    let cr = fresh Spec spec in
    record cr { meta = record cr.meta { deletion_timestamp = some 5; finalizers = finalizer ∷ [] } }

abbrev pub holding : (Spec Live : Type 0) → Resource Spec → Option Live → World Spec Live
holding Spec Live cr live = record { stored = some cr; live = live }

abbrev idle : Pool
idle = record { running = true; conns = [] }

abbrev a_role_spec : RoleSpec
a_role_spec = record {
  org_ref = "acme";
  auth_secret_ref = a_ref;
  name = "editor";
  description = "may edit";
}

abbrev a_role : Role
a_role = record { id = "r1"; name = "editor" }

abbrev role_service : RoleService (World RoleSpec Role)
role_service = record {
  roles = directory RoleSpec (λ r. r.id) (λ r. r.name);
  create = λ session marker org p w. (
    ok (record { id = "r1"; name = p.name }),
    record w { live = some (record { id = "r1"; name = p.name }) },
  );
}

abbrev role_world : World RoleSpec Role
role_world =
    holding RoleSpec Role (leaving RoleSpec "clavex.eu/clavexrole-finalizer" a_role_spec)
      (some a_role)

-- A role that exists is deleted with its resource.
role_example :
    Lawful
      (cluster RoleSpec Role)
      (role_kind role_service)
      (RoleRemoved
        (cluster RoleSpec Role)
        role_service
        (directory-DirectoryLaws RoleSpec (λ r. r.id) (λ r. r.name)))
      (state_of (
        reconcile_clavex_role role_service
          (cluster RoleSpec Role)
          key
          (start role_world (some idle)))).log
role_example =
    reconcile_clavex_role-Lawful (cluster RoleSpec Role) role_service
      (directory-DirectoryLaws RoleSpec (λ r. r.id) (λ r. r.name)) key role_world (some idle)
      (cluster-FinalizerLaws RoleSpec Role)

abbrev pub a_webhook_spec : WebhookSpec
a_webhook_spec = record {
  org_ref = "acme";
  auth_secret_ref = a_ref;
  url = "https://hooks.example";
  events = "user.created" ∷ [];
  enabled = true;
  signing_key_ref = some a_ref;
}

abbrev pub webhook_service : WebhookService (World WebhookSpec Webhook)
webhook_service = record {
  webhooks = directory WebhookSpec (λ x. x.id) (λ x. x.url);
  create = λ session marker org p w.
      let x : Webhook = record {
        id = "h1";
        url = p.url;
        is_active = p.is_active;
        events = p.events;
      } in
      (ok x, record w { live = some x });
  update = λ session marker org id p w.
      let x : Webhook = record {
        id = id;
        url = p.url;
        is_active = p.is_active;
        events = p.events;
      } in
      (ok x, record w { live = some x });
}

abbrev webhook_world : World WebhookSpec Webhook
webhook_world =
    holding WebhookSpec Webhook (fresh WebhookSpec a_webhook_spec)
      (some (record { id = "h1"; url = "https://hooks.example"; is_active = false; events = [] }))

-- A webhook that differs is corrected.
webhook_example :
    Lawful
      (cluster WebhookSpec Webhook)
      (webhook_kind (cluster WebhookSpec Webhook) true webhook_service)
      (WebhookRemoved
        (cluster WebhookSpec Webhook)
        true
        webhook_service
        (directory-DirectoryLaws WebhookSpec (λ x. x.id) (λ x. x.url)))
      (state_of (
        reconcile_clavex_webhook
          (cluster WebhookSpec Webhook)
          true
          webhook_service
          key
          (start webhook_world none))).log
webhook_example =
    reconcile_clavex_webhook-Lawful (cluster WebhookSpec Webhook) true webhook_service
      (directory-DirectoryLaws WebhookSpec (λ x. x.id) (λ x. x.url)) key webhook_world none
      (cluster-FinalizerLaws WebhookSpec Webhook)

abbrev no_conditions : PolicyConditions
no_conditions = record {
  ip_cidrs = none;
  countries = some ("DE" ∷ []);
  not_countries = none;
  client_ids = none;
  mfa_enrolled = none;
  new_country = some true;
  days_of_week = none;
  hour_range = none;
  last_login_before = "";
}

abbrev pub a_policy_spec : AuthPolicySpec
a_policy_spec = record {
  org_ref = "acme";
  auth_secret_ref = a_ref;
  name = "block abroad";
  priority = pos 10;
  action = "deny";
  enabled = true;
  conditions = no_conditions;
}

abbrev pub policy_service : PolicyService (World AuthPolicySpec PolicyRule)
policy_service = record {
  rules = directory AuthPolicySpec (λ x. x.id) (λ x. x.name);
  create = λ session marker org p w.
      let x : PolicyRule = record {
        id = "p1";
        name = p.name;
        priority = p.priority;
        action = p.action;
        enabled = true;
        conditions = p.conditions;
      } in
      (ok x, record w { live = some x });
  update = λ session marker org id p w.
      let x : PolicyRule = record {
        id = id;
        name = p.name;
        priority = p.priority;
        action = p.action;
        enabled = p.enabled;
        conditions = p.conditions;
      } in
      (ok x, record w { live = some x });
}

abbrev policy_world : World AuthPolicySpec PolicyRule
policy_world = holding AuthPolicySpec PolicyRule (fresh AuthPolicySpec a_policy_spec) none

-- A rule that is missing is created.
auth_policy_example :
    Lawful
      (cluster AuthPolicySpec PolicyRule)
      (auth_policy_kind (cluster AuthPolicySpec PolicyRule) false policy_service)
      (AuthPolicyRemoved
        (cluster AuthPolicySpec PolicyRule)
        false
        policy_service
        (directory-DirectoryLaws AuthPolicySpec (λ x. x.id) (λ x. x.name)))
      (state_of (
        reconcile_clavex_auth_policy
          (cluster AuthPolicySpec PolicyRule)
          false
          policy_service
          key
          (start policy_world none))).log
auth_policy_example =
    reconcile_clavex_auth_policy-Lawful (cluster AuthPolicySpec PolicyRule) false policy_service
      (directory-DirectoryLaws AuthPolicySpec (λ x. x.id) (λ x. x.name)) key policy_world none
      (cluster-FinalizerLaws AuthPolicySpec PolicyRule)
