-- ===== src/Entry.antt =====
-- cmd/main.go: the start of the program, with each controller's `SetupWithManager` and the stream's
-- source (internal/controller/eventstream_wiring.go). What controller-runtime answers is given.
pub mod Options
pub mod Laws
pub mod Sound
use clavex_operator.Prelude.{
  String, Bool, true, false, List, [], ◌∷◌, Option, none, some, not, str_eq, if◌then◌else◌,
}
use clavex_operator.Api.{Answer, Error, Resource}
use clavex_operator.Stream.Pool.{Item, Registration}
use clavex_operator.Stream.Manager.{register, stream_items}
use clavex_operator.Client.{ClientSpec}
use clavex_operator.IdentityProvider.{IdentityProviderSpec}
use clavex_operator.Role.{RoleSpec}
use clavex_operator.Group.{GroupSpec}
use clavex_operator.Webhook.{WebhookSpec}
use clavex_operator.Org.Settings.{OrgSpec}
use clavex_operator.AuthPolicy.{AuthPolicySpec}
use clavex_operator.Entry.Options.{Flags, ManagerOptions, manager_options}

-- A controller, as its `SetupWithManager` describes it: its name, and what it gives to the stream.
pub record Controller (W : Type 0) : Type 0 where
  pub name : String
  pub resource_type : String
  pub lister : W → Answer (List Item) × W

-- The Kubernetes client's `List` of each kind.
pub record Lists (W : Type 0) : Type 0 where
  pub clients : W → Answer (List (Resource ClientSpec)) × W
  pub identity_providers : W → Answer (List (Resource IdentityProviderSpec)) × W
  pub roles : W → Answer (List (Resource RoleSpec)) × W
  pub groups : W → Answer (List (Resource GroupSpec)) × W
  pub webhooks : W → Answer (List (Resource WebhookSpec)) × W
  pub orgs : W → Answer (List (Resource OrgSpec)) × W
  pub auth_policies : W → Answer (List (Resource AuthPolicySpec)) × W

-- Each controller's `streamItems`, and what its `SetupWithManager` gives.
module _ {W : Type 0} (lists : Lists W) where
  unfoldable pub client_items : W → Answer (List Item) × W
  client_items = stream_items (λ spec. spec.org_ref) (λ spec. spec.auth_secret_ref) lists.clients

  unfoldable pub client_controller : Controller W
  unfolding client_items
  client_controller = record {
    name = "clavexclient";
    resource_type = "oidc_client";
    lister = client_items;
  }

  unfoldable pub identity_provider_items : W → Answer (List Item) × W
  identity_provider_items =
      stream_items (λ spec. spec.org_ref) (λ spec. spec.auth_secret_ref) lists.identity_providers

  unfoldable pub identity_provider_controller : Controller W
  unfolding identity_provider_items
  identity_provider_controller = record {
    name = "clavexidentityprovider";
    resource_type = "identity_provider";
    lister = identity_provider_items;
  }

  unfoldable pub role_items : W → Answer (List Item) × W
  role_items = stream_items (λ spec. spec.org_ref) (λ spec. spec.auth_secret_ref) lists.roles

  unfoldable pub role_controller : Controller W
  unfolding role_items
  role_controller = record { name = "clavexrole"; resource_type = "role"; lister = role_items }

  unfoldable pub group_items : W → Answer (List Item) × W
  group_items = stream_items (λ spec. spec.org_ref) (λ spec. spec.auth_secret_ref) lists.groups

  unfoldable pub group_controller : Controller W
  unfolding group_items
  group_controller = record { name = "clavexgroup"; resource_type = "group"; lister = group_items }

  unfoldable pub webhook_items : W → Answer (List Item) × W
  webhook_items = stream_items (λ spec. spec.org_ref) (λ spec. spec.auth_secret_ref) lists.webhooks

  unfoldable pub webhook_controller : Controller W
  unfolding webhook_items
  webhook_controller = record {
    name = "clavexwebhook";
    resource_type = "webhook";
    lister = webhook_items;
  }

  unfoldable pub org_items : W → Answer (List Item) × W
  org_items = stream_items (λ spec. spec.org_ref) (λ spec. spec.auth_secret_ref) lists.orgs

  unfoldable pub org_controller : Controller W
  unfolding org_items
  org_controller = record { name = "clavexorg"; resource_type = "org"; lister = org_items }

  unfoldable pub auth_policy_items : W → Answer (List Item) × W
  auth_policy_items =
      stream_items (λ spec. spec.org_ref) (λ spec. spec.auth_secret_ref) lists.auth_policies

  unfoldable pub auth_policy_controller : Controller W
  unfolding auth_policy_items
  auth_policy_controller = record {
    name = "clavexauthpolicy";
    resource_type = "auth_policy";
    lister = auth_policy_items;
  }

-- The calls of controller-runtime that can fail, or end the program.
pub data Call (W : Type 0) : Type 0 where
  gets_config : Call W
  makes_manager : ManagerOptions → Call W
  adds_stream : Call W
  completes : String → Bool → Call W
  completes_webhook : Call W
  adds_healthz : Call W
  adds_readyz : Call W
  starts : List (Registration W) → Call W

-- `streamSource`: the source that it returns carries what `dispatch` puts in the channel.
unfoldable pub stream_source :
    {W : Type 0}
    → String
    → (W → Answer (List Item) × W)
    → List (Registration W)
    → List (Registration W)
unfolding register
stream_source resource_type lister regs =
    register (record { resource_type = resource_type; lister = lister }) regs

-- How the program ended, and the calls that it made in their order, with whether each succeeded.
pub record Ending (W : Type 0) : Type 0 where
  pub exits : Bool
  pub calls : List (Call W × Bool)

-- The runtime's state, and the registry of the event stream's manager.
pub record Setup (M W : Type 0) : Type 0 where
  pub runtime : M
  pub regs : List (Registration W)

abbrev pub is_nil : Option Error → Bool
is_nil none = true
is_nil (some e) = false

module _ {M W : Type 0} (answer : Call W → M → Option Error × M) where
  -- `if err := call; err != nil { os.Exit(1) }`, and then the rest.
  unfoldable pub or_exit : Call W → (Setup M W → Ending W) → Setup M W → Ending W
  or_exit call rest s =
      let (err, m) = answer call s.runtime in
      let ending = rest (record s { runtime = m }) in
      elim err [
        | none ↦ record ending { calls = (call, true) ∷ ending.calls }
        | some e ↦ record { exits = true; calls = (call, false) ∷ [] }
      ]

  -- `SetupWithManager` of a controller; `has_stream` is `r.EventStream != nil`.
  unfoldable pub setup_with_manager :
      Controller W → Bool → (Setup M W → Ending W) → Setup M W → Ending W
  unfolding stream_source or_exit
  setup_with_manager ctl has_stream rest s =
      let wired =
        if has_stream
        then record s { regs = stream_source ctl.resource_type ctl.lister s.regs }
        else s in
      or_exit (completes ctl.name has_stream) rest wired

  -- The end of `main`: the probes and the runtime's `Start`, which returns when the program is told
  -- to stop.
  unfoldable pub serve_until_stopped : Setup M W → Ending W
  unfolding or_exit
  serve_until_stopped = or_exit adds_healthz (
      or_exit adds_readyz
        λ s. or_exit (starts s.regs) (λ s'. record { exits = false; calls = [] }) s)

  unfoldable pub setup_webhook : String → (Setup M W → Ending W) → Setup M W → Ending W
  unfolding or_exit
  setup_webhook enable_webhooks rest =
      if not (str_eq enable_webhooks "false") then or_exit completes_webhook rest else rest

  unfoldable pub setup_controllers : Lists W → (Setup M W → Ending W) → Setup M W → Ending W
  unfolding setup_with_manager client_controller
  setup_controllers lists rest = setup_with_manager (client_controller lists) true (
      setup_with_manager (identity_provider_controller lists) true (
        setup_with_manager (role_controller lists) true (
          setup_with_manager (group_controller lists) true (
            setup_with_manager (webhook_controller lists) true (
              setup_with_manager (org_controller lists) true
                (setup_with_manager (auth_policy_controller lists) true rest))))))

  -- `main`, after `flag.Parse`; `enable_webhooks` is the variable `ENABLE_WEBHOOKS`.
  unfoldable pub main : Lists W → Flags → String → M → Ending W
  unfolding or_exit setup_controllers setup_webhook serve_until_stopped manager_options
  main lists flags enable_webhooks m =
      if str_eq flags.clavex_server_url ""
      then record { exits = true; calls = [] }
      else or_exit gets_config
          (or_exit (makes_manager (manager_options flags)) (
            or_exit adds_stream
              (setup_controllers lists (setup_webhook enable_webhooks serve_until_stopped))))
          (record { runtime = m; regs = [] })
