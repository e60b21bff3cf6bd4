-- ===== src/Entry/Sound.antt =====
-- What holds of the calls that the start of the program makes: the servers' protocols, and the
-- registry that the event stream is started with.
use clavex_operator.Prelude.{
  String, Bool, true, false, List, [], ◌∷◌, Option, ◌≡◌, arith, str_eq, eq_iff, if◌then◌else◌,
}
use clavex_operator.Api.{Error}
use clavex_operator.Stream.Pool.{is_present}
use clavex_operator.Stream.Dispatch.{is_managed_resource, find_registration}
use clavex_operator.Entry.{
  client_controller, identity_provider_controller, role_controller, group_controller,
  webhook_controller, org_controller, auth_policy_controller, Lists, Call, gets_config,
  makes_manager, adds_stream, completes, completes_webhook, adds_healthz, adds_readyz, starts, main,
}
use clavex_operator.Entry.Laws.{
  Follows, all_registrations, plan, plan_end, plan_controllers, main-Follows,
}
use clavex_operator.Entry.Options.{
  Flags, TlsConfig, configured, manager_options, tls_opts, disable_http2, webhook_server_options,
  metrics_server_options,
}

-- A server that is configured so negotiates HTTP/1.1 alone, unless the flag enables HTTP/2.
abbrev pub Negotiates : Flags → List (TlsConfig → TlsConfig) → Type 0
Negotiates flags opts =
    (c : TlsConfig)
    → (configured opts c).next_protos
      ≡ (if flags.enable_http2 then c.next_protos else "http/1.1" ∷ [])

-- What is asked of a call; of most calls, nothing.
abbrev pub IsSound : {W : Type 0} → Flags → Call W → Type 0
IsSound flags (makes_manager opts) =
    Negotiates flags opts.webhook.tls_opts
    × Negotiates flags opts.metrics.tls_opts
    × (opts.metrics.is_protected ≡ opts.metrics.secure_serving)
IsSound flags (starts regs) =
    (t : String) → is_present (find_registration t regs) ≡ is_managed_resource t
IsSound flags gets_config = Unit {0}
IsSound flags adds_stream = Unit {0}
IsSound flags (completes name has_stream) = Unit {0}
IsSound flags completes_webhook = Unit {0}
IsSound flags adds_healthz = Unit {0}
IsSound flags adds_readyz = Unit {0}

abbrev pub AreSound : {W : Type 0} → Flags → List (Call W × Bool) → Type 0
AreSound flags [] = Unit {0}
AreSound flags ((c, b) ∷ calls) = IsSound flags c × AreSound flags calls

abbrev IsSoundPlan : {W : Type 0} → Flags → List (Call W) → Type 0
IsSoundPlan flags [] = Unit {0}
IsSoundPlan flags (c ∷ plan) = IsSound flags c × IsSoundPlan flags plan

str_eq_comm : (s t : String) → str_eq s t ≡ str_eq t s
str_eq_comm s t = ground (arith, eq_iff s t, eq_iff t s)

negotiates : (flags : Flags) → Negotiates flags (tls_opts flags)
unfolding tls_opts configured disable_http2
negotiates flags c = ground arith

webhook_opts : (flags : Flags) → (webhook_server_options flags).tls_opts ≡ tls_opts flags
unfolding webhook_server_options
webhook_opts flags = ground arith

metrics_opts : (flags : Flags) → (metrics_server_options flags).tls_opts ≡ tls_opts flags
unfolding metrics_server_options
metrics_opts flags = ground arith

metrics_protection :
    (flags : Flags)
    → (metrics_server_options flags).is_protected ≡ (metrics_server_options flags).secure_serving
unfolding metrics_server_options
metrics_protection flags = ground arith

options-IsSound :
    (W : Type 0) (flags : Flags) → IsSound {W = W} flags (makes_manager (manager_options flags))
unfolding manager_options
options-IsSound W flags = (
  rw (webhook_opts flags) (negotiates flags),
  rw (metrics_opts flags) (negotiates flags),
  metrics_protection flags,
)

module _ {W : Type 0} where
  Follows-AreSound :
      (flags : Flags) (plan : List (Call W)) (calls : List (Call W × Bool)) (exits : Bool)
      → IsSoundPlan flags plan
      → Follows plan calls exits
      → AreSound flags calls
  Follows-AreSound flags plan [] exits h f = tt
  Follows-AreSound flags [] (c ∷ calls) exits h f = elim f [ ]
  Follows-AreSound flags (p ∷ plan) ((c, true) ∷ calls) exits (h, hs) (e, f) =
      (rw e h, Follows-AreSound flags plan calls exits hs f)
  Follows-AreSound flags (p ∷ plan) ((c, false) ∷ []) exits (h, hs) (e, f) = (rw e h, tt)
  Follows-AreSound flags (p ∷ plan) ((c, false) ∷ d ∷ calls) exits h f = elim f [ ]

  registered_iff_managed :
      (lists : Lists W) (t : String)
      → is_present (find_registration t (all_registrations lists)) ≡ is_managed_resource t
  unfolding find_registration is_managed_resource client_controller identity_provider_controller
      role_controller group_controller webhook_controller org_controller auth_policy_controller
  registered_iff_managed lists t = ground (
    arith,
    str_eq_comm t "oidc_client",
    str_eq_comm t "role",
    str_eq_comm t "group",
    str_eq_comm t "auth_policy",
    str_eq_comm t "org",
    str_eq_comm t "webhook",
    str_eq_comm t "identity_provider",
  )

  -- Whatever the runtime answers to the calls of `main`, the two servers of the manager that it asks
  -- for negotiate HTTP/1.1 alone unless HTTP/2 is enabled, the metrics are protected exactly if they
  -- are served securely, and where the runtime is started, the event stream has a registration for
  -- a resource type exactly if it does not drop the messages about that type.
  pub main_sound :
      {M : Type 0} (answer : Call W → M → Option Error × M) (lists : Lists W) (flags : Flags)
      (enable_webhooks : String) (m : M)
      → AreSound flags (main answer lists flags enable_webhooks m).calls
  main_sound answer lists flags enable_webhooks m =
      by_url (str_eq flags.clavex_server_url "") (main-Follows answer lists flags enable_webhooks m)
    where
      ends : IsSoundPlan flags (plan_end lists)
      ends = (tt, (tt, (registered_iff_managed lists, tt)))

      sound :
          (b : Bool)
          → IsSoundPlan flags (if b then plan_end lists else completes_webhook ∷ plan_end lists)
      sound true = ends
      sound false = (tt, ends)

      controllers : IsSoundPlan flags (
          plan_controllers (
            if str_eq enable_webhooks "false"
            then plan_end lists
            else completes_webhook ∷ plan_end lists))
      controllers = (tt, (tt, (tt, (tt, (tt, (tt, (tt, sound (str_eq enable_webhooks "false"))))))))

      by_url :
          (b : Bool)
          → let e = main answer lists flags enable_webhooks m in
            (if b
              then (e ≡ record { exits = true; calls = [] })
              else Follows (plan lists flags enable_webhooks) e.calls e.exits)
            → AreSound flags (main answer lists flags enable_webhooks m).calls
      by_url true h = rw h tt
      by_url false h =
          Follows-AreSound flags (plan lists flags enable_webhooks) _ _
            (tt, (options-IsSound W flags, (tt, controllers))) h
