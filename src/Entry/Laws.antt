-- ===== src/Entry/Laws.antt =====
-- What the start of the program does: its calls in their order, the registry that it leaves to the
-- event stream, and the protocols of the two servers.
use clavex_operator.Prelude.{
  String, Bool, true, false, List, [], ◌∷◌, Option, none, some, ◌≡◌, refl, not, str_eq,
  if◌then◌else◌,
}
use clavex_operator.Api.{Error}
use clavex_operator.Stream.Pool.{Registration}
use clavex_operator.Stream.Manager.{register}
use clavex_operator.Entry.{
  Controller, Lists, Call, gets_config, makes_manager, adds_stream, completes, completes_webhook,
  adds_healthz, adds_readyz, starts, Ending, Setup, or_exit, setup_with_manager,
  serve_until_stopped, setup_webhook, setup_controllers, main, client_controller,
  identity_provider_controller, role_controller, group_controller, webhook_controller,
  org_controller, auth_policy_controller,
}
use clavex_operator.Entry.Options.{Flags, manager_options}

module _ {W : Type 0} where
  -- The calls were made in the order of the plan and succeeded, up to the first one that failed,
  -- with which the program exits; it does not exit if there is none.
  abbrev pub Follows : List (Call W) → List (Call W × Bool) → Bool → Type 0
  Follows [] [] exits = exits ≡ false
  Follows [] (c ∷ calls) exits = ⊥
  Follows (p ∷ plan) [] exits = ⊥
  Follows (p ∷ plan) ((c, true) ∷ calls) exits = (c ≡ p) × Follows plan calls exits
  Follows (p ∷ plan) ((c, false) ∷ []) exits = (c ≡ p) × (exits ≡ true)
  Follows (p ∷ plan) ((c, false) ∷ d ∷ calls) exits = ⊥

  abbrev registration : Controller W → Registration W
  registration ctl = record { resource_type = ctl.resource_type; lister = ctl.lister }

  -- One registration for each kind.
  abbrev pub all_registrations : Lists W → List (Registration W)
  all_registrations lists =
      registration (client_controller lists)
      ∷ registration (identity_provider_controller lists)
      ∷ registration (role_controller lists)
      ∷ registration (group_controller lists)
      ∷ registration (webhook_controller lists)
      ∷ registration (org_controller lists)
      ∷ registration (auth_policy_controller lists)
      ∷ []

  abbrev pub plan_end : Lists W → List (Call W)
  plan_end lists = adds_healthz ∷ adds_readyz ∷ starts (all_registrations lists) ∷ []

  abbrev pub plan_controllers : List (Call W) → List (Call W)
  plan_controllers rest =
      completes "clavexclient" true
      ∷ completes "clavexidentityprovider" true
      ∷ completes "clavexrole" true
      ∷ completes "clavexgroup" true
      ∷ completes "clavexwebhook" true
      ∷ completes "clavexorg" true
      ∷ completes "clavexauthpolicy" true
      ∷ rest

  -- What `main` means to call.
  abbrev pub plan : Lists W → Flags → String → List (Call W)
  plan lists flags enable_webhooks =
      gets_config
      ∷ makes_manager (manager_options flags)
      ∷ adds_stream
      ∷ plan_controllers (
          if str_eq enable_webhooks "false"
          then plan_end lists
          else completes_webhook ∷ plan_end lists)

module _ {M W : Type 0} (answer : Call W → M → Option Error × M) where
  -- A part of `main`, from a registry on, follows a plan.
  record IsPlanned (plan : List (Call W)) (regs : List (Registration W))
      (part : Setup M W → Ending W) : Type 0 where
    follows :
        (m : M) → let e = part (record { runtime = m; regs = regs }) in Follows plan e.calls e.exits

  or_exit-IsPlanned :
      {plan : List (Call W)} {regs : List (Registration W)} {rest : Setup M W → Ending W}
      (call : Call W)
      → IsPlanned plan regs rest
      → IsPlanned (call ∷ plan) regs (or_exit answer call rest)
  unfolding or_exit
  or_exit-IsPlanned {plan = plan} {regs = regs} {rest = rest} call h = record {
    follows = λ m. by_answer (answer call m).0 (answer call m).1;
  }
    where
      by_answer :
          (err : Option Error) (m : M)
          → let ending = rest (record { runtime = m; regs = regs }) in
            let e : Ending W = elim err [
              | none ↦ record ending { calls = (call, true) ∷ ending.calls }
              | some e ↦ record { exits = true; calls = (call, false) ∷ [] }
            ] in
            Follows (call ∷ plan) e.calls e.exits
      by_answer none m = (refl, h.follows m)
      by_answer (some err) m = (refl, refl)

  setup_with_manager-IsPlanned :
      {plan : List (Call W)} {regs : List (Registration W)} {rest : Setup M W → Ending W}
      (ctl : Controller W)
      → IsPlanned plan (register (registration ctl) regs) rest
      → IsPlanned (completes ctl.name true ∷ plan) regs (setup_with_manager answer ctl true rest)
  unfolding setup_with_manager
  setup_with_manager-IsPlanned {plan = plan} {regs = regs} {rest = rest} ctl h = record {
    follows = (or_exit-IsPlanned (completes ctl.name true) h).follows;
  }

  starts-IsPlanned :
      (regs : List (Registration W))
      → IsPlanned
          (starts regs ∷ [])
          regs
          (λ s. or_exit answer (starts s.regs) (λ s'. record { exits = false; calls = [] }) s)
  starts-IsPlanned regs =
      let last : IsPlanned [] regs (λ s'. record { exits = false; calls = [] }) = record {
        follows = λ m. refl;
      } in
      record { follows = (or_exit-IsPlanned (starts regs) last).follows }

  serve_until_stopped-IsPlanned :
      (lists : Lists W)
      → IsPlanned (plan_end lists) (all_registrations lists) (serve_until_stopped answer)
  unfolding serve_until_stopped
  serve_until_stopped-IsPlanned lists =
      or_exit-IsPlanned adds_healthz
        (or_exit-IsPlanned adds_readyz (starts-IsPlanned (all_registrations lists)))

  setup_webhook-IsPlanned :
      {plan : List (Call W)} {regs : List (Registration W)} {rest : Setup M W → Ending W}
      (enable_webhooks : String)
      → IsPlanned plan regs rest
      → IsPlanned
          (if str_eq enable_webhooks "false" then plan else completes_webhook ∷ plan)
          regs
          (setup_webhook answer enable_webhooks rest)
  unfolding setup_webhook
  setup_webhook-IsPlanned {plan = plan} {regs = regs} {rest = rest} enable_webhooks h =
      by_test (str_eq enable_webhooks "false")
    where
      by_test :
          (b : Bool)
          → IsPlanned
              (if b then plan else completes_webhook ∷ plan)
              regs
              (if not b then or_exit answer completes_webhook rest else rest)
      by_test true = h
      by_test false = or_exit-IsPlanned completes_webhook h

  setup_controllers-IsPlanned :
      {plan : List (Call W)} {rest : Setup M W → Ending W} (lists : Lists W)
      → IsPlanned plan (all_registrations lists) rest
      → IsPlanned (plan_controllers plan) [] (setup_controllers answer lists rest)
  unfolding setup_controllers register client_controller identity_provider_controller
      role_controller group_controller webhook_controller org_controller auth_policy_controller
  setup_controllers-IsPlanned lists h = setup_with_manager-IsPlanned (client_controller lists) (
      setup_with_manager-IsPlanned (identity_provider_controller lists) (
        setup_with_manager-IsPlanned (role_controller lists) (
          setup_with_manager-IsPlanned (group_controller lists) (
            setup_with_manager-IsPlanned (webhook_controller lists) (
              setup_with_manager-IsPlanned (org_controller lists)
                (setup_with_manager-IsPlanned (auth_policy_controller lists) h))))))

  -- Without a server URL the program exits and calls nothing. With one it makes its calls in the
  -- order of the plan up to the first that fails, with which it exits; the last of them starts the
  -- runtime, with one registration for each of the seven kinds in the event stream's registry, and
  -- the admission webhook is left out exactly if `ENABLE_WEBHOOKS` is "false".
  pub main-Follows :
      (lists : Lists W) (flags : Flags) (enable_webhooks : String) (m : M)
      → let e = main answer lists flags enable_webhooks m in
        if str_eq flags.clavex_server_url ""
        then (e ≡ record { exits = true; calls = [] })
        else Follows (plan lists flags enable_webhooks) e.calls e.exits
  unfolding main
  main-Follows lists flags enable_webhooks m = by_url (str_eq flags.clavex_server_url "")
    where
      started : Setup M W → Ending W
      started = or_exit answer gets_config (
          or_exit answer (makes_manager (manager_options flags)) (
            or_exit answer adds_stream (
              setup_controllers answer lists
                (setup_webhook answer enable_webhooks (serve_until_stopped answer)))))

      by_url :
          (b : Bool)
          → let e =
              if b
              then record { exits = true; calls = [] }
              else started (record { runtime = m; regs = [] }) in
            if b
            then (e ≡ record { exits = true; calls = [] })
            else Follows (plan lists flags enable_webhooks) e.calls e.exits
      by_url true = refl
      by_url false =
          (or_exit-IsPlanned gets_config (
              or_exit-IsPlanned (makes_manager (manager_options flags)) (
                or_exit-IsPlanned adds_stream (
                  setup_controllers-IsPlanned lists (
                    setup_webhook-IsPlanned enable_webhooks
                      (serve_until_stopped-IsPlanned lists)))))).follows
            m
