-- ===== src/Stream/Manager/Refines.antt =====
-- The manager against an abstract one, which is only a map from orgs to keys and the cluster.
use clavex_operator.Prelude.{
  String, true, false, List, [], ◌∷◌, Option, none, some, ◌≡◌, refl, ◌∙◌, arith, str_eq, eq_iff,
  not, ◌&&◌, ◌⊎◌, if◌then◌else◌,
}
use clavex_operator.Api.{Answer, SecretRef}
use clavex_operator.Stream.Pool.{
  Pool, Item, Registration, discover, find_slug, ensure_org_with_key, reconcile_conns, shutdown,
}
use clavex_operator.Stream.Pool.Discovery.{mentions, listed}
use clavex_operator.Stream.Pool.Laws.{
  IsDistinct, or_else, find_slug-ensure_org_with_key, ensure_org_with_key-IsDistinct,
  reconcile_conns-IsDistinct, reconcile_conns_open,
}
use clavex_operator.Stream.Pool.Opens.{
  Any, Called, Gave, reconcile_conns-Called, reconcile_conns-Gave,
}
use clavex_operator.Stream.Manager.{Action, ticks, ensures, ensure_all, act, serve, start}

-- The abstract manager: the key under which each org is connected, if it is.
abbrev pub View : Type 0
View = String → Option String

abbrev pub view : Pool → View
view pool t = find_slug t pool.conns

-- A call of `EnsureOrgWithKey` connects its org if it has no connection, and nothing else.
abbrev pub EnsureOrg : String → String → String → Option String → Option String → Type 0
EnsureOrg org_slug api_key t before after = after ≡ (
    if not (str_eq org_slug "") && not (str_eq api_key "") && str_eq org_slug t
    then some (or_else before api_key)
    else before)

abbrev pub SpecEnsure : String → String → View → View → Type 0
SpecEnsure org_slug api_key v u = (t : String) → EnsureOrg org_slug api_key t (v t) (u t)

abbrev pub SpecEnsures : List (String × String) → View → View → Type 0
SpecEnsures [] v u = (t : String) → u t ≡ v t
SpecEnsures ((org_slug, api_key) ∷ calls) v u =
    (between : View) × SpecEnsure org_slug api_key v between × SpecEnsures calls between u

ensure-SpecEnsure :
    (org_slug api_key : String) (pool : Pool)
    → pool.running ≡ true
    → SpecEnsure org_slug api_key (view pool) (view (ensure_org_with_key org_slug api_key pool))
ensure-SpecEnsure org_slug api_key pool h =
    λ t. ground (arith, h, eq_iff org_slug t, find_slug-ensure_org_with_key org_slug api_key t pool)

ensure-running :
    (org_slug api_key : String) (pool : Pool)
    → (ensure_org_with_key org_slug api_key pool).running ≡ pool.running
unfolding ensure_org_with_key
ensure-running org_slug api_key pool = ground arith

ensure_all-SpecEnsures :
    (calls : List (String × String)) (pool : Pool)
    → pool.running ≡ true
    → SpecEnsures calls (view pool) (view (ensure_all calls pool))
unfolding ensure_all
ensure_all-SpecEnsures [] pool h = λ t. refl
ensure_all-SpecEnsures ((org_slug, api_key) ∷ calls) pool h =
    let next = ensure_org_with_key org_slug api_key pool in
    (
      view next,
      ensure-SpecEnsure org_slug api_key pool h,
      ensure_all-SpecEnsures calls next (ensure-running org_slug api_key pool ∙ h),
    )

ensure_all-running :
    (calls : List (String × String)) (pool : Pool) → (ensure_all calls pool).running ≡ pool.running
unfolding ensure_all
ensure_all-running [] pool = refl
ensure_all-running ((org_slug, api_key) ∷ calls) pool =
    ensure_all-running calls _ ∙ ensure-running org_slug api_key pool

ensure_all-IsDistinct :
    (calls : List (String × String)) (pool : Pool)
    → IsDistinct pool.conns
    → IsDistinct (ensure_all calls pool).conns
unfolding ensure_all
ensure_all-IsDistinct [] pool h = h
ensure_all-IsDistinct ((org_slug, api_key) ∷ calls) pool h =
    ensure_all-IsDistinct calls _ (ensure_org_with_key-IsDistinct org_slug api_key pool h)

module _ {W : Type 0} (resolve_key : SecretRef → String → W → Answer String × W) where
  module _ (regs : List (Registration W)) where
    -- What a tick does to an org at its lock, with the items that its discovery listed from `w`: an
    -- open connection stays if some item names the org and goes if none does; an org that is not
    -- connected stays so if no item names it, and else some item that does decides, by what its
    -- reference gives in this tick: connected under the key given, or not connected on a failure.
    abbrev pub TickOrg : W → String → Option String → Option String → Type 0
    TickOrg w t (some k) after = after ≡ (if mentions t (listed regs w) then some k else none)
    TickOrg w t none after =
        ((mentions t (listed regs w) ≡ false) × (after ≡ none))
        ⊎ Any
            (λ (it : Item).
              (it.org_slug ≡ t)
              × Gave resolve_key (discover regs w).1 it.secret_ref it.namespace after)
            (listed regs w)

    -- One action of the abstract manager, for every org, from a state of the cluster to the next.
    abbrev pub SpecStep : Action → View → W → View → W → Type 0
    SpecStep (ticks during) v w u w' =
        (between : View) × SpecEnsures during v between
        × ((t : String) → TickOrg w t (between t) (u t))
        × Called resolve_key (discover regs w).1 w'
    SpecStep (ensures org_slug api_key) v w u w' = SpecEnsure org_slug api_key v u × (w' ≡ w)

    -- A run of the abstract manager.
    abbrev pub SpecRun : List Action → View → W → View → W → Type 0
    SpecRun [] v w u w' = ((t : String) → u t ≡ v t) × (w' ≡ w)
    SpecRun (a ∷ actions) v w u w' =
        (between : View) × (w₁ : W) × SpecStep a v w between w₁ × SpecRun actions between w₁ u w'

    tick-TickOrg :
        (pool : Pool) (w : W) (t : String) (before after : Option String)
        → view pool t ≡ before
        → view (reconcile_conns resolve_key regs pool w).0 t ≡ after
        → TickOrg w t before after
    tick-TickOrg pool w t (some k) after h g =
        ground (arith, g, reconcile_conns_open resolve_key regs pool w t k h)
    tick-TickOrg pool w t none after h g = reconcile_conns-Gave resolve_key regs pool w t after h g

    act-SpecStep :
        (a : Action) (pool : Pool) (w : W)
        → pool.running ≡ true
        → let (pool', w') = act resolve_key regs a pool w in
          SpecStep a (view pool) w (view pool') w'
    unfolding act reconcile_conns
    act-SpecStep (ticks during) pool w h =
        let ensured = ensure_all during pool in
        (
          view ensured,
          ensure_all-SpecEnsures during pool h,
          λ t. tick-TickOrg ensured w t _ _ refl refl,
          reconcile_conns-Called resolve_key regs ensured w,
        )
    act-SpecStep (ensures org_slug api_key) pool w h =
        (ensure-SpecEnsure org_slug api_key pool h, refl)

    act-running :
        (a : Action) (pool : Pool) (w : W)
        → (act resolve_key regs a pool w).0.running ≡ pool.running
    unfolding act
    act-running (ticks during) pool w = ensure_all-running during pool
    act-running (ensures org_slug api_key) pool w = ensure-running org_slug api_key pool

    act-IsDistinct :
        (a : Action) (pool : Pool) (w : W)
        → IsDistinct pool.conns
        → IsDistinct (act resolve_key regs a pool w).0.conns
    unfolding act reconcile_conns
    act-IsDistinct (ticks during) pool w h =
        reconcile_conns-IsDistinct resolve_key regs (ensure_all during pool) w
          (ensure_all-IsDistinct during pool h)
    act-IsDistinct (ensures org_slug api_key) pool w h =
        ensure_org_with_key-IsDistinct org_slug api_key pool h

    serve-SpecRun :
        (actions : List Action) (pool : Pool) (w : W)
        → pool.running ≡ true
        → let (pool', w') = serve resolve_key regs actions pool w in
          SpecRun actions (view pool) w (view pool') w'
    unfolding serve
    serve-SpecRun [] pool w h = (λ t. refl, refl)
    serve-SpecRun (a ∷ actions) pool w h =
        let (pool', w') = act resolve_key regs a pool w in
        (
          view pool',
          w',
          act-SpecStep a pool w h,
          serve-SpecRun actions pool' w' (act-running a pool w ∙ h),
        )

    serve-IsDistinct :
        (actions : List Action) (pool : Pool) (w : W)
        → IsDistinct pool.conns
        → IsDistinct (serve resolve_key regs actions pool w).0.conns
    unfolding serve
    serve-IsDistinct [] pool w h = h
    serve-IsDistinct (a ∷ actions) pool w h =
        let (pool', w') = act resolve_key regs a pool w in
        serve-IsDistinct actions pool' w' (act-IsDistinct a pool w h)

    -- Whatever the controllers call, between two ticks or between a tick's discovery and its lock,
    -- and whenever the ticker fires, the pool's keys and the cluster change as those of the abstract
    -- manager, which ticks once and then takes the same actions: at a tick an org with a connection
    -- keeps it exactly if a listed resource names the org, and an org without one that a listed
    -- resource names is connected under the key that such a resource's reference gives in this
    -- tick, or is left alone where that reference fails. No org ever has two connections, and the
    -- end leaves none.
    pub start_refines :
        (during : List (String × String)) (actions : List Action) (pool : Pool) (w : W)
        → IsDistinct pool.conns
        → let (first, w') =
            act resolve_key regs (ticks during) (record pool { running = true }) w in
          let (last, w'') = serve resolve_key regs actions first w' in
          SpecRun (ticks during ∷ actions) (view pool) w (view last) w''
          × IsDistinct last.conns
          × ((t : String) → view (start resolve_key regs during actions pool w).0 t ≡ none)
          × ((start resolve_key regs during actions pool w).1 ≡ w'')
    unfolding start serve shutdown find_slug
    start_refines during actions pool w h =
        let on : Pool = record pool { running = true } in
        (
          serve-SpecRun (ticks during ∷ actions) on w refl,
          serve-IsDistinct (ticks during ∷ actions) on w h,
          λ t. refl,
          refl,
        )
