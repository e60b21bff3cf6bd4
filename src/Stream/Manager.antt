-- ===== src/Stream/Manager.antt =====
-- internal/eventstream: the manager's registry and its life, `NewManager`, `Register` and `Start`.
-- While `Start` runs, the controllers call `EnsureOrgWithKey`, each call under the mutex. A tick is two
-- actions: the discovery, without the mutex, and then the opening and the closing under it; so calls
-- come between two ticks, and between the discovery and the lock of one tick. A call while the
-- listers run changes the pool alone, which the discovery does not read, so all calls during a
-- discovery are taken after it. What the connections' own goroutines do is in Stream/Lifecycle.
pub mod Refines
use clavex_operator.Prelude.{ℕ, String, Bool, true, false, List, [], ◌∷◌, str_eq, if◌then◌else◌}
use clavex_operator.Api.{Answer, ok, fail, SecretRef, NamespacedName, Resource}
use clavex_operator.AuthSecret.{Secret, and_then, resolve_auth_secret}
use clavex_operator.Stream.Pool.{
  Pool, Item, Registration, ensure_org_with_key, discover, adjust_conns, shutdown,
}

-- `discoverEvery`, in milliseconds, and `replayCount`.
abbrev pub discover_every : ℕ
discover_every = 60000

abbrev pub replay_count : ℕ
replay_count = 50

-- The pool and the registry of `NewManager`.
abbrev pub new_pool : Pool
new_pool = record { running = false; conns = [] }

-- `Register`: `m.regs[resourceType] = r`
unfoldable pub register :
    {W : Type 0} → Registration W → List (Registration W) → List (Registration W)
register r [] = r ∷ []
register r (q ∷ regs) =
    if str_eq q.resource_type r.resource_type then r ∷ regs else q ∷ register r regs

module _ {Spec : Type 0} (org_ref : Spec → String) (auth_secret_ref : Spec → SecretRef) where
  abbrev pub item_of : Resource Spec → Item
  item_of cr = record {
    object = record { namespace = cr.meta.namespace; name = cr.meta.name };
    org_slug = org_ref cr.spec;
    secret_ref = auth_secret_ref cr.spec;
    namespace = cr.meta.namespace;
  }

  unfoldable pub items_from : List (Resource Spec) → List Item
  items_from [] = []
  items_from (cr ∷ crs) = item_of cr ∷ items_from crs

  -- `streamItems`, by what `r.List` answers.
  unfoldable pub stream_items :
      {W : Type 0} → (W → Answer (List (Resource Spec)) × W) → W → Answer (List Item) × W
  unfolding items_from
  stream_items list w =
      let (answer, w') = list w in (and_then (λ e. e) (λ crs. ok (items_from crs)) answer, w')

-- The resolver of the stream's keys that `main` gives to `NewManager`.
unfoldable pub resolve_stream_key :
    {W : Type 0}
    → (NamespacedName → W → Answer Secret × W)
    → SecretRef
    → String
    → W
    → Answer String × W
resolve_stream_key get_secret ref namespace w =
    let (answer, w') = resolve_auth_secret get_secret ref namespace w in
    (and_then (λ e. e) (λ credentials. ok credentials.api_key) answer, w')

-- One action on the pool while the manager runs. A tick has the calls of `EnsureOrgWithKey`, by org
-- and key, that get the mutex after the tick began and before it locks the pool itself.
pub data Action : Type 0 where
  ticks : List (String × String) → Action
  ensures : String → String → Action

unfoldable pub ensure_all : List (String × String) → Pool → Pool
ensure_all [] pool = pool
ensure_all ((org_slug, api_key) ∷ calls) pool =
    ensure_all calls (ensure_org_with_key org_slug api_key pool)

module _ {W : Type 0} (resolve_key : SecretRef → String → W → Answer String × W) where
  module _ (regs : List (Registration W)) where
    unfoldable pub act : Action → Pool → W → Pool × W
    act (ticks during) pool w =
        let (desired, w') = discover regs w in
        adjust_conns resolve_key desired (ensure_all during pool) w'
    act (ensures org_slug api_key) pool w = (ensure_org_with_key org_slug api_key pool, w)

    unfoldable pub serve : List Action → Pool → W → Pool × W
    unfolding act
    serve [] pool w = (pool, w)
    serve (a ∷ actions) pool w = let (pool', w') = act a pool w in serve actions pool' w'

    -- `Start`, from its first line to the cancellation of its context: the calls of
    -- `EnsureOrgWithKey` before it find no `runCtx`; `during` are those in its first tick.
    unfoldable pub start : List (String × String) → List Action → Pool → W → Pool × W
    unfolding serve
    start during actions pool w =
        let (first, w') = act (ticks during) (record pool { running = true }) w in
        let (last, w'') = serve actions first w' in (shutdown last, w'')
