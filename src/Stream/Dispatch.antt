-- ===== src/Stream/Dispatch.antt =====
-- internal/eventstream: from a message of the audit stream to the queue of a controller. The
-- clock, the listers and the JSON decoder are given.
pub mod Debounce
pub mod Queued
pub mod Delivered
use clavex_operator.Prelude.{
  ℕ, ◌+◌, ◌-◌, ◌≤◌, String, Bool, true, false, List, [], ◌∷◌, ◌++◌, Option, none, some, ◌<>◌, ◌||◌,
  ◌≡◌, refl, arith, ltb, length, not, str_eq, eq_iff, if◌then◌else◌,
}
use clavex_operator.Api.{Answer, ok, fail, NamespacedName}
use clavex_operator.Stream.Pool.{find_slug, Item, Registration}

-- `managedResourceTypes`, `isManagedResource`
unfoldable pub is_managed_resource : String → Bool
is_managed_resource t =
    str_eq t "oidc_client"
    || str_eq t "role"
    || str_eq t "group"
    || str_eq t "auth_policy"
    || str_eq t "org"
    || str_eq t "webhook"
    || str_eq t "identity_provider"

-- `enqueueDebounce`, in milliseconds, and the capacity of a registration's channel.
abbrev pub enqueue_debounce : ℕ
enqueue_debounce = 2000

abbrev pub channel_capacity : ℕ
channel_capacity = 256

-- `m.lastEnqueue[key] = t`
unfoldable pub set_time : String → ℕ → List (String × ℕ) → List (String × ℕ)
set_time key t [] = (key, t) ∷ []
set_time key t ((k, u) ∷ m) = if str_eq k key then (k, t) ∷ m else (k, u) ∷ set_time key t m

-- `last, ok := m.lastEnqueue[key]; ok && time.Since(last) < enqueueDebounce`. The monotonic clock
-- gives no time before `last`, and a difference that stops at 0 lies below the window as well.
unfoldable pub is_within : ℕ → Option ℕ → Bool
is_within since none = false
is_within since (some last) = ltb (since - last) enqueue_debounce

-- `shouldEnqueue`, by the two times that it reads: for `time.Since` and for `time.Now`.
unfoldable pub should_enqueue : String → ℕ → ℕ → List (String × ℕ) → Bool × List (String × ℕ)
unfolding is_within set_time find_slug
should_enqueue key since at m =
    if is_within since (find_slug key m) then (false, m) else (true, set_time key at m)

-- The send in `dispatch`, which drops the object when the channel is full.
unfoldable pub offer : NamespacedName → List NamespacedName → List NamespacedName
offer object queue = if ltb (length queue) channel_capacity then queue ++ (object ∷ []) else queue

unfoldable pub debounce_key : String → String → NamespacedName → String
debounce_key resource_type org_slug object =
    resource_type <> "|" <> org_slug <> "|" <> object.namespace <> "|" <> object.name

-- What a dispatch changes: the times of `lastEnqueue` and the registration's channel.
pub record Queues : Type 0 where
  pub last_enqueue : List (String × ℕ)
  pub channel : List NamespacedName

module _ (resource_type org_slug : String) where
  -- The body of the loop over the items, at the two times that `shouldEnqueue` reads.
  unfoldable pub enqueue : Item → ℕ → ℕ → Queues → Queues
  unfolding should_enqueue offer debounce_key
  enqueue it since at q =
      let (due, m) =
        should_enqueue (debounce_key resource_type org_slug it.object) since at q.last_enqueue in
      record { last_enqueue = m; channel = (if due then offer it.object q.channel else q.channel) }

  module _ {W : Type 0} (now : W → ℕ × W) where
    unfoldable pub enqueue_items : List Item → Queues → W → Queues × W
    unfolding enqueue
    enqueue_items [] q w = (q, w)
    enqueue_items (it ∷ items) q w =
        let (since, w₁) = now w in
        let (at, w₂) = now w₁ in
        let skipped = enqueue_items items q w in
        let added = enqueue_items items (enqueue it since at q) w₂ in
        if str_eq it.org_slug org_slug then added else skipped

unfoldable pub find_registration :
    {W : Type 0} → String → List (Registration W) → Option (Registration W)
find_registration t [] = none
find_registration t (r ∷ regs) =
    if str_eq r.resource_type t then some r else find_registration t regs

module _ {W : Type 0} (now : W → ℕ × W) (regs : List (Registration W)) where
  abbrev pub with_items : String → String → Answer (List Item) → Queues → W → Queues × W
  with_items org_slug t (ok items) q w = enqueue_items t org_slug now items q w
  with_items org_slug t (fail e) q w = (q, w)

  abbrev pub with_registration : String → String → Option (Registration W) → Queues → W → Queues × W
  with_registration org_slug t none q w = (q, w)
  with_registration org_slug t (some r) q w =
      let (answer, w') = r.lister w in with_items org_slug t answer q w'

  -- `dispatch`, to the channel of the type's registration.
  unfoldable pub dispatch : String → String → Queues → W → Queues × W
  unfolding find_registration enqueue_items
  dispatch org_slug t q w = with_registration org_slug t (find_registration t regs) q w

  -- `handleMessage`, by what `parseResourceType` makes of the message.
  unfoldable pub handle_message : String → String → Queues → W → Queues × W
  unfolding dispatch is_managed_resource
  handle_message org_slug t q w =
      if str_eq t "" || not (is_managed_resource t) then (q, w) else dispatch org_slug t q w

-- The two levels of a message: what `json.Unmarshal` finds of its fields, none where it fails.
pub record Envelope : Type 0 where
  pub type : String
  pub resource_type : String
  pub body : Option String

module _ (envelope : String → Option Envelope) (inner : String → Option String) where
  abbrev pub from_data : Option String → String
  from_data none = ""
  from_data (some raw) = elim (inner raw) [ none ↦ "" | some t ↦ t ]

  abbrev pub from_envelope : Envelope → String
  from_envelope env =
      if str_eq env.type "heartbeat" || str_eq env.type "connected"
      then ""
      else if not (str_eq env.resource_type "")
      then env.resource_type
      else from_data env.body

  -- `parseResourceType`; `body` is the field `Data`, none where `len(env.Data)` is 0.
  unfoldable pub parse_resource_type : String → String
  parse_resource_type msg = elim (envelope msg) [ none ↦ "" | some env ↦ from_envelope env ]
