-- ===== src/Stream/Dispatch/Debounce.antt =====
-- What the debounce window and the channel's capacity bound.
use clavex_operator.Prelude.{
  ℕ, ◌-◌, ◌≤◌, String, Bool, true, false, List, [], ◌∷◌, Option, none, some, ◌&&◌, ◌||◌, ◌≡◌, refl,
  arith, ltb, length, length-append_one, not, str_eq, eq_iff, eq_refl, if◌then◌else◌, Option-cases,
}
use clavex_operator.Api.{Answer, ok, fail, NamespacedName}
use clavex_operator.Stream.Pool.{find_slug, Item, Registration}
use clavex_operator.Stream.Dispatch.{
  enqueue_debounce, channel_capacity, set_time, is_within, should_enqueue, offer, Queues, enqueue,
  enqueue_items, find_registration, with_items, with_registration, dispatch, handle_message,
  is_managed_resource,
}

-- A call of `shouldEnqueue`, with the two times that it reads.
pub record Call : Type 0 where
  pub key : String
  pub since : ℕ
  pub at : ℕ

-- The calls of a sequence that are told to enqueue.
unfoldable pub accepted : List Call → List (String × ℕ) → List Call
unfolding should_enqueue
accepted [] m = []
accepted (c ∷ calls) m =
    let (due, m') = should_enqueue c.key c.since c.at m in
    let rest = accepted calls m' in if due then c ∷ rest else rest

-- The first of the calls with this key comes at least the debounce interval after `t`.
unfoldable pub waits : String → ℕ → List Call → Bool
waits key t [] = true
waits key t (c ∷ calls) =
    if str_eq c.key key then not (ltb (c.since - t) enqueue_debounce) else waits key t calls

-- Each call is followed by the next one of its key at least the debounce interval later.
unfoldable pub is_spaced : List Call → Bool
unfolding waits
is_spaced [] = true
is_spaced (c ∷ calls) = waits c.key c.at calls && is_spaced calls

pub find_slug-set_time :
    (k j : String) (t : ℕ) (m : List (String × ℕ))
    → find_slug j (set_time k t m) ≡ (if str_eq k j then some t else find_slug j m)
unfolding find_slug set_time
find_slug-set_time k j t [] = refl
find_slug-set_time k j t ((i, u) ∷ m) =
    ground (arith, eq_iff k j, eq_iff i k, eq_iff i j, find_slug-set_time k j t m)

accepted-waits :
    (calls : List Call) (m : List (String × ℕ)) (key : String) (t : ℕ)
    → find_slug key m ≡ some t
    → waits key t (accepted calls m) ≡ true
unfolding accepted waits should_enqueue is_within
accepted-waits [] m key t h = refl
accepted-waits (c ∷ calls) m key t h = ground (
  arith,
  eq_iff c.key key,
  find_slug-set_time c.key key c.at m,
  Option-cases (find_slug c.key m),
  accepted-waits calls m key t,
  accepted-waits calls (set_time c.key c.at m) key t,
)

-- In any sequence of calls, from any recorded times, two enqueues of one object in a row lie at
-- least the debounce interval apart.
pub accepted-is_spaced :
    (calls : List Call) (m : List (String × ℕ)) → is_spaced (accepted calls m) ≡ true
unfolding accepted is_spaced should_enqueue
accepted-is_spaced [] m = refl
accepted-is_spaced (c ∷ calls) m = ground (
  arith,
  eq_refl c.key,
  find_slug-set_time c.key c.key c.at m,
  accepted-is_spaced calls m,
  accepted-is_spaced calls (set_time c.key c.at m),
  accepted-waits calls (set_time c.key c.at m) c.key c.at,
)

offer-bounded :
    (object : NamespacedName) (queue : List NamespacedName)
    → length queue ≤ channel_capacity
    → length (offer object queue) ≤ channel_capacity
unfolding offer
offer-bounded object queue h = ground (arith, length-append_one object queue)

module _ (org_slug t : String) where
  enqueue-bounded :
      (it : Item) (since at : ℕ) (q : Queues)
      → length q.channel ≤ channel_capacity
      → length (enqueue t org_slug it since at q).channel ≤ channel_capacity
  unfolding enqueue
  enqueue-bounded it since at q h = ground (arith, offer-bounded it.object q.channel h)

  module _ {W : Type 0} (now : W → ℕ × W) where
    pub enqueue_items-bounded :
        (items : List Item) (q : Queues) (w : W)
        → length q.channel ≤ channel_capacity
        → length (enqueue_items t org_slug now items q w).0.channel ≤ channel_capacity
    unfolding enqueue_items
    enqueue_items-bounded [] q w h = h
    enqueue_items-bounded (it ∷ items) q w h =
        let since = (now w).0 in
        let at = (now (now w).1).0 in
        ground (
          arith,
          enqueue_items-bounded items q w h,
          enqueue_items-bounded items (enqueue t org_slug it since at q) (now (now w).1).1
              (enqueue-bounded it since at q h),
        )

    -- A message leaves a channel that is within its capacity within its capacity.
    pub handle_message-bounded :
        (regs : List (Registration W)) (q : Queues) (w : W)
        → length q.channel ≤ channel_capacity
        → length (handle_message now regs org_slug t q w).0.channel ≤ channel_capacity
    unfolding handle_message dispatch
    handle_message-bounded regs q w h =
        by_test (str_eq t "" || not (is_managed_resource t)) (find_registration t regs)
      where
        listed :
            (a : Answer (List Item)) (w' : W)
            → length (with_items now regs org_slug t a q w').0.channel ≤ channel_capacity
        listed (ok items) w' = enqueue_items-bounded items q w' h
        listed (fail e) w' = h

        by_test :
            (a : Bool) (o : Option (Registration W))
            → length (if a then (q, w) else with_registration now regs org_slug t o q w).0.channel
              ≤ channel_capacity
        by_test true o = h
        by_test false none = h
        by_test false (some r) = listed (r.lister w).0 (r.lister w).1
