-- ===== src/Stream/Dispatch/Delivered.antt =====
-- That a message reaches the controller: for every object that it concerns, one way or another.
use clavex_operator.Prelude.{
  ℕ, ◌≤◌, String, Bool, true, false, List, [], ◌∷◌, ◌++◌, some, ◌||◌, ◌≡◌, refl, ap, arith, leb,
  length, length-append_one, str_eq, eq_iff, Option-cases,
}
use clavex_operator.Api.{ok, NamespacedName}
use clavex_operator.Stream.Pool.{find_slug, Item, Registration}
use clavex_operator.Stream.Dispatch.{
  channel_capacity, is_within, should_enqueue, offer, Queues, enqueue, enqueue_items,
  find_registration, dispatch, handle_message, is_managed_resource, debounce_key,
}
use clavex_operator.Stream.Dispatch.Debounce.{find_slug-set_time}
use clavex_operator.Stream.Dispatch.Queued.{is_item_of, same_name}

-- A reading of the clock is never below the one before it.
abbrev pub IsMonotone : {W : Type 0} → (W → ℕ × W) → Type 0
IsMonotone {W = W} now = (w : W) → (now w).0 ≤ (now (now w).1).0

module _ (t org_slug : String) where
  abbrev pub key_of : NamespacedName → String
  key_of object = debounce_key t org_slug object

  -- Some object in the channel has the key.
  abbrev pub has_key : String → List NamespacedName → Bool
  has_key key [] = false
  has_key key (x ∷ queue) = str_eq (key_of x) key || has_key key queue

  -- The key's object is in the channel, or the channel is full, or at the time `start` the key was
  -- within the debounce window.
  abbrev pub is_delivered : String → ℕ → List (String × ℕ) → Queues → Bool
  is_delivered key start times q =
      has_key key q.channel
      || leb channel_capacity (length q.channel)
      || is_within start (find_slug key times)

  has_key-append_one :
      (key : String) (x : NamespacedName) (queue : List NamespacedName)
      → has_key key (queue ++ (x ∷ [])) ≡ (has_key key queue || str_eq (key_of x) key)
  has_key-append_one key x [] = ground arith
  has_key-append_one key x (y ∷ queue) = ground (arith, has_key-append_one key x queue)

  same_name-key_of : (a b : NamespacedName) → same_name a b ≡ true → key_of a ≡ key_of b
  unfolding debounce_key
  same_name-key_of a b h = ground (arith, eq_iff a.namespace b.namespace, eq_iff a.name b.name)

  module _ (key : String) (start : ℕ) (times : List (String × ℕ)) where
    enqueue_keeps-is_delivered :
        (it : Item) (since at : ℕ) (q : Queues)
        → is_delivered key start times q ≡ true
        → is_delivered key start times (enqueue t org_slug it since at q) ≡ true
    unfolding enqueue offer
    enqueue_keeps-is_delivered it since at q h =
        ground
          (arith, has_key-append_one key it.object q.channel, length-append_one it.object q.channel)

    enqueue_other :
        (it : Item) (since at : ℕ) (q : Queues)
        → str_eq (key_of it.object) key ≡ false
        → find_slug key (enqueue t org_slug it since at q).last_enqueue
          ≡ find_slug key q.last_enqueue
    unfolding enqueue should_enqueue
    enqueue_other it since at q h =
        ground (arith, find_slug-set_time (key_of it.object) key at q.last_enqueue)

    enqueue-is_delivered :
        (it : Item) (since at : ℕ) (q : Queues)
        → str_eq (key_of it.object) key ≡ true
        → find_slug key q.last_enqueue ≡ find_slug key times
        → start ≤ since
        → is_delivered key start times (enqueue t org_slug it since at q) ≡ true
    unfolding enqueue should_enqueue offer is_within
    enqueue-is_delivered it since at q h e le = ground (
      arith,
      eq_iff (key_of it.object) key,
      Option-cases (find_slug key times),
      has_key-append_one key it.object q.channel,
      length-append_one it.object q.channel,
    )

    module _ {W : Type 0} (now : W → ℕ × W) (monotone : IsMonotone now) where
      enqueue_items_keep-is_delivered :
          (items : List Item) (q : Queues) (w : W)
          → is_delivered key start times q ≡ true
          → is_delivered key start times (enqueue_items t org_slug now items q w).0 ≡ true
      unfolding enqueue_items
      enqueue_items_keep-is_delivered [] q w h = h
      enqueue_items_keep-is_delivered (it ∷ items) q w h =
          let since = (now w).0 in
          let at = (now (now w).1).0 in
          ground (
            arith,
            enqueue_items_keep-is_delivered items q w h,
            enqueue_items_keep-is_delivered items (enqueue t org_slug it since at q)
                (now (now w).1).1 (enqueue_keeps-is_delivered it since at q h),
          )

      -- As long as the key's time is what it was, the next item with the key is delivered.
      enqueue_items-is_delivered :
          (object : NamespacedName) (items : List Item) (q : Queues) (w : W)
          → key_of object ≡ key
          → is_item_of org_slug object items ≡ true
          → find_slug key q.last_enqueue ≡ find_slug key times
          → start ≤ (now w).0
          → is_delivered key start times (enqueue_items t org_slug now items q w).0 ≡ true
      unfolding enqueue_items
      enqueue_items-is_delivered object [] q w k i e le = ground arith
      enqueue_items-is_delivered object (it ∷ items) q w k i e le =
          let since = (now w).0 in
          let at = (now (now w).1).0 in
          let q' = enqueue t org_slug it since at q in
          let w' = (now (now w).1).1 in
          ground (
            arith,
            same_name-key_of it.object object,
            eq_iff (key_of it.object) key,
            enqueue_items-is_delivered object items q w k,
            enqueue_items-is_delivered object items q' w' k,
            enqueue_other it since at q,
            enqueue-is_delivered it since at q,
            enqueue_items_keep-is_delivered items q' w',
            monotone w,
            monotone (now w).1,
          )

  managed-not_empty : is_managed_resource t ≡ true → str_eq t "" ≡ false
  unfolding is_managed_resource
  managed-not_empty h = by_test (str_eq t "") refl
    where
      empty : t ≡ "" → is_managed_resource t ≡ false
      empty e = ap is_managed_resource e

      by_test : (b : Bool) → str_eq t "" ≡ b → b ≡ false
      by_test false k = refl
      by_test true k = cc (empty ((eq_iff t "").0 k), h)

  -- Where a message is of a managed type, its registration's lister answers, and the object is among
  -- the items of the connection's org: after the message the object, or one with its key, is in the
  -- channel, or the channel is full, or the key was within its debounce window when the items were
  -- gone through, by a clock that never goes back.
  pub handle_message-is_delivered :
      {W : Type 0} (now : W → ℕ × W) (regs : List (Registration W)) (r : Registration W)
      (items : List Item) (object : NamespacedName) (q : Queues) (w : W)
      → IsMonotone now
      → is_managed_resource t ≡ true
      → find_registration t regs ≡ some r
      → (r.lister w).0 ≡ ok items
      → is_item_of org_slug object items ≡ true
      → is_delivered
          (key_of object)
          (now (r.lister w).1).0
          q.last_enqueue
          (handle_message now regs org_slug t q w).0
        ≡ true
  unfolding handle_message dispatch
  handle_message-is_delivered now regs r items object q w monotone managed registered lists i =
      let w' = (r.lister w).1 in
      let reached =
        enqueue_items-is_delivered (key_of object) (now w').0 q.last_enqueue now monotone object
          items q w' refl i refl (omega arith) in
      rw (managed-not_empty managed) (rw managed (rw registered (rw lists reached)))
