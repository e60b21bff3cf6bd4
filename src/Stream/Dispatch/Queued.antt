-- ===== src/Stream/Dispatch/Queued.antt =====
-- Which objects a message of the stream puts into a controller's channel.
use clavex_operator.Prelude.{
  ℕ, String, Bool, true, false, List, [], ◌∷◌, ◌++◌, Option, none, some, ◌&&◌, ◌||◌, not, ◌≡◌, refl,
  ◌⊎◌, arith, str_eq, if◌then◌else◌, inl, inr,
}
use clavex_operator.Api.{Answer, ok, fail, NamespacedName}
use clavex_operator.Stream.Pool.{Item, Registration}
use clavex_operator.Stream.Dispatch.{
  offer, Queues, enqueue, enqueue_items, find_registration, with_items, with_registration, dispatch,
  handle_message, is_managed_resource,
}

abbrev pub same_name : NamespacedName → NamespacedName → Bool
same_name a b = str_eq a.namespace b.namespace && str_eq a.name b.name

abbrev pub is_queued : NamespacedName → List NamespacedName → Bool
is_queued object [] = false
is_queued object (x ∷ queue) = same_name x object || is_queued object queue

-- Some item of the org is the object.
abbrev pub is_item_of : String → NamespacedName → List Item → Bool
is_item_of org_slug object [] = false
is_item_of org_slug object (it ∷ items) =
    (str_eq it.org_slug org_slug && same_name it.object object) || is_item_of org_slug object items

is_queued-append_one :
    (object x : NamespacedName) (queue : List NamespacedName)
    → is_queued object (queue ++ (x ∷ [])) ≡ (is_queued object queue || same_name x object)
is_queued-append_one object x [] = ground arith
is_queued-append_one object x (y ∷ queue) = ground (arith, is_queued-append_one object x queue)

module _ (org_slug t : String) (object : NamespacedName) where
  enqueue-queued :
      (it : Item) (since at : ℕ) (q : Queues)
      → is_queued object (enqueue t org_slug it since at q).channel ≡ true
      → (is_queued object q.channel || same_name it.object object) ≡ true
  unfolding enqueue offer
  enqueue-queued it since at q h = ground (arith, is_queued-append_one object it.object q.channel)

  module _ {W : Type 0} (now : W → ℕ × W) where
    enqueue_items-queued :
        (items : List Item) (q : Queues) (w : W)
        → is_queued object (enqueue_items t org_slug now items q w).0.channel ≡ true
        → (is_queued object q.channel || is_item_of org_slug object items) ≡ true
    unfolding enqueue_items
    enqueue_items-queued [] q w h = ground arith
    enqueue_items-queued (it ∷ items) q w h =
        let since = (now w).0 in
        let at = (now (now w).1).0 in
        ground (
          arith,
          enqueue_items-queued items q w,
          enqueue_items-queued items (enqueue t org_slug it since at q) (now (now w).1).1,
          enqueue-queued it since at q,
        )

    -- The object was listed for the type, as one of the org.
    pub record IsListed (regs : List (Registration W)) (w : W) : Type 0 where
      pub registration : Registration W
      pub items : List Item
      pub registered : find_registration t regs ≡ some registration
      pub listed : (registration.lister w).0 ≡ ok items
      pub is_item : is_item_of org_slug object items ≡ true

    from_either :
        (regs : List (Registration W)) (r : Registration W) (items : List Item) (q : Queues) (w : W)
        → find_registration t regs ≡ some r
        → (r.lister w).0 ≡ ok items
        → (b : Bool) → is_queued object q.channel ≡ b
        → (b || is_item_of org_slug object items) ≡ true
        → (is_queued object q.channel ≡ true) ⊎ IsListed regs w
    from_either regs r items q w e k true g h = inl g
    from_either regs r items q w e k false g h =
        inr (record { registration = r; items = items; registered = e; listed = k; is_item = h })

    dispatch-queued :
        (regs : List (Registration W)) (o : Option (Registration W)) (q : Queues) (w : W)
        → find_registration t regs ≡ o
        → is_queued object (with_registration now regs org_slug t o q w).0.channel ≡ true
        → (is_queued object q.channel ≡ true) ⊎ IsListed regs w
    dispatch-queued regs none q w e h = inl h
    dispatch-queued regs (some r) q w e h = by_listing (r.lister w).0 refl h
      where
        by_listing :
            (a : Answer (List Item))
            → (r.lister w).0 ≡ a
            → is_queued object (with_items now regs org_slug t a q (r.lister w).1).0.channel ≡ true
            → (is_queued object q.channel ≡ true) ⊎ IsListed regs w
        by_listing (ok items) k g =
            from_either regs r items q w e k (is_queued object q.channel) refl
              (enqueue_items-queued items q (r.lister w).1 g)
        by_listing (fail e) k g = inl g

    -- After a message of a connection, an object is in the channel only if it was there before, or
    -- the message's type is managed and the type's lister gives the object as one of the
    -- connection's org.
    pub handle_message-queued :
        (regs : List (Registration W)) (q : Queues) (w : W)
        → is_queued object (handle_message now regs org_slug t q w).0.channel ≡ true
        → (is_queued object q.channel ≡ true) ⊎ ((is_managed_resource t ≡ true) × IsListed regs w)
    unfolding handle_message dispatch
    handle_message-queued regs q w h = by_test (is_managed_resource t) refl (str_eq t "") h
      where
        by_test :
            (b : Bool)
            → is_managed_resource t ≡ b
            → (a : Bool)
            → is_queued object
                (if a || not b
                  then (q, w)
                  else with_registration now regs org_slug t
                      (find_registration t regs)
                      q
                      w).0.channel
              ≡ true
            → (is_queued object q.channel ≡ true)
              ⊎ ((is_managed_resource t ≡ true) × IsListed regs w)
        by_test b k true g = inl g
        by_test false k false g = inl g
        by_test true k false g = elim (dispatch-queued regs _ q w refl g) [
          | inl x ↦ inl x
          | inr x ↦ inr (k, x)
        ]
