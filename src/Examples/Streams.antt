-- ===== src/Examples/Streams.antt =====
-- The event stream's queues and delays at concrete values.
use clavex_operator.Prelude.{
  ℕ, zero, suc, ◌+◌, ◌*◌, ◌≤◌, true, List, [], ◌∷◌, ◌≡◌, refl, ◌⊎◌, arith, ltb, if◌then◌else◌,
}
use clavex_operator.Api.{ok, NamespacedName}
use clavex_operator.Stream.Pool.{Item, Registration}
use clavex_operator.Stream.Backoff.{backoff_min, backoff_max, nth_delay, nth_delay_bounds}
use clavex_operator.Stream.Dispatch.{
  Queues, handle_message, is_managed_resource, dispatch, find_registration, enqueue_items, enqueue,
  should_enqueue, offer, is_within, debounce_key,
}
use clavex_operator.Stream.Dispatch.Debounce.{Call, accepted, is_spaced, accepted-is_spaced}
use clavex_operator.Stream.Dispatch.Delivered.{is_delivered, handle_message-is_delivered}
use clavex_operator.Stream.Dispatch.Queued.{is_queued, IsListed, handle_message-queued}
use clavex_operator.Examples.Passes.{a_ref}

-- An attempt that fails at once, and then one that lasts a minute.
abbrev up : ℕ → ℕ
up zero = 0
up (suc n) = 60000

delay_example :
    (backoff_min ≤ nth_delay up 0)
    × (nth_delay up 0 ≤ backoff_max)
    × (nth_delay up 0 ≡ backoff_min)
    × (nth_delay up 1 ≡ (
        if ltb backoff_max 60000
        then backoff_min
        else if ltb backoff_max (nth_delay up 0 * 2)
        then backoff_max
        else nth_delay up 0 * 2))
delay_example = nth_delay_bounds up 0

abbrev call : ℕ → Call
call t = record { key = "role|acme|team|thing"; since = t; at = t }

spaced_example : is_spaced (accepted (call 0 ∷ call 5 ∷ call 2500 ∷ []) []) ≡ true
spaced_example = accepted-is_spaced (call 0 ∷ call 5 ∷ call 2500 ∷ []) []

abbrev thing : NamespacedName
thing = record { namespace = "team"; name = "thing" }

abbrev item : Item
item = record { object = thing; org_slug = "acme"; secret_ref = a_ref; namespace = "team" }

abbrev regs : List (Registration ℕ)
regs = record { resource_type = "role"; lister = λ w. (ok (item ∷ []), w) } ∷ []

-- The clock is the world.
abbrev now : ℕ → ℕ × ℕ
now w = (w, w + 1)

abbrev empty : Queues
empty = record { last_enqueue = []; channel = [] }

arrives : is_queued thing (handle_message now regs "acme" "role" empty 7).0.channel ≡ true
unfolding handle_message dispatch find_registration enqueue_items enqueue should_enqueue offer
    is_within
arrives = refl

queued_example :
    (is_queued thing [] ≡ true)
    ⊎ ((is_managed_resource "role" ≡ true) × IsListed "acme" "role" thing now regs 7)
queued_example = handle_message-queued "acme" "role" thing now regs empty 7 arrives

delivered_example :
    is_delivered "role" "acme" "role|acme|team|thing" 7 []
      (handle_message now regs "acme" "role" empty 7).0
    ≡ true
unfolding find_registration is_managed_resource debounce_key
delivered_example =
    handle_message-is_delivered "role" "acme" now regs
      (record { resource_type = "role"; lister = λ w. (ok (item ∷ []), w) }) (item ∷ []) thing empty
      7 (λ w. ground arith) refl refl refl refl
