-- ===== src/Stream/Backoff.antt =====
-- internal/eventstream/conn.go: the delay between two attempts to connect, in milliseconds.
use clavex_operator.Prelude.{ℕ, zero, suc, ◌*◌, ◌≤◌, ◌≡◌, arith, ltb, if◌then◌else◌}

abbrev pub backoff_min : ℕ
backoff_min = 500

abbrev pub backoff_max : ℕ
backoff_max = 30000

-- The delay that `run` waits after an attempt that lasted `up`.
unfoldable pub delay_after : ℕ → ℕ → ℕ
delay_after up backoff = if ltb backoff_max up then backoff_min else backoff

-- `if backoff *= 2; backoff > backoffMax { backoff = backoffMax }`
unfoldable pub doubled : ℕ → ℕ
doubled backoff = if ltb backoff_max (backoff * 2) then backoff_max else backoff * 2

-- The value of `backoff` after `n` attempts that lasted `up 0`, `up 1`, ….
unfoldable pub backoff_before : (ℕ → ℕ) → ℕ → ℕ
unfolding delay_after doubled
backoff_before up zero = backoff_min
backoff_before up (suc n) = doubled (delay_after (up n) (backoff_before up n))

-- The delay after attempt `n`.
unfoldable pub nth_delay : (ℕ → ℕ) → ℕ → ℕ
unfolding backoff_before
nth_delay up n = delay_after (up n) (backoff_before up n)

backoff_before_bounds :
    (up : ℕ → ℕ) (n : ℕ) → (backoff_min ≤ backoff_before up n) × (backoff_before up n ≤ backoff_max)
unfolding backoff_before
backoff_before_bounds up zero = ground arith
backoff_before_bounds up (suc n) = ground (arith, backoff_before_bounds up n)

-- Every delay lies between the two bounds. The first is the lower one. A later one is the lower
-- bound again after an attempt that held longer than the upper bound, and otherwise twice the
-- delay before it, cut off at the upper bound.
pub nth_delay_bounds :
    (up : ℕ → ℕ) (n : ℕ)
    → (backoff_min ≤ nth_delay up n)
      × (nth_delay up n ≤ backoff_max)
      × (nth_delay up 0 ≡ backoff_min)
      × (nth_delay up (suc n) ≡ (
          if ltb backoff_max (up (suc n))
          then backoff_min
          else if ltb backoff_max (nth_delay up n * 2)
          then backoff_max
          else nth_delay up n * 2))
unfolding nth_delay
nth_delay_bounds up n = ground (arith, backoff_before_bounds up n)
