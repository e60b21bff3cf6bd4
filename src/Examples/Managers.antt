-- ===== src/Examples/Managers.antt =====
-- A run of the stream's manager.
use clavex_operator.Prelude.{ℕ, zero, suc, String, true, List, [], ◌∷◌, none, some, ◌≡◌, refl}
use clavex_operator.Api.{Answer, ok, SecretRef}
use clavex_operator.Stream.Pool.{
  Pool, Item, Registration, ensure_org_with_key, discover_from, open_missing, close_stale,
  find_slug, add_items,
}
use clavex_operator.Stream.Pool.Laws.{IsDistinct}
use clavex_operator.Stream.Manager.{Action, ticks, ensures, ensure_all, act, serve, start, new_pool}
use clavex_operator.Stream.Manager.Refines.{view, SpecRun, start_refines}
use clavex_operator.Examples.Passes.{a_ref, key}

-- The world is the number of listings so far; the org is named from the second one on.
abbrev item : Item
item = record { object = key; org_slug = "acme"; secret_ref = a_ref; namespace = "team" }

abbrev lister : ℕ → Answer (List Item) × ℕ
lister zero = (ok [], 1)
lister (suc n) = (ok (item ∷ []), suc (suc n))

abbrev regs : List (Registration ℕ)
regs = record { resource_type = "role"; lister = lister } ∷ []

abbrev resolve_key : SecretRef → String → ℕ → Answer String × ℕ
resolve_key ref ns w = (ok "k1", w)

abbrev actions : List Action
actions = ensures "other" "k2" ∷ ticks (("acme", "k3") ∷ []) ∷ []

-- The call that comes after the first discovery is closed again by the first tick.
abbrev during : List (String × String)
during = ("new", "k4") ∷ []

abbrev first : Pool × ℕ
first = act resolve_key regs (ticks during) (record new_pool { running = true }) 0

abbrev last : Pool × ℕ
last = serve resolve_key regs actions first.0 first.1

refines_example :
    SpecRun resolve_key regs (ticks during ∷ actions) (view new_pool) 0 (view last.0) last.1
    × IsDistinct last.0.conns
    × ((t : String) → view (start resolve_key regs during actions new_pool 0).0 t ≡ none)
    × ((start resolve_key regs during actions new_pool 0).1 ≡ last.1)
refines_example = start_refines resolve_key regs during actions new_pool 0 tt

new_closed : view first.0 "new" ≡ none
unfolding act serve ensure_all ensure_org_with_key discover_from open_missing close_stale find_slug
new_closed = refl

acme_kept : view last.0 "acme" ≡ some "k3"
unfolding act serve ensure_all ensure_org_with_key discover_from open_missing close_stale find_slug
    add_items
acme_kept = refl
