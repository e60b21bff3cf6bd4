-- ===== src/Stream/Pool.antt =====
-- internal/eventstream/eventstream.go: the pool of connections, one for each org, that grows and
-- shrinks with the custom resources. What `go c.run(ctx)` and `c.stop()` do to a connection's own
-- goroutine is in the module Lifecycle.
pub mod Discovery
pub mod Laws
pub mod Opens
use clavex_operator.Prelude.{
  String, Bool, true, false, List, [], ◌∷◌, Option, none, some, not, ◌||◌, ◌&&◌, str_eq,
  if◌then◌else◌,
}
use clavex_operator.Api.{Answer, ok, fail, SecretRef, NamespacedName}

-- A map keyed by org slug, `map[string]…`, in the order of first insertion.
module _ {A : Type 0} where
  unfoldable pub find_slug : String → List (String × A) → Option A
  find_slug slug [] = none
  find_slug slug ((s, a) ∷ m) = if str_eq s slug then some a else find_slug slug m

  abbrev pub is_present : Option A → Bool
  is_present none = false
  is_present (some a) = true

  abbrev pub has_slug : String → List (String × A) → Bool
  has_slug slug m = is_present (find_slug slug m)

-- `Item`: a resource found by a lister. `Object` is used for its name alone.
pub record Item : Type 0 where
  pub object : NamespacedName
  pub org_slug : String
  pub secret_ref : SecretRef
  pub namespace : String

-- `registration`, without its channel: a Kind's lister, over the state `W` of the cluster.
pub record Registration (W : Type 0) : Type 0 where
  pub resource_type : String
  pub lister : W → Answer (List Item) × W

pub record OrgCoord : Type 0 where
  pub secret_ref : SecretRef
  pub namespace : String

-- The part of `Manager` that `mu` guards: `running` is `runCtx != nil`, and a connection is kept
-- with the API key that it was opened with.
pub record Pool : Type 0 where
  pub running : Bool
  pub conns : List (String × String)

-- `EnsureOrgWithKey`
unfoldable pub ensure_org_with_key : String → String → Pool → Pool
unfolding find_slug
ensure_org_with_key org_slug api_key pool =
    if str_eq org_slug "" || str_eq api_key ""
    then pool
    else if not pool.running
    then pool
    else if has_slug org_slug pool.conns
    then pool
    else record pool { conns = (org_slug, api_key) ∷ pool.conns }

-- The inner loop of `discover`: the first item of an org gives its coordinates.
unfoldable pub add_items : List Item → List (String × OrgCoord) → List (String × OrgCoord)
unfolding find_slug
add_items [] out = out
add_items (it ∷ items) out = add_items items (
    if str_eq it.org_slug "" || has_slug it.org_slug out
    then out
    else (it.org_slug, record { secret_ref = it.secret_ref; namespace = it.namespace }) ∷ out)

abbrev pub items_of : Answer (List Item) → List Item
items_of (ok items) = items
items_of (fail e) = []

abbrev pub opened : String → Answer String → List (String × String) → List (String × String)
opened slug (ok api_key) conns = (slug, api_key) ∷ conns
opened slug (fail e) conns = conns

-- The second loop: connections of orgs that no resource names any more are closed.
unfoldable pub close_stale :
    List (String × OrgCoord) → List (String × String) → List (String × String)
unfolding find_slug
close_stale desired [] = []
close_stale desired ((slug, key) ∷ conns) =
    if has_slug slug desired
    then (slug, key) ∷ close_stale desired conns
    else close_stale desired conns

module _ {W : Type 0} where
  -- `discover`: a lister that fails is logged and skipped. Go walks the registry's map in any
  -- order; the list stands for one such order.
  unfoldable pub discover_from :
      List (Registration W) → List (String × OrgCoord) → W → List (String × OrgCoord) × W
  unfolding add_items
  discover_from [] out w = (out, w)
  discover_from (r ∷ regs) out w =
      let (answer, w') = r.lister w in discover_from regs (add_items (items_of answer) out) w'

  abbrev pub discover : List (Registration W) → W → List (String × OrgCoord) × W
  discover regs w = discover_from regs [] w

  -- The first loop of `reconcileConns`: a key that does not resolve is retried at the next tick.
  unfoldable pub open_missing :
      (SecretRef → String → W → Answer String × W)
      → List (String × OrgCoord)
      → List (String × String)
      → W
      → List (String × String) × W
  unfolding find_slug
  open_missing resolve_key [] conns w = (conns, w)
  open_missing resolve_key ((slug, coord) ∷ desired) conns w =
      let next = resolve_key coord.secret_ref coord.namespace w in
      let skipped = open_missing resolve_key desired conns w in
      let added = open_missing resolve_key desired (opened slug next.0 conns) next.1 in
      if has_slug slug conns then skipped else added

  -- `reconcileConns` from its lock on: what is desired was found before.
  abbrev pub adjust_conns :
      (SecretRef → String → W → Answer String × W) → List (String × OrgCoord) → Pool → W → Pool × W
  adjust_conns resolve_key desired pool w =
      let (conns, w') = open_missing resolve_key desired pool.conns w in
      (record pool { conns = close_stale desired conns }, w')

  -- `reconcileConns`, where nothing comes between its discovery and its lock.
  unfoldable pub reconcile_conns :
      (SecretRef → String → W → Answer String × W) → List (Registration W) → Pool → W → Pool × W
  unfolding discover_from open_missing close_stale
  reconcile_conns resolve_key regs pool w =
      let (desired, w₁) = discover regs w in adjust_conns resolve_key desired pool w₁

-- `shutdown`
unfoldable pub shutdown : Pool → Pool
shutdown pool = record pool { conns = [] }
