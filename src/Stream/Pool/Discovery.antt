-- ===== src/Stream/Pool/Discovery.antt =====
-- What `discover` finds: the orgs that the listed resources name.
use clavex_operator.Prelude.{
  String, Bool, false, List, [], ◌∷◌, ◌++◌, not, ◌||◌, ◌&&◌, ◌≡◌, refl, arith, str_eq, eq_iff,
}
use clavex_operator.Stream.Pool.{
  find_slug, has_slug, Item, Registration, OrgCoord, add_items, items_of, discover, discover_from,
}

-- Some item names the org, and the org has a name.
unfoldable pub mentions : String → List Item → Bool
mentions t [] = false
mentions t (it ∷ items) = (str_eq it.org_slug t && not (str_eq t "")) || mentions t items

-- All that the registered listers give, one after the other, those that fail left out.
unfoldable pub listed : {W : Type 0} → List (Registration W) → W → List Item
listed [] w = []
listed (r ∷ regs) w = let (answer, w') = r.lister w in items_of answer ++ listed regs w'

mentions-append :
    (t : String) (xs ys : List Item) → mentions t (xs ++ ys) ≡ (mentions t xs || mentions t ys)
unfolding mentions
mentions-append t [] ys = refl
mentions-append t (x ∷ xs) ys = ground (arith, mentions-append t xs ys)

has_slug-add_items :
    (t : String) (items : List Item) (out : List (String × OrgCoord))
    → has_slug t (add_items items out) ≡ (has_slug t out || mentions t items)
unfolding add_items mentions
has_slug-add_items t [] out = ground arith
has_slug-add_items t (it ∷ items) out = ground (
  arith,
  eq_iff it.org_slug t,
  eq_iff it.org_slug "",
  eq_iff t "",
  has_slug-add_items t items out,
  has_slug-add_items t items
      ((it.org_slug, record { secret_ref = it.secret_ref; namespace = it.namespace }) ∷ out),
)

has_slug-discover_from :
    {W : Type 0} (t : String) (regs : List (Registration W)) (out : List (String × OrgCoord))
    (w : W)
    → has_slug t (discover_from regs out w).0 ≡ (has_slug t out || mentions t (listed regs w))
unfolding discover_from listed mentions
has_slug-discover_from t [] out w = ground arith
has_slug-discover_from t (r ∷ regs) out w =
    let items = items_of (r.lister w).0 in
    ground (
      arith,
      has_slug-add_items t items out,
      has_slug-discover_from t regs (add_items items out) (r.lister w).1,
      mentions-append t items (listed regs (r.lister w).1),
    )

-- Discovery finds exactly the named orgs of the resources that the listers give.
pub has_slug-discover :
    {W : Type 0} (t : String) (regs : List (Registration W)) (w : W)
    → has_slug t (discover regs w).0 ≡ mentions t (listed regs w)
unfolding mentions find_slug
has_slug-discover t regs w = has_slug-discover_from t regs [] w
