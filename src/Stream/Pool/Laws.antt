-- ===== src/Stream/Pool/Laws.antt =====
-- Which orgs are connected after each operation of the pool.
use clavex_operator.Prelude.{
  String, Bool, true, false, List, [], ◌∷◌, Option, none, some, not, ◌||◌, ◌&&◌, ◌≡◌, arith, str_eq,
  eq_iff, if◌then◌else◌,
}
use clavex_operator.Api.{Answer, ok, fail, SecretRef}
use clavex_operator.Stream.Pool.{
  find_slug, has_slug, Registration, OrgCoord, Pool, ensure_org_with_key, discover, opened,
  open_missing, close_stale, reconcile_conns,
}
use clavex_operator.Stream.Pool.Discovery.{mentions, listed, has_slug-discover}

-- A call of `EnsureOrgWithKey` has an effect when the manager runs and both arguments are given.
abbrev pub takes_effect : String → String → Pool → Bool
takes_effect org_slug api_key pool =
    not (str_eq org_slug "") && not (str_eq api_key "") && pool.running

abbrev pub or_else : Option String → String → String
or_else none key = key
or_else (some old) key = old

-- The call connects its own org and no other, under the key that the org had before if it was
-- connected and under the given key if not; without effect it changes nothing.
pub find_slug-ensure_org_with_key :
    (org_slug api_key t : String) (pool : Pool)
    → find_slug t (ensure_org_with_key org_slug api_key pool).conns ≡ (
        if takes_effect org_slug api_key pool && str_eq org_slug t
        then some (or_else (find_slug org_slug pool.conns) api_key)
        else find_slug t pool.conns)
unfolding ensure_org_with_key
find_slug-ensure_org_with_key org_slug api_key t pool =
    ground (arith, eq_iff org_slug t, eq_iff org_slug "", eq_iff api_key "")

-- No org has two connections.
abbrev pub IsDistinct : List (String × String) → Type 0
IsDistinct [] = Unit {0}
IsDistinct ((s, a) ∷ m) = (find_slug s m ≡ none) × IsDistinct m

pub ensure_org_with_key-IsDistinct :
    (org_slug api_key : String) (pool : Pool)
    → IsDistinct pool.conns
    → IsDistinct (ensure_org_with_key org_slug api_key pool).conns
unfolding ensure_org_with_key
ensure_org_with_key-IsDistinct org_slug api_key pool h = ground arith

pub find_slug-close_stale :
    (desired : List (String × OrgCoord)) (conns : List (String × String)) (t : String)
    → find_slug t (close_stale desired conns)
      ≡ (if has_slug t desired then find_slug t conns else none)
unfolding close_stale
find_slug-close_stale desired [] t = ground arith
find_slug-close_stale desired ((s, k) ∷ conns) t =
    ground (arith, eq_iff s t, find_slug-close_stale desired conns t)

close_stale-IsDistinct :
    (desired : List (String × OrgCoord)) (conns : List (String × String))
    → IsDistinct conns
    → IsDistinct (close_stale desired conns)
unfolding close_stale
close_stale-IsDistinct desired [] h = tt
close_stale-IsDistinct desired ((s, k) ∷ conns) h =
    ground (arith, find_slug-close_stale desired conns s, close_stale-IsDistinct desired conns h.1)

abbrev pub is_ok : {A : Type 0} → Answer A → Bool
is_ok (ok a) = true
is_ok (fail e) = false

module _ {W : Type 0} (resolve_key : SecretRef → String → W → Answer String × W) where
  open_missing-IsDistinct :
      (desired : List (String × OrgCoord)) (conns : List (String × String)) (w : W)
      → IsDistinct conns
      → IsDistinct (open_missing resolve_key desired conns w).0
  unfolding open_missing
  open_missing-IsDistinct [] conns w h = h
  open_missing-IsDistinct ((s, c) ∷ desired) conns w h =
      let next = resolve_key c.secret_ref c.namespace w in
      ground (
        arith,
        open_missing-IsDistinct desired conns w h,
        open_missing-IsDistinct desired (opened s next.0 conns) next.1,
      )

  -- An open connection is left as it is.
  pub open_missing_keeps :
      (desired : List (String × OrgCoord)) (conns : List (String × String)) (w : W) (t k : String)
      → find_slug t conns ≡ some k
      → find_slug t (open_missing resolve_key desired conns w).0 ≡ some k
  unfolding open_missing
  open_missing_keeps [] conns w t k h = h
  open_missing_keeps ((s, c) ∷ desired) conns w t k h =
      let next = resolve_key c.secret_ref c.namespace w in
      ground (
        arith,
        eq_iff s t,
        open_missing_keeps desired conns w t k h,
        open_missing_keeps desired (opened s next.0 conns) next.1 t k,
      )

  pub open_missing_only :
      (desired : List (String × OrgCoord)) (conns : List (String × String)) (w : W) (t : String)
      → has_slug t conns ≡ false
      → has_slug t desired ≡ false
      → find_slug t (open_missing resolve_key desired conns w).0 ≡ none
  unfolding open_missing find_slug
  open_missing_only [] conns w t h g = ground arith
  open_missing_only ((s, c) ∷ desired) conns w t h g =
      let next = resolve_key c.secret_ref c.namespace w in
      ground (
        arith,
        eq_iff s t,
        open_missing_only desired conns w t h,
        open_missing_only desired (opened s next.0 conns) next.1 t,
      )

  -- Every key resolves, whatever the state.
  abbrev pub AlwaysResolves : Type 0
  AlwaysResolves = (ref : SecretRef) (ns : String) (w : W) → is_ok (resolve_key ref ns w).0 ≡ true

  open_missing_all :
      (desired : List (String × OrgCoord)) (conns : List (String × String)) (w : W) (t : String)
      → AlwaysResolves
      → (has_slug t conns || has_slug t desired) ≡ true
      → has_slug t (open_missing resolve_key desired conns w).0 ≡ true
  unfolding open_missing find_slug
  open_missing_all [] conns w t r h = ground arith
  open_missing_all ((s, c) ∷ desired) conns w t r h =
      let next = resolve_key c.secret_ref c.namespace w in
      ground (
        arith,
        eq_iff s t,
        r c.secret_ref c.namespace w,
        open_missing_all desired conns w t r,
        open_missing_all desired (opened s next.0 conns) next.1 t r,
      )

  module _ (regs : List (Registration W)) (pool : Pool) (w : W) where
    abbrev desired : List (String × OrgCoord)
    desired = (discover regs w).0

    abbrev after : List (String × String)
    after = (reconcile_conns resolve_key regs pool w).0.conns

    -- No org has two connections afterwards if none had before.
    pub reconcile_conns-IsDistinct : IsDistinct pool.conns → IsDistinct after
    unfolding reconcile_conns
    reconcile_conns-IsDistinct h =
        close_stale-IsDistinct desired _
          (open_missing-IsDistinct desired pool.conns (discover regs w).1 h)

    -- A connection that is open stays as it is, under its key, if some listed resource names its org,
    -- and is closed if none does.
    pub reconcile_conns_open :
        (t k : String)
        → find_slug t pool.conns ≡ some k
        → find_slug t after ≡ (if mentions t (listed regs w) then some k else none)
    unfolding reconcile_conns
    reconcile_conns_open t k h = ground (
      arith,
      has_slug-discover t regs w,
      find_slug-close_stale desired
          (open_missing resolve_key desired pool.conns (discover regs w).1).0 t,
      open_missing_keeps desired pool.conns (discover regs w).1 t k h,
    )

    -- Where every key resolves, an org is connected afterwards exactly when some listed resource
    -- names it.
    pub reconcile_conns_exact :
        (t : String) → AlwaysResolves → has_slug t after ≡ mentions t (listed regs w)
    unfolding reconcile_conns
    reconcile_conns_exact t r = ground (
      arith,
      has_slug-discover t regs w,
      find_slug-close_stale desired
          (open_missing resolve_key desired pool.conns (discover regs w).1).0 t,
      open_missing_all desired pool.conns (discover regs w).1 t r,
      open_missing_only desired pool.conns (discover regs w).1 t,
    )
