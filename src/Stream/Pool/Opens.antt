-- ===== src/Stream/Pool/Opens.antt =====
-- What a pass over the pool does to an org that has no connection, by what the references of the
-- resources that name it give.
use clavex_operator.Prelude.{
  String, Bool, true, false, List, [], ◌∷◌, ◌++◌, Option, none, some, ◌≡◌, refl, arith, sym, ◌∙◌,
  ◌⊎◌, inl, inr, str_eq, eq_iff, Bool-cases, if◌then◌else◌,
}
use clavex_operator.Api.{Answer, ok, fail, Error, SecretRef}
use clavex_operator.Stream.Pool.{
  find_slug, has_slug, Item, Registration, OrgCoord, Pool, add_items, items_of, discover,
  discover_from, opened, open_missing, reconcile_conns,
}
use clavex_operator.Stream.Pool.Discovery.{mentions, listed, has_slug-discover}
use clavex_operator.Stream.Pool.Laws.{find_slug-close_stale, open_missing_keeps, open_missing_only}

-- Some element of the list is so.
abbrev pub Any : {A : Type 0} → (A → Type 0) → List A → Type 0
Any P [] = ⊥
Any P (x ∷ xs) = P x ⊎ Any P xs

abbrev coord_of : Item → OrgCoord
coord_of it = record { secret_ref = it.secret_ref; namespace = it.namespace }

module _ (P : String × OrgCoord → Type 0) where
  abbrev FromItem : Item → Type 0
  FromItem it = P (it.org_slug, coord_of it)

  Any-append : (xs ys : List Item) → Any FromItem xs ⊎ Any FromItem ys → Any FromItem (xs ++ ys)
  Any-append [] ys (inl x) = absurd x
  Any-append [] ys (inr h) = h
  Any-append (x ∷ xs) ys (inl (inl p)) = inl p
  Any-append (x ∷ xs) ys (inl (inr h)) = inr (Any-append xs ys (inl h))
  Any-append (x ∷ xs) ys (inr h) = inr (Any-append xs ys (inr h))

  added :
      (b : Bool) (it : Item) (out : List (String × OrgCoord))
      → Any P (if b then out else (it.org_slug, coord_of it) ∷ out)
      → Any P out ⊎ FromItem it
  added true it out h = inl h
  added false it out (inl p) = inr p
  added false it out (inr h) = inl h

  Any-add_items :
      (items : List Item) (out : List (String × OrgCoord))
      → Any P (add_items items out)
      → Any P out ⊎ Any FromItem items
  unfolding add_items
  Any-add_items [] out h = inl h
  Any-add_items (it ∷ items) out h = elim (Any-add_items items _ h) [
    | inr g ↦ inr (inr g)
    | inl g ↦ elim (added _ it out g) [ inl o ↦ inl o | inr p ↦ inr (inl p) ]
  ]

  Any-discover_from :
      {W : Type 0} (regs : List (Registration W)) (out : List (String × OrgCoord)) (w : W)
      → Any P (discover_from regs out w).0
      → Any P out ⊎ Any FromItem (listed regs w)
  unfolding discover_from listed
  Any-discover_from [] out w h = inl h
  Any-discover_from (r ∷ regs) out w h =
      let items = items_of (r.lister w).0 in
      let rest = listed regs (r.lister w).1 in
      elim (Any-discover_from regs (add_items items out) (r.lister w).1 h) [
        | inr g ↦ inr (Any-append items rest (inr g))
        | inl g ↦ elim (Any-add_items items out g) [
          | inl o ↦ inl o
          | inr p ↦ inr (Any-append items rest (inl p))
        ]
      ]

module _ {W : Type 0} (resolve_key : SecretRef → String → W → Answer String × W) where
  -- The states that the resolver's calls come to from one.
  pub data Called (w₀ : W) : W → Type 0 where
    here : Called w₀ w₀
    then_call :
        {w : W} (ref : SecretRef) (namespace : String)
        → Called w₀ w
        → Called w₀ (resolve_key ref namespace w).1

  -- The reference gives the answer in one of those states.
  abbrev pub Answers : W → SecretRef → String → Answer String → Type 0
  Answers w₀ ref namespace answer =
      (w : W) × Called w₀ w × ((resolve_key ref namespace w).0 ≡ answer)

  -- What an org's reference gave, where the org is connected by `after` or not.
  abbrev pub Gave : W → SecretRef → String → Option String → Type 0
  Gave w₀ ref namespace (some k) = Answers w₀ ref namespace (ok k)
  Gave w₀ ref namespace none = (e : Error) × Answers w₀ ref namespace (fail e)

  module _ (w₀ : W) where
    call-Called :
        (b : Bool) (ref : SecretRef) (namespace : String) (w : W) (x y : List (String × String) × W)
        → (Called w₀ w → Called w₀ x.1)
        → (Called w₀ (resolve_key ref namespace w).1 → Called w₀ y.1)
        → Called w₀ w
        → Called w₀ (if b then x else y).1
    call-Called true ref namespace w x y hx hy c = hx c
    call-Called false ref namespace w x y hx hy c = hy (then_call ref namespace c)

    open_missing-Called :
        (desired : List (String × OrgCoord)) (conns : List (String × String)) (w : W)
        → Called w₀ w
        → Called w₀ (open_missing resolve_key desired conns w).1
    unfolding open_missing
    open_missing-Called [] conns w c = c
    open_missing-Called ((s, coord) ∷ desired) conns w c =
        let next = resolve_key coord.secret_ref coord.namespace w in
        call-Called (has_slug s conns) coord.secret_ref coord.namespace w _ _
          (open_missing-Called desired conns w)
          (open_missing-Called desired (opened s next.0 conns) next.1) c

    module _ (t : String) where
      abbrev GaveKey : Option String → String × OrgCoord → Type 0
      GaveKey after (slug, coord) = (slug ≡ t) × Gave w₀ coord.secret_ref coord.namespace after

      abbrev opened_key : List (String × OrgCoord) → List (String × String) → W → Option String
      opened_key desired conns w = find_slug t (open_missing resolve_key desired conns w).0

      module _ (s : String) (coord : OrgCoord) (desired : List (String × OrgCoord))
          (conns : List (String × String)) (h : find_slug t conns ≡ none) where
        -- The answer of one reference of the org decides, or that of a later one.
        by_answer :
            (w w' : W) (a : Answer String)
            → Called w₀ w
            → (resolve_key coord.secret_ref coord.namespace w).0 ≡ a
            → str_eq s t ≡ true
            → (find_slug t (opened s a conns) ≡ none
                → has_slug t desired ≡ true
                → Any (GaveKey (opened_key desired (opened s a conns) w')) desired)
            → Any (GaveKey (opened_key desired (opened s a conns) w')) ((s, coord) ∷ desired)
        unfolding find_slug
        by_answer w w' (ok key) c r same rest =
            let e : opened_key desired ((s, key) ∷ conns) w' ≡ some key =
              open_missing_keeps resolve_key desired ((s, key) ∷ conns) w' t key (rw same refl) in
            inl ((eq_iff s t).0 same, rw e (w, c, r))
        by_answer w w' (fail e) c r same rest = elim (Bool-cases (has_slug t desired)) [
          | inl later ↦ inr (rest h later)
          | inr last ↦
              let n : opened_key desired conns w' ≡ none =
                open_missing_only resolve_key desired conns w' t (rw h refl) last in
              inl ((eq_iff s t).0 same, rw n (e, (w, c, r)))
        ]

        other_org : (a : Answer String) → str_eq s t ≡ false → find_slug t (opened s a conns) ≡ none
        unfolding find_slug
        other_org (ok key) other = rw other h
        other_org (fail e) other = h

        by_conns :
            (w : W) (b : Bool)
            → let next = resolve_key coord.secret_ref coord.namespace w in
              has_slug s conns ≡ b
              → Called w₀ w
              → has_slug t ((s, coord) ∷ desired) ≡ true
              → (has_slug t desired ≡ true → Any (GaveKey (opened_key desired conns w)) desired)
              → (find_slug t (opened s next.0 conns) ≡ none
                  → has_slug t desired ≡ true
                  → Any (GaveKey (opened_key desired (opened s next.0 conns) next.1)) desired)
              → Any
                  (GaveKey (
                    find_slug t
                      (if b
                        then open_missing resolve_key desired conns w
                        else open_missing resolve_key desired (opened s next.0 conns) next.1).0))
                  ((s, coord) ∷ desired)
        unfolding find_slug
        by_conns w true e c g skipped added = inr (skipped (ground (arith, eq_iff s t)))
        by_conns w false e c g skipped added =
            let next = resolve_key coord.secret_ref coord.namespace w in
            elim (Bool-cases (str_eq s t)) [
              | inl same ↦ by_answer w next.1 next.0 c refl same added
              | inr other ↦ inr (added (other_org next.0 other) (ground (arith, other)))
            ]

      open_missing-Gave :
          (desired : List (String × OrgCoord)) (conns : List (String × String)) (w : W)
          → Called w₀ w
          → find_slug t conns ≡ none
          → has_slug t desired ≡ true
          → Any (GaveKey (opened_key desired conns w)) desired
      unfolding open_missing find_slug
      open_missing-Gave [] conns w c h g = cc
      open_missing-Gave ((s, coord) ∷ desired) conns w c h g =
          let next = resolve_key coord.secret_ref coord.namespace w in
          by_conns s coord desired conns h w (has_slug s conns) refl c g
            (open_missing-Gave desired conns w c h)
            (open_missing-Gave desired (opened s next.0 conns) next.1
              (then_call coord.secret_ref coord.namespace c))

  module _ (regs : List (Registration W)) (pool : Pool) (w : W) where
    abbrev w₁ : W
    w₁ = (discover regs w).1

    -- After the pass, the org of a listed item has the key that the item's reference gave, or is
    -- not connected where the reference failed.
    abbrev pub FromListed : String → Option String → Item → Type 0
    FromListed t after it = (it.org_slug ≡ t) × Gave w₁ it.secret_ref it.namespace after

    pub reconcile_conns-Called : Called w₁ (reconcile_conns resolve_key regs pool w).1
    unfolding reconcile_conns
    reconcile_conns-Called = open_missing-Called w₁ (discover regs w).0 pool.conns w₁ here

    -- An org without a connection: no listed resource names it and it stays so, or the reference of
    -- one that does decides.
    pub reconcile_conns-Gave :
        (t : String) (after : Option String)
        → find_slug t pool.conns ≡ none
        → find_slug t (reconcile_conns resolve_key regs pool w).0.conns ≡ after
        → ((mentions t (listed regs w) ≡ false) × (after ≡ none))
          ⊎ Any (FromListed t after) (listed regs w)
    unfolding reconcile_conns
    reconcile_conns-Gave t after h g =
        let desired = (discover regs w).0 in
        let conns = (open_missing resolve_key desired pool.conns w₁).0 in
        let closed = find_slug-close_stale desired conns t in
        elim (Bool-cases (has_slug t desired)) [
          | inr absent ↦
              inl (sym (has_slug-discover t regs w) ∙ absent, sym g ∙ closed ∙ rw absent refl)
          | inl present ↦
              let shown : find_slug t conns ≡ after = sym (closed ∙ rw present refl) ∙ g in
              inr (
                rw (sym shown)
                  (elim (Any-discover_from (GaveKey w₁ t (find_slug t conns)) regs [] w
                    (open_missing-Gave w₁ t desired pool.conns w₁ here h present)) [
                      | inl x ↦ absurd x
                      | inr x ↦ x
                    ]))
        ]
