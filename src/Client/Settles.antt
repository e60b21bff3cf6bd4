-- ===== src/Client/Settles.antt =====
-- A correction settles: the pass after it finds nothing to do.
use mathlib.Core.List.{Perm}
use clavex_operator.Prelude.{bool_eq_refl, String, Bool, true, false, ◌≡◌, refl, arith, eq_iff}
use clavex_operator.Api.{Answer, ok, Resource}
use clavex_operator.Compare.Perm.{equal_string_sets_iff}
use clavex_operator.Reconcile.Flow.{next, state_of}
use clavex_operator.Reconcile.Calls.{Cluster, State, Session, Marker, with_managed, succeeded, ask}
use clavex_operator.Drift.{unchanged, or_return}
use clavex_operator.Drift.Laws.{correct_lem}
use clavex_operator.Client.{
  ClientSpec, OidcClient, ClientService, UpdateClientParams, update_params, client_up_to_date,
  reconcile_client,
}

-- The live client shows what an update asked for, its lists in an order of the server's choice.
pub record Shows (live : OidcClient) (p : UpdateClientParams) : Type 0 where
  pub name : live.name ≡ p.name
  pub redirect_uris : Perm live.redirect_uris p.redirect_uris
  pub post_logout_redirects : Perm live.post_logout_redirect_uris p.post_logout_redirects
  pub grant_types : Perm live.grant_types p.grant_types
  pub is_active : live.is_active ≡ p.is_active

-- The documented behaviour of the SDK: an accepted update is what the next `Get` shows.
pub record ReadsBack {W : Type 0} (sdk : ClientService W) : Type 0 where
  pub get_after_update :
      (session : Session) (marker : Marker) (org id : String) (p : UpdateClientParams) (w : W)
      → let after = sdk.update session marker org id p w in
        succeeded after.0 ≡ true
        → (live : OidcClient) × ((sdk.get session org id after.1).0 ≡ ok live) × Shows live p

-- The test passes for every such client, whatever the orders.
pub client_up_to_date-Shows :
    (live : OidcClient) (cr : Resource ClientSpec)
    → Shows live (update_params cr.spec)
    → client_up_to_date live cr ≡ true
unfolding client_up_to_date
client_up_to_date-Shows live cr h = ground (
  arith,
  (eq_iff live.name cr.spec.name).1 h.name,
  (equal_string_sets_iff live.redirect_uris cr.spec.redirect_uris).1 h.redirect_uris,
  (equal_string_sets_iff live.post_logout_redirect_uris cr.spec.post_logout_redirect_uris).1
      h.post_logout_redirects,
  (equal_string_sets_iff live.grant_types cr.spec.grant_types).1 h.grant_types,
  h.is_active,
  bool_eq_refl cr.spec.is_active,
)

module _ {W : Type 0} (c : Cluster W ClientSpec) (recorder : Bool) (sdk : ClientService W) where
  module _ (session : Session) (org_id : String) where
    abbrev read : Resource ClientSpec → W → Answer OidcClient × W
    read cr = sdk.get session org_id cr.spec.client_id

    -- A pass that finds the client as the spec says reads once, and writes nothing.
    pub reconcile_client_quiet :
        (cr : Resource ClientSpec) (s : State W ClientSpec) (live : OidcClient)
        → (read cr s.world).0 ≡ ok live
        → client_up_to_date live cr ≡ true
        → reconcile_client c recorder sdk session org_id cr s
          ≡ next (ok (unchanged cr.spec.client_id)) (record s { world = (read cr s.world).1 })
    unfolding reconcile_client or_return ask
    reconcile_client_quiet cr s live h k = rw h (rw correct_lem (rw k refl))

    abbrev write : Resource ClientSpec → W → Answer OidcClient × W
    write cr =
        sdk.update session (with_managed "ClavexClient" cr.meta) org_id cr.spec.client_id
          (update_params cr.spec)

    -- A pass that finds it otherwise leaves the world in which the update was answered.
    reconcile_client_world :
        (cr : Resource ClientSpec) (s : State W ClientSpec) (live : OidcClient)
        → (read cr s.world).0 ≡ ok live
        → client_up_to_date live cr ≡ false
        → (state_of (reconcile_client c recorder sdk session org_id cr s)).world
          ≡ (write cr (read cr s.world).1).1
    unfolding reconcile_client or_return ask
    reconcile_client_world cr s live h k = rw h (rw correct_lem (rw k refl))

    -- Where an accepted update is what the next read shows, in any order: after a pass that found
    -- the client, saw a difference and had its update accepted, the next pass with that spec
    -- reads once, writes nothing and reports no drift.
    pub client_settles :
        (cr next_cr : Resource ClientSpec) (s : State W ClientSpec) (live : OidcClient)
        → ReadsBack sdk
        → next_cr.spec ≡ cr.spec
        → (read cr s.world).0 ≡ ok live
        → client_up_to_date live cr ≡ false
        → succeeded (write cr (read cr s.world).1).0 ≡ true
        → let s₁ = state_of (reconcile_client c recorder sdk session org_id cr s) in
          reconcile_client c recorder sdk session org_id next_cr s₁
          ≡ next
              (ok (unchanged next_cr.spec.client_id))
              (record s₁ { world = (read next_cr s₁.world).1 })
    client_settles cr next_cr s live laws same h k accepted =
        let s₁ = state_of (reconcile_client c recorder sdk session org_id cr s) in
        let (live', e, shows) =
          laws.get_after_update session _ org_id cr.spec.client_id (update_params cr.spec)
            (read cr s.world).1 accepted in
        reconcile_client_quiet next_cr s₁ live'
          (rw same (rw (reconcile_client_world cr s live h k) e))
          (client_up_to_date-Shows live' next_cr (rw same shows))
