-- ===== src/Reconcile/Steady.antt =====
-- The way of a pass through the guards of `Reconcile`, for a resource that is in place: it is not
-- being deleted, its finalizer is set, and its credentials resolve.
use clavex_operator.Prelude.{true, false, ◌∷◌, ◌≡◌, refl}
use clavex_operator.Api.{Answer, ok, NamespacedName, Resource, is_deleting}
use clavex_operator.AuthSecret.{Credentials, resolve_auth_secret}
use clavex_operator.Reconcile.{
  Kind, fetch, authenticate, connect_stream, build_client, ensure_finalizer, has_finalizer,
  converge, reconcile,
}
use clavex_operator.Reconcile.Flow.{state_of}
use clavex_operator.Reconcile.Calls.{
  Cluster, State, Session, read_resource, ask, get_resource, on_stream,
}

module _ {W Spec : Type 0} (c : Cluster W Spec) (kind : Kind W Spec) where
  abbrev resolve : Resource Spec → W → Answer Credentials × W
  resolve cr = resolve_auth_secret c.get_secret (kind.auth_secret_ref cr.spec) cr.meta.namespace

  -- What the guards leave, one after the other.
  module _ (key : NamespacedName) (s : State W Spec) (cr : Resource Spec)
      (credentials : Credentials) (session : Session) where
    abbrev pub fetched : State W Spec
    fetched =
        let w = (c.get key s.world).1 in record s { world = w; log = (read_resource cr, w) ∷ s.log }

    abbrev pub authenticated : State W Spec
    authenticated = record fetched { world = (resolve cr fetched.world).1 }

    abbrev pub connected : State W Spec
    connected = state_of (connect_stream c kind cr credentials authenticated)

    abbrev pub ready : State W Spec
    ready = record connected { world = (c.new_client credentials.api_key connected.world).1 }

    -- The resource is there and in place, and each guard lets it pass.
    pub record IsInPlace : Type 0 where
      pub gets : (c.get key s.world).0 ≡ ok cr
      pub resolves : (resolve cr fetched.world).0 ≡ ok credentials
      pub builds : (c.new_client credentials.api_key connected.world).0 ≡ ok session
      pub stays : is_deleting cr ≡ false
      pub holds : has_finalizer c kind cr ≡ true

    -- Such a pass comes to the sync with nothing written.
    pub reconcile-converge :
        IsInPlace → reconcile c kind key s ≡ converge c kind session credentials.org_id cr ready
    unfolding reconcile fetch authenticate connect_stream build_client ensure_finalizer get_resource
        ask on_stream
    reconcile-converge h = rw h.gets (rw h.resolves (rw h.builds (rw h.stays (rw h.holds refl))))
