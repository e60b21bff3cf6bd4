-- ===== src/Reconcile/Environment.antt =====
-- One resource in an environment where nothing fails and nobody else writes, and the steps of
-- `Reconcile` there.
use clavex_operator.Prelude.{ℕ, ◌+◌, String, true, List, [], ◌∷◌, ◌≡◌}
use clavex_operator.Api.{ok, NamespacedName, Resource}
use clavex_operator.AuthSecret.{Credentials, resolve_auth_secret}
use clavex_operator.Reconcile.{Kind, with_finalizers}
use clavex_operator.Reconcile.Goes.{}
use clavex_operator.Reconcile.Calls.{
  Cluster, State, Session, Event, read_resource, put_resource, put_status, put_secret, sdk_write,
  announced, succeeded,
}

-- How many calls in a log were made to change something at the Admin API.
unfoldable pub sdk_writes : {W Spec : Type 0} → List (Event Spec × W) → ℕ
sdk_writes [] = 0
sdk_writes ((sdk_write m b, w) ∷ log) = sdk_writes log + 1
sdk_writes ((read_resource cr, w) ∷ log) = sdk_writes log
sdk_writes ((put_resource cr b, w) ∷ log) = sdk_writes log
sdk_writes ((put_status cr b, w) ∷ log) = sdk_writes log
sdk_writes ((put_secret x b, w) ∷ log) = sdk_writes log
sdk_writes ((announced r, w) ∷ log) = sdk_writes log

module _ {W Spec Remote : Type 0} (c : Cluster W Spec) (kind : Kind W Spec) where
  module _ (IsSound : W → Type 0) (resource : W → Resource Spec) (remote : W → Remote) where
    -- A call changes neither the resource nor what stands at the Admin API.
    abbrev pub Keeps : W → W → Type 0
    Keeps w w' = IsSound w' × (resource w' ≡ resource w) × (remote w' ≡ remote w)

    abbrev pub Stores : W → W → Resource Spec → Type 0
    Stores w w' cr = IsSound w' × (resource w' ≡ cr) × (remote w' ≡ remote w)

    -- What the Kubernetes API and the SDK document of their calls, where no call fails, nobody else
    -- writes, and the credentials and the client made of them stay the same. `resource` is the
    -- custom resource as it is stored, `remote` what stands at the Admin API.
    pub record Environment (key : NamespacedName) (credentials : Credentials) (session : Session)
        : Type 0 where
      pub gets : (w : W) → IsSound w → ((c.get key w).0 ≡ ok (resource w)) × Keeps w (c.get key w).1
      pub resolves :
          (w : W)
          → IsSound w
          → (resolve_auth_secret c.get_secret
              (kind.auth_secret_ref (resource w).spec)
              (resource w).meta.namespace
              w).0
            ≡ ok credentials
      pub reads_secret : (key : NamespacedName) (w : W) → IsSound w → Keeps w (c.get_secret key w).1
      pub builds :
          (w : W)
          → IsSound w
          → ((c.new_client credentials.api_key w).0 ≡ ok session)
            × Keeps w (c.new_client credentials.api_key w).1
      pub tells_time : (w : W) → IsSound w → Keeps w (c.now w).1
      pub updates :
          (w : W) (fs : List String)
          → IsSound w
          → let cr = with_finalizers c kind fs (resource w) in
            (succeeded (c.update cr w).0 ≡ true) × Stores w (c.update cr w).1 cr
      pub updates_status :
          (w : W) (cr : Resource Spec)
          → IsSound w
          → cr.meta ≡ (resource w).meta
          → cr.spec ≡ (resource w).spec
          → (succeeded (c.update_status cr w).0 ≡ true) × Stores w (c.update_status cr w).1 cr

module _ {W Spec Remote : Type 0} {c : Cluster W Spec} {kind : Kind W Spec} {IsSound : W → Type 0}
    {resource : W → Resource Spec} {remote : W → Remote} {key : NamespacedName}
    {credentials : Credentials} {session : Session}
    (env : Environment c kind IsSound resource remote key credentials session) where
  -- The stored resource, what stands at the Admin API, and the number of writes so far.
  abbrev pub Stands : Resource Spec → Remote → ℕ → State W Spec → Type 0
  Stands cr x n s =
      IsSound s.world × (resource s.world ≡ cr) × (remote s.world ≡ x) × (sdk_writes s.log ≡ n)
