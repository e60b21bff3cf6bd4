-- ===== src/Client/Serving.antt =====
-- The calls that the sync of a ClavexClient makes, where none fails and nobody else writes.
use clavex_operator.Prelude.{
  ℕ, String, Bool, true, Option, none, some, ◌≡◌, arith, ◌⊎◌, if◌then◌else◌,
}
use clavex_operator.Api.{Answer, ok, fail, Error, is_not_found, NamespacedName, Resource}
use clavex_operator.AuthSecret.{Secret}
use clavex_operator.Reconcile.Goes.{}
use clavex_operator.Reconcile.Environment.{Keeps}
use clavex_operator.Reconcile.Calls.{Cluster, Session, Marker, succeeded}
use clavex_operator.Client.{
  ClientSpec, OidcClient, ClientService, CreateClientParams, UpdateClientParams, client_kind,
  client_up_to_date, existing_client,
}
use clavex_operator.Drift.Goes.{}
use clavex_operator.Client.Settles.{Shows}

-- The writes that are due for a client: its creation, which may be followed by an update, as the
-- creation does not say everything; an update alone; or none.
abbrev pub writes_due : Resource ClientSpec → Option OidcClient → ℕ
writes_due cr none = 2
writes_due cr (some live) = if client_up_to_date live cr then 0 else 1

abbrev pub Reads : Option OidcClient → Answer OidcClient → Type 0
Reads none a = (e : Error) × (a ≡ fail e) × (is_not_found e ≡ true)
Reads (some live) a = a ≡ ok live

pub answers :
    (a : Answer OidcClient) (y x : Option OidcClient) → y ≡ x → Reads y a → existing_client a ≡ ok x
unfolding existing_client
answers a none x e (error, f, g) = ground arith
answers a (some y) x e f = ground arith

module _ {W : Type 0} (c : Cluster W ClientSpec) (recorder : Bool) (sdk : ClientService W) where
  module _ (IsSound : W → Type 0) (resource : W → Resource ClientSpec)
      (live : W → Option OidcClient) (session : Session) (org id : String) where
    abbrev pub Puts : W → W → (OidcClient → Type 0) → Type 0
    Puts w w' P =
        IsSound w' × (resource w' ≡ resource w) × ((x : OidcClient) × (live w' ≡ some x) × P x)

    -- What the SDK and the Kubernetes API document of the calls that the sync of a client makes,
    -- where no call fails and nobody else writes. `live` is the client at the Admin API.
    pub record Serving : Type 0 where
      pub gets_client :
          (w : W)
          → IsSound w
          → Reads (live w) (sdk.get session org id w).0
            × Keeps c
                (client_kind c recorder sdk)
                IsSound
                resource
                live
                w
                (sdk.get session org id w).1
      pub creates_client :
          (marker : Marker) (p : CreateClientParams) (w : W)
          → IsSound w
          → p.client_id ≡ id
          → live w ≡ none
          → (succeeded (sdk.create session marker org p w).0 ≡ true)
            × Puts w (sdk.create session marker org p w).1 (λ x. Unit {0})
      pub updates_client :
          (marker : Marker) (p : UpdateClientParams) (w : W) (x : OidcClient)
          → IsSound w
          → live w ≡ some x
          → (succeeded (sdk.update session marker org id p w).0 ≡ true)
            × Puts w (sdk.update session marker org id p w).1 (λ y. Shows y p)
      pub reads_secret :
          (key : NamespacedName) (w : W)
          → IsSound w
          → ((secret : Secret) × ((c.get_secret key w).0 ≡ ok secret))
            ⊎ ((e : Error) × ((c.get_secret key w).0 ≡ fail e) × (is_not_found e ≡ true))
      pub creates_secret :
          (secret : Secret) (w : W)
          → IsSound w
          → (succeeded (c.create_secret secret w).0 ≡ true)
            × Keeps c
                (client_kind c recorder sdk)
                IsSound
                resource
                live
                w
                (c.create_secret secret w).1
      pub updates_secret :
          (secret : Secret) (w : W)
          → IsSound w
          → (succeeded (c.update_secret secret w).0 ≡ true)
            × Keeps c
                (client_kind c recorder sdk)
                IsSound
                resource
                live
                w
                (c.update_secret secret w).1
