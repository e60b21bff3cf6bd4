-- ===== src/Reconcile/Calls.antt =====
-- The calls that leave the operator. `Cluster` is the Kubernetes client for one kind of resource
-- with what else the methods call; it is given, not modelled. Each call that writes is noted in a
-- log, newest first, with the outside state in which it was made: a history for the theorems,
-- which the program neither has nor reads.
use clavex_operator.Prelude.{
  ℕ, String, Bool, true, false, List, [], ◌∷◌, Option, none, some, ◌<>◌, if◌then◌else◌,
}
use clavex_operator.Api.{Answer, ok, fail, is_not_found, NamespacedName, Resource, Meta}
use clavex_operator.AuthSecret.{Secret}
use clavex_operator.Stream.Pool.{Pool}
use clavex_operator.Reconcile.Flow.{Step, next, pure, leave, failed, ◌>>=◌}

-- The SDK client that `clavex.New(r.ClavexServerURL, clavex.WithAPIKey(apiKey))` gives, known by
-- the key that it sends.
pub record Session : Type 0 where
  pub api_key : String

pub record Cluster (W Spec : Type 0) : Type 0 where
  pub get : NamespacedName → W → Answer (Resource Spec) × W
  pub update : Resource Spec → W → Answer (Resource Spec) × W
  pub update_status : Resource Spec → W → Answer (Resource Spec) × W
  pub get_secret : NamespacedName → W → Answer Secret × W
  pub create_secret : Secret → W → Answer (Unit {0}) × W
  pub update_secret : Secret → W → Answer (Unit {0}) × W
  pub new_client : String → W → Answer Session × W
  pub now : W → ℕ × W
  pub contains_finalizer : String → List String → Bool
  pub add_finalizer : String → List String → List String
  pub remove_finalizer : String → List String → List String

-- What `withManaged` puts into the context of a create or update.
pub record Marker : Type 0 where
  pub managed_by : String
  pub managed_ref : String

abbrev pub managed_by : String
managed_by = "k8s-operator"

-- `managedRef`
unfoldable pub managed_ref : String → Meta → String
managed_ref kind cr = kind <> "/" <> cr.namespace <> "/" <> cr.name

-- `withManaged`
unfoldable pub with_managed : String → Meta → Marker
unfolding managed_ref
with_managed kind cr = record { managed_by = managed_by; managed_ref = managed_ref kind cr }

-- A call of the SDK that changes something, by what it is made on.
pub data Mutation : Type 0 where
  creates updates deletes assigns_role removes_role releases_marker : String → Mutation

pub data Event (Spec : Type 0) : Type 0 where
  read_resource : Resource Spec → Event Spec
  put_resource : Resource Spec → Bool → Event Spec
  put_status : Resource Spec → Bool → Event Spec
  put_secret : Secret → Bool → Event Spec
  sdk_write : Mutation → Bool → Event Spec
  announced : String → Event Spec

pub record State (W Spec : Type 0) : Type 0 where
  pub world : W
  -- `EventStream`, nil where none was set up.
  pub stream : Option Pool
  pub log : List (Event Spec × W)

-- The state in which a pass begins.
abbrev pub start : {W Spec : Type 0} → W → Option Pool → State W Spec
start w stream = record { world = w; stream = stream; log = [] }

abbrev pub succeeded : {A : Type 0} → Answer A → Bool
succeeded (ok a) = true
succeeded (fail e) = false

module _ {W Spec : Type 0} where
  -- A call that reads.
  unfoldable pub ask : {A : Type 0} → (W → A × W) → Step (State W Spec) A
  ask call s = let (answer, w) = call s.world in next answer (record s { world = w })

  -- A call that writes; the event is told whether the call was accepted.
  unfoldable pub tell :
      {A : Type 0} → (Bool → Event Spec) → (W → Answer A × W) → Step (State W Spec) (Answer A)
  tell event call s =
      let (answer, w) = call s.world in
      next answer (record s { world = w; log = (event (succeeded answer), s.world) ∷ s.log })

  -- `if err := ….Delete(…); err != nil && !clavex.IsNotFound(err) { return …, err }`
  unfoldable pub confirm : Answer (Unit {0}) → Step (State W Spec) (Unit {0})
  confirm (ok done) = pure tt
  confirm (fail e) = if is_not_found e then pure tt else leave (failed e)

  unfoldable pub note : Event Spec → Step (State W Spec) (Unit {0})
  note event s = next tt (record s { log = (event, s.world) ∷ s.log })

  unfoldable pub on_stream : (Pool → Pool) → Step (State W Spec) (Unit {0})
  on_stream f s = next tt (record s { stream = map_stream s.stream })
    where
      map_stream : Option Pool → Option Pool
      map_stream none = none
      map_stream (some pool) = some (f pool)

  unfoldable pub clock : Cluster W Spec → Step (State W Spec) ℕ
  unfolding ask
  clock c = ask c.now

  abbrev pub note_read : Answer (Resource Spec) → Step (State W Spec) (Answer (Resource Spec))
  note_read (ok cr) s = next (ok cr) (record s { log = (read_resource cr, s.world) ∷ s.log })
  note_read (fail e) s = next (fail e) s

  -- `r.Get` of a resource.
  unfoldable pub get_resource :
      Cluster W Spec → NamespacedName → Step (State W Spec) (Answer (Resource Spec))
  unfolding ask
  get_resource c key = ask (c.get key) >>= note_read
