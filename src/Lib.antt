-- ===== src/Lib.antt =====
-- A model of the Clavex operator: the Kubernetes controllers that bring the Admin API's clients,
-- roles, groups, webhooks, identity providers, authentication policies and org settings to what
-- the custom resources ask for, with the theorems about it.
--
-- The program's parts, and the modules that model them:
-- - api/v1alpha1: Api has what the kinds of resource share; the spec of each kind stands with its
--   controller. DeepCopy has the methods of api/v1alpha1/zz_generated.deepcopy.go on a memory of
--   cells, to which the fields of the structs in DeepCopy/Structs point: the steps in
--   DeepCopy/Into, the methods in DeepCopy/Methods and DeepCopy/Objects. DeepCopy/Layout and
--   DeepCopy/Layouts say what a value shows through its addresses, DeepCopy/Copies and
--   DeepCopy/Laws that the methods are deep copies.
-- - internal/authsecret: AuthSecret. `ResolveAuthSecret`, `ResolveSecretValue` and
--   `ValidateAuthSecretRef` are functions of the Kubernetes client's `Get` on Secrets.
-- - internal/controller/compare.go: Compare, the order-free comparison of string slices.
-- - `setCondition`, which each controller has a copy of: Conditions.
-- - The `Reconcile` methods in internal/controller have the same text up to names, so it is
--   written once, in Reconcile, over a record `Kind` of what they differ in. Reconcile/Flow has
--   early return, Reconcile/Calls the calls that leave the operator, with a log of those that
--   write; Reconcile/Triple and Reconcile/Rules the rules for steps, Reconcile/Lawful the safety
--   condition on a log, Reconcile/Start and Reconcile/Safety its proof for every kind,
--   Reconcile/Steady the way of a pass through its guards, and Reconcile/Report what it writes
--   into the status at its end. Reconcile/Goes has rules for steps that go on from one state;
--   Reconcile/Environment, Reconcile/Steps and Reconcile/Converges are about repeated passes where
--   nothing fails and nobody else writes, and Serving, Sync and Converges under Client and under
--   Webhook about such passes over a client and over a webhook.
-- - What the controllers share of their middle: Named has the lookup by name and the deletion,
--   with what it leaves of a listing in Named/Without and Named/Laws and of the log in Named/Adds;
--   Drift the creation and the correction of a live object with its event. Whether the next pass
--   then finds nothing to do is in Client/Settles, Client/Steady, Webhook/Settles,
--   AuthPolicy/Created, AuthPolicy/Unset and Org/Settles.
-- - The kinds: Client (with its Secret, in Client/Secrets and Client/Secrets/RoundTrip, and the
--   admission webhook of internal/webhook/v1alpha1, in Client/Admission), Role, Group (with the
--   roles of a group, in Group/Sets, Group/Members and Group/Progress), Webhook,
--   IdentityProvider, AuthPolicy, Org (with the sections of an org's settings in Org/Settings).
-- - internal/eventstream: Stream/Pool is the pool of connections that the manager's mutex guards,
--   Stream/Manager the registry and the manager's life (`NewManager`, `Register`, `Start`), with
--   an abstract manager in Stream/Manager/Refines: the calls of
--   `EnsureOrgWithKey` come between two ticks, or between a tick's discovery and its lock. Stream/Lifecycle has one connection's
--   goroutine (`run`, `connectAndRead`) beside the goroutine that closes it (`stop`) as a step
--   relation in which either may act at any time. Stream/Url is `wsURL`, Stream/Dispatch the way
--   from a message to a controller's channel, with the debounce window, and Stream/Backoff the
--   delays between attempts to connect.
-- - cmd/main.go: Entry is `main` from the parsed flags to the runtime's `Start`, with every
--   controller's `SetupWithManager` and `streamItems` and
--   internal/controller/eventstream_wiring.go; Entry/Options has the options of the runtime's
--   manager and of its servers.
-- - Prelude has what the modules share; Examples has concrete worlds and the theorems at them.
--
-- A method of the program is a step on a state: the world outside the operator, the pool of the
-- event stream, and a history of the calls. The Kubernetes client, the SDK, the finalizer helpers
-- of controller-runtime, its manager, the clock and the JSON decoder are parameters over that
-- world. They may answer and change it in any way; a theorem that needs more names it as a record
-- of laws, such as `FinalizerLaws`, `DirectoryLaws`, `ClientLaws`, `ReadsBack`, `MemberLaws`,
-- `Accepts`, `OrgLaws`, `PolicyReadsBack`, `ListsUpdated`, `ListsCreated`, `SecretStore`,
-- `Environment`, `Serving` or `PlatformLaws`, and the examples have instances. Other writers
-- between two calls are not modelled as separate steps; what a call answers is as free as if there
-- were any, except where a law says otherwise.
--
-- Durations are in milliseconds. Loops are structural recursion over lists; only the decimal
-- digits of a number take fuel, the number's successor, which is more than its digits. Go's maps
-- are association lists: a walk over a map takes the order of the list, which stands for one of
-- the orders that Go may take. Integers from the API are ℤ, generations and times ℕ.
--
-- Not modelled: logging, the logger's and the scheme's set-up in cmd/main.go, the RBAC and CRD
-- manifests, the registration of the API group, and the WebSocket itself: a dial or a read succeeds or
-- fails in any way. The lives of different connections meet only at the mutex, so
-- Stream/Lifecycle has one connection and takes the others as users of the mutex. Stream/Pool and
-- Stream/Manager take opening and closing a connection as done at once. Nothing says that a name or
-- a URL is unique among the live objects of an org: a deletion takes away what the listing has
-- first, and the theorems on deletions say so.
pub mod Prelude
pub mod Compare
pub mod Api
pub mod Conditions
pub mod AuthSecret
pub mod Stream
pub mod Reconcile
pub mod Named
pub mod DeepCopy
pub mod Drift
pub mod Entry
pub mod Role
pub mod Webhook
pub mod AuthPolicy
pub mod IdentityProvider
pub mod Group
pub mod Org
pub mod Client
pub mod Examples
