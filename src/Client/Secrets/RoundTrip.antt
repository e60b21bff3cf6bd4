-- ===== src/Client/Secrets/RoundTrip.antt =====
-- What is written by `writeClientSecret` is what `ResolveSecretValue` reads.
use clavex_operator.Prelude.{
  String, Bool, true, false, [], ◌∷◌, some, ◌≡◌, refl, arith, str_eq, inl, inr, eq_refl,
}
use clavex_operator.Api.{
  Answer, ok, fail, SecretRef, NamespacedName, Resource, is_not_found, or_default,
}
use clavex_operator.AuthSecret.{
  Secret, entry, put_entry, target, default_client_secret_key, read_value, resolve_secret_value,
}
use clavex_operator.AuthSecret.Laws.{entry-put_entry}
use clavex_operator.Reconcile.Flow.{next}
use clavex_operator.Reconcile.Calls.{Cluster, State, Event, succeeded, ask, tell}
use clavex_operator.Client.{
  ClientSpec, ClientService, store_secret, write_client_secret, persist_secret,
}
use clavex_operator.Client.Secrets.{goes_on, branch, not_taken}

-- What the operator relies on of the Secrets in the cluster: a read gives the Secret that was asked
-- for, and the next read after an accepted write gives what was written.
pub record SecretStore {W Spec : Type 0} (c : Cluster W Spec) : Type 0 where
  pub gives :
      (key : NamespacedName) (w : W) (secret : Secret)
      → (c.get_secret key w).0 ≡ ok secret
      → secret.key ≡ key
  pub reads_update :
      (secret : Secret) (w : W)
      → succeeded (c.update_secret secret w).0 ≡ true
      → (c.get_secret secret.key (c.update_secret secret w).1).0 ≡ ok secret
  pub reads_create :
      (secret : Secret) (w : W)
      → succeeded (c.create_secret secret w).0 ≡ true
      → (c.get_secret secret.key (c.create_secret secret w).1).0 ≡ ok secret

module _ {W : Type 0} (c : Cluster W ClientSpec) (recorder : Bool) (sdk : ClientService W) where
  -- After an accepted write the world is the one that the write left.
  accepted_world :
      (event : Bool → Event ClientSpec) (call : W → Answer (Unit {0}) × W)
      (s s₁ : State W ClientSpec)
      → tell event call s ≡ next (ok tt) s₁
      → (succeeded (call s.world).0 ≡ true) × (s₁.world ≡ (call s.world).1)
  unfolding tell
  accepted_world event call s s₁ h = by_answer (call s.world).0 h
    where
      by_answer :
          (a : Answer (Unit {0}))
          → next a
              (record s { world = (call s.world).1; log = (event (succeeded a), s.world) ∷ s.log })
            ≡ next (ok tt) s₁
          → (succeeded a ≡ true) × (s₁.world ≡ (call s.world).1)
      by_answer (ok u) k = ground arith
      by_answer (fail e) k = cc

  -- The Secret that a read gives holds the value under the key.
  abbrev Holding : NamespacedName → String → String → W → Type 0
  Holding key key_name value w =
      (secret : Secret) × ((c.get_secret key w).0 ≡ ok secret)
      × (entry key_name secret.contents ≡ some value)

  store_secret-Holding :
      (store : SecretStore c) (key : NamespacedName) (key_name value : String) (a : Answer Secret)
      (s s₁ : State W ClientSpec)
      → ((secret : Secret) → a ≡ ok secret → secret.key ≡ key)
      → store_secret c recorder sdk key key_name value a s ≡ next (ok tt) s₁
      → Holding key key_name value s₁.world
  unfolding store_secret put_entry entry
  store_secret-Holding store key key_name value (ok old) s s₁ given h =
      let secret : Secret = record old { contents = put_entry key_name value old.contents } in
      let (took, there) = accepted_world _ (c.update_secret secret) s s₁ h in
      (
        secret,
        cc (there, given old refl, store.reads_update secret s.world took),
        ground (arith, entry-put_entry key_name key_name value old.contents, eq_refl key_name),
      )
  store_secret-Holding store key key_name value (fail e) s s₁ given h =
      let secret : Secret = record { key = key; contents = (key_name, value) ∷ [] } in
      elim (branch (is_not_found e) _ _ s _ h) [
        | inl k ↦
            let (took, there) = accepted_world _ (c.create_secret secret) s s₁ k in
            (
              secret,
              cc (there, store.reads_create secret s.world took),
              ground (arith, eq_refl key_name),
            )
        | inr k ↦ cc
      ]

  resolves :
      (ref : SecretRef) (namespace value : String) (w : W) (secret : Secret)
      → (c.get_secret (target ref namespace) w).0 ≡ ok secret
      → entry (or_default ref.key default_client_secret_key) secret.contents ≡ some value
      → (resolve_secret_value c.get_secret (some ref) namespace default_client_secret_key w).0
        ≡ ok value
  unfolding resolve_secret_value read_value
  resolves ref namespace value w secret reads holds = rw (reads, read_value, holds) refl

  -- Where a client secret is given and its writing lets the pass go on, a reference to where it was
  -- written, read by any resource of the namespace with the same default key, resolves to that
  -- secret.
  pub persist_then_resolve :
      (store : SecretStore c) (cr : Resource ClientSpec) (ref : SecretRef) (value : String)
      (s s₁ : State W ClientSpec)
      → str_eq value "" ≡ false
      → persist_secret c recorder sdk cr (some ref) value s ≡ next tt s₁
      → (resolve_secret_value c.get_secret
          (some ref)
          cr.meta.namespace
          default_client_secret_key
          s₁.world).0
        ≡ ok value
  unfolding persist_secret write_client_secret ask
  persist_then_resolve store cr ref value s s₁ given h =
      let key = target ref cr.meta.namespace in
      let answer = (c.get_secret key s.world).0 in
      let read : State W ClientSpec = record s { world = (c.get_secret key s.world).1 } in
      let (secret, reads, holds) =
        store_secret-Holding store key (or_default ref.key default_client_secret_key) value answer
          read s₁ (λ old e. store.gives key s.world old e)
          (goes_on _ _ (not_taken (str_eq value "") _ _ s _ given h)) in
      resolves ref cr.meta.namespace value s₁.world secret reads holds
