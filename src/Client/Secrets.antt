-- ===== src/Client/Secrets.antt =====
-- What becomes of the client secret that the Admin API gives once, when the client is created.
pub mod RoundTrip
use clavex_operator.Prelude.{
  String, Bool, true, false, List, [], ◌∷◌, Option, none, some, ◌≡◌, refl, arith, str_eq,
  if◌then◌else◌, inl, inr, ◌⊎◌, sym, ◌∙◌,
}
use clavex_operator.Api.{
  Answer, ok, fail, SecretRef, NamespacedName, Resource, is_not_found, or_default,
}
use clavex_operator.AuthSecret.{Secret, entry, put_entry, target, default_client_secret_key}
use clavex_operator.AuthSecret.Laws.{entry-put_entry}
use clavex_operator.Reconcile.{Synced}
use clavex_operator.Reconcile.Flow.{Flow, next, exit, Step, pure, leave, failed, continue}
use clavex_operator.Reconcile.Calls.{
  Cluster, State, Session, Event, put_secret, succeeded, ask, tell, with_managed,
}
use clavex_operator.Drift.{or_return, correct, unchanged, updated, spec_unchanged}
use clavex_operator.Drift.Laws.{correct_lem}
use clavex_operator.Client.{
  ClientSpec, OidcClient, ClientService, reconcile_client, store_secret, write_client_secret,
  persist_secret, client_up_to_date, update_params,
}

-- The data of the Secret as it was read, empty if there was none.
abbrev pub held : Answer Secret → List (String × String)
held (ok secret) = secret.contents
held (fail e) = []

-- The end of `persist_secret` goes on only after a success.
pub goes_on :
    {S : Type 0} (x : Flow S (Answer (Unit {0}))) (s : S)
    → continue x (λ answer. elim answer [ ok done ↦ pure tt | fail e ↦ leave (failed e) ])
      ≡ next tt s
    → x ≡ next (ok tt) s
goes_on (next (ok u) t) s h = cc
goes_on (next (fail e) t) s h = cc
goes_on (exit o t) s h = cc

-- Which branch of a test was taken.
pub branch :
    {S A : Type 0} (b : Bool) (m n : Step S A) (s : S) (y : Flow S A)
    → (if b then m else n) s ≡ y
    → (m s ≡ y) ⊎ (n s ≡ y)
branch true m n s y h = inl h
branch false m n s y h = inr h

pub not_taken :
    {S A : Type 0} (b : Bool) (m n : Step S A) (s : S) (y : Flow S A)
    → b ≡ false
    → (if b then m else n) s ≡ y
    → n s ≡ y
not_taken true m n s y k h = cc
not_taken false m n s y k h = h

-- A correction hands on no secret.
secret_corrected :
    {W Spec A : Type 0} (recorder : Bool) (what id : String) (cr : Resource Spec) (b : Bool)
    (update : W → Answer A × W) (s s₁ : State W Spec) (synced : Synced)
    → correct recorder what id cr b update s ≡ next (ok synced) s₁
    → synced.secret ≡ ""
secret_corrected {W = W} {Spec = Spec} {A = A} recorder what id cr b update s s₁ synced h =
    by_answer b (update s.world).0 (value (sym (correct_lem recorder what id cr b update s) ∙ h))
  where
    value : {a a' : Answer Synced} {t t' : State W Spec} → next a t ≡ next a' t' → a ≡ a'
    value e = cc

    by_answer :
        (b' : Bool) (a : Answer A)
        → (if b' then ok (unchanged id) else updated what id (spec_unchanged cr) a) ≡ ok synced
        → synced.secret ≡ ""
    by_answer true a k = ground arith
    by_answer false (ok x) k = ground arith
    by_answer false (fail e) k = cc

module _ {W : Type 0} (c : Cluster W ClientSpec) (recorder : Bool) (sdk : ClientService W) where
  -- The Secret that was written, and what it holds.
  pub record Stored (key_name value : String) (old : List (String × String))
      (s s₁ : State W ClientSpec) : Type 0 where
    pub secret : Secret
    pub at_world : W
    pub written : s₁.log ≡ (put_secret secret true, at_world) ∷ s.log
    pub holds :
        (j : String)
        → entry j secret.contents ≡ (if str_eq key_name j then some value else entry j old)

  accepted :
      (event : Bool → Event ClientSpec) (call : W → Answer (Unit {0}) × W)
      (s s₁ : State W ClientSpec)
      → tell event call s ≡ next (ok tt) s₁
      → s₁.log ≡ (event true, s.world) ∷ s.log
  unfolding tell
  accepted event call s s₁ h = by_answer (call s.world).0 h
    where
      by_answer :
          (a : Answer (Unit {0}))
          → next a
              (record s { world = (call s.world).1; log = (event (succeeded a), s.world) ∷ s.log })
            ≡ next (ok tt) s₁
          → s₁.log ≡ (event true, s.world) ∷ s.log
      by_answer (ok u) k = ground arith
      by_answer (fail e) k = cc

  store_secret-Stored :
      (key : NamespacedName) (key_name value : String) (a : Answer Secret)
      (s s₁ : State W ClientSpec)
      → store_secret c recorder sdk key key_name value a s ≡ next (ok tt) s₁
      → Stored key_name value (held a) s s₁
  unfolding store_secret put_entry entry
  store_secret-Stored key key_name value (ok secret) s s₁ h = record {
    secret = record secret { contents = put_entry key_name value secret.contents };
    at_world = s.world;
    written = accepted _ _ s s₁ h;
    holds = λ j. entry-put_entry key_name j value secret.contents;
  }
  store_secret-Stored key key_name value (fail e) s s₁ h =
      elim (branch (is_not_found e) _ _ s _ h) [
        | inl k ↦ record {
          secret = record { key = key; contents = (key_name, value) ∷ [] };
          at_world = s.world;
          written = accepted _ _ s s₁ k;
          holds = λ j. entry-put_entry key_name j value [];
        }
        | inr k ↦ cc
      ]

  -- Where a secret and a reference to store it under are given and the step goes on, one Secret was
  -- written and accepted, which holds the value under the reference's key or the default one, and
  -- under every other key what the Secret held before.
  pub persist_secret-Stored :
      (cr : Resource ClientSpec) (ref : SecretRef) (value : String) (s s₁ : State W ClientSpec)
      → str_eq value "" ≡ false
      → persist_secret c recorder sdk cr (some ref) value s ≡ next tt s₁
      → Stored
          (or_default ref.key default_client_secret_key)
          value
          (held (c.get_secret (target ref cr.meta.namespace) s.world).0)
          s
          s₁
  unfolding persist_secret write_client_secret ask
  persist_secret-Stored cr ref value s s₁ given h =
      let answer = (c.get_secret (target ref cr.meta.namespace) s.world).0 in
      let read : State W ClientSpec = record s {
        world = (c.get_secret (target ref cr.meta.namespace) s.world).1;
      } in
      let stored =
        store_secret-Stored (target ref cr.meta.namespace)
          (or_default ref.key default_client_secret_key) value answer read s₁
          (goes_on _ _ (not_taken (str_eq value "") _ _ s _ given h)) in
      record {
        secret = stored.secret;
        at_world = stored.at_world;
        written = stored.written;
        holds = stored.holds;
      }

  persist_nothing :
      (cr : Resource ClientSpec) (ref : Option SecretRef) (s : State W ClientSpec)
      → persist_secret c recorder sdk cr ref "" s ≡ next tt s
  unfolding persist_secret
  persist_nothing cr none s = refl
  persist_nothing cr (some ref) s = refl

  reconcile_client_found :
      (session : Session) (org_id : String) (cr : Resource ClientSpec) (s : State W ClientSpec)
      (live : OidcClient)
      → (sdk.get session org_id cr.spec.client_id s.world).0 ≡ ok live
      → reconcile_client c recorder sdk session org_id cr s
        ≡ correct recorder "client" cr.spec.client_id cr
            (client_up_to_date live cr)
            (sdk.update session
              (with_managed "ClavexClient" cr.meta)
              org_id
              cr.spec.client_id
              (update_params cr.spec))
            (record s { world = (sdk.get session org_id cr.spec.client_id s.world).1 })
  unfolding reconcile_client or_return ask
  reconcile_client_found session org_id cr s live found = rw found refl

  -- Where a pass finds the client in place and its sync succeeds, the step that stores the client
  -- secret does nothing: it goes on in the same state, with no Secret read or written.
  pub reconcile_client_no_secret :
      (session : Session) (org_id : String) (cr : Resource ClientSpec) (s s₁ : State W ClientSpec)
      (live : OidcClient) (synced : Synced)
      → (sdk.get session org_id cr.spec.client_id s.world).0 ≡ ok live
      → reconcile_client c recorder sdk session org_id cr s ≡ next (ok synced) s₁
      → persist_secret c recorder sdk cr cr.spec.client_secret_ref synced.secret s₁ ≡ next tt s₁
  reconcile_client_no_secret session org_id cr s s₁ live synced found h =
      let e : synced.secret ≡ "" =
        secret_corrected recorder "client" cr.spec.client_id cr _ _ _ s₁ synced
          (sym (reconcile_client_found session org_id cr s live found) ∙ h) in
      rw e (persist_nothing cr cr.spec.client_secret_ref s₁)
