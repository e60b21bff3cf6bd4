-- ===== src/AuthSecret/Laws.antt =====
-- When a reference resolves, and to what.
use clavex_operator.Prelude.{
  String, false, List, [], ◌∷◌, none, some, ◌≡◌, refl, ◌↔◌, arith, str_eq, eq_iff, Option-cases,
  if◌then◌else◌,
}
use clavex_operator.Api.{Answer, ok, fail, Error, SecretRef, NamespacedName, or_default}
use clavex_operator.AuthSecret.{
  Secret, Credentials, entry, put_entry, required_entry, read_credentials, and_then, verdict,
  target, resolve_auth_secret, validate_auth_secret_ref, default_api_key_secret_key,
  org_id_secret_key,
}

-- The Secret holds `value` under `key`, and it is not empty.
pub record Holds (secret : Secret) (key value : String) : Type 0 where
  pub present : entry key secret.contents ≡ some value
  pub nonempty : str_eq value "" ≡ false

required_entry-Holds :
    (key value : String) (secret : Secret)
    → (required_entry key secret ≡ some value) ↔ Holds secret key value
unfolding required_entry
required_entry-Holds key value secret = (sound, complete)
  where
    sound : required_entry key secret ≡ some value → Holds secret key value
    sound h = ground (arith, Option-cases (entry key secret.contents))

    complete : Holds secret key value → required_entry key secret ≡ some value
    complete h = ground (arith, h.present, h.nonempty)

-- What a writer of the client secret relies on: the last value put under a key is read back, and
-- no other key changes.
pub entry-put_entry :
    (k j v : String) (m : List (String × String))
    → entry j (put_entry k v m) ≡ (if str_eq k j then some v else entry j m)
unfolding entry put_entry
entry-put_entry k j v [] = ground arith
entry-put_entry k j v ((i, w) ∷ m) =
    ground (arith, eq_iff k j, eq_iff i k, eq_iff i j, entry-put_entry k j v m)

read_credentials_iff :
    (key : NamespacedName) (key_name : String) (secret : Secret) (c : Credentials)
    → (read_credentials key key_name secret ≡ ok c)
      ↔ (Holds secret key_name c.api_key × Holds secret org_id_secret_key c.org_id)
unfolding read_credentials
read_credentials_iff key key_name secret c = (sound, complete)
  where
    read :
        read_credentials key key_name secret ≡ ok c
        → (required_entry key_name secret ≡ some c.api_key)
          × (required_entry org_id_secret_key secret ≡ some c.org_id)
    read h = ground (
      arith,
      Option-cases (required_entry key_name secret),
      Option-cases (required_entry org_id_secret_key secret),
    )

    sound :
        read_credentials key key_name secret ≡ ok c
        → Holds secret key_name c.api_key × Holds secret org_id_secret_key c.org_id
    sound h = (
      (required_entry-Holds key_name c.api_key secret).0 (read h).0,
      (required_entry-Holds org_id_secret_key c.org_id secret).0 (read h).1,
    )

    complete :
        Holds secret key_name c.api_key × Holds secret org_id_secret_key c.org_id
        → read_credentials key key_name secret ≡ ok c
    complete (a, b) = ground (
      arith,
      (required_entry-Holds key_name c.api_key secret).1 a,
      (required_entry-Holds org_id_secret_key c.org_id secret).1 b,
    )

-- A chain succeeds through a success of its first part.
pub and_then-eq-ok :
    {A B : Type 0} (wrap : Error → Error) (f : A → Answer B) (a : Answer A) (b : B)
    → and_then wrap f a ≡ ok b
    → (x : A) × (a ≡ ok x) × (f x ≡ ok b)
and_then-eq-ok wrap f (ok a) b h = (a, refl, h)
and_then-eq-ok wrap f (fail e) b h = cc

verdict_agrees :
    (a : Answer Credentials)
    → ((verdict a ≡ none) ↔ ((c : Credentials) × (a ≡ ok c)))
      × ((e : Error) → (verdict a ≡ some e) ↔ (a ≡ fail e))
unfolding verdict
verdict_agrees (ok c) = ((λ _. (c, refl), λ _. refl), λ e. (λ h. cc, λ h. cc))
verdict_agrees (fail x) = ((λ h. cc, λ (c, h). cc), λ e. (λ h. cc, λ h. cc))

module _ {W : Type 0} (get : NamespacedName → W → Answer Secret × W) where
  -- What the Secret that `ref` points at must hold.
  pub record Backed (ref : SecretRef) (ns : String) (w : W) (c : Credentials) : Type 0 where
    pub secret : Secret
    pub found : (get (target ref ns) w).0 ≡ ok secret
    pub api_key : Holds secret (or_default ref.key default_api_key_secret_key) c.api_key
    pub org_id : Holds secret org_id_secret_key c.org_id

  -- A reference resolves exactly to what its Secret holds: the API key under the reference's own
  -- key or `apiKey`, the org under `orgId`, both present and not empty, in the reference's own
  -- namespace or the resource's.
  pub resolve_auth_secret_iff :
      (ref : SecretRef) (ns : String) (w : W) (c : Credentials)
      → ((resolve_auth_secret get ref ns w).0 ≡ ok c) ↔ Backed ref ns w c
  unfolding resolve_auth_secret
  resolve_auth_secret_iff ref ns w c = (sound, complete)
    where
      key_name : String
      key_name = or_default ref.key default_api_key_secret_key

      sound : (resolve_auth_secret get ref ns w).0 ≡ ok c → Backed ref ns w c
      sound h =
          let (secret, found, e) = and_then-eq-ok _ _ (get (target ref ns) w).0 c h in
          let (a, b) = (read_credentials_iff (target ref ns) key_name secret c).0 e in
          record { secret = secret; found = found; api_key = a; org_id = b }

      complete : Backed ref ns w c → (resolve_auth_secret get ref ns w).0 ≡ ok c
      complete b =
          rw b.found
            ((read_credentials_iff (target ref ns) key_name b.secret c).1 (b.api_key, b.org_id))

  -- Admission looks at the reference as the reconciler does: it accepts exactly when the
  -- reconciler's resolution succeeds in the same state, and otherwise gives the same error.
  pub validate_auth_secret_ref_agrees :
      (ref : SecretRef) (ns : String) (w : W)
      → (((validate_auth_secret_ref get ref ns w).0 ≡ none)
          ↔ ((c : Credentials) × ((resolve_auth_secret get ref ns w).0 ≡ ok c)))
        × ((e : Error)
            → ((validate_auth_secret_ref get ref ns w).0 ≡ some e)
              ↔ ((resolve_auth_secret get ref ns w).0 ≡ fail e))
  unfolding validate_auth_secret_ref
  validate_auth_secret_ref_agrees ref ns w = verdict_agrees (resolve_auth_secret get ref ns w).0
