-- ===== src/AuthSecret.antt =====
-- internal/authsecret/authsecret.go: how a SecretRef is resolved. The Kubernetes client's `Get` on
-- Secrets is the parameter `get` over the state `W` of everything outside the operator.
pub mod Laws
use clavex_operator.Prelude.{
  String, Bool, List, [], ◌∷◌, Option, none, some, ◌<>◌, str_eq, if◌then◌else◌,
}
use clavex_operator.Api.{
  Answer, ok, fail, Error, wrapped, missing_key, SecretRef, NamespacedName, or_default,
}

-- A Secret's name and its `Data` map; a nil map has no keys.
pub record Secret : Type 0 where
  pub key : NamespacedName
  pub contents : List (String × String)

-- `secret.Data[key]`
unfoldable pub entry : String → List (String × String) → Option String
entry k [] = none
entry k ((j, v) ∷ m) = if str_eq j k then some v else entry k m

-- `secret.Data[key] = value`
unfoldable pub put_entry : String → String → List (String × String) → List (String × String)
put_entry k v [] = (k, v) ∷ []
put_entry k v ((j, w) ∷ m) = if str_eq j k then (k, v) ∷ m else (j, w) ∷ put_entry k v m

abbrev pub default_api_key_secret_key : String
default_api_key_secret_key = "apiKey"

abbrev pub org_id_secret_key : String
org_id_secret_key = "orgId"

abbrev pub default_client_secret_key : String
default_client_secret_key = "clientSecret"

-- The key and the org that an authSecretRef resolves to.
pub record Credentials : Type 0 where
  pub api_key : String
  pub org_id : String

-- Where a reference points: `ns := ref.Namespace; if ns == "" { ns = defaultNamespace }`.
abbrev pub target : SecretRef → String → NamespacedName
target ref default_namespace = record {
  namespace = or_default ref.namespace default_namespace;
  name = ref.name;
}

abbrev pub shown : NamespacedName → String
shown key = key.namespace <> "/" <> key.name

-- `raw, ok := secret.Data[key]; if !ok || len(raw) == 0 { … }`
unfoldable pub required_entry : String → Secret → Option String
unfolding entry
required_entry key secret = elim (entry key secret.contents) [
  | none ↦ none
  | some raw ↦ if str_eq raw "" then none else some raw
]

unfoldable pub read_credentials : NamespacedName → String → Secret → Answer Credentials
unfolding required_entry
read_credentials key key_name secret = elim (required_entry key_name secret) [
  | none ↦ fail (missing_key key.namespace key.name key_name)
  | some api_key ↦ elim (required_entry org_id_secret_key secret) [
    | none ↦ fail (missing_key key.namespace key.name org_id_secret_key)
    | some org_id ↦ ok (record { api_key = api_key; org_id = org_id })
  ]
]

unfoldable pub read_value : NamespacedName → String → Secret → Answer String
unfolding entry
read_value key key_name secret = elim (entry key_name secret.contents) [
  | none ↦ fail (missing_key key.namespace key.name key_name)
  | some raw ↦ ok raw
]

abbrev pub and_then : {A B : Type 0} → (Error → Error) → (A → Answer B) → Answer A → Answer B
and_then wrap f (ok a) = f a
and_then wrap f (fail e) = fail (wrap e)

unfoldable pub verdict : Answer Credentials → Option Error
verdict (ok c) = none
verdict (fail e) = some e

module _ {W : Type 0} (get : NamespacedName → W → Answer Secret × W) where
  unfoldable pub resolve_auth_secret : SecretRef → String → W → Answer Credentials × W
  unfolding read_credentials
  resolve_auth_secret ref default_namespace w =
      let key = target ref default_namespace in
      let (answer, w') = get key w in
      (
        and_then (wrapped ("fetching authSecretRef " <> shown key))
            (read_credentials key (or_default ref.key default_api_key_secret_key)) answer,
        w',
      )

  unfoldable pub resolve_secret_value : Option SecretRef → String → String → W → Answer String × W
  unfolding read_value
  resolve_secret_value none default_namespace fallback_key w = (ok "", w)
  resolve_secret_value (some ref) default_namespace fallback_key w =
      let key = target ref default_namespace in
      let (answer, w') = get key w in
      (
        and_then (wrapped ("fetching secretRef " <> shown key))
            (read_value key (or_default ref.key fallback_key)) answer,
        w',
      )

  -- `_, _, err := …; return err`: `none` is Go's nil.
  unfoldable pub validate_auth_secret_ref : SecretRef → String → W → Option Error × W
  unfolding resolve_auth_secret verdict
  validate_auth_secret_ref ref default_namespace w =
      let (answer, w') = resolve_auth_secret ref default_namespace w in (verdict answer, w')
