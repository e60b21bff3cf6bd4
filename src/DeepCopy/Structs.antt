-- ===== src/DeepCopy/Structs.antt =====
-- The structs of api/v1alpha1 as they stand in memory: a slice, a pointer or a map is nil or an
-- address. The types of the Kubernetes libraries are given.
use clavex_operator.Prelude.{ℕ, ℤ, String, Bool, Option}
use clavex_operator.Api.{SecretRef}
use clavex_operator.Role.{RoleSpec}

-- The types of `k8s.io/apimachinery`, and what else its objects keep in memory.
pub record Types : Type 1 where
  pub TypeMeta : Type 0
  pub ObjectMeta : Type 0
  pub ListMeta : Type 0
  pub Condition : Type 0
  pub Time : Type 0
  pub Foreign : Type 0

pub record AuthPolicyConditions : Type 0 where
  pub ip_cidrs : Option ℕ
  pub countries : Option ℕ
  pub not_countries : Option ℕ
  pub client_ids : Option ℕ
  pub mfa_enrolled : Option ℕ
  pub new_country : Option ℕ
  pub days_of_week : Option ℕ
  pub hour_range : Option ℕ
  pub last_login_before : String

pub record ClavexAuthPolicySpec : Type 0 where
  pub org_ref : String
  pub auth_secret_ref : SecretRef
  pub name : String
  pub priority : ℤ
  pub action : String
  pub enabled : Bool
  pub conditions : AuthPolicyConditions

pub record ClavexClientSpec : Type 0 where
  pub org_ref : String
  pub auth_secret_ref : SecretRef
  pub client_id : String
  pub name : String
  pub redirect_uris : Option ℕ
  pub post_logout_redirect_uris : Option ℕ
  pub grant_types : Option ℕ
  pub response_types : Option ℕ
  pub scopes : Option ℕ
  pub is_public : Bool
  pub is_active : Bool
  pub token_endpoint_auth_method : String
  pub id_token_signed_response_alg : String
  pub client_secret_ref : Option ℕ

pub record ClavexGroupSpec : Type 0 where
  pub org_ref : String
  pub auth_secret_ref : SecretRef
  pub name : String
  pub roles : Option ℕ

pub record ClavexIdentityProviderSpec : Type 0 where
  pub org_ref : String
  pub auth_secret_ref : SecretRef
  pub name : String
  pub provider_type : String
  pub enabled : Bool
  pub client_id : String
  pub client_secret_ref : Option ℕ
  pub config : Option ℕ
  pub allow_jit : Bool
  pub roles_claim : String
  pub role_claim_mappings : Option ℕ

pub record ClavexOrgSpec : Type 0 where
  pub org_ref : String
  pub auth_secret_ref : SecretRef
  pub password_policy : Option ℕ
  pub rate_limits : Option ℕ

pub record ClavexWebhookSpec : Type 0 where
  pub org_ref : String
  pub auth_secret_ref : SecretRef
  pub url : String
  pub events : Option ℕ
  pub enabled : Bool
  pub signing_key_ref : Option ℕ

-- The status of every kind; `remote_id` is the kind's own id field, which a ClavexOrg does not have.
pub record ClavexStatus : Type 0 where
  pub conditions : Option ℕ
  pub observed_generation : ℕ
  pub remote_id : String
  pub last_synced_at : Option ℕ

-- A custom resource, by its spec.
pub record Object (t : Types) (Spec : Type 0) : Type 0 where
  pub type_meta : t.TypeMeta
  pub object_meta : t.ObjectMeta
  pub spec : Spec
  pub status : ClavexStatus

-- A list of them.
pub record ObjectList (t : Types) : Type 0 where
  pub type_meta : t.TypeMeta
  pub list_meta : t.ListMeta
  pub items : Option ℕ

abbrev pub ClavexAuthPolicy : Types → Type 0
ClavexAuthPolicy t = Object t ClavexAuthPolicySpec

abbrev pub ClavexClient : Types → Type 0
ClavexClient t = Object t ClavexClientSpec

abbrev pub ClavexGroup : Types → Type 0
ClavexGroup t = Object t ClavexGroupSpec

abbrev pub ClavexIdentityProvider : Types → Type 0
ClavexIdentityProvider t = Object t ClavexIdentityProviderSpec

abbrev pub ClavexOrg : Types → Type 0
ClavexOrg t = Object t ClavexOrgSpec

abbrev pub ClavexRole : Types → Type 0
ClavexRole t = Object t RoleSpec

abbrev pub ClavexWebhook : Types → Type 0
ClavexWebhook t = Object t ClavexWebhookSpec
