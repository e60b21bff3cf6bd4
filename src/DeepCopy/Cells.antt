-- ===== src/DeepCopy/Cells.antt =====
-- The cells of the memory that the structs point to, by what they hold.
use clavex_operator.Prelude.{String, Bool, List, Option, none, some, refl}
use clavex_operator.Api.{SecretRef}
use clavex_operator.AuthPolicy.{HourRange}
use clavex_operator.Org.Settings.{PasswordPolicySpec, RateLimitsSpec}
use clavex_operator.DeepCopy.Memory.{Part}
use clavex_operator.DeepCopy.Structs.{
  Types, ClavexAuthPolicy, ClavexClient, ClavexGroup, ClavexIdentityProvider, ClavexOrg, ClavexRole,
  ClavexWebhook,
}

-- What an address is one of.
pub data Cell (t : Types) : Type 0 where
  string_slice : List String → Cell t
  string_map : List (String × String) → Cell t
  a_bool : Bool → Cell t
  an_hour_range : HourRange → Cell t
  a_secret_ref : SecretRef → Cell t
  a_password_policy : PasswordPolicySpec → Cell t
  a_rate_limits : RateLimitsSpec → Cell t
  a_time : t.Time → Cell t
  condition_slice : List t.Condition → Cell t
  a_foreign : t.Foreign → Cell t
  auth_policy_slice : List (ClavexAuthPolicy t) → Cell t
  client_slice : List (ClavexClient t) → Cell t
  group_slice : List (ClavexGroup t) → Cell t
  identity_provider_slice : List (ClavexIdentityProvider t) → Cell t
  org_slice : List (ClavexOrg t) → Cell t
  role_slice : List (ClavexRole t) → Cell t
  webhook_slice : List (ClavexWebhook t) → Cell t

module _ {t : Types} where
  abbrev read_strings : Cell t → Option (List String)
  read_strings (string_slice v) = some v
  read_strings _ = none

  abbrev pub strings : Part (Cell t) (List String)
  strings = record { wrap = string_slice; read = read_strings; reads = λ v. refl }

  abbrev read_entries : Cell t → Option (List (String × String))
  read_entries (string_map v) = some v
  read_entries _ = none

  abbrev pub entries : Part (Cell t) (List (String × String))
  entries = record { wrap = string_map; read = read_entries; reads = λ v. refl }

  abbrev read_flag : Cell t → Option Bool
  read_flag (a_bool v) = some v
  read_flag _ = none

  abbrev pub flag : Part (Cell t) Bool
  flag = record { wrap = a_bool; read = read_flag; reads = λ v. refl }

  abbrev read_hours : Cell t → Option HourRange
  read_hours (an_hour_range v) = some v
  read_hours _ = none

  abbrev pub hours : Part (Cell t) HourRange
  hours = record { wrap = an_hour_range; read = read_hours; reads = λ v. refl }

  abbrev read_secret_ref : Cell t → Option SecretRef
  read_secret_ref (a_secret_ref v) = some v
  read_secret_ref _ = none

  abbrev pub secret_ref : Part (Cell t) SecretRef
  secret_ref = record { wrap = a_secret_ref; read = read_secret_ref; reads = λ v. refl }

  abbrev read_policy : Cell t → Option PasswordPolicySpec
  read_policy (a_password_policy v) = some v
  read_policy _ = none

  abbrev pub policy : Part (Cell t) PasswordPolicySpec
  policy = record { wrap = a_password_policy; read = read_policy; reads = λ v. refl }

  abbrev read_limits : Cell t → Option RateLimitsSpec
  read_limits (a_rate_limits v) = some v
  read_limits _ = none

  abbrev pub limits : Part (Cell t) RateLimitsSpec
  limits = record { wrap = a_rate_limits; read = read_limits; reads = λ v. refl }

  abbrev read_time : Cell t → Option t.Time
  read_time (a_time v) = some v
  read_time _ = none

  abbrev pub time : Part (Cell t) t.Time
  time = record { wrap = a_time; read = read_time; reads = λ v. refl }

  abbrev read_conditions : Cell t → Option (List t.Condition)
  read_conditions (condition_slice v) = some v
  read_conditions _ = none

  abbrev pub conditions : Part (Cell t) (List t.Condition)
  conditions = record { wrap = condition_slice; read = read_conditions; reads = λ v. refl }

  abbrev read_foreign : Cell t → Option t.Foreign
  read_foreign (a_foreign v) = some v
  read_foreign _ = none

  abbrev pub foreign : Part (Cell t) t.Foreign
  foreign = record { wrap = a_foreign; read = read_foreign; reads = λ v. refl }

  abbrev read_auth_policy_elements : Cell t → Option (List (ClavexAuthPolicy t))
  read_auth_policy_elements (auth_policy_slice v) = some v
  read_auth_policy_elements _ = none

  abbrev pub auth_policy_elements : Part (Cell t) (List (ClavexAuthPolicy t))
  auth_policy_elements = record {
    wrap = auth_policy_slice;
    read = read_auth_policy_elements;
    reads = λ v. refl;
  }

  abbrev read_client_elements : Cell t → Option (List (ClavexClient t))
  read_client_elements (client_slice v) = some v
  read_client_elements _ = none

  abbrev pub client_elements : Part (Cell t) (List (ClavexClient t))
  client_elements = record { wrap = client_slice; read = read_client_elements; reads = λ v. refl }

  abbrev read_group_elements : Cell t → Option (List (ClavexGroup t))
  read_group_elements (group_slice v) = some v
  read_group_elements _ = none

  abbrev pub group_elements : Part (Cell t) (List (ClavexGroup t))
  group_elements = record { wrap = group_slice; read = read_group_elements; reads = λ v. refl }

  abbrev read_identity_provider_elements : Cell t → Option (List (ClavexIdentityProvider t))
  read_identity_provider_elements (identity_provider_slice v) = some v
  read_identity_provider_elements _ = none

  abbrev pub identity_provider_elements : Part (Cell t) (List (ClavexIdentityProvider t))
  identity_provider_elements = record {
    wrap = identity_provider_slice;
    read = read_identity_provider_elements;
    reads = λ v. refl;
  }

  abbrev read_org_elements : Cell t → Option (List (ClavexOrg t))
  read_org_elements (org_slice v) = some v
  read_org_elements _ = none

  abbrev pub org_elements : Part (Cell t) (List (ClavexOrg t))
  org_elements = record { wrap = org_slice; read = read_org_elements; reads = λ v. refl }

  abbrev read_role_elements : Cell t → Option (List (ClavexRole t))
  read_role_elements (role_slice v) = some v
  read_role_elements _ = none

  abbrev pub role_elements : Part (Cell t) (List (ClavexRole t))
  role_elements = record { wrap = role_slice; read = read_role_elements; reads = λ v. refl }

  abbrev read_webhook_elements : Cell t → Option (List (ClavexWebhook t))
  read_webhook_elements (webhook_slice v) = some v
  read_webhook_elements _ = none

  abbrev pub webhook_elements : Part (Cell t) (List (ClavexWebhook t))
  webhook_elements = record {
    wrap = webhook_slice;
    read = read_webhook_elements;
    reads = λ v. refl;
  }
