-- ===== src/Client/Admission.antt =====
-- internal/webhook/v1alpha1/clavexclient_webhook.go: the admission webhook.
use clavex_operator.Prelude.{Option, none, some}
use clavex_operator.Api.{Answer, Error, wrapped, NamespacedName, Resource}
use clavex_operator.AuthSecret.{Secret, validate_auth_secret_ref}
use clavex_operator.Client.{ClientSpec}

-- The admission webhook: `ValidateCreate`, `ValidateUpdate` and `ValidateDelete`, each of which
-- returns no warnings. `none` is Go's nil error.
abbrev pub explained : Option Error → Option Error
explained none = none
explained (some e) = some (wrapped "spec.authSecretRef is invalid" e)

module _ {W : Type 0} (get_secret : NamespacedName → W → Answer Secret × W) where
  -- `validateAuthSecretRef`
  unfoldable pub validate_client_secret_ref : Resource ClientSpec → W → Option Error × W
  validate_client_secret_ref obj w =
      let (e, w') =
        validate_auth_secret_ref get_secret obj.spec.auth_secret_ref obj.meta.namespace w in
      (explained e, w')

  unfoldable pub validate_create : Resource ClientSpec → W → Option Error × W
  unfolding validate_client_secret_ref
  validate_create obj w = validate_client_secret_ref obj w

  unfoldable pub validate_update : Resource ClientSpec → Resource ClientSpec → W → Option Error × W
  unfolding validate_client_secret_ref
  validate_update old new w = validate_client_secret_ref new w

  unfoldable pub validate_delete : Resource ClientSpec → W → Option Error × W
  validate_delete obj w = (none, w)
