-- ===== src/Entry/Options.antt =====
-- cmd/main.go: the options of the runtime's manager and its two servers, made from the flags. The
-- zap logger's flags and the scheme are not here. A function on `*tls.Config` is one from the old
-- configuration to the new.
use clavex_operator.Prelude.{String, Bool, true, false, List, [], ◌∷◌, not, str_eq, if◌then◌else◌}

pub record Flags : Type 0 where
  pub metrics_addr : String
  pub metrics_cert_path : String
  pub metrics_cert_name : String
  pub metrics_cert_key : String
  pub webhook_cert_path : String
  pub webhook_cert_name : String
  pub webhook_cert_key : String
  pub enable_leader_election : Bool
  pub probe_addr : String
  pub secure_metrics : Bool
  pub enable_http2 : Bool
  pub clavex_server_url : String

-- The defaults of the flags, where `CLAVEX_SERVER_URL` holds the given text.
abbrev pub default_flags : String → Flags
default_flags env_server_url = record {
  metrics_addr = "0";
  metrics_cert_path = "";
  metrics_cert_name = "tls.crt";
  metrics_cert_key = "tls.key";
  webhook_cert_path = "";
  webhook_cert_name = "tls.crt";
  webhook_cert_key = "tls.key";
  enable_leader_election = false;
  probe_addr = ":8081";
  secure_metrics = true;
  enable_http2 = false;
  clavex_server_url = env_server_url;
}

-- `tls.Config`, by its `NextProtos`.
pub record TlsConfig : Type 0 where
  pub next_protos : List String

unfoldable pub disable_http2 : TlsConfig → TlsConfig
disable_http2 c = record c { next_protos = "http/1.1" ∷ [] }

-- What a server does with its `TLSOpts`: it applies them to its configuration in their order.
unfoldable pub configured : List (TlsConfig → TlsConfig) → TlsConfig → TlsConfig
configured [] c = c
configured (f ∷ fs) c = configured fs (f c)

-- `tlsOpts` after the test of `enableHTTP2`.
unfoldable pub tls_opts : Flags → List (TlsConfig → TlsConfig)
unfolding disable_http2
tls_opts flags = if not flags.enable_http2 then disable_http2 ∷ [] else []

-- `webhook.Options`
pub record WebhookOptions : Type 0 where
  pub tls_opts : List (TlsConfig → TlsConfig)
  pub cert_dir : String
  pub cert_name : String
  pub key_name : String

unfoldable pub webhook_server_options : Flags → WebhookOptions
unfolding tls_opts
webhook_server_options flags =
    let opts : WebhookOptions = record {
      tls_opts = tls_opts flags;
      cert_dir = "";
      cert_name = "";
      key_name = "";
    } in
    if not (str_eq flags.webhook_cert_path "")
    then record opts {
      cert_dir = flags.webhook_cert_path;
      cert_name = flags.webhook_cert_name;
      key_name = flags.webhook_cert_key;
    }
    else opts

-- `metricsserver.Options`; `is_protected` is `FilterProvider` set to
-- `filters.WithAuthenticationAndAuthorization`.
pub record MetricsOptions : Type 0 where
  pub bind_address : String
  pub secure_serving : Bool
  pub tls_opts : List (TlsConfig → TlsConfig)
  pub is_protected : Bool
  pub cert_dir : String
  pub cert_name : String
  pub key_name : String

unfoldable pub metrics_server_options : Flags → MetricsOptions
unfolding tls_opts
metrics_server_options flags =
    let opts : MetricsOptions = record {
      bind_address = flags.metrics_addr;
      secure_serving = flags.secure_metrics;
      tls_opts = tls_opts flags;
      is_protected = false;
      cert_dir = "";
      cert_name = "";
      key_name = "";
    } in
    let protected_opts =
      if flags.secure_metrics then record opts { is_protected = true } else opts in
    if not (str_eq flags.metrics_cert_path "")
    then record protected_opts {
      cert_dir = flags.metrics_cert_path;
      cert_name = flags.metrics_cert_name;
      key_name = flags.metrics_cert_key;
    }
    else protected_opts

-- `ctrl.Options`, without the scheme.
pub record ManagerOptions : Type 0 where
  pub metrics : MetricsOptions
  pub webhook : WebhookOptions
  pub health_probe_bind_address : String
  pub leader_election : Bool
  pub leader_election_id : String

unfoldable pub manager_options : Flags → ManagerOptions
unfolding metrics_server_options webhook_server_options
manager_options flags = record {
  metrics = metrics_server_options flags;
  webhook = webhook_server_options flags;
  health_probe_bind_address = flags.probe_addr;
  leader_election = flags.enable_leader_election;
  leader_election_id = "6d0c9dea.clavex.eu";
}
