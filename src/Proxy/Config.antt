-- ===== src/Proxy/Config.antt =====
-- `Config` and `Config::from_env` of crates/duckflight-idle-proxy/src/main.rs.
pub mod Bounds
pub mod Settings
use duckflight_extension.Common.{ℕ, ◌*◌, String, Option, none, some, List, [], ◌∷◌, ◌++◌}
use duckflight_extension.Proxy.Text.{parse_uint}
use duckflight_extension.Proxy.World.{
  external, message, ◌>>=◌, pure, raise, from_option, Certificate, Environment, Io,
  read_certificate,
}

-- Durations are milliseconds.
pub record Config : Type 0 where
  pub namespace : String
  pub deployment : String
  pub selector : String
  pub hostname : String
  pub control_port : ℕ
  pub idle_timeout : ℕ
  pub cold_start_timeout : ℕ
  pub token_file : String
  pub ca : Certificate
  pub listeners : List ℕ

abbrev pub from_secs : ℕ → ℕ
from_secs n = n * 1000

module _ (env : Environment) where
  unfoldable pub var : String → Io String
  var name = from_option external (env.variable name)

  unfoldable pub parsed : ℕ → String → Io ℕ
  parsed width text = from_option external (parse_uint width text)

  unfoldable pub listener : Option String → List ℕ → Io (List ℕ)
  listener none ports = pure ports
  listener (some value) ports = do port ← parsed 16 value; pure (ports ++ port ∷ [])

  unfoldable pub some_listener : List ℕ → Io (List ℕ)
  some_listener [] = raise (message "enable at least one proxy listener")
  some_listener (port ∷ ports) = pure (port ∷ ports)

  unfoldable pub from_env : Io Config
  unfolding var parsed listener some_listener
  from_env = do
    one ← listener (env.variable "DUCKFLIGHT_PROXY_POSTGRES_PORT") []
    both ← listener (env.variable "DUCKFLIGHT_PROXY_FLIGHT_PORT") one
    listeners ← some_listener both
    namespace ← var "POD_NAMESPACE"
    deployment ← var "DUCKFLIGHT_PROXY_DEPLOYMENT"
    selector ← var "DUCKFLIGHT_PROXY_SELECTOR"
    hostname ← var "DUCKFLIGHT_PROXY_HOSTNAME"
    control_port ← parsed 16 (← var "DUCKFLIGHT_PROXY_CONTROL_PORT")
    idle_timeout ← parsed 64 (← var "DUCKFLIGHT_PROXY_IDLE_TIMEOUT_SECONDS")
    cold_start ← parsed 64 (← var "DUCKFLIGHT_PROXY_COLD_START_TIMEOUT_SECONDS")
    token_file ← var "DUCKFLIGHT_PROXY_TOKEN_FILE"
    ca ← read_certificate env (← var "DUCKFLIGHT_PROXY_CA_FILE")
    pure (record {
      namespace = namespace;
      deployment = deployment;
      selector = selector;
      hostname = hostname;
      control_port = control_port;
      idle_timeout = from_secs idle_timeout;
      cold_start_timeout = from_secs cold_start;
      token_file = token_file;
      ca = ca;
      listeners = listeners;
    })
