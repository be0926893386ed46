-- ===== src/Proxy/Config/Settings.antt =====
-- The environment variables that say a configuration, as the chart writes them, for `Config::from_env` of
-- crates/duckflight-idle-proxy/src/main.rs.
use mathlib.Core.Option
use mathlib.Core.List.{append-nil}
use duckflight_extension.Common.{
  ℕ, ◌^◌, ◌<◌, String, Option, none, some, List, [], ◌∷◌, ◌++◌, ◌≡◌, refl, ◌⊎◌, inl, inr,
}
use duckflight_extension.Proxy.Text.{decimal}
use duckflight_extension.Proxy.Text.Decimal.{parse_uint-decimal}
use duckflight_extension.Proxy.World.{
  message, Result, ok, err, Certificate, Environment, Trace, read_certificate,
}
use duckflight_extension.Proxy.Config.{
  Config, from_secs, var, parsed, listener, some_listener, from_env,
}

pub record Settings : Type 0 where
  pub postgres_port : Option ℕ
  pub flight_port : Option ℕ
  pub namespace : String
  pub deployment : String
  pub selector : String
  pub hostname : String
  pub control_port : ℕ
  pub idle_seconds : ℕ
  pub cold_start_seconds : ℕ
  pub token_file : String
  pub ca_file : String

-- The numbers are written in decimal.
pub record Sets (variable : String → Option String) (s : Settings) : Type 0 where
  pub postgres_port : variable "DUCKFLIGHT_PROXY_POSTGRES_PORT" ≡ Option.map decimal s.postgres_port
  pub flight_port : variable "DUCKFLIGHT_PROXY_FLIGHT_PORT" ≡ Option.map decimal s.flight_port
  pub namespace : variable "POD_NAMESPACE" ≡ some s.namespace
  pub deployment : variable "DUCKFLIGHT_PROXY_DEPLOYMENT" ≡ some s.deployment
  pub selector : variable "DUCKFLIGHT_PROXY_SELECTOR" ≡ some s.selector
  pub hostname : variable "DUCKFLIGHT_PROXY_HOSTNAME" ≡ some s.hostname
  pub control_port : variable "DUCKFLIGHT_PROXY_CONTROL_PORT" ≡ some (decimal s.control_port)
  pub idle_seconds :
      variable "DUCKFLIGHT_PROXY_IDLE_TIMEOUT_SECONDS" ≡ some (decimal s.idle_seconds)
  pub cold_start_seconds :
      variable "DUCKFLIGHT_PROXY_COLD_START_TIMEOUT_SECONDS" ≡ some (decimal s.cold_start_seconds)
  pub token_file : variable "DUCKFLIGHT_PROXY_TOKEN_FILE" ≡ some s.token_file
  pub ca_file : variable "DUCKFLIGHT_PROXY_CA_FILE" ≡ some s.ca_file

abbrev pub BelowIfSome : ℕ → Option ℕ → Type 0
BelowIfSome limit none = Unit
BelowIfSome limit (some n) = n < limit

pub record InRange (s : Settings) : Type 0 where
  pub postgres_port : BelowIfSome (2 ^ 16) s.postgres_port
  pub flight_port : BelowIfSome (2 ^ 16) s.flight_port
  pub control_port : s.control_port < 2 ^ 16
  pub idle_seconds : s.idle_seconds < 2 ^ 64
  pub cold_start_seconds : s.cold_start_seconds < 2 ^ 64

abbrev pub to_list : Option ℕ → List ℕ
to_list none = []
to_list (some n) = n ∷ []

-- The configuration that the settings say, with the listeners that they enable, of which there has to be one.
abbrev pub config_with : Settings → Certificate → List ℕ → Result Config
config_with s ca [] = err (message "enable at least one proxy listener")
config_with s ca (port ∷ ports) = ok (record {
  namespace = s.namespace;
  deployment = s.deployment;
  selector = s.selector;
  hostname = s.hostname;
  control_port = s.control_port;
  idle_timeout = from_secs s.idle_seconds;
  cold_start_timeout = from_secs s.cold_start_seconds;
  token_file = s.token_file;
  ca = ca;
  listeners = port ∷ ports;
})

abbrev pub config_of : Settings → Certificate → Result Config
config_of s ca = config_with s ca (to_list s.postgres_port ++ to_list s.flight_port)

List-cases : (xs : List ℕ) → (xs ≡ []) ⊎ ((y : ℕ) × (ys : List ℕ) × (xs ≡ y ∷ ys))
List-cases [] = inl refl
List-cases (x ∷ xs) = inr (x, xs, refl)

module _ (env : Environment) where
  parsed_lem : (w n : ℕ) (t : Trace) → n < 2 ^ w → parsed env w (decimal n) t ≡ (ok n, t)
  unfolding parsed
  parsed_lem w n t h = rw (parse_uint-decimal w n h)

  listener_lem :
      (port : Option ℕ) (ports : List ℕ) (t : Trace)
      → BelowIfSome (2 ^ 16) port
      → listener env (Option.map decimal port) ports t ≡ (ok (ports ++ to_list port), t)
  unfolding listener
  listener_lem none ports t h = rw (append-nil ports)
  listener_lem (some port) ports t h = rw (parsed_lem 16 port t h)

  -- In an environment whose variables say settings in decimal, with numbers in range and a readable
  -- certificate, from_env returns exactly these settings, with the timeouts in milliseconds and the
  -- listeners that are set, the one for PostgreSQL first; it fails with its message where none is set. It
  -- logs nothing.
  pub from_env-Sets :
      (s : Settings) (ca : Certificate) (t : Trace)
      → Sets env.variable s
      → InRange s
      → env.certificate t s.ca_file ≡ some ca
      → from_env env t ≡ (config_of s ca, t)
  unfolding from_env some_listener var parsed read_certificate
  from_env-Sets s ca t set range readable =
      rw
        (
          set.postgres_port,
          listener_lem s.postgres_port [] t range.postgres_port,
          set.flight_port,
          listener_lem s.flight_port (to_list s.postgres_port) t range.flight_port,
        )
        (elim (List-cases (to_list s.postgres_port ++ to_list s.flight_port)) [
          | inl e ↦ rw e refl
          | inr (port, ports, e) ↦ rw (
            e,
            set.namespace,
            set.deployment,
            set.selector,
            set.hostname,
            set.control_port,
            parse_uint-decimal 16 s.control_port range.control_port,
            set.idle_seconds,
            parse_uint-decimal 64 s.idle_seconds range.idle_seconds,
            set.cold_start_seconds,
            parse_uint-decimal 64 s.cold_start_seconds range.cold_start_seconds,
            set.token_file,
            set.ca_file,
            readable,
          )
        ])
