-- ===== src/Proxy/Scenarios/Configured.antt =====
-- A concrete environment of the proxy, and what `Config::from_env` reads there.
use Prim.Native.String
use Prim.Native.Nat.{Ordering}
use duckflight_extension.Common.{
  String, true, false, Option, none, some, List, [], ◌∷◌, ◌≡◌, refl, arith,
}
use duckflight_extension.Proxy.World.{Environment, failed, read_certificate}
use duckflight_extension.Proxy.Text.{parse_uint, decimal}
use duckflight_extension.Proxy.Config.{Config, from_env}
use duckflight_extension.Proxy.Config.Bounds.{Bounded, from_env-Bounded}
use duckflight_extension.Proxy.Config.Settings.{Settings, Sets, InRange, config_of, from_env-Sets}

module _ {A : Type 0} where
  abbrev if_equal : Ordering → Option A → Option A → Option A
  if_equal Ordering.eq x y = x
  if_equal _ x y = y

  abbrev lookup : List (String × A) → String → Option A
  lookup [] name = none
  lookup ((key, value) ∷ rest) name =
      if_equal (Prim.Native.String.compare key name) (some value) (lookup rest name)

abbrev variables : List (String × String)
variables =
    ("DUCKFLIGHT_PROXY_FLIGHT_PORT", "31337")
    ∷ ("POD_NAMESPACE", "test")
    ∷ ("DUCKFLIGHT_PROXY_DEPLOYMENT", "worker")
    ∷ ("DUCKFLIGHT_PROXY_SELECTOR", "worker=test")
    ∷ ("DUCKFLIGHT_PROXY_HOSTNAME", "localhost")
    ∷ ("DUCKFLIGHT_PROXY_CONTROL_PORT", "4091")
    ∷ ("DUCKFLIGHT_PROXY_IDLE_TIMEOUT_SECONDS", "600")
    ∷ ("DUCKFLIGHT_PROXY_COLD_START_TIMEOUT_SECONDS", "180")
    ∷ ("DUCKFLIGHT_PROXY_TOKEN_FILE", "/token")
    ∷ ("DUCKFLIGHT_PROXY_CA_FILE", "/ca.crt")
    ∷ []

abbrev pod_environment : Environment
pod_environment = record {
  answer = λ t r. failed;
  now = λ t. 0;
  new_uuid = λ t. "uuid";
  variable = lookup variables;
  read_to_string = λ t path. some "token";
  certificate = λ t path. some "ca";
  parse_ip = λ text. some text;
  can_build = λ client. true;
  aborts = λ t. false;
}

abbrev pod_settings : Settings
pod_settings = record {
  postgres_port = none;
  flight_port = some 31337;
  namespace = "test";
  deployment = "worker";
  selector = "worker=test";
  hostname = "localhost";
  control_port = 4091;
  idle_seconds = 600;
  cold_start_seconds = 180;
  token_file = "/token";
  ca_file = "/ca.crt";
}

pod_environment-Sets : Sets pod_environment.variable pod_settings
unfolding decimal
pod_environment-Sets = record {
  postgres_port = refl;
  flight_port = refl;
  namespace = refl;
  deployment = refl;
  selector = refl;
  hostname = refl;
  control_port = refl;
  idle_seconds = refl;
  cold_start_seconds = refl;
  token_file = refl;
  ca_file = refl;
}

pod_settings-InRange : InRange pod_settings
pod_settings-InRange = record {
  postgres_port = tt;
  flight_port = omega arith;
  control_port = omega arith;
  idle_seconds = omega arith;
  cold_start_seconds = omega arith;
}

from_env-Sets_example : from_env pod_environment [] ≡ (config_of pod_settings "ca", [])
from_env-Sets_example =
    from_env-Sets pod_environment pod_settings "ca" [] pod_environment-Sets pod_settings-InRange
      refl

abbrev pod_config : Config
pod_config = record {
  namespace = "test";
  deployment = "worker";
  selector = "worker=test";
  hostname = "localhost";
  control_port = 4091;
  idle_timeout = 600000;
  cold_start_timeout = 180000;
  token_file = "/token";
  ca = "ca";
  listeners = 31337 ∷ [];
}

-- A sign is accepted; a number that does not fit, and a text without digits, are not.
parsed_port : parse_uint 16 "+5432" ≡ some 5432
unfolding parse_uint
parsed_port = refl

parsed_large : parse_uint 16 "65536" ≡ none
unfolding parse_uint
parsed_large = refl

parsed_empty : parse_uint 16 "+" ≡ none
unfolding parse_uint
parsed_empty = refl

from_env-Bounded_example : Bounded pod_config
unfolding from_env parse_uint read_certificate
from_env-Bounded_example = from_env-Bounded pod_environment [] [] pod_config refl
