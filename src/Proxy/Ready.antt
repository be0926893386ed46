-- ===== src/Proxy/Ready.antt =====
-- `worker_ready` of crates/duckflight-idle-proxy/src/main.rs: the readiness probe that runs beside a
-- worker, as another command of the same binary.
pub mod Probed
pub mod Examples
use duckflight_extension.Common.{
  ℕ, String, ◌<>◌, Bool, true, false, not, ◌||◌, Option, none, some, List, ◌∷◌, ◌==◌, if◌then◌else◌,
}
use duckflight_extension.Proxy.Text.{trim, decimal}
use duckflight_extension.Proxy.Json.{Json}
use duckflight_extension.Proxy.World.{
  ok, external, message, Act, ◌>>=◌, pure, raise, from_option, IpAddr, Certificate, Client, Reply,
  not_json, replied, failed,
}
use duckflight_extension.Proxy.Backend.{IdleStatus, deserialize}

-- A `GET` with its bearer token.
pub record Probe : Type 0 where
  pub url : String
  pub client : Client
  pub token : String

-- What the probe asks of its container: variables, files, and the answer to its request.
pub record Host : Type 0 where
  pub variable : String → Option String
  pub parse_socket_addr : String → Option (IpAddr × ℕ)
  pub read_to_string : String → Option String
  pub certificate : String → Option Certificate
  pub can_build : Client → Bool
  pub answer : Probe → Reply

-- The requests that were sent, the latest first.
abbrev pub Probing : Type 0 → Type 0
Probing = Act (List Probe)

abbrev pub local_client : Certificate → String → ℕ → Client
local_client ca hostname port = record {
  root_certificate = ca;
  https_only = true;
  resolve = some (hostname, "127.0.0.1", port);
  timeout = 2000;
}

abbrev pub probe_of : String → ℕ → Client → String → Probe
probe_of hostname port client token = record {
  url = "https://" <> hostname <> ":" <> decimal port <> "/status";
  client = client;
  token = trim token;
}

-- `.error_for_status()?.json().await?`
abbrev pub body_of : Reply → Option Json
body_of (replied body) = some body
body_of not_json = none
body_of failed = none

abbrev pub parsed_body : Option Json → Option IdleStatus
parsed_body none = none
parsed_body (some body) = deserialize body

unfoldable pub check_ready : IdleStatus → Probing (Unit {0})
check_ready status =
    if not (status.protocol_version == 1) || not status.ready
    then raise (message "idle-capable listeners are not ready")
    else pure tt

module _ (host : Host) where
  abbrev pub built : Client → Option Client
  built client = if host.can_build client then some client else none

  abbrev pub send_probe : Probe → Probing Reply
  send_probe probe sent = (ok (host.answer probe), probe ∷ sent)

  abbrev pub and_read : Option String → Option String
  and_read none = none
  and_read (some path) = host.read_to_string path

  abbrev pub and_parse : Option String → Option (IpAddr × ℕ)
  and_parse none = none
  and_parse (some text) = host.parse_socket_addr text

  unfoldable pub worker_ready : Probing (Unit {0})
  unfolding check_ready
  worker_ready = do
    (ip, port) ← from_option external (and_parse (host.variable "DUCKFLIGHT_IDLE_CONTROL_ADDRESS"))
    hostname ← from_option external (host.variable "DUCKFLIGHT_IDLE_SERVER_NAME")
    ca ← from_option external (host.certificate "/run/idle-secret/ca.crt")
    client ← from_option external (built (local_client ca hostname port))
    token ← from_option external (and_read (host.variable "DUCKFLIGHT_IDLE_TOKEN_FILE"))
    reply ← send_probe (probe_of hostname port client token)
    status ← from_option external (parsed_body (body_of reply))
    check_ready status
