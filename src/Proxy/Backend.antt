-- ===== src/Proxy/Backend.antt =====
-- `Backend`, `IdleStatus` and `ready` of crates/duckflight-idle-proxy/src/main.rs: a worker pod and
-- its control endpoint.
pub mod Requests
use text.Mathlib.Text.{◌==◌ as str_eq}
use duckflight_extension.Common.{
  ℕ, ◌^◌, String, ◌<>◌, Bool, true, false, not, ◌&&◌, ◌||◌, Option, none, some, List, [], ◌∷◌, ltb,
  ◌==◌, if◌then◌else◌,
}
use duckflight_extension.Proxy.Text.{decimal}
use duckflight_extension.Proxy.Json.{
  Json, null, array, object, nil, item, index, is_null, as_str, as_bool, as_u64, as_array, is_text,
}
use duckflight_extension.Proxy.World.{
  external, missing, message, ◌>>=◌, ◌>>◌, pure, raise, from_option, Method, Backend, Call,
  get_status, suspend, resume, Request, Reply, Environment, Io, send_with_token, build_client,
  json_body,
}
use duckflight_extension.Proxy.Config.{Config}

pub record IdleStatus : Type 0 where
  pub protocol_version : ℕ
  pub boot_id : String
  pub ready : Bool
  pub busy : Bool
  pub permit : Option String

-- The derived `Deserialize`: a missing or null permit is `None`, unknown fields are skipped, and an
-- array of the five values in order is read too.
abbrev u32_of : Json → Option ℕ
u32_of v = elim (as_u64 v) [ none ↦ none | some n ↦ if ltb n (2 ^ 32) then some n else none ]

abbrev permit_of : Json → Option (Option String)
permit_of null = some none
permit_of v = elim (as_str v) [ none ↦ none | some s ↦ some (some s) ]

abbrev status_of : Json → Json → Json → Json → Json → Option IdleStatus
status_of version boot ready busy permit = elim (u32_of version) [
  | none ↦ none
  | some version ↦ elim (as_str boot) [
    | none ↦ none
    | some boot ↦ elim (as_bool ready) [
      | none ↦ none
      | some ready ↦ elim (as_bool busy) [
        | none ↦ none
        | some busy ↦ elim (permit_of permit) [
          | none ↦ none
          | some permit ↦ some (record {
            protocol_version = version;
            boot_id = boot;
            ready = ready;
            busy = busy;
            permit = permit;
          })
        ]
      ]
    ]
  ]
]

unfoldable pub deserialize : Json → Option IdleStatus
deserialize (object fields) =
    status_of (index (object fields) "protocol_version") (index (object fields) "boot_id")
      (index (object fields) "ready") (index (object fields) "busy")
      (index (object fields) "permit")
deserialize (array (item version (item boot (item ready (item busy (item permit nil)))))) =
    status_of version boot ready busy permit
deserialize _ = none

unfoldable pub ready_condition : List Json → Bool
ready_condition [] = false
ready_condition (condition ∷ conditions) =
    (is_text (index condition "type") "Ready" && is_text (index condition "status") "True")
    || ready_condition conditions

unfoldable pub is_some_and : Option (List Json) → Bool
is_some_and none = false
is_some_and (some conditions) = ready_condition conditions

-- `fn ready`
unfoldable pub is_ready : Json → Bool
unfolding is_some_and ready_condition
is_ready pod =
    is_null (index (index pod "metadata") "deletionTimestamp")
    && is_some_and (as_array (index (index pod "status") "conditions"))

module _ (env : Environment) where
  unfoldable pub from_pod : Json → Config → Io Backend
  from_pod pod config = do
    text ← from_option (missing "missing pod IP") (as_str (index (index pod "status") "podIP"))
    ip ← from_option external (env.parse_ip text)
    uid ← from_option (missing "missing pod UID") (as_str (index (index pod "metadata") "uid"))
    control ← build_client env (record {
      root_certificate = config.ca;
      https_only = true;
      resolve = some (config.hostname, ip, config.control_port);
      timeout = 10000;
    })
    pure (record {
      uid = uid;
      ip = ip;
      control = control;
      url = "https://" <> config.hostname <> ":" <> decimal config.control_port;
    })

  module _ (self : Backend) where
    unfoldable pub build : Call → Method → String → String → Request
    build call method path token = record {
      call = call;
      method = method;
      url = self.url <> path;
      query = [];
      client = self.control;
      token = token;
    }

    unfoldable pub request : Call → Method → String → Config → Io Reply
    request call method path config = send_with_token env config.token_file (build call method path)

    unfoldable pub supported : IdleStatus → Bool
    supported status = status.protocol_version == 1 && not (str_eq status.boot_id "")

    unfoldable pub checked : Option IdleStatus → Io IdleStatus
    checked none = raise external
    checked (some status) =
        if supported status
        then pure status
        else raise (message "unsupported idle-control capability")

    unfoldable pub read_status : Reply → Io IdleStatus
    read_status reply = do body ← json_body reply; checked (deserialize body)

    unfoldable pub status : Bool → Config → Io IdleStatus
    status suspending config = do
      reply ←
          request (if suspending then suspend self else get_status self)
            (if suspending then Method.post else Method.get)
            (if suspending then "/suspend" else "/status") config
      read_status reply

    unfoldable pub resume_permit : String → Config → Io (Unit {0})
    resume_permit permit config = do
      request (resume self permit) Method.post ("/resume/" <> permit) config
      pure tt
