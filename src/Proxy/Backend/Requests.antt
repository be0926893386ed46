-- ===== src/Proxy/Backend/Requests.antt =====
-- Each call of a worker's control endpoint is one request.
use duckflight_extension.Common.{
  String, Bool, true, false, Option, none, some, ◌≡◌, ◌≢◌, refl, arith, if◌then◌else◌,
}
use duckflight_extension.Proxy.Json.{Json}
use duckflight_extension.Proxy.World.{
  external, message, pure, raise, Backend, Call, get_status, suspend, resume, Reply, failed,
  not_json, replied, Trace, Environment, json_body, build_client,
}
use duckflight_extension.Proxy.World.Requests.{
  IsReply, Reads, rejects, accepts, Asked-bind, Asked-send,
}
use duckflight_extension.Proxy.Hoare.{Asked, Body, IsSilent}
use duckflight_extension.Proxy.Config.{Config}
use duckflight_extension.Proxy.Backend.{
  IdleStatus, deserialize, build, request, checked, read_status, status, resume_permit, from_pod,
}

abbrev pub IsStatus : Json → IdleStatus → Type 0
IsStatus j status = deserialize j ≡ some status

-- Any reply that has not failed.
abbrev pub IsAnything : Reply → Unit {0} → Type 0
IsAnything reply done = reply ≢ failed

abbrev pub status_call : Backend → Bool → Call
status_call b suspending = if suspending then suspend b else get_status b

module _ (env : Environment) (self : Backend) where
  Reads-supported :
      (j : Json) (s : IdleStatus) (b : Bool)
      → deserialize j ≡ some s
      → (t : Trace)
      → Reads
          (Body IsStatus)
          (replied j)
          t
          ((if b then pure s else raise (message "unsupported idle-control capability")) t)
  Reads-supported j s true e t = accepts s e
  Reads-supported j s false e t = rejects _

  Reads-checked :
      (j : Json) (o : Option IdleStatus)
      → deserialize j ≡ o
      → (t : Trace) → Reads (Body IsStatus) (replied j) t (checked env self o t)
  unfolding checked
  Reads-checked j none e t = rejects external
  Reads-checked j (some s) e t = Reads-supported j s _ e t

  Reads-read_status :
      (b reply : Reply)
      → IsReply reply b
      → (t : Trace) → Reads (Body IsStatus) reply t (read_status env self b t)
  unfolding read_status json_body
  Reads-read_status failed reply e t = rejects external
  Reads-read_status not_json reply e t = rejects external
  Reads-read_status (replied j) reply e t = rw e.0 (Reads-checked j _ refl t)

  pub Asked-status :
      (suspending : Bool) (config : Config) (t : Trace)
      → Asked (status_call self suspending) (Body IsStatus) t (status env self suspending config t)
  unfolding status request build
  Asked-status suspending config t =
      Asked-bind t Reads-read_status (Asked-send env (build env self _ _ _) (λ token. refl) _ t)

  pub Asked-resume :
      (permit : String) (config : Config) (t : Trace)
      → Asked (resume self permit) IsAnything t (resume_permit env self permit config t)
  unfolding resume_permit request build
  Asked-resume permit config t =
      Asked-bind t (λ b reply e t. accepts tt e.1)
        (Asked-send env (build env self _ _ _) (λ token. refl) _ t)

pub from_pod-IsSilent :
    (env : Environment) (pod : Json) (config : Config) → IsSilent (from_pod env pod config)
unfolding from_pod build_client
from_pod-IsSilent env pod config t = ground arith
