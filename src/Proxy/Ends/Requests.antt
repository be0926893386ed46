-- ===== src/Proxy/Ends/Requests.antt =====
-- The requests of crates/duckflight-idle-proxy/src/main.rs come to an end, and the clock does not go back
-- while they run.
use duckflight_extension.Common.{
  ℕ, ◌+◌, ◌≤◌, String, Bool, true, false, if◌then◌else◌, Option, none, some, List, [], ◌∷◌, ◌≢◌,
  arith,
}
use duckflight_extension.Proxy.Text.{trim}
use duckflight_extension.Proxy.Json.{Json, as_str, index}
use duckflight_extension.Proxy.World.{
  external, aborted, missing, message, from_option, out_of_fuel, ok, err, Backend, Method, Client,
  Call, Request, Reply, failed, not_json, replied, sent, clock, drew, slept, opened, closed, Trace,
  Environment, Io, read_file, send, send_with_token, error_for_status, json_body, new_v4,
  instant_now, sleep, build_client,
}
use duckflight_extension.Proxy.Config.{Config}
use duckflight_extension.Proxy.Kubernetes
use duckflight_extension.Proxy.Kubernetes.{Kubernetes, deployment, patch, pods}
use duckflight_extension.Proxy.Backend
use duckflight_extension.Proxy.Backend.{
  deserialize, from_pod, checked, read_status, status, resume_permit, IdleStatus,
}
use duckflight_extension.Proxy.Ends.{
  Outcome, Ends, Ends-pure, Ends-raise, Ends-from_option, Ends-if, Ends-bind,
}

-- The earliest time that it can be: the last reading of the clock, and all sleeps since.
abbrev pub clock_floor : Trace → ℕ
clock_floor [] = 0
clock_floor (clock n ∷ t) = n
clock_floor (slept d ∷ t) = clock_floor t + d
clock_floor (sent r reply ∷ t) = clock_floor t
clock_floor (drew u ∷ t) = clock_floor t
clock_floor (opened ∷ t) = clock_floor t
clock_floor (closed ∷ t) = clock_floor t

abbrev pub After : ℕ → Trace → Type 0
After n t = n ≤ clock_floor t

aborted-ne : aborted ≢ out_of_fuel
aborted-ne e = cc

external-ne : external ≢ out_of_fuel
external-ne e = cc

pub message-ne : (text : String) → message text ≢ out_of_fuel
message-ne text e = cc

missing-ne : (text : String) → missing text ≢ out_of_fuel
missing-ne text e = cc

module _ (env : Environment) (n : ℕ) where
  abbrev Quietly : {A : Type 0} → Io A → Type 0
  Quietly m = Ends (After n) m (λ _. After n)

  pub Ends-new_v4 : Quietly (new_v4 env)
  unfolding new_v4
  Ends-new_v4 = record { at = λ t h. h }

  Ends-send : (r : Request) → Quietly (send env r)
  unfolding send
  Ends-send r = record {
    at = λ t h. unless (env.aborts t) t (env.answer t r) h (replied_to t (env.answer t r) h);
  }
    where
      unless :
          (b : Bool) (t : Trace) (reply : Reply)
          → After n t
          → Outcome (λ (_ : Reply). After n) (error_for_status reply, sent r reply ∷ t)
          → Outcome
              (λ (_ : Reply). After n)
              (if b
                then (err aborted, sent r failed ∷ t)
                else (error_for_status reply, sent r reply ∷ t))
      unless true t reply h h' = aborted-ne
      unless false t reply h h' = h'

      replied_to :
          (t : Trace) (reply : Reply)
          → After n t
          → Outcome (λ (_ : Reply). After n) (error_for_status reply, sent r reply ∷ t)
      replied_to t failed h = external-ne
      replied_to t not_json h = h
      replied_to t (replied j) h = h

  Ends-read :
      {A : Type 0} (look : Trace → Option A) → Quietly (λ t. from_option external (look t) t)
  Ends-read look = record { at = λ t h. (Ends-from_option external (look t) external-ne).at t h }

  Ends-send_with_token :
      (path : String) (build : String → Request) → Quietly (send_with_token env path build)
  unfolding send_with_token read_file
  Ends-send_with_token path build =
      Ends-bind (Ends-read (λ t. env.read_to_string t path)) λ token. Ends-send (build (trim token))

  Ends-json_body : (reply : Reply) → Quietly (json_body reply)
  unfolding json_body
  Ends-json_body failed = record { at = λ t h. external-ne }
  Ends-json_body not_json = record { at = λ t h. external-ne }
  Ends-json_body (replied j) = record { at = λ t h. h }

  Ends-request :
      (kube : Kubernetes) (call : Call) (method : Method) (path : String)
      (query : List (String × String))
      → Quietly (Kubernetes.request env kube call method path query)
  unfolding Kubernetes.request
  Ends-request kube call method path query =
      Ends-bind
        (Ends-send_with_token kube.token_file (Kubernetes.build env kube call method path query))
        Ends-json_body

  pub Ends-deployment : (kube : Kubernetes) → Quietly (deployment env kube)
  unfolding deployment
  Ends-deployment kube = Ends-request kube _ _ _ _

  pub Ends-patch :
      (kube : Kubernetes) (current : Json) (owner operation : String) (replicas : Option ℕ)
      → Quietly (patch env kube current owner operation replicas)
  unfolding patch
  Ends-patch kube current owner operation replicas = Ends-request kube _ _ _ _

  pub Ends-pods : (kube : Kubernetes) → Quietly (pods env kube)
  unfolding pods
  Ends-pods kube =
      Ends-bind (Ends-request kube _ _ _ _) λ result. Ends-from_option _ _ (missing-ne _)

  Ends-checked : (b : Backend) (o : Option IdleStatus) → Quietly (checked env b o)
  unfolding checked
  Ends-checked b none = Ends-raise _ external-ne
  Ends-checked b (some status) =
      Ends-if (Backend.supported env b status) (λ e. Ends-pure status (λ s h. h))
        λ e. Ends-raise _ (message-ne _)

  pub Ends-status :
      (b : Backend) (suspending : Bool) (config : Config) → Quietly (status env b suspending config)
  unfolding status read_status Backend.request
  Ends-status b suspending config =
      Ends-bind (Ends-send_with_token config.token_file _)
        λ reply. Ends-bind (Ends-json_body reply) λ body. Ends-checked b (deserialize body)

  pub Ends-resume :
      (b : Backend) (permit : String) (config : Config)
      → Quietly (resume_permit env b permit config)
  unfolding resume_permit Backend.request
  Ends-resume b permit config =
      Ends-bind (Ends-send_with_token config.token_file _) λ reply. Ends-pure tt (λ s h. h)

  Ends-build_client : (c : Client) → Quietly (build_client env c)
  unfolding build_client
  Ends-build_client c = record { at = λ t h. built t (env.can_build c) h }
    where
      built :
          (t : Trace) (can : Bool)
          → After n t
          → Outcome
              (λ (_ : Client). After n)
              (elim can [ true ↦ (ok c, t) | false ↦ (err external, t) ])
      built t true h = h
      built t false h = external-ne

  pub Ends-from_pod : (pod : Json) (config : Config) → Quietly (from_pod env pod config)
  unfolding from_pod
  Ends-from_pod pod config =
      Ends-bind
        (Ends-from_option (missing "missing pod IP") (as_str (index (index pod "status") "podIP"))
          (missing-ne _))
        λ text. Ends-bind (Ends-from_option external (env.parse_ip text) external-ne) λ ip.
          Ends-bind
            (Ends-from_option (missing "missing pod UID")
              (as_str (index (index pod "metadata") "uid")) (missing-ne _))
            λ uid. Ends-bind (Ends-build_client _) λ control. Ends-pure _ (λ s h. h)

-- `Instant` never goes back, and `sleep` takes at least as long as it is asked to.
abbrev pub ClockLaw : Environment → Type 0
ClockLaw env = (t : Trace) → clock_floor t ≤ env.now t

-- A reading of the clock is no earlier than what the log already shows.
pub Ends-instant_now :
    (env : Environment)
    → ClockLaw env
    → (n : ℕ) → Ends (After n) (instant_now env) (λ now t. (n ≤ now) × After now t)
unfolding instant_now
Ends-instant_now env law n = record { at = λ t h. omega (arith, law t) }

pub Ends-sleep : (d n : ℕ) → Ends (After n) (sleep d) (λ _. After (n + d))
unfolding sleep
Ends-sleep d n = record { at = λ t h. omega arith }
