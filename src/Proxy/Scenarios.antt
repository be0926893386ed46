-- ===== src/Proxy/Scenarios.antt =====
-- The proxy in a concrete environment, as crates/duckflight-idle-proxy/src/tests.rs sets one up,
-- and its runs there.
mod Logs
mod Examples
mod Lossy
mod Draining
mod Configured
mod Aborted
use duckflight_extension.Common.{
  ℕ, zero, suc, ◌+◌, ◌*◌, ◌-◌, String, Bool, true, false, Option, none, some, [], ◌∷◌, ◌++◌, ◌≡◌,
  refl, ap, arith,
}
use duckflight_extension.Proxy.Text.{
  is_whitespace, trim_start, is_empty, trim_end, trim, has_colon, decimal,
}
use duckflight_extension.Proxy.Json.{
  Json, null, boolean, number, pos_int, string, array, object, nil, item, end, field, as_u64,
}
use duckflight_extension.Proxy.World.{
  ok, Result, Backend, Method, Call, read_deployment, patch_deployment, list_pods, get_status,
  suspend, resume, Request, Reply, not_json, replied, sent, clock, drew, slept, opened, closed,
  Trace, Environment, read_file, send, send_with_token, sleep, instant_now, new_v4,
  read_certificate, build_client, json_body,
}
use duckflight_extension.Proxy.Config.{Config}
use duckflight_extension.Proxy.Kubernetes
use duckflight_extension.Proxy.Kubernetes.{
  or_default, bracketed, deployment, patch, pods, owner_annotation,
}
use duckflight_extension.Proxy.Backend
use duckflight_extension.Proxy.Backend.{
  deserialize, ready_condition, is_some_and, is_ready, from_pod, supported, checked, read_status,
  status, resume_permit,
}
use duckflight_extension.Proxy.Controller
use duckflight_extension.Proxy.Controller.{
  Controller, State, replicas_of, forget_idle, identity_check, current_deployment, write, fence,
  scale, fence_if_needed, filter_ready, first_backend, single_pod, ready_backend, started, fenced,
}
use duckflight_extension.Proxy.Controller.Wake.{
  resume_if, wake_worker, start_worker, wake_replicas, wake_round, wake_next, wake_loop, wake,
}
use duckflight_extension.Proxy.Controller.Idle.{
  asleep, put_to_sleep, suspend_worker, begin_interval, idle_interval, idle_worker, observed_worker,
  found_worker, read_replicas, unpinned, idle_tick, handled, tick,
}
use duckflight_extension.Proxy.Safety.{
  initial, write_is_conditional, sleep_is_granted, start_is_alone, suspend_is_due, resume-IsSettled,
  connections_are_counted,
}
use duckflight_extension.Proxy.Evidence.{
  open_count, last_read, IsSettled, SleepAllowed, StartAllowed, WriteAllowed, SuspendAllowed,
}
use duckflight_extension.Proxy.Sessions.{
  woken, open_connection, accepted, close_connection, System, Reach, here, next, accept, finish,
  idle,
}

-- The replicas that the last write asked for; none at first.
asked : Option ℕ → ℕ → ℕ
asked none before = before
asked (some n) before = n

replicas_after : Call → ℕ → ℕ
replicas_after (patch_deployment body) before = asked (as_u64 (replicas_of body)) before
replicas_after call before = before

replicas : Trace → ℕ
replicas [] = 0
replicas (sent r reply ∷ t) = replicas_after r.call (replicas t)
replicas (event ∷ t) = replicas t

clocks : Trace → ℕ
clocks [] = 0
clocks (clock n ∷ t) = clocks t + 1
clocks (event ∷ t) = clocks t

abbrev pair : String → Json → String → Json → Json
pair k v l w = object (field k v (field l w end))

abbrev one : String → Json → Json
one k v = object (field k v end)

unfoldable pub worker_deployment : String → ℕ → Json
worker_deployment version n =
    pair "metadata"
      (object (
        field "uid" (string "deployment-one") (
          field "resourceVersion" (string version)
            (field "annotations" (one owner_annotation (string "uuid")) end))))
      "spec" (one "replicas" (number (pos_int n)))

abbrev worker_pod : Json
worker_pod = pair "metadata" (one "uid" (string "worker-one")) "status" (
    pair "podIP" (string "127.0.0.1") "conditions"
      (array (item (pair "type" (string "Ready") "status" (string "True")) nil)))

abbrev idle_status : Json → Json
idle_status permit = object (
    field "protocol_version" (number (pos_int 1)) (
      field "boot_id" (string "boot-one")
        (field "ready" (boolean true) (field "busy" (boolean false) (field "permit" permit end)))))

-- `shown` is the permit in the answers of the worker.
answer_call : Json → ℕ → Call → Reply
answer_call shown n read_deployment = replied (worker_deployment "1" n)
answer_call shown n (patch_deployment body) = replied null
answer_call shown zero list_pods = replied (one "items" (array nil))
answer_call shown (suc n) list_pods = replied (one "items" (array (item worker_pod nil)))
answer_call shown n (get_status b) = replied (idle_status shown)
answer_call shown n (suspend b) = replied (idle_status (string "permit-one"))
answer_call shown n (resume b permit) = not_json

-- Every answer is that of an idle worker, and the clock moves on by a second with each reading.
abbrev world_showing : Json → Environment
world_showing shown = record {
  answer = λ t r. answer_call shown (replicas t) r.call;
  now = λ t. clocks t * 1000;
  new_uuid = λ t. "uuid";
  variable = λ name. some "10.0.0.1";
  read_to_string = λ t path. some "token";
  certificate = λ t path. some "ca";
  parse_ip = λ text. some text;
  can_build = λ client. true;
  aborts = λ t. false;
}

abbrev world : Environment
world = world_showing null

-- The worker was suspended, and nobody has resumed it.
abbrev suspended_world : Environment
suspended_world = world_showing (string "permit-one")

abbrev config : Config
config = record {
  namespace = "test";
  deployment = "worker";
  selector = "worker=test";
  hostname = "localhost";
  control_port = 4091;
  idle_timeout = 2000;
  cold_start_timeout = 5000;
  token_file = "/token";
  ca = "ca";
  listeners = [];
}

new_proxy : Result Controller × Trace
unfolding Controller.new started fenced fence write current_deployment identity_check Kubernetes.new
    or_default bracketed has_colon deployment patch Kubernetes.request Kubernetes.build
    send_with_token read_file send trim trim_start trim_end is_whitespace is_empty json_body
    read_certificate build_client new_v4 replicas replicas_after asked clocks worker_deployment
    answer_call
new_proxy = Controller.new world config []

-- The controller that `new` returns here.
abbrev first : Controller
first = record {
  config = config;
  kube = record {
    client = record {
      root_certificate = "ca";
      https_only = false;
      resolve = none;
      timeout = 15000;
    };
    base = "https://10.0.0.1:10.0.0.1";
    token_file = "/var/run/secrets/kubernetes.io/serviceaccount/token";
    deployment_path = "/apis/apps/v1/namespaces/test/deployments/worker";
    pods_path = "/api/v1/namespaces/test/pods";
    selector = "worker=test";
  };
  owner = "uuid";
  uid = "deployment-one";
  needs_fence = false;
  connections = 0;
  idle_since = none;
}

abbrev first_log : Trace
first_log = new_proxy.1

new_proxy-first : Controller.new world config [] ≡ (ok first, first_log)
unfolding new_proxy
new_proxy-first = refl

abbrev start : System
start = initial first first_log

-- A connection wakes the worker and is closed; the first tick begins an idle interval, and the second
-- one puts the worker to sleep.
abbrev awake : System
awake = accepted start (open_connection world 5 start.state)

abbrev ended : System
ended = record { state = close_connection awake.state; sessions = awake.sessions - 1 }

abbrev observed : System
observed = record ended { state = tick world ended.state }

abbrev slept_system : System
slept_system = record observed { state = tick world observed.state }

abbrev resumed : System
resumed = accepted start (open_connection suspended_world 5 start.state)

-- Its line names all that a run computes with.
run_log : Trace
unfolding new_proxy open_connection woken accepted close_connection tick handled idle_tick unpinned
    read_replicas found_worker observed_worker idle_worker idle_interval begin_interval
    suspend_worker put_to_sleep asleep wake wake_loop wake_next wake_round wake_replicas
    start_worker wake_worker resume_if ready_backend single_pod first_backend filter_ready
    fence_if_needed scale forget_idle pods status resume_permit Backend.request Backend.build
    supported checked read_status deserialize is_ready ready_condition is_some_and from_pod decimal
    sleep instant_now
run_log = slept_system.state.trace
