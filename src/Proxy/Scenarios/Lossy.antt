-- ===== src/Proxy/Scenarios/Lossy.antt =====
-- A run of crates/duckflight-idle-proxy/src/main.rs against an API server that numbers its versions and loses the
-- write that puts the worker to sleep.
use mathlib.Core.List.{Memᴰ}
use duckflight_extension.Common.{
  ℕ, ◌+◌, String, Bool, true, false, Option, none, some, [], ◌∷◌, ◌≡◌, refl, inl, inr, ◌⊎◌,
}
use duckflight_extension.Proxy.Text.{decimal}
use duckflight_extension.Proxy.Json.{Json, null, string, array, item, nil, as_u64, is_text}
use duckflight_extension.Proxy.World.{
  ok, Result, Call, read_deployment, patch_deployment, list_pods, get_status, suspend, resume,
  Request, Reply, failed, not_json, replied, Event, sent, clock, drew, slept, opened, closed, Trace,
  Environment,
}
use duckflight_extension.Proxy.Config.{Config}
use duckflight_extension.Proxy.Controller
use duckflight_extension.Proxy.Controller.{Controller, replicas_of}
use duckflight_extension.Proxy.Controller.Idle.{tick}
use duckflight_extension.Proxy.Safety.{initial, resume-late_writes}
use duckflight_extension.Proxy.Sessions.{System, Reach, here, next, idle}
use duckflight_extension.Proxy.ApiServer.{
  ApiServer, is_used, next_version, resource_version, accepts, wait_for, Answered, reads,
  read_failed, read_not_json, writes, write_failed, write_not_json, lists, worker_status,
  worker_suspend, worker_resume, Logged, request, reads_clock, draws, sleeps, opens, closes,
  History, began, logged, now,
}
use duckflight_extension.Proxy.Scenarios.{
  world, config, first, worker_deployment, worker_pod, idle_status, one, new_proxy, run_log,
}
use duckflight_extension.Proxy.Scenarios.Logs.{
  request_of, reply_of, body_of, backend_of, take, drop, is_request, is_patch, split_at, is_resume,
  permit_of_call, resumed_of,
}

-- The writes that were answered.
answered : Trace → ℕ
answered [] = 0
answered (sent r reply ∷ t) = settle r.call reply (answered t)
  where
    settle : Call → Reply → ℕ → ℕ
    settle (patch_deployment body) (replied j) n = n + 1
    settle call reply n = n
answered (event ∷ t) = answered t

abbrev lose_scaling : Option ℕ → Reply
lose_scaling none = replied null
lose_scaling (some n) = failed

abbrev answer_lossy : Trace → Call → Reply
answer_lossy t read_deployment = replied (worker_deployment (decimal (answered t)) 1)
answer_lossy t (patch_deployment body) = lose_scaling (as_u64 (replicas_of body))
answer_lossy t list_pods = replied (one "items" (array (item worker_pod nil)))
answer_lossy t (get_status b) = replied (idle_status null)
answer_lossy t (suspend b) = replied (idle_status (string "permit-one"))
answer_lossy t (resume b permit) = not_json

abbrev lossy_world : Environment
lossy_world = record world { answer = λ t r. answer_lossy t r.call }

-- The worker is asked to suspend by the first tick that finds it idle.
abbrev eager : Config
eager = record config { idle_timeout = 0 }

lossy_proxy : Result Controller × Trace
unfolding new_proxy worker_deployment decimal answered
lossy_proxy = Controller.new lossy_world eager []

abbrev lossy_first : Controller
lossy_first = record first { config = eager }

lossy_log : Trace
unfolding lossy_proxy
lossy_log = lossy_proxy.1

lossy_proxy-first : Controller.new lossy_world eager [] ≡ (ok lossy_first, lossy_log)
unfolding lossy_proxy lossy_log
lossy_proxy-first = refl

-- The server's history along a log in which every answered write makes the next number the version, and
-- no write without an answer is carried out.
abbrev Known : Trace → Type 0
Known t = (s : ApiServer) × History t s

abbrev ReplyOf : Call → Reply → ApiServer → Type 0
ReplyOf c reply s = (s' : ApiServer) × Answered s c reply s'

test : (b : Bool) → (b ≡ true) ⊎ (b ≡ false)
test true = inl refl
test false = inr refl

read_by : (j : Json) (s : ApiServer) → Option (ReplyOf read_deployment (replied j) s)
unfolding test
read_by j s = elim (test (is_text (resource_version j) s.version)) [
  | inl e ↦ some (s, reads j e)
  | inr e ↦ none
]

written_as :
    (body j : Json) (v : String) (s : ApiServer)
    → Option (ReplyOf (patch_deployment body) (replied j) s)
unfolding test
written_as body j v s = elim (test (accepts body s)) [
  | inl ok_now ↦ elim (test (is_used v s)) [
    | inl used ↦ none
    | inr new ↦ some (next_version v s, writes body j v ok_now new)
  ]
  | inr refused ↦ none
]

answer_by : String → (c : Call) (reply : Reply) (s : ApiServer) → Option (ReplyOf c reply s)
unfolding read_by written_as
answer_by v read_deployment (replied j) s = read_by j s
answer_by v read_deployment failed s = some (s, read_failed)
answer_by v read_deployment not_json s = some (s, read_not_json)
answer_by v (patch_deployment body) (replied j) s = written_as body j v s
answer_by v (patch_deployment body) failed s = some (wait_for body s, write_failed body)
answer_by v (patch_deployment body) not_json s = some (wait_for body s, write_not_json body)
answer_by v list_pods reply s = some (s, lists reply)
answer_by v (get_status b) reply s = some (s, worker_status b reply)
answer_by v (suspend b) reply s = some (s, worker_suspend b reply)
answer_by v (resume b permit) reply s = some (s, worker_resume b permit reply)

event_by : String → (e : Event) (s : ApiServer) → Option ((s' : ApiServer) × Logged s e s')
unfolding answer_by
event_by v (sent r reply) s = elim (answer_by v r.call reply s) [
  | none ↦ none
  | some (s', a) ↦ some (s', request r reply a)
]
event_by v (clock n) s = some (s, reads_clock n)
event_by v (drew u) s = some (s, draws u)
event_by v (slept d) s = some (s, sleeps d)
event_by v opened s = some (s, opens)
event_by v closed s = some (s, closes)

abbrev first_server : ApiServer
first_server = record { version = "0"; past = []; late = [] }

replay : (t : Trace) → Option (Known t)
unfolding event_by answered decimal
replay [] = some (first_server, began first_server refl refl)
replay (e ∷ t) = elim (replay t) [
  | none ↦ none
  | some (s, h) ↦ elim (event_by (decimal (answered (e ∷ t))) e s) [
    | none ↦ none
    | some (s', l) ↦ some (s', logged h l)
  ]
]

abbrev lossy_start : System
lossy_start = initial lossy_first lossy_log

-- The tick loses the write, fences, and resumes the worker.
recovered : System
recovered = record lossy_start { state = tick lossy_world lossy_start.state }

abbrev lossy_trace : Trace
lossy_trace = recovered.state.trace

recovers :
    (is_request (drop 0 lossy_trace) ≡ true)
    × (is_resume (request_of (drop 0 lossy_trace)).call ≡ true)
    × (is_patch (request_of (drop 5 lossy_trace)).call ≡ true)
unfolding run_log worker_deployment recovered lossy_log lossy_proxy drop is_request is_resume
    is_patch
recovers = (refl, refl, refl)

abbrev resume_request : Request
resume_request = request_of (drop 0 lossy_trace)

abbrev before_resume : Trace
before_resume = drop 1 lossy_trace

abbrev lost_body : Json
lost_body = body_of (request_of (drop 5 lossy_trace)).call

abbrev is_known : {A : Type 0} → Option A → Bool
is_known none = false
is_known (some a) = true

known : {A : Type 0} (o : Option A) → is_known o ≡ true → A
known none h = absurd cc
known (some a) h = a

replays : is_known (replay before_resume) ≡ true
unfolding run_log worker_deployment recovered lossy_log lossy_proxy drop replay
replays = refl

the_history : Known before_resume
unfolding known
the_history = known (replay before_resume) replays

lost : Memᴰ lost_body the_history.0.late
unfolding run_log worker_deployment recovered lossy_log lossy_proxy drop replay the_history
lost = Memᴰ.head refl

lossy_run : Reach lossy_world lossy_start recovered
unfolding recovered
lossy_run = next here idle

-- The write that puts the worker to sleep, which got no answer before the worker was resumed.
resume-late_writes_example : accepts lost_body the_history.0 ≡ false
resume-late_writes_example =
    resume-late_writes lossy_world eager lossy_proxy-first lossy_run (take 0 lossy_trace)
      before_resume resume_request (reply_of (drop 0 lossy_trace))
      (split_at 0 lossy_trace recovers.0) (backend_of resume_request.call)
      (permit_of_call resume_request.call) (resumed_of resume_request.call recovers.1) the_history.1
      now lost_body lost
