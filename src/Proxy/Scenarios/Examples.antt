-- ===== src/Proxy/Scenarios/Examples.antt =====
-- The theorems on crates/duckflight-idle-proxy/src/main.rs at the runs of the concrete environment.
use duckflight_extension.Common.{ℕ, ◌+◌, ◌≤◌, ◌≢◌, true, some, [], ◌≡◌, refl, arith}
use duckflight_extension.Proxy.Json.{Json, as_u64}
use duckflight_extension.Proxy.World.{
  ok, err, out_of_fuel, failed, Backend, Environment, Call, Request, Reply, Trace,
}
use duckflight_extension.Proxy.Controller
use duckflight_extension.Proxy.Controller.{
  Controller, State, replicas_of, forget_idle, identity_check, current_deployment, write, fence,
  scale, fence_if_needed, filter_ready, first_backend, single_pod, ready_backend, started, fenced,
}
use duckflight_extension.Proxy.Ends.Requests.{clock_floor}
use duckflight_extension.Proxy.Controller.Wake.{wake}
use duckflight_extension.Proxy.Controller.Wake.Awake.{WorkerAwake, wake-WorkerAwake}
use duckflight_extension.Proxy.Controller.Wake.Ends.{wake_terminates}
use duckflight_extension.Proxy.Safety.{
  write_is_conditional, sleep_is_granted, start_is_alone, suspend_is_due, resume-IsSettled,
  connections_are_counted, needs_fence-IsSettled,
}
use duckflight_extension.Proxy.Evidence.{
  open_count, last_read, IsSettled, SleepAllowed, StartAllowed, WriteAllowed, SuspendAllowed,
}
use duckflight_extension.Proxy.Sessions.{System, Reach, here, next, accept, finish, idle}
use duckflight_extension.Proxy.Scenarios.{
  world, suspended_world, config, new_proxy, first, first_log, new_proxy-first, start, awake,
  slept_system, resumed, run_log,
}
use duckflight_extension.Proxy.Scenarios.Logs.{
  is_resume, permit_of_call, resumed_of, request_of, reply_of, body_of, backend_of, take, drop,
  is_request, is_patch, is_suspend, split_at, patch_body_of, suspended_of,
}

awake_run : Reach world start awake
awake_run = next here (accept 5)

whole_run : Reach world start slept_system
unfolding run_log
whole_run = next (next (next awake_run (finish (omega arith))) idle) idle

-- The last state stays shut below, so that its log is not compared event by event.
final : System
final = slept_system

abbrev log : Trace
log = final.state.trace

abbrev request_at : ℕ → Request
request_at n = request_of (drop n log)

abbrev reply_at : ℕ → Reply
reply_at n = reply_of (drop n log)

abbrev body_at : ℕ → Json
body_at n = body_of (request_at n).call

final_run : Reach world start final
unfolding final
final_run = whole_run

-- The newest event is the write that puts the worker to sleep, the third newest asks it to suspend,
-- and the nineteenth newest is the write that started it.
requests :
    (is_request (drop 0 log) ≡ true)
    × (is_request (drop 2 log) ≡ true)
    × (is_request (drop 18 log) ≡ true)
unfolding run_log final drop is_request
requests = (refl, refl, refl)

calls :
    (is_patch (request_at 0).call ≡ true)
    × (is_suspend (request_at 2).call ≡ true)
    × (is_patch (request_at 18).call ≡ true)
unfolding run_log final drop is_patch is_suspend
calls = (refl, refl, refl)

wanted : (as_u64 (replicas_of (body_at 0)) ≡ some 0) × (as_u64 (replicas_of (body_at 18)) ≡ some 1)
unfolding run_log final drop
wanted = (refl, refl)

write_is_conditional_example : WriteAllowed "uuid" "deployment-one" (body_at 18) (drop 19 log)
write_is_conditional_example =
    write_is_conditional world config new_proxy-first final_run (take 18 log) (drop 19 log)
      (request_at 18) (reply_at 18) (split_at 18 log requests.2) (body_at 18)
      (patch_body_of _ calls.2)

sleep_is_granted_example :
    (current : Json) × (last_read (drop 1 log) ≡ some current)
    × SleepAllowed "uuid" current (drop 1 log)
sleep_is_granted_example =
    sleep_is_granted world config new_proxy-first final_run (take 0 log) (drop 1 log) (request_at 0)
      (reply_at 0) (split_at 0 log requests.0) (body_at 0) (patch_body_of _ calls.0) wanted.0

start_is_alone_example :
    (current : Json) × (last_read (drop 19 log) ≡ some current)
    × StartAllowed "uuid" current (drop 19 log)
start_is_alone_example =
    start_is_alone world config new_proxy-first final_run (take 18 log) (drop 19 log)
      (request_at 18) (reply_at 18) (split_at 18 log requests.2) (body_at 18)
      (patch_body_of _ calls.2) wanted.1

suspend_is_due_example : SuspendAllowed 2000 (backend_of (request_at 2).call) (drop 3 log)
suspend_is_due_example =
    suspend_is_due world config new_proxy-first final_run (take 2 log) (drop 3 log) (request_at 2)
      (reply_at 2) (split_at 2 log requests.1) (backend_of (request_at 2).call)
      (suspended_of _ calls.1)

connections_are_counted_example :
    (awake.state.connections ≡ awake.sessions) × (open_count awake.state.trace ≡ awake.sessions)
connections_are_counted_example = connections_are_counted world config new_proxy-first awake_run

needs_fence-IsSettled_example : IsSettled awake.state.trace
unfolding run_log
needs_fence-IsSettled_example = needs_fence-IsSettled world config new_proxy-first awake_run refl

new_proxy-suspended : Controller.new suspended_world config [] ≡ (ok first, first_log)
unfolding new_proxy
new_proxy-suspended = refl

revived : System
revived = resumed

revived_run : Reach suspended_world start revived
unfolding revived
revived_run = next here (accept 5)

abbrev revived_call : Call
revived_call = (request_of (drop 0 revived.state.trace)).call

-- The wake ends by resuming the suspended worker.
resumes : (is_request (drop 0 revived.state.trace) ≡ true) × (is_resume revived_call ≡ true)
unfolding run_log revived drop is_request is_resume
resumes = (refl, refl)

resume-IsSettled_example : IsSettled (drop 1 revived.state.trace)
resume-IsSettled_example =
    resume-IsSettled suspended_world config new_proxy-suspended revived_run
      (take 0 revived.state.trace) (drop 1 revived.state.trace)
      (request_of (drop 0 revived.state.trace)) (reply_of (drop 0 revived.state.trace))
      (split_at 0 revived.state.trace resumes.0) (backend_of revived_call)
      (permit_of_call revived_call) (resumed_of revived_call resumes.1)

abbrev worker : Backend
worker = record {
  uid = "worker-one";
  ip = "127.0.0.1";
  control = record {
    root_certificate = "ca";
    https_only = true;
    resolve = some ("localhost", "127.0.0.1", 4091);
    timeout = 10000;
  };
  url = "https://localhost:4091";
}

wakes : (wake suspended_world 5 start.state).0 ≡ ok worker
unfolding run_log
wakes = refl

wake-WorkerAwake_example :
    WorkerAwake suspended_world worker (wake suspended_world 5 start.state).1.trace
wake-WorkerAwake_example = wake-WorkerAwake suspended_world 5 start.state worker wakes

-- An environment where nobody answers, and a second passes between two readings of the clock.
abbrev silent_world : Environment
silent_world = record world { answer = λ t r. failed; now = λ t. clock_floor t + 1000 }

wake_terminates_example :
    ((wake silent_world 11 start.state).0 ≢ err out_of_fuel)
    × ((more : ℕ)
        → 11 ≤ more
        → wake silent_world more start.state ≡ wake silent_world 11 start.state)
wake_terminates_example =
    wake_terminates silent_world (λ t. omega arith) start.state 11 (omega arith)
