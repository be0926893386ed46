-- ===== src/Proxy/Scenarios/Aborted.antt =====
-- A run of the proxy of crates/duckflight-idle-proxy/src/main.rs in which the idle check is aborted while it
-- waits for the answer to the write that puts the worker to sleep.
use duckflight_extension.Common.{Bool, true, false, ◌∷◌, ◌≡◌, refl}
use duckflight_extension.Proxy.World.{sent, drew, Trace, Environment}
use duckflight_extension.Proxy.Sessions.{open_connection, accepted, System}
use duckflight_extension.Proxy.Controller.Idle.{tick}
use duckflight_extension.Proxy.Scenarios.{world, observed, run_log}
use duckflight_extension.Proxy.Scenarios.Logs.{request_of, is_patch, is_suspend}

-- The name of the write was drawn just after the worker was asked to suspend.
abbrev is_sleeping : Trace → Bool
is_sleeping (drew u ∷ sent r reply ∷ t) = is_suspend r.call
is_sleeping t = false

abbrev aborting_world : Environment
aborting_world = record world { aborts = is_sleeping }

abbrev cut : System
cut = record observed { state = tick aborting_world observed.state }

-- The write was sent, and the controller knows that it may or may not have been carried out.
aborted_sleep : (is_patch (request_of cut.state.trace).call ≡ true) × (cut.state.needs_fence ≡ true)
unfolding run_log is_patch is_suspend
aborted_sleep = (refl, refl)

-- A connection that was accepted before then still gets a worker, and after a fence.
revived : System
revived = accepted cut (open_connection world 5 cut.state)

wakes_after : (revived.sessions ≡ 1) × (revived.state.needs_fence ≡ false)
unfolding run_log revived is_suspend
wakes_after = (refl, refl)
