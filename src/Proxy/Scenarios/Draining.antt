-- ===== src/Proxy/Scenarios/Draining.antt =====
-- The theorems on `main` of crates/duckflight-idle-proxy/src/main.rs at a run in the concrete environment.
use duckflight_extension.Common.{◌+◌, ◌≤◌, length, true, [], ◌∷◌, ◌≡◌, refl, arith}
use duckflight_extension.Proxy.World.{ok, Result, Trace}
use duckflight_extension.Proxy.Config.{Config}
use duckflight_extension.Proxy.Controller
use duckflight_extension.Proxy.Controller.{Controller}
use duckflight_extension.Proxy.Evidence.{open_count}
use duckflight_extension.Proxy.Sessions.{finished}
use duckflight_extension.Proxy.Main.{
  Stream, reading, serving, draining, returned, ended, Main, woken_task, wake_task, is_running,
  all_ended, MainStep, accepts_client, sends, receives, wakes, closes, signalled, drained,
  MainReach, begun, stepped, spawned,
}
use duckflight_extension.Proxy.Main.Runs.{Sound, spawned-Sound}
use duckflight_extension.Proxy.Main.Drain.{steps, drain_bound, drain_is_bounded, return_is_drained}
use duckflight_extension.Proxy.Scenarios.{
  world, config, first, new_proxy, run_log, worker_deployment,
}

-- A proxy for PostgreSQL clients.
abbrev port_config : Config
port_config = record config { listeners = 5432 ∷ [] }

abbrev port_first : Controller
port_first = record first { config = port_config }

port_proxy : Result Controller × Trace
unfolding new_proxy worker_deployment
port_proxy = Controller.new world port_config []

port_log : Trace
unfolding port_proxy
port_log = port_proxy.1

port_proxy-first : Controller.new world port_config [] ≡ (ok port_first, port_log)
unfolding port_proxy port_log
port_proxy-first = refl

abbrev client : Stream
client = record { port = 5432; peer = 7 }

abbrev booted : Main
booted = spawned port_config port_first port_log

abbrev joined : Main
joined = record booted { connections = reading client ∷ [] }

abbrev woken_main : Main
woken_main = wake_task world 5 client [] [] joined

-- The loop has ended, and the client is still served.
last_client : Main
last_client = record woken_main { phase = draining; acceptors = ended ∷ [] }

abbrev closed_main : Main
closed_main = record last_client { connections = []; system = finished last_client.system }

joins : MainReach world booted joined
unfolding spawned
joins =
    stepped
      (stepped (stepped begun (accepts_client [] [] 5432 7 refl refl))
        (sends [] [] client refl refl (omega arith)))
      (receives client [] refl refl)

drains : MainReach world booted last_client
unfolding last_client spawned
drains = stepped (stepped joins (wakes 5 [] [] client refl refl)) (signalled refl)

serves : last_client.connections ≡ serving client ∷ []
unfolding run_log worker_deployment port_proxy port_log last_client woken_task spawned
serves = refl

phase_of_last : last_client.phase ≡ draining
unfolding last_client
phase_of_last = refl

closes_last : MainStep world last_client closed_main
closes_last = closes [] [] client running serves
  where
    running : is_running last_client.phase ≡ true
    running = rw phase_of_last refl

returns : MainReach world booted (record closed_main { phase = returned })
returns = stepped (stepped drains closes_last) (drained phase_of_last refl)

spawned-Sound_example : Sound world booted.system last_client
spawned-Sound_example = spawned-Sound world port_config port_first port_log drains

drain_is_bounded_example :
    (steps (stepped begun closes_last) + drain_bound closed_main ≤ drain_bound last_client)
    × (closed_main.queue ≡ last_client.queue)
    × (length closed_main.connections ≤ length last_client.connections)
    × (all_ended closed_main.acceptors ≡ true)
drain_is_bounded_example =
    drain_is_bounded world port_config port_first port_log drains phase_of_last
      (stepped begun closes_last)

return_is_drained_example :
    let m = record closed_main { phase = returned } in
    (m.connections ≡ []) × (m.system.state.connections ≡ 0) × (open_count m.system.state.trace ≡ 0)
return_is_drained_example = return_is_drained world port_config port_proxy-first returns refl
