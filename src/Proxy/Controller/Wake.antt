-- ===== src/Proxy/Controller/Wake.antt =====
-- `Controller::wake` of crates/duckflight-idle-proxy/src/main.rs.
pub mod Keeps
pub mod Parts
pub mod Ends
pub mod Awake
use duckflight_extension.Common.{
  ℕ, zero, suc, ◌+◌, String, false, Option, none, some, List, [], ◌∷◌, leb, if◌then◌else◌,
}
use duckflight_extension.Proxy.Json.{Json, as_u64}
use duckflight_extension.Proxy.World.{
  message, out_of_fuel, Act, ◌>>=◌, ◌>>◌, pure, raise, gets, modify, Backend, Environment, Io,
  instant_now, sleep,
}
use duckflight_extension.Proxy.Config.{Config}
use duckflight_extension.Proxy.Kubernetes.{pods}
use duckflight_extension.Proxy.Backend.{status, resume_permit}
use duckflight_extension.Proxy.Controller.{
  State, lift, set_idle_since, replicas_of, current_deployment, scale, fence_if_needed,
  ready_backend,
}

module _ (env : Environment) where
  unfoldable pub resume_if : Config → Backend → Option String → Io (Unit {0})
  resume_if config backend none = pure tt
  resume_if config backend (some permit) = resume_permit env backend permit config

  unfoldable pub wake_worker : Option Backend → Act State (Option Backend)
  wake_worker none = pure none
  wake_worker (some backend) = do
    config ← gets (λ s. s.config)
    status ← lift (status env backend false config)
    lift (resume_if config backend status.permit)
    pure (some backend)

  unfoldable pub start_worker : Json → List Json → Act State (Option Backend)
  start_worker current [] = do scale env current 1; pure none
  start_worker current (pod ∷ rest) = pure none

  unfoldable pub wake_replicas : Json → Option ℕ → Act State (Option Backend)
  wake_replicas current (some zero) = do
    kube ← gets (λ s. s.kube)
    found ← lift (pods env kube)
    start_worker current found
  wake_replicas current (some (suc zero)) = do found ← ready_backend env; wake_worker found
  wake_replicas current _ = raise (message "idle mode requires worker replicas to be zero or one")

  -- One round of the loop of `wake`: the backend that it returns, or none to go round again.
  unfoldable pub wake_round : ℕ → Act State (Option Backend)
  wake_round deadline = do
    now ← lift (instant_now env)
    if leb deadline now then raise (message "DuckFlight cold start timed out") else do
      fence_if_needed env
      current ← current_deployment env
      wake_replicas current (as_u64 (replicas_of current))

  unfoldable pub wake_next : Act State Backend → Option Backend → Act State Backend
  wake_next again none = do lift (sleep 500); again
  wake_next again (some backend) = pure backend

  unfoldable pub wake_loop : ℕ → ℕ → Act State Backend
  wake_loop zero deadline = raise out_of_fuel
  wake_loop (suc fuel) deadline =
      let again = wake_loop fuel deadline in do found ← wake_round deadline; wake_next again found

  -- `Instant::now() + cold_start_timeout` panics when the sum does not fit the system's clock; here it is a sum of
  -- natural numbers.
  unfoldable pub wake : ℕ → Act State Backend
  wake fuel = do
    modify (set_idle_since none)
    now ← lift (instant_now env)
    config ← gets (λ s. s.config)
    wake_loop fuel (now + config.cold_start_timeout)
