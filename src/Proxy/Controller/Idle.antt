-- ===== src/Proxy/Controller/Idle.antt =====
-- `Controller::idle_tick` of crates/duckflight-idle-proxy/src/main.rs, and the handling of its error in
-- the loop of `main`.
pub mod Sleep
pub mod Intervals
pub mod Ticks
use text.Mathlib.Text.{◌==◌ as str_eq}
use duckflight_extension.Common.{
  ℕ, ◌-◌, String, true, false, not, ◌&&◌, ◌||◌, Option, none, some, ltb, if◌then◌else◌,
}
use duckflight_extension.Proxy.Json.{Json, is_int}
use duckflight_extension.Proxy.World.{
  message, is_aborted, Result, ok, err, attempt, Act, ◌>>=◌, ◌>>◌, pure, raise, gets, modify,
  Backend, Environment, instant_now,
}
use duckflight_extension.Proxy.Backend.{IdleStatus, status, resume_permit}
use duckflight_extension.Proxy.Controller.{
  State, lift, set_idle_since, forget_idle, replicas_of, current_deployment, fence, scale,
  fence_if_needed, ready_backend,
}

module _ (env : Environment) where
  abbrev pub resume_backend : Backend → String → Act State (Unit {0})
  resume_backend backend permit = do
    config ← gets (λ s. s.config)
    lift (resume_permit env backend permit config)

  -- After a sleep that may or may not have been written: only a new fence settles which.
  unfoldable pub asleep : Backend → String → Result (Unit {0}) → Act State (Unit {0})
  asleep backend permit (ok _) = forget_idle
  asleep backend permit (err error) = if is_aborted error then raise error else do
    fence env
    observed ← current_deployment env
    if is_int (replicas_of observed) 1 then resume_backend backend permit else pure tt
    raise error

  unfoldable pub put_to_sleep :
      Json → Backend → IdleStatus → IdleStatus → Option String → Act State (Unit {0})
  put_to_sleep current backend status suspended none = forget_idle
  put_to_sleep current backend status suspended (some permit) =
      if suspended.busy || not (str_eq suspended.boot_id status.boot_id)
      then raise (message "worker changed during idle suspension")
      else do written ← attempt (scale env current 0); asleep backend permit written

  unfoldable pub suspend_worker : Json → Backend → IdleStatus → Act State (Unit {0})
  suspend_worker current backend idle = do
    config ← gets (λ s. s.config)
    suspended ← lift (status env backend true config)
    put_to_sleep current backend idle suspended suspended.permit

  unfoldable pub begin_interval : Backend → IdleStatus → Act State ℕ
  begin_interval backend status = do
    since ← lift (instant_now env)
    modify (set_idle_since (some (backend.uid, status.boot_id, since)))
    pure since

  unfoldable pub idle_interval : Backend → IdleStatus → Option (String × String × ℕ) → Act State ℕ
  idle_interval backend status none = begin_interval backend status
  idle_interval backend status (some (uid, boot, since)) =
      if str_eq uid backend.uid && str_eq boot status.boot_id
      then pure since
      else begin_interval backend status

  unfoldable pub idle_worker : Json → Backend → IdleStatus → Act State (Unit {0})
  idle_worker current backend status = do
    known ← gets (λ s. s.idle_since)
    since ← idle_interval backend status known
    now ← lift (instant_now env)
    config ← gets (λ s. s.config)
    if ltb (now - since) config.idle_timeout then pure tt else suspend_worker current backend status

  unfoldable pub observed_worker :
      Json → Backend → IdleStatus → Option String → Act State (Unit {0})
  observed_worker current backend status (some permit) = do
    resume_backend backend permit
    forget_idle
  observed_worker current backend status none =
      if status.busy then forget_idle else idle_worker current backend status

  unfoldable pub found_worker : Json → Option Backend → Act State (Unit {0})
  found_worker current none = forget_idle
  found_worker current (some backend) = do
    config ← gets (λ s. s.config)
    seen ← lift (status env backend false config)
    observed_worker current backend seen seen.permit

  unfoldable pub read_replicas : Json → Act State (Unit {0})
  read_replicas current =
      if is_int (replicas_of current) 0
      then forget_idle
      else if not (is_int (replicas_of current) 1)
      then raise (message "idle mode requires exactly one worker")
      else do found ← ready_backend env; found_worker current found

  unfoldable pub unpinned : Act State (Unit {0})
  unpinned = do current ← current_deployment env; read_replicas current

  unfoldable pub idle_tick : Act State (Unit {0})
  idle_tick = do
    fence_if_needed env
    connections ← gets (λ s. s.connections)
    if ltb 0 connections then forget_idle else unpinned

  -- A round of the task that `main` starts: an error is reported and forgets the idle interval. A round that
  -- was aborted does not get here, but then nobody reads the interval any more.
  unfoldable pub handled : Result (Unit {0}) × State → State
  handled (ok _, s) = s
  handled (err e, s) = set_idle_since none s

  unfoldable pub tick : State → State
  tick s = handled (idle_tick s)
