-- ===== src/Proxy/Controller/Idle/Ticks.antt =====
-- `idle_tick` keeps the frame, and an idle interval that it records is one that the log confirms.
use duckflight_extension.Common.{
  ℕ, String, true, false, Option, none, some, ◌∷◌, not, ◌≡◌, refl, arith, ltb, ltb→ge,
}
use duckflight_extension.Proxy.Json.{Json, is_int}
use duckflight_extension.Proxy.World.{
  Result, ok, err, Backend, get_status, Request, Reply, failed, not_json, replied, sent,
  Environment,
}
use duckflight_extension.Proxy.Config.{Config}
use duckflight_extension.Proxy.Backend.{IdleStatus}
use duckflight_extension.Proxy.Backend.Requests.{IsStatus, Asked-status}
use duckflight_extension.Proxy.Hoare.{
  Body, Post, Triple, Triple-raise, Triple-if, Triple-weaken, Triple-bind, Triple-gets,
  Triple-Asked, logged,
}
use duckflight_extension.Proxy.Evidence.{SeenIdle, IdleReply}
use duckflight_extension.Proxy.Frame.{
  Interval, QuietFor, Frame-forget_idle, Frame-list, Frame-status, Read-list, Read-status,
}
use duckflight_extension.Proxy.Controller.{State, replicas_of}
use duckflight_extension.Proxy.Controller.Writes.{
  Triple-current, Triple-fence_if_needed, Triple-ready_backend,
}
use duckflight_extension.Proxy.Controller.Idle.{
  observed_worker, found_worker, read_replicas, unpinned, idle_tick, handled, tick,
}
use duckflight_extension.Proxy.Controller.Idle.Sleep.{
  Valid, Loose, Held, HeldRead, Held-Loose, Triple-forget, Triple-resume_backend,
}
use duckflight_extension.Proxy.Controller.Idle.Intervals.{QuietIf, Triple-idle_worker}

module _ (env : Environment) (owner uid : String) (timeout : ℕ) (k : ℕ) where
  abbrev V : State → Type 0
  V = Valid env owner uid timeout k

  abbrev L : State → Type 0
  L = Loose env owner uid timeout k

  abbrev C : Interval → Interval → Json → State → Type 0
  C = HeldRead env owner uid timeout k

  -- What is known once the worker has answered.
  abbrev Answered : Interval → Json → Backend → IdleStatus → State → Type 0
  Answered idle current backend status s =
      C idle none current s
      × (status.busy ≡ false
          → status.permit ≡ none
          → SeenIdle backend.uid status.boot_id s.trace
            × QuietIf backend.uid status.boot_id idle s.trace)

  Triple-observed_worker :
      k ≡ 0
      → (idle : Interval) (current : Json) (backend : Backend) (status : IdleStatus)
        (permit : Option String)
      → status.permit ≡ permit
      → is_int (replicas_of current) 1 ≡ true
      → Triple
          (Answered idle current backend status)
          (observed_worker env current backend status permit)
          (λ _. V)
          L
  unfolding observed_worker
  Triple-observed_worker no_connections idle current backend status (some permit) e running =
      Triple-bind
        (Triple-weaken (λ s h. (h.0.0, h.0.1)) (λ _ s h. h)
          (λ s h. Held-Loose env owner uid timeout k h)
          (Triple-resume_backend env owner uid timeout k idle backend permit))
        λ _. Triple-forget env owner uid timeout k (λ s h. Held-Loose env owner uid timeout k h)
  Triple-observed_worker no_connections idle current backend status none e running =
      Triple-if status.busy
        (λ busy.
          Triple-forget env owner uid timeout k (λ s h. Held-Loose env owner uid timeout k h.0.0))
        (λ not_busy.
          Triple-weaken (λ s h. (h.0, (h.1 not_busy e).0, (h.1 not_busy e).1)) (λ _ s h. h)
            (λ s h. h)
            (Triple-idle_worker env owner uid timeout k no_connections idle current backend status
              running))

  Answered-Seen :
      (idle : Interval) (current : Json) (backend : Backend) (status : IdleStatus) (s : State)
      (r : Request) (reply : Reply)
      → C idle idle current s
      → r.call ≡ get_status backend
      → Body IsStatus reply status
      → Answered idle current backend status (logged r reply s)
  Answered-Seen idle current backend status s r failed h c body = absurd body
  Answered-Seen idle current backend status s r not_json h c body = absurd body
  Answered-Seen idle current backend status s r (replied j) (f, e, read) c body = (
    (
      Frame-status owner uid timeout f backend r (replied j) c,
      e,
      Read-status owner uid false read backend r _ c,
    ),
    λ not_busy none_shown.
        let reply : IdleReply backend.uid status.boot_id backend j = record {
          status = status;
          read = body;
          not_busy = not_busy;
          not_suspended = none_shown;
          same_boot = refl;
          same_pod = refl;
        } in
        ((backend, c, reply), still_quiet idle f.quiet reply),
  )
    where
      still_quiet :
          (idle : Interval)
          → QuietFor idle s.trace
          → IdleReply backend.uid status.boot_id backend j
          → QuietIf backend.uid status.boot_id idle (sent r (replied j) ∷ s.trace)
      still_quiet none q reply = tt
      still_quiet (some (uid, b, since)) q reply = λ same_uid same_boot. ground arith

  Triple-found_worker :
      k ≡ 0
      → (idle : Interval) (current : Json) (found : Option Backend)
      → is_int (replicas_of current) 1 ≡ true
      → Triple (C idle idle current) (found_worker env current found) (λ _. V) L
  unfolding found_worker
  Triple-found_worker no_connections idle current none running =
      Triple-forget env owner uid timeout k (λ s h. Held-Loose env owner uid timeout k h.0)
  Triple-found_worker no_connections idle current (some backend) running =
      Triple-gets (λ s. s.config)
        λ (config : Config).
          Triple-bind {R = λ status. Answered idle current backend status}
            (Triple-Asked (Asked-status env backend false config)
              (λ s h. Held-Loose env owner uid timeout k h.0.0)
              (λ s r reply h c.
                Held-Loose env owner uid timeout k
                  (Frame-status owner uid timeout h.0.0 backend r reply c))
              (λ s a r reply h c body. Answered-Seen idle current backend a s r reply h.0 c body))
            λ (status : IdleStatus).
              Triple-observed_worker no_connections idle current backend status status.permit refl
                running

  Triple-read_replicas :
      k ≡ 0
      → (idle : Interval) (current : Json)
      → Triple (C idle idle current) (read_replicas env current) (λ _. V) L
  unfolding read_replicas
  Triple-read_replicas no_connections idle current =
      Triple-if (is_int (replicas_of current) 0)
        (λ stopped.
          Triple-forget env owner uid timeout k (λ s h. Held-Loose env owner uid timeout k h.0))
        λ _.
          Triple-if (not (is_int (replicas_of current) 1))
            (λ other. Triple-raise _ (λ s h. Held-Loose env owner uid timeout k h.0))
            λ one.
              Triple-bind
                (Triple-weaken (λ s h. h) (λ _ s h. h)
                  (λ s h. Held-Loose env owner uid timeout k h.0)
                  (Triple-ready_backend env (C idle idle current) (λ s r reply (f, e, read) c. (
                    Frame-list owner uid timeout f r reply c,
                    e,
                    Read-list owner uid false read r reply c,
                  ))))
                λ found. Triple-found_worker no_connections idle current found (ground arith)

  Triple-idle_tick :
      (idle : Interval) → Triple (Held env owner uid timeout k idle idle) (idle_tick env) (λ _. V) L
  unfolding idle_tick unpinned
  Triple-idle_tick idle =
      Triple-bind
        (Triple-weaken (λ s h. h) (λ _ s h. h) (λ s h. Held-Loose env owner uid timeout k h)
          (Triple-fence_if_needed env owner uid timeout k idle idle))
        λ _.
          Triple-gets (λ s. s.connections)
            λ connections.
              Triple-if (ltb 0 connections)
                (λ pinned.
                  Triple-forget env owner uid timeout k
                    (λ s h. Held-Loose env owner uid timeout k h.0.0))
                (λ free. record {
                  at = λ s (h, e).
                      (Triple-bind
                          (Triple-weaken (λ s h. h) (λ _ s h. h)
                            (λ s h. Held-Loose env owner uid timeout k h)
                            (Triple-current env owner uid timeout k idle idle false))
                          λ current.
                            Triple-read_replicas
                              (omega (arith, h.0.connections, e, ltb→ge _ _ free)) idle current).at
                        s h;
                })

  -- A round of the idle task keeps a confirmed interval confirmed, also when it fails.
  pub tick-Valid : (s : State) → V s → V (tick env s)
  unfolding tick handled
  tick-Valid s v = handled-Valid (idle_tick env s) ((Triple-idle_tick s.idle_since).at s v)
    where
      handled-Valid : (x : Result (Unit {0}) × State) → Post (λ _. V) L x → V (handled env x)
      handled-Valid (ok a, s) h = h
      handled-Valid (err e, s) h = Frame-forget_idle owner uid timeout h
