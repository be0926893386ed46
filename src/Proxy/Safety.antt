-- ===== src/Proxy/Safety.antt =====
-- What holds in every log of the proxy of crates/duckflight-idle-proxy/src/main.rs, whatever the API
-- server, the workers, the clock and the clients do.
use mathlib.Core.Path.{subst}
use mathlib.Core.List.{Memᴰ}
use duckflight_extension.Common.{ℕ, String, some, [], ◌∷◌, ◌++◌, ◌≡◌, false}
use duckflight_extension.Proxy.Json.{Json, as_u64}
use duckflight_extension.Proxy.World.{
  ok, Backend, patch_deployment, suspend, resume, Request, Reply, sent, clock, drew, slept, opened,
  closed, Trace, Environment,
}
use duckflight_extension.Proxy.Config.{Config}
use duckflight_extension.Proxy.Controller
use duckflight_extension.Proxy.Controller.{Controller, replicas_of}
use duckflight_extension.Proxy.Controller.Start.{new-Started}
use duckflight_extension.Proxy.Controller.Idle.Sleep.{Held-Valid}
use duckflight_extension.Proxy.Evidence.{
  open_count, last_read, IsSettled, SleepAllowed, StartAllowed, ReplicasAllowed, WriteAllowed,
  SuspendAllowed, CallAllowed, Guarded,
}
use duckflight_extension.Proxy.ApiServer.{ApiServer, accepts, History, Later}
use duckflight_extension.Proxy.ApiServer.Delayed.{late_refused}
use duckflight_extension.Proxy.Sessions.{System, Reach}
use duckflight_extension.Proxy.Sessions.Keeps.{IsSound, Reach-IsSound}

-- The older part of a guarded log is guarded.
Guarded-suffix :
    (owner uid : String) (timeout : ℕ) (after before : Trace)
    → Guarded owner uid timeout (after ++ before)
    → Guarded owner uid timeout before
Guarded-suffix owner uid timeout [] b g = g
Guarded-suffix owner uid timeout (sent r reply ∷ after) b g =
    Guarded-suffix owner uid timeout after b g.1
Guarded-suffix owner uid timeout (clock n ∷ after) b g = Guarded-suffix owner uid timeout after b g
Guarded-suffix owner uid timeout (drew u ∷ after) b g = Guarded-suffix owner uid timeout after b g
Guarded-suffix owner uid timeout (slept d ∷ after) b g = Guarded-suffix owner uid timeout after b g
Guarded-suffix owner uid timeout (opened ∷ after) b g = Guarded-suffix owner uid timeout after b g
Guarded-suffix owner uid timeout (closed ∷ after) b g = Guarded-suffix owner uid timeout after b g

-- A proxy that has just been started, with no task running.
abbrev pub initial : Controller → Trace → System
initial c t = record { state = record { controller = c; trace = t }; sessions = 0 }

module _ (env : Environment) (config : Config) {c : Controller} {t : Trace}
    (started : Controller.new env config [] ≡ (ok c, t)) {s : System}
    (run : Reach env (initial c t) s) where
  sound : IsSound env c.owner c.uid c.config.idle_timeout s
  sound =
      Reach-IsSound env c.owner c.uid c.config.idle_timeout run
        (Held-Valid env c.owner c.uid c.config.idle_timeout 0 (new-Started env config started).0)

  module _ (after before : Trace) (r : Request) (reply : Reply)
      (logged : s.state.trace ≡ after ++ sent r reply ∷ before) where
    guarded : Guarded c.owner c.uid c.config.idle_timeout (sent r reply ∷ before)
    guarded =
        Guarded-suffix c.owner c.uid c.config.idle_timeout after (sent r reply ∷ before)
          (subst (Guarded c.owner c.uid c.config.idle_timeout) logged sound.guarded)

    allowed : CallAllowed c.owner c.uid c.config.idle_timeout r.call before
    allowed = guarded.0

    -- Every write of the Deployment is conditional on the resource version and the uid of the last
    -- read, since which no other write was tried; that read was of the worker's own Deployment; the
    -- write names this controller as the owner.
    pub write_is_conditional :
        (body : Json) → r.call ≡ patch_deployment body → WriteAllowed c.owner c.uid body before
    write_is_conditional body e =
        subst (λ call. CallAllowed c.owner c.uid c.config.idle_timeout call before) e allowed

    -- A write that puts the worker to sleep comes directly after the worker, asked to suspend,
    -- granted a permit while not busy; the Deployment that was last read named this controller as its
    -- owner and ran one worker; and no connection was open.
    pub sleep_is_granted :
        (body : Json)
        → r.call ≡ patch_deployment body
        → as_u64 (replicas_of body) ≡ some 0
        → (current : Json) × (last_read before ≡ some current) × SleepAllowed c.owner current before
    sleep_is_granted body e zero_replicas =
        let w = write_is_conditional body e in
        (
          w.current,
          w.read,
          subst (λ n. ReplicasAllowed c.owner n w.current before) zero_replicas w.replicas,
        )

    -- A write that starts a worker comes directly after a listing that showed no pod of an old
    -- one, and the Deployment that was last read named this controller as its owner and had no replicas.
    pub start_is_alone :
        (body : Json)
        → r.call ≡ patch_deployment body
        → as_u64 (replicas_of body) ≡ some 1
        → (current : Json) × (last_read before ≡ some current) × StartAllowed c.owner current before
    start_is_alone body e one_replica =
        let w = write_is_conditional body e in
        (
          w.current,
          w.read,
          subst (λ n. ReplicasAllowed c.owner n w.current before) one_replica w.replicas,
        )

    -- The worker is asked to suspend only when its recorded idle interval has lasted for the idle
    -- timeout without a break, no write is outstanding and no connection is open.
    pub suspend_is_due :
        (b : Backend) → r.call ≡ suspend b → SuspendAllowed c.config.idle_timeout b before
    suspend_is_due b e =
        subst (λ call. CallAllowed c.owner c.uid c.config.idle_timeout call before) e allowed

    -- A worker is resumed only when the last write of the Deployment has been answered: no write
    -- that could still put it to sleep is outstanding.
    pub resume-IsSettled :
        (b : Backend) (permit : String) → r.call ≡ resume b permit → IsSettled before
    resume-IsSettled b permit e =
        subst (λ call. CallAllowed c.owner c.uid c.config.idle_timeout call before) e allowed

    -- When a worker is resumed, no write that the proxy sent before and got no answer to is carried
    -- out any more, now or later, by an API server with optimistic concurrency.
    pub resume-late_writes :
        (b : Backend) (permit : String)
        → r.call ≡ resume b permit
        → {server later : ApiServer} → History before server
        → Later server later
        → (body : Json) → Memᴰ body server.late
        → accepts body later ≡ false
    resume-late_writes b permit e history then_ body m =
        late_refused c.owner c.uid c.config.idle_timeout guarded.1 (resume-IsSettled b permit e)
          history then_ body m

  -- The controller counts exactly the tasks that hold a connection open, which are the connections
  -- that the log shows as opened and not closed.
  pub connections_are_counted :
      (s.state.connections ≡ s.sessions) × (open_count s.state.trace ≡ s.sessions)
  connections_are_counted = (sound.connections, sound.counted)

  -- Between the critical sections, a controller that does not plan a fence has got an answer to its last
  -- write of the Deployment, also when an idle check was aborted while it waited for one.
  pub needs_fence-IsSettled : s.state.needs_fence ≡ false → IsSettled s.state.trace
  needs_fence-IsSettled e = sound.settled e
