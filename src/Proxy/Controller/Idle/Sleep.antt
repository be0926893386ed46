-- ===== src/Proxy/Controller/Idle/Sleep.antt =====
-- The end of `idle_tick`: the worker is asked to suspend only at the end of a confirmed idle interval,
-- and is put to sleep only with the permit that it was just granted.
use duckflight_extension.Common.{
  ℕ, ◌-◌, ◌≤◌, String, true, false, Option, none, some, ◌∷◌, not, ◌||◌, ◌≡◌, refl, sym, ap, ◌∙◌,
  arith,
}
use mathlib.Core.Path.{subst}
use text.Mathlib.Text.{◌==◌ as str_eq}
use duckflight_extension.Proxy.Json.{Json, is_int}
use duckflight_extension.Proxy.World.{
  is_aborted, Result, ok, err, Backend, suspend, Request, Reply, failed, not_json, replied, sent,
  drew, clock, Trace, Environment,
}
use duckflight_extension.Proxy.Config.{Config}
use duckflight_extension.Proxy.Backend.{IdleStatus, deserialize}
use duckflight_extension.Proxy.Backend.Requests.{IsStatus, Asked-status, Asked-resume}
use duckflight_extension.Proxy.Hoare.{
  Body, Triple, Triple-pure, Triple-raise, Triple-if, Triple-weaken, Triple-bind, Triple-gets,
  Triple-update, Triple-attempt, Triple-Asked, logged,
}
use duckflight_extension.Proxy.Evidence.{IsOwned, SuspendAllowed}
use duckflight_extension.Proxy.Frame.{
  Interval, Frame, Frame-forget_quiet, Frame-forget_idle, Frame-suspend, Frame-resume, Read-suspend,
}
use duckflight_extension.Proxy.Controller.{State, set_idle_since, forget_idle, replicas_of}
use duckflight_extension.Proxy.Controller.Writes.{
  Kept, KeptFence, KeptRead, Writable, Triple-current, Triple-fence, Triple-scale,
}
use duckflight_extension.Proxy.Controller.Idle.{
  resume_backend, asleep, put_to_sleep, suspend_worker,
}

-- The interval has just been found to have lasted.
pub record Lasted (timeout since : ℕ) (s : State) : Type 0 where
  pub now : ℕ
  pub before : Trace
  pub just_now : s.trace ≡ clock now ∷ before
  pub lasted : timeout ≤ now - since

module _ (env : Environment) (owner uid : String) (timeout : ℕ) (k : ℕ) where
  -- The recorded idle interval, if any, is one that the log confirms.
  abbrev pub Valid : State → Type 0
  Valid s = Frame owner uid timeout k s.idle_since s.idle_since s

  -- On the error path the log need not confirm it: the caller forgets it.
  abbrev pub Loose : State → Type 0
  Loose s = Frame owner uid timeout k s.idle_since none s

  module _ (idle q : Interval) where
    abbrev pub Held : State → Type 0
    Held = Kept env owner uid timeout k idle q

    abbrev pub HeldFence : State → Type 0
    HeldFence = KeptFence env owner uid timeout k idle q false

    abbrev pub HeldRead : Json → State → Type 0
    HeldRead = KeptRead env owner uid timeout k idle q false

  pub Held-Valid : {idle : Interval} {s : State} → Held idle idle s → Valid s
  Held-Valid {s} f = subst (λ i. Frame owner uid timeout k i i s) (sym f.recorded) f

  pub Held-Loose : {idle q : Interval} {s : State} → Held idle q s → Loose s
  Held-Loose {s} f =
      subst (λ i. Frame owner uid timeout k i none s) (sym f.recorded)
        (Frame-forget_quiet owner uid timeout f)

  pub Triple-forget :
      {P : State → Type 0} → ((s : State) → P s → Loose s) → Triple P forget_idle (λ _. Valid) Loose
  unfolding forget_idle
  Triple-forget h =
      Triple-update (set_idle_since none) (λ s p. Frame-forget_idle owner uid timeout (h s p))

  pub Triple-resume_backend :
      (idle : Interval) (backend : Backend) (permit : String)
      → Triple
          (HeldFence idle none)
          (resume_backend env backend permit)
          (λ _. Held idle none)
          (Held idle none)
  Triple-resume_backend idle backend permit =
      Triple-gets (λ s. s.config)
        λ (config : Config).
          Triple-Asked (Asked-resume env backend permit config) (λ s h. h.0.0)
            (λ s r reply h c. Frame-resume owner uid timeout h.0.0 backend permit r reply c h.0.1)
            (λ s a r reply h c _.
              Frame-resume owner uid timeout h.0.0 backend permit r reply c h.0.1)

  Triple-asleep :
      (idle : Interval) (backend : Backend) (permit : String) (written : Result (Unit {0}))
      → Triple (Held idle none) (asleep env backend permit written) (λ _. Valid) Loose
  unfolding asleep
  Triple-asleep idle backend permit (ok a) = Triple-forget (λ s h. Held-Loose h)
  Triple-asleep idle backend permit (err error) =
      Triple-if (is_aborted error) (λ e. Triple-raise error (λ s h. Held-Loose h))
        λ e.
          Triple-weaken (λ s h. h) (λ _ s h. h) (λ s h. Held-Loose h)
            (Triple-bind (Triple-fence env owner uid timeout k idle none) λ _.
              Triple-bind (Triple-current env owner uid timeout k idle none false)
                λ (observed : Json).
                  Triple-bind {R = λ _. Held idle none}
                    (Triple-if (is_int (replicas_of observed) 1)
                      (λ e.
                        Triple-weaken (λ s h. (h.0, h.1)) (λ _ s h. h) (λ s h. h)
                          (Triple-resume_backend idle backend permit))
                      (λ e. Triple-pure tt (λ s h. h.0)))
                    λ _. Triple-raise error (λ s h. h))

  -- The worker granted a permit: this very moment allows the deployment to be put to sleep.
  record Granted (backend : Backend) (suspended : IdleStatus) (s : State) : Type 0 where
    request : Request
    body : Json
    before : Trace
    just_now : s.trace ≡ sent request (replied body) ∷ before
    asked : request.call ≡ suspend backend
    answered : deserialize body ≡ some suspended

  module _ (no_connections : k ≡ 0) where
    Granted-Writable :
        (idle : Interval) (current : Json) (backend : Backend) (suspended : IdleStatus)
        (permit : String) (s : State)
        → Held idle none s
        → Granted backend suspended s
        → suspended.busy ≡ false
        → suspended.permit ≡ some permit
        → is_int (replicas_of current) 1 ≡ true
        → IsOwned owner current
        → Writable env owner uid timeout k idle none (some 0) current s
    Granted-Writable idle current backend suspended permit s f g idle_now granted running mine
          operation =
        record {
          operation = operation;
          request = g.request;
          body = g.body;
          before = g.before;
          backend = backend;
          status = suspended;
          permit = permit;
          just_now = ap (λ t. drew operation ∷ t) g.just_now;
          asked = g.asked;
          answered = g.answered;
          not_busy = idle_now;
          granted = granted;
          mine = mine;
          running = running;
          unpinned = f.counted ∙ no_connections;
        }

    Triple-put_to_sleep :
        (idle : Interval) (current : Json) (backend : Backend) (status suspended : IdleStatus)
        (permit : Option String)
        → suspended.permit ≡ permit
        → is_int (replicas_of current) 1 ≡ true
        → Triple
            (λ s. HeldRead idle none current s × Granted backend suspended s)
            (put_to_sleep env current backend status suspended permit)
            (λ _. Valid)
            Loose
    unfolding put_to_sleep
    Triple-put_to_sleep idle current backend status suspended none e running =
        Triple-forget (λ s h. Held-Loose h.0.0)
    Triple-put_to_sleep idle current backend status suspended (some permit) e running =
        Triple-if (suspended.busy || not (str_eq suspended.boot_id status.boot_id))
          (λ refused. Triple-raise _ (λ s h. Held-Loose h.0.0))
          λ agreed.
            Triple-bind {R = λ _. Held idle none}
              (Triple-attempt (Held idle none) (
                Triple-weaken
                  (λ s (h, g). (
                    h,
                    Granted-Writable idle current backend suspended permit s h.0 g (ground arith) e
                        running (h.2.mine refl),
                  ))
                  (λ _ s h. h.0) (λ s h. h)
                  (Triple-scale env owner uid timeout k idle none false 0 current refl)))
              λ written. Triple-asleep idle backend permit written

    pub Triple-suspend_worker :
        (current : Json) (backend : Backend) (status : IdleStatus) (boot : String) (since : ℕ)
        → is_int (replicas_of current) 1 ≡ true
        → let idle : Interval = some (backend.uid, boot, since) in
          Triple
            (λ s. HeldRead idle idle current s × Lasted timeout since s)
            (suspend_worker env current backend status)
            (λ _. Valid)
            Loose
    unfolding suspend_worker
    Triple-suspend_worker current backend status boot since running =
        Triple-gets (λ s. s.config)
          λ (config : Config).
            Triple-bind
              {R = λ suspended s.
                HeldRead (some (backend.uid, boot, since)) none current s
                × Granted backend suspended s}
              (Triple-Asked (Asked-status env backend true config) (λ s h. Held-Loose h.0.0.0)
                (λ s r reply (h, _) c.
                  Held-Loose
                    (Frame-suspend owner uid timeout h.0.0 backend r reply c (allowed s h.0 h.1)))
                (λ s a r reply (h, _) c body. (
                  (
                    Frame-suspend owner uid timeout h.0.0 backend r reply c (allowed s h.0 h.1),
                    h.0.1,
                    Read-suspend owner uid false h.0.2 backend r reply c,
                  ),
                  granted s a r reply c body,
                )))
              λ (suspended : IdleStatus).
                Triple-put_to_sleep _ current backend status suspended suspended.permit refl running
      where
        allowed :
            (s : State)
            → HeldRead (some (backend.uid, boot, since)) (some (backend.uid, boot, since)) current s
            → Lasted timeout since s
            → SuspendAllowed timeout backend s.trace
        allowed s (f, e, read) l = record {
          boot = boot;
          since = since;
          now = l.now;
          before = l.before;
          just_now = l.just_now;
          lasted = l.lasted;
          quiet = f.quiet;
          settled = f.settled e;
          unpinned = f.counted ∙ no_connections;
        }

        granted :
            (s : State) (a : IdleStatus) (r : Request) (reply : Reply)
            → r.call ≡ suspend backend
            → Body IsStatus reply a
            → Granted backend a (logged r reply s)
        granted s a r (replied j) c body = record {
          request = r;
          body = j;
          before = s.trace;
          just_now = refl;
          asked = c;
          answered = body;
        }
        granted s a r failed c body = absurd body
        granted s a r not_json c body = absurd body
