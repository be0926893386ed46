-- ===== src/Proxy/Controller/Idle/Intervals.antt =====
-- The idle interval that `idle_worker` of crates/duckflight-idle-proxy/src/main.rs records is one that the log
-- confirms.
use text.Mathlib.Text.{◌==◌ as str_eq}
use text.Mathlib.TextEquality.{eq_iff}
use mathlib.Core.Path.{subst}
use duckflight_extension.Common.{
  ℕ, ◌-◌, String, true, none, some, ◌∷◌, ◌&&◌, ◌≡◌, refl, sym, ap, ◌∙◌, arith, ltb, ltb→ge,
}
use duckflight_extension.Proxy.Json.{Json, is_int}
use duckflight_extension.Proxy.World.{Backend, clock, Trace, Environment}
use duckflight_extension.Proxy.World.Requests.{Triple-instant_now}
use duckflight_extension.Proxy.Config.{Config}
use duckflight_extension.Proxy.Backend.{IdleStatus}
use duckflight_extension.Proxy.Hoare.{
  Triple, Triple-pure, Triple-if, Triple-weaken, Triple-bind, Triple-gets, Triple-modify,
}
use duckflight_extension.Proxy.Evidence.{SeenIdle, Quiet}
use duckflight_extension.Proxy.Frame.{Interval, Frame-confirm, Frame-clock, Frame-begin}
use duckflight_extension.Proxy.Controller.{State, set_idle_since, replicas_of}
use duckflight_extension.Proxy.Controller.Idle.{begin_interval, idle_interval, idle_worker}
use duckflight_extension.Proxy.Controller.Idle.Sleep.{
  Valid, Loose, HeldRead, Held-Valid, Triple-suspend_worker,
}

-- An interval of this worker at this boot is confirmed up to now.
abbrev pub QuietIf : String → String → Interval → Trace → Type 0
QuietIf pod boot none t = Unit
QuietIf pod boot (some (uid, b, since)) t = uid ≡ pod → b ≡ boot → Quiet pod boot since t

module _ (env : Environment) (owner uid : String) (timeout : ℕ) (k : ℕ) where
  abbrev pub V : State → Type 0
  V = Valid env owner uid timeout k

  abbrev pub L : State → Type 0
  L = Loose env owner uid timeout k

  abbrev pub C : Interval → Interval → Json → State → Type 0
  C = HeldRead env owner uid timeout k

  abbrev pub interval : Backend → IdleStatus → ℕ → Interval
  interval backend status since = some (backend.uid, status.boot_id, since)

  -- The worker has just answered that it is idle.
  abbrev pub Seen : Interval → Json → Backend → IdleStatus → State → Type 0
  Seen idle current backend status s =
      C idle none current s
      × SeenIdle backend.uid status.boot_id s.trace
      × QuietIf backend.uid status.boot_id idle s.trace

  Triple-begin_interval :
      (idle : Interval) (current : Json) (backend : Backend) (status : IdleStatus)
      → Triple
          (Seen idle current backend status)
          (begin_interval env backend status)
          (λ since s. C (interval backend status since) (interval backend status since) current s)
          L
  unfolding begin_interval
  Triple-begin_interval idle current backend status =
      Triple-bind
        {R = λ since s.
          C (interval backend status since) (interval backend status since) current
            (set_idle_since (interval backend status since) s)}
        (Triple-instant_now env (λ s n ((f, e, read), seen, _). (
          Frame-begin owner uid timeout f backend.uid status.boot_id n seen,
          e,
          record { latest = read.latest; own = read.own; mine = read.mine },
        )))
        λ since.
          Triple-modify
            {R = C (interval backend status since) (interval backend status since) current}
            (set_idle_since (interval backend status since)) (λ s h. h)
            (Triple-pure since (λ s h. h))

  Triple-idle_interval :
      (idle : Interval) (current : Json) (backend : Backend) (status : IdleStatus)
      → Triple
          (Seen idle current backend status)
          (idle_interval env backend status idle)
          (λ since s. C (interval backend status since) (interval backend status since) current s)
          L
  unfolding idle_interval
  Triple-idle_interval none current backend status =
      Triple-begin_interval none current backend status
  Triple-idle_interval (some (pod, boot, since)) current backend status =
      Triple-if (str_eq pod backend.uid && str_eq boot status.boot_id)
        (λ same. Triple-pure since λ s ((f, e, read), seen, kept). (
          Frame-confirm owner uid timeout f
              (ground (arith, eq_iff pod backend.uid, eq_iff boot status.boot_id))
              (kept (ground (arith, eq_iff pod backend.uid))
                (ground (arith, eq_iff boot status.boot_id))),
          e,
          read,
        ))
        (λ other. Triple-begin_interval (some (pod, boot, since)) current backend status)

  pub Triple-idle_worker :
      k ≡ 0
      → (idle : Interval) (current : Json) (backend : Backend) (status : IdleStatus)
      → is_int (replicas_of current) 1 ≡ true
      → Triple
          (Seen idle current backend status)
          (idle_worker env current backend status)
          (λ _. V)
          L
  unfolding idle_worker
  Triple-idle_worker no_connections idle current backend status running =
      Triple-gets (λ s. s.idle_since)
        λ known.
          Triple-bind
            (Triple-weaken
              (λ s (h, e). subst (λ i. Seen i current backend status s) (sym h.0.0.recorded ∙ e) h)
              (λ _ s h. h) (λ s h. h) (Triple-idle_interval known current backend status))
            λ since.
              Triple-bind
                {R = λ now s.
                  C (interval backend status since) (interval backend status since) current s
                  × (before : Trace) × (s.trace ≡ clock now ∷ before)}
                (Triple-instant_now env (λ s n (f, e, read). (
                  (
                    Frame-clock owner uid timeout f n,
                    e,
                    record { latest = read.latest; own = read.own; mine = read.mine },
                  ),
                  s.trace,
                  refl,
                )))
                λ now.
                  Triple-gets (λ s. s.config)
                    λ (config : Config).
                      Triple-if (ltb (now - since) config.idle_timeout)
                        (λ early.
                          Triple-pure tt (λ s h. Held-Valid env owner uid timeout k h.0.0.0))
                        (λ late.
                          Triple-weaken
                            (λ s ((h, before, e), c). (
                              h,
                              record {
                                now = now;
                                before = before;
                                just_now = e;
                                lasted = omega (
                                  arith,
                                  ltb→ge _ _ late,
                                  h.0.is_timeout,
                                  ap (λ (x : Config). x.idle_timeout) c,
                                );
                              },
                            ))
                            (λ _ s h. h) (λ s h. h)
                            (Triple-suspend_worker env owner uid timeout k no_connections current
                              backend status status.boot_id since running))
