-- ===== src/Proxy/Sessions/Keeps.antt =====
-- Every step of the tasks keeps the frame with as many open connections as there are tasks between
-- their critical sections.
use duckflight_extension.Common.{ℕ, ◌+◌, ◌-◌, String, none}
use duckflight_extension.Proxy.World.{Result, ok, err, Backend, Environment}
use duckflight_extension.Proxy.Hoare.{Post, Triple-weaken}
use duckflight_extension.Proxy.Frame.{Interval, Frame, Frame-opened, Frame-closed, Frame-finished}
use duckflight_extension.Proxy.Controller.{State}
use duckflight_extension.Proxy.Controller.Wake.Keeps.{Triple-wake}
use duckflight_extension.Proxy.Controller.Idle.Sleep.{Held-Valid}
use duckflight_extension.Proxy.Controller.Idle.Ticks.{tick-Valid}
use duckflight_extension.Proxy.Sessions.{
  count_opened, woken, open_connection, System, accepted, Step, accept, finish, idle, Reach, here,
  next,
}

module _ (env : Environment) (owner uid : String) (timeout : ℕ) where
  abbrev pub IsSound : System → Type 0
  IsSound s = Frame owner uid timeout s.sessions s.state.idle_since s.state.idle_since s.state

  abbrev N : ℕ → State → Type 0
  N k = Frame owner uid timeout k none none

  opened-N :
      (k fuel : ℕ) (x : Result Backend × State)
      → Post (λ _. N (k + 1)) (N (k + 1)) x
      → Post (λ _. N (k + 1)) (N k) (woken x.0 x.1)
  unfolding woken
  opened-N k fuel (ok backend, s) h = h
  opened-N k fuel (err e, s) h = Frame-closed owner uid timeout h

  accept-N :
      (k fuel : ℕ) {i q : Interval} (s : State)
      → Frame owner uid timeout k i q s
      → Post (λ _. N (k + 1)) (N k) (open_connection env fuel s)
  unfolding open_connection
  accept-N k fuel s f = opened-N k fuel _ (
      (Triple-weaken (λ s h. h) (λ _ s h. h.0) (λ s h. h)
          (Triple-wake env owner uid timeout (k + 1) fuel)).at
        (count_opened s) (Frame-opened owner uid timeout f))

  accepted-IsSound :
      (s : System) (x : Result Backend × State)
      → Post (λ _. N (s.sessions + 1)) (N s.sessions) x
      → IsSound (accepted s x)
  unfolding accepted
  accepted-IsSound s (ok backend, state) f = Held-Valid env owner uid timeout (s.sessions + 1) f
  accepted-IsSound s (err e, state) f = Held-Valid env owner uid timeout s.sessions f

  pub Step-IsSound : {s t : System} → Step env s t → IsSound s → IsSound t
  Step-IsSound {s} (accept fuel) f = accepted-IsSound s _ (accept-N s.sessions fuel s.state f)
  Step-IsSound {s} (finish h) f =
      Held-Valid env owner uid timeout (s.sessions - 1) (Frame-finished owner uid timeout f h)
  Step-IsSound {s} idle f = tick-Valid env owner uid timeout s.sessions s.state f

  pub Reach-IsSound : {s t : System} → Reach env s t → IsSound s → IsSound t
  Reach-IsSound here f = f
  Reach-IsSound (next r st) f = Step-IsSound st (Reach-IsSound r f)
