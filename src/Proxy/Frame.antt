-- ===== src/Proxy/Frame.antt =====
-- What the parts of the controller's methods keep, and how each kind of event keeps it.
use duckflight_extension.Common.{
  Bool, ℕ, ◌+◌, ◌-◌, ◌<◌, String, true, false, Option, none, some, ◌∷◌, ◌≡◌, ◌⊎◌, arith,
}
use duckflight_extension.Proxy.Json.{Json, index, as_u64, is_text}
use duckflight_extension.Proxy.World.{
  Backend, read_deployment, patch_deployment, list_pods, get_status, suspend, resume, Request,
  Reply, clock, drew, slept, Trace,
}
use duckflight_extension.Proxy.Controller.{State, replicas_of, set_needs_fence, set_idle_since}
use duckflight_extension.Proxy.Sessions.{count_opened, count_closed, close_connection}
use duckflight_extension.Proxy.Evidence.{
  IsOwned, open_count, last_read, IsSettled, SeenIdle, Quiet, WriteAllowed, SuspendAllowed, Guarded,
}
use duckflight_extension.Proxy.Hoare.{logged}

abbrev pub Interval : Type 0
Interval = Option (String × String × ℕ)

abbrev pub QuietFor : Interval → Trace → Type 0
QuietFor none t = Unit
QuietFor (some (uid, boot, since)) t = Quiet uid boot since t

module _ (owner uid : String) (timeout : ℕ) where
  -- `k` connections are open, `idle` is the recorded idle interval, and the log confirms `q`.
  pub record Frame (k : ℕ) (idle q : Interval) (s : State) : Type 0 where
    pub guarded : Guarded owner uid timeout s.trace
    pub settled : s.needs_fence ≡ false → IsSettled s.trace
    pub counted : open_count s.trace ≡ k
    pub connections : s.connections ≡ k
    pub recorded : s.idle_since ≡ idle
    pub quiet : QuietFor q s.trace
    pub is_owner : s.owner ≡ owner
    pub is_uid : s.uid ≡ uid
    pub is_timeout : s.config.idle_timeout ≡ timeout

  module _ {k : ℕ} {idle q : Interval} {s : State} (f : Frame k idle q s) where
    pub Frame-forget_quiet : Frame k idle none s
    Frame-forget_quiet = ground arith

    pub Frame-forget_idle : Frame k none none (set_idle_since none s)
    Frame-forget_idle = ground arith

    pub Frame-confirm :
        {idle' : Interval} → idle ≡ idle' → QuietFor idle' s.trace → Frame k idle' idle' s
    Frame-confirm e h = ground arith

    pub Frame-needs_fence : Frame k idle q (set_needs_fence true s)
    Frame-needs_fence = ground arith

    pub Frame-settled : IsSettled s.trace → Frame k idle q (set_needs_fence false s)
    Frame-settled h = ground arith

    pub Frame-read :
        (r : Request) (reply : Reply) → r.call ≡ read_deployment → Frame k idle q (logged r reply s)
    Frame-read r reply c = ground arith

    pub Frame-list :
        (r : Request) (reply : Reply) → r.call ≡ list_pods → Frame k idle q (logged r reply s)
    Frame-list r reply c = ground arith

    pub Frame-status :
        (b : Backend) (r : Request) (reply : Reply)
        → r.call ≡ get_status b
        → Frame k idle none (logged r reply s)
    Frame-status b r reply c = ground arith

    pub Frame-resume :
        (b : Backend) (p : String) (r : Request) (reply : Reply)
        → r.call ≡ resume b p
        → s.needs_fence ≡ false
        → Frame k idle none (logged r reply s)
    Frame-resume b p r reply c e = ground arith

    pub Frame-suspend :
        (b : Backend) (r : Request) (reply : Reply)
        → r.call ≡ suspend b
        → SuspendAllowed timeout b s.trace
        → Frame k idle none (logged r reply s)
    Frame-suspend b r reply c h = ground arith

    -- While a write is outstanding a fence is needed, so nothing is claimed to be settled.
    pub Frame-write :
        (body : Json) (r : Request) (reply : Reply)
        → r.call ≡ patch_deployment body
        → s.needs_fence ≡ true
        → WriteAllowed owner uid body s.trace
        → (as_u64 (replicas_of body) ≡ none) ⊎ (q ≡ none)
        → Frame k idle q (logged r reply s)
    Frame-write body r reply c e h quiet = ground arith

    pub Frame-clock : (n : ℕ) → Frame k idle q (record s { trace = clock n ∷ s.trace })
    Frame-clock n = ground arith

    pub Frame-drew : (u : String) → Frame k idle q (record s { trace = drew u ∷ s.trace })
    Frame-drew u = ground arith

    pub Frame-slept : (d : ℕ) → Frame k idle q (record s { trace = slept d ∷ s.trace })
    Frame-slept d = ground arith

    -- An idle answer and a clock reading begin an interval.
    pub Frame-begin :
        (pod boot : String) (since : ℕ)
        → SeenIdle pod boot s.trace
        → Frame k
            (some (pod, boot, since))
            (some (pod, boot, since))
            (set_idle_since (some (pod, boot, since)) (record s { trace = clock since ∷ s.trace }))
    Frame-begin pod boot since h = ground arith

    pub Frame-opened : Frame (k + 1) idle none (count_opened s)
    Frame-opened = ground arith

    pub Frame-finished : 0 < k → Frame (k - 1) none none (close_connection s)
    unfolding close_connection
    Frame-finished h = ground arith

  pub Frame-closed :
      {k : ℕ} {idle : Interval} {s : State}
      → Frame (k + 1) idle none s
      → Frame k idle none (count_closed s)
  Frame-closed f = ground arith

module _ (owner uid : String) (b : Bool) where
  -- The worker's deployment was read, and no write was tried since. Unless a fence is needed, it names the
  -- controller as its owner.
  pub record Read (current : Json) (s : State) : Type 0 where
    pub latest : last_read s.trace ≡ some current
    pub own : is_text (index (index current "metadata") "uid") uid ≡ true
    pub mine : b ≡ false → IsOwned owner current

  module _ {current : Json} {s : State} (h : Read current s) where
    pub Read-list :
        (r : Request) (reply : Reply) → r.call ≡ list_pods → Read current (logged r reply s)
    Read-list r reply c = ground arith

    pub Read-status :
        (b : Backend) (r : Request) (reply : Reply)
        → r.call ≡ get_status b
        → Read current (logged r reply s)
    Read-status b r reply c = ground arith

    pub Read-suspend :
        (b : Backend) (r : Request) (reply : Reply)
        → r.call ≡ suspend b
        → Read current (logged r reply s)
    Read-suspend b r reply c = ground arith
