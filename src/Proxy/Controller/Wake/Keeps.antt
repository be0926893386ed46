-- ===== src/Proxy/Controller/Wake/Keeps.antt =====
-- `wake` keeps the frame: it starts a worker only when none is left, and resumes one only when no
-- write is outstanding.
use duckflight_extension.Common.{
  ℕ, zero, suc, String, false, Option, none, some, List, [], ◌∷◌, ◌≡◌, refl, arith, leb,
}
use duckflight_extension.Proxy.Json.{Json, as_u64}
use duckflight_extension.Proxy.World.{
  Backend, list_pods, Request, Reply, failed, not_json, replied, Environment,
}
use duckflight_extension.Proxy.World.Requests.{Triple-instant_now, Triple-sleep}
use duckflight_extension.Proxy.Config.{Config}
use duckflight_extension.Proxy.Kubernetes.{Kubernetes}
use duckflight_extension.Proxy.Kubernetes.Requests.{ArePods, Asked-pods}
use duckflight_extension.Proxy.Backend.{IdleStatus}
use duckflight_extension.Proxy.Backend.Requests.{Asked-status, Asked-resume}
use duckflight_extension.Proxy.Hoare.{
  Body, Triple, Triple-pure, Triple-raise, Triple-if, Triple-weaken, Triple-bind, Triple-gets,
  Triple-modify, Triple-Asked, logged,
}
use duckflight_extension.Proxy.Evidence.{IsOwned}
use duckflight_extension.Proxy.Frame.{
  Interval, Frame, Frame-forget_idle, Frame-clock, Frame-slept, Frame-list, Frame-status,
  Frame-resume, Read-list,
}
use duckflight_extension.Proxy.Controller.{State, lift, set_idle_since, replicas_of}
use duckflight_extension.Proxy.Controller.Writes.{
  Kept, KeptFence, KeptRead, Writable, Triple-current, Triple-scale, Triple-fence_if_needed,
  Triple-ready_backend,
}
use duckflight_extension.Proxy.Controller.Wake.{
  resume_if, wake_worker, start_worker, wake_replicas, wake_round, wake_next, wake_loop, wake,
}

module _ (env : Environment) (owner uid : String) (timeout : ℕ) (k : ℕ) where
  abbrev Waking : State → Type 0
  Waking = Kept env owner uid timeout k none none

  abbrev WakingFence : State → Type 0
  WakingFence = KeptFence env owner uid timeout k none none false

  abbrev WakingRead : Json → State → Type 0
  WakingRead = KeptRead env owner uid timeout k none none false

  abbrev WakingWritable : Option ℕ → Json → State → Type 0
  WakingWritable = Writable env owner uid timeout k none none

  Triple-resume_if :
      (config : Config) (backend : Backend) (permit : Option String)
      → Triple WakingFence (lift (resume_if env config backend permit)) (λ _. WakingFence) Waking
  unfolding resume_if
  Triple-resume_if config backend none = Triple-pure tt (λ s h. h)
  Triple-resume_if config backend (some permit) =
      Triple-Asked (Asked-resume env backend permit config) (λ s h. h.0)
        (λ s r reply (f, e) c. Frame-resume owner uid timeout f backend permit r reply c e)
        (λ s a r reply (f, e) c _. (Frame-resume owner uid timeout f backend permit r reply c e, e))

  Triple-wake_worker :
      (found : Option Backend)
      → Triple WakingFence (wake_worker env found) (λ _. WakingFence) Waking
  unfolding wake_worker
  Triple-wake_worker none = Triple-pure none (λ s h. h)
  Triple-wake_worker (some backend) =
      Triple-gets (λ s. s.config)
        λ config.
          Triple-bind {R = λ _. WakingFence}
            (Triple-Asked (Asked-status env backend false config) (λ s h. h.0.0)
              (λ s r reply h c. Frame-status owner uid timeout h.0.0 backend r reply c)
              (λ s a r reply h c _.
                (Frame-status owner uid timeout h.0.0 backend r reply c, h.0.1)))
            λ (status : IdleStatus).
              Triple-bind (Triple-resume_if config backend status.permit)
                λ _. Triple-pure (some backend) (λ s h. h)

  Triple-start_worker :
      (current : Json) (pods : List Json)
      → Triple
          (λ s. WakingRead current s × (pods ≡ [] → WakingWritable (some 1) current s))
          (start_worker env current pods)
          (λ _. WakingFence)
          Waking
  unfolding start_worker
  Triple-start_worker current [] =
      Triple-bind
        (Triple-weaken (λ s h. (h.0, h.1 refl)) (λ _ s h. h) (λ s h. h)
          (Triple-scale env owner uid timeout k none none false 1 current refl))
        λ _. Triple-pure none (λ s h. h)
  Triple-start_worker current (pod ∷ pods) = Triple-pure none (λ s h. (h.0.0, h.0.1))

  no_pods-Writable :
      (current : Json) (s : State) (r : Request) (reply : Reply) (pods : List Json)
      → r.call ≡ list_pods
      → Body ArePods reply pods
      → as_u64 (replicas_of current) ≡ some 0
      → IsOwned owner current
      → pods ≡ []
      → WakingWritable (some 1) current (logged r reply s)
  no_pods-Writable current s r (replied j) pods c body stopped mine e operation = record {
    operation = operation;
    request = r;
    body = j;
    before = s.trace;
    just_now = refl;
    asked = c;
    no_pods = ground arith;
    mine = mine;
    stopped = stopped;
  }
  no_pods-Writable current s r failed pods c body stopped mine e operation = absurd body
  no_pods-Writable current s r not_json pods c body stopped mine e operation = absurd body

  Triple-wake_replicas :
      (current : Json) (replicas : Option ℕ)
      → as_u64 (replicas_of current) ≡ replicas
      → Triple (WakingRead current) (wake_replicas env current replicas) (λ _. WakingFence) Waking
  unfolding wake_replicas
  Triple-wake_replicas current (some zero) e =
      Triple-gets (λ s. s.kube)
        λ (kube : Kubernetes).
          Triple-bind
            (Triple-Asked (Asked-pods env kube) (λ s h. h.0.0)
              (λ s r reply h c. Frame-list owner uid timeout h.0.0 r reply c)
              (λ s a r reply (h, _) c body. (
                (
                  Frame-list owner uid timeout h.0 r reply c,
                  h.1,
                  Read-list owner uid false h.2 r reply c,
                ),
                no_pods-Writable current s r reply a c body e (h.2.mine refl),
              )))
            λ pods. Triple-start_worker current pods
  Triple-wake_replicas current (some (suc zero)) e =
      Triple-bind
        (Triple-weaken (λ s h. (h.0, h.1)) (λ _ s h. h) (λ s h. h.0)
          (Triple-ready_backend env WakingFence
            (λ s r reply h c. (Frame-list owner uid timeout h.0 r reply c, h.1))))
        λ found. Triple-wake_worker found
  Triple-wake_replicas current (some (suc (suc n))) e = Triple-raise _ (λ s h. h.0)
  Triple-wake_replicas current none e = Triple-raise _ (λ s h. h.0)

  Triple-wake_round :
      (deadline : ℕ) → Triple Waking (wake_round env deadline) (λ _. WakingFence) Waking
  unfolding wake_round
  Triple-wake_round deadline =
      Triple-bind (Triple-instant_now env (λ s n h. Frame-clock owner uid timeout h n)) λ now.
        Triple-if (leb deadline now) (λ e. Triple-raise _ (λ s h. h))
          λ e. Triple-bind (Triple-fence_if_needed env owner uid timeout k none none) λ _.
            Triple-bind (Triple-current env owner uid timeout k none none false)
              λ current. Triple-wake_replicas current _ refl

  Triple-wake_loop :
      (fuel deadline : ℕ) → Triple Waking (wake_loop env fuel deadline) (λ _. WakingFence) Waking
  unfolding wake_loop wake_next
  Triple-wake_loop zero deadline = Triple-raise _ (λ s h. h)
  Triple-wake_loop (suc fuel) deadline =
      Triple-bind (Triple-wake_round deadline) (next (Triple-wake_loop fuel deadline))
    where
      next :
          Triple Waking (wake_loop env fuel deadline) (λ _. WakingFence) Waking
          → (found : Option Backend)
          → Triple WakingFence
              (wake_next env (wake_loop env fuel deadline) found)
              (λ _. WakingFence)
              Waking
      next again none =
          Triple-bind (Triple-sleep env 500 (λ s h. Frame-slept owner uid timeout h.0 500))
            λ _. again
      next again (some backend) = Triple-pure backend (λ s h. h)

  -- Whatever the environment does, `wake` keeps the frame. When it returns a worker, no write is
  -- outstanding and no idle interval is recorded.
  pub Triple-wake :
      {idle q : Interval} (fuel : ℕ)
      → Triple (Frame owner uid timeout k idle q) (wake env fuel) (λ _. WakingFence) Waking
  unfolding wake
  Triple-wake fuel =
      Triple-modify {R = Waking} (set_idle_since none)
        (λ s h. Frame-forget_idle owner uid timeout h)
        (Triple-bind (Triple-instant_now env (λ s n h. Frame-clock owner uid timeout h n)) λ now.
          Triple-gets (λ s. s.config)
            λ (config : Config).
              Triple-weaken (λ s h. h.0) (λ _ s h. h) (λ s h. h) (Triple-wake_loop fuel _))
