-- ===== src/Proxy/Controller/Writes.antt =====
-- The reads and writes of the Deployment keep the frame, and a write is made on what was just read.
use duckflight_extension.Common.{
  ℕ, String, Bool, true, false, Option, none, some, List, [], ◌∷◌, ◌≡◌, ◌⊎◌, inl, inr, refl, ◌∙◌,
  arith,
}
use duckflight_extension.Proxy.Json.{Json, index, as_u64, string}
use duckflight_extension.Proxy.World.{
  list_pods, Request, Reply, drew, Environment, patch_deployment,
}
use duckflight_extension.Proxy.World.Requests.{Triple-new_v4}
use duckflight_extension.Proxy.Kubernetes.{owner_annotation, patch_body, patch}
use duckflight_extension.Proxy.Kubernetes.Requests.{Asked-deployment, Asked-patch, Asked-pods}
use duckflight_extension.Proxy.Hoare.{
  Triple, Triple-pure, Triple-if, Triple-weaken, Triple-bind, Triple-gets, Triple-modify,
  Triple-update, Triple-Asked, logged, IsSilent, Triple-silent,
}
use duckflight_extension.Proxy.Backend.Requests.{from_pod-IsSilent}
use duckflight_extension.Proxy.Config.{Config}
use duckflight_extension.Proxy.Evidence.{ReplicasAllowed, WriteAllowed, IsSettled, last_read}
use duckflight_extension.Proxy.Frame.{
  Interval, Frame, Read, Frame-read, Frame-needs_fence, Frame-settled, Frame-write, Frame-drew,
}
use duckflight_extension.Proxy.Controller.{
  Controller, State, lift, replicas_of, set_needs_fence, identity_check, current_deployment, write,
  fence, scale, fence_if_needed, single_pod, first_backend, filter_ready, ready_backend,
}

module _ (env : Environment) (owner uid : String) (timeout : ℕ) (k : ℕ) (idle q : Interval) where
  abbrev pub Kept : State → Type 0
  Kept = Frame owner uid timeout k idle q

  -- The frame with `needs_fence` known.
  abbrev pub KeptFence : Bool → State → Type 0
  KeptFence b s = Kept s × (s.needs_fence ≡ b)

  -- The deployment was read and is the worker's own.
  abbrev pub KeptRead : Bool → Json → State → Type 0
  KeptRead b current s = Kept s × (s.needs_fence ≡ b) × Read owner uid b current s

  true-neq-false : true ≡ false → ⊥
  true-neq-false h = cc

  Triple-identity_check :
      (b : Bool) (current : Json) (self : Controller)
      → Triple
          (λ s. KeptFence b s × (s.controller ≡ self) × (last_read s.trace ≡ some current))
          (identity_check env current self)
          (KeptRead b)
          Kept
  unfolding identity_check
  Triple-identity_check b current self = record { at = λ s (f, e, h). ground arith }

  pub Triple-current : (b : Bool) → Triple (KeptFence b) (current_deployment env) (KeptRead b) Kept
  unfolding current_deployment
  Triple-current b = Triple-gets _ λ self.
      Triple-bind
        (Triple-Asked (Asked-deployment env self.kube) (λ s h. h.0.0)
          (λ s r reply h c. Frame-read owner uid timeout h.0.0 r reply c)
          (λ s a r reply h c body. ground arith))
        λ current. Triple-identity_check b current self

  -- A write with the replicas `wanted` may be made now, whatever name its operation gets.
  abbrev pub Writable : Option ℕ → Json → State → Type 0
  Writable wanted current s =
      (operation : String) → ReplicasAllowed owner wanted current (drew operation ∷ s.trace)

  patched_replicas :
      (current : Json) (owner operation : String) (wanted : Option ℕ)
      → as_u64 (replicas_of (patch_body current owner operation wanted)) ≡ wanted
  patched_replicas current owner operation none = refl
  patched_replicas current owner operation (some n) = refl

  patched_fields :
      (current : Json) (owner operation : String) (wanted : Option ℕ)
      → let body = patch_body current owner operation wanted in
        (index (index body "metadata") "resourceVersion"
          ≡ index (index current "metadata") "resourceVersion")
        × (index (index body "metadata") "uid" ≡ index (index current "metadata") "uid")
        × (index (index (index body "metadata") "annotations") owner_annotation ≡ string owner)
  patched_fields current owner operation none = (refl, refl, refl)
  patched_fields current owner operation (some n) = (refl, refl, refl)

  patch-WriteAllowed :
      (b : Bool) (s : State) (current : Json) (self operation : String) (wanted : Option ℕ)
      → self ≡ owner
      → Read owner uid b current s
      → ReplicasAllowed owner wanted current s.trace
      → WriteAllowed owner uid (patch_body current self operation wanted) s.trace
  patch-WriteAllowed b s current self operation wanted e h allowed = record {
    current = current;
    read = h.latest;
    version = (patched_fields current self operation wanted).0;
    same_uid = (patched_fields current self operation wanted).1;
    own_deployment = h.own;
    owned = rw (← e) (patched_fields current self operation wanted).2;
    replicas = rw (patched_replicas current self operation wanted) allowed;
  }

  module _ (wanted : Option ℕ) (current : Json) (loud : (wanted ≡ none) ⊎ (q ≡ none)) where
    -- Between drawing the operation's name and the reply.
    Drawn : Controller → State → Type 0
    Drawn self s =
        KeptRead true current s
        × (s.controller ≡ self)
        × ReplicasAllowed owner wanted current s.trace

    Triple-patch :
        (self : Controller) (operation : String)
        → Triple
            (Drawn self)
            (lift (patch env self.kube current self.owner operation wanted))
            (λ _ s. Kept s × IsSettled s.trace)
            Kept
    unfolding Drawn
    Triple-patch self operation =
        Triple-Asked (Asked-patch env self.kube current self.owner operation wanted) (λ s h. h.0.0)
          (λ s r reply h c. written s r reply h c)
          (λ s a r reply h c body. (written s r reply h c, ground arith))
      where
        written :
            (s : State) (r : Request) (reply : Reply)
            → Drawn self s
            → r.call ≡ patch_deployment (patch_body current self.owner operation wanted)
            → Kept (logged r reply s)
        written s r reply ((f, e, read), same, allowed) c =
            Frame-write owner uid timeout f _ r reply c e
              (patch-WriteAllowed true s current self.owner operation wanted (ground arith) read
                allowed)
              (ground (arith, patched_replicas current self.owner operation wanted))

    Triple-write :
        (b : Bool)
        → Triple
            (λ s. KeptRead b current s × Writable wanted current s)
            (write env current wanted)
            (λ _. KeptFence false)
            Kept
    unfolding write Drawn
    Triple-write b =
        Triple-modify {R = λ s. KeptRead true current s × Writable wanted current s}
          (set_needs_fence true)
          (λ s ((f, e, read), w). (
            (
              Frame-needs_fence owner uid timeout f,
              refl,
              record {
                latest = read.latest;
                own = read.own;
                mine = λ e. absurd (true-neq-false e);
              },
            ),
            w,
          ))
          (Triple-gets _ λ self.
            Triple-bind
              (Triple-new_v4 env (λ s u (((f, e, read), w), same). (
                (
                  Frame-drew owner uid timeout f u,
                  e,
                  record {
                    latest = read.latest;
                    own = read.own;
                    mine = λ e. absurd (true-neq-false e);
                  },
                ),
                same,
                w u,
              )))
              λ operation. Triple-bind (Triple-patch self operation) λ _.
                Triple-update (set_needs_fence false)
                  (λ s (f, settled). (Frame-settled owner uid timeout f settled, refl)))

  pub Triple-scale :
      (b : Bool) (replicas : ℕ) (current : Json)
      → q ≡ none
      → Triple
          (λ s. KeptRead b current s × Writable (some replicas) current s)
          (scale env current replicas)
          (λ _. KeptFence false)
          Kept
  unfolding scale
  Triple-scale b replicas current e = Triple-write (some replicas) current (inr e) b

  -- A fence keeps the frame and settles what was outstanding.
  pub Triple-fence : Triple Kept (fence env) (λ _. KeptFence false) Kept
  unfolding fence
  Triple-fence = record {
    at = λ s f.
        (Triple-bind {P = KeptFence s.needs_fence} (Triple-current s.needs_fence) λ current.
            Triple-weaken (λ s h. (h, λ operation. tt)) (λ _ s h. h) (λ s h. h)
              (Triple-write none current (inl refl) s.needs_fence)).at
          s (f, refl);
  }

  pub Triple-fence_if_needed : Triple Kept (fence_if_needed env) (λ _. KeptFence false) Kept
  unfolding fence_if_needed
  Triple-fence_if_needed = Triple-gets _ λ needed.
      Triple-if needed (λ e. Triple-weaken (λ s h. h.0) (λ _ s h. h) (λ s h. h) Triple-fence)
        (λ e. Triple-pure tt (λ s h. (h.0, h.1 ∙ e)))

pub single_pod-IsSilent :
    (env : Environment) (config : Config) (pods : List Json) → IsSilent (single_pod env config pods)
unfolding single_pod first_backend filter_ready
single_pod-IsSilent env config [] t = refl
single_pod-IsSilent env config (pod ∷ []) t = ground (arith, from_pod-IsSilent env pod config t)
single_pod-IsSilent env config (pod ∷ other ∷ rest) t = refl

-- Looking for the worker adds nothing to the log but the listing of the pods.
pub Triple-ready_backend :
    (env : Environment) (P : State → Type 0)
    → ((s : State) (r : Request) (reply : Reply) → P s → r.call ≡ list_pods → P (logged r reply s))
    → Triple P (ready_backend env) (λ _. P) P
unfolding ready_backend
Triple-ready_backend env P keep =
    Triple-gets (λ s. s.controller)
      λ self.
        Triple-bind
          (Triple-Asked (Asked-pods env self.kube) (λ s h. h.0)
            (λ s r reply h c. keep s r reply h.0 c) (λ s a r reply h c body. keep s r reply h.0 c))
          λ pods. Triple-silent P _ (single_pod-IsSilent env self.config pods)
