-- ===== src/Proxy/Controller.antt =====
-- `Controller` of crates/duckflight-idle-proxy/src/main.rs: the state of the wake proxy, the reads and
-- writes of the worker's Deployment, and the choice of the worker pod.
pub mod Wake
pub mod Found
pub mod Idle
pub mod Writes
pub mod Start
use duckflight_extension.Common.{
  ℕ, String, Bool, true, false, not, ◌&&◌, Option, none, some, List, [], ◌∷◌, if◌then◌else◌,
}
use duckflight_extension.Proxy.Json.{Json, index, as_str, is_text}
use duckflight_extension.Proxy.World.{
  missing, message, Result, ok, err, Act, ◌>>=◌, ◌>>◌, pure, raise, from_option, gets, modify,
  Backend, Trace, Environment, Io, new_v4,
}
use duckflight_extension.Proxy.Config.{Config}
use duckflight_extension.Proxy.Kubernetes
use duckflight_extension.Proxy.Kubernetes.{Kubernetes, owner_annotation, deployment, patch, pods}
use duckflight_extension.Proxy.Backend.{is_ready, from_pod}

pub record Controller : Type 0 where
  pub config : Config
  pub kube : Kubernetes
  pub owner : String
  pub uid : String
  pub needs_fence : Bool
  pub connections : ℕ
  pub idle_since : Option (String × String × ℕ)

-- The controller behind its lock, and what has happened so far.
pub record State : Type 0 where
  pub controller : Controller
  pub open controller use *
  pub trace : Trace

abbrev pub lift : {A : Type 0} → Io A → Act State A
lift m s = let (r, t) = m s.trace in (r, record s { trace = t })

abbrev pub set_needs_fence : Bool → State → State
set_needs_fence b s = record s { controller = record s.controller { needs_fence = b } }

abbrev pub set_idle_since : Option (String × String × ℕ) → State → State
set_idle_since since s = record s { controller = record s.controller { idle_since = since } }

-- `self.idle_since = None; return Ok(())`
unfoldable pub forget_idle : Act State (Unit {0})
forget_idle = modify (set_idle_since none)

abbrev pub replicas_of : Json → Json
replicas_of current = index (index current "spec") "replicas"

module _ (env : Environment) where
  unfoldable pub identity_check : Json → Controller → Act State Json
  identity_check current self =
      if not (is_text (index (index current "metadata") "uid") self.uid)
      then raise (message "worker Deployment was replaced; restart proxy")
      else if not self.needs_fence
          && not (
              is_text (index (index (index current "metadata") "annotations") owner_annotation)
                self.owner)
      then raise (message "another controller owns this worker Deployment; restart proxy")
      else pure current

  unfoldable pub current_deployment : Act State Json
  current_deployment = do
    self ← gets (λ s. s.controller)
    current ← lift (deployment env self.kube)
    identity_check current self

  -- The write that `fence` and `scale` share.
  unfoldable pub write : Json → Option ℕ → Act State (Unit {0})
  write current replicas = do
    modify (set_needs_fence true)
    self ← gets (λ s. s.controller)
    operation ← lift (new_v4 env)
    lift (patch env self.kube current self.owner operation replicas)
    modify (set_needs_fence false)

  unfoldable pub fence : Act State (Unit {0})
  fence = do current ← current_deployment; write current none

  unfoldable pub scale : Json → ℕ → Act State (Unit {0})
  scale current replicas = write current (some replicas)

  -- `if self.needs_fence { self.fence().await? }`
  unfoldable pub fence_if_needed : Act State (Unit {0})
  fence_if_needed = do needed ← gets (λ s. s.needs_fence); if needed then fence else pure tt

  unfoldable pub filter_ready : List Json → List Json
  filter_ready [] = []
  filter_ready (pod ∷ pods) =
      let rest = filter_ready pods in if is_ready pod then pod ∷ rest else rest

  unfoldable pub first_backend : Config → List Json → Io (Option Backend)
  first_backend config [] = pure none
  first_backend config (pod ∷ []) = do backend ← from_pod env pod config; pure (some backend)
  first_backend config (pod ∷ other ∷ rest) =
      raise (message "idle mode requires exactly one worker")

  unfoldable pub single_pod : Config → List Json → Io (Option Backend)
  single_pod config (pod ∷ []) = first_backend config (filter_ready (pod ∷ []))
  single_pod config _ = pure none

  unfoldable pub ready_backend : Act State (Option Backend)
  ready_backend = do
    self ← gets (λ s. s.controller)
    pods ← lift (pods env self.kube)
    lift (single_pod self.config pods)

  unfoldable pub started : Result (Unit {0}) × State → Result Controller × Trace
  started (ok _, s) = (ok s.controller, s.trace)
  started (err e, s) = (err e, s.trace)

  -- The constructor fences before it returns.
  unfoldable pub fenced : Controller → Io Controller
  fenced controller t = started (fence (record { controller = controller; trace = t }))

  unfoldable pub new : Config → Io Controller
  new config = do
    kube ← Kubernetes.new env config
    current ← deployment env kube
    uid ←
        from_option (missing "missing deployment UID")
          (as_str (index (index current "metadata") "uid"))
    owner ← new_v4 env
    fenced (record {
      config = config;
      kube = kube;
      owner = owner;
      uid = uid;
      needs_fence = true;
      connections = 0;
      idle_since = none;
    })
