-- ===== src/Proxy/Controller/Wake/Parts.antt =====
-- The methods that a round of `wake` of crates/duckflight-idle-proxy/src/main.rs calls come to an end.
use duckflight_extension.Common.{
  ℕ, zero, suc, String, true, false, not, ◌&&◌, Option, none, some, List, [], ◌∷◌,
}
use duckflight_extension.Proxy.Json.{Json, index, is_text}
use duckflight_extension.Proxy.World.{Act, Backend, Environment}
use duckflight_extension.Proxy.Config.{Config}
use duckflight_extension.Proxy.Kubernetes.{Kubernetes, owner_annotation}
use duckflight_extension.Proxy.Backend.{IdleStatus}
use duckflight_extension.Proxy.Ends.{
  Ends, Ends-pure, Ends-raise, Ends-if, Ends-bind, Ends-gets, Ends-modify, Ends-given, Ends-lift,
  Ends-update,
}
use duckflight_extension.Proxy.Ends.Requests.{
  After, message-ne, Ends-new_v4, Ends-deployment, Ends-patch, Ends-pods, Ends-status, Ends-resume,
  Ends-from_pod,
}
use duckflight_extension.Proxy.Controller.{
  State, Controller, set_needs_fence, identity_check, current_deployment, write, fence, scale,
  fence_if_needed, first_backend, single_pod, ready_backend,
}
use duckflight_extension.Proxy.Controller.Wake.{resume_if, wake_worker, start_worker, wake_replicas}

abbrev pub Late : ℕ → State → Type 0
Late n s = After n s.trace

module _ (env : Environment) (n : ℕ) where
  abbrev pub Quietly : {A : Type 0} → Act State A → Type 0
  Quietly m = Ends (Late n) m (λ _. Late n)

  Ends-identity_check :
      (current : Json) (self : Controller) → Quietly (identity_check env current self)
  unfolding identity_check
  Ends-identity_check current self =
      Ends-if (not (is_text (index (index current "metadata") "uid") self.uid))
        (λ e. Ends-raise _ (message-ne _))
        λ e.
          Ends-if
            (not self.needs_fence
              && not (
                  is_text (index (index (index current "metadata") "annotations") owner_annotation)
                    self.owner))
            (λ e. Ends-raise _ (message-ne _)) λ e. Ends-pure current (λ s h. h)

  pub Ends-current : Quietly (current_deployment env)
  unfolding current_deployment
  Ends-current =
      Ends-gets (λ s. s.controller)
        λ self.
          Ends-given (λ s h. h.0)
            (Ends-bind (Ends-lift (After n) (λ _. After n) (Ends-deployment env n self.kube))
              λ current. Ends-identity_check current self)

  Ends-write : (current : Json) (replicas : Option ℕ) → Quietly (write env current replicas)
  unfolding write
  Ends-write current replicas =
      Ends-modify {R = Late n} (set_needs_fence true) (λ s h. h)
        (Ends-gets (λ s. s.controller)
          λ self.
            Ends-given (λ s h. h.0)
              (Ends-bind (Ends-lift (After n) (λ _. After n) (Ends-new_v4 env n)) λ operation.
                Ends-bind
                  (Ends-lift (After n) (λ _. After n)
                    (Ends-patch env n self.kube current self.owner operation replicas))
                  λ _. Ends-update (set_needs_fence false) (λ s h. h)))

  pub Ends-fence_if_needed : Quietly (fence_if_needed env)
  unfolding fence_if_needed fence
  Ends-fence_if_needed =
      Ends-gets (λ s. s.needs_fence)
        λ needed.
          Ends-given (λ s h. h.0)
            (Ends-if needed (λ e. Ends-bind Ends-current λ current. Ends-write current none)
              λ e. Ends-pure tt (λ s h. h))

  Ends-first_backend :
      (config : Config) (pods : List Json)
      → Ends (After n) (first_backend env config pods) (λ _. After n)
  unfolding first_backend
  Ends-first_backend config [] = Ends-pure none (λ s h. h)
  Ends-first_backend config (pod ∷ []) =
      Ends-bind (Ends-from_pod env n pod config) λ b. Ends-pure (some b) (λ s h. h)
  Ends-first_backend config (pod ∷ other ∷ rest) = Ends-raise _ (message-ne _)

  Ends-single_pod :
      (config : Config) (pods : List Json)
      → Ends (After n) (single_pod env config pods) (λ _. After n)
  unfolding single_pod
  Ends-single_pod config [] = Ends-pure none (λ s h. h)
  Ends-single_pod config (pod ∷ []) = Ends-first_backend config _
  Ends-single_pod config (pod ∷ other ∷ rest) = Ends-pure none (λ s h. h)

  Ends-ready_backend : Quietly (ready_backend env)
  unfolding ready_backend
  Ends-ready_backend =
      Ends-gets (λ s. s.controller)
        λ self.
          Ends-given (λ s h. h.0)
            (Ends-bind (Ends-lift (After n) (λ _. After n) (Ends-pods env n self.kube))
              λ found. Ends-lift (After n) (λ _. After n) (Ends-single_pod self.config found))

  Ends-resume_if :
      (config : Config) (b : Backend) (permit : Option String)
      → Ends (After n) (resume_if env config b permit) (λ _. After n)
  unfolding resume_if
  Ends-resume_if config b none = Ends-pure tt (λ s h. h)
  Ends-resume_if config b (some permit) = Ends-resume env n b permit config

  Ends-wake_worker : (found : Option Backend) → Quietly (wake_worker env found)
  unfolding wake_worker
  Ends-wake_worker none = Ends-pure none (λ s h. h)
  Ends-wake_worker (some b) =
      Ends-gets (λ s. s.config)
        λ config.
          Ends-given (λ s h. h.0)
            (Ends-bind (Ends-lift (After n) (λ _. After n) (Ends-status env n b false config))
              λ (status : IdleStatus).
                Ends-bind
                  (Ends-lift (After n) (λ _. After n) (Ends-resume_if config b status.permit))
                  λ _. Ends-pure (some b) (λ s h. h))

  Ends-start_worker :
      (current : Json) (found : List Json) → Quietly (start_worker env current found)
  unfolding start_worker scale
  Ends-start_worker current [] =
      Ends-bind (Ends-write current (some 1)) λ _. Ends-pure none (λ s h. h)
  Ends-start_worker current (pod ∷ rest) = Ends-pure none (λ s h. h)

  pub Ends-wake_replicas :
      (current : Json) (replicas : Option ℕ) → Quietly (wake_replicas env current replicas)
  unfolding wake_replicas
  Ends-wake_replicas current none = Ends-raise _ (message-ne _)
  Ends-wake_replicas current (some zero) =
      Ends-gets (λ s. s.kube)
        λ (kube : Kubernetes).
          Ends-given (λ s h. h.0)
            (Ends-bind (Ends-lift (After n) (λ _. After n) (Ends-pods env n kube))
              λ found. Ends-start_worker current found)
  Ends-wake_replicas current (some (suc zero)) = Ends-bind Ends-ready_backend Ends-wake_worker
  Ends-wake_replicas current (some (suc (suc m))) = Ends-raise _ (message-ne _)
