-- ===== src/Proxy/Controller/Found.antt =====
-- What `ready_backend` of crates/duckflight-idle-proxy/src/main.rs has seen of the worker that it finds.
use duckflight_extension.Common.{
  String, Bool, true, false, not, ◌&&◌, Option, none, some, List, [], ◌∷◌, ◌≡◌, refl, ap, ◌∙◌,
  if◌then◌else◌,
}
use duckflight_extension.Proxy.Json.{Json, index, as_u64, as_str, as_array, is_text}
use duckflight_extension.Proxy.World.{
  Error, external, missing, Client, Result, ok, err, Act, from_option, Backend, read_deployment,
  list_pods, Request, Reply, failed, not_json, replied, sent, Trace, Environment, Io, build_client,
}
use duckflight_extension.Proxy.Config.{Config}
use duckflight_extension.Proxy.Kubernetes
use duckflight_extension.Proxy.Kubernetes.{Kubernetes, owner_annotation}
use duckflight_extension.Proxy.World.Requests.{IsBody}
use duckflight_extension.Proxy.Kubernetes.Requests.{ArePods, Asked-deployment, Asked-pods}
use duckflight_extension.Proxy.Backend.{is_ready, from_pod}
use duckflight_extension.Proxy.Evidence.{last_read}
use duckflight_extension.Proxy.Hoare.{
  IsSilent, Post, Body, Triple, Triple-pure, Triple-raise, Triple-if, Triple-weaken, Triple-bind,
  Triple-gets, Triple-Asked, logged,
}
use duckflight_extension.Proxy.Controller.Writes.{single_pod-IsSilent}
use duckflight_extension.Proxy.Controller.{
  State, Controller, lift, replicas_of, identity_check, current_deployment, filter_ready,
  first_backend, single_pod, ready_backend,
}

module _ (env : Environment) where
  -- The pod that a backend was made from.
  abbrev pub FromPod : Json → Backend → Type 0
  FromPod pod b =
      (as_str (index (index pod "metadata") "uid") ≡ some b.uid)
      × ((text : String) × (as_str (index (index pod "status") "podIP") ≡ some text)
          × (env.parse_ip text ≡ some b.ip))

  abbrev pub Seen : {S A : Type 0} → (S → Type 0) → Act S A → (A → S → Type 0) → Type 0
  Seen P m Q = Triple P m Q (λ _. Unit {0})

  pub Seen-any : {S A : Type 0} (m : Act S A) → Seen (λ _. Unit {0}) m (λ _ _. Unit {0})
  Seen-any m = record { at = λ s h. any (m s) }
    where
      any : {S A : Type 0} (x : Result A × S) → Post (λ _ _. Unit {0}) (λ _. Unit {0}) x
      any (ok a, s) = tt
      any (err e, s) = tt

  Seen-option :
      {S A : Type 0} {P : S → Type 0} (e : Error) (o : Option A)
      → Seen P (from_option e o) (λ a s. P s × (o ≡ some a))
  Seen-option e none = record { at = λ s h. tt }
  Seen-option e (some a) = record { at = λ s h. (h, refl) }

  Seen-build : {P : Type 0} (c : Client) → Seen (λ (_ : Trace). P) (build_client env c) (λ _ _. P)
  unfolding build_client
  Seen-build {P} c = record { at = λ t h. built t (env.can_build c) h }
    where
      built :
          (t : Trace) (can : Bool)
          → P
          → Post
              (λ (_ : Client) (_ : Trace). P)
              (λ _. Unit {0})
              (elim can [ true ↦ (ok c, t) | false ↦ (err external, t) ])
      built t true h = h
      built t false h = tt

  Seen-from_pod :
      (pod : Json) (config : Config)
      → Seen (λ _. Unit {0}) (from_pod env pod config) (λ b _. FromPod pod b)
  unfolding from_pod
  Seen-from_pod pod config =
      Triple-bind
        (Seen-option (missing "missing pod IP") (as_str (index (index pod "status") "podIP")))
        λ text. Triple-bind (Seen-option external (env.parse_ip text)) λ ip.
          Triple-bind
            (Seen-option (missing "missing pod UID") (as_str (index (index pod "metadata") "uid")))
            λ uid.
              Triple-bind
                {R = λ _ _.
                  (as_str (index (index pod "metadata") "uid") ≡ some uid)
                  × (as_str (index (index pod "status") "podIP") ≡ some text)
                  × (env.parse_ip text ≡ some ip)}
                (Triple-weaken (λ s h. (h.1, h.0.0.1, h.0.1)) (λ _ s h. h) (λ s h. h)
                  (Seen-build _))
                λ control. Triple-pure _ (λ s h. (h.0, (text, h.1, h.2)))

  -- A backend that was found comes from the only pod, which is ready.
  abbrev pub Found : List Json → Option Backend → Type 0
  Found pods none = Unit
  Found pods (some b) = (pod : Json) × (pods ≡ pod ∷ []) × (is_ready pod ≡ true) × FromPod pod b

  Seen-single_pod :
      (config : Config) (pods : List Json)
      → Seen (λ _. Unit {0}) (single_pod env config pods) (λ found _. Found pods found)
  unfolding single_pod filter_ready first_backend
  Seen-single_pod config [] = Triple-pure none (λ s h. tt)
  Seen-single_pod config (pod ∷ other ∷ rest) = Triple-pure none (λ s h. tt)
  Seen-single_pod config (pod ∷ []) = by_readiness (is_ready pod) refl
    where
      by_readiness :
          (ready : Bool)
          → is_ready pod ≡ ready
          → Seen
              (λ _. Unit {0})
              (first_backend env config (if ready then pod ∷ [] else []))
              (λ found _. Found (pod ∷ []) found)
      by_readiness true e =
          Triple-bind (Seen-from_pod pod config)
            λ b. Triple-pure (some b) (λ s h. (pod, refl, e, h))
      by_readiness false e = Triple-pure none (λ s h. tt)

  abbrev pub Nothing : State → Type 0
  Nothing s = Unit {0}

  abbrev pub LastRead : Json → State → Type 0
  LastRead current s = last_read s.trace ≡ some current

  pub Seen-current : Seen Nothing (current_deployment env) LastRead
  unfolding current_deployment identity_check
  Seen-current =
      Triple-gets (λ s. s.controller)
        λ (self : Controller).
          Triple-bind {R = LastRead}
            (Triple-Asked (Asked-deployment env self.kube) (λ s h. tt) (λ s r reply h c. tt)
              read_last)
            λ current.
              Triple-if (not (is_text (index (index current "metadata") "uid") self.uid))
                (λ e. Triple-raise _ (λ s h. tt))
                λ e.
                  Triple-if
                    (not self.needs_fence
                      && not (
                          is_text
                            (index (index (index current "metadata") "annotations")
                              owner_annotation)
                            self.owner))
                    (λ e. Triple-raise _ (λ s h. tt)) λ e. Triple-pure current (λ s h. h)
    where
      read_last :
          {self : Controller} (s : State) (a : Json) (r : Request) (reply : Reply)
          → Nothing s × (s.controller ≡ self)
          → r.call ≡ read_deployment
          → Body IsBody reply a
          → LastRead a (logged r reply s)
      read_last s a r (replied j) h c e = rw (c, e) refl
      read_last s a r failed h c e = absurd e
      read_last s a r not_json h c e = absurd e

  -- The deployment that was read has one worker, and its pods were then listed.
  pub record Listed (b : Backend) (t : Trace) : Type 0 where
    pub listing : Request
    pub pods : Json
    pub pod : Json
    pub current : Json
    pub before : Trace
    pub just_now : t ≡ sent listing (replied pods) ∷ before
    pub listed : listing.call ≡ list_pods
    pub only_pod : as_array (index pods "items") ≡ some (pod ∷ [])
    pub ready_pod : is_ready pod ≡ true
    pub from : FromPod pod b
    pub read : last_read before ≡ some current
    pub running : as_u64 (replicas_of current) ≡ some 1

  abbrev pub WhenFound : (Backend → Trace → Type 0) → Option Backend → State → Type 0
  WhenFound P none s = Unit
  WhenFound P (some b) s = P b s.trace

  -- A look at the world that the log does not show.
  Seen-silent :
      {A : Type 0} (P : State → Type 0) (F : A → Type 0) (m : Io A)
      → IsSilent m
      → Seen (λ _. Unit {0}) m (λ a _. F a)
      → Seen P (lift m) (λ a s. P s × F a)
  Seen-silent {A} P F m silent T = record {
    at = λ s p. kept s p (m s.trace) (silent s.trace) (T.at s.trace tt);
  }
    where
      kept :
          (s : State)
          → P s
          → (x : Result A × Trace) → x.1 ≡ s.trace
          → Post (λ a (_ : Trace). F a) (λ _. Unit {0}) x
          → Post (λ a s. P s × F a) (λ _. Unit {0}) (x.0, record s { trace = x.1 })
      kept s p (ok a, t) e h = (rw e p, h)
      kept s p (err x, t) e h = tt

  abbrev pub JustListed : Json → List Json → State → Type 0
  JustListed current pods s =
      (r : Request) × (j : Json) × (before : Trace) × (s.trace ≡ sent r (replied j) ∷ before)
      × (r.call ≡ list_pods)
      × (as_array (index j "items") ≡ some pods)
      × (last_read before ≡ some current)

  Seen-pods :
      (current : Json) (kube : Kubernetes)
      → Seen (LastRead current) (lift (Kubernetes.pods env kube)) (JustListed current)
  Seen-pods current kube =
      Triple-Asked (Asked-pods env kube) (λ s h. tt) (λ s r reply h c. tt) listed
    where
      listed :
          (s : State) (a : List Json) (r : Request) (reply : Reply)
          → LastRead current s
          → r.call ≡ list_pods
          → Body ArePods reply a
          → JustListed current a (logged r reply s)
      listed s a r (replied j) h c e = (r, j, s.trace, refl, c, e, h)
      listed s a r failed h c e = absurd e
      listed s a r not_json h c e = absurd e

  Found-Listed :
      (current : Json) (pods : List Json) (found : Option Backend) (s : State)
      → as_u64 (replicas_of current) ≡ some 1
      → JustListed current pods s
      → Found pods found
      → WhenFound Listed found s
  Found-Listed current pods none s one h f = tt
  Found-Listed current pods (some b) s one (r, j, before, t, c, items, read)
        (pod, only, ready, from) =
      record {
        listing = r;
        pods = j;
        pod = pod;
        current = current;
        before = before;
        just_now = t;
        listed = c;
        only_pod = items ∙ ap (λ ps. some ps) only;
        ready_pod = ready;
        from = from;
        read = read;
        running = one;
      }

  pub Seen-ready_backend :
      (current : Json)
      → as_u64 (replicas_of current) ≡ some 1
      → Seen (LastRead current) (ready_backend env) (WhenFound Listed)
  unfolding ready_backend
  Seen-ready_backend current one =
      Triple-gets (λ s. s.controller)
        λ (self : Controller).
          Triple-bind
            (Triple-weaken (λ s h. h.0) (λ _ s h. h) (λ s h. h) (Seen-pods current self.kube))
            λ pods.
              Triple-weaken (λ s h. h) (λ found s h. Found-Listed current pods found s one h.0 h.1)
                (λ s h. h)
                (Seen-silent (JustListed current pods) (Found pods) _
                  (single_pod-IsSilent env self.config pods) (Seen-single_pod self.config pods))
