-- ===== src/Proxy/Controller/Wake/Awake.antt =====
-- What `wake` has seen of the worker that it returns.
use mathlib.Core.Path.{subst}
use duckflight_extension.Common.{
  ℕ, zero, suc, ◌+◌, String, true, false, Option, none, some, List, [], ◌∷◌, ◌≡◌, ◌≢◌, refl, sym,
  ap, ◌∙◌, leb,
}
use duckflight_extension.Proxy.Json.{Json, index, as_u64, as_str, as_array}
use duckflight_extension.Proxy.World.{
  Result, ok, err, Backend, list_pods, get_status, resume, Request, Reply, failed, not_json,
  replied, sent, Trace, Environment, instant_now,
}
use duckflight_extension.Proxy.Config.{Config}
use duckflight_extension.Proxy.Kubernetes
use duckflight_extension.Proxy.Backend
use duckflight_extension.Proxy.Kubernetes.{Kubernetes, owner_annotation}
use duckflight_extension.Proxy.Backend.{IdleStatus, deserialize, is_ready, from_pod}
use duckflight_extension.Proxy.Backend.Requests.{IsStatus, Asked-status, Asked-resume}
use duckflight_extension.Proxy.Evidence.{last_read}
use duckflight_extension.Proxy.Hoare.{
  Post, Body, Triple-pure, Triple-raise, Triple-if, Triple-weaken, Triple-bind, Triple-gets,
  Triple-modify, Triple-Asked, logged,
}
use duckflight_extension.Proxy.Controller.{
  State, lift, set_idle_since, replicas_of, fence_if_needed,
}
use duckflight_extension.Proxy.Controller.Wake.{
  resume_if, wake_worker, start_worker, wake_replicas, wake_round, wake_next, wake_loop, wake,
}
use duckflight_extension.Proxy.Controller.Found.{
  Seen, Seen-any, Nothing, LastRead, WhenFound, Listed, Seen-current, Seen-ready_backend,
}

-- The permit of a suspended worker has been given back, and the worker accepted it.
abbrev pub ResumedAfter : Backend → Option String → Trace → Trace → Type 0
ResumedAfter b none before t = t ≡ before
ResumedAfter b (some permit) before t =
    (r : Request) × (reply : Reply) × (r.call ≡ resume b permit)
    × (reply ≢ failed)
    × (t ≡ sent r reply ∷ before)

-- `b` is the only pod of the deployment's one worker, its pod is ready, it has answered, and it is not
-- suspended any more.
pub record WorkerAwake (env : Environment) (b : Backend) (t : Trace) : Type 0 where
  pub question : Request
  pub answer : Json
  pub status : IdleStatus
  pub listing : Request
  pub pods : Json
  pub pod : Json
  pub address : String
  pub current : Json
  pub before : Trace
  pub just_now :
      ResumedAfter b status.permit
        (sent question (replied answer) ∷ sent listing (replied pods) ∷ before)
        t
  pub asked : question.call ≡ get_status b
  pub answered : deserialize answer ≡ some status
  pub listed : listing.call ≡ list_pods
  pub only_pod : as_array (index pods "items") ≡ some (pod ∷ [])
  pub ready_pod : is_ready pod ≡ true
  pub same_pod : as_str (index (index pod "metadata") "uid") ≡ some b.uid
  pub has_address : as_str (index (index pod "status") "podIP") ≡ some address
  pub same_ip : env.parse_ip address ≡ some b.ip
  pub read : last_read before ≡ some current
  pub running : as_u64 (replicas_of current) ≡ some 1

module _ (env : Environment) where
  -- The worker that was found has answered.
  record Answered (b : Backend) (status : IdleStatus) (t : Trace) : Type 0 where
    question : Request
    answer : Json
    before : Trace
    just_now : t ≡ sent question (replied answer) ∷ before
    asked : question.call ≡ get_status b
    answered : deserialize answer ≡ some status
    found : Listed env b before

  Seen-status :
      (b : Backend) (config : Config)
      → Seen env
          (λ s. Listed env b s.trace)
          (lift (Backend.status env b false config))
          (λ a s. Answered b a s.trace)
  Seen-status b config =
      Triple-Asked (Asked-status env b false config) (λ s h. tt) (λ s r reply h c. tt) said
    where
      said :
          (s : State) (a : IdleStatus) (r : Request) (reply : Reply)
          → Listed env b s.trace
          → r.call ≡ get_status b
          → Body IsStatus reply a
          → Answered b a (logged r reply s).trace
      said s a r (replied j) h c e = record {
        question = r;
        answer = j;
        before = s.trace;
        just_now = refl;
        asked = c;
        answered = e;
        found = h;
      }
      said s a r failed h c e = absurd e
      said s a r not_json h c e = absurd e

  Answered-WorkerAwake :
      (b : Backend) (status : IdleStatus) (before t : Trace)
      → Answered b status before
      → ResumedAfter b status.permit before t
      → WorkerAwake env b t
  Answered-WorkerAwake b status before t h resumed =
      let found = h.found in
      let log : before
          ≡ sent h.question (replied h.answer)
            ∷ sent found.listing (replied found.pods)
            ∷ found.before =
        h.just_now ∙ ap (λ l. sent h.question (replied h.answer) ∷ l) found.just_now in
      record {
        question = h.question;
        answer = h.answer;
        status = status;
        listing = found.listing;
        pods = found.pods;
        pod = found.pod;
        address = found.from.1.0;
        current = found.current;
        before = found.before;
        just_now = subst (λ l. ResumedAfter b status.permit l t) log resumed;
        asked = h.asked;
        answered = h.answered;
        listed = found.listed;
        only_pod = found.only_pod;
        ready_pod = found.ready_pod;
        same_pod = found.from.0;
        has_address = found.from.1.1;
        same_ip = found.from.1.2;
        read = found.read;
        running = found.running;
      }

  Seen-resume_if :
      (b : Backend) (status : IdleStatus) (config : Config) (permit : Option String)
      → status.permit ≡ permit
      → Seen env
          (λ s. Answered b status s.trace)
          (lift (resume_if env config b permit))
          (λ _ s. WorkerAwake env b s.trace)
  unfolding resume_if
  Seen-resume_if b status config none e = Triple-pure tt (λ s h.
      Answered-WorkerAwake b status s.trace s.trace h
        (subst (λ o. ResumedAfter b o s.trace s.trace) (sym e) refl))
  Seen-resume_if b status config (some permit) e =
      Triple-Asked (Asked-resume env b permit config) (λ s h. tt) (λ s r reply h c. tt) accepted
    where
      accepted :
          (s : State) (a : Unit {0}) (r : Request) (reply : Reply)
          → Answered b status s.trace
          → r.call ≡ resume b permit
          → reply ≢ failed
          → WorkerAwake env b (logged r reply s).trace
      accepted s a r reply h c f =
          Answered-WorkerAwake b status s.trace (sent r reply ∷ s.trace) h (
            subst (λ o. ResumedAfter b o s.trace (sent r reply ∷ s.trace)) (sym e)
              (r, reply, c, f, refl))

  Seen-wake_worker :
      (found : Option Backend)
      → Seen env
          (WhenFound env (Listed env) found)
          (wake_worker env found)
          (WhenFound env (WorkerAwake env))
  unfolding wake_worker
  Seen-wake_worker none = Triple-pure none (λ s h. tt)
  Seen-wake_worker (some b) =
      Triple-gets (λ s. s.config)
        λ (config : Config).
          Triple-bind (Triple-weaken (λ s h. h.0) (λ _ s h. h) (λ s h. h) (Seen-status b config))
            λ (status : IdleStatus).
              Triple-bind (Seen-resume_if b status config status.permit refl)
                λ _. Triple-pure (some b) (λ s h. h)

  Seen-start_worker :
      (current : Json) (items : List Json)
      → Seen env (Nothing env) (start_worker env current items) (WhenFound env (WorkerAwake env))
  unfolding start_worker
  Seen-start_worker current [] = Triple-bind (Seen-any env _) λ _. Triple-pure none (λ s h. tt)
  Seen-start_worker current (pod ∷ rest) = Triple-pure none (λ s h. tt)

  Seen-wake_replicas :
      (current : Json) (replicas : Option ℕ)
      → as_u64 (replicas_of current) ≡ replicas
      → Seen env
          (LastRead env current)
          (wake_replicas env current replicas)
          (WhenFound env (WorkerAwake env))
  unfolding wake_replicas
  Seen-wake_replicas current (some zero) e =
      Triple-weaken {P = Nothing env} (λ s h. tt) (λ _ s h. h) (λ s h. h)
        (Triple-gets (λ s. s.kube)
          λ (kube : Kubernetes).
            Triple-weaken {P = Nothing env} (λ s h. tt) (λ _ s h. h) (λ s h. h)
              (Triple-bind (Seen-any env (lift (Kubernetes.pods env kube)))
                λ items. Seen-start_worker current items))
  Seen-wake_replicas current (some (suc zero)) e =
      Triple-bind (Seen-ready_backend env current e) Seen-wake_worker
  Seen-wake_replicas current (some (suc (suc n))) e = Triple-raise _ (λ s h. tt)
  Seen-wake_replicas current none e = Triple-raise _ (λ s h. tt)

  Seen-wake_round :
      (deadline : ℕ)
      → Seen env (Nothing env) (wake_round env deadline) (WhenFound env (WorkerAwake env))
  unfolding wake_round
  Seen-wake_round deadline = Triple-bind (Seen-any env _) λ now.
      Triple-if (leb deadline now) (λ e. Triple-raise _ (λ s h. tt))
        λ e.
          Triple-bind (Seen-any env (fence_if_needed env))
            λ _. Triple-bind (Seen-current env) λ current. Seen-wake_replicas current _ refl

  Seen-wake_loop :
      (fuel deadline : ℕ)
      → Seen env (Nothing env) (wake_loop env fuel deadline) (λ b s. WorkerAwake env b s.trace)
  unfolding wake_loop wake_next
  Seen-wake_loop zero deadline = Triple-raise _ (λ s h. tt)
  Seen-wake_loop (suc fuel) deadline =
      Triple-bind (Seen-wake_round deadline) (next (Seen-wake_loop fuel deadline))
    where
      next :
          Seen env (Nothing env) (wake_loop env fuel deadline) (λ b s. WorkerAwake env b s.trace)
          → (found : Option Backend)
          → Seen env
              (WhenFound env (WorkerAwake env) found)
              (wake_next env (wake_loop env fuel deadline) found)
              (λ b s. WorkerAwake env b s.trace)
      next again none = Triple-bind (Seen-any env _) λ _. again
      next again (some b) = Triple-pure b (λ s h. h)

  Seen-wake : (fuel : ℕ) → Seen env (Nothing env) (wake env fuel) (λ b s. WorkerAwake env b s.trace)
  unfolding wake
  Seen-wake fuel =
      Triple-modify {R = Nothing env} (set_idle_since none) (λ s h. tt)
        (Triple-bind (Seen-any env (lift (instant_now env))) λ now.
          Triple-gets (λ s. s.config)
            λ (config : Config).
              Triple-weaken {P = Nothing env} (λ s h. tt) (λ _ s h. h) (λ s h. h)
                (Seen-wake_loop fuel (now + config.cold_start_timeout)))

returned :
    {A : Type 0} (Q : A → State → Type 0) (x : Result A × State) (a : A)
    → Post Q (λ _. Unit {0}) x
    → x.0 ≡ ok a
    → Q a x.1
returned Q (ok a, s) b h e = subst (λ c. Q c s) (cc e) h
returned Q (err x, s) b h e = absurd cc

-- When `wake` returns a worker, the last thing that it did was to see it awake: the deployment asks for
-- one worker, its only pod is ready and has the worker's uid and address, the worker has answered,
-- and if it was suspended, its permit was given back and accepted.
pub wake-WorkerAwake :
    (env : Environment) (fuel : ℕ) (s : State) (b : Backend)
    → (wake env fuel s).0 ≡ ok b
    → WorkerAwake env b (wake env fuel s).1.trace
wake-WorkerAwake env fuel s b e =
    returned (λ b s. WorkerAwake env b s.trace) (wake env fuel s) b ((Seen-wake env fuel).at s tt) e
