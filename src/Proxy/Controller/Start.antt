-- ===== src/Proxy/Controller/Start.antt =====
-- `Controller::new`: the controller that it returns has fenced, and its log is sound.
use mathlib.Core.Path.{subst, subst₃}
use duckflight_extension.Common.{ℕ, String, true, false, Option, none, some, [], ◌≡◌, refl, sym}
use duckflight_extension.Proxy.Json.{Json, index, as_str}
use duckflight_extension.Proxy.World.{
  Error, Result, ok, err, read_deployment, Reply, Trace, Environment, Io, from_option, new_v4,
  missing,
}
use duckflight_extension.Proxy.Config.{Config}
use duckflight_extension.Proxy.Kubernetes
use duckflight_extension.Proxy.Kubernetes.{Kubernetes, deployment}
use duckflight_extension.Proxy.Kubernetes.Requests.{Asked-deployment, new-IsSilent}
use duckflight_extension.Proxy.Hoare.{Post, Triple, Triple-bind, Asked, unsent, refused, answered}
use duckflight_extension.Proxy.Evidence.{open_count, Guarded}
use duckflight_extension.Proxy.Frame.{Interval, Frame}
use duckflight_extension.Proxy.Controller.{Controller, State, started, fenced, new}
use duckflight_extension.Proxy.Controller.Writes.{Triple-fence}

-- Nothing in the log needed a permission, and no connection is open.
abbrev IsCalm : Trace → Type 0
IsCalm t = ((owner uid : String) (timeout : ℕ) → Guarded owner uid timeout t) × (open_count t ≡ 0)

-- The frame of a controller by its own owner, deployment and timeout.
abbrev pub Started : Controller → Trace → Type 0
Started c t =
    Frame c.owner c.uid c.config.idle_timeout 0 none none (record { controller = c; trace = t })
    × (c.needs_fence ≡ false)

Frame-own :
    {owner uid : String} {timeout k : ℕ} {i q : Interval} {s : State}
    → Frame owner uid timeout k i q s
    → Frame s.owner s.uid s.config.idle_timeout k i q s
Frame-own {k} {i} {q} {s} f =
    subst₃ (λ o u n. Frame o u n k i q s) (sym f.is_owner) (sym f.is_uid) (sym f.is_timeout) f

module _ (env : Environment) where
  Asked-IsCalm :
      {A : Type 0} {Fits : Reply → A → Type 0} {t : Trace} {x : Result A × Trace}
      → IsCalm t
      → Asked read_deployment Fits t x
      → Post (λ _. IsCalm) IsCalm x
  Asked-IsCalm calm (unsent e) = calm
  Asked-IsCalm calm (refused e r reply c) = (λ o u n. (rw c tt, calm.0 o u n), calm.1)
  Asked-IsCalm calm (answered a r reply c f) = (λ o u n. (rw c tt, calm.0 o u n), calm.1)

  started-Started :
      (o u : String) (n : ℕ) (x : Result (Unit {0}) × State)
      → Post
          (λ _ s. Frame o u n 0 none none s × (s.needs_fence ≡ false))
          (Frame o u n 0 none none)
          x
      → Post {S = Trace} Started (λ _. Unit {0}) (started env x)
  unfolding started
  started-Started o u n (ok a, s) (f, e) = (Frame-own f, e)
  started-Started o u n (err e, s) f = tt

  Triple-fenced :
      (c : Controller)
      → c.connections ≡ 0
      → c.idle_since ≡ none
      → c.needs_fence ≡ true
      → Triple IsCalm (fenced env c) Started (λ _. Unit {0})
  unfolding fenced
  Triple-fenced c e i n = record {
    at = λ t calm. started-Started c.owner c.uid c.config.idle_timeout _ (
        (Triple-fence env c.owner c.uid c.config.idle_timeout 0 none none).at
          (record { controller = c; trace = t })
          (record {
            guarded = calm.0 _ _ _;
            settled = λ h. cc;
            counted = calm.1;
            connections = e;
            recorded = i;
            quiet = tt;
            is_owner = refl;
            is_uid = refl;
            is_timeout = refl;
          }));
  }

  Post-IsCalm :
      {A : Type 0} (x : Result A × Trace) → IsCalm x.1 → Post (λ _. IsCalm) (λ _. Unit {0}) x
  Post-IsCalm (ok a, t) calm = calm
  Post-IsCalm (err e, t) calm = tt

  silent-IsCalm :
      {A : Type 0} (m : Io A)
      → ((t : Trace) → (m t).1 ≡ t)
      → Triple IsCalm m (λ _. IsCalm) (λ _. Unit {0})
  silent-IsCalm m silent = record { at = λ t calm. Post-IsCalm (m t) (rw (silent t) calm) }

  from_option-IsCalm :
      {A : Type 0} (e : Error) (o : Option A)
      → Triple IsCalm (from_option e o) (λ _. IsCalm) (λ _. Unit {0})
  from_option-IsCalm e none = record { at = λ t calm. tt }
  from_option-IsCalm e (some a) = record { at = λ t calm. calm }

  deployment-IsCalm :
      (kube : Kubernetes) → Triple IsCalm (deployment env kube) (λ _. IsCalm) (λ _. Unit {0})
  deployment-IsCalm kube = record {
    at = λ t calm. Post-IsCalm _ (calm_after _ (Asked-IsCalm calm (Asked-deployment env kube t)));
  }
    where
      calm_after : (x : Result Json × Trace) → Post (λ _. IsCalm) IsCalm x → IsCalm x.1
      calm_after (ok a, t) h = h
      calm_after (err e, t) h = h

  new_v4-IsCalm : Triple IsCalm (new_v4 env) (λ _. IsCalm) (λ _. Unit {0})
  unfolding new_v4
  new_v4-IsCalm = record { at = λ t calm. calm }

  pub Triple-new : (config : Config) → Triple IsCalm (new env config) Started (λ _. Unit {0})
  unfolding new
  Triple-new config =
      Triple-bind (silent-IsCalm (Kubernetes.new env config) (new-IsSilent env config))
        λ (kube : Kubernetes). Triple-bind (deployment-IsCalm kube) λ (current : Json).
          Triple-bind
            (from_option-IsCalm (missing "missing deployment UID")
              (as_str (index (index current "metadata") "uid")))
            λ uid. Triple-bind new_v4-IsCalm λ owner. Triple-fenced _ refl refl refl

  -- A controller that `new` returns is one that has fenced, on a log that is sound.
  pub new-Started :
      (config : Config) {c : Controller} {t : Trace} → new env config [] ≡ (ok c, t) → Started c t
  new-Started config {c} {t} e =
      subst (Post {S = Trace} Started (λ _. Unit {0})) e
        ((Triple-new config).at [] ((λ o u n. tt), refl))
