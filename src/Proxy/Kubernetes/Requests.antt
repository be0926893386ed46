-- ===== src/Proxy/Kubernetes/Requests.antt =====
-- Each call of the API server is one request, and a result is read off its answer.
use duckflight_extension.Common.{ℕ, String, Option, some, List, ◌≡◌, refl, arith}
use duckflight_extension.Proxy.Json.{Json, index, as_array}
use duckflight_extension.Proxy.World.{
  missing, from_option, Method, Call, read_deployment, patch_deployment, list_pods, Reply, failed,
  not_json, replied, Trace, Environment, read_certificate, build_client,
}
use duckflight_extension.Proxy.World.Requests.{
  IsBody, Reads, Reads-from_option, Reads-json_body, Asked-bind, Asked-send,
}
use duckflight_extension.Proxy.Hoare.{Asked, Body, IsSilent}
use duckflight_extension.Proxy.Config.{Config}
use duckflight_extension.Proxy.Kubernetes.{
  Kubernetes, patch_body, build, request, deployment, patch, pods, new,
}

abbrev pub ArePods : Json → List Json → Type 0
ArePods j items = as_array (index j "items") ≡ some items

module _ (env : Environment) (self : Kubernetes) where
  Asked-request :
      (call : Call) (method : Method) (path : String) (query : List (String × String)) (t : Trace)
      → Asked call (Body IsBody) t (request env self call method path query t)
  unfolding request build
  Asked-request call method path query t =
      Asked-bind t Reads-json_body
        (Asked-send env (build env self call method path query) (λ token. refl) _ t)

  pub Asked-deployment : (t : Trace) → Asked read_deployment (Body IsBody) t (deployment env self t)
  unfolding deployment
  Asked-deployment t = Asked-request _ _ _ _ t

  pub Asked-patch :
      (current : Json) (owner operation : String) (replicas : Option ℕ) (t : Trace)
      → Asked
          (patch_deployment (patch_body current owner operation replicas))
          (Body IsBody)
          t
          (patch env self current owner operation replicas t)
  unfolding patch
  Asked-patch current owner operation replicas t = Asked-request _ _ _ _ t

  Reads-pods :
      (b : Json) (reply : Reply)
      → Body IsBody reply b
      → (t : Trace)
      → Reads
          (Body ArePods)
          reply
          t
          (from_option (missing "missing pod list") (as_array (index b "items")) t)
  Reads-pods b (replied j) e = Reads-from_option (Body ArePods) _ (replied j) _ (λ a h. rw e h)
  Reads-pods b failed e = absurd e
  Reads-pods b not_json e = absurd e

  pub Asked-pods : (t : Trace) → Asked list_pods (Body ArePods) t (pods env self t)
  unfolding pods
  Asked-pods t = Asked-bind t Reads-pods (Asked-request _ _ _ _ t)

pub new-IsSilent : (env : Environment) (config : Config) → IsSilent (new env config)
unfolding new read_certificate build_client
new-IsSilent env config t = ground arith
