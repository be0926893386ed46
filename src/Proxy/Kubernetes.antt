-- ===== src/Proxy/Kubernetes.antt =====
-- `Kubernetes` of crates/duckflight-idle-proxy/src/main.rs: the client of the API server.
pub mod Requests
use duckflight_extension.Common.{
  ℕ, String, ◌<>◌, false, Option, none, some, List, [], ◌∷◌, if◌then◌else◌,
}
use duckflight_extension.Proxy.Text.{has_colon}
use duckflight_extension.Proxy.Json.{
  Json, number, pos_int, string, object, Fields, end, field, index, set_field, as_array,
}
use duckflight_extension.Proxy.World.{
  external, missing, ◌>>=◌, pure, from_option, Method, Client, Call, read_deployment,
  patch_deployment, list_pods, Request, Environment, Io, read_certificate, send_with_token,
  build_client, json_body,
}
use duckflight_extension.Proxy.Config.{Config}

abbrev pub owner_annotation : String
owner_annotation = "duckflight.sidequery.dev/idle-owner"

abbrev pub operation_annotation : String
operation_annotation = "duckflight.sidequery.dev/idle-operation"

pub record Kubernetes : Type 0 where
  pub client : Client
  pub base : String
  pub token_file : String
  pub deployment_path : String
  pub pods_path : String
  pub selector : String

abbrev directory : String
directory = "/var/run/secrets/kubernetes.io/serviceaccount"

unfoldable pub or_default : Option String → String → String
or_default none default = default
or_default (some text) default = text

unfoldable pub bracketed : String → String
bracketed host = if has_colon host then "[" <> host <> "]" else host

-- The body of a merge patch: the precondition on the deployment that was read, the annotations,
-- and the replicas if they are to change.
abbrev pub patch_metadata : Json → String → String → Fields
patch_metadata current owner operation =
    field "metadata"
      (object (
        field "resourceVersion" (index (index current "metadata") "resourceVersion") (
          field "uid" (index (index current "metadata") "uid") (
            field "annotations"
              (object (
                field owner_annotation (string owner)
                  (field operation_annotation (string operation) end)))
              end))))
      end

abbrev pub patch_body : Json → String → String → Option ℕ → Json
patch_body current owner operation none = object (patch_metadata current owner operation)
patch_body current owner operation (some replicas) = object (
    set_field (patch_metadata current owner operation) "spec"
      (object (field "replicas" (number (pos_int replicas)) end)))

module _ (env : Environment) where
  unfoldable pub new : Config → Io Kubernetes
  unfolding or_default bracketed
  new config = do
    ca ← read_certificate env (directory <> "/ca.crt")
    host ← from_option external (env.variable "KUBERNETES_SERVICE_HOST")
    let port = or_default (env.variable "KUBERNETES_SERVICE_PORT_HTTPS") "443"
    client ←
        build_client env
          (record { root_certificate = ca; https_only = false; resolve = none; timeout = 15000 })
    pure (record {
      client = client;
      base = "https://" <> bracketed host <> ":" <> port;
      token_file = directory <> "/token";
      deployment_path =
          "/apis/apps/v1/namespaces/" <> config.namespace <> "/deployments/" <> config.deployment;
      pods_path = "/api/v1/namespaces/" <> config.namespace <> "/pods";
      selector = config.selector;
    })

  module _ (self : Kubernetes) where
    unfoldable pub build : Call → Method → String → List (String × String) → String → Request
    build call method path query token = record {
      call = call;
      method = method;
      url = self.base <> path;
      query = query;
      client = self.client;
      token = token;
    }

    -- `self.client.<method>(…).bearer_auth(…).send().await?.error_for_status()?.json().await?`
    unfoldable pub request : Call → Method → String → List (String × String) → Io Json
    request call method path query = do
      reply ← send_with_token env self.token_file (build call method path query)
      json_body reply

    unfoldable pub deployment : Io Json
    deployment = request read_deployment Method.get self.deployment_path []

    unfoldable pub patch : Json → String → String → Option ℕ → Io Json
    patch current owner operation replicas =
        request (patch_deployment (patch_body current owner operation replicas)) Method.patch
          self.deployment_path []

    unfoldable pub pods : Io (List Json)
    pods = do
      result ← request list_pods Method.get self.pods_path (("labelSelector", self.selector) ∷ [])
      from_option (missing "missing pod list") (as_array (index result "items"))
