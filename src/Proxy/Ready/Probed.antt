-- ===== src/Proxy/Ready/Probed.antt =====
-- When the readiness probe of crates/duckflight-idle-proxy/src/main.rs finds its worker ready.
use mathlib.Core.Path.{subst}
use duckflight_extension.Common.{
  arith, [], ℕ, String, ◌<>◌, sym, Bool, true, false, not, ◌||◌, Option, none, some, List, ◌∷◌,
  ◌==◌, ◌≡◌, refl, ap, ◌∙◌, ◌↔◌, if◌then◌else◌,
}
use duckflight_extension.Proxy.World.{
  Error, external, ok, message, Act, ◌>>=◌, pure, raise, from_option, IpAddr, Certificate, Client,
  Reply, failed, not_json, replied,
}
use duckflight_extension.Proxy.Text.{trim, decimal}
use duckflight_extension.Proxy.Json.{Json}
use duckflight_extension.Proxy.Backend.{IdleStatus, deserialize}
use duckflight_extension.Proxy.Ready.{
  Probe, Host, local_client, probe_of, body_of, parsed_body, check_ready, built, and_read,
  and_parse, worker_ready,
}

-- The worker has answered a request for its status that went to the local address, at the port of its
-- control endpoint and under its own name, and only over https.
pub record Answered (host : Host) (probe : Probe) : Type 0 where
  pub address : String
  pub ip : IpAddr
  pub port : ℕ
  pub hostname : String
  pub ca : Certificate
  pub token_file : String
  pub token : String
  pub body : Json
  pub status : IdleStatus
  pub address_is : host.variable "DUCKFLIGHT_IDLE_CONTROL_ADDRESS" ≡ some address
  pub parsed : host.parse_socket_addr address ≡ some (ip, port)
  pub name_is : host.variable "DUCKFLIGHT_IDLE_SERVER_NAME" ≡ some hostname
  pub ca_is : host.certificate "/run/idle-secret/ca.crt" ≡ some ca
  pub token_file_is : host.variable "DUCKFLIGHT_IDLE_TOKEN_FILE" ≡ some token_file
  pub token_is : host.read_to_string token_file ≡ some token
  pub probe_is : probe ≡ record {
    url = "https://" <> hostname <> ":" <> decimal port <> "/status";
    client = record {
      root_certificate = ca;
      https_only = true;
      resolve = some (hostname, "127.0.0.1", port);
      timeout = 2000;
    };
    token = trim token;
  }
  pub can_build : host.can_build probe.client ≡ true
  pub answered : host.answer probe ≡ replied body
  pub read : deserialize body ≡ some status
  pub version_is : status.protocol_version ≡ 1
  pub ready_is : status.ready ≡ true

-- A step that takes a value apart was passed.
from_option-ok :
    {S A B : Type 0} (e : Error) (o : Option A) (k : A → Act S B) (s : S) (b : B)
    → ((from_option e o >>= k) s).0 ≡ ok b
    → (a : A) × (o ≡ some a) × ((k a s).0 ≡ ok b) × ((from_option e o >>= k) s ≡ k a s)
from_option-ok e none k s b h = cc
from_option-ok e (some a) k s b h = (a, refl, h, refl)

check_ready-ok :
    (status : IdleStatus) (sent : List Probe)
    → (check_ready status sent).0 ≡ ok tt
    → (status.protocol_version ≡ 1)
      × (status.ready ≡ true)
      × (check_ready status sent ≡ (ok tt, sent))
unfolding check_ready
check_ready-ok status sent h =
    let (v, r, e) = both (status.protocol_version == 1) status.ready h in (ground arith, r, e)
  where
    both :
        (v r : Bool)
        → ((if not v || not r
              then raise (message "idle-capable listeners are not ready")
              else pure tt)
            sent).0
          ≡ ok tt
        → (v ≡ true)
          × (r ≡ true)
          × ((if not v || not r
                  then raise (message "idle-capable listeners are not ready")
                  else pure tt)
                sent
              ≡ (ok tt, sent))
    both true true h = (refl, refl, refl)
    both true false h = cc
    both false r h = cc

-- What the helpers of the probe have taken apart.
built-ok :
    (host : Host) (c c' : Client) → built host c ≡ some c' → (c' ≡ c) × (host.can_build c ≡ true)
built-ok host c c' h = from_test (host.can_build c) h
  where
    from_test : (b : Bool) → (if b then some c else none) ≡ some c' → (c' ≡ c) × (b ≡ true)
    from_test true h = (cc, refl)
    from_test false h = cc

and_parse-ok :
    (host : Host) (o : Option String) (a : IpAddr × ℕ)
    → and_parse host o ≡ some a
    → (text : String) × (o ≡ some text) × (host.parse_socket_addr text ≡ some a)
and_parse-ok host none a h = cc
and_parse-ok host (some text) a h = (text, refl, h)

and_read-ok :
    (host : Host) (o : Option String) (a : String)
    → and_read host o ≡ some a
    → (path : String) × (o ≡ some path) × (host.read_to_string path ≡ some a)
and_read-ok host none a h = cc
and_read-ok host (some path) a h = (path, refl, h)

parsed_body-ok :
    (reply : Reply) (status : IdleStatus)
    → parsed_body (body_of reply) ≡ some status
    → (body : Json) × (reply ≡ replied body) × (deserialize body ≡ some status)
parsed_body-ok failed status h = cc
parsed_body-ok not_json status h = cc
parsed_body-ok (replied body) status h = (body, refl, h)

-- An answered probe is what the command sends, and it lets the command succeed.
Answered-ok :
    (host : Host) (sent : List Probe) (probe : Probe)
    → Answered host probe
    → worker_ready host sent ≡ (ok tt, probe ∷ sent)
unfolding worker_ready check_ready
Answered-ok host sent probe a =
    let client = local_client a.ca a.hostname a.port in
    let expected = probe_of a.hostname a.port client a.token in
    let buildable : host.can_build client ≡ true =
      ap (λ p. host.can_build p.client) (sym a.probe_is) ∙ a.can_build in
    let answered : host.answer expected ≡ replied a.body =
      ap host.answer (sym a.probe_is) ∙ a.answered in
    rw
      (
        a.address_is, a.parsed, a.name_is, a.ca_is, buildable, a.token_file_is, a.token_is,
        answered, a.read, a.version_is, a.ready_is,
      )
      (ap (λ p. (ok tt, p ∷ sent)) (sym a.probe_is))

abbrev newest : Probe → List Probe → Probe
newest default [] = default
newest default (probe ∷ probes) = probe

found :
    (host : Host) (sent : List Probe)
    → (worker_ready host sent).0 ≡ ok tt
    → (probe : Probe) × Answered host probe × (worker_ready host sent ≡ (ok tt, probe ∷ sent))
unfolding worker_ready
found host sent h =
    let (address, address_is, h1, e1) =
      from_option-ok external (and_parse host (host.variable "DUCKFLIGHT_IDLE_CONTROL_ADDRESS")) _
        sent tt h in
    let (hostname, name_is, h2, e2) =
      from_option-ok external (host.variable "DUCKFLIGHT_IDLE_SERVER_NAME") _ sent tt h1 in
    let (ca, ca_is, h3, e3) =
      from_option-ok external (host.certificate "/run/idle-secret/ca.crt") _ sent tt h2 in
    let (client, client_is, h4, e4) =
      from_option-ok external (built host (local_client ca hostname address.1)) _ sent tt h3 in
    let (token, token_is, h5, e5) =
      from_option-ok external (and_read host (host.variable "DUCKFLIGHT_IDLE_TOKEN_FILE")) _ sent tt
        h4 in
    let probe = probe_of hostname address.1 client token in
    let (status, status_is, h6, e6) =
      from_option-ok external (parsed_body (body_of (host.answer probe))) _ (probe ∷ sent) tt h5 in
    let (version_is, ready_is, e7) = check_ready-ok status (probe ∷ sent) h6 in
    let (same, can_build) = built-ok host (local_client ca hostname address.1) client client_is in
    let (text, text_is, parsed) = and_parse-ok host _ address address_is in
    let (path, path_is, read_file) = and_read-ok host _ token token_is in
    let (body, answered, read) = parsed_body-ok (host.answer probe) status status_is in
    (
      probe,
      record {
        address = text;
        ip = address.0;
        port = address.1;
        hostname = hostname;
        ca = ca;
        token_file = path;
        token = token;
        body = body;
        status = status;
        address_is = text_is;
        parsed = parsed;
        name_is = name_is;
        ca_is = ca_is;
        token_file_is = path_is;
        token_is = read_file;
        probe_is = ap (λ c. probe_of hostname address.1 c token) same;
        can_build = ap host.can_build same ∙ can_build;
        answered = answered;
        read = read;
        version_is = version_is;
        ready_is = ready_is;
      },
      e1 ∙ e2 ∙ e3 ∙ e4 ∙ e5 ∙ e6 ∙ e7,
    )

-- The probe succeeds exactly if its worker answers the request to its local address with the known version of
-- the protocol and that it is ready; and it has succeeded with one request exactly if this was the request.
pub worker_ready-Answered :
    (host : Host) (sent : List Probe)
    → (((worker_ready host sent).0 ≡ ok tt) ↔ ((probe : Probe) × Answered host probe))
      × ((probe : Probe) → (worker_ready host sent ≡ (ok tt, probe ∷ sent)) ↔ Answered host probe)
worker_ready-Answered host sent = (
  (
    λ h. let (probe, a, e) = found host sent h in (probe, a),
    λ (probe, a). ap (λ r. r.0) (Answered-ok host sent probe a),
  ),
  λ probe. (
    λ e.
        let (probe', a, e') = found host sent (ap (λ r. r.0) e) in
        subst (Answered host) (ap (λ r. newest probe r.1) (sym e' ∙ e)) a,
    Answered-ok host sent probe,
  ),
)
