-- ===== src/Proxy/World.antt =====
-- The world around the proxy of crates/duckflight-idle-proxy/src/main.rs: the HTTP requests that
-- it sends, the log of what it did and was answered, and the environment that answers.
pub mod Requests
use duckflight_extension.Common.{
  ℕ, String, Bool, true, false, if◌then◌else◌, Option, none, some, List, ◌∷◌,
}
use duckflight_extension.Proxy.Text.{trim}
use duckflight_extension.Proxy.Json.{Json}

-- `anyhow::Error`: `external` is an error of a library or of the system that `?` passes on, the
-- others are the proxy's own messages. Two are the model's: of `out_of_fuel`, where a loop was cut short, and
-- of `aborted`, where the task was aborted while it waited for an answer; nothing of the task runs after it.
pub data Error : Type 0 where
  external : Error
  missing : String → Error
  message : String → Error
  out_of_fuel : Error
  aborted : Error

abbrev pub is_aborted : Error → Bool
is_aborted aborted = true
is_aborted _ = false

pub data Result {ℓ} (A : Type ℓ) : Type ℓ where
  ok : A → Result A
  err : Error → Result A

-- A method over the state `S` that may fail: what it changed before the error stays changed.
abbrev pub Act : Type 0 → Type 0 → Type 0
Act S A = S → Result A × S

module _ {S A B : Type 0} where
  abbrev pub continue : Result A → (A → Act S B) → Act S B
  continue (ok a) f s = f a s
  continue (err e) f s = (err e, s)

  infixl 5 ◌>>=◌ ◌>>◌
  abbrev pub ◌>>=◌ : Act S A → (A → Act S B) → Act S B
  ◌>>=◌ m f s = let (r, s') = m s in continue r f s'

  abbrev pub ◌>>◌ : Act S A → Act S B → Act S B
  m >> k = m >>= λ _. k

module _ {S A : Type 0} where
  abbrev pub pure : A → Act S A
  pure a s = (ok a, s)

  abbrev pub raise : Error → Act S A
  raise e s = (err e, s)

  abbrev pub from_option : Error → Option A → Act S A
  from_option e none s = (err e, s)
  from_option e (some a) s = (ok a, s)

  abbrev pub gets : (S → A) → Act S A
  gets f s = (ok (f s), s)

-- The result of a call whose error is handled here.
abbrev pub attempt : {S A : Type 0} → Act S A → Act S (Result A)
attempt m s = let (r, s') = m s in (ok r, s')

abbrev pub modify : {S : Type 0} → (S → S) → Act S (Unit {0})
modify f s = (ok tt, f s)

pub data Method : Type 0 where
  get post patch : Method

-- `std::net::IpAddr`, in its canonical text.
abbrev pub IpAddr : Type 0
IpAddr = String

-- `reqwest::Certificate`, by its text.
abbrev pub Certificate : Type 0
Certificate = String

-- What the builder of a `reqwest::Client` is given. Durations are milliseconds.
pub record Client : Type 0 where
  pub root_certificate : Certificate
  pub https_only : Bool
  pub resolve : Option (String × IpAddr × ℕ)
  pub timeout : ℕ

-- `Backend`: one worker pod and the client that reaches its control endpoint.
pub record Backend : Type 0 where
  pub uid : String
  pub ip : IpAddr
  pub control : Client
  pub url : String

-- Which call of the program a request is, with what the program put into it.
pub data Call : Type 0 where
  read_deployment : Call
  patch_deployment : Json → Call
  list_pods : Call
  get_status : Backend → Call
  suspend : Backend → Call
  resume : Backend → String → Call

pub record Request : Type 0 where
  pub call : Call
  pub method : Method
  pub url : String
  pub query : List (String × String)
  pub client : Client
  pub token : String

-- `failed`: no answer in time, or a status that `error_for_status` refuses. A request that failed
-- may still have been carried out, or be carried out later.
pub data Reply : Type 0 where
  failed : Reply
  not_json : Reply
  replied : Json → Reply

pub data Event : Type 0 where
  sent : Request → Reply → Event
  clock : ℕ → Event
  drew : String → Event
  slept : ℕ → Event
  opened : Event  -- a connection that has sent a byte is counted
  closed : Event  -- a counted connection is no longer

-- The newest event first.
abbrev pub Trace : Type 0
Trace = List Event

abbrev pub Io : Type 0 → Type 0
Io = Act Trace

-- All that the program does not decide: each answer may depend on all that happened before.
pub record Environment : Type 0 where
  pub answer : Trace → Request → Reply
  pub now : Trace → ℕ  -- `Instant::now`, in milliseconds
  pub new_uuid : Trace → String
  pub variable : String → Option String  -- `env::var`
  pub read_to_string : Trace → String → Option String
  pub certificate : Trace → String → Option Certificate  -- read a file, and `Certificate::from_pem`
  pub parse_ip : String → Option IpAddr
  pub can_build : Client → Bool  -- whether `ClientBuilder::build` succeeds
  pub aborts : Trace → Bool  -- whether the task is aborted while it waits for the answer to a request

abbrev pub error_for_status : Reply → Result Reply
error_for_status failed = err external
error_for_status not_json = ok not_json
error_for_status (replied j) = ok (replied j)

module _ (env : Environment) where
  unfoldable pub instant_now : Io ℕ
  instant_now t = let n = env.now t in (ok n, clock n ∷ t)

  unfoldable pub new_v4 : Io String
  new_v4 t = let u = env.new_uuid t in (ok u, drew u ∷ t)

  unfoldable pub read_file : String → Io String
  read_file path t = from_option external (env.read_to_string t path) t

  unfoldable pub read_certificate : String → Io Certificate
  read_certificate path t = from_option external (env.certificate t path) t

  -- `.send().await?.error_for_status()?`
  unfoldable pub send : Request → Io Reply
  send r t =
      let reply = env.answer t r in
      if env.aborts t
      then (err aborted, sent r failed ∷ t)
      else (error_for_status reply, sent r reply ∷ t)

  -- `.bearer_auth(std::fs::read_to_string(path)?.trim()).send().await?.error_for_status()?`
  unfoldable pub send_with_token : String → (String → Request) → Io Reply
  send_with_token path build = do token ← read_file path; send (build (trim token))

  unfoldable pub build_client : Client → Io Client
  build_client c t = elim (env.can_build c) [ true ↦ (ok c, t) | false ↦ (err external, t) ]

unfoldable pub sleep : ℕ → Io (Unit {0})
sleep d t = (ok tt, slept d ∷ t)

-- `.json().await?`
unfoldable pub json_body : Reply → Io Json
json_body (replied j) t = (ok j, t)
json_body _ t = (err external, t)
