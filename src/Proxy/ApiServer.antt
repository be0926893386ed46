-- ===== src/Proxy/ApiServer.antt =====
-- The API server's promise that crates/duckflight-idle-proxy/src/main.rs relies on: optimistic concurrency. A
-- write of the Deployment with a resource version is carried out only while the Deployment still has that
-- version, which every write replaces by a new one. A write without an answer may be carried out at any
-- time, or never.
pub mod Tracked
pub mod Delayed
use mathlib.Core.List.{Memᴰ}
use text.Mathlib.Text.{◌==◌ as str_eq}
use duckflight_extension.Common.{ℕ, String, Bool, true, false, ◌||◌, List, [], ◌∷◌, ◌≡◌}
use duckflight_extension.Proxy.Json.{Json, index, is_null, is_text}
use duckflight_extension.Proxy.World.{
  Backend, Call, read_deployment, patch_deployment, list_pods, get_status, suspend, resume, Request,
  Reply, failed, not_json, replied, Event, sent, clock, drew, slept, opened, closed, Trace,
}

-- The Deployment's version, those that it had before, and the writes that were sent and not answered.
pub record ApiServer : Type 0 where
  pub version : String
  pub past : List String
  pub late : List Json

abbrev pub is_among : String → List String → Bool
is_among v [] = false
is_among v (w ∷ ws) = str_eq v w || is_among v ws

-- Whether the Deployment has or had the version.
abbrev pub is_used : String → ApiServer → Bool
is_used v s = is_among v (s.version ∷ s.past)

abbrev pub next_version : String → ApiServer → ApiServer
next_version v s = record { version = v; past = s.version ∷ s.past; late = s.late }

abbrev pub resource_version : Json → Json
resource_version j = index (index j "metadata") "resourceVersion"

-- Whether a write can be carried out now. One that names no version always can.
abbrev pub accepts : Json → ApiServer → Bool
accepts body s = is_null (resource_version body) || is_text (resource_version body) s.version

-- What happens while the proxy waits: another client writes, or a write is carried out that the proxy
-- does not wait for any more.
pub data Move (s : ApiServer) : ApiServer → Type 0 where
  other_write : (v : String) → is_used v s ≡ false → Move s (next_version v s)
  late_write :
      (body : Json) (v : String)
      → Memᴰ body s.late
      → accepts body s ≡ true
      → is_used v s ≡ false
      → Move s (next_version v s)

abbrev pub wait_for : Json → ApiServer → ApiServer
wait_for body s = record { version = s.version; past = s.past; late = body ∷ s.late }

-- How the server answers a call. A failed call may be one that it refuses, or one whose answer is lost.
pub data Answered (s : ApiServer) : Call → Reply → ApiServer → Type 0 where
  reads :
      (j : Json)
      → is_text (resource_version j) s.version ≡ true
      → Answered s read_deployment (replied j) s
  read_failed : Answered s read_deployment failed s
  read_not_json : Answered s read_deployment not_json s
  writes :
      (body j : Json) (v : String)
      → accepts body s ≡ true
      → is_used v s ≡ false
      → Answered s (patch_deployment body) (replied j) (next_version v s)
  write_failed : (body : Json) → Answered s (patch_deployment body) failed (wait_for body s)
  write_not_json : (body : Json) → Answered s (patch_deployment body) not_json (wait_for body s)
  lists : (reply : Reply) → Answered s list_pods reply s
  worker_status : (b : Backend) (reply : Reply) → Answered s (get_status b) reply s
  worker_suspend : (b : Backend) (reply : Reply) → Answered s (suspend b) reply s
  worker_resume :
      (b : Backend) (permit : String) (reply : Reply) → Answered s (resume b permit) reply s

pub data Logged (s : ApiServer) : Event → ApiServer → Type 0 where
  request :
      {s' : ApiServer} (r : Request) (reply : Reply)
      → Answered s r.call reply s'
      → Logged s (sent r reply) s'
  reads_clock : (n : ℕ) → Logged s (clock n) s
  draws : (u : String) → Logged s (drew u) s
  sleeps : (d : ℕ) → Logged s (slept d) s
  opens : Logged s opened s
  closes : Logged s closed s

-- The server has come to this state while the proxy's log grew to this one.
pub data History : Trace → ApiServer → Type 0 where
  began : (s : ApiServer) → is_among s.version s.past ≡ false → s.late ≡ [] → History [] s
  moved : {t : Trace} {s s' : ApiServer} → History t s → Move s s' → History t s'
  logged :
      {t : Trace} {s s' : ApiServer} {e : Event} → History t s → Logged s e s' → History (e ∷ t) s'

-- The server's states from one on.
pub data Later (s : ApiServer) : ApiServer → Type 0 where
  now : Later s s
  then_move : {s' s'' : ApiServer} → Later s s' → Move s' s'' → Later s s''
  then_event : {s' s'' : ApiServer} {e : Event} → Later s s' → Logged s' e s'' → Later s s''
