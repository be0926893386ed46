-- ===== src/Proxy/Evidence.antt =====
-- What the log of the proxy has to show before a request may be sent. The newest event comes first,
-- so the tail of the log is what had happened before.
use duckflight_extension.Common.{
  ℕ, zero, suc, ◌+◌, ◌-◌, ◌≤◌, String, true, false, Option, none, some, [], ◌∷◌, ◌≡◌, ◌⊎◌,
}
use duckflight_extension.Proxy.Json.{Json, string, index, as_u64, as_array, is_text, is_int}
use duckflight_extension.Proxy.World.{
  Backend, Call, read_deployment, patch_deployment, list_pods, get_status, suspend, resume, Request,
  Reply, failed, not_json, replied, sent, clock, drew, slept, opened, closed, Trace,
}
use duckflight_extension.Proxy.Kubernetes.{owner_annotation}
use duckflight_extension.Proxy.Backend.{IdleStatus, deserialize}
use duckflight_extension.Proxy.Controller.{replicas_of}

-- The connections that were opened and are not yet closed.
abbrev pub open_count : Trace → ℕ
open_count [] = 0
open_count (opened ∷ t) = open_count t + 1
open_count (closed ∷ t) = open_count t - 1
open_count (sent r reply ∷ t) = open_count t
open_count (clock n ∷ t) = open_count t
open_count (drew u ∷ t) = open_count t
open_count (slept d ∷ t) = open_count t

-- The deployment that the last read returned, if no write was tried since.
abbrev pub read_after : Call → Reply → Option Json → Option Json
read_after read_deployment (replied j) before = some j
read_after read_deployment failed before = none
read_after read_deployment not_json before = none
read_after (patch_deployment body) reply before = none
read_after list_pods reply before = before
read_after (get_status b) reply before = before
read_after (suspend b) reply before = before
read_after (resume b p) reply before = before

abbrev pub last_read : Trace → Option Json
last_read [] = none
last_read (sent r reply ∷ t) = read_after r.call reply (last_read t)
last_read (opened ∷ t) = last_read t
last_read (closed ∷ t) = last_read t
last_read (clock n ∷ t) = last_read t
last_read (drew u ∷ t) = last_read t
last_read (slept d ∷ t) = last_read t

-- The last write was answered, so none is outstanding.
abbrev pub SettledAfter : Call → Reply → Type 0 → Type 0
SettledAfter (patch_deployment body) (replied j) Before = Unit
SettledAfter (patch_deployment body) failed Before = ⊥
SettledAfter (patch_deployment body) not_json Before = ⊥
SettledAfter read_deployment reply Before = Before
SettledAfter list_pods reply Before = Before
SettledAfter (get_status b) reply Before = Before
SettledAfter (suspend b) reply Before = Before
SettledAfter (resume b p) reply Before = Before

abbrev pub IsSettled : Trace → Type 0
IsSettled [] = ⊥
IsSettled (sent r reply ∷ t) = SettledAfter r.call reply (IsSettled t)
IsSettled (opened ∷ t) = IsSettled t
IsSettled (closed ∷ t) = IsSettled t
IsSettled (clock n ∷ t) = IsSettled t
IsSettled (drew u ∷ t) = IsSettled t
IsSettled (slept d ∷ t) = IsSettled t

-- The worker `uid`, at this boot, answered that nothing keeps it awake and that it is not suspended.
pub record IdleReply (uid boot : String) (b : Backend) (j : Json) : Type 0 where
  pub status : IdleStatus
  pub read : deserialize j ≡ some status
  pub not_busy : status.busy ≡ false
  pub not_suspended : status.permit ≡ none
  pub same_boot : status.boot_id ≡ boot
  pub same_pod : b.uid ≡ uid

-- A call that an idle interval of the worker survives.
abbrev pub QuietCall : String → String → Call → Reply → Type 0
QuietCall uid boot read_deployment reply = Unit
QuietCall uid boot list_pods reply = Unit
QuietCall uid boot (patch_deployment body) reply = as_u64 (replicas_of body) ≡ none
QuietCall uid boot (get_status b) (replied j) = IdleReply uid boot b j
QuietCall uid boot (get_status b) failed = ⊥
QuietCall uid boot (get_status b) not_json = ⊥
QuietCall uid boot (suspend b) reply = ⊥
QuietCall uid boot (resume b p) reply = ⊥

-- The newest event is an idle answer of the worker.
abbrev pub SeenIdle : String → String → Trace → Type 0
SeenIdle uid boot (sent r (replied j) ∷ t) =
    (b : Backend) × (r.call ≡ get_status b) × IdleReply uid boot b j
SeenIdle uid boot _ = ⊥

-- An unbroken idle interval: it began with an idle answer followed by the clock reading `since`, and
-- from there on no connection was opened or closed, every answer of the worker was idle, nothing
-- was resumed or suspended, and the replicas were not changed.
abbrev pub Quiet : String → String → ℕ → Trace → Type 0
Quiet uid boot since [] = ⊥
Quiet uid boot since (clock n ∷ t) = ((n ≡ since) × SeenIdle uid boot t) ⊎ Quiet uid boot since t
Quiet uid boot since (sent r reply ∷ t) = QuietCall uid boot r.call reply × Quiet uid boot since t
Quiet uid boot since (drew u ∷ t) = Quiet uid boot since t
Quiet uid boot since (slept d ∷ t) = Quiet uid boot since t
Quiet uid boot since (opened ∷ t) = ⊥
Quiet uid boot since (closed ∷ t) = ⊥

-- The deployment names the controller as its owner.
abbrev pub IsOwned : String → Json → Type 0
IsOwned owner current =
    is_text (index (index (index current "metadata") "annotations") owner_annotation) owner ≡ true

-- A worker of the deployment `current` may be put to sleep: the deployment is this controller's, the
-- worker has just granted a permit while it was not busy, it is running, and no connection is open.
pub record SleepAllowed (owner : String) (current : Json) (t : Trace) : Type 0 where
  pub operation : String
  pub request : Request
  pub body : Json
  pub before : Trace
  pub backend : Backend
  pub status : IdleStatus
  pub permit : String
  pub just_now : t ≡ drew operation ∷ sent request (replied body) ∷ before
  pub asked : request.call ≡ suspend backend
  pub answered : deserialize body ≡ some status
  pub not_busy : status.busy ≡ false
  pub granted : status.permit ≡ some permit
  pub mine : IsOwned owner current
  pub running : is_int (replicas_of current) 1 ≡ true
  pub unpinned : open_count t ≡ 0

-- A worker may be started: the deployment is this controller's and has no replicas, and no pod of an old
-- worker is left.
pub record StartAllowed (owner : String) (current : Json) (t : Trace) : Type 0 where
  pub operation : String
  pub request : Request
  pub body : Json
  pub before : Trace
  pub just_now : t ≡ drew operation ∷ sent request (replied body) ∷ before
  pub asked : request.call ≡ list_pods
  pub no_pods : as_array (index body "items") ≡ some []
  pub mine : IsOwned owner current
  pub stopped : as_u64 (replicas_of current) ≡ some 0

abbrev pub ReplicasAllowed : String → Option ℕ → Json → Trace → Type 0
ReplicasAllowed owner none current t = Unit
ReplicasAllowed owner (some zero) current t = SleepAllowed owner current t
ReplicasAllowed owner (some (suc zero)) current t = StartAllowed owner current t
ReplicasAllowed owner _ current t = ⊥

-- A write is conditional on the deployment that was last read, which is the worker's own, and names
-- this controller as the owner.
pub record WriteAllowed (owner uid : String) (body : Json) (t : Trace) : Type 0 where
  pub current : Json
  pub read : last_read t ≡ some current
  pub version :
      index (index body "metadata") "resourceVersion"
      ≡ index (index current "metadata") "resourceVersion"
  pub same_uid : index (index body "metadata") "uid" ≡ index (index current "metadata") "uid"
  pub own_deployment : is_text (index (index current "metadata") "uid") uid ≡ true
  pub owned : index (index (index body "metadata") "annotations") owner_annotation ≡ string owner
  pub replicas : ReplicasAllowed owner (as_u64 (replicas_of body)) current t

-- The worker may be asked to suspend: its idle interval has lasted for the timeout up to the clock
-- reading just taken, no write is outstanding, and no connection is open.
pub record SuspendAllowed (timeout : ℕ) (b : Backend) (t : Trace) : Type 0 where
  pub boot : String
  pub since : ℕ
  pub now : ℕ
  pub before : Trace
  pub just_now : t ≡ clock now ∷ before
  pub lasted : timeout ≤ now - since
  pub quiet : Quiet b.uid boot since t
  pub settled : IsSettled t
  pub unpinned : open_count t ≡ 0

abbrev pub CallAllowed : String → String → ℕ → Call → Trace → Type 0
CallAllowed owner uid timeout (patch_deployment body) t = WriteAllowed owner uid body t
CallAllowed owner uid timeout (suspend b) t = SuspendAllowed timeout b t
CallAllowed owner uid timeout (resume b p) t = IsSettled t
CallAllowed owner uid timeout read_deployment t = Unit
CallAllowed owner uid timeout list_pods t = Unit
CallAllowed owner uid timeout (get_status b) t = Unit

-- Every request of the log was allowed when it was sent.
abbrev pub Guarded : String → String → ℕ → Trace → Type 0
Guarded owner uid timeout [] = Unit
Guarded owner uid timeout (sent r reply ∷ t) =
    CallAllowed owner uid timeout r.call t × Guarded owner uid timeout t
Guarded owner uid timeout (clock n ∷ t) = Guarded owner uid timeout t
Guarded owner uid timeout (drew u ∷ t) = Guarded owner uid timeout t
Guarded owner uid timeout (slept d ∷ t) = Guarded owner uid timeout t
Guarded owner uid timeout (opened ∷ t) = Guarded owner uid timeout t
Guarded owner uid timeout (closed ∷ t) = Guarded owner uid timeout t
