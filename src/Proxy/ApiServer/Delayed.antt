-- ===== src/Proxy/ApiServer/Delayed.antt =====
-- The writes that the proxy of crates/duckflight-idle-proxy/src/main.rs got no answer to, once a later write was
-- answered.
use mathlib.Core.List.{Memᴰ}
use duckflight_extension.Common.{ℕ, String, false, ◌≡◌}
use duckflight_extension.Proxy.Json.{Json}
use duckflight_extension.Proxy.World.{Call, Reply, Trace}
use duckflight_extension.Proxy.Evidence.{IsSettled, Guarded}
use duckflight_extension.Proxy.ApiServer.{
  ApiServer, is_among, is_used, next_version, accepts, other_write, late_write, wait_for, Answered,
  reads, read_failed, read_not_json, writes, write_failed, write_not_json, lists, worker_status,
  worker_suspend, worker_resume, request, reads_clock, draws, sleeps, opens, closes, History, Later,
  now, then_move, then_event,
}
use duckflight_extension.Proxy.ApiServer.Tracked.{Void, keep-Void, Void-refused, History-Tracked}

pub record Dead (body : Json) (s : ApiServer) : Type 0 where
  pub current : is_among s.version s.past ≡ false
  pub void : Void body s

Dead-next :
    (body : Json) (v : String) (s : ApiServer)
    → is_used v s ≡ false
    → Dead body s
    → Dead body (next_version v s)
Dead-next body v s new d = record { current = new; void = keep-Void body v s d.void }

Dead-wait_for : (body other : Json) (s : ApiServer) → Dead body s → Dead body (wait_for other s)
Dead-wait_for body other s d = record {
  current = d.current;
  void = record {
    version = d.void.version;
    version_is = d.void.version_is;
    outdated = d.void.outdated;
  };
}

Dead-Answered :
    (body : Json) (s s' : ApiServer) (c : Call) (reply : Reply)
    → Answered s c reply s'
    → Dead body s
    → Dead body s'
Dead-Answered body s s' c reply (reads j fits) d = d
Dead-Answered body s s' c reply read_failed d = d
Dead-Answered body s s' c reply read_not_json d = d
Dead-Answered body s s' c reply (writes other j v ok new) d = Dead-next body v s new d
Dead-Answered body s s' c reply (write_failed other) d = Dead-wait_for body other s d
Dead-Answered body s s' c reply (write_not_json other) d = Dead-wait_for body other s d
Dead-Answered body s s' c reply (lists answer) d = d
Dead-Answered body s s' c reply (worker_status b answer) d = d
Dead-Answered body s s' c reply (worker_suspend b answer) d = d
Dead-Answered body s s' c reply (worker_resume b permit answer) d = d

Dead-Later : (body : Json) {s s' : ApiServer} → Later s s' → Dead body s → Dead body s'
Dead-Later body now d = d
Dead-Later body (then_move {s'} before (other_write v new)) d =
    Dead-next body v s' new (Dead-Later body before d)
Dead-Later body (then_move {s'} before (late_write other v m ok new)) d =
    Dead-next body v s' new (Dead-Later body before d)
Dead-Later body (then_event {s'} {s''} before (request r reply a)) d =
    Dead-Answered body s' s'' r.call reply a (Dead-Later body before d)
Dead-Later body (then_event before (reads_clock n)) d = Dead-Later body before d
Dead-Later body (then_event before (draws u)) d = Dead-Later body before d
Dead-Later body (then_event before (sleeps n)) d = Dead-Later body before d
Dead-Later body (then_event before opens) d = Dead-Later body before d
Dead-Later body (then_event before closes) d = Dead-Later body before d

-- After a log that was allowed and whose last write was answered, no write without an answer is ever
-- carried out.
pub late_refused :
    (owner uid : String) (timeout : ℕ) {t : Trace} {s s' : ApiServer}
    → Guarded owner uid timeout t
    → IsSettled t
    → History t s
    → Later s s'
    → (body : Json) → Memᴰ body s.late
    → accepts body s' ≡ false
late_refused owner uid timeout {s' = s'} g settled history later body m =
    let h = History-Tracked owner uid timeout history g in
    let d =
      Dead-Later body later (record { current = h.current; void = h.late_void settled body m }) in
    Void-refused body s' d.current d.void
