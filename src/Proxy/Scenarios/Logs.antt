-- ===== src/Proxy/Scenarios/Logs.antt =====
-- Reading the log of a run of the proxy of crates/duckflight-idle-proxy/src/main.rs: its requests, replies
-- and the log before them.
use duckflight_extension.Common.{
  ℕ, zero, suc, String, Bool, true, false, [], ◌∷◌, ◌++◌, ◌≡◌, refl, ap, arith,
}
use duckflight_extension.Proxy.Json.{Json, null}
use duckflight_extension.Proxy.World.{
  Backend, Method, Call, read_deployment, patch_deployment, suspend, resume, Request, Reply, sent,
  clock, drew, slept, opened, closed, Trace,
}
use duckflight_extension.Proxy.Scenarios.{first}

abbrev blank : Request
blank = record {
  call = read_deployment;
  method = Method.get;
  url = "";
  query = [];
  client = first.kube.client;
  token = "";
}

abbrev pub request_of : Trace → Request
request_of [] = blank
request_of (sent r reply ∷ t) = r
request_of (event ∷ t) = blank

abbrev pub reply_of : Trace → Reply
reply_of [] = Reply.failed
reply_of (sent r reply ∷ t) = reply
reply_of (event ∷ t) = Reply.failed

abbrev pub body_of : Call → Json
body_of (patch_deployment body) = body
body_of call = null

abbrev pub backend_of : Call → Backend
backend_of (suspend b) = b
backend_of (resume b permit) = b
backend_of call = record { uid = ""; ip = ""; control = first.kube.client; url = "" }

unfoldable pub take : ℕ → Trace → Trace
take zero t = []
take (suc n) [] = []
take (suc n) (e ∷ t) = e ∷ take n t

unfoldable pub drop : ℕ → Trace → Trace
drop zero t = t
drop (suc n) [] = []
drop (suc n) (e ∷ t) = drop n t

unfoldable pub is_request : Trace → Bool
is_request (sent r reply ∷ t) = true
is_request (event ∷ t) = false
is_request [] = false

unfoldable pub is_patch : Call → Bool
is_patch (patch_deployment body) = true
is_patch call = false

unfoldable pub is_suspend : Call → Bool
is_suspend (suspend b) = true
is_suspend call = false

-- A log falls apart at any request in it.
pub split_at :
    (n : ℕ) (t : Trace)
    → is_request (drop n t) ≡ true
    → t ≡ take n t ++ sent (request_of (drop n t)) (reply_of (drop n t)) ∷ drop (suc n) t
unfolding take drop is_request
split_at n [] h = empty n h
  where
    empty :
        (n : ℕ)
        → is_request (drop n []) ≡ true
        → [] ≡ take n [] ++ sent (request_of (drop n [])) (reply_of (drop n [])) ∷ drop (suc n) []
    empty zero h = cc
    empty (suc n) h = cc
split_at zero (sent r reply ∷ t) h = refl
split_at zero (clock n ∷ t) h = cc
split_at zero (drew u ∷ t) h = cc
split_at zero (slept d ∷ t) h = cc
split_at zero (opened ∷ t) h = cc
split_at zero (closed ∷ t) h = cc
split_at (suc n) (e ∷ t) h = ap (λ rest. e ∷ rest) (split_at n t h)

pub patch_body_of : (call : Call) → is_patch call ≡ true → call ≡ patch_deployment (body_of call)
unfolding is_patch
patch_body_of call h = ground arith

pub suspended_of : (call : Call) → is_suspend call ≡ true → call ≡ suspend (backend_of call)
unfolding is_suspend
suspended_of call h = ground arith

unfoldable pub is_resume : Call → Bool
is_resume (resume b permit) = true
is_resume call = false

unfoldable pub permit_of_call : Call → String
permit_of_call (resume b permit) = permit
permit_of_call call = ""

pub resumed_of :
    (call : Call) → is_resume call ≡ true → call ≡ resume (backend_of call) (permit_of_call call)
unfolding is_resume permit_of_call
resumed_of call h = ground arith
