-- ===== src/Proxy/World/Requests.antt =====
-- What sending a request adds to the log.
use duckflight_extension.Common.{
  if◌then◌else◌, Bool, true, false, ℕ, String, Option, none, some, ◌∷◌, ◌≡◌, ◌≢◌, refl,
}
use duckflight_extension.Proxy.Text.{trim}
use duckflight_extension.Proxy.Json.{Json}
use duckflight_extension.Proxy.World.{
  Error, external, aborted, Result, ok, err, continue, ◌>>=◌, from_option, Call, Request, Reply,
  failed, not_json, replied, sent, Trace, Environment, Io, read_file, send, send_with_token,
  error_for_status, json_body, clock, drew, slept, new_v4, instant_now, sleep,
}
use duckflight_extension.Proxy.Hoare.{Triple, Asked, unsent, refused, answered, Body}
use duckflight_extension.Proxy.Controller.{State, lift}

-- The result is the reply itself, which has not failed.
abbrev pub IsReply : Reply → Reply → Type 0
IsReply reply a = (reply ≡ a) × (reply ≢ failed)

-- The result is the body of the reply.
abbrev pub IsBody : Json → Json → Type 0
IsBody j a = j ≡ a

-- A continuation that logs nothing: it fails, or its result fits the reply that it was given.
pub data Reads {A : Type 0} (Fits : Reply → A → Type 0) (reply : Reply) (t : Trace)
    : Result A × Trace → Type 0 where
  rejects : (e : Error) → Reads Fits reply t (err e, t)
  accepts : (a : A) → Fits reply a → Reads Fits reply t (ok a, t)

module _ {A : Type 0} {call : Call} {Fits : Reply → A → Type 0} where
  Asked-Reads :
      (t : Trace) (r : Request) (reply : Reply) {x : Result A × Trace}
      → r.call ≡ call
      → Reads Fits reply (sent r reply ∷ t) x
      → Asked call Fits t x
  Asked-Reads t r reply c (rejects x) = refused x r reply c
  Asked-Reads t r reply c (accepts b f) = answered b r reply c f

  pub Asked-bind :
      {B : Type 0} {Given : Reply → B → Type 0} {k : B → Io A} (t : Trace)
      → ((b : B) (reply : Reply) → Given reply b → (t : Trace) → Reads Fits reply t (k b t))
      → {x : Result B × Trace} → Asked call Given t x
      → Asked call Fits t (continue x.0 k x.1)
  Asked-bind t reads (unsent e) = unsent e
  Asked-bind t reads (refused e r reply c) = refused e r reply c
  Asked-bind t reads (answered b r reply c f) = Asked-Reads t r reply c (reads b reply f _)

module _ {A : Type 0} (Fits : Reply → A → Type 0) where
  pub Reads-from_option :
      (e : Error) (reply : Reply) (o : Option A)
      → ((a : A) → o ≡ some a → Fits reply a)
      → (t : Trace) → Reads Fits reply t (from_option e o t)
  Reads-from_option e j none h t = rejects e
  Reads-from_option e j (some a) h t = accepts a (h a refl)

pub Reads-json_body :
    (b reply : Reply) → IsReply reply b → (t : Trace) → Reads (Body IsBody) reply t (json_body b t)
unfolding json_body
Reads-json_body failed reply e t = rejects external
Reads-json_body not_json reply e t = rejects external
Reads-json_body (replied j) reply e t = accepts j (rw e.0 refl)

module _ {call : Call} (env : Environment) (build : String → Request)
    (is_call : (token : String) → (build token).call ≡ call) where
  Asked-error_for_status :
      (t : Trace) (r : Request) (reply : Reply)
      → r.call ≡ call
      → Asked call IsReply t (error_for_status reply, sent r reply ∷ t)
  Asked-error_for_status t r failed c = refused external r failed c
  Asked-error_for_status t r not_json c = answered not_json r not_json c (refl, λ e. cc)
  Asked-error_for_status t r (replied j) c = answered (replied j) r (replied j) c (refl, λ e. cc)

  Asked-sent :
      {t : Trace} (b : Bool) {x y : Result Reply × Trace}
      → Asked call IsReply t x
      → Asked call IsReply t y
      → Asked call IsReply t (if b then x else y)
  Asked-sent true h h' = h
  Asked-sent false h h' = h'

  Asked-token :
      (t : Trace) (token : Option String)
      → Asked call IsReply t
          (◌>>=◌ (from_option external token) (λ token. send env (build (trim token))) t)
  unfolding send
  Asked-token t none = unsent external
  Asked-token t (some token) =
      let r = build (trim token) in
      Asked-sent (env.aborts t) (refused aborted r failed (is_call (trim token)))
        (Asked-error_for_status t r (env.answer t r) (is_call (trim token)))

  -- A request that is built from a token file, then sent.
  pub Asked-send :
      (path : String) (t : Trace) → Asked call IsReply t (send_with_token env path build t)
  unfolding send_with_token read_file
  Asked-send path t = Asked-token t _

module _ (env : Environment) {P : State → Type 0} {E : State → Type 0} where
  pub Triple-new_v4 :
      {Q : String → State → Type 0}
      → ((s : State) (u : String) → P s → Q u (record s { trace = drew u ∷ s.trace }))
      → Triple P (lift (new_v4 env)) Q E
  unfolding new_v4
  Triple-new_v4 h = record { at = λ s p. h s _ p }

  pub Triple-instant_now :
      {Q : ℕ → State → Type 0}
      → ((s : State) (n : ℕ) → P s → Q n (record s { trace = clock n ∷ s.trace }))
      → Triple P (lift (instant_now env)) Q E
  unfolding instant_now
  Triple-instant_now h = record { at = λ s p. h s _ p }

  pub Triple-sleep :
      {Q : Unit {0} → State → Type 0} (d : ℕ)
      → ((s : State) → P s → Q tt (record s { trace = slept d ∷ s.trace }))
      → Triple P (lift (sleep d)) Q E
  unfolding sleep
  Triple-sleep d h = record { at = λ s p. h s p }
