-- ===== src/Proxy/Sessions.antt =====
-- `proxy_connection` of crates/duckflight-idle-proxy/src/main.rs and the tasks of `main` that share the
-- controller: each critical section of its lock is one step, in any order.
pub mod Keeps
pub mod Connection
use duckflight_extension.Common.{ℕ, ◌+◌, ◌-◌, ◌<◌, none, ◌∷◌}
use duckflight_extension.Proxy.World.{
  external, Result, ok, err, attempt, Act, ◌>>=◌, ◌>>◌, pure, raise, modify, Backend, opened,
  closed, Environment,
}
use duckflight_extension.Proxy.Controller.{State}
use duckflight_extension.Proxy.Controller.Wake.{wake}
use duckflight_extension.Proxy.Controller.Idle.{tick}

abbrev pub count_opened : State → State
count_opened s = record s {
  controller = record s.controller { connections = s.connections + 1 };
  trace = opened ∷ s.trace;
}

abbrev pub count_closed : State → State
count_closed s = record s {
  controller = record s.controller { connections = s.connections - 1 };
  trace = closed ∷ s.trace;
}

unfoldable pub woken : Result Backend → Act State Backend
woken (ok backend) = pure backend
woken (err error) = do modify count_closed; raise error

-- The first critical section: the connection has sent a byte and waits for a worker.
unfoldable pub open_connection : Environment → ℕ → Act State Backend
open_connection env fuel = do modify count_opened; backend ← attempt (wake env fuel); woken backend

-- The second critical section, after the bytes have been copied or an error ended the copying.
unfoldable pub close_connection : State → State
close_connection s =
    let t = count_closed s in record t { controller = record t.controller { idle_since = none } }

-- The controller, and how many tasks stand between their two critical sections.
pub record System : Type 0 where
  pub state : State
  pub sessions : ℕ

unfoldable pub accepted : System → Result Backend × State → System
accepted s (ok backend, state) = record { state = state; sessions = s.sessions + 1 }
accepted s (err error, state) = record s { state = state }

pub data Step (env : Environment) (s : System) : System → Type 0 where
  accept : (fuel : ℕ) → Step env s (accepted s (open_connection env fuel s.state))
  finish :
      0 < s.sessions
      → Step env s (record { state = close_connection s.state; sessions = s.sessions - 1 })
  idle : Step env s (record s { state = tick env s.state })

pub data Reach (env : Environment) (start : System) : System → Type 0 where
  here : Reach env start start
  next : {s t : System} → Reach env start s → Step env s t → Reach env start t

-- The read of the first byte, with its timeout.
pub data FirstRead : Type 0 where
  timed_out read_failed end_of_stream one_byte : FirstRead

unfoldable pub finished : System → System
finished s = record { state = close_connection s.state; sessions = s.sessions - 1 }

-- `others` is what the other tasks do between the two critical sections, and `copied` the result of
-- the connection to the worker and the copying of the bytes.
unfoldable pub served :
    (System → System)
    → (Backend → Result (Unit {0}))
    → System
    → Result Backend × State
    → Result (Unit {0}) × System
unfolding accepted finished
served others copied s (ok backend, state) =
    (copied backend, finished (others (accepted s (ok backend, state))))
served others copied s (err error, state) = (err error, accepted s (err error, state))

-- `proxy_connection`
unfoldable pub proxy_connection :
    Environment
    → ℕ
    → (System → System)
    → (Backend → Result (Unit {0}))
    → FirstRead
    → System
    → Result (Unit {0}) × System
unfolding served
proxy_connection env fuel others copied timed_out s = (err external, s)
proxy_connection env fuel others copied read_failed s = (err external, s)
proxy_connection env fuel others copied end_of_stream s = (ok tt, s)
proxy_connection env fuel others copied one_byte s =
    served others copied s (open_connection env fuel s.state)
