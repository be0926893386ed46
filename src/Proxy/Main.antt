-- ===== src/Proxy/Main.antt =====
-- `main` of crates/duckflight-idle-proxy/src/main.rs: its listeners and their channel, the tasks of the
-- connections, the idle task, and the termination signal. Each step is what one task does between two awaits
-- that others can see, in any order. The peers decide when a task goes on: a client may stay connected as long as
-- it likes, and nothing here says that a step is ever taken. An abort takes effect at once: the
-- poll that the runtime lets an aborted listener finish has its steps before the signal here, as `main` does not
-- look at the channel any more.
pub mod Runs
pub mod Drain
use duckflight_extension.Common.{
  ℕ, ◌<◌, String, Option, some, none, if◌then◌else◌, Bool, true, false, List, [], ◌∷◌, ◌++◌, ◌≡◌,
  length,
}
use duckflight_extension.Proxy.World.{
  external, ok, err, Result, ◌>>=◌, ◌>>◌, pure, raise, Backend, Environment, Io, Trace,
}
use duckflight_extension.Proxy.Config.{Config, from_env}
use duckflight_extension.Proxy.Controller
use duckflight_extension.Proxy.Controller.{Controller, State}
use duckflight_extension.Proxy.Controller.Idle.{tick}
use duckflight_extension.Proxy.Sessions.{System, open_connection, accepted, finished}

-- A socket that a listener has accepted.
pub record Stream : Type 0 where
  pub port : ℕ
  pub peer : ℕ

-- The task of a listener: it waits for a client, or for room in the channel, or it has ended.
pub data Acceptor : Type 0 where
  listening : ℕ → Acceptor
  sending : Stream → Acceptor
  ended : Acceptor

-- The task of a connection: before its first critical section, or between the two.
pub data Task : Type 0 where
  reading : Stream → Task
  serving : Stream → Task

-- Where `main` stands: in its loop, after the loop, or returned.
pub data Phase : Type 0 where
  looping draining returned : Phase
  listeners_stopped : Phase

pub record Main : Type 0 where
  pub phase : Phase
  pub acceptors : List Acceptor
  pub queue : List Stream
  pub connections : List Task
  pub system : System

abbrev pub channel_capacity : ℕ
channel_capacity = 128

abbrev pub is_running : Phase → Bool
is_running looping = true
is_running draining = true
is_running returned = false
is_running listeners_stopped = false

-- The senders of ended acceptors are dropped.
abbrev pub all_ended : List Acceptor → Bool
all_ended [] = true
all_ended (ended ∷ acceptors) = all_ended acceptors
all_ended (listening port ∷ acceptors) = false
all_ended (sending stream ∷ acceptors) = false

-- `abort_all`
abbrev pub abort_all : List Acceptor → List Acceptor
abort_all [] = []
abort_all (acceptor ∷ acceptors) = ended ∷ abort_all acceptors

-- The task goes on with a backend, and ends with an error.
unfoldable pub woken_task : Stream → Result Backend → List Task
woken_task stream (ok backend) = serving stream ∷ []
woken_task stream (err error) = []

abbrev pub wake_task : Environment → ℕ → Stream → List Task → List Task → Main → Main
wake_task env fuel stream before after m =
    let x = open_connection env fuel m.system.state in
    record m {
      connections = before ++ woken_task stream x.0 ++ after;
      system = accepted m.system x;
    }

pub data MainStep (env : Environment) (m : Main) : Main → Type 0 where
  -- `listener.accept()`
  accepts_client :
      (before after : List Acceptor) (port peer : ℕ)
      → is_running m.phase ≡ true
      → m.acceptors ≡ before ++ listening port ∷ after
      → MainStep env m
          (record m { acceptors = before ++ sending (record { port = port; peer = peer }) ∷ after })
  accept_fails :
      (before after : List Acceptor) (port : ℕ)
      → is_running m.phase ≡ true
      → m.acceptors ≡ before ++ listening port ∷ after
      → MainStep env m (record m { acceptors = before ++ ended ∷ after })
  -- `accepted_tx.send`
  sends :
      (before after : List Acceptor) (stream : Stream)
      → is_running m.phase ≡ true
      → m.acceptors ≡ before ++ sending stream ∷ after
      → length m.queue < channel_capacity
      → MainStep env m (record m {
        acceptors = before ++ listening stream.port ∷ after;
        queue = m.queue ++ stream ∷ [];
      })
  -- `accepted_rx.recv()` and `connections.spawn`
  receives :
      (stream : Stream) (rest : List Stream)
      → m.phase ≡ looping
      → m.queue ≡ stream ∷ rest
      → MainStep env m
          (record m { queue = rest; connections = m.connections ++ reading stream ∷ [] })
  -- The client sends nothing, or in vain; at the latest when the timeout of its first byte is over.
  leaves :
      (before after : List Task) (stream : Stream)
      → is_running m.phase ≡ true
      → m.connections ≡ before ++ reading stream ∷ after
      → MainStep env m (record m { connections = before ++ after })
  wakes :
      (fuel : ℕ) (before after : List Task) (stream : Stream)
      → is_running m.phase ≡ true
      → m.connections ≡ before ++ reading stream ∷ after
      → MainStep env m (wake_task env fuel stream before after m)
  -- The client or the worker ends the connection, which has no timeout.
  closes :
      (before after : List Task) (stream : Stream)
      → is_running m.phase ≡ true
      → m.connections ≡ before ++ serving stream ∷ after
      → MainStep env m (record m { connections = before ++ after; system = finished m.system })
  -- A round that the signal aborts is one whose environment aborts it.
  ticks :
      m.phase ≡ looping
      → MainStep env m (record m { system = record m.system { state = tick env m.system.state } })
  -- The signal ends the loop, and `main` aborts the acceptors and the idle task.
  signalled :
      m.phase ≡ looping
      → MainStep env m (record m { phase = draining; acceptors = abort_all m.acceptors })
  -- `accepted_rx.recv()` gives `None`.
  listeners_stop :
      m.phase ≡ looping
      → m.queue ≡ []
      → all_ended m.acceptors ≡ true
      → MainStep env m (record m { phase = listeners_stopped })
  -- `connections.join_next()` gives `None`.
  drained : m.phase ≡ draining → m.connections ≡ [] → MainStep env m (record m { phase = returned })

pub data MainReach (env : Environment) (start : Main) : Main → Type 0 where
  begun : MainReach env start start
  stepped : {m m' : Main} → MainReach env start m → MainStep env m m' → MainReach env start m'

abbrev pub listen_all : List ℕ → List Acceptor
listen_all [] = []
listen_all (port ∷ ports) = listening port ∷ listen_all ports

-- What the tasks begin with, once the sockets are bound and the controller has fenced.
unfoldable pub spawned : Config → Controller → Trace → Main
spawned config controller t = record {
  phase = looping;
  acceptors = listen_all config.listeners;
  queue = [];
  connections = [];
  system = record { state = record { controller = controller; trace = t }; sessions = 0 };
}

module _ (env : Environment) (can_bind : ℕ → Bool) where
  bind_port : ℕ → Io (Unit {0})
  bind_port port = if can_bind port then pure tt else raise external

  -- `TcpListener::bind` of every port, in order.
  bind_all : List ℕ → Io (Unit {0})
  unfolding bind_port
  bind_all [] = pure tt
  bind_all (port ∷ ports) = do bind_port port; bind_all ports

  abbrev health_port : ℕ
  health_port = 4090

  begin_with : Config → Result Controller × Trace → Result Main × Trace
  begin_with config (ok controller, t) =
      if can_bind health_port then (ok (spawned config controller t), t) else (err external, t)
  begin_with config (err error, t) = (err error, t)

  -- `main` up to its loop.
  unfoldable pub begin_main : Io Main
  unfolding bind_all begin_with spawned
  begin_main = do
    config ← from_env env
    bind_all config.listeners
    λ t. begin_with config (Controller.new env config t)

-- What a connection to the health port is sent, by whether its first read gave any bytes in time.
unfoldable pub health_reply : Bool → Option String
health_reply true = some "HTTP/1.1 200 OK\r\nContent-Length: 2\r\nConnection: close\r\n\r\nok"
health_reply false = none
