-- ===== src/Proxy/Sessions/Connection.antt =====
-- A whole connection of crates/duckflight-idle-proxy/src/main.rs, by the steps of the tasks.
use duckflight_extension.Common.{ℕ, ◌<◌, ◌+◌, ◌≡◌}
use duckflight_extension.Proxy.World.{Result, ok, Backend, Environment}
use duckflight_extension.Proxy.Sessions.{open_connection, System, Reach, FirstRead, one_byte}

-- What happens during the copying happens only to a connection that got a worker.
abbrev pub while_served : FirstRead → Result Backend → ℕ → ℕ
while_served one_byte (ok backend) n = n
while_served first woken n = 0

-- `joined` and `left` count the other connections that get a worker and that are closed meanwhile.
module _ (env : Environment) (fuel : ℕ) (others : System → System)
    (copied : Backend → Result (Unit {0})) (joined left : ℕ)
    (steps : (u : System) → Reach env u (others u))
    (keeps : (u : System) → 0 < u.sessions → 0 < (others u).sessions)
    (net : (u : System) → 0 < u.sessions → (others u).sessions + left ≡ u.sessions + joined) where
  -- The connection that has ended has left a path of steps, and no session of its own.
  pub record Ended (first : FirstRead) (s t : System) : Type 0 where
    pub path : Reach env s t
    pub sessions :
        t.sessions + while_served first (open_connection env fuel s.state).0 left
        ≡ s.sessions + while_served first (open_connection env fuel s.state).0 joined
