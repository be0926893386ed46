-- ===== src/Proxy/Main/Runs.antt =====
-- The runs of `main` of crates/duckflight-idle-proxy/src/main.rs, and what they have to do with the steps of the
-- controller's tasks.
use duckflight_extension.Common.{
  ℕ, ◌+◌, ◌≤◌, true, false, List, [], ◌∷◌, ◌++◌, ◌≡◌, refl, sym, ap, ◌∙◌, arith, length,
  length-append,
}
use duckflight_extension.Proxy.World.{ok, err, Result, Backend, Environment, Trace}
use duckflight_extension.Proxy.Config.{Config}
use duckflight_extension.Proxy.Controller.{Controller, State}
use duckflight_extension.Proxy.Sessions.{
  System, open_connection, accepted, finished, Reach, here, next, accept, finish, idle,
}
use duckflight_extension.Proxy.Main.{
  Stream, Acceptor, listening, sending, ended, Task, reading, serving, looping, draining, returned,
  listeners_stopped, Main, channel_capacity, is_running, all_ended, abort_all, woken_task,
  wake_task, MainStep, accepts_client, accept_fails, sends, receives, leaves, wakes, closes, ticks,
  signalled, listeners_stop, drained, MainReach, begun, stepped, spawned,
}

-- The tasks between their critical sections.
abbrev pub count_serving : List Task → ℕ
count_serving [] = 0
count_serving (reading stream ∷ tasks) = count_serving tasks
count_serving (serving stream ∷ tasks) = count_serving tasks + 1

pub count_serving-append :
    (xs ys : List Task) → count_serving (xs ++ ys) ≡ count_serving xs + count_serving ys
count_serving-append [] ys = omega arith
count_serving-append (reading stream ∷ xs) ys = count_serving-append xs ys
count_serving-append (serving stream ∷ xs) ys = omega (arith, count_serving-append xs ys)

loop-neq-drain : looping ≡ draining → ⊥
loop-neq-drain p = cc

loop-neq-return : looping ≡ returned → ⊥
loop-neq-return p = cc

drain-neq-return : draining ≡ returned → ⊥
drain-neq-return p = cc

stop-neq-return : listeners_stopped ≡ returned → ⊥
stop-neq-return p = cc

true-neq-false : true ≡ false → ⊥
true-neq-false h = cc

-- A listener that still listens or sends has not ended.
pub not_all_ended :
    (before after : List Acceptor) (a : Acceptor)
    → all_ended (a ∷ []) ≡ false
    → all_ended (before ++ a ∷ after) ≡ false
not_all_ended [] after (listening port) h = refl
not_all_ended [] after (sending stream) h = refl
not_all_ended [] after ended h = cc
not_all_ended (listening port ∷ before) after a h = refl
not_all_ended (sending stream ∷ before) after a h = refl
not_all_ended (ended ∷ before) after a h = not_all_ended before after a h

pub all_ended-abort_all : (acceptors : List Acceptor) → all_ended (abort_all acceptors) ≡ true
all_ended-abort_all [] = refl
all_ended-abort_all (a ∷ acceptors) = all_ended-abort_all acceptors

module _ (env : Environment) (start : System) where
  -- The controller has taken steps, one task serves for each open connection, the channel has room for
  -- its streams, and nobody listens after the loop.
  pub record Sound (m : Main) : Type 0 where
    pub reach : Reach env start m.system
    pub sessions : m.system.sessions ≡ count_serving m.connections
    pub bounded : length m.queue ≤ channel_capacity
    pub unheard : m.phase ≡ draining → all_ended m.acceptors ≡ true
    pub emptied : m.phase ≡ returned → m.connections ≡ []

  not_returned : (m : Main) → is_running m.phase ≡ true → m.phase ≡ returned → ⊥
  not_returned m running p = true-neq-false (sym running ∙ ap is_running p)

  -- A step that leaves the controller alone.
  same_count :
      (before after : List Task) (stream : Stream) (tasks : List Task) (n : ℕ)
      → tasks ≡ before ++ reading stream ∷ after
      → n ≡ count_serving tasks
      → n ≡ count_serving (before ++ after)
  same_count before after stream tasks n e h = omega (
    arith,
    h ∙ ap count_serving e,
    count_serving-append before (reading stream ∷ after),
    count_serving-append before after,
  )

  -- The woken task has its session, and one that failed has none.
  woken_count :
      (m : Main) (before after : List Task) (stream : Stream) (x : Result Backend × State)
      → m.connections ≡ before ++ reading stream ∷ after
      → m.system.sessions ≡ count_serving m.connections
      → (accepted m.system x).sessions ≡ count_serving (before ++ woken_task stream x.0 ++ after)
  unfolding accepted woken_task
  woken_count m before after stream (ok backend, state) e h = omega (
    arith,
    same_count before after stream m.connections m.system.sessions e h,
    count_serving-append before after,
    count_serving-append (before ++ serving stream ∷ []) after,
    count_serving-append before (serving stream ∷ []),
  )
  woken_count m before after stream (err error, state) e h = omega (
    arith,
    same_count before after stream m.connections m.system.sessions e h,
    count_serving-append before after,
    count_serving-append (before ++ []) after,
    count_serving-append before [],
  )

  wakes-Sound :
      (fuel : ℕ) (before after : List Task) (stream : Stream) (m : Main)
      → is_running m.phase ≡ true
      → m.connections ≡ before ++ reading stream ∷ after
      → Sound m
      → Sound (wake_task env fuel stream before after m)
  wakes-Sound fuel before after stream m running e h = record {
    reach = next h.reach (accept fuel);
    sessions =
        woken_count m before after stream (open_connection env fuel m.system.state) e h.sessions;
    bounded = h.bounded;
    unheard = h.unheard;
    emptied = λ p. absurd (not_returned m running p);
  }

  closes-Sound :
      (before after : List Task) (stream : Stream) (m : Main)
      → is_running m.phase ≡ true
      → m.connections ≡ before ++ serving stream ∷ after
      → Sound m
      → Sound (record m { connections = before ++ after; system = finished m.system })
  unfolding finished
  closes-Sound before after stream m running e h =
      let total = h.sessions ∙ ap count_serving e in
      record {
        reach =
            next h.reach
              (finish (omega (arith, total, count_serving-append before (serving stream ∷ after))));
        sessions = omega (
          arith,
          total,
          count_serving-append before (serving stream ∷ after),
          count_serving-append before after,
        );
        bounded = h.bounded;
        unheard = h.unheard;
        emptied = λ p. absurd (not_returned m running p);
      }

  -- A listener or the channel takes a step while the loop or the drain goes on.
  heard :
      (m : Main) (before after : List Acceptor) (a : Acceptor)
      → m.acceptors ≡ before ++ a ∷ after
      → all_ended (a ∷ []) ≡ false
      → Sound m
      → m.phase ≡ draining
      → ⊥
  heard m before after a e open_ h p =
      true-neq-false (sym (h.unheard p) ∙ ap all_ended e ∙ not_all_ended before after a open_)

  Step-Sound : {m m' : Main} → MainStep env m m' → Sound m → Sound m'
  Step-Sound {m} (accepts_client before after port peer running e) h = record {
    reach = h.reach;
    sessions = h.sessions;
    bounded = h.bounded;
    unheard = λ p. absurd (heard m before after (listening port) e refl h p);
    emptied = λ p. absurd (not_returned m running p);
  }
  Step-Sound {m} (accept_fails before after port running e) h = record {
    reach = h.reach;
    sessions = h.sessions;
    bounded = h.bounded;
    unheard = λ p. absurd (heard m before after (listening port) e refl h p);
    emptied = λ p. absurd (not_returned m running p);
  }
  Step-Sound {m} (sends before after stream running e room) h = record {
    reach = h.reach;
    sessions = h.sessions;
    bounded = omega (arith, length-append m.queue (stream ∷ []));
    unheard = λ p. absurd (heard m before after (sending stream) e refl h p);
    emptied = λ p. absurd (not_returned m running p);
  }
  Step-Sound {m} (receives stream rest p e) h = record {
    reach = h.reach;
    sessions = omega (arith, h.sessions, count_serving-append m.connections (reading stream ∷ []));
    bounded = omega (arith, h.bounded, ap length e);
    unheard = h.unheard;
    emptied = λ r. absurd (loop-neq-return (sym p ∙ r));
  }
  Step-Sound {m} (leaves before after stream running e) h = record {
    reach = h.reach;
    sessions = same_count before after stream m.connections m.system.sessions e h.sessions;
    bounded = h.bounded;
    unheard = h.unheard;
    emptied = λ p. absurd (not_returned m running p);
  }
  Step-Sound {m} (wakes fuel before after stream running e) h =
      wakes-Sound fuel before after stream m running e h
  Step-Sound {m} (closes before after stream running e) h =
      closes-Sound before after stream m running e h
  Step-Sound {m} (ticks p) h = record {
    reach = next h.reach idle;
    sessions = h.sessions;
    bounded = h.bounded;
    unheard = h.unheard;
    emptied = λ r. absurd (loop-neq-return (sym p ∙ r));
  }
  Step-Sound {m} (signalled p) h = record {
    reach = h.reach;
    sessions = h.sessions;
    bounded = h.bounded;
    unheard = λ _. all_ended-abort_all m.acceptors;
    emptied = λ r. absurd (drain-neq-return r);
  }
  Step-Sound {m} (listeners_stop p e all) h = record {
    reach = h.reach;
    sessions = h.sessions;
    bounded = h.bounded;
    unheard = λ _. all;
    emptied = λ r. absurd (stop-neq-return r);
  }
  Step-Sound {m} (drained p e) h = record {
    reach = h.reach;
    sessions = h.sessions;
    bounded = h.bounded;
    unheard = λ _. h.unheard p;
    emptied = λ r. e;
  }

  Reach-Sound : {m m' : Main} → MainReach env m m' → Sound m → Sound m'
  Reach-Sound begun h = h
  Reach-Sound (stepped run step) h = Step-Sound step (Reach-Sound run h)

-- What the tasks of the program do from its start is, for the controller, a run of the tasks that share
-- it, with one open connection for each task that serves one; the channel never holds more streams
-- than its capacity; after the signal no listener accepts or sends; and `main` returns without a connection.
pub spawned-Sound :
    (env : Environment) (config : Config) (controller : Controller) (t : Trace) {m : Main}
    → MainReach env (spawned config controller t) m
    → Sound env (spawned config controller t).system m
unfolding spawned
spawned-Sound env config controller t run =
    Reach-Sound env (spawned config controller t).system run begins
  where
    begins : Sound env (spawned config controller t).system (spawned config controller t)
    begins = record {
      reach = here;
      sessions = refl;
      bounded = omega arith;
      unheard = λ p. absurd (loop-neq-drain p);
      emptied = λ p. refl;
    }
