-- ===== src/Proxy/Main/Drain.antt =====
-- The end of `main` of crates/duckflight-idle-proxy/src/main.rs after the termination signal.
use duckflight_extension.Common.{
  ℕ, ◌+◌, ◌≤◌, ◌<◌, true, false, List, [], ◌∷◌, ◌++◌, ◌≡◌, refl, sym, ap, ◌∙◌, arith, inl, inr, ◌⊎◌,
  length, length-append,
}
use duckflight_extension.Proxy.World.{ok, err, Result, Backend, Environment, Trace}
use duckflight_extension.Proxy.Config.{Config}
use duckflight_extension.Proxy.Controller
use duckflight_extension.Proxy.Evidence.{open_count}
use duckflight_extension.Proxy.Safety.{connections_are_counted}
use duckflight_extension.Proxy.Controller.{Controller, State}
use duckflight_extension.Proxy.Sessions.{open_connection}
use duckflight_extension.Proxy.Main.{
  Stream, Acceptor, listening, sending, Task, reading, serving, Phase, looping, draining, returned,
  Main, all_ended, woken_task, MainStep, accepts_client, accept_fails, sends, receives, leaves,
  wakes, closes, ticks, signalled, listeners_stop, drained, MainReach, begun, stepped, spawned,
}
use duckflight_extension.Proxy.Main.Runs.{count_serving, not_all_ended, spawned-Sound}

-- The steps that a task has before it.
abbrev pub task_steps : List Task → ℕ
task_steps [] = 0
task_steps (reading stream ∷ tasks) = task_steps tasks + 2
task_steps (serving stream ∷ tasks) = task_steps tasks + 1

task_steps-append : (xs ys : List Task) → task_steps (xs ++ ys) ≡ task_steps xs + task_steps ys
task_steps-append [] ys = omega arith
task_steps-append (reading stream ∷ xs) ys = omega (arith, task_steps-append xs ys)
task_steps-append (serving stream ∷ xs) ys = omega (arith, task_steps-append xs ys)

-- The return is one step more.
abbrev pub steps_left : Phase → ℕ
steps_left draining = 1
steps_left _ = 0

abbrev pub drain_bound : Main → ℕ
drain_bound m = task_steps m.connections + steps_left m.phase

-- After the loop, with nobody listening.
pub record Draining (m : Main) : Type 0 where
  pub past : (m.phase ≡ draining) ⊎ (m.phase ≡ returned)
  pub unheard : all_ended m.acceptors ≡ true

pub steps : {env : Environment} {m m' : Main} → MainReach env m m' → ℕ
steps begun = 0
steps (stepped run step) = steps run + 1

module _ (env : Environment) where
  woken_steps : (stream : Stream) (r : Result Backend) → task_steps (woken_task stream r) ≤ 1
  unfolding woken_task
  woken_steps stream (ok backend) = omega arith
  woken_steps stream (err error) = omega arith

  not_looping : (m : Main) → Draining m → m.phase ≡ looping → ⊥
  not_looping m d p = other d.past
    where
      other : ((m.phase ≡ draining) ⊎ (m.phase ≡ returned)) → ⊥
      other (inl e) = cc
      other (inr e) = cc

  silent :
      (m : Main) (before after : List Acceptor) (a : Acceptor)
      → m.acceptors ≡ before ++ a ∷ after
      → all_ended (a ∷ []) ≡ false
      → Draining m
      → ⊥
  silent m before after a e open_ d =
      clash (sym d.unheard ∙ ap all_ended e ∙ not_all_ended before after a open_)
    where
      clash : true ≡ false → ⊥
      clash h = cc

  woken_length : (stream : Stream) (r : Result Backend) → length (woken_task stream r) ≤ 1
  unfolding woken_task
  woken_length stream (ok backend) = omega arith
  woken_length stream (err error) = omega arith

  Step-Draining :
      {m m' : Main}
      → MainStep env m m'
      → Draining m
      → Draining m'
        × (drain_bound m' < drain_bound m)
        × (m'.queue ≡ m.queue)
        × (length m'.connections ≤ length m.connections)
  Step-Draining {m} (accepts_client before after port peer running e) d =
      absurd (silent m before after (listening port) e refl d)
  Step-Draining {m} (accept_fails before after port running e) d =
      absurd (silent m before after (listening port) e refl d)
  Step-Draining {m} (sends before after stream running e room) d =
      absurd (silent m before after (sending stream) e refl d)
  Step-Draining {m} (receives stream rest p e) d = absurd (not_looping m d p)
  Step-Draining {m} (leaves before after stream running e) d = (
    record { past = d.past; unheard = d.unheard },
    omega (
      arith,
      ap task_steps e,
      task_steps-append before (reading stream ∷ after),
      task_steps-append before after,
    ),
    refl,
    omega (
      arith,
      ap length e,
      length-append before (reading stream ∷ after),
      length-append before after,
    ),
  )
  Step-Draining {m} (wakes fuel before after stream running e) d =
      let r = (open_connection env fuel m.system.state).0 in
      (
        record { past = d.past; unheard = d.unheard },
        omega (
          arith,
          ap task_steps e,
          woken_steps stream r,
          task_steps-append before (reading stream ∷ after),
          task_steps-append (before ++ woken_task stream r) after,
          task_steps-append before (woken_task stream r),
        ),
        refl,
        omega (
          arith,
          ap length e,
          woken_length stream r,
          length-append before (reading stream ∷ after),
          length-append (before ++ woken_task stream r) after,
          length-append before (woken_task stream r),
        ),
      )
  Step-Draining {m} (closes before after stream running e) d = (
    record { past = d.past; unheard = d.unheard },
    omega (
      arith,
      ap task_steps e,
      task_steps-append before (serving stream ∷ after),
      task_steps-append before after,
    ),
    refl,
    omega (
      arith,
      ap length e,
      length-append before (serving stream ∷ after),
      length-append before after,
    ),
  )
  Step-Draining {m} (ticks p) d = absurd (not_looping m d p)
  Step-Draining {m} (signalled p) d = absurd (not_looping m d p)
  Step-Draining {m} (listeners_stop p e all) d = absurd (not_looping m d p)
  Step-Draining {m} (drained p e) d = (
    record { past = inr refl; unheard = d.unheard },
    omega (arith, ap steps_left p),
    refl,
    omega arith,
  )

  -- What is left of the connections after some steps.
  record Left (m : Main) (n : ℕ) (m' : Main) : Type 0 where
    pub draining_on : Draining m'
    pub bound : n + drain_bound m' ≤ drain_bound m
    pub unserved : m'.queue ≡ m.queue
    pub none_new : length m'.connections ≤ length m.connections

  Reach-Draining : {m m' : Main} (run : MainReach env m m') → Draining m → Left m (steps run) m'
  unfolding steps
  Reach-Draining begun d = record {
    draining_on = d;
    bound = omega arith;
    unserved = refl;
    none_new = omega arith;
  }
  Reach-Draining (stepped run step) d =
      let h = Reach-Draining run d in
      let (d', less, same, fewer) = Step-Draining step h.draining_on in
      record {
        draining_on = d';
        bound = omega (arith, h.bound, less);
        unserved = same ∙ h.unserved;
        none_new = omega (arith, h.none_new, fewer);
      }

module _ (env : Environment) (config : Config) (controller : Controller) (t : Trace) {m : Main}
    (run : MainReach env (spawned config controller t) m) (signal_came : m.phase ≡ draining) where
  -- After the termination signal the program only finishes what it has begun: no client that waits in the
  -- channel is served any more and no connection is added, and until it returns it takes at most two steps for
  -- each connection whose worker was not yet awake and one for each other connection, and with its return one
  -- more. How long a step takes is not said: a connection that stays open keeps the program running.
  pub drain_is_bounded :
      {m' : Main} (rest : MainReach env m m')
      → (steps rest + drain_bound m' ≤ drain_bound m)
        × (m'.queue ≡ m.queue)
        × (length m'.connections ≤ length m.connections)
        × (all_ended m'.acceptors ≡ true)
  drain_is_bounded {m'} rest =
      let sound = spawned-Sound env config controller t run in
      let h =
        Reach-Draining env rest
          (record { past = inl signal_came; unheard = sound.unheard signal_came }) in
      (h.bound, h.unserved, h.none_new, h.draining_on.unheard)

module _ (env : Environment) (config : Config) {c : Controller} {t : Trace}
    (started : Controller.new env config [] ≡ (ok c, t)) {m : Main}
    (run : MainReach env (spawned config c t) m) where
  -- When the program returns after the termination signal, no connection is left, by its tasks, by the
  -- controller's count and by the log.
  pub return_is_drained :
      m.phase ≡ returned
      → (m.connections ≡ [])
        × (m.system.state.connections ≡ 0)
        × (open_count m.system.state.trace ≡ 0)
  unfolding spawned
  return_is_drained p =
      let sound = spawned-Sound env config c t run in
      let empty = sound.emptied p in
      let (counted, logged) = connections_are_counted env config started sound.reach in
      (
        empty,
        counted ∙ sound.sessions ∙ ap count_serving empty,
        logged ∙ sound.sessions ∙ ap count_serving empty,
      )
