-- ===== src/Proxy/Controller/Wake/Ends.antt =====
-- `wake` ends: the fuel of its loop is enough for the cold start timeout.
use duckflight_extension.Common.{
  ℕ, zero, suc, ◌+◌, ◌-◌, ◌*◌, ◌≤◌, ◌<◌, false, Option, none, some, ◌≡◌, ◌≢◌, refl, ap, ◌∙◌, arith,
  leb,
}
use duckflight_extension.Proxy.World.{
  out_of_fuel, Result, ok, err, continue, Backend, Environment, instant_now, sleep,
}
use duckflight_extension.Proxy.Ends.{
  Outcome, Ends, Ends-pure, Ends-raise, Ends-if, Ends-bind, Ends-given, Ends-so, Ends-fact,
  Ends-lift,
}
use duckflight_extension.Proxy.Ends.Requests.{
  After, ClockLaw, message-ne, Ends-instant_now, Ends-sleep,
}
use duckflight_extension.Proxy.Controller.{State}
use duckflight_extension.Proxy.Controller.Wake.{wake_round, wake_next, wake_loop, wake}
use duckflight_extension.Proxy.Controller.Wake.Parts.{
  Late, Ends-current, Ends-fence_if_needed, Ends-wake_replicas,
}

module _ (env : Environment) (law : ClockLaw env) where
  in_time : (deadline n now : ℕ) → n ≤ now → leb deadline now ≡ false → n < deadline
  in_time deadline n now later e = ground arith

  -- A round ends, and gives a result only before the deadline.
  Ends-wake_round :
      (deadline n : ℕ) → Ends (Late n) (wake_round env deadline) (λ _ s. Late n s × (n < deadline))
  unfolding wake_round
  Ends-wake_round deadline n =
      Ends-bind
        (Ends-lift (After n) (λ now t. (n ≤ now) × After now t) (Ends-instant_now env law n))
        λ now. Ends-fact λ later.
          Ends-if (leb deadline now) (λ e. Ends-raise _ (message-ne _))
            λ e.
              Ends-so (λ found s h. (omega arith, in_time deadline n now later e))
                (Ends-bind (Ends-fence_if_needed env now) λ _.
                  Ends-bind (Ends-current env now) λ current. Ends-wake_replicas env now current _)

  Ends-wake_loop :
      (fuel deadline n : ℕ)
      → deadline ≤ n + 500 * fuel
      → Ends (Late n) (wake_loop env (suc fuel) deadline) (λ _ s. Unit {0})
  unfolding wake_loop wake_next
  Ends-wake_loop zero deadline n enough = Ends-bind (Ends-wake_round deadline n) λ found. late found
    where
      late :
          (found : Option Backend)
          → Ends
              (λ s. Late n s × (n < deadline))
              (wake_next env (wake_loop env zero deadline) found)
              (λ _ s. Unit {0})
      late found = record { at = λ s h. absurd (omega arith) }
  Ends-wake_loop (suc fuel) deadline n enough =
      Ends-bind (Ends-wake_round deadline n)
        (again (Ends-wake_loop fuel deadline (n + 500) (omega arith)))
    where
      again :
          Ends (Late (n + 500)) (wake_loop env (suc fuel) deadline) (λ _ s. Unit {0})
          → (found : Option Backend)
          → Ends
              (λ s. Late n s × (n < deadline))
              (wake_next env (wake_loop env (suc fuel) deadline) found)
              (λ _ s. Unit {0})
      again rest none =
          Ends-given (λ s h. h.0)
            (Ends-bind (Ends-lift (After n) (λ _. After (n + 500)) (Ends-sleep 500 n)) λ _. rest)
      again rest (some backend) = Ends-pure backend (λ s h. tt)

  Ends-wake :
      (fuel : ℕ)
      → Ends (λ s. s.config.cold_start_timeout + 500 ≤ 500 * fuel) (wake env fuel) (λ _ s. Unit {0})
  unfolding wake instant_now
  Ends-wake zero = record { at = λ s h. absurd (omega arith) }
  Ends-wake (suc fuel) = record {
    at = λ s h.
        let now = env.now s.trace in
        (Ends-wake_loop fuel (now + s.config.cold_start_timeout) now (omega arith)).at _
          (let h : now ≤ now = omega arith in h);
  }

Ends-ne :
    {S A : Type 0} (Q : A → S → Type 0) (x : Result A × S) → Outcome Q x → x.0 ≢ err out_of_fuel
Ends-ne Q (ok a, s) h e = cc
Ends-ne Q (err x, s) h e = h (cc e)

module _ (env : Environment) (deadline : ℕ) where
  same_next :
      (fuel : ℕ)
      → ((s : State)
          → (wake_loop env fuel deadline s).0 ≢ err out_of_fuel
          → wake_loop env (suc fuel) deadline s ≡ wake_loop env fuel deadline s)
      → (x : Result (Option Backend) × State)
      → (continue x.0 (wake_next env (wake_loop env fuel deadline)) x.1).0 ≢ err out_of_fuel
      → continue x.0 (wake_next env (wake_loop env (suc fuel) deadline)) x.1
        ≡ continue x.0 (wake_next env (wake_loop env fuel deadline)) x.1
  unfolding wake_next sleep
  same_next fuel ih (ok none, s) h = ih _ h
  same_next fuel ih (ok (some backend), s) h = refl
  same_next fuel ih (err e, s) h = refl

  -- One more round of fuel changes nothing where the loop did not run out.
  wake_loop-suc :
      (fuel : ℕ) (s : State)
      → (wake_loop env fuel deadline s).0 ≢ err out_of_fuel
      → wake_loop env (suc fuel) deadline s ≡ wake_loop env fuel deadline s
  unfolding wake_loop
  wake_loop-suc zero s h = absurd (h refl)
  wake_loop-suc (suc fuel) s h = same_next fuel (wake_loop-suc fuel) (wake_round env deadline s) h

module _ (env : Environment) (law : ClockLaw env) (s : State) where
  wake_ends :
      (fuel : ℕ)
      → s.config.cold_start_timeout + 500 ≤ 500 * fuel
      → (wake env fuel s).0 ≢ err out_of_fuel
  wake_ends fuel enough =
      Ends-ne (λ _ s. Unit {0}) (wake env fuel s) ((Ends-wake env law fuel).at s enough)

  wake-suc :
      (fuel : ℕ)
      → s.config.cold_start_timeout + 500 ≤ 500 * fuel
      → wake env (suc fuel) s ≡ wake env fuel s
  unfolding wake instant_now
  wake-suc fuel enough =
      wake_loop-suc env (env.now s.trace + s.config.cold_start_timeout) fuel _
        (wake_ends fuel enough)

  wake-add :
      (fuel extra more : ℕ)
      → s.config.cold_start_timeout + 500 ≤ 500 * fuel
      → more ≡ extra + fuel
      → wake env more s ≡ wake env fuel s
  wake-add fuel zero more enough e = ap (λ m. wake env m s) (omega arith)
  wake-add fuel (suc extra) zero enough e = absurd (omega arith)
  wake-add fuel (suc extra) (suc more) enough e =
      wake-suc more (omega arith) ∙ wake-add fuel extra more enough (omega arith)

  -- Under a clock that does not go back and sleeps that are not cut short, `wake` ends: with as much
  -- fuel as the cold start timeout has half seconds, and one more, it does not run out of fuel in
  -- any environment, and more fuel changes neither its result nor what it does.
  pub wake_terminates :
      (fuel : ℕ)
      → s.config.cold_start_timeout + 500 ≤ 500 * fuel
      → ((wake env fuel s).0 ≢ err out_of_fuel)
        × ((more : ℕ) → fuel ≤ more → wake env more s ≡ wake env fuel s)
  wake_terminates fuel enough =
      (wake_ends fuel enough, λ more le. wake-add fuel (more - fuel) more enough (omega arith))
