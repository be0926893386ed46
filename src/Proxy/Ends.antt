-- ===== src/Proxy/Ends.antt =====
-- Actions of the proxy of crates/duckflight-idle-proxy/src/main.rs that come to an end by themselves:
-- rules for pre- and postconditions where an error is never that of a loop cut short.
pub mod Requests
use duckflight_extension.Common.{
  ℕ, Bool, true, false, ◌∷◌, ◌≡◌, ◌≢◌, refl, if◌then◌else◌, Option, none, some,
}
use duckflight_extension.Proxy.World.{
  Error, out_of_fuel, Result, ok, err, Act, continue, ◌>>=◌, pure, raise, gets, modify, from_option,
  Trace, Io,
}
use duckflight_extension.Proxy.Controller.{State, lift}

module _ {S A : Type 0} where
  abbrev pub Outcome : (A → S → Type 0) → Result A × S → Type 0
  Outcome Q (ok a, s) = Q a s
  Outcome Q (err e, s) = e ≢ out_of_fuel

  pub record Ends (P : S → Type 0) (m : Act S A) (Q : A → S → Type 0) : Type 0 where
    pub at : (s : S) → P s → Outcome Q (m s)

  pub Ends-pure :
      {P : S → Type 0} {Q : A → S → Type 0} (a : A) → ((s : S) → P s → Q a s) → Ends P (pure a) Q
  Ends-pure a h = record { at = h }

  pub Ends-raise :
      {P : S → Type 0} {Q : A → S → Type 0} (e : Error) → e ≢ out_of_fuel → Ends P (raise e) Q
  Ends-raise e h = record { at = λ s p. h }

  pub Ends-from_option :
      {P : S → Type 0} (e : Error) (o : Option A)
      → e ≢ out_of_fuel
      → Ends P (from_option e o) (λ _. P)
  Ends-from_option e none h = record { at = λ s p. h }
  Ends-from_option e (some a) h = record { at = λ s p. p }

  pub Ends-if :
      {P : S → Type 0} {Q : A → S → Type 0} (b : Bool) {m n : Act S A}
      → (b ≡ true → Ends P m Q)
      → (b ≡ false → Ends P n Q)
      → Ends P (if b then m else n) Q
  Ends-if true km kn = km refl
  Ends-if false km kn = kn refl

module _ {S A B : Type 0} {R : A → S → Type 0} {Q : B → S → Type 0} where
  Outcome-continue :
      (f : A → Act S B)
      → ((a : A) → Ends (R a) (f a) Q)
      → (x : Result A × S) → Outcome R x
      → Outcome Q (continue x.0 f x.1)
  Outcome-continue f kf (ok a, s) h = (kf a).at s h
  Outcome-continue f kf (err e, s) h = h

  pub Ends-bind :
      {P : S → Type 0} {m : Act S A} {f : A → Act S B}
      → Ends P m R
      → ((a : A) → Ends (R a) (f a) Q)
      → Ends P (m >>= f) Q
  Ends-bind {m} {f} km kf = record { at = λ s h. Outcome-continue f kf (m s) (km.at s h) }

module _ {S A B : Type 0} {P : S → Type 0} {Q : B → S → Type 0} where
  pub Ends-gets :
      (g : S → A) {f : A → Act S B}
      → ((a : A) → Ends (λ s. P s × (g s ≡ a)) (f a) Q)
      → Ends P (gets g >>= f) Q
  Ends-gets g kf = record { at = λ s h. (kf (g s)).at s (h, refl) }

module _ {S B : Type 0} {P R : S → Type 0} {Q : B → S → Type 0} where
  pub Ends-modify :
      (g : S → S) {k : Act S B}
      → ((s : S) → P s → R (g s))
      → Ends R k Q
      → Ends P (modify g >>= λ _. k) Q
  Ends-modify g h kf = record { at = λ s p. kf.at (g s) (h s p) }

module _ {S A : Type 0} {Q Q' : A → S → Type 0} where
  Outcome-weaken :
      ((a : A) (s : S) → Q a s → Q' a s) → (x : Result A × S) → Outcome Q x → Outcome Q' x
  Outcome-weaken q (ok a, s) h = q a s h
  Outcome-weaken q (err e, s) h = h

  pub Ends-so :
      {P : S → Type 0} {m : Act S A} → ((a : A) (s : S) → Q a s → Q' a s) → Ends P m Q → Ends P m Q'
  Ends-so {m} q T = record { at = λ s p. Outcome-weaken q (m s) (T.at s p) }

module _ {S A : Type 0} {P : S → Type 0} {m : Act S A} {Q : A → S → Type 0} where
  pub Ends-given : {P' : S → Type 0} → ((s : S) → P' s → P s) → Ends P m Q → Ends P' m Q
  Ends-given h T = record { at = λ s p. T.at s (h s p) }

  pub Ends-fact : {F : Type 0} → (F → Ends P m Q) → Ends (λ s. F × P s) m Q
  Ends-fact kf = record { at = λ s (f, p). (kf f).at s p }

module _ {A : Type 0} (P : Trace → Type 0) (Q : A → Trace → Type 0) where
  Outcome-lift :
      (s : State) (x : Result A × Trace)
      → Outcome Q x
      → Outcome (λ a s. Q a s.trace) (x.0, record s { trace = x.1 })
  Outcome-lift s (ok a, t) h = h
  Outcome-lift s (err e, t) h = h

  -- What an action on the log promises of the log, it promises of the controller's log.
  pub Ends-lift : {m : Io A} → Ends P m Q → Ends (λ s. P s.trace) (lift m) (λ a s. Q a s.trace)
  Ends-lift {m} T = record { at = λ s h. Outcome-lift s (m s.trace) (T.at s.trace h) }

module _ {S : Type 0} {P : S → Type 0} {Q : Unit {0} → S → Type 0} where
  -- The last action of a block.
  pub Ends-update : (g : S → S) → ((s : S) → P s → Q tt (g s)) → Ends P (modify g) Q
  Ends-update g h = record { at = λ s p. h s p }
