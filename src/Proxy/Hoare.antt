-- ===== src/Proxy/Hoare.antt =====
-- Pre- and postconditions of the proxy's methods, with a postcondition for the error path, and what a
-- request adds to the log.
use duckflight_extension.Common.{Bool, true, false, ◌∷◌, ◌≡◌, refl, if◌then◌else◌}
use duckflight_extension.Proxy.Json.{Json}
use duckflight_extension.Proxy.World.{
  Error, Result, ok, err, Act, continue, ◌>>=◌, pure, raise, attempt, gets, modify, Call, Request,
  Reply, failed, not_json, replied, sent, Trace, Io,
}
use duckflight_extension.Proxy.Controller.{State, lift}

module _ {S A : Type 0} where
  abbrev pub Post : (A → S → Type 0) → (S → Type 0) → Result A × S → Type 0
  Post Q E (ok a, s) = Q a s
  Post Q E (err e, s) = E s

  -- From a state with `P`, a result comes with `Q`, and an error with `E`.
  pub record Triple (P : S → Type 0) (m : Act S A) (Q : A → S → Type 0) (E : S → Type 0)
      : Type 0 where
    pub at : (s : S) → P s → Post Q E (m s)

  pub Triple-pure :
      {P : S → Type 0} {Q : A → S → Type 0} {E : S → Type 0} (a : A)
      → ((s : S) → P s → Q a s)
      → Triple P (pure a) Q E
  Triple-pure a h = record { at = h }

  pub Triple-raise :
      {P : S → Type 0} {Q : A → S → Type 0} {E : S → Type 0} (e : Error)
      → ((s : S) → P s → E s)
      → Triple P (raise e) Q E
  Triple-raise e h = record { at = h }

  pub Triple-if :
      {P : S → Type 0} {Q : A → S → Type 0} {E : S → Type 0} (b : Bool) {m n : Act S A}
      → (b ≡ true → Triple P m Q E)
      → (b ≡ false → Triple P n Q E)
      → Triple P (if b then m else n) Q E
  Triple-if true km kn = km refl
  Triple-if false km kn = kn refl

module _ {S A : Type 0} {Q Q' : A → S → Type 0} {E E' : S → Type 0} where
  Post-weaken :
      ((a : A) (s : S) → Q a s → Q' a s)
      → ((s : S) → E s → E' s)
      → (x : Result A × S) → Post Q E x
      → Post Q' E' x
  Post-weaken q e (ok a, s) h = q a s h
  Post-weaken q e (err x, s) h = e s h

  pub Triple-weaken :
      {P P' : S → Type 0} {m : Act S A}
      → ((s : S) → P' s → P s)
      → ((a : A) (s : S) → Q a s → Q' a s)
      → ((s : S) → E s → E' s)
      → Triple P m Q E
      → Triple P' m Q' E'
  Triple-weaken {m} p q e T = record { at = λ s h. Post-weaken q e (m s) (T.at s (p s h)) }

module _ {S A B : Type 0} {R : A → S → Type 0} {Q : B → S → Type 0} {E : S → Type 0} where
  Post-continue :
      (f : A → Act S B)
      → ((a : A) → Triple (R a) (f a) Q E)
      → (x : Result A × S) → Post R E x
      → Post Q E (continue x.0 f x.1)
  Post-continue f kf (ok a, s) h = (kf a).at s h
  Post-continue f kf (err e, s) h = h

  pub Triple-bind :
      {P : S → Type 0} {m : Act S A} {f : A → Act S B}
      → Triple P m R E
      → ((a : A) → Triple (R a) (f a) Q E)
      → Triple P (m >>= f) Q E
  Triple-bind {m} {f} km kf = record { at = λ s h. Post-continue f kf (m s) (km.at s h) }

module _ {S A B : Type 0} {P : S → Type 0} {Q : B → S → Type 0} {E : S → Type 0} where
  -- The rest of a block may use the field that was read.
  pub Triple-gets :
      (g : S → A) {f : A → Act S B}
      → ((a : A) → Triple (λ s. P s × (g s ≡ a)) (f a) Q E)
      → Triple P (gets g >>= f) Q E
  Triple-gets g kf = record { at = λ s h. (kf (g s)).at s (h, refl) }

module _ {S B : Type 0} {P R : S → Type 0} {Q : B → S → Type 0} {E : S → Type 0} where
  pub Triple-modify :
      (g : S → S) {k : Act S B}
      → ((s : S) → P s → R (g s))
      → Triple R k Q E
      → Triple P (modify g >>= λ _. k) Q E
  Triple-modify g h kf = record { at = λ s p. kf.at (g s) (h s p) }

module _ {S : Type 0} {P : S → Type 0} {Q : Unit {0} → S → Type 0} {E : S → Type 0} where
  -- The last action of a block.
  pub Triple-update : (g : S → S) → ((s : S) → P s → Q tt (g s)) → Triple P (modify g) Q E
  Triple-update g h = record { at = λ s p. h s p }

module _ {S A : Type 0} (N : S → Type 0) where
  Post-attempt : (x : Result A × S) → Post (λ _. N) N x → N x.1
  Post-attempt (ok a, s) h = h
  Post-attempt (err e, s) h = h

  -- Where the error is handled, both outcomes go on.
  pub Triple-attempt :
      {P : S → Type 0} {E : S → Type 0} {m : Act S A}
      → Triple P m (λ _. N) N
      → Triple P (attempt m) (λ _. N) E
  Triple-attempt {m} T = record { at = λ s p. Post-attempt (m s) (T.at s p) }

-- What a call that is one request may do to the log: nothing if the request could not be built, and
-- else it adds the request; a result comes with a reply that fits it.
pub data Asked {A : Type 0} (call : Call) (Fits : Reply → A → Type 0) (t : Trace)
    : Result A × Trace → Type 0 where
  unsent : (e : Error) → Asked call Fits t (err e, t)
  refused :
      (e : Error) (r : Request) (reply : Reply)
      → r.call ≡ call
      → Asked call Fits t (err e, sent r reply ∷ t)
  answered :
      (a : A) (r : Request) (reply : Reply)
      → r.call ≡ call
      → Fits reply a
      → Asked call Fits t (ok a, sent r reply ∷ t)

-- A result that is read off a JSON body.
abbrev pub Body : {A : Type 0} → (Json → A → Type 0) → Reply → A → Type 0
Body Fits (replied j) a = Fits j a
Body Fits failed a = ⊥
Body Fits not_json a = ⊥

abbrev pub logged : Request → Reply → State → State
logged r reply s = record s { trace = sent r reply ∷ s.trace }

module _ {A : Type 0} {call : Call} {Fits : Reply → A → Type 0} where
  Post-Asked :
      (Q : A → State → Type 0) (E : State → Type 0) (s : State) {x : Result A × Trace}
      → Asked call Fits s.trace x
      → E s
      → ((r : Request) (reply : Reply) → r.call ≡ call → E (logged r reply s))
      → ((a : A) (r : Request) (reply : Reply)
          → r.call ≡ call
          → Fits reply a
          → Q a (logged r reply s))
      → Post Q E (x.0, record s { trace = x.1 })
  Post-Asked Q E s (unsent e) no_request no_answer fit = no_request
  Post-Asked Q E s (refused e r reply c) no_request no_answer fit = no_answer r reply c
  Post-Asked Q E s (answered a r reply c f) no_request no_answer fit = fit a r reply c f

  pub Triple-Asked :
      {P : State → Type 0} {Q : A → State → Type 0} {E : State → Type 0} {m : Io A}
      → ((t : Trace) → Asked call Fits t (m t))
      → ((s : State) → P s → E s)
      → ((s : State) (r : Request) (reply : Reply) → P s → r.call ≡ call → E (logged r reply s))
      → ((s : State) (a : A) (r : Request) (reply : Reply)
          → P s
          → r.call ≡ call
          → Fits reply a
          → Q a (logged r reply s))
      → Triple P (lift m) Q E
  Triple-Asked {Q} {E} asks no_request no_answer fit = record {
    at = λ s p.
        Post-Asked Q E s (asks s.trace) (no_request s p) (λ r reply c. no_answer s r reply p c)
          (λ a r reply c f. fit s a r reply p c f);
  }

-- An action that leaves the log alone.
abbrev pub IsSilent : {A : Type 0} → Io A → Type 0
IsSilent m = (t : Trace) → (m t).1 ≡ t

module _ {A : Type 0} where
  Post-always : (P : State → Type 0) (x : Result A × State) → P x.1 → Post (λ _. P) P x
  Post-always P (ok a, s) h = h
  Post-always P (err e, s) h = h

  pub Triple-silent : (P : State → Type 0) (m : Io A) → IsSilent m → Triple P (lift m) (λ _. P) P
  Triple-silent P m silent = record { at = λ s p. Post-always P _ (rw (silent s.trace) p) }
