-- ===== src/Extension/Hoare.antt =====
-- Pre- and postconditions of actions with an error path, for src/lib.rs and src/dynamic_core.rs.
use duckflight_extension.Extension.Results.{Result, ok, err, Act, continue, ◌>>=◌, pure}
use duckflight_extension.Extension.Platform.{Machine, or_else, on_core}

module _ {S A : Type 0} where
  abbrev pub Post : (A → S → Type 0) → (S → Type 0) → Result A × S → Type 0
  Post Q E (ok a, s) = Q a s
  Post Q E (err e, s) = E s

  -- From a state with `P`, a result comes with `Q`, and an error with `E`.
  pub record Triple (P : S → Type 0) (m : Act S A) (Q : A → S → Type 0) (E : S → Type 0)
      : Type 0 where
    pub at : (s : S) → P s → Post Q E (m s)

  pub Triple-pure :
      {P : S → Type 0} {Q : A → S → Type 0} {E : S → Type 0} (a : A)
      → ((s : S) → P s → Q a s)
      → Triple P (pure a) Q E
  Triple-pure a h = record { at = h }

module _ {S A : Type 0} {Q Q' : A → S → Type 0} {E E' : S → Type 0} where
  Post-weaken :
      ((a : A) (s : S) → Q a s → Q' a s)
      → ((s : S) → E s → E' s)
      → (x : Result A × S) → Post Q E x
      → Post Q' E' x
  Post-weaken q e (ok a, s) h = q a s h
  Post-weaken q e (err x, s) h = e s h

  pub Triple-weaken :
      {P P' : S → Type 0} {m : Act S A}
      → ((s : S) → P' s → P s)
      → ((a : A) (s : S) → Q a s → Q' a s)
      → ((s : S) → E s → E' s)
      → Triple P m Q E
      → Triple P' m Q' E'
  Triple-weaken {m} p q e T = record { at = λ s h. Post-weaken q e (m s) (T.at s (p s h)) }

module _ {S A B : Type 0} {R : A → S → Type 0} {Q : B → S → Type 0} {E : S → Type 0} where
  Post-continue :
      (f : A → Act S B)
      → ((a : A) → Triple (R a) (f a) Q E)
      → (x : Result A × S) → Post R E x
      → Post Q E (continue x.0 f x.1)
  Post-continue f kf (ok a, s) h = (kf a).at s h
  Post-continue f kf (err e, s) h = h

  pub Triple-bind :
      {P : S → Type 0} {m : Act S A} {f : A → Act S B}
      → Triple P m R E
      → ((a : A) → Triple (R a) (f a) Q E)
      → Triple P (m >>= f) Q E
  Triple-bind {m} {f} km kf = record { at = λ s h. Post-continue f kf (m s) (km.at s h) }

module _ {P A : Type 0} (Q : A → Machine P → Type 0) (E E' : Machine P → Type 0) where
  Post-or_else :
      (clean : Machine P → Machine P)
      → ((m : Machine P) → E m → E' (clean m))
      → (x : Result A × Machine P) → Post Q E x
      → Post Q E' (or_else clean x)
  Post-or_else clean h (ok a, m) p = p
  Post-or_else clean h (err e, m) p = h m p

  -- What is released when an error is returned.
  pub Triple-or_else :
      {Pre : Machine P → Type 0} {act : Act (Machine P) A} (clean : Machine P → Machine P)
      → ((m : Machine P) → E m → E' (clean m))
      → Triple Pre act Q E
      → Triple Pre (λ m. or_else clean (act m)) Q E'
  Triple-or_else {act} clean h T = record { at = λ m p. Post-or_else clean h (act m) (T.at m p) }

module _ {P A : Type 0} {Inv : Machine P → Type 0} where
  -- A call of the core leaves the log and the tables alone.
  pub Triple-on_core :
      (act : Act P A)
      → ((m : Machine P) (core : P) → Inv m → Inv (record m { core = core }))
      → Triple Inv (on_core act) (λ _. Inv) Inv
  Triple-on_core act keep = record { at = λ m h. called m (act m.core) h }
    where
      called :
          (m : Machine P) (x : Result A × P)
          → Inv m
          → Post (λ _. Inv) Inv (x.0, record m { core = x.1 })
      called m (ok a, core) h = keep m core h
      called m (err e, core) h = keep m core h
