-- ===== src/Extension/Results.antt =====
-- `Result` with a boxed error, which src/lib.rs and src/dynamic_core.rs keep as its text, beside the
-- state of the core that a call leaves.
use duckflight_extension.Common.{Bool, true, false, ◌≡◌, refl, if◌then◌else◌}
use duckflight_extension.Abi.{Text}

pub data Result {ℓ} (A : Type ℓ) : Type ℓ where
  ok : A → Result A
  err : Text → Result A

-- What runs over a state `S`: the state stays changed when an error is returned.
abbrev pub Act : Type 0 → Type 0 → Type 0
Act S A = S → Result A × S

module _ {S A B : Type 0} where
  abbrev pub continue : Result A → (A → Act S B) → Act S B
  continue (ok a) f s = f a s
  continue (err e) f s = (err e, s)

  infixl 5 ◌>>=◌
  abbrev pub ◌>>=◌ : Act S A → (A → Act S B) → Act S B
  (m >>= f) s = continue (m s).0 f (m s).1

module _ {S B : Type 0} where
  infixl 5 ◌>>◌
  abbrev pub ◌>>◌ : Act S (Unit {0}) → Act S B → Act S B
  (m >> k) s = continue (m s).0 (λ _. k) (m s).1

module _ {S A : Type 0} where
  abbrev pub pure : A → Act S A
  pure a s = (ok a, s)

  -- `?` on a result that does not use the state.
  abbrev pub lift : Result A → Act S A
  lift r s = (r, s)

-- `if c { return Err(e) }`
abbrev pub refuse_if : Bool → Text → Result (Unit {0})
refuse_if true e = err e
refuse_if false e = ok tt

-- An action that succeeds has succeeded at its first step.
pub continue-ok :
    {S A B : Type 0} (r : Result A) (f : A → Act S B) (s : S) (b : B)
    → (continue r f s).0 ≡ ok b
    → (a : A) × (r ≡ ok a) × ((f a s).0 ≡ ok b)
continue-ok (ok a) f s b h = (a, refl, h)
continue-ok (err e) f s b h = cc

pub refuse_if-ok : (c : Bool) (e : Text) (t : Unit {0}) → refuse_if c e ≡ ok t → c ≡ false
refuse_if-ok true e t h = cc
refuse_if-ok false e t h = refl

pub else-ok :
    {A : Type 0} (c : Bool) (e : Text) (r : Result A) (a : A)
    → (if c then err e else r) ≡ ok a
    → (c ≡ false) × (r ≡ ok a)
else-ok true e r a h = cc
else-ok false e r a h = (refl, h)

pub ok-eq-ok : {A : Type 0} (a b : A) → ok a ≡ ok b → a ≡ b
ok-eq-ok a b h = cc
