-- ===== src/Extension/Entry/Registering.antt =====
-- What the registration of table functions in src/lib.rs leaves open, and what it adds.
use duckflight_extension.Common.{
  ℕ, ◌≤◌, ◌<◌, Bool, true, false, Option, none, some, List, [], ◌∷◌, ◌++◌, ◌≡◌, refl, length,
  length-append, arith,
}
use duckflight_extension.Abi.{Text}
use duckflight_extension.Extension.Results.{Result, ok, err, ◌>>◌}
use duckflight_extension.Extension.Hoare.{Post, Triple, Triple-pure, Triple-bind}
use duckflight_extension.Extension.Platform.{TableFunction, registered, Platform, Machine}
use duckflight_extension.Extension.Runtime.{CoreRuntime}
use duckflight_extension.Extension.Bundle.{Loaded, drop_loaded, drop_file}
use duckflight_extension.Extension.Bundle.Sealing.{Unheld}
use duckflight_extension.Extension.Entry.{drop_state, registered_of, register_table, register_all}

module _ {P : Type 0} (utf8_error : Text → Text) (platform : Platform P) where
  -- Registering tables opens and closes nothing.
  pub Held-register_all :
      (bytes : Text) (f l : List ℕ) (fs : List (Text × TableFunction)) (core : CoreRuntime P)
      → Triple
          (Unheld platform bytes f l)
          (register_all utf8_error platform fs core)
          (λ _. Unheld platform bytes f l)
          (Unheld platform bytes f l)
  unfolding register_all register_table registered_of
  Held-register_all bytes f l [] core = Triple-pure tt (λ m h. h)
  Held-register_all bytes f l ((name, g) ∷ fs) core =
      Triple-bind (record { at = λ m h. step m (platform.register m.log name g) h })
        λ _. Held-register_all bytes f l fs core
    where
      step :
          (m : Machine P) (r : Result (Unit {0}))
          → Unheld platform bytes f l m
          → Post
              (λ _. Unheld platform bytes f l)
              (Unheld platform bytes f l)
              (registered_of utf8_error platform name g core r m)
      step m (ok u) h = record {
        safe = h.safe;
        held_files = h.held_files;
        held_libraries = h.held_libraries;
      }
      step m (err e) h = h

  register_all-grows :
      (fs : List (Text × TableFunction)) (core : CoreRuntime P) (m : Machine P)
      → length m.tables ≤ length (register_all utf8_error platform fs core m).1.tables
  unfolding register_all register_table registered_of
  register_all-grows [] core m = omega arith
  register_all-grows ((name, g) ∷ fs) core m =
      step (platform.register m.log name g) (register_all-grows fs core after)
    where
      after : Machine P
      after = record m {
        log = registered name g ∷ m.log;
        tables = m.tables ++ (name, g, core) ∷ [];
      }

      step :
          (r : Result (Unit {0}))
          → length after.tables ≤ length (register_all utf8_error platform fs core after).1.tables
          → length m.tables
            ≤ length
                (((λ m. registered_of utf8_error platform name g core r m)
                    >> register_all utf8_error platform fs core)
                  m).1.tables
      step (ok u) ih = omega (arith, ih, length-append m.tables ((name, g, core) ∷ []))
      step (err e) ih = omega arith

  pub register_all-adds :
      (fs : List (Text × TableFunction)) (core : CoreRuntime P) (m : Machine P)
      → 0 < length fs
      → (register_all utf8_error platform fs core m).0 ≡ ok tt
      → length m.tables < length (register_all utf8_error platform fs core m).1.tables
  unfolding register_all register_table registered_of
  register_all-adds [] core m positive = absurd (omega arith)
  register_all-adds ((name, g) ∷ fs) core m positive = step (platform.register m.log name g)
    where
      after : Machine P
      after = record m {
        log = registered name g ∷ m.log;
        tables = m.tables ++ (name, g, core) ∷ [];
      }

      rest : Result (Unit {0}) → Result (Unit {0}) × Machine P
      rest r =
          ((λ m. registered_of utf8_error platform name g core r m)
              >> register_all utf8_error platform fs core)
            m

      step :
          (r : Result (Unit {0})) → (rest r).0 ≡ ok tt → length m.tables < length (rest r).1.tables
      step (ok u) h =
          omega
            (arith, register_all-grows fs core after, length-append m.tables ((name, g, core) ∷ []))
      step (err e) h = cc

  drop_file-tables : (o : Option ℕ) (m : Machine P) → (drop_file o m).tables ≡ m.tables
  drop_file-tables none m = refl
  drop_file-tables (some fd) m = refl

  pub drop_state-tables :
      (loaded : Option (Loaded P)) (held : Bool) (m : Machine P)
      → (drop_state utf8_error platform loaded held m).tables ≡ m.tables
  unfolding drop_state drop_loaded
  drop_state-tables none held m = refl
  drop_state-tables (some loaded) true m = refl
  drop_state-tables (some loaded) false m = drop_file-tables loaded.bundle_file _
