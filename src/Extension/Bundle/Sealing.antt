-- ===== src/Extension/Bundle/Sealing.antt =====
-- What a load of the bundled core of src/dynamic_core.rs opens, and what it leaves open.
use duckflight_extension.Common.{List, ◌∙◌, ℕ, some, ◌∷◌, ◌≡◌, refl, ap}
use duckflight_extension.Abi.{Text}
use duckflight_extension.Extension.Utf8.{ascii}
use duckflight_extension.Extension.Results.{Result, ok, err}
use duckflight_extension.Extension.Platform.{Machine, Platform}
use duckflight_extension.Extension.Hoare.{
  Post, Triple, Triple-pure, Triple-bind, Triple-or_else, Triple-on_core,
}
use duckflight_extension.Extension.Core.{initialize}
use duckflight_extension.Extension.Bundle.{
  Loaded, drop_file, drop_both, drop_loaded, resolved_of, resolve_entry, call_entry, made, enter,
  load_bundled,
}
use duckflight_extension.Extension.Bundle.Logs.{
  remove, remove-head, OpenedSealed, open_files, open_libraries, Holds,
}
use duckflight_extension.Extension.Bundle.Files.{Held-load_bundle}

module _ {P : Type 0} (platform : Platform P) (bytes : Text) (f l : List ℕ) where
  abbrev pub Unheld : Machine P → Type 0
  Unheld m = Holds bytes f l m.log

  abbrev Both : ℕ → ℕ → Machine P → Type 0
  Both library fd m = Holds bytes (fd ∷ f) (library ∷ l) m.log

  module _ (library fd : ℕ) where
    Held-resolve_entry :
        (text : Text)
        → Triple
            (Both library fd)
            (resolve_entry platform library text)
            (λ _. Both library fd)
            (Both library fd)
    unfolding resolve_entry resolved_of
    Held-resolve_entry text = record { at = λ m h. resolved m (platform.dlsym m.log library) h }
      where
        resolved :
            (m : Machine P) (r : Result (Unit {0}))
            → Both library fd m
            → Post (λ _. Both library fd) (Both library fd) (resolved_of platform library text r m)
        resolved m (ok _) h = h
        resolved m (err e) h = h

    Held-call_entry :
        Triple
          (Both library fd)
          (call_entry platform library)
          (λ _. Both library fd)
          (Both library fd)
    unfolding call_entry
    Held-call_entry = record {
      at = λ m h. record {
        safe = h.safe;
        held_files = h.held_files;
        held_libraries = h.held_libraries;
      };
    }

    drop_lem : (m : Machine P) → Both library fd m → Unheld (drop_both library (some fd) m)
    drop_lem m h = record {
      safe = h.safe;
      held_files = ap (remove fd) h.held_files ∙ remove-head fd f;
      held_libraries = ap (remove library) h.held_libraries ∙ remove-head library l;
    }

  -- The core keeps the library and the file.
  abbrev pub KeptFile : Loaded P → Machine P → Type 0
  KeptFile loaded m = (fd : ℕ) × (loaded.bundle_file ≡ some fd) × Both loaded.library fd m

  Held-made :
      (library fd : ℕ) (text : Text) (info access : ℕ) (detail : Text)
      → Triple
          (Both library fd)
          (made platform library (some fd) text info access detail)
          KeptFile
          (Both library fd)
  unfolding made
  Held-made library fd text info access detail =
      Triple-bind (Held-resolve_entry library fd text) λ _.
        Triple-bind (Held-call_entry library fd) λ table.
          Triple-bind (Triple-on_core (initialize table info access detail) (λ m core h. h)) λ core.
            Triple-pure (record { core = core; library = library; bundle_file = some fd })
              (λ m h. (fd, refl, h))

  pub Held-load_bundled :
      (info access : ℕ) → Triple Unheld (load_bundled platform bytes info access) KeptFile Unheld
  unfolding load_bundled enter
  Held-load_bundled info access = Triple-bind (Held-load_bundle platform bytes f l) λ (library, fd).
      Triple-or_else KeptFile (Both library fd) Unheld (drop_both library (some fd))
        (drop_lem library fd)
        (Held-made library fd (ascii "resolve bundled core API: ") info access
          (ascii "bundled core loaded"))

  pub drop_loaded_lem :
      (loaded : Loaded P) (m : Machine P) → KeptFile loaded m → Unheld (drop_loaded loaded m)
  unfolding drop_loaded
  drop_loaded_lem loaded m (fd, e, h) =
      rw (e, drop_file)
        (record {
          safe = h.safe;
          held_files = ap (remove fd) h.held_files ∙ remove-head fd f;
          held_libraries =
              ap (remove loaded.library) h.held_libraries ∙ remove-head loaded.library l;
        })

  -- What is open after a load: nothing more if it failed, else the file and the library of the core,
  -- and after dropping the core only what was open before.
  abbrev pub Balanced : Result (Loaded P) × Machine P → Type 0
  Balanced (err e, m) = (open_files m.log ≡ f) × (open_libraries m.log ≡ l)
  Balanced (ok loaded, m) =
      ((fd : ℕ) × (loaded.bundle_file ≡ some fd) × (open_files m.log ≡ fd ∷ f))
      × (open_libraries m.log ≡ loaded.library ∷ l)
      × (open_files (drop_loaded loaded m).log ≡ f)
      × (open_libraries (drop_loaded loaded m).log ≡ l)

  balanced_lem :
      (x : Result (Loaded P) × Machine P)
      → Post KeptFile Unheld x
      → OpenedSealed bytes x.1.log × Balanced x
  balanced_lem (err e, m) h = (h.safe, (h.held_files, h.held_libraries))
  balanced_lem (ok loaded, m) (fd, e, h) =
      let dropped = drop_loaded_lem loaded m (fd, e, h) in
      (
        h.safe,
        ((fd, e, h.held_files), h.held_libraries, dropped.held_files, dropped.held_libraries),
      )

module _ {P : Type 0} (platform : Platform P) (bytes : Text) (info access : ℕ) (m : Machine P)
    (safe : OpenedSealed bytes m.log) where
  both :
      OpenedSealed bytes (load_bundled platform bytes info access m).1.log
      × Balanced platform bytes
          (open_files m.log)
          (open_libraries m.log)
          (load_bundled platform bytes info access m)
  both =
      balanced_lem platform bytes (open_files m.log) (open_libraries m.log)
        (load_bundled platform bytes info access m)
        ((Held-load_bundled platform bytes (open_files m.log) (open_libraries m.log) info access).at
          m (record { safe = safe; held_files = refl; held_libraries = refl }))

  -- If every library was opened from a descriptor that had just been filled with all the bytes of the
  -- bundle and sealed against every change, then this holds after loading the bundled core, however it ends.
  pub load_bundled-OpenedSealed :
      OpenedSealed bytes (load_bundled platform bytes info access m).1.log
  load_bundled-OpenedSealed = both.0

  -- After such a log, a load that fails leaves exactly those descriptors and libraries open that were
  -- open before it; one that succeeds leaves one descriptor and one library more, which the core keeps,
  -- and dropping the core closes these two.
  pub load_bundled-Balanced :
      Balanced platform bytes
        (open_files m.log)
        (open_libraries m.log)
        (load_bundled platform bytes info access m)
  load_bundled-Balanced = both.1
