-- ===== src/Extension/Bundle/Files.antt =====
-- `load_bundle` of src/dynamic_core.rs: the file that it makes and the library that it opens.
use mathlib.Core.Path.{subst}
use duckflight_extension.Common.{List, ◌∙◌, ℕ, ◌∷◌, ◌++◌, ◌≡◌, refl, sym, ap}
use duckflight_extension.Abi.{Text}
use duckflight_extension.Extension.Utf8.{ascii, from_utf8_lossy}
use duckflight_extension.Extension.Results.{Result, ok, err}
use duckflight_extension.Extension.Platform.{
  einval, errno, written, sealed, closed, Log, Machine, Os, done, fails, Platform, MemfdFlags, note,
}
use duckflight_extension.Extension.Hoare.{Post, Triple, Triple-pure, Triple-bind, Triple-or_else}
use duckflight_extension.Extension.Bundle.{
  executable, without_exec, all_seals, fd_path, noted, create_memfd, descriptor, retried, memfd,
  written_of, write_bundle, sealed_of, seal_bundle, fill, prepare_bundle, opened_of, open_library,
  open_bundle, load_bundle,
}
use duckflight_extension.Extension.Bundle.Logs.{
  remove, remove-head, OpenedSealed, open_files, open_libraries, Holds,
}

module _ {P : Type 0} (platform : Platform P) (bytes : Text) (f l : List ℕ) where
  -- What is open besides what was open before: nothing, a file, or a file and a library.
  abbrev pub Unheld : Machine P → Type 0
  Unheld m = Holds bytes f l m.log

  abbrev pub Filed : ℕ → Machine P → Type 0
  Filed fd m = Holds bytes (fd ∷ f) l m.log

  abbrev pub Both : ℕ → ℕ → Machine P → Type 0
  Both library fd m = Holds bytes (fd ∷ f) (library ∷ l) m.log

  -- A file is open, or nothing changed.
  abbrev Created : Os ℕ × Machine P → Type 0
  Created (done fd, m) = Filed fd m
  Created (fails e, m) = Unheld m

  noted-Created :
      (flags : MemfdFlags) (o : Os ℕ) (m : Machine P)
      → Unheld m
      → Created (noted platform flags o m)
  unfolding noted
  noted-Created flags (done fd) m h = record {
    safe = h.safe;
    held_files = ap (λ fs. fd ∷ fs) h.held_files;
    held_libraries = h.held_libraries;
  }
  noted-Created flags (fails e) m h = record {
    safe = h.safe;
    held_files = h.held_files;
    held_libraries = h.held_libraries;
  }

  descriptor_lem : (x : Os ℕ × Machine P) → Created x → Post Filed Unheld (descriptor platform x)
  unfolding descriptor
  descriptor_lem (done fd, m) h = h
  descriptor_lem (fails e, m) h = h

  retried_lem : (x : Os ℕ × Machine P) → Created x → Post Filed Unheld (retried platform x)
  unfolding retried create_memfd
  retried_lem (done fd, m) h = h
  retried_lem (fails einval, m) h =
      descriptor_lem (create_memfd platform without_exec m)
        (noted-Created without_exec (platform.memfd_create m.log without_exec) m h)
  retried_lem (fails (errno n), m) h = descriptor_lem (fails (errno n), m) h

  Held-memfd : Triple Unheld (memfd platform) Filed Unheld
  unfolding memfd create_memfd
  Held-memfd = record {
    at = λ m h.
        retried_lem (create_memfd platform executable m)
          (noted-Created executable (platform.memfd_create m.log executable) m h);
  }

  -- The file has just been written, and the log before that held what it held.
  abbrev Written : ℕ → Unit {0} → Machine P → Type 0
  Written fd _ m =
      (before : Log) × (m.log ≡ written fd bytes ∷ before) × Holds bytes (fd ∷ f) l before

  written_lem :
      (fd : ℕ) (o o' : Os (Unit {0})) (m : Machine P)
      → Filed fd m
      → Post (Written fd) (Filed fd) (written_of platform fd bytes o o' m)
  unfolding written_of
  written_lem fd (done _) (done _) m h = (m.log, refl, h)
  written_lem fd (done _) (fails e) m h = record {
    safe = h.safe;
    held_files = h.held_files;
    held_libraries = h.held_libraries;
  }
  written_lem fd (fails e) o' m h = record {
    safe = h.safe;
    held_files = h.held_files;
    held_libraries = h.held_libraries;
  }

  Held-write : (fd : ℕ) → Triple (Filed fd) (write_bundle platform fd bytes) (Written fd) (Filed fd)
  unfolding write_bundle
  Held-write fd = record {
    at = λ m h. written_lem fd (platform.write_all m.log fd bytes) (platform.flush m.log fd) m h;
  }

  abbrev Sealed : ℕ → Machine P → Type 0
  Sealed fd m =
      (before : Log) × (m.log ≡ sealed fd all_seals ∷ written fd bytes ∷ before)
      × Holds bytes (fd ∷ f) l before

  sealed_lem :
      (fd : ℕ) (o : Os (Unit {0})) (m : Machine P)
      → Written fd tt m
      → Post (λ _. Sealed fd) (Filed fd) (sealed_of platform fd o m)
  unfolding sealed_of
  sealed_lem fd (done _) m (before, e, h) = (before, ap (λ t. sealed fd all_seals ∷ t) e, h)
  sealed_lem fd (fails x) m (before, e, h) = record {
    safe = subst (λ t. OpenedSealed bytes t) (sym e) h.safe;
    held_files = ap open_files e ∙ h.held_files;
    held_libraries = ap open_libraries e ∙ h.held_libraries;
  }

  Held-seal :
      (fd : ℕ) → Triple (Written fd tt) (seal_bundle platform fd) (λ _. Sealed fd) (Filed fd)
  unfolding seal_bundle
  Held-seal fd = record { at = λ m h. sealed_lem fd (platform.add_seals m.log fd all_seals) m h }

  abbrev Prepared : ℕ × Text → Machine P → Type 0
  Prepared (fd, path) m = (path ≡ fd_path fd) × Sealed fd m

  Held-fill : (fd : ℕ) → Triple (Filed fd) (fill platform bytes fd) Prepared (Filed fd)
  unfolding fill
  Held-fill fd =
      Triple-bind {R = λ _. Written fd tt} (Held-write fd)
        λ _. Triple-bind (Held-seal fd) λ _. Triple-pure (fd, fd_path fd) (λ m h. (refl, h))

  close_file : (fd : ℕ) (m : Machine P) → Filed fd m → Unheld (note (closed fd) m)
  close_file fd m h = record {
    safe = h.safe;
    held_files = ap (remove fd) h.held_files ∙ remove-head fd f;
    held_libraries = h.held_libraries;
  }

  Held-prepare_bundle : Triple Unheld (prepare_bundle platform bytes) Prepared Unheld
  unfolding prepare_bundle
  Held-prepare_bundle = Triple-bind Held-memfd λ fd.
      Triple-or_else Prepared (Filed fd) Unheld (note (closed fd)) (close_file fd) (Held-fill fd)

  opened_lem :
      (fd : ℕ) (path text : Text) (r : Result ℕ) (m : Machine P)
      → path ≡ fd_path fd
      → Sealed fd m
      → Post (λ library. Both library fd) (Filed fd) (opened_of platform path text r m)
  unfolding opened_of
  opened_lem fd path text (ok library) m p (before, e, h) = record {
    safe = ((fd, p, (before, e)), subst (λ t. OpenedSealed bytes t) (sym e) h.safe);
    held_files = ap open_files e ∙ h.held_files;
    held_libraries = ap (λ ls. library ∷ ls) (ap open_libraries e ∙ h.held_libraries);
  }
  opened_lem fd path text (err x) m p (before, e, h) = record {
    safe = subst (λ t. OpenedSealed bytes t) (sym e) h.safe;
    held_files = ap open_files e ∙ h.held_files;
    held_libraries = ap open_libraries e ∙ h.held_libraries;
  }

  Held-open_bundle :
      (fd : ℕ) (path : Text)
      → Triple
          (Prepared (fd, path))
          (open_bundle platform fd path)
          (λ (library, fd'). Both library fd')
          (Filed fd)
  unfolding open_bundle open_library
  Held-open_bundle fd path = Triple-bind opens λ library. Triple-pure (library, fd) (λ m h. h)
    where
      opens :
          Triple
            (Prepared (fd, path))
            (open_library platform path
              (ascii "load bundled core from " ++ from_utf8_lossy path ++ ascii ": "))
            (λ library. Both library fd)
            (Filed fd)
      opens = record {
        at = λ m h.
            opened_lem fd path
              (ascii "load bundled core from " ++ from_utf8_lossy path ++ ascii ": ")
              (platform.dlopen m.log path) m h.0 h.1;
      }

  pub Held-load_bundle :
      Triple Unheld (load_bundle platform bytes) (λ (library, fd). Both library fd) Unheld
  unfolding load_bundle
  Held-load_bundle = Triple-bind Held-prepare_bundle λ (fd, path).
      Triple-or_else (λ (library, fd'). Both library fd') (Filed fd) Unheld (note (closed fd))
        (close_file fd) (Held-open_bundle fd path)
