-- ===== src/Extension/Bundle.antt =====
-- `prepare_bundle`, `load_bundle`, `load` and `load_bundled` of src/dynamic_core.rs on Linux: the file and
-- the library of a core.
pub mod Logs
pub mod Files
pub mod Sealing
pub mod Untabled
use duckflight_extension.Common.{ℕ, Bool, true, false, Option, none, some, List, [], ◌∷◌, ◌++◌}
use duckflight_extension.Abi.{Text, ApiV1}
use duckflight_extension.Extension.Utf8.{ascii, from_utf8_lossy, decimal}
use duckflight_extension.Extension.Results.{Result, ok, err, Act, ◌>>=◌, ◌>>◌, pure}
use duckflight_extension.Extension.Platform.{
  Errno, einval, errno, MemfdFlags, Seals, created, written, write_failed, sealed, seal_failed,
  closed, opened, open_failed, unloaded, entered, Machine, Os, done, fails, Platform, note, on_core,
  or_else,
}
use duckflight_extension.Extension.Core.{DynamicCore, initialize, drop_core}

abbrev pub executable : MemfdFlags
executable = record { cloexec = true; allow_sealing = true; exec = true }

abbrev pub without_exec : MemfdFlags
without_exec = record { cloexec = true; allow_sealing = true; exec = false }

abbrev pub all_seals : Seals
all_seals = record { write = true; grow = true; shrink = true; seal = true }

-- `/proc/self/fd/{fd}`
abbrev pub fd_path : ℕ → Text
fd_path fd = ascii "/proc/self/fd/" ++ decimal fd

-- `DynamicCore` with the library and the file that it keeps.
pub record Loaded (P : Type 0) : Type 0 where
  pub core : DynamicCore P
  pub library : ℕ
  pub bundle_file : Option ℕ

-- The local variables are dropped in the reverse order, so the file before the library.
abbrev pub drop_file : {P : Type 0} → Option ℕ → Machine P → Machine P
drop_file none m = m
drop_file (some fd) m = note (closed fd) m

abbrev pub drop_both : {P : Type 0} → ℕ → Option ℕ → Machine P → Machine P
drop_both library file m = note (unloaded library) (drop_file file m)

module _ {P : Type 0} (platform : Platform P) where
  abbrev os_error : {A : Type 0} → Text → Errno → Act (Machine P) A
  os_error text e m = (err (text ++ platform.os_error e), m)

  noted : MemfdFlags → Os ℕ → Machine P → Os ℕ × Machine P
  noted flags (done fd) m = (done fd, note (created flags (some fd)) m)
  noted flags (fails e) m = (fails e, note (created flags none) m)

  create_memfd : MemfdFlags → Machine P → Os ℕ × Machine P
  unfolding noted
  create_memfd flags m = noted flags (platform.memfd_create m.log flags) m

  descriptor : Os ℕ × Machine P → Result ℕ × Machine P
  descriptor (done fd, m) = (ok fd, m)
  descriptor (fails e, m) = os_error (ascii "create executable bundled core memfd: ") e m

  -- An older kernel does not know the flag that asks for execution.
  retried : Os ℕ × Machine P → Result ℕ × Machine P
  unfolding create_memfd descriptor
  retried (fails einval, m) = descriptor (create_memfd without_exec m)
  retried (fails (errno n), m) = descriptor (fails (errno n), m)
  retried (done fd, m) = (ok fd, m)

  unfoldable pub memfd : Act (Machine P) ℕ
  unfolding create_memfd retried
  memfd m = retried (create_memfd executable m)

  -- `write_all(bytes).and_then(|_| flush())`
  written_of : ℕ → Text → Os (Unit {0}) → Os (Unit {0}) → Act (Machine P) (Unit {0})
  written_of fd bytes (done _) (done _) m = (ok tt, note (written fd bytes) m)
  written_of fd bytes (done _) (fails e) m =
      os_error (ascii "write bundled core: ") e (note (write_failed fd) m)
  written_of fd bytes (fails e) flush m =
      os_error (ascii "write bundled core: ") e (note (write_failed fd) m)

  unfoldable pub write_bundle : ℕ → Text → Act (Machine P) (Unit {0})
  unfolding written_of
  write_bundle fd bytes m =
      written_of fd bytes (platform.write_all m.log fd bytes) (platform.flush m.log fd) m

  sealed_of : ℕ → Os (Unit {0}) → Act (Machine P) (Unit {0})
  sealed_of fd (done _) m = (ok tt, note (sealed fd all_seals) m)
  sealed_of fd (fails e) m =
      os_error (ascii "seal bundled core memfd: ") e (note (seal_failed fd) m)

  unfoldable pub seal_bundle : ℕ → Act (Machine P) (Unit {0})
  unfolding sealed_of
  seal_bundle fd m = sealed_of fd (platform.add_seals m.log fd all_seals) m

  fill : Text → ℕ → Act (Machine P) (ℕ × Text)
  unfolding write_bundle seal_bundle
  fill bytes fd = do write_bundle fd bytes; seal_bundle fd; pure (fd, fd_path fd)

  -- The file is closed when it cannot be written or sealed.
  unfoldable pub prepare_bundle : Text → Act (Machine P) (ℕ × Text)
  unfolding memfd fill
  prepare_bundle bytes = do fd ← memfd; λ m. or_else (note (closed fd)) (fill bytes fd m)

  opened_of : Text → Text → Result ℕ → Act (Machine P) ℕ
  opened_of path text (ok library) m = (ok library, note (opened path library) m)
  opened_of path text (err e) m = (err (text ++ e), note (open_failed path) m)

  -- `Library::new`, with the text before its error.
  unfoldable pub open_library : Text → Text → Act (Machine P) ℕ
  unfolding opened_of
  open_library path text m = opened_of path text (platform.dlopen m.log path) m

  open_bundle : ℕ → Text → Act (Machine P) (ℕ × ℕ)
  unfolding open_library
  open_bundle fd path = do
    library ←
        open_library path (ascii "load bundled core from " ++ from_utf8_lossy path ++ ascii ": ")
    pure (library, fd)

  unfoldable pub load_bundle : Text → Act (Machine P) (ℕ × ℕ)
  unfolding prepare_bundle open_bundle
  load_bundle bytes = do
    (fd, path) ← prepare_bundle bytes
    λ m. or_else (note (closed fd)) (open_bundle fd path m)

  resolved_of : ℕ → Text → Result (Unit {0}) → Act (Machine P) (Unit {0})
  resolved_of library text (ok _) m = (ok tt, m)
  resolved_of library text (err e) m = (err (text ++ e), m)

  unfoldable pub resolve_entry : ℕ → Text → Act (Machine P) (Unit {0})
  unfolding resolved_of
  resolve_entry library text m = resolved_of library text (platform.dlsym m.log library) m

  unfoldable pub call_entry : ℕ → Act (Machine P) (Option (ApiV1 P))
  call_entry library m = (ok (platform.entry m.log library m.core), note (entered library) m)

  made : ℕ → Option ℕ → Text → ℕ → ℕ → Text → Act (Machine P) (Loaded P)
  unfolding resolve_entry call_entry
  made library file text info access detail = do
    resolve_entry library text
    table ← call_entry library
    core ← on_core (initialize table info access detail)
    pure (record { core = core; library = library; bundle_file = file })

  -- The entry function is resolved and called, and its table makes the core.
  unfoldable pub enter : ℕ → Option ℕ → Text → ℕ → ℕ → Text → Act (Machine P) (Loaded P)
  unfolding made
  enter library file text info access detail m =
      or_else (drop_both library file) (made library file text info access detail m)

  unfoldable pub load : Text → ℕ → ℕ → Act (Machine P) (Loaded P)
  unfolding open_library enter
  load path info access = do
    library ←
        open_library path
          (ascii "load configured runtime library " ++ from_utf8_lossy path ++ ascii ": ")
    enter library none
        (ascii "resolve duckflight_core_api_v1 in configured runtime "
          ++ from_utf8_lossy path
          ++ ascii ": ")
        info access (ascii "external core loaded")

  unfoldable pub load_bundled : Text → ℕ → ℕ → Act (Machine P) (Loaded P)
  unfolding load_bundle enter
  load_bundled bytes info access = do
    (library, fd) ← load_bundle bytes
    enter library (some fd) (ascii "resolve bundled core API: ") info access
        (ascii "bundled core loaded")

-- `drop` of a loaded core: the handle, then the fields in their order, the library before the file.
unfoldable pub drop_loaded : {P : Type 0} → Loaded P → Machine P → Machine P
unfolding drop_core
drop_loaded loaded m =
    drop_file loaded.bundle_file
      (note (unloaded loaded.library) (record m { core = drop_core loaded.core m.core }))
