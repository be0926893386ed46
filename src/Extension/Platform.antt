-- ===== src/Extension/Platform.antt =====
-- What src/lib.rs and src/dynamic_core.rs ask of the system, of the dynamic loader and of DuckDB. All of
-- these are parameters; a call is logged, and its answer may depend on the log before it.
use duckflight_extension.Common.{ℕ, Bool, Option, List, ◌∷◌}
use duckflight_extension.Abi.{Text, ApiV1}
use duckflight_extension.Extension.Results.{Result, ok, err, Act}
use duckflight_extension.Extension.Protocols.{Protocol}
use duckflight_extension.Extension.Runtime.{CoreRuntime}

-- `raw_os_error`
pub data Errno : Type 0 where
  einval : Errno
  errno : ℕ → Errno

-- The flags of `memfd_create`.
pub record MemfdFlags : Type 0 where
  pub cloexec : Bool
  pub allow_sealing : Bool
  pub exec : Bool

-- The seals of `F_ADD_SEALS`.
pub record Seals : Type 0 where
  pub write : Bool
  pub grow : Bool
  pub shrink : Bool
  pub seal : Bool

-- The table functions by the types that implement them.
pub data TableFunction : Type 0 where
  serve : Protocol → TableFunction
  stop_server server_list core_status_table : TableFunction

pub data Event : Type 0 where
  created : MemfdFlags → Option ℕ → Event  -- the descriptor, if one was created
  written : ℕ → Text → Event  -- all the bytes were written and flushed
  write_failed : ℕ → Event
  sealed : ℕ → Seals → Event
  seal_failed : ℕ → Event
  closed : ℕ → Event
  opened : Text → ℕ → Event  -- `dlopen` of a path gave a library
  open_failed : Text → Event
  unloaded : ℕ → Event  -- `dlclose`
  entered : ℕ → Event  -- the entry function of a library was called
  connected : ℕ → Event
  disconnected : ℕ → Event  -- `drop` of the connection
  registered : Text → TableFunction → Event
  reported : Text → Event  -- `set_error`

-- The newest event first.
abbrev pub Log : Type 0
Log = List Event

-- The core's own state, the log, and the tables that DuckDB knows, each with the runtime behind it.
pub record Machine (P : Type 0) : Type 0 where
  pub core : P
  pub log : Log
  pub tables : List (Text × TableFunction × CoreRuntime P)

pub data Os (A : Type 0) : Type 0 where
  done : A → Os A
  fails : Errno → Os A

pub record Platform (P : Type 0) : Type 0 where
  pub os_error : Errno → Text  -- the text of an `io::Error`
  pub memfd_create : Log → MemfdFlags → Os ℕ
  pub write_all : Log → ℕ → Text → Os (Unit {0})
  pub flush : Log → ℕ → Os (Unit {0})
  pub add_seals : Log → ℕ → Seals → Os (Unit {0})
  pub dlopen : Log → Text → Result ℕ
  pub dlsym : Log → ℕ → Result (Unit {0})
  pub entry : Log → ℕ → P → Option (ApiV1 P)  -- `duckflight_core_api_v1` of a library
  pub api_init : Log → Result Bool  -- `duckdb_rs_extension_api_init`
  pub get_database : Option (Log → ℕ)  -- a null function pointer is none, a null database is 0
  pub open_from_raw : Log → ℕ → Result (Unit {0})
  pub register : Log → Text → TableFunction → Result (Unit {0})
  pub has_set_error : Bool
  pub core_path : Option Text  -- `DUCKFLIGHT_CORE_PATH`

module _ {P : Type 0} where
  abbrev pub note : Event → Machine P → Machine P
  note event m = record m { log = event ∷ m.log }

  -- A call of the core's own functions.
  abbrev pub on_core : {A : Type 0} → Act P A → Act (Machine P) A
  on_core act m = let (r, core) = act m.core in (r, record m { core = core })

  -- `drop` of what a function owns when it returns an error.
  abbrev pub or_else :
      {A : Type 0} → (Machine P → Machine P) → Result A × Machine P → Result A × Machine P
  or_else clean (ok a, m) = (ok a, m)
  or_else clean (err e, m) = (err e, clean m)
