-- ===== src/Extension/Entry.antt =====
-- `register_extension`, `duckflight_init_c_api_internal` and `duckflight_init_c_api` of src/lib.rs.
pub mod Installs
pub mod Registered
pub mod Registering
pub mod Released
pub mod Refused
use duckflight_extension.Common.{
  ℕ, Bool, true, false, Option, none, some, List, [], ◌∷◌, ◌++◌, ◌==◌, if◌then◌else◌, length, not,
}
use duckflight_extension.Abi.{Text}
use duckflight_extension.Extension.Utf8.{ascii}
use duckflight_extension.Extension.Results.{Result, ok, err, Act, ◌>>=◌, ◌>>◌, pure}
use duckflight_extension.Extension.Protocols.{
  Protocol, pg_wire_protocol, flight_sql_protocol, http_protocol, quack_protocol,
}
use duckflight_extension.Extension.Runtime.{CoreRuntime, unavailable_core}
use duckflight_extension.Extension.Core.{dynamic_core}
use duckflight_extension.Extension.Tables.{has_nul}
use duckflight_extension.Extension.Platform.{
  TableFunction, serve, stop_server, server_list, core_status_table, connected, registered,
  reported, Machine, Platform, note, disconnected, or_else,
}
use duckflight_extension.Extension.Bundle.{Loaded, drop_loaded, load, load_bundled}

-- The tables of the extension, in the order of their registration.
abbrev pub table_functions : List (Text × TableFunction)
table_functions =
    (ascii "duckflight_pg_serve", serve pg_wire_protocol)
    ∷ (ascii "duckflight_flight_serve", serve flight_sql_protocol)
    ∷ (ascii "duckflight_http_serve", serve http_protocol)
    ∷ (ascii "duckflight_quack_serve", serve quack_protocol)
    ∷ (ascii "duckflight_stop", stop_server)
    ∷ (ascii "duckflight_servers", server_list)
    ∷ (ascii "duckflight_core_status", core_status_table)
    ∷ []

-- The runtime, and the loaded core in it if it is one.
pub record Chosen (P : Type 0) : Type 0 where
  pub runtime : CoreRuntime P
  pub loaded : Option (Loaded P)

module _ {P : Type 0} (utf8_error : Text → Text) (platform : Platform P) where
  registered_of :
      Text → TableFunction → CoreRuntime P → Result (Unit {0}) → Act (Machine P) (Unit {0})
  registered_of name f core (ok _) m = (
    ok tt,
    record m { log = registered name f ∷ m.log; tables = m.tables ++ (name, f, core) ∷ [] },
  )
  registered_of name f core (err e) m = (err e, m)

  -- `register_table_function_with_extra_info`
  unfoldable pub register_table : Text → TableFunction → CoreRuntime P → Act (Machine P) (Unit {0})
  unfolding registered_of
  register_table name f core m = registered_of name f core (platform.register m.log name f) m

  unfoldable pub register_all :
      List (Text × TableFunction) → CoreRuntime P → Act (Machine P) (Unit {0})
  unfolding register_table
  register_all [] core = pure tt
  register_all ((name, f) ∷ fs) core = register_table name f core >> register_all fs core

  unfoldable pub register_extension : CoreRuntime P → Act (Machine P) (Unit {0})
  unfolding register_all
  register_extension core = register_all table_functions core

  -- The state goes with the last table that holds it. The drop of an unavailable core does nothing.
  pub drop_state : Option (Loaded P) → Bool → Machine P → Machine P
  drop_state none held m = m
  drop_state (some loaded) true m = m
  drop_state (some loaded) false m = drop_loaded loaded m

  abbrev pub with_loaded : Loaded P → Chosen P
  with_loaded loaded = record {
    runtime = dynamic_core utf8_error loaded.core;
    loaded = some loaded;
  }

  abbrev pub without : Text → Chosen P
  without reason = record { runtime = unavailable_core reason; loaded = none }

  -- The bundled core, or the reason why there is none.
  bundled_of : Result (Loaded P) × Machine P → Chosen P × Machine P
  bundled_of (ok loaded, m) = (with_loaded loaded, m)
  bundled_of (err e, m) = (without (ascii "bundled core failed to initialize: " ++ e), m)

  configured_of : Result (Loaded P) × Machine P → Chosen P × Machine P
  configured_of (ok loaded, m) = (with_loaded loaded, m)
  configured_of (err e, m) = (without (ascii "configured runtime failed to load or initialize"), m)

  configured : Option Text → ℕ → ℕ → Machine P → Chosen P × Machine P
  unfolding configured_of
  configured none info access m = (without (ascii "DUCKFLIGHT_CORE_PATH is not set"), m)
  configured (some path) info access m = configured_of (load platform path info access m)

  -- `cfg(duckflight_bundled_core)` is whether there is a bundle, by its bytes.
  unfoldable pub choose_core : Option Text → ℕ → ℕ → Machine P → Chosen P × Machine P
  unfolding bundled_of configured
  choose_core none info access m = configured platform.core_path info access m
  choose_core (some bytes) info access m = bundled_of (load_bundled platform bytes info access m)

  connected_of : ℕ → Result (Unit {0}) → Act (Machine P) (Unit {0})
  connected_of database (ok _) m = (ok tt, note (connected database) m)
  connected_of database (err e) m = (err e, m)

  -- `Connection::open_from_raw`
  unfoldable pub connect_database : ℕ → Act (Machine P) (Unit {0})
  unfolding connected_of
  connect_database database m = connected_of database (platform.open_from_raw m.log database) m

  -- `register_extension(&connection, Arc::new(...))?; Ok(true)`
  unfoldable pub register_state : Chosen P → Act (Machine P) Bool
  unfolding register_extension drop_state
  register_state chosen = do
    λ m.
        or_else (λ m'. drop_state chosen.loaded (not (length m'.tables == length m.tables)) m')
          (register_extension chosen.runtime m)
    pure true

  -- The connection is dropped last, whatever was returned.
  disconnect : ℕ → Result Bool × Machine P → Result Bool × Machine P
  disconnect database (r, m) = (r, note (disconnected database) m)

  unfoldable pub install : Option Text → ℕ → ℕ → ℕ → Act (Machine P) Bool
  unfolding connect_database choose_core register_state disconnect
  install bundle info access database = if database == 0 then pure false else do
    connect_database database
    λ m.
        let (chosen, m') = choose_core bundle info access m in
        disconnect database (register_state chosen m')

  database_of : Option ℕ → Act (Machine P) ℕ
  database_of none m =
      (err (ascii "get_database function pointer is null in duckdb_extension_access"), m)
  database_of (some database) m = (ok database, m)

  database_pointer : Act (Machine P) ℕ
  unfolding database_of
  database_pointer m =
      database_of (elim platform.get_database [ none ↦ none | some get ↦ some (get m.log) ]) m

  unfoldable pub init_internal : Option Text → ℕ → ℕ → Act (Machine P) Bool
  unfolding database_pointer install
  init_internal bundle info access = do
    initialized ← λ m. (platform.api_init m.log, m)
    if initialized
        then (do database ← database_pointer; install bundle info access database)
        else pure false

  report : Text → Machine P → Machine P
  report error m =
      if platform.has_set_error
      then note
          (reported (
            if has_nul error
            then ascii "DuckFlight initialization failed and its error was not valid UTF-8"
            else error))
          m
      else m

  finished : Result Bool × Machine P → Bool × Machine P
  unfolding report
  finished (ok initialized, m) = (initialized, m)
  finished (err error, m) = (false, report error m)

  -- `duckflight_init_c_api`
  unfoldable pub init_c_api : Option Text → ℕ → ℕ → Machine P → Bool × Machine P
  unfolding init_internal finished
  init_c_api bundle info access m = finished (init_internal bundle info access m)
