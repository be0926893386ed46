-- ===== src/Extension/Entry/Installs.antt =====
-- What `duckflight_init_c_api` of src/lib.rs leaves in DuckDB, with and without a core.
use mathlib.Core.List.{append-nil, append_assoc}
use duckflight_extension.Common.{
  ℕ, true, false, Option, none, some, List, [], ◌∷◌, ◌++◌, ◌==◌, ◌≡◌, ◌≢◌, refl, sym, ap, ◌∙◌,
  arith,
}
use duckflight_extension.Abi.{Text}
use duckflight_extension.Extension.Utf8.{ascii}
use duckflight_extension.Extension.Protocols.{
  pg_wire_protocol, flight_sql_protocol, http_protocol, quack_protocol,
}
use duckflight_extension.Extension.Results.{Result, ok, err, ◌>>◌, pure}
use duckflight_extension.Extension.Runtime.{CoreRuntime}
use duckflight_extension.Extension.Platform.{
  TableFunction, serve, stop_server, server_list, core_status_table, Log, connected, registered,
  Machine, Platform, note, or_else,
}
use duckflight_extension.Extension.Bundle.{Loaded, load, load_bundled}
use duckflight_extension.Extension.Bundle.Untabled.{load-Untabled, load_bundled-Untabled}
use duckflight_extension.Extension.Entry.{
  Chosen, register_state, disconnect, bundled_of, configured_of, configured, table_functions,
  registered_of, register_table, register_all, register_extension, choose_core, connected_of,
  connect_database, install, database_of, database_pointer, init_internal, finished, init_c_api,
}

-- Every table function with the same runtime behind it.
abbrev pub with_core :
    {P : Type 0}
    → CoreRuntime P
    → List (Text × TableFunction)
    → List (Text × TableFunction × CoreRuntime P)
with_core core [] = []
with_core core ((name, f) ∷ fs) = (name, f, core) ∷ with_core core fs

-- The tables of the extension by name, all with the same runtime behind them.
abbrev pub seven_tables : {P : Type 0} → CoreRuntime P → List (Text × TableFunction × CoreRuntime P)
seven_tables core =
    (ascii "duckflight_pg_serve", serve pg_wire_protocol, core)
    ∷ (ascii "duckflight_flight_serve", serve flight_sql_protocol, core)
    ∷ (ascii "duckflight_http_serve", serve http_protocol, core)
    ∷ (ascii "duckflight_quack_serve", serve quack_protocol, core)
    ∷ (ascii "duckflight_stop", stop_server, core)
    ∷ (ascii "duckflight_servers", server_list, core)
    ∷ (ascii "duckflight_core_status", core_status_table, core)
    ∷ []

not_null : (n : ℕ) → n ≢ 0 → (n == 0) ≡ false
not_null n h = ground arith

module _ {P : Type 0} (utf8_error : Text → Text) (platform : Platform P) where
  -- DuckDB accepts the extension and all its table functions.
  pub record Accepts (database : ℕ) (m : Machine P) : Type 0 where
    pub get : Log → ℕ
    pub initialized : platform.api_init m.log ≡ ok true
    pub getter : platform.get_database ≡ some get
    pub database_is : get m.log ≡ database
    pub not_closed : database ≢ 0
    pub opens : platform.open_from_raw m.log database ≡ ok tt
    pub registers :
        (log : Log) (name : Text) (f : TableFunction) → platform.register log name f ≡ ok tt

  pub choose_core_tables :
      (bundle : Option Text) (info access : ℕ) (m : Machine P)
      → (choose_core utf8_error platform bundle info access m).1.tables ≡ m.tables
  unfolding choose_core configured
  choose_core_tables (some bytes) info access m =
      bundled_tables (load_bundled platform bytes info access m)
      ∙ (load_bundled-Untabled platform bytes info access).at m
    where
      bundled_tables :
          (x : Result (Loaded P) × Machine P)
          → (bundled_of utf8_error platform x).1.tables ≡ x.1.tables
      bundled_tables (ok loaded, m) = refl
      bundled_tables (err e, m) = refl
  choose_core_tables none info access m = chosen platform.core_path
    where
      configured_tables :
          (x : Result (Loaded P) × Machine P)
          → (configured_of utf8_error platform x).1.tables ≡ x.1.tables
      configured_tables (ok loaded, m) = refl
      configured_tables (err e, m) = refl

      chosen :
          (path : Option Text)
          → (configured utf8_error platform path info access m).1.tables ≡ m.tables
      chosen none = refl
      chosen (some path) =
          configured_tables (load platform path info access m)
          ∙ (load-Untabled platform path info access).at m

  register_all_lem :
      (fs : List (Text × TableFunction)) (core : CoreRuntime P)
      → ((log : Log) (name : Text) (f : TableFunction) → platform.register log name f ≡ ok tt)
      → (m : Machine P)
      → ((register_all utf8_error platform fs core m).0 ≡ ok tt)
        × ((register_all utf8_error platform fs core m).1.tables ≡ m.tables ++ with_core core fs)
  unfolding register_all register_table registered_of
  register_all_lem [] core registers m = (refl, sym (append-nil m.tables))
  register_all_lem ((name, f) ∷ fs) core registers m =
      let m' : Machine P = record m {
        log = registered name f ∷ m.log;
        tables = m.tables ++ (name, f, core) ∷ [];
      } in
      let (ok_rest, rest) = register_all_lem fs core registers m' in
      let step : register_table utf8_error platform name f core m ≡ (ok tt, m') =
        ap (λ r. registered_of utf8_error platform name f core r m) (registers m.log name f) in
      rw step (ok_rest, rest ∙ append_assoc m.tables ((name, f, core) ∷ []) (with_core core fs))

  database_lem :
      (database : ℕ) (m : Machine P)
      → Accepts database m
      → database_pointer utf8_error platform m ≡ (ok database, m)
  unfolding database_pointer database_of
  database_lem database m a = rw (a.getter, a.database_is)

  connection_lem :
      (database : ℕ) (m : Machine P)
      → Accepts database m
      → connect_database utf8_error platform database m ≡ (ok tt, note (connected database) m)
  unfolding connect_database connected_of
  connection_lem database m a = rw a.opens

  register_extension_lem :
      (core : CoreRuntime P)
      → ((log : Log) (name : Text) (f : TableFunction) → platform.register log name f ≡ ok tt)
      → (m : Machine P)
      → ((register_extension utf8_error platform core m).0 ≡ ok tt)
        × ((register_extension utf8_error platform core m).1.tables
            ≡ m.tables ++ with_core core table_functions)
  unfolding register_extension
  register_extension_lem core registers m = register_all_lem table_functions core registers m

  or_else-ok :
      (clean : Machine P → Machine P) (x : Result (Unit {0}) × Machine P)
      → x.0 ≡ ok tt
      → (((λ (m : Machine P). or_else clean x) >> pure true) x.1 ≡ (ok true, x.1))
  or_else-ok clean (ok u, m) h = refl
  or_else-ok clean (err e, m) h = cc

  installs :
      (database : ℕ) (chosen : Chosen P)
      → ((log : Log) (name : Text) (f : TableFunction) → platform.register log name f ≡ ok tt)
      → (m : Machine P)
      → let (initialized, m') =
          finished utf8_error platform (
            disconnect utf8_error platform database
              (register_state utf8_error platform chosen m)) in
        (initialized ≡ true) × (m'.tables ≡ m.tables ++ with_core chosen.runtime table_functions)
  unfolding finished register_state disconnect
  installs database chosen registers m =
      let (done, tables) = register_extension_lem chosen.runtime registers m in
      rw (or_else-ok _ (register_extension utf8_error platform chosen.runtime m) done)
        (refl, tables)

  -- However the load of a core ends, an extension that DuckDB accepts is initialized, and the tables afterwards
  -- are those before it and exactly the seven of the extension: each name with its own function, in this order,
  -- and all before the chosen runtime.
  pub init_c_api-Accepts :
      (bundle : Option Text) (info access database : ℕ) (m : Machine P)
      → Accepts database m
      → let chosen =
          (choose_core utf8_error platform bundle info access (note (connected database) m)).0 in
        ((init_c_api utf8_error platform bundle info access m).0 ≡ true)
        × ((init_c_api utf8_error platform bundle info access m).1.tables
            ≡ m.tables ++ seven_tables chosen.runtime)
  unfolding init_c_api init_internal finished install
  init_c_api-Accepts bundle info access database m a =
      let at_connection = note (connected database) m in
      let (chosen, m') = choose_core utf8_error platform bundle info access at_connection in
      let (initialized, tables) = installs database chosen a.registers m' in
      rw
        (
          a.initialized,
          database_lem database m a,
          not_null database a.not_closed,
          connection_lem database m a,
        )
        (
          initialized,
          tables
              ∙ ap (λ ts. ts ++ seven_tables chosen.runtime)
                  (choose_core_tables bundle info access at_connection),
        )
