-- ===== src/Extension/Entry/Registered.antt =====
-- What `duckflight_init_c_api` of src/lib.rs has registered when it reports success, whatever DuckDB and the
-- system answer.
use mathlib.Core.Path.{subst}
use mathlib.Core.List.{append-nil, append_assoc}
use duckflight_extension.Common.{
  ℕ, arith, ◌≢◌, Bool, true, false, Option, none, some, List, [], ◌∷◌, ◌++◌, ◌≡◌, refl, sym, ap,
  ◌∙◌, ◌==◌, if◌then◌else◌,
}
use duckflight_extension.Abi.{Text}
use duckflight_extension.Extension.Results.{Result, ok, err, Act, continue, ◌>>=◌, ◌>>◌, pure}
use duckflight_extension.Extension.Platform.{
  Log, or_else, TableFunction, connected, registered, Platform, Machine, note,
}
use duckflight_extension.Extension.Runtime.{CoreRuntime}
use duckflight_extension.Extension.Entry.{
  Chosen, register_state, disconnect, table_functions, registered_of, register_table, register_all,
  register_extension, choose_core, connected_of, connect_database, install, database_of,
  database_pointer, init_internal, finished, init_c_api,
}
use duckflight_extension.Extension.Entry.Installs.{seven_tables, with_core, choose_core_tables}

module _ {P : Type 0} (utf8_error : Text → Text) (platform : Platform P) where
  -- All tables are added where none was refused.
  register_all-ok :
      (fs : List (Text × TableFunction)) (core : CoreRuntime P) (m : Machine P)
      → (register_all utf8_error platform fs core m).0 ≡ ok tt
      → (register_all utf8_error platform fs core m).1.tables ≡ m.tables ++ with_core core fs
  unfolding register_all register_table
  register_all-ok [] core m h = sym (append-nil m.tables)
  register_all-ok ((name, f) ∷ fs) core m h =
      registers (platform.register m.log name f) (register_all-ok fs core after) h
    where
      after : Machine P
      after = record m {
        log = registered name f ∷ m.log;
        tables = m.tables ++ (name, f, core) ∷ [];
      }

      rest : Result (Unit {0}) → Result (Unit {0}) × Machine P
      rest r =
          (registered_of utf8_error platform name f core r
              >> register_all utf8_error platform fs core)
            m

      registers :
          (r : Result (Unit {0}))
          → ((register_all utf8_error platform fs core after).0 ≡ ok tt
              → (register_all utf8_error platform fs core after).1.tables
                ≡ after.tables ++ with_core core fs)
          → (rest r).0 ≡ ok tt
          → (rest r).1.tables ≡ m.tables ++ with_core core ((name, f) ∷ fs)
      registers (ok u) ih h =
          ih h ∙ append_assoc m.tables ((name, f, core) ∷ []) (with_core core fs)
      registers (err e) ih h = cc

  -- Which tables are there after a success, where the core was chosen on the machine `m`.
  AllAdded : Chosen P × Machine P → Machine P → Type 0
  AllAdded (chosen, m) m' = m'.tables ≡ m.tables ++ with_core chosen.runtime table_functions

  extension-AllAdded :
      (database : ℕ) (chosen : Chosen P) (m : Machine P)
      → let registered =
          disconnect utf8_error platform database (register_state utf8_error platform chosen m) in
        registered.0 ≡ ok true → AllAdded (chosen, m) registered.1
  unfolding register_extension register_state disconnect AllAdded
  extension-AllAdded database chosen m h =
      let (added, same) =
        then_true _ (register_all utf8_error platform table_functions chosen.runtime m) h in
      ap (λ m'. m'.tables) same ∙ register_all-ok table_functions chosen.runtime m added
    where
      then_true :
          (clean : Machine P → Machine P) (x : Result (Unit {0}) × Machine P)
          → (((λ (m : Machine P). or_else clean x) >> pure true) m).0 ≡ ok true
          → (x.0 ≡ ok tt) × ((((λ (m : Machine P). or_else clean x) >> pure true) m).1 ≡ x.1)
      then_true clean (ok u, m) h = (refl, refl)
      then_true clean (err e, m) h = cc

  -- An action that returned true has not left by a test.
  not_left :
      (b : Bool) (k : Act (Machine P) Bool) (m : Machine P)
      → ((if b then pure false else k) m).0 ≡ ok true
      → (b ≡ false) × ((if b then pure false else k) m ≡ k m)
  not_left true k m h = absurd (false-neq-true h)
    where
      false-neq-true : ok false ≡ ok true → ⊥
      false-neq-true h = cc
  not_left false k m h = (refl, refl)

  connected-ok :
      (database : ℕ) (r : Result (Unit {0})) (k : Act (Machine P) Bool) (m : Machine P)
      → ((connected_of utf8_error platform database r >> k) m).0 ≡ ok true
      → (r ≡ ok tt)
        × ((connected_of utf8_error platform database r >> k) m ≡ k (note (connected database) m))
  unfolding connected_of
  connected-ok database (ok u) k m h = (refl, refl)
  connected-ok database (err e) k m h = cc

  module _ (bundle : Option Text) (info access : ℕ) where
    -- What a success shows of the database and of the tables.
    record Opened (database : ℕ) (m m' : Machine P) : Type 0 where
      not_closed : database ≢ 0
      opens : platform.open_from_raw m.log database ≡ ok tt
      added :
          AllAdded
            (choose_core utf8_error platform bundle info access (note (connected database) m))
            m'

    install-Opened :
        (database : ℕ) (m : Machine P)
        → (install utf8_error platform bundle info access database m).0 ≡ ok true
        → Opened database m (install utf8_error platform bundle info access database m).1
    unfolding install connect_database
    install-Opened database m h =
        let (nonzero, e) = not_left (database == 0) _ m h in
        let (opens, e') =
          connected-ok database (platform.open_from_raw m.log database) _ m
            (ap (λ x. x.0) (sym e) ∙ h) in
        let (chosen, m') =
          choose_core utf8_error platform bundle info access (note (connected database) m) in
        record {
          not_closed = not_zero database nonzero;
          opens = opens;
          added =
              subst (λ x. AllAdded (chosen, m') x.1) (sym (e ∙ e'))
                (extension-AllAdded database chosen m' (ap (λ x. x.0) (sym (e ∙ e')) ∙ h));
        }
      where
        not_zero : (n : ℕ) → (n == 0) ≡ false → n ≢ 0
        not_zero n h = ground arith

    abbrev installed : ℕ → Act (Machine P) Bool
    installed database = install utf8_error platform bundle info access database

    with_database :
        (o : Option ℕ) (m : Machine P)
        → ((database_of utf8_error platform o >>= installed) m).0 ≡ ok true
        → (database : ℕ) × (o ≡ some database)
          × ((database_of utf8_error platform o >>= installed) m ≡ installed database m)
    unfolding database_of
    with_database none m h = cc
    with_database (some database) m h = (database, refl, refl)

    initialized-true :
        (r : Result Bool) (k : Act (Machine P) Bool) (m : Machine P)
        → (continue r (λ initialized. if initialized then k else pure false) m).0 ≡ ok true
        → (r ≡ ok true)
          × (continue r (λ initialized. if initialized then k else pure false) m ≡ k m)
    initialized-true (ok true) k m h = (refl, refl)
    initialized-true (ok false) k m h = absurd (false-neq-true h)
      where
        false-neq-true : ok false ≡ ok true → ⊥
        false-neq-true h = cc
    initialized-true (err e) k m h = cc

    given : Option (Log → ℕ) → Machine P → Option ℕ
    given o m = elim o [ none ↦ none | some get ↦ some (get m.log) ]

    given-some :
        (o : Option (Log → ℕ)) (m : Machine P) (database : ℕ)
        → given o m ≡ some database
        → (get : Log → ℕ) × (o ≡ some get) × (database ≡ get m.log)
    unfolding given
    given-some none m database h = cc
    given-some (some get) m database h = (get, refl, cc)

    -- DuckDB accepted the C API, gave a database that it has opened, and the connection to it succeeded; the
    -- tables afterwards are those before it and the seven of the extension, before the core that was chosen
    -- after the connection.
    pub record Installed (m m' : Machine P) : Type 0 where
      pub get : Log → ℕ
      pub initialized : platform.api_init m.log ≡ ok true
      pub getter : platform.get_database ≡ some get
      pub not_closed : get m.log ≢ 0
      pub opens : platform.open_from_raw m.log (get m.log) ≡ ok tt
      pub tables :
          let (chosen, _) =
            choose_core utf8_error platform bundle info access (note (connected (get m.log)) m) in
          m'.tables ≡ m.tables ++ seven_tables chosen.runtime

    Opened-Installed :
        (get : Log → ℕ) (m m' : Machine P)
        → platform.api_init m.log ≡ ok true
        → platform.get_database ≡ some get
        → Opened (get m.log) m m'
        → Installed m m'
    unfolding AllAdded
    Opened-Installed get m m' initialized getter o =
        let at_connection = note (connected (get m.log)) m in
        let (chosen, _) = choose_core utf8_error platform bundle info access at_connection in
        record {
          get = get;
          initialized = initialized;
          getter = getter;
          not_closed = o.not_closed;
          opens = o.opens;
          tables =
              o.added
              ∙ ap (λ ts. ts ++ seven_tables chosen.runtime)
                  (choose_core_tables utf8_error platform bundle info access at_connection);
        }

    internal-Installed :
        (m : Machine P)
        → (init_internal utf8_error platform bundle info access m).0 ≡ ok true
        → Installed m (init_internal utf8_error platform bundle info access m).1
    unfolding init_internal database_pointer given
    internal-Installed m h =
        let (initialized, e) = initialized-true (platform.api_init m.log) _ m h in
        let (database, is_given, e') =
          with_database (given platform.get_database m) m (ap (λ x. x.0) (sym e) ∙ h) in
        let (get, getter, is_get) = given-some platform.get_database m database is_given in
        let opened = install-Opened database m (ap (λ x. x.0) (sym (e ∙ e')) ∙ h) in
        subst (Installed m) (sym (ap (λ x. x.1) (e ∙ e'))) (
          Opened-Installed get m (installed database m).1 initialized getter
            (subst (λ d. Opened d m (installed database m).1) is_get opened))

  finished-true :
      (x : Result Bool × Machine P)
      → (finished utf8_error platform x).0 ≡ true
      → (x.0 ≡ ok true) × ((finished utf8_error platform x).1 ≡ x.1)
  unfolding finished
  finished-true (ok true, m) h = (refl, refl)
  finished-true (ok false, m) h = cc
  finished-true (err e, m) h = cc

  -- When it returns true to DuckDB, whatever DuckDB and the system answered, DuckDB has accepted the C API, has
  -- given a database that is not null, and has let the extension connect to it; and the tables afterwards are
  -- those before it and exactly the seven of the extension, in their order, before the core that was chosen
  -- after the connection.
  pub init_c_api-AllAdded :
      (bundle : Option Text) (info access : ℕ) (m : Machine P)
      → (init_c_api utf8_error platform bundle info access m).0 ≡ true
      → Installed bundle info access m (init_c_api utf8_error platform bundle info access m).1
  unfolding init_c_api
  init_c_api-AllAdded bundle info access m h =
      let (returned, same) =
        finished-true (init_internal utf8_error platform bundle info access m) h in
      subst (Installed bundle info access m) (sym same)
        (internal-Installed bundle info access m returned)
