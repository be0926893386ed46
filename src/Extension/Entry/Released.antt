-- ===== src/Extension/Entry/Released.antt =====
-- What `duckflight_init_c_api` of src/lib.rs leaves open when no table function was added.
use duckflight_extension.Common.{
  ℕ, ◌<◌, Bool, true, false, not, Option, none, some, List, ◌∷◌, ◌≡◌, refl, sym, ap, ◌∙◌, ◌==◌,
  if◌then◌else◌, length, arith,
}
use duckflight_extension.Abi.{Text}
use duckflight_extension.Extension.Results.{Result, ok, err, Act, continue, ◌>>=◌, ◌>>◌, pure}
use duckflight_extension.Extension.Hoare.{Post}
use duckflight_extension.Extension.Platform.{connected, reported, Platform, Machine, note, or_else}
use duckflight_extension.Extension.Runtime.{CoreRuntime}
use duckflight_extension.Extension.Bundle.{Loaded, load_bundled}
use duckflight_extension.Extension.Bundle.Logs.{OpenedSealed, open_files, open_libraries}
use duckflight_extension.Extension.Entry.Installs.{choose_core_tables}
use duckflight_extension.Extension.Bundle.Sealing.{
  Unheld, KeptFile, Held-load_bundled, drop_loaded_lem,
}
use duckflight_extension.Extension.Entry.{
  Chosen, drop_state, register_state, disconnect, bundled_of, table_functions, register_extension,
  choose_core, connected_of, connect_database, install, database_of, database_pointer,
  init_internal, report, finished, init_c_api,
}
use duckflight_extension.Extension.Entry.Registering.{
  Held-register_all, register_all-adds, drop_state-tables,
}

module _ {P : Type 0} (utf8_error : Text → Text) (platform : Platform P) where
  module _ (bytes : Text) (f l : List ℕ) (n : ℕ) where
    -- The files and the libraries that a chosen core keeps are open.
    CoreHeld : Option (Loaded P) → Machine P → Type 0
    CoreHeld none m = Unheld platform bytes f l m
    CoreHeld (some loaded) m = KeptFile platform bytes f l loaded m

    -- If no table was added, only what was open before is open.
    abbrev Released : Machine P → Type 0
    Released m = length m.tables ≡ n → (open_files m.log ≡ f) × (open_libraries m.log ≡ l)

    Unheld-Released : (m : Machine P) → Unheld platform bytes f l m → Released m
    Unheld-Released m h same = (h.held_files, h.held_libraries)

    bundled_of-CoreHeld :
        (x : Result (Loaded P) × Machine P)
        → Post (KeptFile platform bytes f l) (Unheld platform bytes f l) x
        → CoreHeld (bundled_of utf8_error platform x).0.loaded (bundled_of utf8_error platform x).1
    unfolding bundled_of CoreHeld
    bundled_of-CoreHeld (ok loaded, m) h = h
    bundled_of-CoreHeld (err e, m) h = h

    Held-registering :
        (loaded : Option (Loaded P)) (core : CoreRuntime P) (m : Machine P)
        → CoreHeld loaded m
        → CoreHeld loaded (register_extension utf8_error platform core m).1
    unfolding CoreHeld register_extension
    Held-registering none core m h =
        always _ ((Held-register_all utf8_error platform bytes f l table_functions core).at m h)
      where
        always :
            (x : Result (Unit {0}) × Machine P)
            → Post (λ _. Unheld platform bytes f l) (Unheld platform bytes f l) x
            → Unheld platform bytes f l x.1
        always (ok u, m) h = h
        always (err e, m) h = h
    Held-registering (some loaded) core m (fd, e, h) = (
      fd,
      e,
      always _ (
          (Held-register_all utf8_error platform bytes (fd ∷ f) (loaded.library ∷ l) table_functions
              core).at
            m h),
    )
      where
        always :
            (x : Result (Unit {0}) × Machine P)
            → Post
                (λ _. Unheld platform bytes (fd ∷ f) (loaded.library ∷ l))
                (Unheld platform bytes (fd ∷ f) (loaded.library ∷ l))
                x
            → Unheld platform bytes (fd ∷ f) (loaded.library ∷ l) x.1
        always (ok u, m) h = h
        always (err e, m) h = h

    -- Without a table the core is dropped.
    drop_state-Released :
        (loaded : Option (Loaded P)) (held : Bool) (m : Machine P)
        → CoreHeld loaded m
        → held ≡ false
        → (open_files (drop_state utf8_error platform loaded held m).log ≡ f)
          × (open_libraries (drop_state utf8_error platform loaded held m).log ≡ l)
    unfolding CoreHeld drop_state
    drop_state-Released none held m h unheld = (h.held_files, h.held_libraries)
    drop_state-Released (some loaded) true m h unheld = cc
    drop_state-Released (some loaded) false m h unheld =
        let dropped = drop_loaded_lem platform bytes f l loaded m h in
        (dropped.held_files, dropped.held_libraries)

    register_state-Released :
        (chosen : Chosen P) (m : Machine P)
        → CoreHeld chosen.loaded m
        → length m.tables ≡ n
        → Released (register_state utf8_error platform chosen m).1
    unfolding register_state register_extension
    register_state-Released chosen m h start =
        ends (register_extension utf8_error platform chosen.runtime m)
          (Held-registering chosen.loaded chosen.runtime m h)
          (register_all-adds utf8_error platform table_functions chosen.runtime m (omega arith))
      where
        clean : Machine P → Machine P
        clean m' =
            drop_state utf8_error platform chosen.loaded (not (length m'.tables == length m.tables))
              m'

        not_held : (a b : ℕ) → a ≡ n → b ≡ n → not (a == b) ≡ false
        not_held a b h h' = ground arith

        ends :
            (x : Result (Unit {0}) × Machine P)
            → CoreHeld chosen.loaded x.1
            → (x.0 ≡ ok tt → length m.tables < length x.1.tables)
            → Released (((λ (m : Machine P). or_else clean x) >> pure true) m).1
        ends (ok u, m') h adds same = absurd (omega (arith, adds refl, same, start))
        ends (err e, m') h adds same =
            let tables = drop_state-tables utf8_error platform chosen.loaded _ m' in
            drop_state-Released chosen.loaded _ m' h
              (not_held (length m'.tables) (length m.tables) (sym (ap length tables) ∙ same) start)

    -- An action after a step that opens nothing.
    Released-continue :
        {A : Type 0} (r : Result A) (k : A → Act (Machine P) Bool) (m : Machine P)
        → Unheld platform bytes f l m
        → ((a : A) → Released (k a m).1)
        → Released (continue r k m).1
    Released-continue (ok a) k m h after = after a
    Released-continue (err e) k m h after = Unheld-Released m h

    Released-unless :
        (b : Bool) (k : Act (Machine P) Bool) (m : Machine P)
        → Unheld platform bytes f l m
        → Released (k m).1
        → Released ((if b then pure false else k) m).1
    Released-unless true k m h after = Unheld-Released m h
    Released-unless false k m h after = after

    Released-when :
        (b : Bool) (k : Act (Machine P) Bool) (m : Machine P)
        → Unheld platform bytes f l m
        → Released (k m).1
        → Released ((if b then k else pure false) m).1
    Released-when true k m h after = after
    Released-when false k m h after = Unheld-Released m h

    report-Released :
        (error : Text) (m : Machine P) → Released m → Released (report utf8_error platform error m)
    unfolding report
    report-Released error m h = either platform.has_set_error _
      where
        either : (b : Bool) (text : Text) → Released (if b then note (reported text) m else m)
        either true text = h
        either false text = h

    finished-Released :
        (x : Result Bool × Machine P) → Released x.1 → Released (finished utf8_error platform x).1
    unfolding finished
    finished-Released (ok b, m) h = h
    finished-Released (err error, m) h = report-Released error m h

    module _ (info access : ℕ) where
      -- With the core that was chosen after the connection.
      connected-Released :
          (database : ℕ) (m : Machine P)
          → Unheld platform bytes f l m
          → length m.tables ≡ n
          → let (chosen, m') = choose_core utf8_error platform (some bytes) info access m in
            Released
              (disconnect utf8_error platform database
                (register_state utf8_error platform chosen m')).1
      unfolding choose_core disconnect
      connected-Released database m h start =
          let x = load_bundled platform bytes info access m in
          let (chosen, m') = bundled_of utf8_error platform x in
          register_state-Released chosen m'
            (bundled_of-CoreHeld x ((Held-load_bundled platform bytes f l info access).at m h))
            (ap length (choose_core_tables utf8_error platform (some bytes) info access m) ∙ start)

      install-Released :
          (database : ℕ) (m : Machine P)
          → Unheld platform bytes f l m
          → length m.tables ≡ n
          → Released (install utf8_error platform (some bytes) info access database m).1
      unfolding install connect_database
      install-Released database m h start =
          Released-unless (database == 0) _ m h (opens (platform.open_from_raw m.log database))
        where
          opens :
              (r : Result (Unit {0}))
              → Released
                  (((λ m. connected_of utf8_error platform database r m) >> λ m.
                      let (chosen, m') =
                        choose_core utf8_error platform (some bytes) info access m in
                      disconnect utf8_error platform database
                        (register_state utf8_error platform chosen m'))
                    m).1
          opens (ok u) =
              connected-Released database (note (connected database) m)
                (record {
                  safe = h.safe;
                  held_files = h.held_files;
                  held_libraries = h.held_libraries;
                })
                start
          opens (err e) = Unheld-Released m h

      given-Released :
          (o : Option ℕ) (m : Machine P)
          → Unheld platform bytes f l m
          → length m.tables ≡ n
          → Released
              (((λ m. database_of utf8_error platform o m) >>= λ database.
                  install utf8_error platform (some bytes) info access database)
                m).1
      unfolding database_of
      given-Released none m h start = Unheld-Released m h
      given-Released (some database) m h start = install-Released database m h start

module _ {P : Type 0} (utf8_error : Text → Text) (platform : Platform P) where
  -- If every library was opened from a descriptor that had just been filled with all the bytes of the bundle and
  -- sealed, and the entry point of an extension with this bundle has added no table when it returns, then
  -- exactly those descriptors and libraries are open that were open before it.
  pub init_c_api-Released :
      (bytes : Text) (info access : ℕ) (m : Machine P)
      → OpenedSealed bytes m.log
      → let m' = (init_c_api utf8_error platform (some bytes) info access m).1 in
        length m'.tables ≡ length m.tables
        → (open_files m'.log ≡ open_files m.log) × (open_libraries m'.log ≡ open_libraries m.log)
  unfolding init_c_api init_internal database_pointer
  init_c_api-Released bytes info access m safe =
      let f = open_files m.log in
      let l = open_libraries m.log in
      let n = length m.tables in
      let h : Unheld platform bytes f l m = record {
        safe = safe;
        held_files = refl;
        held_libraries = refl;
      } in
      let given : Option ℕ = elim platform.get_database [
        | none ↦ none
        | some get ↦ some (get m.log)
      ] in
      finished-Released utf8_error platform bytes f l n _ (
        Released-continue utf8_error platform bytes f l n (platform.api_init m.log) _ m h
          λ initialized.
            Released-when utf8_error platform bytes f l n initialized _ m h
              (given-Released utf8_error platform bytes f l n info access given m h refl))
