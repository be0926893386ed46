-- ===== src/Extension/Bundle/Untabled.antt =====
-- Loading a core, as in src/dynamic_core.rs, registers no table function.
use duckflight_extension.Common.{ℕ, Option, none, some, ◌++◌, ◌≡◌, refl, ◌∙◌}
use duckflight_extension.Abi.{Text}
use duckflight_extension.Extension.Utf8.{ascii, from_utf8_lossy}
use duckflight_extension.Extension.Results.{Result, ok, err, Act, continue, ◌>>=◌, pure}
use duckflight_extension.Extension.Platform.{
  Os, done, fails, einval, errno, Platform, MemfdFlags, Machine, or_else, on_core, closed, note,
}
use duckflight_extension.Extension.Core.{initialize}
use duckflight_extension.Extension.Bundle.{
  fd_path, executable, without_exec, noted, create_memfd, descriptor, retried, memfd, written_of,
  write_bundle, sealed_of, seal_bundle, fill, prepare_bundle, opened_of, open_library, open_bundle,
  load_bundle, drop_both, resolved_of, resolve_entry, call_entry, made, enter, load, load_bundled,
}

module _ {P A : Type 0} where
  pub record Untabled (act : Act (Machine P) A) : Type 0 where
    pub at : (m : Machine P) → (act m).1.tables ≡ m.tables

  Untabled-pure : (a : A) → Untabled (pure a)
  Untabled-pure a = record { at = λ m. refl }

  Untabled-or_else :
      {act : Act (Machine P) A} (clean : Machine P → Machine P)
      → ((m : Machine P) → (clean m).tables ≡ m.tables)
      → Untabled act
      → Untabled (λ m. or_else clean (act m))
  Untabled-or_else {act} clean h u = record { at = λ m. cleaned (act m) ∙ u.at m }
    where
      cleaned : (x : Result A × Machine P) → (or_else clean x).1.tables ≡ x.1.tables
      cleaned (ok a, m) = refl
      cleaned (err e, m) = h m

module _ {P A B : Type 0} where
  Untabled-bind :
      {act : Act (Machine P) A} {f : A → Act (Machine P) B}
      → Untabled act
      → ((a : A) → Untabled (f a))
      → Untabled (act >>= f)
  Untabled-bind {act} {f} u uf = record { at = λ m. continued (act m).0 (act m).1 ∙ u.at m }
    where
      continued : (r : Result A) (m : Machine P) → (continue r f m).1.tables ≡ m.tables
      continued (ok a) m = (uf a).at m
      continued (err e) m = refl

module _ {P : Type 0} (platform : Platform P) where
  created_tables :
      (flags : MemfdFlags) (m : Machine P) → (create_memfd platform flags m).1.tables ≡ m.tables
  unfolding create_memfd noted
  created_tables flags m = noted_tables (platform.memfd_create m.log flags)
    where
      noted_tables : (o : Os ℕ) → (noted platform flags o m).1.tables ≡ m.tables
      noted_tables (done fd) = refl
      noted_tables (fails e) = refl

  descriptor_tables : (x : Os ℕ × Machine P) → (descriptor platform x).1.tables ≡ x.1.tables
  unfolding descriptor
  descriptor_tables (done fd, m) = refl
  descriptor_tables (fails e, m) = refl

  retried_tables : (x : Os ℕ × Machine P) → (retried platform x).1.tables ≡ x.1.tables
  unfolding retried
  retried_tables (done fd, m) = refl
  retried_tables (fails (errno n), m) = descriptor_tables (fails (errno n), m)
  retried_tables (fails einval, m) =
      descriptor_tables (create_memfd platform without_exec m) ∙ created_tables without_exec m

  memfd-Untabled : Untabled (memfd platform)
  unfolding memfd
  memfd-Untabled = record {
    at = λ m. retried_tables (create_memfd platform executable m) ∙ created_tables executable m;
  }

  write_bundle-Untabled : (fd : ℕ) (bytes : Text) → Untabled (write_bundle platform fd bytes)
  unfolding write_bundle
  write_bundle-Untabled fd bytes = record {
    at = λ m. written_tables m (platform.write_all m.log fd bytes) (platform.flush m.log fd);
  }
    where
      written_tables :
          (m : Machine P) (w f : Os (Unit {0}))
          → (written_of platform fd bytes w f m).1.tables ≡ m.tables
      written_tables m (done u) (done v) = refl
      written_tables m (done u) (fails e) = refl
      written_tables m (fails e) f = refl

  seal_bundle-Untabled : (fd : ℕ) → Untabled (seal_bundle platform fd)
  unfolding seal_bundle sealed_of
  seal_bundle-Untabled fd = record { at = λ m. sealed_tables m (platform.add_seals m.log fd _) }
    where
      sealed_tables :
          (m : Machine P) (o : Os (Unit {0})) → (sealed_of platform fd o m).1.tables ≡ m.tables
      sealed_tables m (done u) = refl
      sealed_tables m (fails e) = refl

  prepare_bundle-Untabled : (bytes : Text) → Untabled (prepare_bundle platform bytes)
  unfolding prepare_bundle fill
  prepare_bundle-Untabled bytes = Untabled-bind memfd-Untabled λ fd.
      Untabled-or_else (note (closed fd)) (λ m. refl)
        (Untabled-bind (write_bundle-Untabled fd bytes)
          λ _. Untabled-bind (seal_bundle-Untabled fd) λ _. Untabled-pure (fd, fd_path fd))

  open_library-Untabled : (path text : Text) → Untabled (open_library platform path text)
  unfolding open_library opened_of
  open_library-Untabled path text = record {
    at = λ m. opened_tables m (platform.dlopen m.log path);
  }
    where
      opened_tables :
          (m : Machine P) (r : Result ℕ) → (opened_of platform path text r m).1.tables ≡ m.tables
      opened_tables m (ok library) = refl
      opened_tables m (err e) = refl

  open_bundle-Untabled : (fd : ℕ) (path : Text) → Untabled (open_bundle platform fd path)
  unfolding open_bundle
  open_bundle-Untabled fd path =
      Untabled-bind
        (open_library-Untabled path
          (ascii "load bundled core from " ++ from_utf8_lossy path ++ ascii ": "))
        λ library. Untabled-pure (library, fd)

  load_bundle-Untabled : (bytes : Text) → Untabled (load_bundle platform bytes)
  unfolding load_bundle
  load_bundle-Untabled bytes =
      Untabled-bind (prepare_bundle-Untabled bytes)
        λ (fd, path). Untabled-or_else (note (closed fd)) (λ m. refl) (open_bundle-Untabled fd path)

  drop_both_tables :
      (library : ℕ) (file : Option ℕ) (m : Machine P) → (drop_both library file m).tables ≡ m.tables
  drop_both_tables library none m = refl
  drop_both_tables library (some fd) m = refl

  resolve_entry-Untabled :
      (library : ℕ) (text : Text) → Untabled (resolve_entry platform library text)
  unfolding resolve_entry resolved_of
  resolve_entry-Untabled library text = record {
    at = λ m. resolved_tables m (platform.dlsym m.log library);
  }
    where
      resolved_tables :
          (m : Machine P) (r : Result (Unit {0}))
          → (resolved_of platform library text r m).1.tables ≡ m.tables
      resolved_tables m (ok u) = refl
      resolved_tables m (err e) = refl

  made-Untabled :
      (library : ℕ) (file : Option ℕ) (text : Text) (info access : ℕ) (detail : Text)
      → Untabled (made platform library file text info access detail)
  unfolding made call_entry
  made-Untabled library file text info access detail =
      Untabled-bind (resolve_entry-Untabled library text) λ _.
        Untabled-bind {act = call_entry platform library} (record { at = λ m. refl })
          λ table.
            Untabled-bind {act = on_core (initialize table info access detail)}
              (record { at = λ m. refl })
              λ core. Untabled-pure (record { core = core; library = library; bundle_file = file })

  enter-Untabled :
      (library : ℕ) (file : Option ℕ) (text : Text) (info access : ℕ) (detail : Text)
      → Untabled (enter platform library file text info access detail)
  unfolding enter
  enter-Untabled library file text info access detail =
      Untabled-or_else (drop_both library file) (drop_both_tables library file)
        (made-Untabled library file text info access detail)

  pub load-Untabled : (path : Text) (info access : ℕ) → Untabled (load platform path info access)
  unfolding load
  load-Untabled path info access =
      Untabled-bind
        (open_library-Untabled path
          (ascii "load configured runtime library " ++ from_utf8_lossy path ++ ascii ": "))
        λ library.
          enter-Untabled library none
            (ascii "resolve duckflight_core_api_v1 in configured runtime "
              ++ from_utf8_lossy path
              ++ ascii ": ")
            info access (ascii "external core loaded")

  pub load_bundled-Untabled :
      (bytes : Text) (info access : ℕ) → Untabled (load_bundled platform bytes info access)
  unfolding load_bundled
  load_bundled-Untabled bytes info access =
      Untabled-bind (load_bundle-Untabled bytes) λ (library, fd).
        enter-Untabled library (some fd) (ascii "resolve bundled core API: ") info access
          (ascii "bundled core loaded")
