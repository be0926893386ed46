-- ===== src/Extension/Examples/Platforms.antt =====
-- The theorems on the load of a core and on the entry point of src/lib.rs at concrete inputs.
use duckflight_extension.Common.{
  ℕ, ◌+◌, ◌≡◌, refl, ◌↔◌, true, false, none, some, [], ◌∷◌, ◌++◌, arith,
}
use duckflight_extension.Abi.{ApiV1, pos}
use duckflight_extension.Extension.Utf8.{ascii}
use duckflight_extension.Extension.Results.{ok}
use duckflight_extension.Extension.Platform.{
  einval, MemfdFlags, connected, Machine, Os, done, fails, Platform, note,
}
use duckflight_extension.Extension.Build.{BuildHost, build_main}
use duckflight_extension.Extension.Build.Bundles.{selects, Bundles, build_main-Bundles}
use duckflight_extension.Extension.Bundle.{load_bundled}
use duckflight_extension.Extension.Bundle.Logs.{OpenedSealed}
use duckflight_extension.Extension.Bundle.Sealing.{
  Balanced, load_bundled-OpenedSealed, load_bundled-Balanced,
}
use duckflight_extension.Extension.Entry.{choose_core, init_c_api}
use duckflight_extension.Extension.Entry.Registered.{Installed, init_c_api-AllAdded}
use duckflight_extension.Extension.Entry.Installs.{seven_tables, Accepts, init_c_api-Accepts}

-- A core that counts the calls of its functions.
abbrev small_table : ApiV1 ℕ
small_table = record {
  struct_size = 48;
  abi_version = 1;
  create = some (λ core options. record {
    core = core + 1;
    status = pos 0;
    error = [];
    required = 0;
    value = 7;
  });
  destroy = some (λ core handle. core);
  start = some (λ core handle protocol address config_file. record {
    core = core + 1;
    status = pos 0;
    error = [];
    required = 0;
    value = address ∷ [];
  });
  stop = some (λ core handle protocol address. record {
    core = core + 1;
    status = pos 0;
    error = [];
    required = 0;
    value = some true;
  });
  list = some (λ core handle. record {
    core = core + 1;
    status = pos 0;
    error = [];
    required = 0;
    value = [];
  });
}

-- A kernel that knows only the older flags of `memfd_create`.
abbrev make_memfd : MemfdFlags → Os ℕ
make_memfd flags = elim flags.exec [ true ↦ fails einval | false ↦ done 3 ]

abbrev pub small_platform : Platform ℕ
small_platform = record {
  os_error = λ e. ascii "failed";
  memfd_create = λ log. make_memfd;
  write_all = λ log fd bytes. done tt;
  flush = λ log fd. done tt;
  add_seals = λ log fd seals. done tt;
  dlopen = λ log path. ok 9;
  dlsym = λ log library. ok tt;
  entry = λ log library core. some small_table;
  api_init = λ log. ok true;
  get_database = some (λ log. 4);
  open_from_raw = λ log database. ok tt;
  register = λ log name f. ok tt;
  has_set_error = true;
  core_path = none;
}

abbrev pub fresh : Machine ℕ
fresh = record { core = 0; log = []; tables = [] }

load_bundled-OpenedSealed_example :
    OpenedSealed (ascii "ELF") (load_bundled small_platform (ascii "ELF") 1 2 fresh).1.log
load_bundled-OpenedSealed_example =
    load_bundled-OpenedSealed small_platform (ascii "ELF") 1 2 fresh tt

load_bundled-Balanced_example :
    Balanced small_platform
      (ascii "ELF")
      []
      []
      (load_bundled small_platform (ascii "ELF") 1 2 fresh)
load_bundled-Balanced_example = load_bundled-Balanced small_platform (ascii "ELF") 1 2 fresh tt

abbrev accepts : Accepts (λ t. t) small_platform 4 fresh
accepts = record {
  get = λ log. 4;
  initialized = refl;
  getter = refl;
  database_is = refl;
  not_closed = omega arith;
  opens = refl;
  registers = λ log name f. refl;
}

init_c_api-Accepts_example :
    let chosen =
      (choose_core (λ t. t) small_platform (some (ascii "ELF")) 1 2 (note (connected 4) fresh)).0 in
    ((init_c_api (λ t. t) small_platform (some (ascii "ELF")) 1 2 fresh).0 ≡ true)
    × ((init_c_api (λ t. t) small_platform (some (ascii "ELF")) 1 2 fresh).1.tables
        ≡ fresh.tables ++ seven_tables chosen.runtime)
init_c_api-Accepts_example =
    init_c_api-Accepts (λ t. t) small_platform (some (ascii "ELF")) 1 2 4 fresh accepts

init_c_api-AllAdded_example :
    Installed
      (λ t. t)
      small_platform
      (some (ascii "ELF"))
      1
      2
      fresh
      (init_c_api (λ t. t) small_platform (some (ascii "ELF")) 1 2 fresh).1
init_c_api-AllAdded_example =
    init_c_api-AllAdded (λ t. t) small_platform (some (ascii "ELF")) 1 2 fresh
      init_c_api-Accepts_example.0

abbrev small_host : BuildHost
small_host = record {
  bundle_path = some (ascii "core.so");
  out_dir = some (ascii "out");
  is_file = λ path. true;
  join = λ directory file. directory ++ ascii "/" ++ file;
  copy = λ source output. ok tt;
}

build_main-Bundles_example : (selects (build_main small_host).lines ≡ true) ↔ Bundles small_host
build_main-Bundles_example = build_main-Bundles small_host
