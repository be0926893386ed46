-- ===== src/Extension/Entry/Refused.antt =====
-- The entry point of src/lib.rs at a DuckDB that refuses the first table function.
use duckflight_extension.Common.{ℕ, ◌≡◌, ap, ◌∙◌, some, [], length}
use duckflight_extension.Extension.Utf8.{ascii}
use duckflight_extension.Extension.Results.{err}
use duckflight_extension.Extension.Platform.{connected, Platform, note}
use duckflight_extension.Extension.Bundle.Logs.{open_files, open_libraries}
use duckflight_extension.Extension.Entry.{
  register_state, disconnect, registered_of, register_table, register_all, register_extension,
  connected_of, connect_database, install, database_of, database_pointer, init_internal, report,
  finished, init_c_api,
}
use duckflight_extension.Extension.Entry.Installs.{choose_core_tables}
use duckflight_extension.Extension.Entry.Registering.{drop_state-tables}
use duckflight_extension.Extension.Entry.Released.{init_c_api-Released}
use duckflight_extension.Extension.Examples.Platforms.{small_platform, fresh}

abbrev refusing : Platform ℕ
refusing = record small_platform { register = λ log name f. err (ascii "refused") }

adds_nothing : (init_c_api (λ t. t) refusing (some (ascii "ELF")) 1 2 fresh).1.tables ≡ []
unfolding init_c_api init_internal database_pointer database_of install connect_database
    connected_of disconnect register_state register_extension register_all register_table
    registered_of finished report
adds_nothing =
    drop_state-tables (λ t. t) refusing _ _ _
    ∙ choose_core_tables (λ t. t) refusing (some (ascii "ELF")) 1 2 (note (connected 4) fresh)

init_c_api-Released_example :
    let m = (init_c_api (λ t. t) refusing (some (ascii "ELF")) 1 2 fresh).1 in
    (open_files m.log ≡ []) × (open_libraries m.log ≡ [])
init_c_api-Released_example =
    init_c_api-Released (λ t. t) refusing (ascii "ELF") 1 2 fresh tt (ap length adds_nothing)
