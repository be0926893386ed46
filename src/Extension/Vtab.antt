-- ===== src/Extension/Vtab.antt =====
-- The `VTab` implementations of src/lib.rs: what each table function declares in `bind` and
-- `parameters`, and its `init` and `func` as DuckDB calls them.
pub mod Columns
pub mod Written
pub mod Rows
use duckflight_extension.Common.{ℕ, Bool, false, Option, none, some, List, [], ◌∷◌}
use duckflight_extension.Abi.{Text}
use duckflight_extension.Extension.Utf8.{ascii}
use duckflight_extension.Extension.Results.{Result, Act, pure}
use duckflight_extension.Extension.Platform.{
  TableFunction, serve, stop_server, server_list, core_status_table,
}
use duckflight_extension.Extension.Runtime.{CoreRuntime}
use duckflight_extension.Extension.Tables.{
  Chunk, ServerListInit, list_init, serve_func, stop_func, list_func, status_func,
}

-- `LogicalTypeId`
pub data LogicalType : Type 0 where
  varchar boolean_type ubigint : LogicalType

abbrev pub Columns : Type 0
Columns = List (Text × LogicalType)

-- The columns that each `bind` adds.
abbrev serve_columns : Columns
serve_columns = (ascii "protocol", varchar) ∷ (ascii "address", varchar) ∷ []

abbrev stop_columns : Columns
stop_columns = (ascii "status", varchar) ∷ []

abbrev list_columns : Columns
list_columns = (ascii "protocol", varchar) ∷ (ascii "address", varchar) ∷ []

abbrev status_columns : Columns
status_columns =
    (ascii "loaded", boolean_type) ∷ (ascii "abi_version", ubigint) ∷ (ascii "detail", varchar) ∷ []

unfoldable pub result_columns : TableFunction → Columns
result_columns (serve protocol) = serve_columns
result_columns stop_server = stop_columns
result_columns server_list = list_columns
result_columns core_status_table = status_columns

pub record ServeBindData : Type 0 where
  pub address : Text
  pub config_file : Text

pub record StopBindData : Type 0 where
  pub protocol : Text
  pub address : Text

-- What `bind` returns, from the texts of the parameters.
unfoldable pub serve_bind : (ℕ → Text) → ServeBindData
serve_bind get_parameter = record { address = get_parameter 0; config_file = get_parameter 1 }

unfoldable pub stop_bind : (ℕ → Text) → StopBindData
stop_bind get_parameter = record { protocol = get_parameter 0; address = get_parameter 1 }

-- `BindData` and `InitData`, where `EmitOnce` is its flag.
abbrev pub BindData : TableFunction → Type 0
BindData (serve protocol) = ServeBindData
BindData stop_server = StopBindData
BindData server_list = Unit {0}
BindData core_status_table = Unit {0}

abbrev pub InitData : TableFunction → Type 0
InitData (serve protocol) = Bool
InitData stop_server = Bool
InitData server_list = ServerListInit
InitData core_status_table = Bool

-- `parameters` of the two that take any.
abbrev serve_parameters : List LogicalType
serve_parameters = varchar ∷ varchar ∷ []

abbrev stop_parameters : List LogicalType
stop_parameters = varchar ∷ varchar ∷ []

unfoldable pub parameters : TableFunction → Option (List LogicalType)
parameters (serve protocol) = some serve_parameters
parameters stop_server = some stop_parameters
parameters server_list = none
parameters core_status_table = none

unfoldable pub bind : (f : TableFunction) → (ℕ → Text) → BindData f
unfolding serve_bind stop_bind
bind (serve protocol) get_parameter = serve_bind get_parameter
bind stop_server get_parameter = stop_bind get_parameter
bind server_list get_parameter = tt
bind core_status_table get_parameter = tt

module _ {S : Type 0} where
  unfoldable pub init : (f : TableFunction) → CoreRuntime S → Act S (InitData f)
  unfolding list_init
  init (serve protocol) core = pure false
  init stop_server core = pure false
  init server_list core = list_init core
  init core_status_table core = pure false

module _ {S : Type 0} (nul_error : Text → Text) where
  unfoldable pub func :
      (f : TableFunction)
      → CoreRuntime S
      → BindData f
      → InitData f
      → Chunk
      → S
      → Result Chunk × S × InitData f
  unfolding serve_func stop_func list_func status_func
  func (serve protocol) core data_ done output s =
      serve_func nul_error core protocol data_.address data_.config_file done output s
  func stop_server core data_ done output s =
      stop_func nul_error core data_.protocol data_.address done output s
  func server_list core data_ scan output s =
      let (result, scan') = list_func nul_error scan output in (result, s, scan')
  func core_status_table core data_ done output s = status_func nul_error core done output s
