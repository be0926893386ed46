-- ===== src/Extension/Core.antt =====
-- `DynamicCore` and its helpers of src/dynamic_core.rs: a core behind the C ABI.
use duckflight_extension.Common.{
  ℕ, Bool, true, false, not, ◌||◌, Option, none, some, List, [], ◌∷◌, ◌++◌, ltb, ◌==◌,
  if◌then◌else◌, length, take,
}
use duckflight_extension.Abi.{
  Text, I32, is_ok, core_abi_v1, api_size, BytesV1, new_options, CreateOptionsV1, Returned, Handle,
  ApiV1,
}
use duckflight_extension.Extension.Utf8.{ascii, is_utf8, from_utf8_lossy, decimal, decimal_i32}
use duckflight_extension.Extension.Results.{Result, ok, err, Act, ◌>>=◌, pure, lift}
use duckflight_extension.Extension.Protocols.{Protocol, abi_protocol, protocol_name}
use duckflight_extension.Extension.Runtime.{CoreRuntime}

abbrev pub error_capacity : ℕ
error_capacity = 4096

-- The offset of `abi_version` and its size.
abbrev pub api_header_size : ℕ
api_header_size = 8

pub record ErrorBuffer : Type 0 where
  pub bytes : Text
  pub required : ℕ

unfoldable pub message : ErrorBuffer → Option Text
message error =
    if ltb error_capacity error.required
    then none
    else some (from_utf8_lossy (take error.required error.bytes))

-- The text of a failed call, from the diagnostic that could be read.
unfoldable pub failure_detail : I32 → ErrorBuffer → Option Text → Text
failure_detail status error none =
    ascii "DuckFlight runtime failed with status "
    ++ decimal_i32 status
    ++ ascii "; diagnostic requires "
    ++ decimal error.required
    ++ ascii " bytes (buffer capacity "
    ++ decimal error_capacity
    ++ ascii ")"
failure_detail status error (some []) =
    ascii "DuckFlight runtime failed with status " ++ decimal_i32 status
failure_detail status error (some (b ∷ bs)) = b ∷ bs

unfoldable pub check_status : I32 → ErrorBuffer → Result (Unit {0})
unfolding message failure_detail
check_status status error =
    if is_ok status then ok tt else err (failure_detail status error (message error))

-- `utf8_error` is the text of the standard library's `Utf8Error` for bytes that are not UTF-8.
module _ (utf8_error : Text → Text) where
  unfoldable pub borrowed_bytes : Text → Result Text
  borrowed_bytes bytes =
      if is_utf8 bytes
      then ok bytes
      else err (ascii "runtime returned invalid UTF-8: " ++ utf8_error bytes)

  unfoldable pub borrowed_string : BytesV1 → Result Text
  unfolding borrowed_bytes
  borrowed_string value = if value.len == 0 then ok [] else elim value.bytes [
    | none ↦ err (ascii "runtime returned a null string pointer")
    | some bytes ↦ borrowed_bytes (take value.len bytes)
  ]

  -- `receive` of `start`: every call overwrites what the ones before it left.
  unfoldable pub receive : Result Text → List BytesV1 → Result Text
  unfolding borrowed_string
  receive output [] = output
  receive output (value ∷ values) = receive (borrowed_string value) values

  abbrev pub visited :
      Result (List (Text × Text)) → Result Text → Result Text → Result (List (Text × Text))
  visited (ok servers) (ok protocol) (ok address) = ok (servers ++ (protocol, address) ∷ [])
  visited (err e) (ok protocol) (ok address) = err e
  visited output (err e) address = err e
  visited output (ok protocol) (err e) = err e

  -- `visit` of `snapshots`, on every server that the core passes to it.
  unfoldable pub visit :
      Result (List (Text × Text)) → List (ℕ × BytesV1) → Result (List (Text × Text))
  unfolding borrowed_string protocol_name
  visit output [] = output
  visit output ((protocol, address) ∷ servers) =
      visit (visited output (protocol_name protocol) (borrowed_string address)) servers

abbrev is_none : {A : Type 0} → Option A → Bool
is_none none = true
is_none (some a) = false

module _ {P : Type 0} where
  unfoldable pub validate_api_table_header : Option (ApiV1 P) → Result (ApiV1 P)
  validate_api_table_header none = err (ascii "runtime returned a null API table")
  validate_api_table_header (some api) =
      if ltb api.struct_size api_header_size
      then err (ascii "runtime API header is truncated")
      else if not (api.abi_version == core_abi_v1)
      then err (
          ascii "runtime ABI "
          ++ decimal api.abi_version
          ++ ascii " does not match extension ABI "
          ++ decimal core_abi_v1)
      else if ltb api.struct_size api_size
      then err (ascii "runtime v1 API table is truncated")
      else ok api

  -- The four functions that must be there besides `create`.
  unfoldable pub is_incomplete : ApiV1 P → Bool
  is_incomplete api =
      is_none api.destroy || is_none api.start || is_none api.stop || is_none api.list

  abbrev pub passed : {A : Type 0} → Result (Unit {0}) → Returned P A → Result A × P
  passed (ok t) r = (ok r.value, r.core)
  passed (err e) r = (err e, r.core)

  -- `check_status(status, &error)?` on what a call left.
  unfoldable pub checked : {A : Type 0} → Returned P A → Result A × P
  unfolding check_status
  checked r = passed (check_status r.status (record { bytes = r.error; required = r.required })) r

  unfoldable pub created_of :
      Option (P → CreateOptionsV1 → Returned P Handle) → Bool → CreateOptionsV1 → Act P Handle
  unfolding checked
  created_of none incomplete options core = (err (ascii "runtime is missing create"), core)
  created_of (some create) true options core =
      (err (ascii "runtime v1 API table is incomplete"), core)
  created_of (some create) false options core = checked (create core options)

  unfoldable pub create_handle : ApiV1 P → ℕ → ℕ → Act P Handle
  unfolding is_incomplete created_of
  create_handle api info access =
      created_of api.create (is_incomplete api) (new_options info access 16)

-- `DynamicCore`, without the library and the file that it keeps alive.
pub record DynamicCore (P : Type 0) : Type 0 where
  pub api : ApiV1 P
  pub handle : Handle
  pub status_detail : Text

-- `DuckflightBytesV1::from_utf8`
unfoldable pub from_utf8 : Text → BytesV1
from_utf8 value = record { bytes = some value; len = length value }

module _ {P : Type 0} where
  unfoldable pub new_core : ApiV1 P → Text → Handle → Result (DynamicCore P)
  new_core api detail handle =
      if handle == 0
      then err (ascii "runtime created a null handle")
      else ok (record { api = api; handle = handle; status_detail = detail })

  -- `initialize`
  unfoldable pub initialize : Option (ApiV1 P) → ℕ → ℕ → Text → Act P (DynamicCore P)
  unfolding validate_api_table_header create_handle new_core
  initialize table info access detail = do
    api ← lift (validate_api_table_header table)
    handle ← create_handle api info access
    lift (new_core api detail handle)

  -- What `unwrap` of a function that `initialize` found does not reach.
  abbrev absent : {A : Type 0} → Act P A
  absent core = (err (ascii "called `Option::unwrap()` on a `None` value"), core)

  -- `unwrap` of a function of the table, its call, and `check_status(status, &error)?`.
  unfoldable pub call_of : {F A : Type 0} → Option F → (F → Returned P A) → Act P A
  unfolding checked
  call_of none call state = absent state
  call_of (some f) call state = checked (call f)

  unfoldable pub start_call : DynamicCore P → Protocol → Text → Text → Act P (List BytesV1)
  unfolding call_of abi_protocol from_utf8
  start_call core protocol address config_file state =
      call_of core.api.start
        (λ start.
          start state core.handle (abi_protocol protocol) (from_utf8 address)
            (from_utf8 config_file))
        state

  unfoldable pub stop_call : DynamicCore P → Protocol → Text → Act P (Option Bool)
  unfolding call_of abi_protocol from_utf8
  stop_call core protocol address state =
      call_of core.api.stop
        (λ stop. stop state core.handle (abi_protocol protocol) (from_utf8 address)) state

  unfoldable pub list_call : DynamicCore P → Act P (List (ℕ × BytesV1))
  unfolding call_of
  list_call core state = call_of core.api.list (λ list. list state core.handle) state

  -- `stopped` is false unless the core writes it.
  unfoldable pub stop_core : DynamicCore P → Protocol → Text → Act P Bool
  unfolding stop_call
  stop_core core protocol address = do
    stopped ← stop_call core protocol address
    pure (elim stopped [ none ↦ false | some stopped ↦ stopped ])

  -- `impl Drop for DynamicCore`
  unfoldable pub drop_core : DynamicCore P → P → P
  drop_core core state = elim core.api.destroy [
    | none ↦ state
    | some destroy ↦ destroy state core.handle
  ]

module _ {P : Type 0} (utf8_error : Text → Text) where
  unfoldable pub start_core : DynamicCore P → Protocol → Text → Text → Act P Text
  unfolding start_call receive
  start_core core protocol address config_file = do
    values ← start_call core protocol address config_file
    lift (receive utf8_error (err (ascii "runtime did not return a server address")) values)

  unfoldable pub list_servers : DynamicCore P → Act P (List (Text × Text))
  unfolding list_call visit
  list_servers core = do servers ← list_call core; lift (visit utf8_error (ok []) servers)

  -- `impl CoreRuntime for DynamicCore`
  unfoldable pub dynamic_core : DynamicCore P → CoreRuntime P
  unfolding start_core stop_core list_servers
  dynamic_core core = record {
    start = start_core core;
    stop = stop_core core;
    snapshots = list_servers core;
    status = record { loaded = true; detail = core.status_detail };
  }
