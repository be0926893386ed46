-- ===== src/MockCore.antt =====
-- test/mock_core/src/lib.rs: a core that keeps the servers it was asked to start in a list.
pub mod Registry
pub mod Encoding
pub mod Calls
pub mod Refinement
pub mod Wanted
pub mod Stopped
pub mod Examples
use duckflight_extension.Common.{
  ℕ, ◌+◌, ◌-◌, Bool, true, false, not, ◌&&◌, ◌||◌, Option, none, some, List, [], ◌∷◌, ◌++◌, ltb,
  ◌==◌, if◌then◌else◌, length, take, drop,
}
use duckflight_extension.Abi.{
  Text, I32, pos, ok_status, internal, pgwire, flight_sql, http, quack, core_abi_v1, api_size,
  create_options_size, BytesV1, CreateOptionsV1, Returned, Handle, ApiV1,
}
use duckflight_extension.Extension.Utf8.{ascii, is_utf8, decimal}
use duckflight_extension.Extension.Results.{Result, ok, err, Act, ◌>>=◌, ◌>>◌, pure, lift}
use duckflight_extension.Extension.Protocols.{same}
use duckflight_extension.Extension.Core.{error_capacity, ErrorBuffer, from_utf8}

abbrev pub Servers : Type 0
Servers = List (ℕ × Text)

-- The cores by their handles. `next` is where the next one is allocated.
pub record Heap : Type 0 where
  pub next : ℕ
  pub cores : Handle → Option Servers

abbrev pub store : Handle → Option Servers → Heap → Heap
store handle core heap = record heap {
  cores = λ other. if other == handle then core else heap.cores other;
}

-- `utf8_error` is the text of the standard library's `Utf8Error` for bytes that are not UTF-8.
module _ (utf8_error : Text → Text) where
  unfoldable pub borrowed_text : Text → Text → Result Text
  borrowed_text bytes name =
      if is_utf8 bytes
      then ok bytes
      else err (name ++ ascii " is not valid UTF-8: " ++ utf8_error bytes)

  unfoldable pub borrowed_str : BytesV1 → Text → Result Text
  unfolding borrowed_text
  borrowed_str value name = if value.len == 0 then ok [] else elim value.bytes [
    | none ↦ err (name ++ ascii " pointer is null with non-zero length")
    | some bytes ↦ borrowed_text (take value.len bytes) name
  ]

-- The buffer of the caller has `error_capacity` bytes.
unfoldable pub write_output : Text → ErrorBuffer
write_output value = record {
  bytes = if ltb error_capacity (length value) then [] else value;
  required = length value;
}

module _ {A : Type 0} where
  -- `report_error`, with what the caller's variable holds then.
  unfoldable pub reported_error : I32 → Text → A → Heap → Returned Heap A
  unfolding write_output
  reported_error status text unset heap = record {
    core = heap;
    status = status;
    error = (write_output text).bytes;
    required = (write_output text).required;
    value = unset;
  }

  abbrev pub succeeded : A → Heap → Returned Heap A
  succeeded value heap = record {
    core = heap;
    status = ok_status;
    error = [];
    required = 0;
    value = value;
  }

  -- `with_error_boundary`: no operation panics.
  unfoldable pub error_boundary : A → Result A × Heap → Returned Heap A
  unfolding reported_error
  error_boundary unset (ok value, heap) = succeeded value heap
  error_boundary unset (err text, heap) = reported_error internal text unset heap

-- What a use of a handle that has been destroyed does is not defined; here it is an error.
unfoldable pub handle_ref : Handle → Act Heap Servers
handle_ref handle heap =
    if handle == 0
    then (err (ascii "mock core handle is null"), heap)
    else elim (heap.cores handle) [ none ↦ (err [], heap) | some servers ↦ (ok servers, heap) ]

unfoldable pub validate_protocol : ℕ → Result (Unit {0})
validate_protocol protocol =
    if (protocol == pgwire) || (protocol == flight_sql) || (protocol == http) || (protocol == quack)
    then ok tt
    else err (ascii "unsupported protocol value " ++ decimal protocol)

-- `address.ends_with(":0")`
abbrev pub any_port : Text → Bool
any_port address = same (drop (length address - 2) address) (ascii ":0")

unfoldable pub bound_address : ℕ → Text → Text
bound_address protocol address =
    if any_port address
    then (if protocol == pgwire
        then ascii "127.0.0.1:15432"
        else if protocol == flight_sql
        then ascii "127.0.0.1:15051"
        else if protocol == http
        then ascii "127.0.0.1:18080"
        else ascii "127.0.0.1:18081")
    else address

-- `retain` of all servers but this one.
unfoldable pub retain_others : ℕ → Text → Servers → Servers
retain_others protocol address [] = []
retain_others protocol address ((protocol', address') ∷ servers) =
    let rest = retain_others protocol address servers in
    if (protocol' == protocol) && same address' address then rest else (protocol', address') ∷ rest

-- The calls of the visitor, which refuses no server that this core keeps.
unfoldable pub passed_to_visitor : Servers → List (ℕ × BytesV1)
unfolding from_utf8
passed_to_visitor [] = []
passed_to_visitor ((protocol, address) ∷ servers) =
    (protocol, from_utf8 address) ∷ passed_to_visitor servers

abbrev save : Handle → Servers → Act Heap (Unit {0})
save handle servers heap = (ok tt, store handle (some servers) heap)

unfoldable pub create : Heap → CreateOptionsV1 → Returned Heap Handle
unfolding reported_error
create heap options =
    if ltb options.struct_size create_options_size
    then reported_error (pos 2)
        (ascii "create options are smaller than DuckflightCoreCreateOptionsV1") 0 heap
    else if not (options.abi_version == core_abi_v1)
    then reported_error (pos 2)
        (ascii "unsupported DuckFlight core ABI "
          ++ decimal options.abi_version
          ++ ascii "; expected "
          ++ decimal core_abi_v1)
        0 heap
    else succeeded heap.next (record (store heap.next (some []) heap) { next = heap.next + 1 })

unfoldable pub destroy : Heap → Handle → Heap
destroy heap handle = if handle == 0 then heap else store handle none heap

module _ (utf8_error : Text → Text) where
  -- The receiver of the extension accepts every text.
  unfoldable pub start : Heap → Handle → ℕ → BytesV1 → BytesV1 → Returned Heap (List BytesV1)
  unfolding handle_ref validate_protocol borrowed_str bound_address retain_others error_boundary
      from_utf8
  start heap handle protocol address config_file = error_boundary [] (
      (do
        servers ← handle_ref handle
        lift (validate_protocol protocol)
        address ← lift (borrowed_str utf8_error address (ascii "address"))
        _ ← lift (borrowed_str utf8_error config_file (ascii "config_file"))
        save handle (
            retain_others protocol (bound_address protocol address) servers
            ++ (protocol, bound_address protocol address) ∷ [])
        pure (from_utf8 (bound_address protocol address) ∷ []))
        heap)

  unfoldable pub stop : Heap → Handle → ℕ → BytesV1 → Returned Heap (Option Bool)
  unfolding handle_ref validate_protocol borrowed_str retain_others error_boundary
  stop heap handle protocol address = error_boundary none (
      (do
        servers ← handle_ref handle
        lift (validate_protocol protocol)
        address ← lift (borrowed_str utf8_error address (ascii "address"))
        save handle (retain_others protocol address servers)
        pure (some (not (length (retain_others protocol address servers) == length servers))))
        heap)

  unfoldable pub list : Heap → Handle → Returned Heap (List (ℕ × BytesV1))
  unfolding handle_ref error_boundary passed_to_visitor
  list heap handle =
      error_boundary [] ((do servers ← handle_ref handle; pure (passed_to_visitor servers)) heap)

  -- `API_V1`
  unfoldable pub mock_api : ApiV1 Heap
  unfolding create destroy start stop list
  mock_api = record {
    struct_size = api_size;
    abi_version = core_abi_v1;
    create = some create;
    destroy = some destroy;
    start = some start;
    stop = some stop;
    list = some list;
  }
