-- ===== src/Extension/Tables.antt =====
-- The table functions of src/lib.rs: `define_serve!`, `StopServer`, `ServerList` and
-- `CoreStatusTable`.
use duckflight_extension.Common.{
  ℕ, ◌+◌, ◌-◌, ◌^◌, ◌%◌, min, Bool, true, false, ◌||◌, Option, none, some, List, [], ◌∷◌, ◌++◌, leb,
  ◌==◌, if◌then◌else◌, length, take, drop,
}
use duckflight_extension.Abi.{Text, core_abi_v1}
use duckflight_extension.Extension.Utf8.{ascii, decimal}
use duckflight_extension.Extension.Results.{Result, ok, err, Act, ◌>>=◌, pure, lift}
use duckflight_extension.Extension.Protocols.{Protocol, as_str, parse}
use duckflight_extension.Extension.Runtime.{CoreRuntime, CoreStatus}

-- A write into an output vector: `vector.insert`, and the assignments through `as_mut_slice`.
pub data Write : Type 0 where
  text : ℕ → ℕ → Text → Write
  boolean : ℕ → ℕ → Bool → Write
  number : ℕ → ℕ → ℕ → Write

-- `DataChunkHandle`: the capacity of its vectors, what is written, and the number of rows.
pub record Chunk : Type 0 where
  pub capacity : ℕ
  pub writes : List Write
  pub rows : ℕ

-- A chunk as DuckDB hands it over.
abbrev pub empty_chunk : ℕ → Chunk
empty_chunk capacity = record { capacity = capacity; writes = []; rows = 0 }

-- `CString::new` fails on a NUL byte.
unfoldable pub has_nul : Text → Bool
has_nul [] = false
has_nul (b ∷ bs) = (b == 0) || has_nul bs

abbrev pub wrote : Chunk → Write → Chunk
wrote chunk w = record {
  capacity = chunk.capacity;
  writes = chunk.writes ++ w ∷ [];
  rows = chunk.rows;
}

-- `output.set_len`
abbrev pub set_len : ℕ → Chunk → Chunk
set_len n chunk = record { capacity = chunk.capacity; writes = chunk.writes; rows = n }

-- `nul_error` is the text of the standard library's `NulError` for bytes that hold a NUL.
module _ (nul_error : Text → Text) where
  unfoldable pub set_string : ℕ → ℕ → Text → Chunk → Result Chunk
  unfolding has_nul
  set_string column row value chunk =
      if leb chunk.capacity row
      then err (
          ascii "DuckFlight attempted to write row "
          ++ decimal row
          ++ ascii " beyond output vector capacity "
          ++ decimal chunk.capacity)
      else if has_nul value
      then err (nul_error value)
      else ok (wrote chunk (text column row value))

-- The integers of `usize` on a 64-bit platform are below this.
abbrev pub usize_size : ℕ
usize_size = 2 ^ 64

-- `start.saturating_add(capacity).min(total)`
unfoldable pub chunk_bounds : ℕ → ℕ → ℕ → Option (ℕ × ℕ)
chunk_bounds total start capacity =
    if leb total start || (capacity == 0)
    then none
    else some (start, min (min (start + capacity) (usize_size - 1)) total)

pub record ServerListInit : Type 0 where
  pub snapshots : List (Text × Text)
  pub offset : ℕ

-- `fetch_add`, which wraps.
abbrev pub advance : ℕ → ServerListInit → ServerListInit
advance n scan = record { snapshots = scan.snapshots; offset = (scan.offset + n) % usize_size }

abbrev pub and_then : Result Chunk → (Chunk → Result Chunk) → Result Chunk
and_then (ok chunk) k = k chunk
and_then (err e) k = err e

abbrev pub then_len : ℕ → Result Chunk → Result Chunk
then_len n (ok chunk) = ok (set_len n chunk)
then_len n (err e) = err e

module _ (nul_error : Text → Text) where
  unfoldable pub set_row : ℕ → Text × Text → Chunk → Result Chunk
  unfolding set_string
  set_row row (protocol, address) chunk =
      and_then (set_string nul_error 0 row protocol chunk) (set_string nul_error 1 row address)

  -- The loop over `init.snapshots[bounds.clone()].iter().enumerate()`, from row `row`.
  unfoldable pub set_rows : ℕ → List (Text × Text) → Chunk → Result Chunk
  set_rows row [] chunk = ok chunk
  set_rows row (server ∷ servers) chunk =
      and_then (set_row row server chunk) (set_rows (row + 1) servers)

  unfoldable pub list_bounds : List (Text × Text) → Chunk → Option (ℕ × ℕ) → Result Chunk
  unfolding set_rows
  list_bounds snapshots output none = ok (set_len 0 output)
  list_bounds snapshots output (some (start, end_)) =
      then_len (end_ - start) (set_rows 0 (take (end_ - start) (drop start snapshots)) output)

  -- `ServerList::func`
  unfoldable pub list_func : ServerListInit → Chunk → Result Chunk × ServerListInit
  unfolding chunk_bounds list_bounds
  list_func scan output = (
    list_bounds scan.snapshots output
        (chunk_bounds (length scan.snapshots) scan.offset output.capacity),
    advance output.capacity scan,
  )

  -- `CoreStatusTable::func` from the core's status on. Without room for a row the assignment to the slice panics
  -- before anything is written, which is an error here, with the text of the panic.
  unfoldable pub status_rows : CoreStatus → Chunk → Result Chunk
  unfolding set_string
  status_rows status output =
      if output.capacity == 0
      then err (ascii "index out of bounds: the len is 0 but the index is 0")
      else then_len 1 (
          set_string nul_error 2 0 status.detail
            (wrote (wrote output (boolean 0 0 status.loaded)) (number 1 0 core_abi_v1)))

  unfoldable pub serve_row : Protocol → Text → Chunk → Result Chunk
  unfolding set_row set_rows set_string
  serve_row protocol address output = then_len 1 (set_row 0 (as_str protocol, address) output)

unfoldable pub stop_text : Protocol → Text → Bool → Text
stop_text protocol address true =
    ascii "stopped " ++ as_str protocol ++ ascii " server on " ++ address
stop_text protocol address false = ascii "no " ++ as_str protocol ++ ascii " server on " ++ address

module _ {S : Type 0} where
  -- `ServerList::init`
  unfoldable pub list_init : CoreRuntime S → Act S ServerListInit
  list_init core = do
    snapshots ← core.snapshots
    pure (record { snapshots = snapshots; offset = 0 })

module _ {S : Type 0} (nul_error : Text → Text) where
  -- The functions that produce one row, once: `done` is the flag of `EmitOnce`.
  unfoldable pub once : Bool → Chunk → Act S Chunk → S → Result Chunk × S × Bool
  once true output body s = (ok (set_len 0 output), s, true)
  once false output body s = let (result, s') = body s in (result, s', true)

  -- `func` of `define_serve!`
  unfoldable pub serve_func :
      CoreRuntime S → Protocol → Text → Text → Bool → Chunk → S → Result Chunk × S × Bool
  unfolding once serve_row
  serve_func core protocol address config_file done output = once done output (do
    bound ← core.start protocol address config_file
    lift (serve_row nul_error protocol bound output))

  -- `StopServer::func`
  unfoldable pub stop_func :
      CoreRuntime S → Text → Text → Bool → Chunk → S → Result Chunk × S × Bool
  unfolding once set_string stop_text parse
  stop_func core name address done output = once done output (do
    protocol ← lift (parse name)
    stopped ← core.stop protocol address
    lift (then_len 1 (set_string nul_error 0 0 (stop_text protocol address stopped) output)))

  unfoldable pub status_func : CoreRuntime S → Bool → Chunk → S → Result Chunk × S × Bool
  unfolding once status_rows
  status_func core done output = once done output (lift (status_rows nul_error core.status output))
