-- ===== src/Extension/Unavailable.antt =====
-- `UnavailableCore` of src/lib.rs behind the table functions: SQL in an extension that has found no core.
use duckflight_extension.Common.{
  ℕ, ◌<◌, true, false, List, [], ◌∷◌, none, inl, inr, ◌⊎◌, ◌≡◌, refl, arith,
}
use duckflight_extension.Abi.{Text, core_abi_v1}
use duckflight_extension.Extension.Results.{Result, ok, err}
use duckflight_extension.Extension.Protocols.{Protocol, parse}
use duckflight_extension.Extension.Platform.{
  TableFunction, serve, stop_server, server_list, core_status_table,
}
use duckflight_extension.Extension.Runtime.{CoreRuntime, unavailable, unavailable_core}
use duckflight_extension.Extension.Tables.{
  empty_chunk, text, boolean, number, has_nul, Chunk, list_init, serve_func, stop_func, list_func,
  list_bounds, chunk_bounds, status_func, status_rows, set_string, once,
}
use duckflight_extension.Extension.Vtab.{bind, init, func}
use duckflight_extension.Extension.Queries.{Query, fetched, fetch, fetch_all, query}

abbrev pub AllPositive : List ℕ → Type 0
AllPositive [] = Unit
AllPositive (capacity ∷ capacities) = (0 < capacity) × AllPositive capacities

-- Chunks without rows.
abbrev pub empties : List ℕ → List (Result Chunk)
empties [] = []
empties (capacity ∷ capacities) = ok (empty_chunk capacity) ∷ empties capacities

abbrev pub fails : Text → List ℕ → List (Result Chunk)
fails e [] = []
fails e (capacity ∷ capacities) = err e ∷ []

-- One row: not loaded, the version of the ABI, and why.
abbrev pub not_loaded : Text → ℕ → Chunk
not_loaded detail capacity = record {
  capacity = capacity;
  writes = boolean 0 0 false ∷ number 1 0 core_abi_v1 ∷ text 2 0 detail ∷ [];
  rows = 1;
}

abbrev pub tells : Text → List ℕ → List (Result Chunk)
tells detail [] = []
tells detail (capacity ∷ capacities) = ok (not_loaded detail capacity) ∷ empties capacities

abbrev pub stop_error : Text → Result Protocol → Text
stop_error detail (ok protocol) = unavailable detail
stop_error detail (err e) = e

-- The chunks that a query gets where there is no core.
unfoldable pub without_core : Text → (f : TableFunction) → (ℕ → Text) → List ℕ → List (Result Chunk)
without_core detail (serve protocol) parameter capacities = fails (unavailable detail) capacities
without_core detail stop_server parameter capacities =
    fails (stop_error detail (parse (parameter 0))) capacities
without_core detail server_list parameter capacities = empties capacities
without_core detail core_status_table parameter capacities = tells detail capacities

Result-cases : {A : Type 0} (r : Result A) → ((a : A) × (r ≡ ok a)) ⊎ ((e : Text) × (r ≡ err e))
Result-cases (ok a) = inl (a, refl)
Result-cases (err e) = inr (e, refl)

chunk_bounds-none : (offset capacity : ℕ) → chunk_bounds 0 offset capacity ≡ none
unfolding chunk_bounds
chunk_bounds-none offset capacity = ground arith

status_row :
    (nul_error : Text → Text) (detail : Text) (capacity : ℕ)
    → has_nul detail ≡ false
    → 0 < capacity
    → status_rows nul_error (record { loaded = false; detail = detail }) (empty_chunk capacity)
      ≡ ok (not_loaded detail capacity)
unfolding status_rows set_string
status_row nul_error detail capacity clean positive = ground arith

module _ {S : Type 0} (nul_error : Text → Text) (detail : Text) where
  no_core : CoreRuntime S
  no_core = unavailable_core detail

  -- A function that has produced its row produces no other.
  serve_once :
      (protocol : Protocol) (parameter : ℕ → Text) (capacities : List ℕ) (s : S)
      → fetch nul_error no_core
          (serve protocol)
          (bind (serve protocol) parameter)
          capacities
          false
          s
        ≡ (fails (unavailable detail) capacities, s)
  unfolding fetch func serve_func once no_core unavailable_core unavailable
  serve_once protocol parameter [] s = refl
  serve_once protocol parameter (capacity ∷ capacities) s = refl

  stop_once :
      (parameter : ℕ → Text) (capacities : List ℕ) (s : S)
      → fetch nul_error no_core stop_server (bind stop_server parameter) capacities false s
        ≡ (fails (stop_error detail (parse (parameter 0))) capacities, s)
  unfolding fetch func stop_func once no_core unavailable_core bind
  stop_once parameter [] s = refl
  stop_once parameter (capacity ∷ capacities) s = elim (Result-cases (parse (parameter 0))) [
    | inl (protocol, e) ↦ rw e refl
    | inr (x, e) ↦ rw e refl
  ]

  list_empty :
      (parameter : ℕ → Text) (capacities : List ℕ) (offset : ℕ) (s : S)
      → fetch nul_error no_core server_list
          (bind server_list parameter)
          capacities
          (record { snapshots = []; offset = offset })
          s
        ≡ (empties capacities, s)
  unfolding fetch func list_func list_bounds chunk_bounds
  list_empty parameter [] offset s = refl
  list_empty parameter (capacity ∷ capacities) offset s =
      rw (chunk_bounds-none offset capacity, list_empty parameter capacities _ s) refl

  status_done :
      (parameter : ℕ → Text) (capacities : List ℕ) (s : S)
      → fetch nul_error no_core core_status_table
          (bind core_status_table parameter)
          capacities
          true
          s
        ≡ (empties capacities, s)
  unfolding fetch func status_func once
  status_done parameter [] s = refl
  status_done parameter (capacity ∷ capacities) s = rw (status_done parameter capacities s) refl

  status_told :
      (parameter : ℕ → Text) (capacities : List ℕ) (s : S)
      → has_nul detail ≡ false
      → AllPositive capacities
      → fetch nul_error no_core core_status_table
          (bind core_status_table parameter)
          capacities
          false
          s
        ≡ (tells detail capacities, s)
  unfolding fetch func status_func once status_rows set_string no_core unavailable_core
  status_told parameter [] s clean positive = refl
  status_told parameter (capacity ∷ capacities) s clean positive =
      rw (status_row nul_error detail capacity clean positive.0, status_done parameter capacities s)
        refl

  answer_without_core :
      (f : TableFunction) (parameter : ℕ → Text) (capacities : List ℕ) (s : S)
      → has_nul detail ≡ false
      → AllPositive capacities
      → fetch_all nul_error no_core f (bind f parameter) capacities (init f no_core s)
        ≡ (fetched (without_core detail f parameter capacities), s)
  unfolding fetch_all init list_init without_core no_core unavailable_core
  answer_without_core (serve protocol) parameter capacities s clean positive =
      rw (serve_once protocol parameter capacities s) refl
  answer_without_core stop_server parameter capacities s clean positive =
      rw (stop_once parameter capacities s) refl
  answer_without_core server_list parameter capacities s clean positive =
      rw (list_empty parameter capacities 0 s) refl
  answer_without_core core_status_table parameter capacities s clean positive =
      rw (status_told parameter capacities s clean positive) refl

  -- Where no core was found, for a reason without a NUL byte, a query with chunks that have room leaves
  -- everything as it is: a start or a stop fails with that reason, if its protocol is known, and ends the query,
  -- there are no servers to list, and the status is one row that says that no core is loaded, and why.
  pub query-without_core :
      (q : Query) (s : S)
      → has_nul detail ≡ false
      → AllPositive q.capacities
      → query nul_error (unavailable_core detail) q s
        ≡ (fetched (without_core detail q.function q.parameter q.capacities), s)
  unfolding query no_core
  query-without_core q s clean positive =
      answer_without_core q.function q.parameter q.capacities s clean positive
