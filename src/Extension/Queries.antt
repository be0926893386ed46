-- ===== src/Extension/Queries.antt =====
-- Queries of DuckDB on the table functions of src/lib.rs: for each, `bind`, `init` and then calls of `func`
-- until one fails or DuckDB asks for no more chunks.
use duckflight_extension.Common.{ℕ, List, [], ◌∷◌}
use duckflight_extension.Abi.{Text}
use duckflight_extension.Extension.Results.{Result, ok, err}
use duckflight_extension.Extension.Platform.{TableFunction}
use duckflight_extension.Extension.Runtime.{CoreRuntime}
use duckflight_extension.Extension.Tables.{empty_chunk, Chunk}
use duckflight_extension.Extension.Vtab.{BindData, InitData, bind, init, func}

-- The texts of the parameters, and the capacity of the chunk that each call of `func` gets.
pub record Query : Type 0 where
  pub function : TableFunction
  pub parameter : ℕ → Text
  pub capacities : List ℕ

-- What DuckDB gets: the error of `init`, or what the calls of `func` returned.
pub data Answer : Type 0 where
  refused : Text → Answer
  fetched : List (Result Chunk) → Answer

-- An error ends the query.
abbrev pub then_rest :
    {S : Type 0} → Result Chunk → S → List (Result Chunk) × S → List (Result Chunk) × S
then_rest (ok chunk) s (chunks, s') = (ok chunk ∷ chunks, s')
then_rest (err e) s rest = (err e ∷ [], s)

module _ {S : Type 0} (nul_error : Text → Text) (core : CoreRuntime S) where
  unfoldable pub fetch :
      (f : TableFunction) → BindData f → List ℕ → InitData f → S → List (Result Chunk) × S
  fetch f bound [] scan s = ([], s)
  fetch f bound (capacity ∷ capacities) scan s =
      let (result, s', scan') = func nul_error f core bound scan (empty_chunk capacity) s in
      then_rest result s' (fetch f bound capacities scan' s')

  unfoldable pub fetch_all :
      (f : TableFunction) → BindData f → List ℕ → Result (InitData f) × S → Answer × S
  unfolding fetch
  fetch_all f bound capacities (ok scan, s) =
      let (chunks, s') = fetch f bound capacities scan s in (fetched chunks, s')
  fetch_all f bound capacities (err e, s) = (refused e, s)

  unfoldable pub query : Query → S → Answer × S
  unfolding fetch_all
  query q s =
      fetch_all q.function (bind q.function q.parameter) q.capacities (init q.function core s)
