-- ===== src/Extension/Examples/Tables.antt =====
-- The theorems on the table functions of src/lib.rs at concrete inputs.
use duckflight_extension.Common.{ℕ, ◌+◌, ◌≡◌, refl, [], ◌∷◌, false, true, arith}
use duckflight_extension.Extension.Utf8.{ascii}
use duckflight_extension.Extension.Results.{ok}
use duckflight_extension.Extension.Protocols.{http_protocol, as_str}
use duckflight_extension.Extension.Platform.{serve, stop_server}
use duckflight_extension.Extension.Runtime.{CoreRuntime, unavailable_core}
use duckflight_extension.Extension.Tables.{text, Chunk, has_nul}
use duckflight_extension.Extension.Queries.{Query, fetched, query}
use duckflight_extension.Extension.Unavailable.{without_core, query-without_core}
use duckflight_extension.Extension.Vtab.{result_columns, bind, func}
use duckflight_extension.Extension.Vtab.Columns.{Fits}
use duckflight_extension.Extension.Vtab.Rows.{func-Fits}

-- A core that starts every server where it is asked to.
abbrev willing_core : CoreRuntime ℕ
willing_core = record {
  start = λ protocol address config_file count. (ok address, count + 1);
  stop = λ protocol address count. (ok false, count);
  snapshots = λ count. (ok [], count);
  status = record { loaded = true; detail = ascii "willing" };
}

abbrev one_server : Chunk
one_server = record {
  capacity = 4;
  writes = text 0 0 (ascii "http") ∷ text 1 0 (ascii "127.0.0.1:80") ∷ [];
  rows = 1;
}

func-Fits_example : Fits (result_columns (serve http_protocol)) one_server
unfolding func bind as_str
func-Fits_example =
    func-Fits (λ t. t) (serve http_protocol) willing_core
      (bind (serve http_protocol) (λ n. ascii "127.0.0.1:80")) false 4 0 one_server (omega arith)
      refl

stop_query : Query
stop_query = record {
  function = stop_server;
  parameter = λ n. ascii "http";
  capacities = 2048 ∷ 2048 ∷ [];
}

query-without_core_example :
    query {S = ℕ} (λ t. t) (unavailable_core (ascii "not configured")) stop_query 0 ≡ (
      fetched (
          without_core
            (ascii "not configured")
            stop_query.function
            stop_query.parameter
            stop_query.capacities),
      0,
    )
unfolding has_nul stop_query
query-without_core_example =
    query-without_core (λ t. t) (ascii "not configured") stop_query 0 refl
      (omega arith, (omega arith, tt))
