-- ===== src/MockCore/Stopped.antt =====
-- What `duckflight_stop` of src/lib.rs tells on the mock core of test/mock_core/src/lib.rs.
use duckflight_extension.Common.{
  ℕ, Bool, true, false, List, [], ◌∷◌, ◌++◌, ◌==◌, ◌≢◌, if◌then◌else◌,
}
use duckflight_extension.Abi.{Text}
use duckflight_extension.Extension.Utf8.{ascii}
use duckflight_extension.Extension.Results.{ok}
use duckflight_extension.Extension.Protocols.{
  Protocol, pg_wire_protocol, flight_sql_protocol, http_protocol, quack_protocol,
}
use duckflight_extension.Extension.Platform.{stop_server}
use duckflight_extension.Extension.Core.{DynamicCore}
use duckflight_extension.Extension.Tables.{text}
use duckflight_extension.Extension.Queries.{Query, Answer, fetched}
use duckflight_extension.Extension.Unavailable.{empties}
use duckflight_extension.MockCore.{Heap}
use duckflight_extension.MockCore.Registry.{Command}
use duckflight_extension.MockCore.Refinement.{loaded}

-- The names of the protocols in SQL, one of each.
abbrev pub sql_name : Protocol → Text
sql_name pg_wire_protocol = ascii "postgres"
sql_name flight_sql_protocol = ascii "flight"
sql_name http_protocol = ascii "http"
sql_name quack_protocol = ascii "quack"

-- `duckflight_stop(name, address)`
abbrev pub stop_query : Protocol → Text → List ℕ → Query
stop_query p address capacities = record {
  function = stop_server;
  parameter = λ n. if n == 0 then sql_name p else address;
  capacities = capacities;
}

-- The message for a server that ran, and for one that did not.
abbrev pub told : Protocol → Text → Bool → Text
told pg_wire_protocol address true = ascii "stopped pgwire server on " ++ address
told flight_sql_protocol address true = ascii "stopped flight server on " ++ address
told http_protocol address true = ascii "stopped http server on " ++ address
told quack_protocol address true = ascii "stopped quack server on " ++ address
told pg_wire_protocol address false = ascii "no pgwire server on " ++ address
told flight_sql_protocol address false = ascii "no flight server on " ++ address
told http_protocol address false = ascii "no http server on " ++ address
told quack_protocol address false = ascii "no quack server on " ++ address

-- The chunks of a query that has this text as its only row.
abbrev pub tells : Text → ℕ → List ℕ → Answer
tells message capacity capacities = fetched (
    ok (record { capacity = capacity; writes = text 0 0 message ∷ []; rows = 1 })
    ∷ empties capacities)

module _ (utf8_error : Text → Text) (detail : Text) (info access : ℕ) (heap : Heap)
    (free : heap.next ≢ 0) (commands : List Command) where
  abbrev code : DynamicCore Heap
  code = loaded heap.next free utf8_error detail
