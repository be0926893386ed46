-- ===== src/Extension/Runtime.antt =====
-- `CoreStatus`, `CoreRuntime`, `UnavailableCore` and `ExtensionState` of src/lib.rs.
use duckflight_extension.Common.{Bool, false, List, [], ◌++◌}
use duckflight_extension.Abi.{Text}
use duckflight_extension.Extension.Utf8.{ascii}
use duckflight_extension.Extension.Results.{err, Act, pure, lift}
use duckflight_extension.Extension.Protocols.{Protocol}

pub record CoreStatus : Type 0 where
  pub loaded : Bool
  pub detail : Text

-- The trait `CoreRuntime`, over the state `S` of the core's own library.
pub record CoreRuntime (S : Type 0) : Type 0 where
  pub start : Protocol → Text → Text → Act S Text
  pub stop : Protocol → Text → Act S Bool
  pub snapshots : Act S (List (Text × Text))
  pub status : CoreStatus

unfoldable pub unavailable : Text → Text
unavailable detail = ascii "DuckFlight core runtime is unavailable: " ++ detail

-- `UnavailableCore`, whose only field is `detail`.
unfoldable pub unavailable_core : {S : Type 0} → Text → CoreRuntime S
unfolding unavailable
unavailable_core detail = record {
  start = λ protocol address config_file. lift (err (unavailable detail));
  stop = λ protocol address. lift (err (unavailable detail));
  snapshots = pure [];
  status = record { loaded = false; detail = detail };
}
