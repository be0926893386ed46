-- ===== src/Extension/Examples.antt =====
-- The theorems on src/lib.rs and src/dynamic_core.rs at concrete inputs.
pub mod Platforms
pub mod Tables
use duckflight_extension.Common.{
  ℕ, ◌+◌, ◌≡◌, refl, ◌↔◌, true, false, some, List, [], ◌∷◌, arith, concat, pages,
}
use duckflight_extension.Abi.{Returned, pos, BytesV1, ApiV1, new_options}
use duckflight_extension.Extension.Utf8.{ascii, is_utf8}
use duckflight_extension.Extension.Results.{ok, err}
use duckflight_extension.Extension.Protocols.{
  Protocol, http_protocol, abi_protocol, as_str, protocol_name,
}
use duckflight_extension.Extension.Runtime.{CoreRuntime}
use duckflight_extension.Extension.Core.{
  DynamicCore, from_utf8, start_core, initialize, visit, check_status,
}
use duckflight_extension.Extension.Tables.{has_nul, serve_func}
use duckflight_extension.Extension.Loading.{IsLoaded, initialize-IsLoaded}
use duckflight_extension.Extension.Names.{protocol_name-abi_protocol}
use duckflight_extension.Extension.Diagnostics.{report_error, diagnosis, check_status-report_error}
use duckflight_extension.Extension.Listing.{Server, are_clean, scan, shown, scan-pages}
use duckflight_extension.Extension.Starting.{answer, start_core-answer}
use duckflight_extension.Extension.Servers.{Named, visit-Named}
use duckflight_extension.Extension.Serving.{calls, no_rows, started, calls-serve_func}

protocol_name-abi_protocol_example :
    (protocol_name 2 ≡ ok (ascii "flight"))
    ↔ ((p : Protocol) × (abi_protocol p ≡ 2) × (as_str p ≡ ascii "flight"))
protocol_name-abi_protocol_example = protocol_name-abi_protocol 2 (ascii "flight")

check_status-report_error_example :
    check_status (pos 5) (report_error (ascii "cannot bind") [])
    ≡ err (diagnosis (pos 5) (ascii "cannot bind"))
unfolding is_utf8
check_status-report_error_example =
    check_status-report_error (pos 5) (ascii "cannot bind") [] refl refl

abbrev two_servers : List Server
two_servers = (ascii "http", ascii "127.0.0.1:80") ∷ (ascii "quack", ascii "127.0.0.1:81") ∷ []

scan-pages_example :
    (scan (λ t. t) 3 1 (record { snapshots = two_servers; offset = 0 })
      ≡ shown 1 (pages 3 1 two_servers))
    × (concat (pages 3 1 two_servers) ≡ two_servers)
unfolding are_clean has_nul
scan-pages_example =
    scan-pages (λ t. t) 3 1 two_servers refl (omega arith) (omega arith) (omega arith)

abbrev bytes_of_http : BytesV1
bytes_of_http = record { bytes = some (ascii "127.0.0.1:80"); len = 12 }

visit-Named_example :
    (visit (λ t. t) (ok []) ((3, bytes_of_http) ∷ [])
      ≡ ok ((ascii "http", ascii "127.0.0.1:80") ∷ []))
    ↔ Named (λ t. t) ((3, bytes_of_http) ∷ []) ((ascii "http", ascii "127.0.0.1:80") ∷ [])
visit-Named_example =
    visit-Named (λ t. t) ((3, bytes_of_http) ∷ []) ((ascii "http", ascii "127.0.0.1:80") ∷ [])

-- A core that counts the calls of `start`.
abbrev counting_core : CoreRuntime ℕ
counting_core = record {
  start = λ protocol address config_file count. (ok address, count + 1);
  stop = λ protocol address count. (ok false, count);
  snapshots = λ count. (ok [], count);
  status = record { loaded = true; detail = ascii "counting" };
}

calls-serve_func_example :
    calls (serve_func (λ t. t) counting_core http_protocol (ascii "127.0.0.1:80") []) 3 4 false 0
    ≡ (started (λ t. t) http_protocol (ok (ascii "127.0.0.1:80")) 4 ∷ no_rows 2 4, 1)
calls-serve_func_example =
    calls-serve_func (λ t. t) counting_core http_protocol (ascii "127.0.0.1:80") [] 2 4 0

abbrev mock_table : ApiV1 ℕ
mock_table = record {
  struct_size = 48;
  abi_version = 1;
  create = some (λ core options. record {
    core = core + 1;
    status = pos 0;
    error = [];
    required = 0;
    value = 7;
  });
  destroy = some (λ core handle. core);
  start = some (λ core handle protocol address config_file. record {
    core = core;
    status = pos 0;
    error = [];
    required = 0;
    value = address ∷ [];
  });
  stop = some (λ core handle protocol address. record {
    core = core;
    status = pos 0;
    error = [];
    required = 0;
    value = some true;
  });
  list =
      some (λ core handle. record {
        core = core;
        status = pos 0;
        error = [];
        required = 0;
        value = [];
      });
}

abbrev mock_core : DynamicCore ℕ
mock_core = record { api = mock_table; handle = 7; status_detail = ascii "external core loaded" }

initialize-IsLoaded_example : IsLoaded (some mock_table) (new_options 1 2 16) 0 mock_core
unfolding initialize
initialize-IsLoaded_example =
    initialize-IsLoaded (some mock_table) 1 2 (ascii "external core loaded") 0 mock_core refl

abbrev started_server : Returned ℕ (List BytesV1)
started_server = record {
  core = 5;
  status = pos 0;
  error = [];
  required = 0;
  value = from_utf8 (ascii "127.0.0.1:80") ∷ [];
}

start_core-answer_example :
    start_core (λ t. t) mock_core http_protocol (ascii "127.0.0.1:80") [] 5
    ≡ (answer (λ t. t) started_server, 5)
start_core-answer_example =
    start_core-answer (λ t. t) mock_core http_protocol (ascii "127.0.0.1:80") [] 5 refl
