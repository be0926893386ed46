-- ===== src/Lib.antt =====
-- DuckFlight: a DuckDB extension that serves a database over several protocols by a separately built
-- core runtime, and a small proxy that starts the one worker of a Kubernetes Deployment when a client
-- connects and puts it to sleep when it has been idle.
--
-- Proxy models crates/duckflight-idle-proxy/src/main.rs.
--   Proxy/Json, Proxy/Text: the parts of serde_json::Value and of str that it uses.
--   Proxy/World: requests, the log of events, and the environment that answers. An answer may depend on
--     the whole log, so a theorem for every environment covers every API server, worker and clock.
--   Proxy/Config, Proxy/Kubernetes, Proxy/Backend: Config::from_env, the methods of Kubernetes and of
--     Backend, and fn ready, with the URL, the client and the token of each request.
--   Config/Settings: the environments that say a configuration in decimal, as Text/Decimal writes numbers.
--     Config/Bounds: the numbers that are accepted.
--   Proxy/Controller: new, current, fence, scale and ready_backend of Controller. Controller/Wake has
--     wake, Controller/Idle has idle_tick and the task of main that calls it.
--   Proxy/Ready: worker_ready, the readiness probe of a worker. Ready/Probed: when it succeeds.
--   Proxy/Sessions: the two critical sections of proxy_connection and the idle task as a step relation
--     on the controller behind its lock and the number of tasks between their two sections, and the whole
--     of proxy_connection; Sessions/Connection relates the two.
--   Proxy/Main: main with its listeners, the bounded channel, the tasks and the termination signal, as steps.
--     Main/Runs: what these have to do with the steps of Sessions. Main/Drain: after the signal.
--   Proxy/Hoare, Proxy/Frame and the modules named Requests, Writes, Keeps, Sleep, Intervals, Ticks and
--     Start: what the methods keep, by rules for pre- and postconditions with an error path.
--   Controller/Found: what a listing and an answer show of the worker that wake returns. Wake/Awake: what
--     wake has seen last. Proxy/Ends, Wake/Parts and Wake/Ends: when the loop of wake ends.
--   Proxy/Evidence: what the log has to show before a request may be sent. Proxy/Safety: the theorems.
--   Proxy/ApiServer: what the proxy relies on, the optimistic concurrency of the API server, as the histories
--     that fit a log. ApiServer/Tracked and Delayed: about the writes that got no answer.
--   Proxy/Scenarios: runs in a concrete environment, and in Scenarios/Lossy one that loses a write.
--     Scenarios/Examples: the theorems at these runs. Scenarios/Draining: a run of main. Scenarios/Configured: an
--     environment for from_env.
--
-- Abi models crates/duckflight-extension-abi/src/lib.rs, the C ABI between the extension and the core.
--   The functions of the API table work on the core's own state, which is a type parameter; a callback is
--   modelled by the values that the core passes to it, in order.
-- Extension models src/lib.rs, src/dynamic_core.rs and build.rs. Texts are UTF-8 bytes.
--   Extension/Utf8: what the two use of the standard library's texts.
--   Extension/Results: Result with the text of a boxed error, beside the state of the core.
--   Extension/Protocols: Protocol, abi_protocol and protocol_name. Extension/Runtime: the trait CoreRuntime
--     and UnavailableCore. Extension/Core: ErrorBuffer, check_status, borrowed_string and DynamicCore.
--   Extension/Platform: what the system, the dynamic loader and DuckDB answer; every call is logged and its
--     answer may depend on the log. Extension/Bundle: prepare_bundle, load_bundle, load, load_bundled and
--     Drop, with the order in which Rust drops the locals of a function that fails. Extension/Entry:
--     register_extension and duckflight_init_c_api, with what is dropped when it returns: the core if no table
--     holds it, and then the connection. Extension/Build: build.rs.
--   Extension/Tables: the functions that DuckDB calls for each chunk of a table. A chunk is the list of
--     the writes into its vectors, with their capacity and the number of rows.
--   Extension/Vtab: the four implementations of VTab as DuckDB sees them, with what bind declares. Its
--     Columns, Written and Rows: the columns of the chunks.
--   Extension/Names, Diagnostics, Loading, Starting, Servers, Serving, Listing, Unavailable, Bundle/Logs, Files,
--     Sealing and Untabled, Entry/Installs, Registered, Registering and Released, Build/Bundles: the
--     theorems, by what they are about; Extension/Hoare has rules for some. Extension/Examples and
--     Entry/Refused: the theorems at concrete inputs.
--   Extension/Queries: a query of DuckDB as the calls of bind, init and func. Extension/Simulation: when one core
--     behaves as another.
-- MockCore models test/mock_core/src/lib.rs, a provider of the table for tests. Its Registry is the
--   abstract runtime, a list of the running servers; Encoding, Calls and Refinement relate the two through
--   DynamicCore, Wanted is about what is listed, and Stopped about duckflight_stop. MockCore/Examples: the
--   theorems at concrete inputs.
-- Common: the names that all share, lists measured by native numbers, and a list cut into pages.
--
-- Bounds and fuel: durations and instants are milliseconds as natural numbers, as are the counts of
-- connections. The loop of wake takes fuel; the steps allow any fuel, and running out of it is an error
-- like any other of wake, so the theorems hold for runs cut short too. Each round of wake sleeps for half a
-- second and the loop stops at the deadline, so a round for each half second of the cold start timeout and
-- one more is enough fuel.
--
-- Panics are not modelled, but for those of build.rs. One that matters: wake adds the cold start timeout to
-- an Instant (crates/duckflight-idle-proxy/src/main.rs:340), which panics when the sum does not fit the system's
-- clock, as with timeouts near the largest that from_env accepts; the connection has then been counted
-- and is never uncounted. The deadline here is a sum of natural numbers, so what is said of wake and of the
-- counts is about timeouts for which the sum fits. Another, the assignment to the slices of a status chunk
-- without room for a row, is an error here, with the text of the panic.
--
-- Peers: the clients and the workers decide when a connection goes on or ends, as the program has no timeout for
-- one that is established. In Proxy/Main the steps of the tasks are enabled at any time for that reason, and
-- no theorem says that one is ever taken, so none says that the program ends.
--
-- Aborts: a task that is aborted ends at the request whose answer it waits for. In the program this happens to
-- an idle check when the termination signal comes; the model allows it at any request, so that the theorems
-- hold for it too. Scenarios/Aborted runs such a check. Listeners that are aborted take no further step: the
-- poll that the runtime lets one finish has its steps before the signal, as main does not look at the channel any
-- more.
--
-- Not modelled: the bytes that the proxy copies; the libraries for HTTP, TLS and JSON text, which enter by
-- their results. A reply is a JSON value with the first field of a name. Of the extension:
-- the temporary file that replaces the memfd on other systems than Linux. The texts of the standard
-- library's Utf8Error and NulError are parameters.
pub mod Common
pub mod Abi
pub mod Extension
pub mod MockCore
pub mod Proxy
