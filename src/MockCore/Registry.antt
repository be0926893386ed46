-- ===== src/MockCore/Registry.antt =====
-- What the extension expects of a core such as that of test/mock_core/src/lib.rs, without the C ABI: the
-- servers that run, the latest started one last.
use duckflight_extension.Common.{
  Bool, true, false, ◌&&◌, ◌||◌, List, [], ◌∷◌, ◌++◌, ◌==◌, if◌then◌else◌,
}
use duckflight_extension.Abi.{Text}
use duckflight_extension.Extension.Utf8.{is_utf8}
use duckflight_extension.Extension.Results.{Result, ok}
use duckflight_extension.Extension.Protocols.{Protocol, as_str, abi_protocol, same}
use duckflight_extension.Extension.Runtime.{CoreRuntime}
use duckflight_extension.MockCore.{bound_address}

abbrev pub Running : Type 0
Running = List (Protocol × Text)

-- Whether two servers are the same one.
abbrev pub is_server : Protocol → Text → Protocol × Text → Bool
is_server protocol address (protocol', address') =
    (abi_protocol protocol' == abi_protocol protocol) && same address' address

unfoldable pub has_server : Protocol → Text → Running → Bool
has_server protocol address [] = false
has_server protocol address (server ∷ servers) =
    is_server protocol address server || has_server protocol address servers

unfoldable pub without : Protocol → Text → Running → Running
without protocol address [] = []
without protocol address (server ∷ servers) =
    let rest = without protocol address servers in
    if is_server protocol address server then rest else server ∷ rest

unfoldable pub listing : Running → List (Text × Text)
listing [] = []
listing ((protocol, address) ∷ servers) = (as_str protocol, address) ∷ listing servers

-- Where a server of the mock core listens.
abbrev pub bound : Protocol → Text → Text
bound protocol address = bound_address (abi_protocol protocol) address

-- The runtime without handles, buffers and callbacks.
unfoldable pub registry : Text → CoreRuntime Running
unfolding has_server without listing
registry detail = record {
  start = λ protocol address config_file servers. (
    ok (bound protocol address),
    without protocol (bound protocol address) servers ++ (protocol, bound protocol address) ∷ [],
  );
  stop = λ protocol address servers.
      (ok (has_server protocol address servers), without protocol address servers);
  snapshots = λ servers. (ok (listing servers), servers);
  status = record { loaded = true; detail = detail };
}

pub data Command : Type 0 where
  start_server : Protocol → Text → Text → Command
  stop_server : Protocol → Text → Command
  show_servers : Command

pub data Reply : Type 0 where
  started : Result Text → Reply
  stopped : Result Bool → Reply
  listed : Result (List (Text × Text)) → Reply

module _ {S : Type 0} (core : CoreRuntime S) where
  unfoldable pub perform : Command → S → Reply × S
  perform (start_server protocol address config_file) s =
      let (r, s') = core.start protocol address config_file s in (started r, s')
  perform (stop_server protocol address) s =
      let (r, s') = core.stop protocol address s in (stopped r, s')
  perform show_servers s = let (r, s') = core.snapshots s in (listed r, s')

  -- What a runtime answers to commands, one after the other.
  unfoldable pub replies : List Command → S → List Reply
  unfolding perform
  replies [] s = []
  replies (command ∷ commands) s =
      let (reply, s') = perform command s in reply ∷ replies commands s'

  -- The runtime's state after commands.
  unfoldable pub run : List Command → S → S
  unfolding perform
  run [] s = s
  run (command ∷ commands) s = run commands (perform command s).1

-- The texts of a command are UTF-8, as every `&str` is.
abbrev pub is_text_command : Command → Bool
is_text_command (start_server protocol address config_file) = is_utf8 address && is_utf8 config_file
is_text_command (stop_server protocol address) = is_utf8 address
is_text_command show_servers = true

unfoldable pub are_texts : List Command → Bool
are_texts [] = true
are_texts (command ∷ commands) = is_text_command command && are_texts commands
