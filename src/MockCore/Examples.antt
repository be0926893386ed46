-- ===== src/MockCore/Examples.antt =====
-- The theorems on the mock core at concrete inputs.
use duckflight_extension.Common.{false, ◌≡◌, refl, none, some, [], ◌∷◌, List, arith}
use duckflight_extension.Extension.Utf8.{ascii, is_utf8}
use duckflight_extension.Extension.Results.{ok}
use duckflight_extension.Abi.{Text}
use duckflight_extension.MockCore.Wanted.{wanted, copies, once_if, list_servers-wanted}
use duckflight_extension.Extension.Protocols.{Protocol, http_protocol, quack_protocol, abi_protocol}
use duckflight_extension.Extension.Core.{initialize, dynamic_core, list_servers}
use duckflight_extension.MockCore.{Heap, mock_api, bound_address}
use duckflight_extension.MockCore.Stopped.{told}
use duckflight_extension.MockCore.Registry.{
  Running, listing, run, registry, Command, start_server, stop_server, show_servers, replies,
  are_texts,
}
use duckflight_extension.MockCore.Refinement.{loaded, initialize-registry}

abbrev empty_heap : Heap
empty_heap = record { next = 1; cores = λ handle. none }

abbrev session : List Command
session =
    start_server http_protocol (ascii "0.0.0.0:0") []
    ∷ start_server quack_protocol (ascii "127.0.0.1:81") []
    ∷ stop_server http_protocol (ascii "127.0.0.1:18080")
    ∷ show_servers
    ∷ []

initialize-registry_example :
    let (core, heap') = initialize (some (mock_api (λ t. t))) 1 2 (ascii "mock") empty_heap in
    (core ≡ ok (loaded 1 (omega arith) (λ t. t) (ascii "mock")))
    × (replies
          (dynamic_core (λ t. t) (loaded 1 (omega arith) (λ t. t) (ascii "mock")))
          session
          heap'
        ≡ replies (registry (ascii "mock")) session [])
unfolding are_texts is_utf8
initialize-registry_example =
    initialize-registry (λ t. t) (ascii "mock") 1 2 empty_heap (omega arith) session refl

list_servers-wanted_example :
    let heap' =
      run
        (dynamic_core (λ t. t) (loaded 1 (omega arith) (λ t. t) (ascii "mock")))
        session
        (initialize (some (mock_api (λ t. t))) 1 2 (ascii "mock") empty_heap).1 in
    (servers : Running) × ((list_servers
        (λ t. t)
        (loaded 1 (omega arith) (λ t. t) (ascii "mock"))
        heap').0
      ≡ ok (listing servers))
    × ((p : Protocol) (a : Text) → copies p a servers ≡ once_if (wanted p a false session))
unfolding are_texts is_utf8
list_servers-wanted_example =
    list_servers-wanted (λ t. t) (ascii "mock") 1 2 empty_heap (omega arith) session refl

stops_quack :
    told quack_protocol
      (ascii "127.0.0.1:81")
      (wanted quack_protocol (ascii "127.0.0.1:81") false session)
    ≡ ascii "stopped quack server on 127.0.0.1:81"
unfolding abi_protocol bound_address
stops_quack = refl
