-- ===== src/MockCore/Refinement.antt =====
-- The mock core of test/mock_core/src/lib.rs behind DynamicCore of src/dynamic_core.rs, and the registry.
use mathlib.Core.Path.{subst}
use mathlib.Core.List.{append-nil, append_assoc}
use duckflight_extension.Common.{
  ℕ, ◌+◌, true, some, List, [], ◌∷◌, ◌++◌, ◌≡◌, ◌≢◌, refl, sym, ap, ◌∙◌, and-both,
}
use duckflight_extension.Abi.{Text, new_options, Handle}
use duckflight_extension.Extension.Utf8.{is_utf8}
use duckflight_extension.Extension.Results.{ok}
use duckflight_extension.Extension.Protocols.{Protocol, as_str, abi_protocol}
use duckflight_extension.Extension.Core.{
  DynamicCore, from_utf8, visit, initialize, start_core, stop_core, list_servers, dynamic_core,
}
use duckflight_extension.Extension.Simulation.{Alike, Simulates}
use duckflight_extension.MockCore.{Heap, store, passed_to_visitor, mock_api, create}
use duckflight_extension.MockCore.Registry.{
  Running, has_server, without, listing, bound, registry, Command, start_server, stop_server,
  show_servers, started, stopped, listed, perform, replies, run, is_text_command, are_texts,
}
use duckflight_extension.MockCore.Encoding.{
  encode, all_texts, Keeps, all_texts-without, all_texts-append, borrowed_string-from_utf8,
  bound-is_utf8, protocol_name-as_str, visit-nil, visit-add,
}
use duckflight_extension.MockCore.Calls.{nonzero, kept, mock_start, mock_stop, mock_list}

-- The core at the handle keeps the servers of the registry.
abbrev pub Represents : Handle → Heap → Running → Type 0
Represents handle heap servers = Keeps handle servers heap

module _ (handle : Handle) (positive : handle ≢ 0) (utf8_error : Text → Text) (detail : Text) where
  abbrev pub loaded : DynamicCore Heap
  loaded = record { api = mock_api utf8_error; handle = handle; status_detail = detail }

  start_lem :
      (protocol : Protocol) (address config_file : Text) (servers : Running) (heap : Heap)
      → is_utf8 address ≡ true
      → is_utf8 config_file ≡ true
      → Keeps handle servers heap
      → start_core utf8_error loaded protocol address config_file heap ≡ (
        ok (bound protocol address),
        store handle
            (some (
              encode (
                without protocol (bound protocol address) servers
                ++ (protocol, bound protocol address) ∷ [])))
            heap,
      )
  unfolding start_core mock_api
  start_lem protocol address config_file servers heap u v k =
      rw
        (
          mock_start handle positive utf8_error protocol address config_file servers heap u v k,
          borrowed_string-from_utf8 utf8_error (bound protocol address)
              (bound-is_utf8 protocol address u),
        )
        refl

  stop_lem :
      (protocol : Protocol) (address : Text) (servers : Running) (heap : Heap)
      → is_utf8 address ≡ true
      → Keeps handle servers heap
      → stop_core loaded protocol address heap ≡ (
        ok (has_server protocol address servers),
        store handle (some (encode (without protocol address servers))) heap,
      )
  unfolding stop_core mock_api
  stop_lem protocol address servers heap u k =
      rw (mock_stop handle positive utf8_error protocol address servers heap u k) refl

  visit_lem :
      (before : List (Text × Text)) (servers : Running)
      → all_texts servers ≡ true
      → visit utf8_error (ok before) (passed_to_visitor (encode servers))
        ≡ ok (before ++ listing servers)
  unfolding passed_to_visitor listing
  visit_lem before [] t = visit-nil utf8_error before ∙ ap ok (sym (append-nil before))
  visit_lem before ((protocol, address) ∷ servers) t =
      let (u, rest) = and-both (is_utf8 address) (all_texts servers) t in
      visit-add utf8_error (abi_protocol protocol) (from_utf8 address)
        (passed_to_visitor (encode servers)) before (as_str protocol) address
        (protocol_name-as_str protocol) (borrowed_string-from_utf8 utf8_error address u)
      ∙ visit_lem (before ++ (as_str protocol, address) ∷ []) servers rest
      ∙ ap ok (append_assoc before ((as_str protocol, address) ∷ []) (listing servers))

  pub list_lem :
      (servers : Running) (heap : Heap)
      → Keeps handle servers heap
      → list_servers utf8_error loaded heap ≡ (ok (listing servers), heap)
  unfolding list_servers mock_api
  list_lem servers heap k =
      rw (mock_list handle positive utf8_error servers heap k, visit_lem [] servers k.texts) refl

  pub mock-Simulates :
      Simulates (Represents handle) (dynamic_core utf8_error loaded) (registry detail)
  unfolding dynamic_core registry
  mock-Simulates = record {
    start = λ protocol address config_file heap servers u v k.
        let b = bound protocol address in
        let e = start_lem protocol address config_file servers heap u v k in
        let texts =
          all_texts-append (without protocol b servers) protocol b
            (all_texts-without protocol b servers k.texts) (bound-is_utf8 protocol address u) in
        (
          ap (λ r. r.0) e,
          subst (λ r. Keeps handle (without protocol b servers ++ (protocol, b) ∷ []) r.1) (sym e)
              (kept handle positive _ heap texts),
        );
    stop = λ protocol address heap servers u k.
        let e = stop_lem protocol address servers heap u k in
        (
          ap (λ r. r.0) e,
          subst (λ r. Keeps handle (without protocol address servers) r.1) (sym e)
              (kept handle positive _ heap (all_texts-without protocol address servers k.texts)),
        );
    snapshots = λ heap servers k.
        let e = list_lem servers heap k in
        (ap (λ r. r.0) e, subst (λ r. Keeps handle servers r.1) (sym e) k);
    status = refl;
  }

  -- A command has the reply of the registry, and leaves its servers.
  Follows : Command → Running → Heap → Type 0
  Follows command servers heap =
      Alike (Represents handle) (perform (dynamic_core utf8_error loaded) command heap)
        (perform (registry detail) command servers)

  perform-Follows :
      (command : Command) (servers : Running) (heap : Heap)
      → is_text_command command ≡ true
      → Keeps handle servers heap
      → Follows command servers heap
  unfolding Follows perform
  perform-Follows (start_server protocol address config_file) servers heap t k =
      let (u, v) = and-both (is_utf8 address) (is_utf8 config_file) t in
      let (e, k') = mock-Simulates.start protocol address config_file heap servers u v k in
      (ap started e, k')
  perform-Follows (stop_server protocol address) servers heap u k =
      let (e, k') = mock-Simulates.stop protocol address heap servers u k in (ap stopped e, k')
  perform-Follows show_servers servers heap t k =
      let (e, k') = mock-Simulates.snapshots heap servers k in (ap listed e, k')

  replies_lem :
      (commands : List Command) (servers : Running) (heap : Heap)
      → are_texts commands ≡ true
      → Keeps handle servers heap
      → replies (dynamic_core utf8_error loaded) commands heap
        ≡ replies (registry detail) commands servers
  unfolding replies are_texts Follows
  replies_lem [] servers heap t k = refl
  replies_lem (command ∷ commands) servers heap t k =
      let (now, later) = and-both (is_text_command command) (are_texts commands) t in
      let (e, k') = perform-Follows command servers heap now k in
      ap
        (λ r.
          r
          ∷ replies (dynamic_core utf8_error loaded) commands
              (perform (dynamic_core utf8_error loaded) command heap).1)
        e
      ∙ ap (λ rs. (perform (registry detail) command servers).0 ∷ rs)
          (replies_lem commands _ _ later k')

  pub run_lem :
      (commands : List Command) (servers : Running) (heap : Heap)
      → are_texts commands ≡ true
      → Keeps handle servers heap
      → Keeps handle
          (run (registry detail) commands servers)
          (run (dynamic_core utf8_error loaded) commands heap)
  unfolding run are_texts Follows
  run_lem [] servers heap t k = k
  run_lem (command ∷ commands) servers heap t k =
      let (now, later) = and-both (is_text_command command) (are_texts commands) t in
      run_lem commands _ _ later (perform-Follows command servers heap now k).1

-- The heap with one more core, which runs no servers.
abbrev with_core : Heap → Heap
with_core heap = record (store heap.next (some []) heap) { next = heap.next + 1 }

initialize_lem :
    (utf8_error : Text → Text) (detail : Text) (info access : ℕ) (heap : Heap)
    (free : heap.next ≢ 0)
    → initialize (some (mock_api utf8_error)) info access detail heap
      ≡ (ok (loaded heap.next free utf8_error detail), with_core heap)
unfolding initialize mock_api create new_options
initialize_lem utf8_error detail info access heap free = rw (nonzero heap.next free) refl

pub initialize-Keeps :
    (utf8_error : Text → Text) (detail : Text) (info access : ℕ) (heap : Heap)
    (free : heap.next ≢ 0)
    → Keeps heap.next [] (initialize (some (mock_api utf8_error)) info access detail heap).1
initialize-Keeps utf8_error detail info access heap free =
    subst (λ r. Keeps heap.next [] r.1)
      (sym (initialize_lem utf8_error detail info access heap free))
      (record { live = (kept heap.next free [] heap refl).live; texts = refl })

-- The mock core is loaded at the next free handle, and from then on its replies to any commands with
-- UTF-8 texts, through the tables of the C ABI, are those of the registry, which begins without servers.
pub initialize-registry :
    (utf8_error : Text → Text) (detail : Text) (info access : ℕ) (heap : Heap)
    (free : heap.next ≢ 0) (commands : List Command)
    → are_texts commands ≡ true
    → let (core, heap') = initialize (some (mock_api utf8_error)) info access detail heap in
      (core ≡ ok (loaded heap.next free utf8_error detail))
      × (replies (dynamic_core utf8_error (loaded heap.next free utf8_error detail)) commands heap'
          ≡ replies (registry detail) commands [])
initialize-registry utf8_error detail info access heap free commands t = (
  ap (λ r. r.0) (initialize_lem utf8_error detail info access heap free),
  replies_lem heap.next free utf8_error detail commands [] _ t
      (initialize-Keeps utf8_error detail info access heap free),
)
