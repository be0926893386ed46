-- ===== src/MockCore/Calls.antt =====
-- What the functions of the table in test/mock_core/src/lib.rs do for a core that keeps servers.
use duckflight_extension.Common.{
  ℕ, Bool, true, false, not, some, [], ◌∷◌, ◌++◌, ◌==◌, ◌≡◌, ◌≢◌, refl, arith, ==_refl,
}
use duckflight_extension.Abi.{Text, Handle}
use duckflight_extension.Extension.Utf8.{ascii, is_utf8}
use duckflight_extension.Extension.Results.{ok}
use duckflight_extension.Extension.Protocols.{Protocol, abi_protocol}
use duckflight_extension.Extension.Core.{from_utf8}
use duckflight_extension.MockCore.{
  Heap, store, handle_ref, passed_to_visitor, succeeded, error_boundary, start, stop, list,
}
use duckflight_extension.MockCore.Registry.{Running, has_server, without, bound}
use duckflight_extension.MockCore.Encoding.{
  encode, all_texts, Keeps, retain_others-encode, encode-append, length-without,
  borrowed_str-from_utf8, validate_protocol-abi_protocol,
}

module _ (handle : Handle) (positive : handle ≢ 0) where
  pub nonzero : (handle == 0) ≡ false
  nonzero = ground arith

  handle_ref-Keeps :
      (servers : Running) (heap : Heap)
      → Keeps handle servers heap
      → handle_ref handle heap ≡ (ok (encode servers), heap)
  unfolding handle_ref
  handle_ref-Keeps servers heap k = rw (nonzero, k.live) refl

  pub kept :
      (servers : Running) (heap : Heap)
      → all_texts servers ≡ true
      → Keeps handle servers (store handle (some (encode servers)) heap)
  kept servers heap t = record { live = rw (same_handle handle) refl; texts = t }
    where
      same_handle : (n : ℕ) → (n == n) ≡ true
      same_handle n = ==_refl n

  module _ (utf8_error : Text → Text) where
    pub mock_start :
        (protocol : Protocol) (address config_file : Text) (servers : Running) (heap : Heap)
        → is_utf8 address ≡ true
        → is_utf8 config_file ≡ true
        → Keeps handle servers heap
        → start utf8_error heap handle
            (abi_protocol protocol)
            (from_utf8 address)
            (from_utf8 config_file)
          ≡ succeeded (from_utf8 (bound protocol address) ∷ []) (
              store handle
                (some (
                  encode (
                    without protocol (bound protocol address) servers
                    ++ (protocol, bound protocol address) ∷ [])))
                heap)
    unfolding start error_boundary
    mock_start protocol address config_file servers heap u v k =
        let b = bound protocol address in
        rw
          (
            handle_ref-Keeps servers heap k,
            validate_protocol-abi_protocol protocol,
            borrowed_str-from_utf8 utf8_error address (ascii "address") u,
            borrowed_str-from_utf8 utf8_error config_file (ascii "config_file") v,
            retain_others-encode protocol b servers,
            encode-append (without protocol b servers) protocol b,
          )
          refl

    pub mock_stop :
        (protocol : Protocol) (address : Text) (servers : Running) (heap : Heap)
        → is_utf8 address ≡ true
        → Keeps handle servers heap
        → stop utf8_error heap handle (abi_protocol protocol) (from_utf8 address)
          ≡ succeeded
              (some (has_server protocol address servers))
              (store handle (some (encode (without protocol address servers))) heap)
    unfolding stop error_boundary
    mock_stop protocol address servers heap u k =
        rw
          (
            handle_ref-Keeps servers heap k,
            validate_protocol-abi_protocol protocol,
            borrowed_str-from_utf8 utf8_error address (ascii "address") u,
            retain_others-encode protocol address servers,
            length-without protocol address servers,
            not_not (has_server protocol address servers),
          )
          refl
      where
        not_not : (b : Bool) → not (not b) ≡ b
        not_not true = refl
        not_not false = refl

    pub mock_list :
        (servers : Running) (heap : Heap)
        → Keeps handle servers heap
        → list utf8_error heap handle ≡ succeeded (passed_to_visitor (encode servers)) heap
    unfolding list error_boundary
    mock_list servers heap k = rw (handle_ref-Keeps servers heap k) refl
