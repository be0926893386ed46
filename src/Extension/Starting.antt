-- ===== src/Extension/Starting.antt =====
-- `start` of src/dynamic_core.rs: what it answers to what the core passed to the receiver.
use duckflight_extension.Common.{
  ℕ, if◌then◌else◌, ◌≡◌, refl, ap, ◌∙◌, Bool, true, false, some, List, [], ◌∷◌,
}
use duckflight_extension.Abi.{Text, is_ok, BytesV1, Returned, Handle}
use duckflight_extension.Extension.Utf8.{ascii}
use duckflight_extension.Extension.Results.{Result, ok, err, continue}
use duckflight_extension.Extension.Protocols.{Protocol, abi_protocol}
use duckflight_extension.Extension.Core.{
  ErrorBuffer, message, failure_detail, check_status, passed, checked, borrowed_string, receive,
  DynamicCore, from_utf8, call_of, start_call, start_core,
}

module _ (utf8_error : Text → Text) where
  -- The last value, if there is one.
  abbrev pub last_address : List BytesV1 → Result Text
  last_address [] = err (ascii "runtime did not return a server address")
  last_address (value ∷ []) = borrowed_string utf8_error value
  last_address (value ∷ next ∷ values) = last_address (next ∷ values)

  receive_next :
      (values : List BytesV1) (output output' : Result Text) (value : BytesV1)
      → receive utf8_error output (value ∷ values) ≡ receive utf8_error output' (value ∷ values)
  unfolding receive
  receive_next values output output' value = refl

  receive-last_address :
      (values : List BytesV1)
      → receive utf8_error (err (ascii "runtime did not return a server address")) values
        ≡ last_address values
  unfolding receive
  receive-last_address [] = refl
  receive-last_address (value ∷ []) = refl
  receive-last_address (value ∷ next ∷ values) =
      receive_next values (borrowed_string utf8_error value)
        (err (ascii "runtime did not return a server address")) next
      ∙ receive-last_address (next ∷ values)

  module _ {P : Type 0} where
    -- What the caller is to get, from what the core's function left.
    abbrev pub answer : Returned P (List BytesV1) → Result Text
    answer r =
        if is_ok r.status
        then last_address r.value
        else err (
            failure_detail r.status (record { bytes = r.error; required = r.required })
              (message (record { bytes = r.error; required = r.required })))

    -- The rest of `start` after the call.
    abbrev finish : Result (List BytesV1) × P → Result Text × P
    finish left =
        continue left.0
          (λ values (s : P).
            (receive utf8_error (err (ascii "runtime did not return a server address")) values, s))
          left.1

    answered :
        (status : Bool) (detail : Text) (r : Returned P (List BytesV1))
        → finish (passed (if status then ok tt else err detail) r)
          ≡ ((if status then last_address r.value else err detail), r.core)
    answered true detail r = ap (λ (t : Result Text). (t, r.core)) (receive-last_address r.value)
    answered false detail r = refl

    -- `start` calls the core once with the protocol's number and the texts, and answers with the core's
    -- diagnostic if that failed, and else with the last text that the core passed to the receiver, with
    -- what is wrong with it, or with the default error if there was none.
    pub start_core-answer :
        (core : DynamicCore P) (protocol : Protocol) (address config_file : Text) (state : P)
        {start : P → Handle → ℕ → BytesV1 → BytesV1 → Returned P (List BytesV1)}
        → core.api.start ≡ some start
        → start_core utf8_error core protocol address config_file state ≡ (
          answer (
              start state core.handle
                (abi_protocol protocol)
                (from_utf8 address)
                (from_utf8 config_file)),
          (start state core.handle
              (abi_protocol protocol)
              (from_utf8 address)
              (from_utf8 config_file)).core,
        )
    unfolding start_core start_call call_of checked check_status
    start_core-answer core protocol address config_file state {start} h =
        let left =
          start state core.handle (abi_protocol protocol) (from_utf8 address)
            (from_utf8 config_file) in
        let error : ErrorBuffer = record { bytes = left.error; required = left.required } in
        ap
          (λ o. finish (
            call_of o
              (λ start.
                start state core.handle (abi_protocol protocol) (from_utf8 address)
                  (from_utf8 config_file))
              state))
          h
        ∙ answered (is_ok left.status) (failure_detail left.status error (message error)) left
