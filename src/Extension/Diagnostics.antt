-- ===== src/Extension/Diagnostics.antt =====
-- What `check_status` of src/dynamic_core.rs says of a failed call, against a provider that reports
-- its diagnostic the way test/mock_core/src/lib.rs does.
use duckflight_extension.Common.{
  ℕ, Bool, true, false, not, List, [], ◌∷◌, ◌++◌, ◌≡◌, refl, ap, arith, leb, ltb, Bool-cases, inl,
  inr, length, take, drop, if◌then◌else◌,
}
use duckflight_extension.Abi.{Text, I32, is_ok}
use duckflight_extension.Extension.Utf8.{
  ascii, is_utf8, from_utf8_lossy-is_utf8, decimal, decimal_i32,
}
use duckflight_extension.Extension.Results.{err}
use duckflight_extension.Extension.Core.{
  ErrorBuffer, error_capacity, message, failure_detail, check_status,
}

-- `report_error`: all of the diagnostic is copied, or none of it if it does not fit.
unfoldable pub report_error : Text → Text → ErrorBuffer
report_error diagnostic unwritten = record {
  bytes =
      if leb (length diagnostic) error_capacity
      then diagnostic ++ drop (length diagnostic) unwritten
      else unwritten;
  required = length diagnostic;
}

-- What a caller is to be told.
abbrev pub diagnosis : I32 → Text → Text
diagnosis status [] = ascii "DuckFlight runtime failed with status " ++ decimal_i32 status
diagnosis status (b ∷ bs) =
    if leb (length (b ∷ bs)) error_capacity
    then b ∷ bs
    else ascii "DuckFlight runtime failed with status "
      ++ decimal_i32 status
      ++ ascii "; diagnostic requires "
      ++ decimal (length (b ∷ bs))
      ++ ascii " bytes (buffer capacity "
      ++ decimal error_capacity
      ++ ascii ")"

take_append : {A : Type 0} (xs ys : List A) → take (length xs) (xs ++ ys) ≡ xs
take_append [] ys = refl
take_append (x ∷ xs) ys = ap (λ zs. x ∷ zs) (take_append xs ys)

ltb-leb : (a b : ℕ) (t : Bool) → leb a b ≡ t → ltb b a ≡ not t
ltb-leb a b t h = ground arith

-- A failed call is described by the provider's own diagnostic, if that is UTF-8, not empty and
-- fits the buffer; by its status alone if the diagnostic is empty; and by its status with the size of
-- a diagnostic that does not fit, whatever the buffer then holds.
pub check_status-report_error :
    (status : I32) (diagnostic unwritten : Text)
    → is_ok status ≡ false
    → is_utf8 diagnostic ≡ true
    → check_status status (report_error diagnostic unwritten) ≡ err (diagnosis status diagnostic)
unfolding check_status message failure_detail report_error
check_status-report_error status [] unwritten failed valid =
    rw (failed, from_utf8_lossy-is_utf8 [] valid)
check_status-report_error status (b ∷ bs) unwritten failed valid =
    elim (Bool-cases (leb (length (b ∷ bs)) error_capacity)) [
      | inl fits ↦ rw (
        failed,
        fits,
        ltb-leb _ _ _ fits,
        take_append (b ∷ bs) (drop (length (b ∷ bs)) unwritten),
        from_utf8_lossy-is_utf8 (b ∷ bs) valid,
      )
      | inr large ↦ rw (failed, large, ltb-leb _ _ _ large)
    ]
