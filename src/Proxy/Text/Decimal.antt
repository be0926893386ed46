-- ===== src/Proxy/Text/Decimal.antt =====
-- Decimal texts: `format!` of a number and `parse` of the text.
use Prim.Native.Char.{code}
use Prim.Native.String.append
use duckflight_extension.Common.{
  ℕ, zero, suc, ◌+◌, ◌-◌, ◌*◌, ◌/◌, ◌%◌, ◌^◌, ◌≤◌, ◌<◌, String, ◌<>◌, false, Option, none, some,
  ◌≡◌, refl, ◌∙◌, ap, arith, ltb, Bool-cases, ltb→lt, ltb→ge, inl, inr,
}
use duckflight_extension.Proxy.Text.{
  is_empty, digits, some_digits, unsigned, in_range, parse_uint, digit, decimal_from, decimal,
}

abbrev append_digit : ℕ → Option ℕ → Option ℕ
append_digit d none = none
append_digit d (some a) = some (a * 10 + d)

digits-digit : (acc d : ℕ) → d < 10 → digits acc (digit d) ≡ some (acc * 10 + d)
unfolding digits digit
digits-digit acc zero h = refl
digits-digit acc (suc zero) h = refl
digits-digit acc (suc (suc zero)) h = refl
digits-digit acc (suc (suc (suc zero))) h = refl
digits-digit acc (suc (suc (suc (suc zero)))) h = refl
digits-digit acc (suc (suc (suc (suc (suc zero))))) h = refl
digits-digit acc (suc (suc (suc (suc (suc (suc zero)))))) h = refl
digits-digit acc (suc (suc (suc (suc (suc (suc (suc zero))))))) h = refl
digits-digit acc (suc (suc (suc (suc (suc (suc (suc (suc zero)))))))) h = refl
digits-digit acc (suc (suc (suc (suc (suc (suc (suc (suc (suc n))))))))) h =
    ap (λ m. some (acc * 10 + suc (suc (suc (suc (suc (suc (suc (suc (suc m))))))))))
      (let e : 0 ≡ n = omega arith in e)

is_empty-digit : (d : ℕ) → is_empty (digit d) ≡ false
unfolding digit is_empty
is_empty-digit zero = refl
is_empty-digit (suc zero) = refl
is_empty-digit (suc (suc zero)) = refl
is_empty-digit (suc (suc (suc zero))) = refl
is_empty-digit (suc (suc (suc (suc zero)))) = refl
is_empty-digit (suc (suc (suc (suc (suc zero))))) = refl
is_empty-digit (suc (suc (suc (suc (suc (suc zero)))))) = refl
is_empty-digit (suc (suc (suc (suc (suc (suc (suc zero))))))) = refl
is_empty-digit (suc (suc (suc (suc (suc (suc (suc (suc zero)))))))) = refl
is_empty-digit (suc (suc (suc (suc (suc (suc (suc (suc (suc n))))))))) = refl

-- The digits of a text that begins with none before it.
digits-digit_zero : (d : ℕ) → d < 10 → digits 0 (digit d) ≡ some d
digits-digit_zero d h = digits-digit 0 d h ∙ ap some (let e : 0 * 10 + d ≡ d = omega arith in e)

digits-append :
    (acc d : ℕ) (s : String) → d < 10 → digits acc (s <> digit d) ≡ append_digit d (digits acc s)
unfolding digits
digits-append acc d String.[] h = ap (digits acc) (append.nil (digit d)) ∙ digits-digit acc d h
digits-append acc d (String.◌∷◌ c s) h =
    let ih = digits-append (acc * 10 + (code c - b'0')) d s h in
    ap (digits acc) (append.cons c s (digit d)) ∙ ground arith

is_empty-append : (s : String) (d : ℕ) → is_empty (s <> digit d) ≡ false
unfolding is_empty
is_empty-append String.[] d = ap is_empty (append.nil (digit d)) ∙ is_empty-digit d
is_empty-append (String.◌∷◌ c s) d = ap is_empty (append.cons c s (digit d))

digits-decimal_from : (fuel n : ℕ) → n ≤ fuel → digits 0 (decimal_from fuel n) ≡ some n
unfolding decimal_from
digits-decimal_from zero n h = digits-digit_zero n (omega arith)
digits-decimal_from (suc fuel) n h = elim (Bool-cases (ltb n 10)) [
  | inl e ↦ rw e (digits-digit_zero n (ltb→lt n 10 e))
  | inr e ↦
      let ih = digits-decimal_from fuel (n / 10) (omega (arith, ltb→ge n 10 e)) in
      rw e (
        digits-append 0 (n % 10) (decimal_from fuel (n / 10)) (omega arith)
        ∙ ap (append_digit (n % 10)) ih
        ∙ ap some (let e' : n / 10 * 10 + n % 10 ≡ n = omega arith in e'))
]

is_empty-decimal_from : (fuel n : ℕ) → is_empty (decimal_from fuel n) ≡ false
unfolding decimal_from
is_empty-decimal_from zero n = is_empty-digit n
is_empty-decimal_from (suc fuel) n = elim (Bool-cases (ltb n 10)) [
  | inl e ↦ rw e (is_empty-digit n)
  | inr e ↦ rw e (is_empty-append (decimal_from fuel (n / 10)) (n % 10))
]

-- A text of digits has no sign.
unsigned-digits :
    (s : String) (n : ℕ) → is_empty s ≡ false → digits 0 s ≡ some n → unsigned s ≡ some n
unfolding is_empty digits unsigned some_digits
unsigned-digits String.[] n h e = cc
unsigned-digits (String.◌∷◌ c s) n h e = ground arith

-- The decimal text of a number that fits is parsed to the number.
pub parse_uint-decimal : (w n : ℕ) → n < 2 ^ w → parse_uint w (decimal n) ≡ some n
unfolding parse_uint in_range decimal
parse_uint-decimal w n h =
    let e =
      unsigned-digits (decimal n) n (is_empty-decimal_from n n)
        (digits-decimal_from n n (omega arith)) in
    ap (in_range (2 ^ w)) e ∙ ground arith
