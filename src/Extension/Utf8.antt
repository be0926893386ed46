-- ===== src/Extension/Utf8.antt =====
-- `str::from_utf8`, `String::from_utf8_lossy` and the decimal texts of `format!`, as src/lib.rs and
-- src/dynamic_core.rs use them.
use Prim.Native.Char.{code}
use mathlib.Core.List.{append_assoc}
use duckflight_extension.Common.{
  ℕ, zero, suc, ◌+◌, ◌/◌, ◌%◌, String, Bool, true, false, ◌&&◌, Option, none, some, List, [], ◌∷◌,
  ◌++◌, ◌≡◌, refl, sym, ap, ◌∙◌, ltb, leb, ◌==◌, if◌then◌else◌,
}
use duckflight_extension.Abi.{Text, I32, pos, negsuc}

-- The bytes of an ASCII literal.
abbrev pub ascii : String → Text
ascii String.[] = []
ascii (String.◌∷◌ c s) = code c ∷ ascii s

abbrev pub Range : Type 0
Range = ℕ × ℕ

abbrev tail : Range
tail = (0x80, 0xbf)

-- The ranges of the bytes that must follow a first byte, if it is one.
follow : ℕ → Option (List Range)
follow b =
    if ltb b 0x80
    then some []
    else if leb 0xc2 b && leb b 0xdf
    then some (tail ∷ [])
    else if b == 0xe0
    then some ((0xa0, 0xbf) ∷ tail ∷ [])
    else if b == 0xed
    then some ((0x80, 0x9f) ∷ tail ∷ [])
    else if leb 0xe1 b && leb b 0xef
    then some (tail ∷ tail ∷ [])
    else if b == 0xf0
    then some ((0x90, 0xbf) ∷ tail ∷ tail ∷ [])
    else if leb 0xf1 b && leb b 0xf3
    then some (tail ∷ tail ∷ tail ∷ [])
    else if b == 0xf4
    then some ((0x80, 0x8f) ∷ tail ∷ tail ∷ [])
    else none

abbrev within : Range → ℕ → Bool
within (lo, hi) b = leb lo b && leb b hi

-- What is still expected after one more byte; none if the byte does not fit.
next : List Range → ℕ → Option (List Range)
next [] b = follow b
next (range ∷ rest) b = if within range b then some rest else none

is_utf8_after : List Range → Text → Bool
is_utf8_after [] [] = true
is_utf8_after (range ∷ rest) [] = false
is_utf8_after expected (b ∷ bs) = elim (next expected b) [
  | none ↦ false
  | some expected' ↦ is_utf8_after expected' bs
]

unfoldable pub is_utf8 : Text → Bool
unfolding is_utf8_after next follow
is_utf8 bs = is_utf8_after [] bs

-- U+FFFD
abbrev replacement : Text
replacement = 0xef ∷ 0xbf ∷ 0xbd ∷ []

-- A first byte: what it puts out at once, what it holds back, and what is expected after it.
begin : ℕ → Option (List Range) → Text × Text × List Range
begin b none = (replacement, [], [])
begin b (some []) = (b ∷ [], [], [])
begin b (some (range ∷ rest)) = ([], b ∷ [], range ∷ rest)

-- A byte that does not fit ends a broken character, and begins the next one.
fitting : Text → ℕ → Option (List Range) → Text × Text × List Range
fitting held b none =
    let (out, held', expected) = begin b (follow b) in (replacement ++ out, held', expected)
fitting held b (some []) = (held ++ b ∷ [], [], [])
fitting held b (some (range ∷ rest)) = ([], held ++ b ∷ [], range ∷ rest)

lossy_step : Text → List Range → ℕ → Text × Text × List Range
lossy_step held [] b = begin b (follow b)
lossy_step held (range ∷ rest) b = fitting held b (next (range ∷ rest) b)

lossy_after : Text → List Range → Text → Text
lossy_after held [] [] = []
lossy_after held (range ∷ rest) [] = replacement
lossy_after held expected (b ∷ bs) =
    let (out, held', expected') = lossy_step held expected b in
    out ++ lossy_after held' expected' bs

unfoldable pub from_utf8_lossy : Text → Text
unfolding lossy_after lossy_step fitting begin next follow
from_utf8_lossy bs = lossy_after [] [] bs

abbrev valid_after : Option (List Range) → Text → Bool
valid_after o bs = elim o [ none ↦ false | some expected ↦ is_utf8_after expected bs ]

abbrev lossy_rest : Text × Text × List Range → Text → Text
lossy_rest (out, held, expected) bs = out ++ lossy_after held expected bs

-- One byte that fits, when what follows is valid.
fitting_lem :
    (o : Option (List Range)) (bs held : Text) (b : ℕ)
    → ((held' : Text) (expected' : List Range)
        → is_utf8_after expected' bs ≡ true
        → (expected' ≡ [] → held' ≡ [])
        → lossy_after held' expected' bs ≡ held' ++ bs)
    → valid_after o bs ≡ true
    → lossy_rest (fitting held b o) bs ≡ held ++ b ∷ bs
unfolding fitting
fitting_lem none bs held b ih h = cc
fitting_lem (some []) bs held b ih h =
    ap (λ t. (held ++ b ∷ []) ++ t) (ih [] [] h (λ e. refl)) ∙ append_assoc held (b ∷ []) bs
fitting_lem (some (range ∷ rest)) bs held b ih h =
    ih (held ++ b ∷ []) (range ∷ rest) h (λ e. cc) ∙ append_assoc held (b ∷ []) bs

begin_lem :
    (o : Option (List Range)) (bs : Text) (b : ℕ)
    → ((held' : Text) (expected' : List Range)
        → is_utf8_after expected' bs ≡ true
        → (expected' ≡ [] → held' ≡ [])
        → lossy_after held' expected' bs ≡ held' ++ bs)
    → valid_after o bs ≡ true
    → lossy_rest (begin b o) bs ≡ b ∷ bs
unfolding begin
begin_lem none bs b ih h = cc
begin_lem (some []) bs b ih h = ap (λ t. b ∷ t) (ih [] [] h (λ e. refl))
begin_lem (some (range ∷ rest)) bs b ih h = ih (b ∷ []) (range ∷ rest) h (λ e. cc)

lossy_after-is_utf8 :
    (bs held : Text) (expected : List Range)
    → is_utf8_after expected bs ≡ true
    → (expected ≡ [] → held ≡ [])
    → lossy_after held expected bs ≡ held ++ bs
unfolding is_utf8_after lossy_after lossy_step begin next
lossy_after-is_utf8 [] held [] h e = rw (e refl)
lossy_after-is_utf8 [] held (range ∷ rest) h e = cc
lossy_after-is_utf8 (b ∷ bs) held [] h e =
    begin_lem (follow b) bs b (lossy_after-is_utf8 bs) h ∙ ap (λ t. t ++ b ∷ bs) (sym (e refl))
lossy_after-is_utf8 (b ∷ bs) held (range ∷ rest) h e =
    fitting_lem (next (range ∷ rest) b) bs held b (lossy_after-is_utf8 bs) h

-- Valid text is not changed.
pub from_utf8_lossy-is_utf8 : (bs : Text) → is_utf8 bs ≡ true → from_utf8_lossy bs ≡ bs
unfolding is_utf8 from_utf8_lossy
from_utf8_lossy-is_utf8 bs h = lossy_after-is_utf8 bs [] [] h (λ e. refl)

decimal_digits : ℕ → ℕ → Text
decimal_digits zero n = (b'0' + n % 10) ∷ []
decimal_digits (suc fuel) n =
    let high = decimal_digits fuel (n / 10) in
    if ltb n 10 then (b'0' + n) ∷ [] else high ++ (b'0' + n % 10) ∷ []

-- A number has at most as many digits as its value, so the fuel `n` is enough.
unfoldable pub decimal : ℕ → Text
unfolding decimal_digits
decimal n = decimal_digits n n

unfoldable pub decimal_i32 : I32 → Text
unfolding decimal
decimal_i32 (pos n) = decimal n
decimal_i32 (negsuc n) = b'-' ∷ decimal (n + 1)
