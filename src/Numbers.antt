-- ===== src/Numbers.antt =====
-- Numbers as text: `itoa` of src/support.cpp, and the `std::stol` and `atol` that handlers call.
-- `long` has 64 bits.
pub mod RoundTrip
use tgbot_with_rest.Prelude.{
  ℕ, zero, suc, ◌+◌, ◌-◌, ◌*◌, ◌/◌, ◌%◌, ◌^◌, Bool, true, false, ◌&&◌, ◌||◌, [], ◌∷◌, Option, none,
  some, ℤ, pos, negsuc, ltb, leb, ◌==◌, if◌then◌else◌,
}
use tgbot_with_rest.Text.{Text}

-- The decimal digits of `n` in front of `rest`. The fuel `n + 1` is enough, since a round divides
-- by ten.
unfoldable pub digits_from : ℕ → ℕ → Text → Text
digits_from zero n rest = rest
digits_from (suc f) n rest = elim (ltb n 10) [
  | true ↦ (b'0' + n) ∷ rest
  | false ↦ digits_from f (n / 10) ((b'0' + n % 10) ∷ rest)
]

unfoldable pub itoa : ℤ → Text
unfolding digits_from
itoa (pos n) = digits_from (suc n) n []
itoa (negsuc n) = b'-' ∷ digits_from (suc (suc n)) (suc n) []

abbrev pub is_digit : ℕ → Bool
is_digit c = leb b'0' c && leb c b'9'

abbrev pub is_space : ℕ → Bool
is_space c = c == b' ' || (leb 9 c && leb c 13)

-- The value of the digits at the front, behind a value `v` already read.
unfoldable pub read_digits : ℕ → Text → ℕ
read_digits v [] = v
read_digits v (c ∷ s) = elim (is_digit c) [ true ↦ read_digits (v * 10 + (c - b'0')) s | false ↦ v ]

abbrev pub starts_digit : Text → Bool
starts_digit [] = false
starts_digit (c ∷ s) = is_digit c

abbrev pub negate : ℕ → ℤ
negate zero = pos 0
negate (suc n) = negsuc n

unfoldable pub read_sign : Text → Option ℤ
read_sign [] = none
read_sign (c ∷ s) =
    if c == b'-'
    then (if starts_digit s then some (negate (read_digits 0 s)) else none)
    else if c == b'+'
    then (if starts_digit s then some (pos (read_digits 0 s)) else none)
    else if is_digit c
    then some (pos (read_digits 0 (c ∷ s)))
    else none

-- What `strtol` reads in base ten: spaces, a sign and digits; the rest is left.
unfoldable pub read_long : Text → Option ℤ
read_long [] = none
read_long (c ∷ s) = elim (is_space c) [ true ↦ read_long s | false ↦ read_sign (c ∷ s) ]

abbrev pub fits_long : ℤ → Bool
fits_long (pos n) = ltb n (2 ^ 63)
fits_long (negsuc n) = ltb n (2 ^ 63)

-- `none` is an exception: no number, or one out of range.
unfoldable pub stol : Text → Option ℤ
stol s = elim (read_long s) [ none ↦ none | some z ↦ if fits_long z then some z else none ]

unfoldable pub clamp : ℤ → ℤ
clamp (pos n) = if ltb n (2 ^ 63) then pos n else pos (2 ^ 63 - 1)
clamp (negsuc n) = if ltb n (2 ^ 63) then negsuc n else negsuc (2 ^ 63 - 1)

-- 0 for no number; out of range the value is clamped, as glibc does.
unfoldable pub atol : Text → ℤ
atol s = elim (read_long s) [ none ↦ pos 0 | some z ↦ clamp z ]
