-- ===== src/Numbers/RoundTrip.antt =====
-- What `itoa` prints, `stol` reads.
use tgbot_with_rest.Prelude.{
  ℕ, zero, suc, ◌+◌, ◌-◌, ◌*◌, ◌/◌, ◌%◌, ◌<◌, ◌≡◌, refl, ap, ◌∙◌, true, [], ◌∷◌, some, ℤ, pos,
  negsuc, ltb, arith, inl, inr, Bool-cases,
}
use tgbot_with_rest.Text.{Text}
use tgbot_with_rest.Numbers.{
  digits_from, itoa, is_digit, read_digits, starts_digit, negate, read_sign, read_long, fits_long,
  stol,
}

read_digits-digit :
    (v c : ℕ) (s : Text)
    → is_digit c ≡ true
    → read_digits v (c ∷ s) ≡ read_digits (v * 10 + (c - b'0')) s
unfolding read_digits
read_digits-digit v c s h = rw (h, read_digits)

read_digits-nil : (v : ℕ) → read_digits v [] ≡ v
unfolding read_digits
read_digits-nil v = refl

-- The printed digits in front of `rest` are read as the number, and begin with a digit.
read-digits_from :
    (f n : ℕ) (rest : Text)
    → n < f
    → (read_digits 0 (digits_from f n rest) ≡ read_digits n rest)
      × (starts_digit (digits_from f n rest) ≡ true)
unfolding digits_from
read-digits_from zero n rest h = absurd (omega arith)
read-digits_from (suc f) n rest h = elim (Bool-cases (ltb n 10)) [
  | inl e ↦
      rw (e, digits_from)
        (
          read_digits-digit 0 (b'0' + n) rest (ground arith)
              ∙ ap (λ v. read_digits v rest) (omega arith),
          ground arith,
        )
  | inr e ↦
      let (p, q) = read-digits_from f (n / 10) ((b'0' + n % 10) ∷ rest) (ground arith) in
      rw (e, digits_from)
        (
          p
              ∙ read_digits-digit (n / 10) (b'0' + n % 10) rest (ground arith)
              ∙ ap (λ v. read_digits v rest) (omega arith),
          q,
        )
]

read_long-digits : (s : Text) → starts_digit s ≡ true → read_long s ≡ some (pos (read_digits 0 s))
unfolding read_long read_sign
read_long-digits [] h = absurd (ground arith)
read_long-digits (c ∷ s) h = ground arith

pub read_long-itoa : (z : ℤ) → read_long (itoa z) ≡ some z
unfolding itoa read_long read_sign
read_long-itoa (pos n) =
    let (p, q) = read-digits_from (suc n) n [] (omega arith) in
    read_long-digits _ q ∙ ap (λ v. some (pos v)) (p ∙ read_digits-nil n)
read_long-itoa (negsuc n) =
    let (p, q) = read-digits_from (suc (suc n)) (suc n) [] (omega arith) in
    rw q (ap (λ v. some (negate v)) (p ∙ read_digits-nil (suc n)))

-- Every `long` that `itoa` prints is read back by `std::stol`, which then throws nothing.
pub stol-itoa : (z : ℤ) → fits_long z ≡ true → stol (itoa z) ≡ some z
unfolding stol
stol-itoa z h = rw (read_long-itoa z, stol) (rw h)
