-- ===== src/Bits.antt =====
-- `^` and `|` on unsigned numbers of `w` bits.
use tgbot_with_rest.Prelude.{ℕ, zero, suc, ◌+◌, ◌*◌, ◌/◌, ◌%◌, ◌<◌, ◌≡◌, refl, subst, arith}

unfoldable pub xor : ℕ → ℕ → ℕ → ℕ
xor zero a b = 0
xor (suc w) a b = (a % 2 + b % 2) % 2 + 2 * xor w (a / 2) (b / 2)

unfoldable pub bit_or : ℕ → ℕ → ℕ → ℕ
bit_or zero a b = 0
bit_or (suc w) a b = (a % 2 + b % 2 + 1) / 2 + 2 * bit_or w (a / 2) (b / 2)

-- A number of at most `w` bits.
abbrev pub Fits : ℕ → ℕ → Type 0
Fits zero a = a ≡ 0
Fits (suc w) a = Fits w (a / 2)

pub byte-Fits : (a : ℕ) → a < 256 → Fits 8 a
byte-Fits a h = omega arith

pub xor-same : (w a : ℕ) → xor w a a ≡ 0
unfolding xor
xor-same zero a = refl
xor-same (suc w) a = omega (arith, xor-same w (a / 2))

pub xor-zero : (w a b : ℕ) → Fits w a → Fits w b → xor w a b ≡ 0 → a ≡ b
unfolding xor
xor-zero zero a b h k e = omega arith
xor-zero (suc w) a b h k e =
    let q : a / 2 ≡ b / 2 = xor-zero w (a / 2) (b / 2) h k (omega arith) in omega arith

pub xor-Fits : (w a b : ℕ) → Fits w (xor w a b)
unfolding xor
xor-Fits zero a b = refl
xor-Fits (suc w) a b =
    let q : xor w (a / 2) (b / 2) ≡ ((a % 2 + b % 2) % 2 + 2 * xor w (a / 2) (b / 2)) / 2 =
      omega arith in
    subst (Fits w) q (xor-Fits w (a / 2) (b / 2))

pub bit_or-Fits : (w a b : ℕ) → Fits w (bit_or w a b)
unfolding bit_or
bit_or-Fits zero a b = refl
bit_or-Fits (suc w) a b =
    let q : bit_or w (a / 2) (b / 2)
        ≡ ((a % 2 + b % 2 + 1) / 2 + 2 * bit_or w (a / 2) (b / 2)) / 2 =
      omega arith in
    subst (Fits w) q (bit_or-Fits w (a / 2) (b / 2))

pub bit_or-zero : (w a b : ℕ) → Fits w a → Fits w b → bit_or w a b ≡ 0 → (a ≡ 0) × (b ≡ 0)
unfolding bit_or
bit_or-zero zero a b h k e = (h, k)
bit_or-zero (suc w) a b h k e =
    let (p, q) = bit_or-zero w (a / 2) (b / 2) h k (omega arith) in (omega arith, omega arith)

pub bit_or-of_zeros : (w : ℕ) → bit_or w 0 0 ≡ 0
unfolding bit_or
bit_or-of_zeros zero = refl
bit_or-of_zeros (suc w) = omega (arith, bit_or-of_zeros w)
