-- ===== src/Totp.antt =====
-- The one-time key of src/support.cpp: TOTP on HMAC-SHA1. SHA-1 and Qt's conversions are parameters.
use tgbot_with_rest.Prelude.{
  ℕ, zero, suc, ◌+◌, ◌*◌, ◌-◌, ◌%◌, ◌/◌, ◌^◌, [], ◌∷◌, ◌++◌, Option, some, ◌≡◌, ◌<◌, length,
  get_elem?, get_elem?_exists, replicate, map, ltb, if◌then◌else◌, arith,
}
use mathlib.Core.Option
use tgbot_with_rest.Text.{Text}
use tgbot_with_rest.Bits.{xor}

-- The lowest `n` bytes of a number, the most significant first.
unfoldable pub big_endian : ℕ → ℕ → Text
big_endian zero v = []
big_endian (suc n) v = big_endian n (v / 256) ++ v % 256 ∷ []

abbrev pub block_size : ℕ
block_size = 64

-- Four bytes of the hash from `offset`, without the sign bit; none, if one is out of range.
unfoldable pub binary_at : Text → ℕ → Option ℕ
binary_at hmac offset = Option.bind (get_elem? hmac offset) λ b0.
    Option.bind (get_elem? hmac (offset + 1)) λ b1. Option.bind (get_elem? hmac (offset + 2)) λ b2.
      Option.bind (get_elem? hmac (offset + 3))
        λ b3. some (b0 % 128 * 2 ^ 24 + b1 % 256 * 2 ^ 16 + b2 % 256 * 2 ^ 8 + b3 % 256)

pub binary_at-bound :
    (hmac : Text) (offset : ℕ)
    → offset + 3 < length hmac
    → (binary : ℕ) × (binary < 2 ^ 31) × (binary_at hmac offset ≡ some binary)
unfolding binary_at Option.bind
binary_at-bound hmac offset h =
    let (b0, e0) = get_elem?_exists hmac offset (omega arith) in
    let (b1, e1) = get_elem?_exists hmac (offset + 1) (omega arith) in
    let (b2, e2) = get_elem?_exists hmac (offset + 2) (omega arith) in
    let (b3, e3) = get_elem?_exists hmac (offset + 3) h in
    (
      b0 % 128 * 2 ^ 24 + b1 % 256 * 2 ^ 16 + b2 % 256 * 2 ^ 8 + b3 % 256,
      omega arith,
      rw (e0, e1, e2, e3),
    )

module _ (sha1 : Text → Text) where
  unfoldable pub padded_key : Text → Text
  padded_key secret =
      let key = if ltb block_size (length secret) then sha1 secret else secret in
      key ++ replicate (block_size - length key) 0

  unfoldable pub hmac_sha1 : Text → Text → Text
  unfolding padded_key xor
  hmac_sha1 secret message =
      let key = padded_key secret in
      let o_key_pad = map (xor 8 92) key in
      let i_key_pad = map (xor 8 54) key in sha1 (o_key_pad ++ sha1 (i_key_pad ++ message))

  -- The number that is printed.
  unfoldable pub otp : Text → ℕ → ℕ → ℕ → Option ℕ
  unfolding hmac_sha1 binary_at big_endian
  otp secret_key unix_time digits time_step =
      let hmac = hmac_sha1 secret_key (big_endian 8 (unix_time / time_step)) in
      Option.bind (get_elem? hmac (length hmac - 1))
        λ last. Option.bind (binary_at hmac (last % 16)) λ binary. some (binary % 10 ^ digits)

  -- If SHA-1 yields 20 bytes, no byte of the hash is read out of range, whatever the key and the
  -- time, and the key of six digits is below a million.
  pub otp-bound :
      (secret_key : Text) (unix_time time_step : ℕ)
      → ((s : Text) → length (sha1 s) ≡ 20)
      → (n : ℕ) × (n < 10 ^ 6) × (otp secret_key unix_time 6 time_step ≡ some n)
  unfolding otp hmac_sha1 Option.bind
  otp-bound secret_key unix_time time_step h =
      let hmac = hmac_sha1 secret_key (big_endian 8 (unix_time / time_step)) in
      let (last, e) = get_elem?_exists hmac (length hmac - 1) (omega (arith, h _)) in
      let (binary, _, e') = binary_at-bound hmac (last % 16) (omega (arith, h _)) in
      (binary % 10 ^ 6, omega arith, rw (e, e'))
