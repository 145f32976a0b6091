-- ===== src/Trello/Cache/Names.antt =====
-- The names of cached files: `sha1` of src/support.cpp over the digest of OpenSSL, which is a
-- parameter, and `get_cache_key` of src/trelloapi.cpp.
use tgbot_with_rest.Prelude.{
  ℕ, ◌+◌, ◌-◌, ◌/◌, ◌%◌, ◌<◌, [], ◌∷◌, ◌++◌, ltb, if◌then◌else◌, length, All, ◌≡◌, refl, ap, ◌∙◌,
  sym, ◌↔◌, arith, All-append,
}
use tgbot_with_rest.Text.{Text, utf8, NoSlash}
use tgbot_with_rest.Trello.Cache.{cache_file}

-- A digit in base 16, in small letters.
abbrev hex_digit : ℕ → ℕ
hex_digit n = if ltb n 10 then b'0' + n else b'a' + (n - 10)

-- `std::hex << std::setw(2) << std::setfill('0')`.
unfoldable pub hex : Text → Text
hex [] = []
hex (b ∷ hash) = hex_digit (b / 16) ∷ hex_digit (b % 16) ∷ hex hash

unfoldable pub sha1 : (Text → Text) → Text → Text
unfolding hex
sha1 digest input = hex (digest input)

abbrev pub IsByte : ℕ → Type 0
IsByte c = c < 256

hex_digit_injective : (m n : ℕ) → m < 16 → n < 16 → hex_digit m ≡ hex_digit n → m ≡ n
hex_digit_injective m n h k e = ground arith

heads : {a b : ℕ} {s t : Text} → a ∷ s ≡ b ∷ t → (a ≡ b) × (s ≡ t)
heads e = (cc, cc)

byte_of_digits : (b c : ℕ) → b / 16 ≡ c / 16 → b % 16 ≡ c % 16 → b ≡ c
byte_of_digits b c h k = omega arith

hex_injective :
    (s t ext : Text)
    → All IsByte s
    → All IsByte t
    → length s ≡ length t
    → hex s ++ ext ≡ hex t ++ ext
    → s ≡ t
unfolding hex
hex_injective [] [] ext h k l e = refl
hex_injective [] (c ∷ t) ext h k l e = absurd (omega arith)
hex_injective (b ∷ s) [] ext h k l e = absurd (omega arith)
hex_injective (b ∷ s) (c ∷ t) ext h k l e =
    let (high, e') = heads e in
    let (low, rest) = heads e' in
    let hb = h.0 in
    let kc = k.0 in
    let q : b ≡ c =
      byte_of_digits b c (hex_digit_injective (b / 16) (c / 16) (omega arith) (omega arith) high)
        (hex_digit_injective (b % 16) (c % 16) (omega arith) (omega arith) low) in
    rw q (ap (◌∷◌ c) (hex_injective s t ext h.1 k.1 (omega arith) rest))

hex_digit-NoSlash : (n : ℕ) → NoSlash (hex_digit n)
hex_digit-NoSlash n = ground arith

hex-NoSlash : (s : Text) → All NoSlash (hex s)
unfolding hex
hex-NoSlash [] = tt
hex-NoSlash (b ∷ s) = (hex_digit-NoSlash (b / 16), (hex_digit-NoSlash (b % 16), hex-NoSlash s))

-- Two URLs have the same file in the cache, for the same extension, exactly if their digests are equal; and every
-- such file lies in the directory `cache` itself, if the extension has no slash, whatever the URL is.
-- (A digest has 20 bytes.)
pub cache_file_lem :
    (digest : Text → Text) (u v extension : Text)
    → ((s : Text) → (length (digest s) ≡ 20) × All IsByte (digest s))
    → All NoSlash extension
    → ((cache_file (sha1 digest) u extension ≡ cache_file (sha1 digest) v extension)
        ↔ (digest u ≡ digest v))
      × ((name : Text) × All NoSlash name
          × (cache_file (sha1 digest) u extension ≡ utf8 "cache/" ++ name))
unfolding cache_file sha1 utf8
cache_file_lem digest u v extension h k = (
  (
    λ e.
        hex_injective (digest u) (digest v) extension (h u).1 (h v).1 ((h u).0 ∙ sym (h v).0)
          (heads (heads (heads (heads (heads (heads e).1).1).1).1).1).1,
    λ e. ap (λ d. utf8 "cache" ++ (b'/' ∷ (hex d ++ extension))) e,
  ),
  (
    hex (digest u) ++ extension,
    All-append NoSlash (hex (digest u)) extension (hex-NoSlash (digest u)) k,
    refl,
  ),
)
