-- ===== src/Webhook.antt =====
-- The secret of the webhook: `secure_equals` and `webhook_token_valid` of src/support.cpp. What Qt
-- finds in the query of a URL is a parameter.
pub mod Handler
use tgbot_with_rest.Prelude.{
  ℕ, Bool, true, false, [], ◌∷◌, ◌==◌, ==_iff, ◌<◌, ◌≡◌, ◌≢◌, ◌↔◌, refl, subst, if◌then◌else◌,
  length, is_empty, All, Bool-cases, inl, inr, arith,
}
use tgbot_with_rest.Text.{Text}
use tgbot_with_rest.Bits.{
  xor, bit_or, Fits, byte-Fits, xor-same, xor-zero, xor-Fits, bit_or-Fits, bit_or-zero,
  bit_or-of_zeros,
}

-- The loop over all bytes, whatever the first difference.
unfoldable pub diff_of : ℕ → Text → Text → ℕ
unfolding bit_or xor
diff_of diff (a ∷ received) (b ∷ expected) = diff_of (bit_or 8 diff (xor 8 a b)) received expected
diff_of diff _ _ = diff

unfoldable pub secure_equals : Text → Text → Bool
unfolding diff_of
secure_equals received expected =
    if length received == length expected then diff_of 0 received expected == 0 else false

unfoldable pub webhook_token_valid : (Text → Text) → Text → Text → Bool
unfolding secure_equals
webhook_token_valid token url secret =
    if is_empty secret then false else secure_equals (token url) secret

abbrev Bytes : Text → Type 0
Bytes = All (λ c. c < 256)

diff_of-zero :
    (d : ℕ) (r e : Text)
    → Fits 8 d
    → Bytes r
    → Bytes e
    → length r ≡ length e
    → diff_of d r e ≡ 0
    → (d ≡ 0) × (r ≡ e)
unfolding diff_of
diff_of-zero d [] [] f h k l z = (z, refl)
diff_of-zero d [] (b ∷ e) f h k l z = absurd (omega arith)
diff_of-zero d (a ∷ r) [] f h k l z = absurd (omega arith)
diff_of-zero d (a ∷ r) (b ∷ e) f h k l z =
    let (o, t) =
      diff_of-zero (bit_or 8 d (xor 8 a b)) r e (bit_or-Fits 8 d (xor 8 a b)) h.1 k.1 (omega arith)
        z in
    let (p, x) = bit_or-zero 8 d (xor 8 a b) f (xor-Fits 8 a b) o in
    (p, cc (xor-zero 8 a b (byte-Fits a h.0) (byte-Fits b k.0) x, t))

diff_of-same : (r : Text) → diff_of 0 r r ≡ 0
unfolding diff_of
diff_of-same [] = refl
diff_of-same (a ∷ r) = rw (xor-same 8 a, bit_or-of_zeros 8) (diff_of-same r)

secure_equals_lem : (r e : Text) → Bytes r → Bytes e → (secure_equals r e ≡ true) ↔ (r ≡ e)
unfolding secure_equals
secure_equals_lem r e h k = (
  λ t. elim (Bool-cases (length r == length e)) [
    | inl l ↦
        (diff_of-zero 0 r e refl h k ((==_iff (length r) (length e)).0 l)
          ((==_iff (diff_of 0 r e) 0).0 (ground arith))).1
    | inr l ↦ absurd (ground arith)
  ],
  λ q.
      subst (λ s. (if length r == length s then diff_of 0 r s == 0 else false) ≡ true) q
        (rw ((==_iff (length r) (length r)).1 refl, diff_of-same r) refl),
)

-- The webhook accepts a URL exactly if the secret is set and the token, byte for byte, is the
-- secret.
pub webhook_token_valid_lem :
    (token : Text → Text) (url secret : Text)
    → Bytes (token url)
    → Bytes secret
    → (webhook_token_valid token url secret ≡ true) ↔ ((secret ≢ []) × (token url ≡ secret))
unfolding webhook_token_valid
webhook_token_valid_lem token url [] h k = (λ t. absurd (ground arith), λ (n, e). absurd (n refl))
webhook_token_valid_lem token url (c ∷ secret) h k = (
  λ t. (λ e. absurd (ground (arith, e)), (secure_equals_lem (token url) (c ∷ secret) h k).0 t),
  λ p. (secure_equals_lem (token url) (c ∷ secret) h k).1 p.1,
)
