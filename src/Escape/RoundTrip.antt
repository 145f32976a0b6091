-- ===== src/Escape/RoundTrip.antt =====
-- A JSON reader gives back the text that was escaped.
use tgbot_with_rest.Prelude.{
  ℕ, zero, suc, ◌+◌, ◌-◌, ◌*◌, ◌/◌, ◌%◌, ◌<◌, Bool, [], ◌∷◌, ◌++◌, ◌≡◌, refl, ap, ◌∙◌, Option, none,
  some, arith, leb, ltb, ◌==◌, if◌then◌else◌, ◌||◌, ◌&&◌, All, Bool-cases, inl, inr, ◌≢◌, sym, true,
  false, ==_iff,
}
use native.Mathlib.Decide.{ℕ_discrete}
use tgbot_with_rest.Text.{Text}
use tgbot_with_rest.Escape.{json_piece, escape_json_entire_text, escape_string, hex, hex4}
use tgbot_with_rest.Escape.Pieces.{string_piece, pieces, escape_json-pieces}
use tgbot_with_rest.Escape.Buffer.{escape_string-pieces}

-- Where a reader of a JSON string stands: in the text, behind a backslash, or in the digits of `\u`,
-- with the digits to come behind the next one and the value so far.
pub data Mode : Type 0 where
  plain slash : Mode
  digits : ℕ → ℕ → Mode

abbrev unhex : ℕ → ℕ
unhex d = if ltb d b'a' then d - b'0' else d - b'a' + 10

abbrev is_hex : ℕ → Bool
is_hex d = (leb b'0' d && leb d b'9') || (leb b'a' d && leb d b'f')

-- One character of input: the new mode, and the character that is complete, if one is. A bare quote,
-- a bare control character and an unknown escape are errors.
unfoldable pub next : Mode → ℕ → Option (Mode × Option ℕ)
next plain a =
    if a == b'\\'
    then some (slash, none)
    else if ltb a 0x20 || a == b'"'
    then none
    else some (plain, some a)
next slash a =
    if a == b'"' || a == b'\\' || a == b'/'
    then some (plain, some a)
    else if a == b'b'
    then some (plain, some b'\x08')
    else if a == b'f'
    then some (plain, some b'\x0c')
    else if a == b'n'
    then some (plain, some b'\n')
    else if a == b'r'
    then some (plain, some b'\r')
    else if a == b't'
    then some (plain, some b'\t')
    else if a == b'u'
    then some (digits 3 0, none)
    else none
next (digits zero v) a = if is_hex a then some (plain, some (v * 16 + unhex a)) else none
next (digits (suc k) v) a = if is_hex a then some (digits k (v * 16 + unhex a), none) else none

abbrev pub char : Option ℕ → Text → Text
char none s = s
char (some c) s = c ∷ s

unfoldable pub unescape_from : Mode → Text → Option Text
unescape_from plain [] = some []
unescape_from _ [] = none
unescape_from m (a ∷ s) = elim (next m a) [
  | none ↦ none
  | some (m', out) ↦ elim (unescape_from m' s) [ none ↦ none | some t ↦ some (char out t) ]
]

unfoldable pub unescape : Text → Option Text
unfolding unescape_from next
unescape s = unescape_from plain s

unhex-hex : (d : ℕ) → d < 16 → (is_hex (hex d) ≡ true) × (unhex (hex d) ≡ d)
unhex-hex d h = ground arith

abbrev pub then_char : ℕ → Option Text → Option Text
then_char c r = elim r [ none ↦ none | some t ↦ some (c ∷ t) ]

keep : (r : Option Text) → elim r [ none ↦ none | some t ↦ some t ] ≡ r
keep none = refl
keep (some t) = refl

pub pass :
    (m m' : Mode) (a : ℕ) (s : Text)
    → next m a ≡ some (m', none)
    → unescape_from m (a ∷ s) ≡ unescape_from m' s
unfolding unescape_from
pass m m' a s e = rw (e, unescape_from) (keep (unescape_from m' s))

pub emit :
    (m m' : Mode) (a c : ℕ) (s : Text)
    → next m a ≡ some (m', some c)
    → unescape_from m (a ∷ s) ≡ then_char c (unescape_from m' s)
unfolding unescape_from
emit m m' a c s e = rw (e, unescape_from)

next-hex :
    (k v d : ℕ) → d < 16 → next (digits (suc k) v) (hex d) ≡ some (digits k (v * 16 + d), none)
unfolding next
next-hex k v d h = let (p, q) = unhex-hex d h in rw (p, q)

next-hex_last : (v d : ℕ) → d < 16 → next (digits zero v) (hex d) ≡ some (plain, some (v * 16 + d))
unfolding next
next-hex_last v d h = let (p, q) = unhex-hex d h in rw (p, q)

hex4-read :
    (c : ℕ) (s : Text)
    → c < 256
    → unescape_from plain ((b'\\' ∷ b'u' ∷ hex4 c) ++ s) ≡ then_char c (unescape_from plain s)
unfolding next
hex4-read c s h =
    pass plain slash b'\\' _ refl
    ∙ pass slash (digits 3 0) b'u' _ refl
    ∙ pass (digits 3 0) (digits 2 0) b'0' _ refl
    ∙ pass (digits 2 0) (digits 1 0) b'0' _ refl
    ∙ pass (digits 1 0) (digits 0 (0 * 16 + c / 16)) (hex (c / 16)) _
        (next-hex 0 0 (c / 16) (omega arith))
    ∙ emit (digits 0 (0 * 16 + c / 16)) plain (hex (c % 16)) ((0 * 16 + c / 16) * 16 + c % 16) s
        (next-hex_last _ (c % 16) (omega arith))
    ∙ ap (λ d. then_char d (unescape_from plain s)) (omega arith)

-- Reading what was written for one character.
abbrev pub Reads : ℕ → Text → Type 0
Reads c piece = (s : Text) → unescape_from plain (piece ++ s) ≡ then_char c (unescape_from plain s)

short-Reads :
    (c d v : ℕ) → (c == d) ≡ true → next slash v ≡ some (plain, some d) → Reads c (b'\\' ∷ v ∷ [])
unfolding next
short-Reads c d v e h s =
    pass plain slash b'\\' (v ∷ s) refl
    ∙ emit slash plain v c s (h ∙ ap (λ x. some (plain, some x)) (sym ((==_iff c d).0 e)))

plain-Reads :
    (c : ℕ) → (c == b'"') ≡ false → (c == b'\\') ≡ false → leb c 0x1f ≡ false → Reads c (c ∷ [])
unfolding next
plain-Reads c q b h s = emit plain plain c c s (ground arith)

pub string_piece-Reads : (c : ℕ) → c < 256 → Reads c (string_piece c)
unfolding string_piece next
string_piece-Reads c h s = elim (Bool-cases (c == b'"')) [
  | inl e ↦ rw e (short-Reads c b'"' b'"' e refl s)
  | inr n₀ ↦ rw n₀ (elim (Bool-cases (c == b'\\')) [
    | inl e ↦ rw e (short-Reads c b'\\' b'\\' e refl s)
    | inr n₁ ↦ rw n₁ (elim (Bool-cases (c == b'\x08')) [
      | inl e ↦ rw e (short-Reads c b'\x08' b'b' e refl s)
      | inr n₂ ↦ rw n₂ (elim (Bool-cases (c == b'\x0c')) [
        | inl e ↦ rw e (short-Reads c b'\x0c' b'f' e refl s)
        | inr n₃ ↦ rw n₃ (elim (Bool-cases (c == b'\n')) [
          | inl e ↦ rw e (short-Reads c b'\n' b'n' e refl s)
          | inr n₄ ↦ rw n₄ (elim (Bool-cases (c == b'\r')) [
            | inl e ↦ rw e (short-Reads c b'\r' b'r' e refl s)
            | inr n₅ ↦ rw n₅ (elim (Bool-cases (c == b'\t')) [
              | inl e ↦ rw e (short-Reads c b'\t' b't' e refl s)
              | inr n₆ ↦ rw n₆ (elim (Bool-cases (leb c 0x1f)) [
                | inl e ↦ rw e (hex4-read c s h)
                | inr n₇ ↦ rw n₇ (plain-Reads c n₀ n₁ n₇ s)
              ])
            ])
          ])
        ])
      ])
    ])
  ])
]

-- The two routines differ at 0x7f only, which one of them writes as `\u007f`.
json_piece-string_piece : (c : ℕ) → c ≢ 0x7f → json_piece c ≡ string_piece c
unfolding json_piece string_piece
json_piece-string_piece c h = ground arith

delete_piece : json_piece 0x7f ≡ b'\\' ∷ b'u' ∷ hex4 0x7f
unfolding json_piece
delete_piece = refl

pub json_piece-Reads : (c : ℕ) → c < 256 → Reads c (json_piece c)
json_piece-Reads c h s = elim (ℕ_discrete c 0x7f) [
  | yes e ↦ rw e (rw delete_piece (hex4-read 0x7f s (omega arith)))
  | no n ↦ rw (json_piece-string_piece c n) (string_piece-Reads c h s)
]

pub pieces-read :
    (f : ℕ → Text)
    → ((c : ℕ) → c < 256 → Reads c (f c))
    → (s : Text) → All (λ c. c < 256) s
    → unescape_from plain (pieces f s) ≡ some s
unfolding unescape_from
pieces-read f r [] h = refl
pieces-read f r (c ∷ s) h = r c h.0 (pieces f s) ∙ ap (then_char c) (pieces-read f r s h.1)

-- Whatever bytes a text has, a JSON reader accepts what either routine makes of it, as the contents
-- of one string, and reads back the same text.
pub unescape-escape :
    (s : Text)
    → All (λ c. c < 256) s
    → (unescape (escape_string s) ≡ some s) × (unescape (escape_json_entire_text s) ≡ some s)
unfolding unescape
unescape-escape s h = (
  rw (escape_string-pieces s) (pieces-read string_piece string_piece-Reads s h),
  rw (escape_json-pieces s) (pieces-read json_piece json_piece-Reads s h),
)
