-- ===== src/Escape/Pieces.antt =====
-- Escaping as one piece for each character.
use tgbot_with_rest.Prelude.{
  ℕ, suc, ◌+◌, [], ◌∷◌, ◌++◌, ◌≡◌, refl, sym, ◌∙◌, arith, leb, ◌==◌, if◌then◌else◌, length,
  length-append, ◌≤◌, ap, append_assoc, append-nil,
}
use tgbot_with_rest.Text.{Text}
use tgbot_with_rest.Escape.{
  json_piece, json_from, escape_json_entire_text, extra, extra_from, extra_space, hex4,
}

-- What JSON writes for a character in a string, by its grammar: a two-character escape, `\u00XX`
-- for the other control characters, and itself for the rest.
unfoldable pub string_piece : ℕ → Text
string_piece c =
    if c == b'"'
    then b'\\' ∷ b'"' ∷ []
    else if c == b'\\'
    then b'\\' ∷ b'\\' ∷ []
    else if c == b'\x08'
    then b'\\' ∷ b'b' ∷ []
    else if c == b'\x0c'
    then b'\\' ∷ b'f' ∷ []
    else if c == b'\n'
    then b'\\' ∷ b'n' ∷ []
    else if c == b'\r'
    then b'\\' ∷ b'r' ∷ []
    else if c == b'\t'
    then b'\\' ∷ b't' ∷ []
    else if leb c 0x1f
    then b'\\' ∷ b'u' ∷ hex4 c
    else c ∷ []

abbrev pub pieces : (ℕ → Text) → Text → Text
pieces f [] = []
pieces f (c ∷ s) = f c ++ pieces f s

json_from-pieces : (r s : Text) → json_from r s ≡ r ++ pieces json_piece s
unfolding json_from
json_from-pieces r [] = sym (append-nil r)
json_from-pieces r (c ∷ s) =
    json_from-pieces (r ++ json_piece c) s ∙ append_assoc r (json_piece c) (pieces json_piece s)

pub escape_json-pieces : (s : Text) → escape_json_entire_text s ≡ pieces json_piece s
unfolding escape_json_entire_text
escape_json-pieces s = json_from-pieces [] s

-- The space that one character takes.
pub length-string_piece : (c : ℕ) → length (string_piece c) ≡ suc (extra c)
unfolding string_piece extra
length-string_piece c = ground arith

length-pieces_from :
    (n : ℕ) (s : Text) → length s + extra_from n s ≡ n + length (pieces string_piece s)
unfolding extra_from
length-pieces_from n [] = omega arith
length-pieces_from n (c ∷ s) = omega (
  arith,
  length-pieces_from (n + extra c) s,
  length-append (string_piece c) (pieces string_piece s),
  length-string_piece c,
)

pub length-pieces : (s : Text) → length s + extra_space s ≡ length (pieces string_piece s)
unfolding extra_space
length-pieces s = omega (arith, length-pieces_from 0 s)

length-le-pieces : (s : Text) → length s ≤ length (pieces string_piece s)
length-le-pieces [] = omega arith
length-le-pieces (c ∷ s) = omega (
  arith,
  length-le-pieces s,
  length-append (string_piece c) (pieces string_piece s),
  length-string_piece c,
)

piece_of_plain : (c : ℕ) → extra c ≡ 0 → string_piece c ≡ c ∷ []
unfolding string_piece extra
piece_of_plain c h = ground arith

-- Where nothing needs room nothing is escaped.
pub pieces_of_plain :
    (s : Text) → length (pieces string_piece s) ≡ length s → pieces string_piece s ≡ s
pieces_of_plain [] h = refl
pieces_of_plain (c ∷ s) h =
    let n = length-string_piece c in
    let m = length-append (string_piece c) (pieces string_piece s) in
    let k = length-le-pieces s in
    rw (piece_of_plain c (omega arith)) (ap (◌∷◌ c) (pieces_of_plain s (omega arith)))
