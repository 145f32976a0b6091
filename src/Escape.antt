-- ===== src/Escape.antt =====
-- The two escaping routines of src/support.cpp: `escape_json_entire_text` appends to a result, and
-- `escape_string` computes the length, allocates a buffer of backslashes, and writes into it.
pub mod Pieces
pub mod Buffer
pub mod RoundTrip
use tgbot_with_rest.Prelude.{
  ℕ, suc, ◌+◌, ◌-◌, ◌/◌, ◌%◌, Bool, true, false, ◌||◌, List, [], ◌∷◌, ◌++◌, ltb, leb, ◌==◌,
  if◌then◌else◌, length, take, set, replicate,
}
use tgbot_with_rest.Text.{Text}

-- A lower-case hexadecimal digit.
abbrev pub hex : ℕ → ℕ
hex d = if ltb d 10 then b'0' + d else b'a' + (d - 10)

-- `std::iscntrl` in the "C" locale.
abbrev pub iscntrl : ℕ → Bool
iscntrl c = ltb c 0x20 || c == 0x7f

-- `std::setw(4) << std::setfill('0')` of a byte in hexadecimal.
abbrev pub hex4 : ℕ → Text
hex4 c = b'0' ∷ b'0' ∷ hex (c / 16) ∷ hex (c % 16) ∷ []

-- One round of the `switch` of `escape_json_entire_text`.
unfoldable pub json_piece : ℕ → Text
json_piece c =
    if c == b'"'
    then b'\\' ∷ b'"' ∷ []
    else if c == b'\\'
    then b'\\' ∷ b'\\' ∷ []
    else if c == b'\x08'
    then b'\\' ∷ b'b' ∷ []
    else if c == b'\x0c'
    then b'\\' ∷ b'f' ∷ []
    else if c == b'\n'
    then b'\\' ∷ b'n' ∷ []
    else if c == b'\r'
    then b'\\' ∷ b'r' ∷ []
    else if c == b'\t'
    then b'\\' ∷ b't' ∷ []
    else if iscntrl c
    then b'\\' ∷ b'u' ∷ hex4 c
    else c ∷ []

json_from : Text → Text → Text
json_from result [] = result
json_from result (c ∷ input_text) = json_from (result ++ json_piece c) input_text

unfoldable pub escape_json_entire_text : Text → Text
unfolding json_from json_piece
escape_json_entire_text input_text = json_from [] input_text

-- The bytes that one character needs beyond its own.
pub extra : ℕ → ℕ
extra c =
    if c == b'"'
      || c == b'\\'
      || c == b'\x08'
      || c == b'\x0c'
      || c == b'\n'
      || c == b'\r'
      || c == b'\t'
    then 1
    else if leb c 0x1f
    then 5
    else 0

pub extra_from : ℕ → Text → ℕ
extra_from result [] = result
extra_from result (c ∷ s) = extra_from (result + extra c) s

unfoldable pub extra_space : Text → ℕ
unfolding extra_from extra
extra_space s = extra_from 0 s

-- `sprintf(&result[pos + 1], "u%04x", int(c))`, with its trailing null.
abbrev pub print_u : ℕ → ℕ → List ℕ → List ℕ
print_u pos c cells =
    set
      (set
        (set (set (set (set cells (pos + 1) b'u') (pos + 2) b'0') (pos + 3) b'0') (pos + 4)
          (hex (c / 16)))
        (pos + 5) (hex (c % 16)))
      (pos + 6) 0

-- One round of the second `switch`: the position and the cells, of which the last is the one behind
-- the string, its terminating null.
fill_step : ℕ → ℕ × List ℕ → ℕ × List ℕ
fill_step c (pos, cells) =
    if c == b'"'
    then (pos + 2, set cells (pos + 1) b'"')
    else if c == b'\\'
    then (pos + 2, cells)
    else if c == b'\x08'
    then (pos + 2, set cells (pos + 1) b'b')
    else if c == b'\x0c'
    then (pos + 2, set cells (pos + 1) b'f')
    else if c == b'\n'
    then (pos + 2, set cells (pos + 1) b'n')
    else if c == b'\r'
    then (pos + 2, set cells (pos + 1) b'r')
    else if c == b'\t'
    then (pos + 2, set cells (pos + 1) b't')
    else if leb c 0x1f
    then (pos + 6, set (print_u pos c cells) (pos + 6) b'\\')
    else (pos + 1, set cells pos c)

fill : Text → ℕ × List ℕ → ℕ × List ℕ
fill [] m = m
fill (c ∷ s) m = fill s (fill_step c m)

-- The cells when the loop has ended: `s.size() + space` of the string and the terminator.
unfoldable pub filled : Text → List ℕ
unfolding fill fill_step extra_space
filled s = (fill s (0, replicate (length s + extra_space s) b'\\' ++ 0 ∷ [])).1

unfoldable pub escape_string : Text → Text
unfolding filled extra_space
escape_string s = if extra_space s == 0 then s else take (length s + extra_space s) (filled s)
