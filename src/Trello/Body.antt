-- ===== src/Trello/Body.antt =====
-- What a reader of JSON makes of the body of a new card (src/trelloapi.cpp).
use tgbot_with_rest.Prelude.{
  ℕ, false, [], ◌∷◌, ◌++◌, ◌≡◌, refl, ap, ◌<◌, ==_iff, some, ◌==◌, All, arith, if◌then◌else◌,
  Bool-cases, inl, inr,
}
use tgbot_with_rest.Text.{Text, utf8}
use tgbot_with_rest.Escape.Pieces.{string_piece, pieces}
use tgbot_with_rest.Escape.Buffer.{escape_string-pieces}
use tgbot_with_rest.Escape.RoundTrip.{next, plain, unescape_from, string_piece-Reads}
use tgbot_with_rest.Json.{
  tokens, tokens_from, turn, outside, within, str, mark, then_token, tokens-string,
}
use tgbot_with_rest.Trello.{mark_braces, card_field, card_body}

-- A text as the card gets it: a backslash stands in front of every opening brace.
abbrev pub braced : Text → Text
braced [] = []
braced (c ∷ s) = let rest = braced s in if c == b'{' then b'\\' ∷ b'{' ∷ rest else c ∷ rest

abbrev NoBrace : ℕ → Type 0
NoBrace c = (c == b'{') ≡ false

mark_braces-append : (s t : Text) → mark_braces (s ++ t) ≡ mark_braces s ++ mark_braces t
unfolding mark_braces
mark_braces-append [] t = refl
mark_braces-append (c ∷ s) t = ground (arith, mark_braces-append s t)

mark_braces_none : (s : Text) → All NoBrace s → mark_braces s ≡ s
unfolding mark_braces
mark_braces_none [] h = refl
mark_braces_none (c ∷ s) h = rw h.0 (ap (◌∷◌ c) (mark_braces_none s h.1))

string_piece_none : (c : ℕ) → c < 256 → NoBrace c → All NoBrace (string_piece c)
unfolding string_piece
string_piece_none c k h = ground arith

string_piece_brace : string_piece b'{' ≡ b'{' ∷ []
unfolding string_piece
string_piece_brace = refl

read_brace :
    (s t : Text)
    → unescape_from plain s ≡ some t
    → unescape_from plain (b'\\' ∷ b'\\' ∷ b'{' ∷ s) ≡ some (b'\\' ∷ b'{' ∷ t)
unfolding unescape_from next
read_brace s t h = rw h refl

marked-read :
    (s : Text)
    → All (λ c. c < 256) s
    → unescape_from plain (mark_braces (pieces string_piece s)) ≡ some (braced s)
unfolding mark_braces unescape_from
marked-read [] h = refl
marked-read (c ∷ s) h = elim (Bool-cases (c == b'{')) [
  | inl e ↦
      let q : c ≡ b'{' = (==_iff c b'{').0 e in
      rw (q, string_piece_brace)
        (read_brace (mark_braces (pieces string_piece s)) (braced s) (marked-read s h.1))
  | inr n ↦
      rw
        (
          n,
          mark_braces-append (string_piece c) (pieces string_piece s),
          mark_braces_none (string_piece c) (string_piece_none c h.0 n),
          string_piece-Reads c h.0 (mark_braces (pieces string_piece s)),
          marked-read s h.1,
        )
        refl
]

field-read :
    (s : Text) → All (λ c. c < 256) s → unescape_from plain (card_field s) ≡ some (braced s)
unfolding card_field
field-read s h = rw (escape_string-pieces s) (marked-read s h)

to_name :
    (f g : Text)
    → tokens (utf8 " { \"name\":\"" ++ (f ++ (utf8 "\", \"desc\": \"" ++ (g ++ utf8 "\" } "))))
      ≡ then_token (mark b'{') (
          then_token (str (utf8 "name")) (
            then_token (mark b':') (
              tokens_from
                (within [] plain)
                (f ++ b'"' ∷ (utf8 ", \"desc\": \"" ++ (g ++ utf8 "\" } "))))))
unfolding tokens tokens_from turn next utf8
to_name f g = refl

to_desc :
    (g : Text)
    → tokens_from outside (utf8 ", \"desc\": \"" ++ (g ++ utf8 "\" } "))
      ≡ then_token (mark b',') (
          then_token
            (str (utf8 "desc"))
            (then_token (mark b':') (tokens_from (within [] plain) (g ++ b'"' ∷ utf8 " } "))))
unfolding tokens_from turn next utf8
to_desc g = refl

to_end : tokens_from outside (utf8 " } ") ≡ some (mark b'}' ∷ [])
unfolding tokens_from turn utf8
to_end = refl

two_fields :
    (f g name description : Text)
    → unescape_from plain f ≡ some name
    → unescape_from plain g ≡ some description
    → tokens (utf8 " { \"name\":\"" ++ (f ++ (utf8 "\", \"desc\": \"" ++ (g ++ utf8 "\" } "))))
      ≡ some (
          mark b'{'
          ∷ str (utf8 "name")
          ∷ mark b':'
          ∷ str name
          ∷ mark b','
          ∷ str (utf8 "desc")
          ∷ mark b':'
          ∷ str description
          ∷ mark b'}'
          ∷ [])
two_fields f g name description h k =
    rw
      (
        to_name f g,
        tokens-string f name (utf8 ", \"desc\": \"" ++ (g ++ utf8 "\" } ")) h,
        to_desc g,
        tokens-string g description (utf8 " } ") k,
        to_end,
      )
      refl

-- Whatever bytes the title and the description have that create_new_card is given, the service reads
-- the body of the new card as one object with exactly the fields `name` and `desc`, whose values are
-- these two arguments with a backslash in front of every opening brace: no argument ends its field, or
-- adds another.
pub card_body-tokens :
    (name description : Text)
    → All (λ c. c < 256) name
    → All (λ c. c < 256) description
    → tokens (card_body name description)
      ≡ some (
          mark b'{'
          ∷ str (utf8 "name")
          ∷ mark b':'
          ∷ str (braced name)
          ∷ mark b','
          ∷ str (utf8 "desc")
          ∷ mark b':'
          ∷ str (braced description)
          ∷ mark b'}'
          ∷ [])
unfolding card_body
card_body-tokens name description h k =
    two_fields _ _ (braced name) (braced description) (field-read name h) (field-read description k)
