-- ===== src/Json.antt =====
-- A reader of JSON into tokens, an independent description of what a service makes of the bodies
-- that src/trelloapi.cpp and src/jiraapi.cpp put together; and what they take from boost::json.
use tgbot_with_rest.Prelude.{
  ℕ, Bool, true, false, ◌||◌, List, [], ◌∷◌, ◌++◌, ◌≡◌, refl, sym, ap, ◌∙◌, Option, none, some,
  ◌==◌, if◌then◌else◌, append-nil, append_assoc, Option-cases, Bool-cases, inl, inr, arith,
}
use tgbot_with_rest.Text.{Text}
use tgbot_with_rest.Escape.RoundTrip.{char, Mode, plain, slash, digits, next, unescape_from}

-- What the program calls of boost::json: `parse`, where `none` is an error code, `at`, and
-- `value_to` for a string and for a Boolean, where `none` is an exception.
pub record Boost : Type 1 where
  pub Value : Type 0
  pub parse : Text → Option Value
  pub at : Value → Text → Option Value
  pub to_string : Value → Option Text
  pub to_bool : Value → Option Bool

-- A string, or another character that is not blank.
pub data Token : Type 0 where
  str : Text → Token
  mark : ℕ → Token

-- Between the strings, or within one, behind the text read so far.
pub data State : Type 0 where
  outside : State
  within : Text → Mode → State

abbrev is_blank : ℕ → Bool
is_blank c = c == b' ' || c == b'\t' || c == b'\n' || c == b'\r'

abbrev closes : Mode → ℕ → Bool
closes plain a = a == b'"'
closes slash a = false
closes (digits k v) a = false

abbrev read_on : Text → Option (Mode × Option ℕ) → Option (State × Option Token)
read_on t none = none
read_on t (some (m, none)) = some (within t m, none)
read_on t (some (m, some c)) = some (within (t ++ c ∷ []) m, none)

unfoldable pub turn : State → ℕ → Option (State × Option Token)
turn outside a =
    if a == b'"'
    then some (within [] plain, none)
    else if is_blank a
    then some (outside, none)
    else some (outside, some (mark a))
turn (within t m) a = if closes m a then some (outside, some (str t)) else read_on t (next m a)

abbrev pub then_token : Token → Option (List Token) → Option (List Token)
then_token a none = none
then_token a (some ts) = some (a ∷ ts)

abbrev pub put : Option Token → Option (List Token) → Option (List Token)
put none r = r
put (some a) r = then_token a r

unfoldable pub tokens_from : State → Text → Option (List Token)
tokens_from outside [] = some []
tokens_from (within t m) [] = none
tokens_from st (a ∷ s) = elim (turn st a) [
  | none ↦ none
  | some (st', out) ↦ put out (tokens_from st' s)
]

unfoldable pub tokens : Text → Option (List Token)
unfolding tokens_from turn next
tokens s = tokens_from outside s

-- A part of a string is read on to the next part.
abbrev ReadsOn : Mode → Text → Type 0
ReadsOn m s =
    (t acc rest : Text)
    → unescape_from m s ≡ some t
    → tokens_from (within acc m) (s ++ rest) ≡ tokens_from (within (acc ++ t) plain) rest

-- What the reader of one string did on a character, the tokens do as well.
read_on_lem :
    (r : Option (Mode × Option ℕ)) (s t acc rest : Text)
    → ((m : Mode) → ReadsOn m s)
    → elim r [
      | none ↦ none
      | some (m', out) ↦ elim (unescape_from m' s) [ none ↦ none | some u ↦ some (char out u) ]
    ]
      ≡ some t
    → elim (read_on acc r) [ none ↦ none | some (st, out) ↦ put out (tokens_from st (s ++ rest)) ]
      ≡ tokens_from (within (acc ++ t) plain) rest
read_on_lem none s t acc rest ih h = ground arith
read_on_lem (some (m, none)) s t acc rest ih h = elim (Option-cases (unescape_from m s)) [
  | inl e ↦ ground arith
  | inr (u, e) ↦ ih m t acc rest (ground arith)
]
read_on_lem (some (m, some c)) s t acc rest ih h = elim (Option-cases (unescape_from m s)) [
  | inl e ↦ ground arith
  | inr (u, e) ↦
      let q : c ∷ u ≡ t = ground arith in
      ih m u (acc ++ c ∷ []) rest e
      ∙ ap (λ x. tokens_from (within x plain) rest)
          (append_assoc acc (c ∷ []) u ∙ ap (λ x. acc ++ x) q)
]

next-quote : (a : ℕ) → (a == b'"') ≡ true → next plain a ≡ none
unfolding next
next-quote a e = ground arith

-- A text that a reader of one string accepts is read as a part of a string.
pub tokens-part : (m : Mode) (s : Text) → ReadsOn m s
unfolding unescape_from tokens_from turn
tokens-part plain [] t acc rest h =
    let q : [] ≡ t = ground arith in
    ap (λ x. tokens_from (within x plain) rest) (sym (append-nil acc) ∙ ap (λ x. acc ++ x) q)
tokens-part slash [] t acc rest h = absurd (ground arith)
tokens-part (digits k v) [] t acc rest h = absurd (ground arith)
tokens-part plain (a ∷ s) t acc rest h = elim (Bool-cases (a == b'"')) [
  | inl e ↦ let q = next-quote a e in absurd (ground arith)
  | inr n ↦ rw (n, tokens_from) (read_on_lem (next plain a) s t acc rest (λ m. tokens-part m s) h)
]
tokens-part slash (a ∷ s) t acc rest h =
    read_on_lem (next slash a) s t acc rest (λ m. tokens-part m s) h
tokens-part (digits k v) (a ∷ s) t acc rest h =
    read_on_lem (next (digits k v) a) s t acc rest (λ m. tokens-part m s) h

-- With a quote behind it, it is one token.
pub tokens-string :
    (s t rest : Text)
    → unescape_from plain s ≡ some t
    → tokens_from (within [] plain) (s ++ b'"' ∷ rest)
      ≡ then_token (str t) (tokens_from outside rest)
unfolding tokens_from turn
tokens-string s t rest h = tokens-part plain s t [] (b'"' ∷ rest) h

abbrev pub then_tokens : List Token → Option (List Token) → Option (List Token)
then_tokens [] r = r
then_tokens (a ∷ ts) r = then_token a (then_tokens ts r)

-- From one state to another over a text, with these tokens.
pub record Reading (st : State) (t : Text) (st' : State) (ts : List Token) : Type 0 where
  pub read : (rest : Text) → tokens_from st (t ++ rest) ≡ then_tokens ts (tokens_from st' rest)

then_tokens-append :
    (ts us : List Token) (r : Option (List Token))
    → then_tokens ts (then_tokens us r) ≡ then_tokens (ts ++ us) r
then_tokens-append [] us r = refl
then_tokens-append (a ∷ ts) us r = ap (then_token a) (then_tokens-append ts us r)

pub Reading-append :
    {st st' st'' : State} {t u : Text} {ts us : List Token}
    → Reading st t st' ts
    → Reading st' u st'' us
    → Reading st (t ++ u) st'' (ts ++ us)
Reading-append {st = st} {st'' = st''} {t = t} {u = u} {ts = ts} {us = us} h k = record {
  read = λ rest.
      ap (tokens_from st) (append_assoc t u rest)
      ∙ (h.read (u ++ rest)
          ∙ (ap (then_tokens ts) (k.read rest) ∙ then_tokens-append ts us (tokens_from st'' rest)));
}

pub part-Reading :
    (acc s t : Text)
    → unescape_from plain s ≡ some t
    → Reading (within acc plain) s (within (acc ++ t) plain) []
part-Reading acc s t h = record { read = λ rest. tokens-part plain s t acc rest h }
