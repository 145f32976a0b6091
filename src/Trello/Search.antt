-- ===== src/Trello/Search.antt =====
-- `has_label` and `is_match` of a card in src/trelloapi.cpp.
use tgbot_with_rest.Prelude.{
  Bool, true, false, ◌||◌, ◌&&◌, List, [], ◌∷◌, ◌++◌, if◌then◌else◌, is_empty,
}
use tgbot_with_rest.Text.{Text, text_eq}
use tgbot_with_rest.Numbers.{is_space}
use tgbot_with_rest.Http.{has_part}

-- `has_label` of a card with these labels.
unfoldable pub has_label : List Text → Text → Bool
unfolding text_eq
has_label [] label = false
has_label (card_label ∷ labels) label = text_eq card_label label || has_label labels label

abbrev add_word : Text → List Text → List Text
add_word [] ws = ws
add_word (c ∷ word) ws = (c ∷ word) ∷ ws

-- What `>>` reads word by word, behind a part of a word.
unfoldable pub words_from : Text → Text → List Text
words_from word [] = add_word word []
words_from word (c ∷ s) = elim (is_space c) [
  | true ↦ add_word word (words_from [] s)
  | false ↦ words_from (word ++ c ∷ []) s
]

abbrev all_found : Text → List Text → Bool
all_found field [] = true
all_found field (word ∷ ws) = has_part field word && all_found field ws

unfoldable pub is_match : Text → Text → Bool
unfolding words_from has_part
is_match field value_ = if is_empty value_ then true else all_found field (words_from [] value_)
