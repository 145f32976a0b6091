-- ===== src/Trello/GetCard.antt =====
-- `get_card` of src/trelloapi.cpp.
use tgbot_with_rest.Prelude.{not, ◌||◌, [], ◌++◌, Option, none, some, ◌==◌, if◌then◌else◌, keep_if}
use mathlib.Core.Option
use tgbot_with_rest.Text.{Text, utf8}
use tgbot_with_rest.Bot.World.{Qt}
use tgbot_with_rest.Bot.Notify.{truncate_msg_from_user}
use tgbot_with_rest.Json.{Boost}
use tgbot_with_rest.Http.{
  Request, http_get, no_body, Reply, Transfer, status_code, is_refused, c_str,
}
use tgbot_with_rest.Trello.{
  Api, TrelloResult, value, error, unknown, request_failed, request_invalid, not_found_404,
  JiraCard, card_url, credentials, string_at, bool_at,
}

-- `std::regex_replace(name, std::regex("[\r\t\n]+"), "")`.
abbrev pub remove_controls : Text → Text
remove_controls = keep_if (λ c. not (c == b'\r' || c == b'\t' || c == b'\n'))

-- The name of a card; it stays empty if reading it throws, since the exception is caught.
unfoldable pub card_name : Qt → (boost : Boost) → boost.Value → Text
unfolding string_at utf8 truncate_msg_from_user
card_name qt boost v = elim (string_at boost v (utf8 "name")) [
  | none ↦ []
  | some name ↦ truncate_msg_from_user qt (remove_controls name) 55
]

-- A card as the service describes it; `none` is an exception, that nothing catches here.
unfoldable pub read_card : Qt → (boost : Boost) → Text → boost.Value → Option JiraCard
unfolding card_name string_at bool_at utf8
read_card qt boost card_id v = elim (bool_at boost v (utf8 "closed")) [
  | none ↦ none
  | some closed ↦ elim (string_at boost v (utf8 "idList")) [
    | none ↦ none
    | some id_list ↦ some (record {
      id = card_id;
      is_closed = closed;
      id_list = id_list;
      name = card_name qt boost v;
    })
  ]
]

unfoldable pub get_card_request : Api → Text → Request
unfolding utf8 card_url credentials
get_card_request api card_id = record {
  method = http_get;
  url = card_url api card_id ++ utf8 "?" ++ credentials api;
  headers = [];
  body = no_body;
}

-- What `get_card` returns for a reply.
unfoldable pub card_of_reply : Qt → Boost → Text → Reply → Option (TrelloResult JiraCard)
unfolding status_code is_refused c_str read_card
card_of_reply qt boost card_id r =
    if status_code r == 404
    then some (error not_found_404)
    else if is_refused r
    then some (error request_failed)
    else elim (boost.parse (c_str r.answer)) [
      | none ↦ some (error request_invalid)
      | some v ↦ Option.map value (read_card qt boost card_id v)
    ]

unfoldable pub get_card : Api → Qt → Boost → Transfer → Text → Option (TrelloResult JiraCard)
unfolding get_card_request card_of_reply
get_card api qt boost transfer card_id = elim (transfer (get_card_request api card_id)) [
  | none ↦ some (error unknown)
  | some r ↦ card_of_reply qt boost card_id r
]
