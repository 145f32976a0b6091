-- ===== src/Trello.antt =====
-- The Trello client of src/trelloapi.cpp: the requests that it makes, and what it returns for the
-- replies. The parser of JSON and the transfers are parameters.
pub mod Body
pub mod Codes
pub mod Cache
pub mod GetCard
pub mod Search
use tgbot_with_rest.Prelude.{
  ℕ, suc, Bool, true, false, not, ◌||◌, ◌&&◌, List, [], ◌∷◌, ◌++◌, Option, none, some, ◌==◌,
  if◌then◌else◌, keep_if, is_empty,
}
use mathlib.Core.Option
use tgbot_with_rest.Text.{Text, utf8, text_eq, starts_with}
use tgbot_with_rest.Structures.{header_content_type_app_json}
use tgbot_with_rest.Escape.{escape_string}
use tgbot_with_rest.Bot.World.{Qt}
use tgbot_with_rest.Bot.Notify.{truncate_msg_from_user}
use tgbot_with_rest.Numbers.{is_space}
use tgbot_with_rest.Json.{Boost}
use tgbot_with_rest.Http.{
  Request, http_get, http_put, http_post, no_body, post_fields, form, contents, buffer, Reply,
  Transfer, curle_ok, status_code, is_refused, c_str, has_part,
}

-- `no_error` is the source's `none`.
pub data TrelloError : Type 0 where
  no_error unknown request_failed request_invalid not_found_404 : TrelloError

-- `result<T, trello_error>` of src/result.h.
pub data TrelloResult (A : Type 0) : Type 0 where
  value : A → TrelloResult A
  error : TrelloError → TrelloResult A

abbrev pub is_ok : {A : Type 0} → TrelloResult A → Bool
is_ok (value a) = true
is_ok (error e) = false

abbrev pub is_not_found : {A : Type 0} → TrelloResult A → Bool
is_not_found (error not_found_404) = true
is_not_found _ = false

pub record Api : Type 0 where
  pub api_key : Text
  pub user_token : Text
  pub apiprefix : Text

-- The fields of a card that are set; `description` and `name_simple` never are.
pub record JiraCard : Type 0 where
  pub id : Text
  pub is_closed : Bool
  pub id_list : Text
  pub name : Text

unfoldable pub card_url : Api → Text → Text
unfolding utf8
card_url api card_id = api.apiprefix ++ utf8 "cards/" ++ card_id

-- `key=…&token=…`.
unfoldable pub credentials : Api → Text
unfolding utf8
credentials api = utf8 "key=" ++ api.api_key ++ utf8 "&token=" ++ api.user_token

-- The last element of a path.
unfoldable pub filename_from : Text → Text → Text
filename_from name [] = name
filename_from name (c ∷ path) = elim (c == b'/') [
  | true ↦ filename_from [] path
  | false ↦ filename_from (name ++ c ∷ []) path
]

unfoldable pub img_request : Api → Text → Text → Text → Request
unfolding utf8 card_url credentials filename_from
img_request api card_id img_path file = record {
  method = http_post;
  url = card_url api card_id ++ utf8 "/attachments?" ++ credentials api;
  headers = [];
  body = form (
      contents (utf8 "cache-control:") (utf8 "no-cache")
      ∷ contents (utf8 "content-type:") (utf8 "multipart/form-data")
      ∷ buffer (utf8 "file") (filename_from [] img_path) file
      ∷ []);
}

-- A file that cannot be read has no contents. The status of the answer is not looked at.
unfoldable pub add_img_to_card : Api → (Text → Option Text) → Transfer → Text → Text → ℕ
unfolding img_request
add_img_to_card api read_file transfer card_id img_path =
    let file : Text = elim (read_file img_path) [ none ↦ [] | some t ↦ t ] in
    elim (transfer (img_request api card_id img_path file)) [
      | none ↦ 0
      | some r ↦ if r.curl_code == curle_ok then 0 else 7
    ]

-- An update of a card, `body` behind the credentials.
unfoldable pub update_request : Api → Text → Text → Request
unfolding utf8 card_url header_content_type_app_json
update_request api card_id body = record {
  method = http_put;
  url = card_url api card_id;
  headers = header_content_type_app_json ∷ [];
  body =
      post_fields (
        utf8 " { \"key\": \"" ++ api.api_key ++ utf8 "\", \"token\": \"" ++ api.user_token ++ body);
}

-- What both updates return for a reply.
unfoldable pub update_code : Boost → Option Reply → ℕ
unfolding is_refused c_str
update_code boost none = 1
update_code boost (some r) =
    if is_refused r then 2 else elim (boost.parse (c_str r.answer)) [ none ↦ 3 | some v ↦ 0 ]

unfoldable pub change_card_color : Api → Boost → Transfer → Text → Text → ℕ
unfolding utf8 update_request update_code
change_card_color api boost transfer card_id color = update_code boost (
    transfer (
      update_request api card_id (
        utf8 "\" ,\"cover\": {\"color\": \""
        ++ color
        ++ utf8 "\", \"size\": \"full\", \"brightness\": \"light\" } } ")))

unfoldable pub archiving_card : Api → Boost → Transfer → Text → ℕ
unfolding utf8 update_request update_code
archiving_card api boost transfer card_id =
    update_code boost (transfer (update_request api card_id (utf8 "\" , \"closed\": \"true\" } ")))

-- `boost::replace_all(s, "{", "\\\\{")`.
unfoldable pub mark_braces : Text → Text
mark_braces [] = []
mark_braces (c ∷ s) =
    let rest = mark_braces s in if c == b'{' then b'\\' ∷ b'\\' ∷ b'{' ∷ rest else c ∷ rest

unfoldable pub card_field : Text → Text
unfolding mark_braces escape_string
card_field s = mark_braces (escape_string s)

unfoldable pub card_body : Text → Text → Text
unfolding utf8 card_field
card_body card_name card_description =
    utf8 " { \"name\":\""
    ++ (card_field card_name
        ++ (utf8 "\", \"desc\": \"" ++ (card_field card_description ++ utf8 "\" } ")))

unfoldable pub card_request : Api → Text → Text → Text → Request
unfolding utf8 credentials card_body header_content_type_app_json
card_request api list_id card_name card_description = record {
  method = http_post;
  url = api.apiprefix ++ utf8 "cards?idList=" ++ list_id ++ utf8 "&" ++ credentials api;
  headers = header_content_type_app_json ∷ [];
  body = post_fields (card_body card_name card_description);
}

-- `value_to<std::string>(v.at(key))`; `none` is an exception.
unfoldable pub string_at : (boost : Boost) → boost.Value → Text → Option Text
string_at boost v key = elim (boost.at v key) [ none ↦ none | some w ↦ boost.to_string w ]

unfoldable pub bool_at : (boost : Boost) → boost.Value → Text → Option Bool
bool_at boost v key = elim (boost.at v key) [ none ↦ none | some w ↦ boost.to_bool w ]

-- The id of the created card; `none` is an exception.
unfoldable pub create_new_card :
    Api → Boost → Transfer → Text → Text → Text → Option (TrelloResult Text)
unfolding card_request is_refused c_str string_at utf8
create_new_card api boost transfer list_id card_name card_description =
    elim (transfer (card_request api list_id card_name card_description)) [
      | none ↦ some (error unknown)
      | some r ↦
          if is_refused r
          then some (error request_failed)
          else elim (boost.parse (c_str r.answer)) [
            | none ↦ some (error request_invalid)
            | some v ↦ Option.map value (string_at boost v (utf8 "id"))
          ]
    ]
