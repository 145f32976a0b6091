-- ===== src/Jira.antt =====
-- The Jira client of src/jiraapi.cpp: its requests, and what it returns for the replies. The transfers
-- and the parsers of JSON are parameters.
pub mod Body
pub mod Codes
pub mod Letters
use tgbot_with_rest.Prelude.{
  ℕ, ℤ, pos, negsuc, suc, Bool, true, false, List, [], ◌∷◌, ◌++◌, Option, none, some, ◌==◌, ltb,
  ◌-◌, ◌%◌, ◌^◌, if◌then◌else◌,
}
use tgbot_with_rest.Text.{Text, utf8}
use tgbot_with_rest.Numbers.{itoa, atol}
use tgbot_with_rest.Structures.{NewTask, header_content_type_app_json}
use tgbot_with_rest.Bot.World.{Qt}
use tgbot_with_rest.Bot.Notify.{truncate_msg_from_user}
use tgbot_with_rest.Assignees.{Notified, remember_assignee}
use tgbot_with_rest.Json.{Boost}
use tgbot_with_rest.Http.{
  Request, http_get, http_post, no_body, post_fields, form, buffer, contents, Reply, Transfer,
  curle_ok, status_code, is_refused, c_str,
}
use tgbot_with_rest.Trello.{string_at, update_code}

pub record Jira : Type 0 where
  pub token : Text
  pub base_url : Text
  pub browse_url : Text
  pub mail_sender_path : Text

unfoldable pub bearer_token : Jira → Text
unfolding utf8
bearer_token jira = utf8 "Authorization: Bearer " ++ jira.token

abbrev pub json_headers : Jira → List Text
json_headers jira =
    header_content_type_app_json ∷ utf8 "Accept: application/json" ∷ bearer_token jira ∷ []

-- The literals of the body of a new task, between the texts that it is made of.
abbrev pub to_project : Text
to_project = utf8 "{ \"fields\": { \"project\" : { \"key\": \""

abbrev pub to_summary : Text
to_summary =
    utf8
      "\" }, \"issuetype\" : { \"name\": \"Задача\" },\n                                     \"summary\" : \""

abbrev pub to_second : Text
to_second = utf8 "; Проект: "

abbrev pub to_section : Text
to_section = utf8 "\", \"labels\" : [\"Секция:"

abbrev pub to_link : Text
to_link = utf8 "\", \"https://t.me/"

abbrev pub to_description : Text
to_description = utf8 "\"],\n                                      \"description\" : \""

abbrev pub to_name : Text
to_name = utf8 "\\n\\n--   \\nC уважением,\\n"

abbrev pub to_telegram : Text
to_telegram = utf8 "\\nTelegram: https://t.me/"

abbrev pub to_close : Text
to_close = utf8 "\"}}"

unfoldable pub task_body : Text → Text → Text → NewTask → Text
task_body project_name s_subj s_project t =
    to_project
    ++ (project_name
        ++ (to_summary
            ++ (s_subj
                ++ (to_second
                    ++ (s_project
                        ++ (to_section
                            ++ (t.section
                                ++ (to_link
                                    ++ (t.consumer_tg_username_link
                                        ++ (to_description
                                            ++ (t.description
                                                ++ (to_name
                                                    ++ (t.consumer_name
                                                        ++ (to_telegram
                                                            ++ (t.consumer_tg_username_link
                                                            ++ (to_close))))))))))))))))

unfoldable pub task_request : Jira → Qt → NewTask → Text → Request
unfolding task_body utf8 truncate_msg_from_user
task_request jira qt t project_name = record {
  method = http_post;
  url = jira.base_url ++ utf8 "issue";
  headers = json_headers jira;
  body = post_fields (
      task_body project_name (truncate_msg_from_user qt t.subj 100)
        (truncate_msg_from_user qt t.project 100) t);
}

-- `str_key.substr(str_key.find("-") + 1)`, which is the whole key without a dash.
abbrev pub find_dash : Text → Option Text
find_dash [] = none
find_dash (c ∷ s) = elim (c == b'-') [ true ↦ some s | false ↦ find_dash s ]

abbrev pub after_dash : Text → Text
after_dash key = elim (find_dash key) [ none ↦ key | some s ↦ s ]

-- A `long` as an `int` of 32 bits.
abbrev pub to_int : ℤ → ℤ
to_int (pos n) = let r = n % 2 ^ 32 in if ltb r (2 ^ 31) then pos r else negsuc (2 ^ 32 - r - 1)
to_int (negsuc n) = let r = n % 2 ^ 32 in if ltb r (2 ^ 31) then negsuc r else pos (2 ^ 32 - r - 1)

-- The number of the created issue, 0 if the answer has no key: the exception is caught.
unfoldable pub created_issue : (boost : Boost) → boost.Value → ℤ
unfolding string_at utf8 atol
created_issue boost v = elim (string_at boost v (utf8 "key")) [
  | none ↦ pos 0
  | some key ↦ to_int (atol (after_dash key))
]

unfoldable pub created : Boost → Reply → ℤ
unfolding status_code is_refused c_str created_issue
created boost r = if is_refused r then pos 2 else elim (boost.parse (c_str r.answer)) as (λ x. ℤ) [
  | none ↦ pos 3
  | some v ↦ if ltb 300 (status_code r) then pos 4 else created_issue boost v
]

unfoldable pub create_task : Jira → Qt → Boost → Transfer → NewTask → Text → ℤ
unfolding created task_request
create_task jira qt boost transfer t project_name =
    elim (transfer (task_request jira qt t project_name)) as (λ x. ℤ) [
      | none ↦ pos 1
      | some r ↦ created boost r
    ]

unfoldable pub attach_request : Jira → Text → Text → Text → Request
unfolding utf8
attach_request jira file_path file issue_key = record {
  method = http_post;
  url = jira.base_url ++ utf8 "issue/" ++ issue_key ++ utf8 "/attachments";
  headers = bearer_token jira ∷ utf8 "X-Atlassian-Token: no-check" ∷ [];
  body = form (buffer (utf8 "file") file_path file ∷ []);
}

-- Whether the file counts as attached; the status of the answer is not looked at. `file` is what curl
-- reads of the file.
unfoldable pub add_attach : Jira → Transfer → Text → Text → Text → Bool
unfolding attach_request
add_attach jira transfer file_path file issue_key =
    elim (transfer (attach_request jira file_path file issue_key)) as (λ x. Bool) [
      | none ↦ true
      | some r ↦ r.curl_code == curle_ok
    ]

unfoldable pub status_request : Jira → Text → ℤ → Request
unfolding utf8 itoa
status_request jira issue_key new_status = record {
  method = http_post;
  url = jira.base_url ++ utf8 "issue/" ++ issue_key ++ utf8 "/transitions";
  headers = json_headers jira;
  body = post_fields (utf8 "{ \"transition\": { \"id\": \"" ++ (itoa new_status ++ utf8 "\" } } "));
}

unfoldable pub change_task_status : Jira → Boost → Transfer → Text → ℤ → ℕ
unfolding status_request update_code
change_task_status jira boost transfer issue_key new_status =
    update_code boost (transfer (status_request jira issue_key new_status))
