-- ===== src/Tests/Services.antt =====
-- Concrete inputs for the theorems on the Jira client and its webhook.
use tgbot_with_rest.Prelude.{pos, Bool, true, false, [], ◌∷◌, ◌++◌, Option, some, ◌≡◌, refl, arith}
use tgbot_with_rest.Text.{Text, utf8}
use tgbot_with_rest.Structures.{NewTask, empty_task}
use tgbot_with_rest.Escape.RoundTrip.{unescape}
use tgbot_with_rest.Numbers.{itoa}
use tgbot_with_rest.Tests.Samples.{sample_qt}
use tgbot_with_rest.Tests.Board.{sample_boost, ok_reply, ok_transfer}
use tgbot_with_rest.Json.{Boost, tokens, str, mark}
use tgbot_with_rest.Http.{c_str}
use tgbot_with_rest.Trello.{string_at}
use tgbot_with_rest.Tasks.{run_pending}
use tgbot_with_rest.Webhook.{webhook_token_valid}
use tgbot_with_rest.Webhook.Handler.{
  Hooked, missing_handler, jira_webhooks_handler, trigger_runs, trigger_denied,
}
use tgbot_with_rest.Jira.{Jira, task_body, create_task}
use tgbot_with_rest.Jira.Body.{regards, telegram, task_body-tokens}
use tgbot_with_rest.Jira.Codes.{create_task_number}
use tgbot_with_rest.Jira.Letters.{Mail, get_task_info}
use tgbot_with_rest.Jira.Letters.Once.{get_task_info_again}

abbrev sample_jira : Jira
sample_jira = record { token = []; base_url = []; browse_url = []; mail_sender_path = [] }

abbrev sample_task : NewTask
sample_task = record empty_task {
  section = b's' ∷ [];
  consumer_tg_username_link = b'l' ∷ [];
  description = b'\\' ∷ b'n' ∷ [];
  consumer_name = b'c' ∷ [];
}

task_body-tokens_example :
    tokens (task_body (b'k' ∷ []) (b'a' ∷ []) (b'p' ∷ []) sample_task)
    ≡ some (
        mark b'{'
        ∷ str (utf8 "fields")
        ∷ mark b':'
        ∷ mark b'{'
        ∷ str (utf8 "project")
        ∷ mark b':'
        ∷ mark b'{'
        ∷ str (utf8 "key")
        ∷ mark b':'
        ∷ str (b'k' ∷ [])
        ∷ mark b'}'
        ∷ mark b','
        ∷ str (utf8 "issuetype")
        ∷ mark b':'
        ∷ mark b'{'
        ∷ str (utf8 "name")
        ∷ mark b':'
        ∷ str (utf8 "Задача")
        ∷ mark b'}'
        ∷ mark b','
        ∷ str (utf8 "summary")
        ∷ mark b':'
        ∷ str ((b'a' ∷ []) ++ utf8 "; Проект: " ++ (b'p' ∷ []))
        ∷ mark b','
        ∷ str (utf8 "labels")
        ∷ mark b':'
        ∷ mark b'['
        ∷ str (utf8 "Секция:" ++ (b's' ∷ []))
        ∷ mark b','
        ∷ str (utf8 "https://t.me/" ++ (b'l' ∷ []))
        ∷ mark b']'
        ∷ mark b','
        ∷ str (utf8 "description")
        ∷ mark b':'
        ∷ str ((b'\n' ∷ []) ++ regards ++ (b'c' ∷ []) ++ telegram ++ (b'l' ∷ []))
        ∷ mark b'}'
        ∷ mark b'}'
        ∷ [])
unfolding unescape
task_body-tokens_example =
    task_body-tokens (b'k' ∷ []) (b'a' ∷ []) (b'p' ∷ []) sample_task (b'k' ∷ []) (b'a' ∷ [])
      (b'p' ∷ []) (b's' ∷ []) (b'l' ∷ []) (b'\n' ∷ []) (b'c' ∷ []) refl refl refl refl refl refl
      refl

-- Every string in an answer is the key "K-12".
abbrev keyed_boost : Boost
keyed_boost = record sample_boost { to_string = λ v. some (b'K' ∷ b'-' ∷ b'1' ∷ b'2' ∷ []) }

read_key : string_at keyed_boost tt (utf8 "key") ≡ some ((b'K' ∷ []) ++ b'-' ∷ itoa (pos 12))
unfolding string_at itoa
read_key = refl

create_task_number_example :
    create_task sample_jira sample_qt keyed_boost ok_transfer sample_task (b'k' ∷ []) ≡ pos 12
unfolding c_str
create_task_number_example =
    create_task_number sample_jira sample_qt keyed_boost ok_transfer sample_task (b'k' ∷ [])
      ok_reply tt (b'K' ∷ []) 12 refl (refl, omega arith, omega arith) refl read_key (refl, tt)
      (omega arith)

abbrev no_mail : Mail
no_mail = record { notified = []; letters = [] }

-- Every issue is assigned to "E".
abbrev assigned_to : Text → Option Text
assigned_to t = some (b'E' ∷ [])

get_task_info_again_example :
    get_task_info sample_jira assigned_to ok_transfer
      (b'K' ∷ [])
      (get_task_info sample_jira assigned_to ok_transfer (b'K' ∷ []) no_mail).1
    ≡ get_task_info sample_jira assigned_to ok_transfer (b'K' ∷ []) no_mail
get_task_info_again_example =
    get_task_info_again sample_jira assigned_to ok_transfer (b'K' ∷ []) no_mail

abbrev sample_hooked : Hooked
sample_hooked = record { mail = no_mail; sent = [] }

abbrev token_of : Text → Text
token_of url = b't' ∷ []

abbrev path_of : Text → Text
path_of url = utf8 "/UPD/" ++ url

abbrev quiet : Text → Bool
quiet t = false

token_valid : webhook_token_valid token_of (b'K' ∷ []) (b't' ∷ []) ≡ true
unfolding webhook_token_valid
token_valid = refl

trigger_runs_example :
    let (status, queue) =
      missing_handler token_of path_of
        (b't' ∷ [])
        (b'K' ∷ [])
        (record { state = sample_hooked; m_tasks = [] }) in
    let ran = run_pending (jira_webhooks_handler quiet sample_jira assigned_to ok_transfer) queue in
    (status ≡ 200)
    × (ran.threw ≡ false)
    × (ran.count ≡ 1)
    × (ran.queue.m_tasks ≡ [])
    × (ran.queue.state.mail
        ≡ (get_task_info sample_jira assigned_to ok_transfer (b'K' ∷ []) no_mail).1)
trigger_runs_example =
    trigger_runs quiet sample_jira assigned_to ok_transfer sample_hooked (b'K' ∷ []) (refl, tt)
      token_of path_of (b't' ∷ []) (b'K' ∷ []) token_valid refl refl

trigger_denied_example :
    missing_handler token_of path_of
      (b'x' ∷ [])
      (b'K' ∷ [])
      (record { state = sample_hooked; m_tasks = [] })
    ≡ (403, record { state = sample_hooked; m_tasks = [] })
trigger_denied_example =
    trigger_denied token_of path_of (b'x' ∷ []) (b'K' ∷ [])
      (record { state = sample_hooked; m_tasks = [] }) (omega arith, tt) (omega arith, tt)
      (λ n e. ground arith)
