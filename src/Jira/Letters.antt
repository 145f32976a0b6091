-- ===== src/Jira/Letters.antt =====
-- `get_task_info` of src/jiraapi.cpp: the letter to the assignee of an issue.
pub mod Once
use tgbot_with_rest.Prelude.{
  ℕ, Bool, true, false, List, [], ◌∷◌, ◌++◌, Option, none, some, if◌then◌else◌, ltb, ◌≡◌, refl, not,
  ◌&&◌, is_empty, map,
}
use tgbot_with_rest.Text.{Text, utf8}
use tgbot_with_rest.Assignees.{Notified, remember_assignee}
use tgbot_with_rest.Http.{Request, http_get, no_body, Reply, Transfer, status_code, is_refused}
use tgbot_with_rest.Jira.{Jira, bearer_token}

-- A call of `send_email`: the address, the script and the link.
pub record Letter : Type 0 where
  pub email : Text
  pub script : Text
  pub link : Text

pub record Mail : Type 0 where
  pub notified : Notified
  pub letters : List Letter

unfoldable pub info_request : Jira → Text → Request
unfolding utf8
info_request jira issue_key = record {
  method = http_get;
  url = jira.base_url ++ utf8 "issue/" ++ issue_key;
  headers = bearer_token jira ∷ utf8 "X-Atlassian-Token: no-check" ∷ [];
  body = no_body;
}

-- What `remember_assignee` answers decides about the letter.
unfoldable pub tell_assignee : Jira → Text → Text → Mail → Mail
unfolding remember_assignee
tell_assignee jira issue_key email mail =
    let (due, notified) = remember_assignee mail.notified issue_key email in
    record {
      notified = notified;
      letters =
          if due
          then mail.letters
            ++ record {
              email = email;
              script = jira.mail_sender_path;
              link = jira.browse_url ++ issue_key;
            }
              ∷ []
          else mail.letters;
    }

-- Behind the reply. `assignee_email` is what boost::property_tree finds in an answer, empty if there is
-- no assignee, and `none` for an exception, which is caught.
unfoldable pub informed : Jira → (Text → Option Text) → Text → Reply → Mail → ℕ × Mail
unfolding tell_assignee is_refused status_code
informed jira assignee_email issue_key r mail =
    if is_refused r
    then (2, mail)
    else if ltb 300 (status_code r)
    then (4, mail)
    else elim (assignee_email r.answer) as (λ x. ℕ × Mail) [
      | none ↦ (0, mail)
      | some email ↦ (0, tell_assignee jira issue_key email mail)
    ]

unfoldable pub get_task_info : Jira → (Text → Option Text) → Transfer → Text → Mail → ℕ × Mail
unfolding informed info_request
get_task_info jira assignee_email transfer issue_key mail =
    elim (transfer (info_request jira issue_key)) as (λ x. ℕ × Mail) [
      | none ↦ (0, mail)
      | some r ↦ informed jira assignee_email issue_key r mail
    ]
