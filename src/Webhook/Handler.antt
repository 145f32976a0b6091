-- ===== src/Webhook/Handler.antt =====
-- The webhook of Jira: the handler of src/main.cpp that checks the token and leaves a task, and
-- `jira_webhooks_handler` of src/chanserv.cpp that the task runs. What Qt finds in a URL, whether a
-- message throws, and the client of Jira are parameters.
use tgbot_with_rest.Prelude.{
  ℕ, Bool, true, false, List, [], ◌∷◌, ◌++◌, Option, if◌then◌else◌, ◌≡◌, ◌≢◌, refl, ap, ◌==◌, ◌<◌,
  take, All, Bool-cases, inl, inr,
}
use tgbot_with_rest.Text.{Text, utf8, text_eq, NoSlash}
use tgbot_with_rest.Tasks.{Effect, Queue, Ran, post, run_tasks, run_pending}
use tgbot_with_rest.Webhook.{webhook_token_valid, webhook_token_valid_lem}
use tgbot_with_rest.Http.{Transfer}
use tgbot_with_rest.Jira.{Jira}
use tgbot_with_rest.Jira.Letters.{Mail, get_task_info}

-- The bot as the tasks change it: the mail, and the messages sent to the developer.
pub record Hooked : Type 0 where
  pub mail : Mail
  pub sent : List Text

-- The status of the response, and the queue. A task is the path that it is to handle.
unfoldable pub missing_handler :
    {S : Type 0} → (Text → Text) → (Text → Text) → Text → Text → Queue S Text → ℕ × Queue S Text
unfolding webhook_token_valid post
missing_handler token path secret url queue =
    if webhook_token_valid token url secret then (200, post (path url) queue) else (403, queue)

-- `substr(find_last_of("/") + 1)`, which is all of it without a slash.
unfoldable pub after_last : Text → Text → Text
after_last found [] = found
after_last found (c ∷ s) = elim (c == b'/') [ true ↦ after_last s s | false ↦ after_last found s ]

module _ (throws : Text → Bool) (jira : Jira) (assignee_email : Text → Option Text)
    (transfer : Transfer) where
  unfoldable pub get_info : Text → Hooked → Hooked
  unfolding get_task_info
  get_info issue_key b = record b {
    mail = (get_task_info jira assignee_email transfer issue_key b.mail).1;
  }

  -- Behind the message: `substr(1, 3)` throws on an empty path.
  unfoldable pub handle_path : Text → Hooked → Effect Hooked Text
  unfolding get_info after_last utf8 text_eq
  handle_path [] b = record { state = b; posted = []; threw = true }
  handle_path (c ∷ path) b = record {
    state =
        if text_eq (take 3 path) (utf8 "UPD")
        then get_info (after_last (c ∷ path) (c ∷ path)) b
        else b;
    posted = [];
    threw = false;
  }

  unfoldable pub jira_webhooks_handler : Text → Hooked → Effect Hooked Text
  unfolding handle_path utf8
  jira_webhooks_handler request_url b =
      let b' : Hooked = record b { sent = (utf8 "JIRA: " ++ request_url) ∷ b.sent } in
      if throws (utf8 "JIRA: " ++ request_url)
      then record { state = b'; posted = []; threw = true }
      else handle_path request_url b'

after_last_none : (found key : Text) → All NoSlash key → after_last found key ≡ found
unfolding after_last
after_last_none found [] h = refl
after_last_none found (c ∷ key) h = rw (after_last, h.0) (after_last_none found key h.1)

after_last_key :
    (key : Text) → All NoSlash key → after_last (utf8 "/UPD/" ++ key) (utf8 "/UPD/" ++ key) ≡ key
unfolding after_last utf8
after_last_key key h = after_last_none key key h

run_one :
    {S T : Type 0} (exec : T → S → Effect S T) (t : T) (b b' : S)
    → exec t b ≡ record { state = b'; posted = []; threw = false }
    → run_pending exec (record { state = b; m_tasks = t ∷ [] })
      ≡ record { queue = record { state = b'; m_tasks = [] }; threw = false; count = 1 }
unfolding run_pending run_tasks
run_one {S = S} {T = T} exec t b b' e =
    ap
      (λ x. elim x.threw as (λ y. Ran S T) [
        | true ↦ record {
          queue = record { state = x.state; m_tasks = x.posted };
          threw = true;
          count = 0;
        }
        | false ↦ record {
          queue = record { state = x.state; m_tasks = x.posted };
          threw = false;
          count = 1;
        }
      ])
      e

module _ (throws : Text → Bool) (jira : Jira) (assignee_email : Text → Option Text)
    (transfer : Transfer) (b : Hooked) (key : Text) (h : All NoSlash key) where
  -- The bot when the task has run.
  abbrev informed_bot : Hooked
  informed_bot = record {
    mail = (get_task_info jira assignee_email transfer key b.mail).1;
    sent = (utf8 "JIRA: " ++ (utf8 "/UPD/" ++ key)) ∷ b.sent;
  }

  handled :
      throws (utf8 "JIRA: " ++ (utf8 "/UPD/" ++ key)) ≡ false
      → jira_webhooks_handler throws jira assignee_email transfer (utf8 "/UPD/" ++ key) b
        ≡ record { state = informed_bot; posted = []; threw = false }
  unfolding jira_webhooks_handler handle_path get_info utf8 text_eq
  handled t = rw (t, after_last_key key h) refl

  -- A trigger of Jira with the path `/UPD/` and a key without a slash, and with the secret as its
  -- token, is answered by 200; when the main thread then runs the tasks, and the message to the
  -- developer does not throw, exactly one task runs, and the mail is that of a look at the issue with
  -- this key.
  pub trigger_runs :
      (token path : Text → Text) (secret url : Text)
      → webhook_token_valid token url secret ≡ true
      → path url ≡ utf8 "/UPD/" ++ key
      → throws (utf8 "JIRA: " ++ (utf8 "/UPD/" ++ key)) ≡ false
      → let (status, queue) =
          missing_handler token path secret url (record { state = b; m_tasks = [] }) in
        let ran = run_pending (jira_webhooks_handler throws jira assignee_email transfer) queue in
        (status ≡ 200)
        × (ran.threw ≡ false)
        × (ran.count ≡ 1)
        × (ran.queue.m_tasks ≡ [])
        × (ran.queue.state.mail ≡ (get_task_info jira assignee_email transfer key b.mail).1)
  unfolding missing_handler post
  trigger_runs token path secret url v p t =
      rw (v, p)
        (rw
          (run_one (jira_webhooks_handler throws jira assignee_email transfer) (utf8 "/UPD/" ++ key)
            b informed_bot (handled t))
          (refl, refl, refl, refl, refl))

-- A trigger whose token is not the secret, or for which no secret is set, is answered by 403 and
-- leaves the queue as it is; where texts consist of bytes.
pub trigger_denied :
    {S : Type 0} (token path : Text → Text) (secret url : Text) (queue : Queue S Text)
    → All (λ c. c < 256) (token url)
    → All (λ c. c < 256) secret
    → (secret ≢ [] → token url ≢ secret)
    → missing_handler token path secret url queue ≡ (403, queue)
unfolding missing_handler
trigger_denied token path secret url queue k l h =
    elim (Bool-cases (webhook_token_valid token url secret)) [
      | inl e ↦ let (a, q) = (webhook_token_valid_lem token url secret k l).0 e in absurd (h a q)
      | inr e ↦ rw e refl
    ]
