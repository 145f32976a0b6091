-- ===== src/Bot/Issue.antt =====
-- The new issue of src/chanserv.cpp: the card in Trello, the row in the database, the task in Jira.
pub mod Safe
use tgbot_with_rest.Prelude.{
  ℕ, ℤ, ◌-◌, ◌%◌, Bool, true, false, not, List, [], ◌∷◌, ◌++◌, Option, none, some, String, ◌==◌,
  if◌then◌else◌, length, get_elem?, is_empty, keep_if, pos, negsuc, ltb,
}
use tgbot_with_rest.Text.{Text, utf8, text_eq}
use tgbot_with_rest.Numbers.{itoa}
use tgbot_with_rest.Escape.{escape_json_entire_text}
use tgbot_with_rest.Structures.{
  UserDispatcher, NewTask, empty_task, table_bim_issues, table_tekla_issues,
}
use tgbot_with_rest.Bot.{Bot}
use tgbot_with_rest.Bot.World.{
  Event, Keyboard, no_keyboard, kb_go_dashboard, chat, named, send_message, send_sticker, get_file,
  download_image_from_url, exec_sql, commit, pg_database, Database, create_new_card,
  add_img_to_card, create_task, add_attach, what,
}
use tgbot_with_rest.Bot.Monad.{
  M, ◌>>=◌, ◌>>◌, pure, skip, when, branch, get, call, request, try_catch, in_thread, the_ud,
  modify_ud, modify_task, element,
}
use tgbot_with_rest.Bot.Notify.{say, send_msg_to_support, send_msg_to_staff}
use tgbot_with_rest.Bot.Photos.{SentMessage}

-- `boost::replace_all(section, " ", "")`, and JSON escapes in six fields.
unfoldable pub escape_all : NewTask → NewTask
escape_all t = record t {
  section = escape_json_entire_text (keep_if (λ c. not (c == b' ')) t.section);
  category = escape_json_entire_text t.category;
  consumer_name = escape_json_entire_text t.consumer_name;
  description = escape_json_entire_text t.description;
  project = escape_json_entire_text t.project;
  subj = escape_json_entire_text t.subj;
}

unfoldable pub issues_table_name : ℕ → String
issues_table_name table_uniq = if table_uniq == table_tekla_issues then "tekla_issues" else "issues"

-- 0 when the row is written and committed, else 1.
unfoldable pub write_issue_to_db : UserDispatcher → ℕ → M ℕ
write_issue_to_db ud table_uniq =
    let t = ud.jira_task in
    try_catch
      (do
        a ← call (
            exec_sql pg_database (issues_table_name table_uniq) (
              itoa t.consumer_tg_id
              ∷ t.consumer_name
              ∷ t.consumer_tg_username_link
              ∷ t.section
              ∷ t.category
              ∷ t.subj
              ∷ t.description
              ∷ t.creation_date
              ∷ t.id_card
              ∷ t.photo_ids
              ∷ t.project
              ∷ []))
        branch a.success (do c ← call (commit pg_database); pure (if c.success then 0 else 1))
            (pure 1))
      (λ e. pure 1)

-- `additional_info` and the task, as support reads it.
unfoldable pub issue_report : Text → NewTask → Text
issue_report additional_info t =
    additional_info
    ++ utf8 " "
    ++ t.section
    ++ utf8 " "
    ++ t.project
    ++ utf8 " "
    ++ t.subj
    ++ utf8 " "
    ++ t.creation_date
    ++ t.description
    ++ utf8 " от "
    ++ t.consumer_name

unfoldable pub report_issue : Text → M (Unit {0})
report_issue additional_info = do
  ud ← the_ud
  send_msg_to_support (issue_report additional_info ud.jira_task) kb_go_dashboard

unfoldable pub each : {A : Type 0} → List A → (A → M (Unit {0})) → M (Unit {0})
each [] f = skip
each (x ∷ xs) f = do f x; each xs f

-- The part for all but Tekla: Trello, the database, the pictures, the notification of staff.
unfoldable pub create_card : Text → M (Unit {0})
create_card card_description =
    try_catch
      (do
        b ← get
        ud ← the_ud
        let t = ud.jira_task
        a ← call (
            create_new_card (b.sett "distribution_list")
              (t.section
                ++ utf8 " "
                ++ t.project
                ++ utf8 " "
                ++ t.subj
                ++ utf8 " "
                ++ t.creation_date)
              (card_description ++ t.description))
        branch a.success (modify_ud (λ u. record u { created_card_id = a.text }))
            (report_issue (utf8 "Ошибка создания карточки " ++ card_description)))
      (λ e. do
        b ← get
        report_issue (
            utf8 "Ошибка создания карточки "
            ++ b.env.qt.from_local_8bit (what e)
            ++ utf8 "\n"
            ++ card_description))

unfoldable pub save_issue : M (Unit {0})
save_issue =
    try_catch
      (do
        ud ← the_ud
        code ← write_issue_to_db ud (
            if text_eq ud.jira_task.type (utf8 "TEKLA")
            then table_tekla_issues
            else table_bim_issues)
        when (not (code == 0)) (report_issue (utf8 "Ошибка записи в базу данных.")))
      (λ e. report_issue (utf8 "Ошибка записи в базу данных PostgreSQL."))

unfoldable pub create_bim_issue : Text → M (Unit {0})
create_bim_issue card_description = do
  create_card card_description
  modify_ud (λ u. record u { jira_task = record (u.jira_task) { id_card = u.created_card_id } })
  save_issue
  ud ← the_ud
  when (not (is_empty ud.created_card_id)) (
      each ud.jira_task.v_local_file_paths
        (λ path. request (add_img_to_card ud.created_card_id path)))
  in_thread (
      send_msg_to_staff
        (utf8 "На доске появилась новая задача "
          ++ ud.jira_task.subj
          ++ utf8 " от "
          ++ ud.jira_task.consumer_name)
        kb_go_dashboard)

-- `res_issue_num < 3`.
unfoldable pub is_failure : ℤ → Bool
is_failure (pos n) = ltb n 3
is_failure (negsuc n) = true

unfoldable pub create_jira_task : Text → M (Unit {0})
create_jira_task card_description =
    try_catch
      (do
        ud ← the_ud
        let is_tekla = text_eq ud.jira_task.type (utf8 "TEKLA")
        let proj_name = if is_tekla then utf8 "TEKLA" else utf8 "USERTASKS"
        a ← call (create_task ud proj_name)
        branch (is_failure a.number)
            (do
              report_issue (utf8 "Ошибка создания задачи Jira " ++ card_description)
              modify_ud (λ u. record u { last_error = 1 }))
            (do
              each ud.jira_task.v_local_file_paths
                  (λ path. request (add_attach path (proj_name ++ utf8 "-" ++ itoa a.number)))
              when is_tekla (do
                b ← get
                request (
                    send_message (named (b.sett "tekla_admin_tgid"))
                      (utf8 "B Jira появилась новая задача: "
                        ++ b.sett "jira_browse_url"
                        ++ utf8 "TEKLA-"
                        ++ itoa a.number)
                      no_keyboard))))
      (λ e. do
        b ← get
        report_issue (
            utf8 "Ошибка создания задачи Jira "
            ++ b.env.qt.from_local_8bit (what e)
            ++ card_description)
        modify_ud (λ u. record u { last_error = 1 }))

unfoldable pub card_description_of : SentMessage → NewTask → Text
card_description_of m t =
    utf8 "https://t.me/"
    ++ m.chat_username
    ++ utf8 " "
    ++ t.consumer_name
    ++ utf8 "\n"
    ++ (if is_empty t.category then [] else utf8 "Категория: " ++ t.category ++ utf8 "\n")

unfoldable pub send_random_sticker : ℤ → M (Unit {0})
send_random_sticker id = do
  b ← get
  when (not (is_empty b.sticker_list))
      (request (send_sticker id (b.env.select_randomly b.out b.sticker_list)))

unfoldable pub create_new_issue : SentMessage → M (Unit {0})
create_new_issue m = do
  say m.chat_id (utf8 "Записано. Отправляем задачу в БД...") no_keyboard
  b ← get
  modify_task (λ t. record t { creation_date = b.utc })
  ud ← the_ud
  let card_description = card_description_of m ud.jira_task
  modify_ud (λ u. record u { created_card_id = []; jira_task = escape_all u.jira_task })
  when (not (text_eq ud.jira_task.type (utf8 "TEKLA"))) (create_bim_issue card_description)
  say m.chat_id
      (utf8
        "Ваша задача поступила в работу, скоро с вами свяжутся. Для нового обращения нажмите на клавиатуре /start")
      no_keyboard
  send_random_sticker m.chat_id
  create_jira_task card_description
  modify_task (λ t. empty_task)
