-- ===== src/Bot/Dialog.antt =====
-- The dialogue of src/chanserv_on_any_message.cpp: what a message without a command does at each step
-- (`handle_small_talk`). A function stands for each `case`.
pub mod Safe
use tgbot_with_rest.Prelude.{
  ℕ, ℤ, pos, Bool, true, false, not, List, [], ◌∷◌, ◌++◌, Option, none, some, ◌==◌, ◌||◌,
  if◌then◌else◌, length, is_empty,
}
use tgbot_with_rest.Text.{Text, utf8}
use tgbot_with_rest.Numbers.{itoa, atol}
use tgbot_with_rest.Structures.{
  NewTask, empty_task, developer_send_msg_as_bot, developer_run_host_command,
  staff_set_new_msi_version, staff_add_new_contractor, task_section_step1, task_project_step2,
  task_subj_step3, task_descr_step4, family_unit_step1, family_category_step2, family_descr_step3,
  family_project_step4, shared_firstname_step5, shared_separate_tekla_from_bim_step6,
  shared_final_step7, revit_master_key_reason_step1, revit_master_key_firstname_step2,
}
use tgbot_with_rest.Access.{role_for_step}
use tgbot_with_rest.Bot.{Bot}
use tgbot_with_rest.Bot.World.{
  Keyboard, no_keyboard, kb_developer, kb_manage_photos, kb_reject_or_approve, exec_sql,
  pg_database, ms_database, run_process,
}
use tgbot_with_rest.Bot.Monad.{
  element, M, ◌>>=◌, ◌>>◌, skip, when, branch, get, call, request, try_catch_tg, in_thread,
  point_to, the_ud, modify_task,
}
use tgbot_with_rest.Bot.Users.{has_role}
use tgbot_with_rest.Bot.Notify.{
  say, send_msg_to_support, send_msg_to_staff, truncate_msg_from_user, remove_breaks,
}
use tgbot_with_rest.Bot.Registry.{reload_contractors_list}
use tgbot_with_rest.Bot.Photos.{Message, with_from, SentMessage, receive_photos}
use tgbot_with_rest.Bot.Issue.{create_new_issue}
use tgbot_with_rest.Bot.Questions.{
  long_text, line_text, ask, on_description, on_subj, on_project, on_section, on_family_project,
  on_family_descr, on_family_category, on_family_unit,
}

unfoldable pub on_key_firstname : SentMessage → M (Unit {0})
on_key_firstname m = do
  b ← get
  modify_task (λ t. record t { consumer_name = long_text 3000 m b })
  ud ← the_ud
  in_thread (
      send_msg_to_staff
        (utf8 "Запрос одобрения ключа от "
          ++ ud.jira_task.consumer_name
          ++ utf8 " Причина: "
          ++ ud.jira_task.key_reason)
        (kb_reject_or_approve (utf8 "approve_key_request_" ++ itoa m.from_id)
          (utf8 "_reject_key_request_" ++ itoa m.from_id)))
  say m.chat_id (utf8 "Ожидайте одобрения") no_keyboard
  modify_task (λ t. record t { stat_ = 0 })

unfoldable pub on_key_reason : SentMessage → M (Unit {0})
on_key_reason m = do
  b ← get
  modify_task (λ t. record t { key_reason = long_text 3000 m b })
  say m.from_id (utf8 "Напишите свои имя и фамилию") no_keyboard
  modify_task (λ t. record t { stat_ = revit_master_key_firstname_step2 })

-- The row for the new contractor: the name comes last in the message.
unfoldable pub add_contractor : SentMessage → List Text → M (Unit {0})
add_contractor m (tg_id ∷ link ∷ trello_list ∷ email ∷ name ∷ []) = do
  a ← call (
      exec_sql pg_database
        "INSERT INTO contractors (id, name, link, trello_list, email) VALUES (?, ?, ?, ?, ?)"
        (tg_id ∷ name ∷ link ∷ trello_list ∷ email ∷ []))
  branch a.success
      (do
        say m.chat_id (utf8 "Сотрудник " ++ link ++ utf8 " добвавлен в качестве исполнителя")
            no_keyboard
        reload_contractors_list
        modify_task (λ t. empty_task))
      (do
        say m.chat_id (utf8 "Ошибка записи исполнителя в БД: " ++ a.text) no_keyboard
        modify_task (λ t. empty_task))
add_contractor m contractor_parts = do
  say m.chat_id
      (utf8 "Ожидается 5 полей через \\, получено "
        ++ itoa (pos (length contractor_parts))
        ++ utf8 ". Исполнитель не добавлен")
      no_keyboard
  modify_task (λ t. empty_task)

unfoldable pub on_add_new_contractor : SentMessage → M (Unit {0})
unfolding add_contractor
on_add_new_contractor m = do b ← get; add_contractor m (b.env.qt.split m.text b'\\')

-- `text.substr(0, text.find(' '))`: all of it, if there is no space.
unfoldable pub before_space : Text → Text
before_space [] = []
before_space (c ∷ s) = if c == b' ' then [] else c ∷ before_space s

find_after : (ℕ → Bool) → Text → Option Text
find_after p [] = none
find_after p (c ∷ s) = if p c then some s else find_after p s

-- `text.substr(text.find…(…) + 1)`: all of it, if nothing is found, since `npos + 1` is 0.
unfoldable pub after_first : (ℕ → Bool) → Text → Text
unfolding find_after
after_first p s = elim (find_after p s) [ none ↦ s | some rest ↦ rest ]

unfoldable pub on_msg_as_bot : SentMessage → M (Unit {0})
unfolding before_space after_first
on_msg_as_bot m = do
  let receiver = atol (before_space m.text)
  let text_to_send = after_first (λ c. c == b' ') m.text
  try_catch_tg (say receiver text_to_send no_keyboard) (λ e.
      say m.chat_id
        (utf8 "try/catch: Сообщение "
          ++ text_to_send
          ++ utf8 " телеграм юзеру "
          ++ itoa receiver
          ++ utf8 " НЕ отправлено")
        no_keyboard)
  say m.chat_id
      (utf8 "Сообщение "
        ++ text_to_send
        ++ utf8 " телеграм юзеру "
        ++ itoa receiver
        ++ utf8 " отправлено")
      no_keyboard
  modify_task (λ t. empty_task)

has_space : Text → Bool
has_space [] = false
has_space (c ∷ s) = c == b' ' || has_space s

-- A command with arguments is split at the first blank. The step is not left.
unfoldable pub on_host_command : SentMessage → M (Unit {0})
unfolding has_space before_space after_first
on_host_command m = do
  a ← call (
      if has_space m.text
      then run_process (before_space m.text) (after_first (λ c. c == b' ' || c == b'\t') m.text)
      else run_process m.text [])
  branch a.success (send_msg_to_support a.text kb_developer)
      (send_msg_to_support (utf8 "Ошибка выполнения команды " ++ a.text) kb_developer)

unfoldable pub on_new_msi_version : SentMessage → M (Unit {0})
on_new_msi_version m = do
  request (
      exec_sql ms_database "UPDATE settings SET value = ? WHERE name = 'MSI_actual_version'"
        (m.text ∷ []))
  say m.chat_id (utf8 "Версия сборки плагина актуализирована в БД до " ++ m.text) no_keyboard
  modify_task (λ t. empty_task)

unfoldable pub on_final : SentMessage → M (Unit {0})
on_final m = in_thread (create_new_issue m)

-- A name: the consumer is recorded, and the next `case` follows at once.
unfoldable pub on_consumer_name : SentMessage → M (Unit {0})
unfolding on_final
on_consumer_name m = when (not (is_empty m.text)) (do
  b ← get
  modify_task (λ t. record t {
    consumer_name = long_text 150 m b;
    consumer_tg_id = m.chat_id;
    consumer_tg_username_link = m.chat_username;
    stat_ = shared_final_step7;
  })
  on_final m)

-- Without a text these are photos; a text is taken for the path of a family.
unfoldable pub on_photos : SentMessage → M (Unit {0})
unfolding on_family_project
on_photos m = branch (is_empty m.text) (in_thread (receive_photos m)) (on_family_project m)

-- The `switch` over the step.
unfoldable pub step : ℕ → SentMessage → M (Unit {0})
step stat m =
    if stat == revit_master_key_firstname_step2
    then on_key_firstname m
    else if stat == revit_master_key_reason_step1
    then on_key_reason m
    else if stat == staff_add_new_contractor
    then on_add_new_contractor m
    else if stat == developer_send_msg_as_bot
    then on_msg_as_bot m
    else if stat == developer_run_host_command
    then on_host_command m
    else if stat == staff_set_new_msi_version
    then on_new_msi_version m
    else if stat == shared_separate_tekla_from_bim_step6
    then on_consumer_name m
    else if stat == shared_final_step7
    then on_final m
    else if stat == task_descr_step4
    then on_description m
    else if stat == task_subj_step3
    then on_subj m
    else if stat == task_project_step2
    then on_project m
    else if stat == task_section_step1
    then on_section m
    else if stat == shared_firstname_step5
    then on_photos m
    else if stat == family_project_step4
    then on_family_project m
    else if stat == family_descr_step3
    then on_family_descr m
    else if stat == family_category_step2
    then on_family_category m
    else if stat == family_unit_step1
    then on_family_unit m
    else skip

-- Rights are checked again at each step.
unfoldable pub small_talk : SentMessage → M (Unit {0})
small_talk m = do
  b ← get
  ud ← the_ud
  branch (has_role b.v_staff b.sett m.from_id (role_for_step ud.jira_task.stat_))
      (step ud.jira_task.stat_ m) (modify_task (λ t. empty_task))

unfoldable pub small_talk_from : SentMessage → M (Unit {0})
unfolding small_talk
small_talk_from m = do found ← point_to m.from_id; branch found (small_talk m) skip

unfoldable pub handle_small_talk : Message → M (Unit {0})
unfolding small_talk_from
handle_small_talk m = do u ← element m.from; small_talk_from (with_from m u)
