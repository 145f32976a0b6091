-- ===== src/Bot/Callback.antt =====
-- `on_callback_query` of src/chanserv_callbacks.cpp: which button does what.
pub mod KeyRequest
pub mod Denied
pub mod Once
pub mod Button
pub mod Services
pub mod Forms
pub mod Clicked
pub mod Safe
use tgbot_with_rest.Prelude.{
  ℕ, ℤ, pos, ◌==ℤ◌, Bool, true, false, not, List, [], ◌∷◌, ◌++◌, Option, none, some, String, ◌==◌,
  ◌&&◌, ◌||◌, if◌then◌else◌, is_empty, drop, length, ltb,
}
use tgbot_with_rest.Text.{Text, utf8, text_eq, starts_with}
use tgbot_with_rest.Numbers.{itoa, stol}
use tgbot_with_rest.Structures.{
  UserDispatcher, NewTask, PgdbIssue, empty_task, developer_send_msg_as_bot,
  developer_send_msg_to_gpt, developer_run_host_command, staff_set_new_msi_version,
  staff_add_new_contractor, task_section_step1, task_subj_step3, family_unit_step1,
  shared_firstname_step5, shared_separate_tekla_from_bim_step6, revit_master_key_reason_step1,
}
use tgbot_with_rest.Access.{role_for_callback}
use tgbot_with_rest.Bot.{Bot}
use tgbot_with_rest.Bot.World.{
  Answer, Keyboard, no_keyboard, kb_ganzel, kb_consumer, kb_tekla, kb_task_closing, kb_task_done,
  kb_go_dashboard, edit_message_reply_markup, answer_callback_query, delete_message, start_detached,
  change_card_color, archiving_card, exec_sql, pg_database,
}
use tgbot_with_rest.Bot.Monad.{
  M, ◌>>=◌, ◌>>◌, pure, skip, when, branch, get, call, request, try_catch, try_catch_tg, in_thread,
  point_to, element, the_ud, modify_ud, modify_task,
}
use tgbot_with_rest.Bot.Users.{has_role}
use tgbot_with_rest.Bot.Notify.{say, send_msg_to_support, send_msg_to_staff}
use tgbot_with_rest.Bot.Issue.{each}
use tgbot_with_rest.Bot.Keys.{insert_revit_key_to_db}
use tgbot_with_rest.Bot.MyIssues.{IssuePointer, get_my_issues, get_selected_issue_id}
use tgbot_with_rest.Bot.Commands.{on_more_photos_command}
use tgbot_with_rest.Bot.Query.{CallbackQuery, Pressed, with_message, is, is_fresh}
use tgbot_with_rest.Bot.Approval.{
  is_approve, is_reject, requester, send_key, approve, reject, try_approve, points_somewhere,
  try_reject, answer_key_request, key_request,
}
use tgbot_with_rest.Bot.Actions.{
  on_new_task_query, on_new_family_query, start_form, on_new_task, on_new_family,
  send_document_to_all, ask_service, on_req_master_key, on_msg_to_gpt, on_reboot_host, on_send_file,
  on_no_more_photos, on_my_tasks, on_tekla_enter_menu, on_tekla_general_issue, on_tekla_back,
  on_start_solving, on_task_closing, with_issue,
}

-- A button: first its name is looked at, then the session.
unfoldable pub button : Pressed → String → (UserDispatcher → Bool) → M (Unit {0}) → M (Unit {0})
unfolding is
button q name holds action = when (is q name) (do ud ← the_ud; when (holds ud) action)

-- The buttons of the services and of the menus.
unfoldable pub menu_buttons : Pressed → M (Unit {0})
unfolding button is is_fresh ask_service on_req_master_key on_msg_to_gpt on_reboot_host on_send_file
    on_no_more_photos
menu_buttons q = do
  button q "req_master_key" (is_fresh q) (on_req_master_key q)
  when (is q "msg_as_bot") (
      ask_service q
        (utf8
          "Пришлите Telegram ID (тип long) получателя, ПРОБЕЛ после ID, и текст для отправки после упомянутого пробела")
        (utf8 "DEVELOPER") developer_send_msg_as_bot)
  when (is q "msg_to_gpt") (on_msg_to_gpt q)
  when (is q "run_command") (
      ask_service q (utf8 "Пришлите команду для выполнения на хосте") (utf8 "DEVELOPER")
        developer_run_host_command)
  when (is q "reboot_host") (on_reboot_host q)
  button q "add_new_contractor" (is_fresh q) (
      ask_service q
        (utf8
          "Введите данные исполнителя в формате\ntelegram-id\\telegram-link\\Trello-список-id\\E-mail\\ФИО исполнителя,\nнапример,\n9275911689\\OctavianAvg\\68033c03d907d7047b2b8f04\\oleg@example.ru\\Олег Булатов")
        (utf8 "STAFF") staff_add_new_contractor)
  button q "set_new_msi_version" (is_fresh q) (
      ask_service q (utf8 "Пришлите текст в формате X.X.XXX.25, например, 5.4.168.25")
        (utf8 "STAFF") staff_set_new_msi_version)
  when (is q "send_file") on_send_file
  button q "no_more_photos" (λ ud. ud.jira_task.stat_ == shared_firstname_step5)
      (on_no_more_photos q)

-- The buttons of tasks.
unfoldable pub task_buttons : Pressed → Option IssuePointer → M (Unit {0})
unfolding button is is_fresh on_my_tasks on_tekla_enter_menu on_tekla_general_issue on_tekla_back
    on_start_solving with_issue
task_buttons q clicked = do
  button q "my_tasks" (is_fresh q) (on_my_tasks q)
  button q "tekla_enter_menu" (is_fresh q) (on_tekla_enter_menu q)
  when (is q "tekla_general_issue") (on_tekla_general_issue q)
  button q "tekla_back" (is_fresh q) (on_tekla_back q)
  button q "start_solving" (λ ud. ud.clicked_msg_id ==ℤ pos 0)
      (with_issue clicked (on_start_solving q))

-- The buttons of the forms, which may leave the handler, and what follows them.
unfoldable pub form_buttons : Pressed → Option IssuePointer → M (Unit {0})
unfolding button is on_new_task on_new_family on_task_closing with_issue
form_buttons q clicked = do
  after_task ← branch (is q "new_task") (on_new_task q) (pure true)
  when after_task (do
    after_family ← branch (is q "new_family") (on_new_family q) (pure true)
    when after_family (do
      when (is q "more_photos") (
          with_issue clicked
            (λ get_clicked_issue. on_more_photos_command get_clicked_issue q.from_id))
      button q "task_closing" (λ ud. not (ud.clicked_msg_id ==ℤ pos 0))
          (with_issue clicked (on_task_closing q))))

-- Behind the first use of `query->message`.
unfoldable pub pressed_buttons : Pressed → M (Unit {0})
unfolding menu_buttons task_buttons form_buttons
pressed_buttons q = do
  ud ← the_ud
  clicked ← get_selected_issue_id q.from_id q.message_id ud
  menu_buttons q
  task_buttons q clicked
  form_buttons q clicked

unfoldable pub buttons : CallbackQuery → M (Unit {0})
unfolding pressed_buttons
buttons q = do m ← element q.message; pressed_buttons (with_message q m)

unfoldable pub allowed_query : CallbackQuery → M (Unit {0})
unfolding key_request buttons
allowed_query q = do
  returned ← key_request q
  when (not returned) (do found ← point_to q.from_id; branch found (buttons q) skip)

-- Rights are checked by the action that the data names.
unfoldable pub on_callback_query : CallbackQuery → M (Unit {0})
unfolding allowed_query
on_callback_query q = do
  b ← get
  when (has_role b.v_staff b.sett q.from_id (role_for_callback q.data_)) (allowed_query q)
