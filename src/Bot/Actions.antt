-- ===== src/Bot/Actions.antt =====
-- What the single buttons of src/chanserv_callbacks.cpp do.
pub mod Safe
use tgbot_with_rest.Prelude.{ℕ, ℤ, pos, Bool, true, false, List, [], ◌∷◌, ◌++◌, Option, none, some}
use tgbot_with_rest.Text.{Text, utf8}
use tgbot_with_rest.Numbers.{itoa}
use tgbot_with_rest.Structures.{
  NewTask, PgdbIssue, empty_task, developer_send_msg_to_gpt, task_section_step1, task_subj_step3,
  family_unit_step1, shared_separate_tekla_from_bim_step6, revit_master_key_reason_step1,
}
use tgbot_with_rest.Bot.World.{
  no_keyboard, kb_ganzel, kb_consumer, kb_tekla, kb_task_closing, kb_task_done, kb_go_dashboard,
  edit_message_reply_markup, answer_callback_query, delete_message, start_detached,
  change_card_color, archiving_card, exec_sql, pg_database,
}
use tgbot_with_rest.Bot.Monad.{
  M, ◌>>=◌, ◌>>◌, pure, skip, branch, get, request, try_catch_tg, in_thread, point_to, the_ud,
  modify_ud, modify_task,
}
use tgbot_with_rest.Bot.Notify.{say, send_msg_to_staff}
use tgbot_with_rest.Bot.Issue.{each}
use tgbot_with_rest.Bot.MyIssues.{IssuePointer, the_issue, get_my_issues}
use tgbot_with_rest.Bot.Query.{Pressed, is_fresh}

unfoldable pub on_new_task_query : Pressed → M (Unit {0})
on_new_task_query q = do
  found ← point_to q.from_id
  branch found
      (do
        say q.chat_id (utf8 "Напишите свой раздел") kb_ganzel
        modify_task (λ t. record t { stat_ = task_section_step1 }))
      skip

unfoldable pub on_new_family_query : Pressed → M (Unit {0})
on_new_family_query q = do
  found ← point_to q.from_id
  branch found
      (do
        say q.chat_id (utf8 "<u><b>Раздел</b></u> семейства:") kb_ganzel
        modify_task (λ t. record t { stat_ = family_unit_step1 }))
      skip

-- True where the handler goes on. The menu counts once.
unfoldable pub start_form : Pressed → (NewTask → NewTask) → M (Unit {0}) → M Bool
unfolding is_fresh
start_form q form first_question = do
  found ← point_to q.from_id
  branch found
      (do
        ud ← the_ud
        branch (is_fresh q ud)
            (do
              modify_ud (λ u. record u { clicked_msg_id = pos 0; jira_task = form empty_task })
              first_question
              pure true)
            (pure false))
      (pure true)

unfoldable pub on_new_task : Pressed → M Bool
unfolding start_form on_new_task_query
on_new_task q = start_form q (λ t. record t { type = utf8 "BIMTASK" }) (on_new_task_query q)

unfoldable pub on_new_family : Pressed → M Bool
unfolding start_form on_new_family_query
on_new_family q =
    start_form q (λ t. record t { subj = utf8 "Создать семейство"; type = utf8 "FAMILY" })
      (on_new_family_query q)

-- The receivers are gone through; the call that would send the file is commented out.
unfoldable pub send_document_to_all : List ℤ → Text → Text → M (Unit {0})
unfolding each
send_document_to_all receiver_ids file_url msg_text = each receiver_ids (λ receiver. skip)

-- A question by which a service step begins.
unfoldable pub ask_service : Pressed → Text → Text → ℕ → M (Unit {0})
ask_service q question type_ next = do
  say q.chat_id question no_keyboard
  modify_task (λ t. record t { type = type_; stat_ = next })

unfoldable pub on_req_master_key : Pressed → M (Unit {0})
on_req_master_key q = do
  modify_task (λ t. empty_task)
  say q.chat_id (utf8 "Введите причину") no_keyboard
  modify_task (λ t. record t { stat_ = revit_master_key_reason_step1 })

unfoldable pub on_msg_to_gpt : Pressed → M (Unit {0})
unfolding ask_service
on_msg_to_gpt q = do
  say q.chat_id (utf8 "Для выхода из режима GTP-4o нажмёте на команду /start") no_keyboard
  ask_service q (utf8 "Пришлите текст для отправки GPT (Generative pre-trained transformer)")
      (utf8 "DEVELOPER") developer_send_msg_to_gpt

unfoldable pub on_reboot_host : Pressed → M (Unit {0})
on_reboot_host q = do
  say q.chat_id (utf8 "Перезагружаем компьютер...") no_keyboard
  b ← get
  request (start_detached (b.sett "script_path_reboot"))

unfoldable pub on_send_file : M (Unit {0})
unfolding send_document_to_all
on_send_file = do
  b ← get
  in_thread (
      send_document_to_all b.v_consumers
        (utf8 "https://www.oexxxxxxxxxxxxx.ru/instruksiya_xxxx_xxx_helper.pdf")
        (utf8
          "Здравствуйте!\n\nНаправляем инструкцию по использованию бота.\n\nС уважением,\nадминистрация"))

unfoldable pub on_no_more_photos : Pressed → M (Unit {0})
on_no_more_photos q = do
  say q.chat_id (utf8 "Отлично\nНапишите свои имя и фамилию") kb_ganzel
  modify_task (λ t. record t { stat_ = shared_separate_tekla_from_bim_step6 })

unfoldable pub on_my_tasks : Pressed → M (Unit {0})
on_my_tasks q = do
  modify_ud (λ u. record u { clicked_msg_id = pos 0; jira_task = empty_task })
  in_thread (get_my_issues q.from_id)

unfoldable pub on_tekla_enter_menu : Pressed → M (Unit {0})
on_tekla_enter_menu q = do
  request (edit_message_reply_markup q.chat_id q.message_id kb_tekla)
  modify_task (λ t. record t { subj = utf8 "Tekla" })

unfoldable pub on_tekla_general_issue : Pressed → M (Unit {0})
on_tekla_general_issue q = do
  request (delete_message q.chat_id q.message_id)
  say q.chat_id (utf8 "Напишите одним словом тему обращения") no_keyboard
  modify_task (λ t. record t {
    type = utf8 "TEKLA";
    section = utf8 "Проблемы";
    tekla_card_caption = utf8 "Проблемы";
    stat_ = task_subj_step3;
  })

unfoldable pub on_tekla_back : Pressed → M (Unit {0})
on_tekla_back q = do
  request (edit_message_reply_markup q.chat_id q.message_id kb_consumer)
  modify_task (λ t. empty_task)

unfoldable pub on_start_solving : Pressed → IssuePointer → M (Unit {0})
unfolding the_issue
on_start_solving q get_clicked_issue = do
  try_catch_tg
      (do
        request (edit_message_reply_markup q.chat_id q.message_id kb_task_closing)
        modify_ud (λ u. record u { clicked_msg_id = q.message_id }))
      (λ e. skip)
  request (
      answer_callback_query q.id (
        utf8
          "Вы приступили к выполнению задачи.\nПосле завершения задачи, задача будет недоступна, и отправится в архив"))
  issue ← the_issue get_clicked_issue
  request (change_card_color issue.id_card (utf8 "green"))

unfoldable pub on_task_closing : Pressed → IssuePointer → M (Unit {0})
unfolding the_issue
on_task_closing q get_clicked_issue = do
  request (edit_message_reply_markup q.chat_id q.message_id kb_task_done)
  modify_ud (λ u. record u { clicked_msg_id = pos 0 })
  request (
      answer_callback_query q.id
        (utf8 "Вы завершили задачу\nМожно приступать к выполнению следующей"))
  in_thread (do
    issue ← the_issue get_clicked_issue
    send_msg_to_staff
        (utf8 "Исполнитель "
          ++ issue.contractor_name
          ++ utf8 " @"
          ++ issue.contractor_link
          ++ utf8 "\nвыполнил задачу "
          ++ itoa issue.id
          ++ utf8 " "
          ++ issue.issue_num
          ++ utf8 " "
          ++ issue.theme
          ++ utf8 " от пользователя\n"
          ++ issue.from)
        kb_go_dashboard)
  card ← the_issue get_clicked_issue
  request (archiving_card card.id_card)
  row ← the_issue get_clicked_issue
  request (exec_sql pg_database "DELETE FROM issues WHERE idCard = ?" (row.id_card ∷ []))

-- `if (… && get_clicked_issue != nullptr)`.
unfoldable pub with_issue : Option IssuePointer → (IssuePointer → M (Unit {0})) → M (Unit {0})
with_issue none f = skip
with_issue (some get_clicked_issue) f = f get_clicked_issue
