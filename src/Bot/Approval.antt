-- ===== src/Bot/Approval.antt =====
-- The answers of staff to a request for a master key: the first part of `on_callback_query` in
-- src/chanserv_callbacks.cpp.
use tgbot_with_rest.Prelude.{
  ℤ, pos, ◌==ℤ◌, Bool, true, false, not, [], ◌++◌, Option, none, some, ◌&&◌, ◌||◌, if◌then◌else◌,
  is_empty, drop, length, ltb,
}
use tgbot_with_rest.Text.{Text, utf8, starts_with}
use tgbot_with_rest.Numbers.{itoa, stol}
use tgbot_with_rest.Bot.World.{no_keyboard, kb_ganzel, answer_callback_query}
use tgbot_with_rest.Bot.Monad.{
  M, ◌>>=◌, ◌>>◌, pure, when, branch, get, request, try_catch, in_thread, point_to, the_ud,
  modify_task,
}
use tgbot_with_rest.Bot.Notify.{say, send_msg_to_support, send_msg_to_staff}
use tgbot_with_rest.Bot.Keys.{insert_revit_key_to_db}
use tgbot_with_rest.Bot.Query.{CallbackQuery}

unfoldable pub is_approve : CallbackQuery → Bool
is_approve q = starts_with q.data_ (utf8 "approve_key_request")

unfoldable pub is_reject : CallbackQuery → Bool
is_reject q = starts_with q.data_ (utf8 "_reject_key_request")

-- `std::stol(data.substr(20, …))`: none where one of the two throws.
unfoldable pub requester : Text → Option ℤ
requester data_ = if ltb (length data_) 20 then none else stol (drop 20 data_)

unfoldable pub send_key : CallbackQuery → ℤ → Text → M (Unit {0})
send_key q requester_id new_master_key =
    branch (is_empty new_master_key)
      (send_msg_to_support (utf8 "Ошибка генерации мастер ключа Revit для " ++ itoa requester_id)
        no_keyboard)
      (do
        b ← get
        say requester_id
            (utf8 "Ваш запрос ключа для Revit одобрен. Ключ <code>"
              ++ b.env.qt.to_html_escaped new_master_key
              ++ utf8 "</code>")
            kb_ganzel
        ud ← the_ud
        in_thread (
            send_msg_to_staff
              (utf8 "Тов. "
                ++ q.from_first_name
                ++ utf8 " ("
                ++ q.from_username
                ++ utf8 ") одобрил запрос от "
                ++ ud.jira_task.consumer_name)
              no_keyboard))

unfoldable pub approve : CallbackQuery → ℤ → M (Unit {0})
unfolding send_key
approve q requester_id = do
  ud ← the_ud
  when (not (is_empty ud.jira_task.key_reason)) (do
    new_master_key ← insert_revit_key_to_db ud
    send_key q requester_id new_master_key
    modify_task (λ t. record t { key_reason = [] }))

unfoldable pub reject : CallbackQuery → ℤ → M (Unit {0})
reject q requester_id = do
  ud ← the_ud
  when (not (is_empty ud.jira_task.key_reason)) (do
    say requester_id (utf8 "Ваш запрос ключа для Revit отклонён") no_keyboard
    ud' ← the_ud
    in_thread (
        send_msg_to_staff
          (utf8 "Тов. "
            ++ q.from_first_name
            ++ utf8 " ("
            ++ q.from_username
            ++ utf8 ") отклонил запрос от "
            ++ ud'.jira_task.consumer_name)
          no_keyboard)
    modify_task (λ t. record t { key_reason = [] }))

-- The body of the `try` after the number is read; true where it returns from the handler.
unfoldable pub try_approve : CallbackQuery → ℤ → M Bool
unfolding is_approve approve
try_approve q requester_id = do
  found ← point_to requester_id
  branch found
      (do when (not (requester_id ==ℤ pos 0) && is_approve q) (approve q requester_id); pure false)
      (do
        request (
            answer_callback_query q.id
              (utf8 "Сессия запросившего ключ уже завершена, запрос нужно повторить"))
        pure true)

unfoldable pub points_somewhere : Option ℤ → Bool
points_somewhere none = false
points_somewhere (some k) = true

-- What follows the `try`.
unfoldable pub try_reject : CallbackQuery → ℤ → M (Unit {0})
unfolding is_reject reject points_somewhere
try_reject q requester_id = do
  b ← get
  when (not (requester_id ==ℤ pos 0) && points_somewhere b.u_d && is_reject q)
      (reject q requester_id)

unfoldable pub answer_key_request : CallbackQuery → ℤ → M Bool
unfolding try_approve try_reject
answer_key_request q requester_id = do
  returned ← try_catch (try_approve q requester_id) (λ e. pure false)
  branch returned (pure true) (do try_reject q requester_id; pure false)

-- True where the handler returns. Without a number, `requester_id` stays 0 and nothing is done.
unfoldable pub key_request : CallbackQuery → M Bool
unfolding requester is_approve is_reject answer_key_request
key_request q =
    if is_approve q || is_reject q
    then elim (requester q.data_) [
      | none ↦ pure false
      | some requester_id ↦ answer_key_request q requester_id
    ]
    else pure false
