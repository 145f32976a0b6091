-- ===== src/Bot/Commands.antt =====
-- The commands of src/chanserv_commands.cpp.
pub mod Safe
use tgbot_with_rest.Prelude.{ℕ, ℤ, Bool, true, List, [], ◌∷◌, ◌++◌, String}
use tgbot_with_rest.Text.{Text, utf8}
use tgbot_with_rest.Structures.{UserDispatcher, NewTask, PgdbIssue, empty_task}
use tgbot_with_rest.Bot.{Bot}
use tgbot_with_rest.Bot.World.{
  Answer, Keyboard, no_keyboard, kb_ganzel, kb_developer, kb_staff, kb_contractor, kb_consumer,
  chat, send_message, send_media_group,
}
use tgbot_with_rest.Bot.Monad.{
  element, M, ◌>>=◌, ◌>>◌, skip, branch, get, call, request, point_to, modify_ud, modify_task,
}
use tgbot_with_rest.Bot.Users.{is_staff, is_developer, contains}
use tgbot_with_rest.Bot.Notify.{say}
use tgbot_with_rest.Bot.MyIssues.{IssuePointer, the_issue}
use tgbot_with_rest.Bot.Photos.{Message, with_from, SentMessage}

-- The menu for the user's role. Its message becomes the one whose buttons count.
unfoldable pub menu : SentMessage → M Answer
menu m = do
  b ← get
  branch (is_developer b.v_staff b.sett m.from_id)
      (call (send_message (chat m.chat_id) (utf8 "Режим разработчика") kb_developer))
      (do
        say m.chat_id
            (utf8 "Привет, "
              ++ m.from_first_name
              ++ utf8
                  "!\nОпиши мне свою проблему, а наши специалисты свяжутся с тобой, и решат её.")
            kb_ganzel
        branch (is_staff b.v_staff b.sett m.from_id)
            (call (send_message (chat m.chat_id) (utf8 "Выбери кнопку") kb_staff))
            (branch (contains b.v_allowed_contractors m.from_id)
              (call (send_message (chat m.chat_id) (utf8 "Выбери кнопку ниже") kb_contractor))
              (call (send_message (chat m.chat_id) (utf8 "Выберите кнопку ниже") kb_consumer))))

unfoldable pub show_menu : SentMessage → M (Unit {0})
unfolding menu
show_menu m = do
  clicked_message ← menu m
  modify_ud (λ ud. record ud { clicked_msg_id = clicked_message.number })

unfoldable pub on_start_command : SentMessage → M (Unit {0})
unfolding show_menu
on_start_command m = do found ← point_to m.from_id; branch found (show_menu m) skip

unfoldable pub restart : SentMessage → M (Unit {0})
unfolding on_start_command
restart m = do modify_task (λ t. empty_task); on_start_command m

unfoldable pub start_from : SentMessage → M (Unit {0})
unfolding restart
start_from m = do found ← point_to m.from_id; branch found (restart m) skip

unfoldable pub help : SentMessage → M (Unit {0})
help m = do
  modify_task (λ t. empty_task)
  say m.chat_id (utf8 "По вопросам и ошибкам бота можно написать сюда - @tg_devel_tg") no_keyboard

unfoldable pub help_from : SentMessage → M (Unit {0})
unfolding help
help_from m = do found ← point_to m.from_id; branch found (help m) skip

-- All photos of an issue as an album, in answer to the message of the issue.
unfoldable pub on_more_photos_command : IssuePointer → ℤ → M (Unit {0})
unfolding the_issue
on_more_photos_command get_clicked_issue from_id = do
  found ← point_to from_id
  branch found
      (do
        issue ← the_issue get_clicked_issue
        request (send_media_group issue.sent_chat_id issue.photos issue.sent_msg_id))
      skip

unfoldable pub command_start : Message → M (Unit {0})
unfolding start_from
command_start m = do u ← element m.from; start_from (with_from m u)

unfoldable pub command_help : Message → M (Unit {0})
unfolding help_from
command_help m = do u ← element m.from; help_from (with_from m u)
