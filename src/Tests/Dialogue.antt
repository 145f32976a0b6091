-- ===== src/Tests/Dialogue.antt =====
-- Concrete inputs for the theorems on the bot of src/chanserv.cpp.
use tgbot_with_rest.Prelude.{inl, pos, false, List, [], ◌∷◌, ◌++◌, some, ◌≡◌, ◌≢◌, refl, All}
use tgbot_with_rest.Text.{utf8, text_eq}
use tgbot_with_rest.Bot.Photos.{User, Message}
use tgbot_with_rest.Bot.Loop.{IsComplete, Concerns, Removes, by_any_message}
use tgbot_with_rest.Bot.Isolation.{handle-isolates}
use tgbot_with_rest.Prelude.{◌⊎◌, ℤ, arith, none}
use tgbot_with_rest.Bot.Monad.{element, done}
use tgbot_with_rest.Text.{starts_with}
use tgbot_with_rest.Sessions.{modify}
use tgbot_with_rest.Bot.Approval.{is_approve, key_request}
use tgbot_with_rest.Bot.Callback.Once.{key_request-once}
use tgbot_with_rest.Bot.Callback.Denied.{on_callback_query-denied}
use tgbot_with_rest.Structures.{
  new_dispatcher, developer_send_msg_as_bot, developer_send_msg_to_gpt, developer_run_host_command,
  staff_set_new_msi_version, staff_add_new_contractor,
}
use tgbot_with_rest.Access.{staff, role_for_callback}
use tgbot_with_rest.Sessions.{lookup, create, find, touch}
use tgbot_with_rest.Numbers.{itoa, atol, read_long}
use tgbot_with_rest.Bot.{Bot}
use tgbot_with_rest.Bot.Monad.{
  point_to, pointed, pointer, try_catch, caught, ◌>>=◌, ◌>>◌, after, branch, get, put, skip,
}
use tgbot_with_rest.Bot.Users.{contains, is_developer}
use tgbot_with_rest.Bot.Keeps.{Ends, Leads}
use tgbot_with_rest.Bot.Inv.{anything, Inv, At}
use tgbot_with_rest.Bot.Issue.{each}
use tgbot_with_rest.Bot.Dialog.{handle_small_talk}
use tgbot_with_rest.Bot.Dialog.Safe.{handle_small_talk-Inv}
use tgbot_with_rest.Bot.Query.{CallbackQuery}
use tgbot_with_rest.Bot.Approval.{requester}
use tgbot_with_rest.Bot.Callback.{on_callback_query}
use tgbot_with_rest.Bot.Callback.Safe.{on_callback_query-Inv}
use tgbot_with_rest.Bot.Callback.Button.{requester-button}
use tgbot_with_rest.Bot.Commands.{command_start, command_help}
use tgbot_with_rest.Bot.Commands.Safe.{commands-Inv}
use tgbot_with_rest.Bot.Dispatcher.{
  dispatch_from, session_dispatcher, register_consumer, evict_idle_sessions, create_session,
}
use tgbot_with_rest.Bot.Dispatcher.Safe.{session_dispatcher-Leads}
use tgbot_with_rest.Bot.Loop.{
  Update, any_message, non_command_message, start, callback_query, handle, bot_start, bot_start-Inv,
  bot_start-guards,
}
use tgbot_with_rest.Tests.Samples.{
  sample_user, sample_clicked, sample_bot, photo_session, busy_bot, sample_message, sample_query,
  busy_bot-Inv,
}

abbrev sample_batches : List (List Update)
sample_batches =
    (any_message sample_message ∷ start sample_message ∷ [])
    ∷ (callback_query sample_query ∷ non_command_message sample_message ∷ [])
    ∷ []

sample_batches-IsComplete : All (All IsComplete) sample_batches
sample_batches-IsComplete = (
  ((sample_user, refl), ((sample_user, refl), tt)),
  (((sample_clicked, refl), ((sample_user, refl), tt)), tt),
)

bot_start-Inv_example :
    Ends (Inv sample_bot.v_staff sample_bot.sett anything) (bot_start sample_batches sample_bot)
bot_start-Inv_example =
    bot_start-Inv sample_batches sample_bot sample_batches-IsComplete refl refl (λ s. refl)

-- After one message of user 7.
abbrev greeted_bot : Bot
greeted_bot = record sample_bot {
  u_d = some (pos 7);
  m_sessions = (pos 7, new_dispatcher (pos 7) (b'u' ∷ []) [] 3) ∷ [];
}

bot_start-guards_example :
    All
      (λ service. 0 ≢ service)
      (developer_send_msg_as_bot ∷ developer_send_msg_to_gpt ∷ developer_run_host_command
        ∷ staff_set_new_msi_version ∷ staff_add_new_contractor ∷ [])
unfolding bot_start handle each session_dispatcher dispatch_from element register_consumer contains
    evict_idle_sessions create_session create find lookup point_to pointed pointer try_catch caught
    ◌>>=◌ ◌>>◌ after branch get put skip is_developer atol read_long
bot_start-guards_example =
    bot_start-guards ((any_message sample_message ∷ []) ∷ []) sample_bot greeted_bot (pos 7)
      (new_dispatcher (pos 7) (b'u' ∷ []) [] 3) refl refl (λ s. refl) refl refl refl refl

on_callback_query-Inv_example :
    Ends (Inv busy_bot.v_staff busy_bot.sett anything) (on_callback_query sample_query busy_bot)
on_callback_query-Inv_example =
    on_callback_query-Inv busy_bot.v_staff busy_bot.sett anything sample_query busy_bot
      sample_clicked refl (λ ud. tt) (λ k h e ud. tt) busy_bot-Inv

handle_small_talk-Inv_example :
    Ends (Inv busy_bot.v_staff busy_bot.sett anything) (handle_small_talk sample_message busy_bot)
handle_small_talk-Inv_example =
    handle_small_talk-Inv busy_bot.v_staff busy_bot.sett anything sample_message sample_user
      busy_bot refl (λ ud. tt) busy_bot-Inv

session_dispatcher-Leads_example :
    Leads
      (Inv busy_bot.v_staff busy_bot.sett anything)
      (At busy_bot.v_staff busy_bot.sett anything (pos 7))
      (session_dispatcher sample_message busy_bot)
session_dispatcher-Leads_example =
    session_dispatcher-Leads busy_bot.v_staff busy_bot.sett anything sample_message sample_user
      busy_bot refl (λ ud. tt) (λ k. tt) busy_bot-Inv

commands-Inv_example :
    Ends (Inv busy_bot.v_staff busy_bot.sett anything) (command_start sample_message busy_bot)
    × Ends (Inv busy_bot.v_staff busy_bot.sett anything) (command_help sample_message busy_bot)
commands-Inv_example =
    commands-Inv busy_bot.v_staff busy_bot.sett anything sample_message sample_user busy_bot refl
      (λ ud. tt) busy_bot-Inv

requester-button_example :
    (role_for_callback (utf8 "approve_key_request_" ++ itoa (pos 9275911689)) ≡ staff)
    × (requester (utf8 "approve_key_request_" ++ itoa (pos 9275911689)) ≡ some (pos 9275911689))
    × (role_for_callback (utf8 "_reject_key_request_" ++ itoa (pos 9275911689)) ≡ staff)
    × (requester (utf8 "_reject_key_request_" ++ itoa (pos 9275911689)) ≡ some (pos 9275911689))
requester-button_example = requester-button (pos 9275911689) refl

-- User 7 sends the data of a button that only the developer is shown.
abbrev forged_query : CallbackQuery
forged_query = record sample_query { data_ = utf8 "run_command" }

on_callback_query-denied_example : on_callback_query forged_query busy_bot ≡ done tt busy_bot
unfolding is_developer atol read_long text_eq utf8
on_callback_query-denied_example = on_callback_query-denied forged_query busy_bot refl (inl refl)

-- The request of user 7 is pressed again.
abbrev late_query : CallbackQuery
late_query = record sample_query { data_ = utf8 "approve_key_request_" ++ itoa (pos 7) }

key_request-once_example :
    key_request late_query busy_bot
    ≡ done false (record busy_bot {
      u_d = some (pos 7);
      m_sessions = modify (pos 7) (touch busy_bot.clock) busy_bot.m_sessions;
    })
unfolding is_approve starts_with utf8 lookup
key_request-once_example =
    key_request-once late_query busy_bot (pos 7) photo_session (requester-button (pos 7) refl).1
      refl refl refl

-- User 9 sends a message.
abbrev other_user : User
other_user = record { id = pos 9; username = []; first_name = [] }

abbrev other_message : Message
other_message = record sample_message { from = some other_user }

sender_of :
    (m : Message) (k : ℤ) → Concerns (any_message m) k → (u : User) × (m.from ≡ some u) × (k ≡ u.id)
sender_of m k (by_any_message n u e) = (u, e, refl)

not_concerned : ¬ Concerns (any_message other_message) (pos 7)
not_concerned c = let (u, e, k) = sender_of other_message (pos 7) c in ground (arith, k, e)

handle-isolates_example :
    Ends
      (λ b'.
        (lookup (pos 7) b'.m_sessions ≡ lookup (pos 7) busy_bot.m_sessions)
        ⊎ (Removes (any_message other_message) × (lookup (pos 7) b'.m_sessions ≡ none)))
      (handle (any_message other_message) busy_bot)
handle-isolates_example =
    handle-isolates (any_message other_message) busy_bot (pos 7) busy_bot-Inv (other_user, refl)
      not_concerned
