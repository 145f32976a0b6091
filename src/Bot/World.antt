-- ===== src/Bot/World.antt =====
-- Requests to the outside world, and the environment that answers them.
use tgbot_with_rest.Prelude.{ℕ, ℤ, Bool, String, List, Option}
use tgbot_with_rest.Text.{Text}
use tgbot_with_rest.Structures.{UserDispatcher}

-- A chat is named by its number or, for the support chat, by the text of the setting.
pub data ChatId : Type 0 where
  chat : ℤ → ChatId
  named : Text → ChatId

-- The keyboards of chanserv.h, `nullptr`, and the one made for a key request.
pub data Keyboard : Type 0 where
  no_keyboard kb_ganzel kb_developer kb_manage_photos kb_consumer kb_contractor kb_staff kb_tekla
        kb_start_solving kb_start_solving_w_photo kb_task_closing kb_task_done kb_go_dashboard :
      Keyboard
  kb_reject_or_approve : (approve reject : Text) → Keyboard

pub data Database : Type 0 where
  pg_database ms_database : Database

pub data Event : Type 0 where
  send_message : ChatId → Text → Keyboard → Event
  send_sticker : ℤ → Text → Event
  send_photo : ℤ → Text → Text → Keyboard → Event
  send_media_group : ℤ → List Text → ℤ → Event
  edit_message_reply_markup : ℤ → ℤ → Keyboard → Event
  delete_message : ℤ → ℤ → Event
  answer_callback_query : Text → Text → Event
  get_file : Text → Event
  download_image_from_url : Text → Text → Event
  start_detached : Text → Event
  run_process : Text → Text → Event
  exec_sql : Database → String → List Text → Event
  commit : Database → Event
  change_card_color : Text → Text → Event
  archiving_card : Text → Event
  create_new_card : Text → Text → Text → Event
  add_img_to_card : Text → Text → Event
  create_task : UserDispatcher → Text → Event
  add_attach : Text → Text → Event

-- A `TgException`, or another one, with the text of its `what()`.
pub data Exception : Type 0 where
  tg_exception other_exception : Text → Exception

abbrev pub what : Exception → Text
what (tg_exception s) = s
what (other_exception s) = s

-- The answer to a request: an exception, or whether it succeeded, with a number (an id, a code or how
-- many rows), a
-- text, the chat of a sent message and rows, of which the caller reads what the call returns.
pub record Answer : Type 0 where
  pub threw : Option Exception
  pub success : Bool
  pub number : ℤ
  pub text : Text
  pub sent_chat_id : ℤ
  pub rows : List (List Text)

-- What the program takes from Qt's texts: the conversions between UTF-8 and UTF-16,
-- `leftJustified` with the fill '.', `arg` of a number with a width and the fill '0', and others
-- under their names.
pub record Qt : Type 0 where
  pub from_std_string : Text → List ℕ
  pub to_std_string : List ℕ → Text
  pub left_justified : List ℕ → ℕ → List ℕ
  pub arg : ℕ → ℕ → Text
  pub from_local_8bit : Text → Text
  pub to_html_escaped : Text → Text
  pub split : Text → ℕ → List Text
  pub to_long_long : Text → ℤ
  pub to_int : Text → ℤ
  pub split_skip_empty : Text → Text → List Text

pub record Env : Type 0 where
  pub answer : List Event → Event → Answer
  pub qt : Qt
  pub sha1 : Text → Text
  pub select_randomly : List Event → List Text → Text
