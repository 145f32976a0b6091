-- ===== src/Bot/Photos.antt =====
-- `receive_photos` of src/chanserv.cpp: the pictures and documents of a message are kept for the new issue.
pub mod Safe
use tgbot_with_rest.Prelude.{
  ℕ, ℤ, ◌-◌, ◌%◌, Bool, true, false, not, List, [], ◌∷◌, ◌++◌, Option, none, some, String, ◌==◌,
  if◌then◌else◌, length, get_elem?, is_empty, keep_if, pos, negsuc, ltb,
}
use tgbot_with_rest.Text.{Text, utf8, text_eq}
use tgbot_with_rest.Numbers.{itoa}
use tgbot_with_rest.Escape.{escape_json_entire_text}
use tgbot_with_rest.Structures.{
  UserDispatcher, NewTask, empty_task, table_bim_issues, table_tekla_issues,
}
use tgbot_with_rest.Bot.{Bot}
use tgbot_with_rest.Bot.World.{
  Event, Keyboard, no_keyboard, kb_go_dashboard, chat, named, send_message, send_sticker, get_file,
  download_image_from_url, exec_sql, commit, pg_database, Database, create_new_card,
  add_img_to_card, create_task, add_attach, what,
}
use tgbot_with_rest.Bot.Monad.{
  M, ◌>>=◌, ◌>>◌, pure, skip, when, branch, get, call, request, try_catch, in_thread, the_ud,
  modify_ud, modify_task, element,
}
use tgbot_with_rest.Bot.Notify.{say, send_msg_to_support, send_msg_to_staff}

pub record User : Type 0 where
  pub id : ℤ
  pub username : Text
  pub first_name : Text

-- The parts of a Telegram message that the bot reads; of photos and documents, the file ids. A message
-- of a channel has no sender.
pub record Message : Type 0 where
  pub from : Option User
  pub chat_id : ℤ
  pub chat_username : Text
  pub text : Text
  pub photo : List Text
  pub document : Option Text

-- A message behind the first use of `message->from`.
pub record SentMessage : Type 0 where
  pub from_id : ℤ
  pub from_username : Text
  pub from_first_name : Text
  pub chat_id : ℤ
  pub chat_username : Text
  pub text : Text
  pub photo : List Text
  pub document : Option Text

abbrev pub with_from : Message → User → SentMessage
with_from m u = record {
  from_id = u.id;
  from_username = u.username;
  from_first_name = u.first_name;
  chat_id = m.chat_id;
  chat_username = m.chat_username;
  text = m.text;
  photo = m.photo;
  document = m.document;
}

-- The path of the downloaded copy is added to the task.
unfoldable pub keep_file : Text → M (Unit {0})
keep_file file_path = when (not (is_empty file_path)) (do
  b ← get
  a ← call (
      download_image_from_url
        (utf8 "https://api.telegram.org/file/bot" ++ b.sett "tg_bot_token" ++ utf8 "/" ++ file_path)
        file_path)
  modify_task (λ t. record t { v_local_file_paths = t.v_local_file_paths ++ a.text ∷ [] }))

-- The index of the biggest photo is an `unsigned char`.
unfoldable pub receive_photo : List Text → M (Unit {0})
receive_photo photo = when (not (is_empty photo)) (do
  file_id ← element (get_elem? photo ((length photo - 1) % 256))
  file ← call (get_file file_id)
  keep_file file.text
  modify_task (λ t. record t { photo_ids = t.photo_ids ++ file_id ++ utf8 "\\n" }))

unfoldable pub receive_document : Option Text → M (Unit {0})
receive_document none = skip
receive_document (some file_id) = do
  file ← call (get_file file_id)
  modify_task (λ t. record t { v_docu_ids = t.v_docu_ids ++ (file_id ++ utf8 "\n") ∷ [] })
  keep_file file.text

unfoldable pub receive_photos : SentMessage → M (Unit {0})
receive_photos m = try_catch (do receive_photo m.photo; receive_document m.document) (λ e. skip)
