-- ===== src/Bot/Query.antt =====
-- A press of an inline button, as src/chanserv_callbacks.cpp reads it.
use tgbot_with_rest.Prelude.{Option, ℤ, ◌==ℤ◌, Bool, String}
use tgbot_with_rest.Text.{Text, utf8, text_eq}
use tgbot_with_rest.Structures.{UserDispatcher}

-- The message with the button.
pub record ClickedMessage : Type 0 where
  pub chat_id : ℤ
  pub message_id : ℤ

-- A press of a button. `data_` is what the client sends. Telegram may leave out the message.
pub record CallbackQuery : Type 0 where
  pub id : Text
  pub from_id : ℤ
  pub from_username : Text
  pub from_first_name : Text
  pub message : Option ClickedMessage
  pub data_ : Text

-- A query behind the first use of `query->message`.
pub record Pressed : Type 0 where
  pub id : Text
  pub from_id : ℤ
  pub from_username : Text
  pub from_first_name : Text
  pub chat_id : ℤ
  pub message_id : ℤ
  pub data_ : Text

abbrev pub with_message : CallbackQuery → ClickedMessage → Pressed
with_message q m = record {
  id = q.id;
  from_id = q.from_id;
  from_username = q.from_username;
  from_first_name = q.from_first_name;
  chat_id = m.chat_id;
  message_id = m.message_id;
  data_ = q.data_;
}

unfoldable pub is : Pressed → String → Bool
unfolding utf8
is q name = text_eq q.data_ (utf8 name)

-- The button belongs to the last menu.
unfoldable pub is_fresh : Pressed → UserDispatcher → Bool
is_fresh q ud = ud.clicked_msg_id ==ℤ q.message_id
