-- ===== src/Tests/Samples.antt =====
-- A world and a bot that the tests start from.
use tgbot_with_rest.Prelude.{pos, true, [], ◌∷◌, none, some, refl, replicate}
use tgbot_with_rest.Text.{utf8}
use tgbot_with_rest.Structures.{UserDispatcher, new_dispatcher, shared_firstname_step5}
use tgbot_with_rest.Access.{role_for_step, is_allowed}
use tgbot_with_rest.Sessions.{lookup}
use tgbot_with_rest.Numbers.{itoa}
use tgbot_with_rest.Bot.{Bot}
use tgbot_with_rest.Bot.World.{Env, Qt, Answer}
use tgbot_with_rest.Bot.Users.{has_role}
use tgbot_with_rest.Bot.Inv.{anything, Inv}
use tgbot_with_rest.Bot.Photos.{User, Message}
use tgbot_with_rest.Bot.Query.{ClickedMessage, CallbackQuery}

-- A world in which every request succeeds.
abbrev sample_answer : Answer
sample_answer = record {
  threw = none;
  success = true;
  number = pos 5;
  text = [];
  sent_chat_id = pos 7;
  rows = [];
}

abbrev pub sample_qt : Qt
sample_qt = record {
  from_std_string = λ s. s;
  to_std_string = λ s. s;
  left_justified = λ s n. s;
  arg = λ n width. itoa (pos n);
  from_local_8bit = λ s. s;
  to_html_escaped = λ s. s;
  split = λ s c. s ∷ [];
  to_long_long = λ s. pos 0;
  to_int = λ s. pos 0;
  split_skip_empty = λ s t. [];
}

abbrev sample_env : Env
sample_env = record {
  answer = λ es e. sample_answer;
  qt = sample_qt;
  sha1 = λ s. replicate 20 7;
  select_randomly = λ es texts. [];
}

-- User 7 is known, and 9 is staff.
abbrev pub sample_bot : Bot
sample_bot = record {
  env = sample_env;
  sett = λ name. [];
  v_staff = pos 9 ∷ [];
  v_consumers = pos 7 ∷ [];
  v_allowed_contractors = [];
  v_contractors = [];
  sticker_list = [];
  u_d = none;
  m_sessions = [];
  m_last_sessions_cleanup = 0;
  clock = 3;
  utc = [];
  unix_time = 1000;
  out = [];
}

-- User 7 sends photos.
abbrev pub sample_session : UserDispatcher
sample_session = new_dispatcher (pos 7) [] [] 2

abbrev pub photo_session : UserDispatcher
photo_session = record sample_session {
  jira_task = record sample_session.jira_task { stat_ = shared_firstname_step5 };
}

abbrev pub busy_bot : Bot
busy_bot = record sample_bot { u_d = some (pos 7); m_sessions = (pos 7, photo_session) ∷ [] }

abbrev pub sample_user : User
sample_user = record { id = pos 7; username = b'u' ∷ []; first_name = [] }

abbrev pub sample_message : Message
sample_message = record {
  from = some sample_user;
  chat_id = pos 7;
  chat_username = [];
  text = [];
  photo = (b'p' ∷ []) ∷ (b'q' ∷ []) ∷ [];
  document = none;
}

abbrev pub sample_clicked : ClickedMessage
sample_clicked = record { chat_id = pos 7; message_id = pos 5 }

abbrev pub sample_query : CallbackQuery
sample_query = record {
  id = [];
  from_id = pos 7;
  from_username = [];
  from_first_name = [];
  message = some sample_clicked;
  data_ = utf8 "no_more_photos";
}

pub busy_bot-Inv : Inv busy_bot.v_staff busy_bot.sett anything busy_bot
unfolding lookup has_role is_allowed role_for_step
busy_bot-Inv = record {
  same_staff = refl;
  same_sett = refl;
  frame = λ k. tt;
  digest = λ s. refl;
  store = (tt, tt);
  sound = (record { authorised = refl; owner = refl; aligned = refl }, tt);
  live = (photo_session, refl);
}
