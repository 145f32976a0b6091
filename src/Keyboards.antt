-- ===== src/Keyboards.antt =====
-- The keyboards of src/chanserv_keyboards.cpp as data. The rows of the table `buttons` are a parameter.
pub mod Open
use tgbot_with_rest.Prelude.{
  ℕ, Bool, true, false, List, [], ◌∷◌, ◌++◌, Option, none, some, get_elem?, map, is_empty,
  if◌then◌else◌,
}
use tgbot_with_rest.Text.{Text, utf8, emoji_style}

-- `KeyboardButton`.
pub record ReplyButton : Type 0 where
  pub text : Text
  pub request_contact : Bool
  pub request_location : Bool

-- `InlineKeyboardButton`, with the fields that are set.
pub record Button : Type 0 where
  pub text : Text
  pub callback_data : Text
  pub url : Text

abbrev reply_button : Text → ReplyButton
reply_button t = record { text = t; request_contact = false; request_location = false }

unfoldable pub create_one_column_keyboard :
    List Text → List (List ReplyButton) → List (List ReplyButton)
create_one_column_keyboard [] kb = kb
create_one_column_keyboard (t ∷ button_strings) kb =
    create_one_column_keyboard button_strings (kb ++ (reply_button t ∷ []) ∷ [])

unfoldable pub create_keyboard :
    List (List Text) → List (List ReplyButton) → List (List ReplyButton)
create_keyboard [] kb = kb
create_keyboard (row ∷ button_layout) kb =
    create_keyboard button_layout (kb ++ map reply_button row ∷ [])

abbrev callback : Text → Text → Button
callback t data_ = record { text = t; callback_data = data_; url = [] }

-- A row of the table `buttons`: its second column is the text and its third the data.
abbrev pg_value : ℕ → List Text → Text
pg_value i row = elim (get_elem? row i) [ none ↦ [] | some t ↦ t ]

abbrev pub pg_button : List Text → Button
pg_button row = callback (pg_value 1 row) (pg_value 2 row)

pub record Keyboards : Type 0 where
  pub consumer_buttons : List Button
  pub contractor_buttons : List Button
  pub staff_buttons : List Button
  pub dev_buttons : List Button
  pub kb_ganzel : List (List ReplyButton)
  pub kb_consumer : List (List Button)
  pub kb_contractor : List (List Button)
  pub kb_staff : List (List Button)
  pub kb_developer : List (List Button)
  pub kb_tekla : List (List Button)
  pub kb_start_solving : List (List Button)
  pub kb_start_solving_w_photo : List (List Button)
  pub kb_task_closing : List (List Button)
  pub kb_task_done : List (List Button)
  pub kb_go_dashboard : List (List Button)
  pub kb_manage_photos : List (List Button)

-- A keyboard with the stored buttons, if there are any, in the first row.
abbrev pub with_buttons : List Button → List (List Button) → List (List Button)
with_buttons [] rows = rows
with_buttons (b ∷ bs) rows = (b ∷ bs) ∷ rows

abbrev row_new_task_command : List Button
row_new_task_command = callback (utf8 "Новая задача") (utf8 "new_task") ∷ []

abbrev row_new_family_command : List Button
row_new_family_command = callback (utf8 "Новое семейство") (utf8 "new_family") ∷ []

abbrev pub task_rows : List (List Button)
task_rows = row_new_task_command ∷ row_new_family_command ∷ []

-- The vector of a role's buttons grows by the rows of the role, and is not cleared before.
abbrev read_buttons : (Text → List (List Text)) → Text → List Button → List Button
read_buttons rows role old = old ++ map pg_button (rows role)

-- The improvements, the repair and the folder are made as buttons too, and put on no keyboard.
abbrev tekla_rows : List (List Button)
tekla_rows =
    (callback (utf8 "ЦУП, у  нас проблема") (utf8 "tekla_general_issue") ∷ [])
    ∷ (callback (utf8 "Назад") (utf8 "tekla_back") ∷ [])
    ∷ []

abbrev btn_start_solving : Button
btn_start_solving = callback (utf8 "Приступить к выполнению 🫡") (utf8 "start_solving")

abbrev start_solving_rows : List (List Button)
start_solving_rows = (btn_start_solving ∷ []) ∷ []

abbrev w_photo_rows : List (List Button)
w_photo_rows =
    (btn_start_solving ∷ callback (utf8 "Больше фото 🖼" ++ emoji_style) (utf8 "more_photos") ∷ [])
    ∷ []

abbrev task_closing_rows : List (List Button)
task_closing_rows =
    (callback (utf8 "Завершить выполнение ⚡" ++ emoji_style) (utf8 "task_closing") ∷ []) ∷ []

abbrev task_done_rows : List (List Button)
task_done_rows = (callback (utf8 "Задача выполнена ✅") (utf8 "task_done") ∷ []) ∷ []

abbrev pub go_dashboard_rows : Text → List (List Button)
go_dashboard_rows board_link =
    (record { text = utf8 "К доске! 🚀"; callback_data = []; url = board_link } ∷ []) ∷ []

abbrev manage_photos_rows : List (List Button)
manage_photos_rows = (callback (utf8 "Нет больше фото 📷") (utf8 "no_more_photos") ∷ []) ∷ []

unfoldable pub create_keyboards : (Text → List (List Text)) → Text → Keyboards → Keyboards
unfolding create_one_column_keyboard utf8
create_keyboards rows board_link old =
    let consumers = read_buttons rows (utf8 "consumer") old.consumer_buttons in
    let contractors = read_buttons rows (utf8 "contractor") old.contractor_buttons in
    let staff = read_buttons rows (utf8 "staff") old.staff_buttons in
    let developers = read_buttons rows (utf8 "developer") old.dev_buttons in
    record {
      consumer_buttons = consumers;
      contractor_buttons = contractors;
      staff_buttons = staff;
      dev_buttons = developers;
      kb_ganzel = create_one_column_keyboard (utf8 "/start" ∷ []) [];
      kb_consumer = with_buttons consumers task_rows;
      kb_contractor = with_buttons contractors task_rows;
      kb_staff = with_buttons staff task_rows;
      kb_developer = with_buttons developers [];
      kb_tekla = tekla_rows;
      kb_start_solving = start_solving_rows;
      kb_start_solving_w_photo = w_photo_rows;
      kb_task_closing = task_closing_rows;
      kb_task_done = task_done_rows;
      kb_go_dashboard = go_dashboard_rows board_link;
      kb_manage_photos = manage_photos_rows;
    }
