-- ===== src/Bot/MyIssues.antt =====
-- The issues of a contractor: `get_my_issues` of src/chanserv.cpp, and `get_selected_issue_id` of
-- src/support.cpp.
pub mod Safe
pub mod Pointer
use tgbot_with_rest.Prelude.{
  ℕ, zero, suc, ◌+◌, ℤ, pos, negsuc, ◌==ℤ◌, ◌==◌, Bool, true, false, not, List, [], ◌∷◌, ◌++◌,
  Option, none, some, String, ◌&&◌, ltb, if◌then◌else◌, length, get_elem?, is_empty,
}
use mathlib.Core.Option
use tgbot_with_rest.Text.{Text, utf8, text_eq}
use tgbot_with_rest.Numbers.{itoa}
use tgbot_with_rest.Structures.{UserDispatcher, MostRecentMsgs, PgdbIssue}
use tgbot_with_rest.Sessions.{lookup}
use tgbot_with_rest.Bot.{Bot}
use tgbot_with_rest.Bot.World.{
  Qt, Answer, Keyboard, kb_ganzel, kb_start_solving, kb_start_solving_w_photo, chat, send_message,
  send_photo, send_sticker, exec_sql, pg_database,
}
use tgbot_with_rest.Bot.Monad.{
  M, fault, ◌>>=◌, ◌>>◌, pure, skip, when, branch, get, call, request, element, point_to, modify_ud,
}
use tgbot_with_rest.Bot.Notify.{say, truncate_msg_from_user}
use tgbot_with_rest.Bot.Registry.{value}

unfoldable pub index_of : ℤ → List ℤ → Option ℕ
index_of msg_id [] = none
index_of msg_id (x ∷ ids) = if x ==ℤ msg_id then some 0 else Option.map suc (index_of msg_id ids)

-- A pointer into `pgdb_issues` of the session of `owner`.
pub record IssuePointer : Type 0 where
  pub owner : ℤ
  pub position : ℕ
  pub changes : ℕ

unfoldable pub position_of : ℤ → List PgdbIssue → Option ℕ
position_of id [] = none
position_of id (issue ∷ issues) =
    if issue.id ==ℤ id then some 0 else Option.map suc (position_of id issues)

unfoldable pub issue_at : Option ℕ → List PgdbIssue → List MostRecentMsgs → M (Option ℕ)
unfolding position_of
issue_at none issues recent_msgs = pure none
issue_at (some selected_button) issues recent_msgs = do
  r ← element (get_elem? recent_msgs selected_button)
  pure (position_of r.ms_query_row_id issues)

-- `owner` is the user whose session `ud` is.
unfoldable pub get_selected_issue_id : ℤ → ℤ → UserDispatcher → M (Option IssuePointer)
unfolding index_of issue_at
get_selected_issue_id owner msg_id ud = do
  found ← issue_at (index_of msg_id ud.recent_msg_ids) ud.pgdb_issues ud.recent_msgs
  pure (Option.map (λ i. record { owner = owner; position = i; changes = ud.issues_changes }) found)

-- `*get_clicked_issue`: a fault, if the list has changed since, or its session is gone.
unfoldable pub issue_in : IssuePointer → Option UserDispatcher → M PgdbIssue
issue_in p none b = fault
issue_in p (some ud) b =
    if ud.issues_changes == p.changes
    then element (get_elem? ud.pgdb_issues p.position) b
    else fault

unfoldable pub the_issue : IssuePointer → M PgdbIssue
unfolding issue_in
the_issue p b = issue_in p (lookup p.owner b.m_sessions) b

-- The p-th issue, from a row; `sent_…` are filled in later.
unfoldable pub issue_of_row : Qt → ℕ → List Text → PgdbIssue
unfolding value
issue_of_row qt p row = record {
  id = qt.to_int (value 0 row);
  sent_msg_id = pos 0;
  sent_chat_id = pos 0;
  id_card = value 8 row;
  issue_num = utf8 "---------- Задача " ++ itoa (pos p) ++ utf8 " ----------";
  unit = value 3 row;
  theme = value 5 row;
  project = value 10 row;
  photos = qt.split_skip_empty (value 9 row) (utf8 "\\n");
  from = value 2 row ++ utf8 " (@" ++ value 1 row ++ utf8 ")";
  category = value 4 row;
  description = value 6 row;
  creation_date = value 7 row;
  contractor_list = value 11 row;
  contractor_name = value 13 row;
  contractor_link = value 12 row;
}

unfoldable pub built_msg : PgdbIssue → Text
built_msg i =
    if text_eq i.theme (utf8 "Создание семейства")
    then utf8 "ID%: "
      ++ itoa i.id
      ++ utf8 " | "
      ++ i.theme
      ++ utf8 "\nВыполнение строго в Revit 2022❗"
      ++ utf8 "\nРаздел: "
      ++ i.unit
      ++ utf8 "\nКатегория: "
      ++ i.category
      ++ utf8 "\nПуть до тех.док.: "
      ++ i.project
      ++ utf8 "\nОт кого: "
      ++ i.from
      ++ utf8 "\nДата создания: "
      ++ i.creation_date
      ++ utf8 "\nОписание: "
      ++ i.description
    else utf8 "UIN: "
      ++ itoa i.id
      ++ utf8 "\nРаздел: "
      ++ i.unit
      ++ utf8 "\nТема: "
      ++ i.theme
      ++ utf8 "\nПроект: "
      ++ i.project
      ++ utf8 "\nОт кого: "
      ++ i.from
      ++ utf8 "\nДата создания: "
      ++ i.creation_date
      ++ utf8 "\nОписание: "
      ++ i.description

-- With photos, the text is cut to 1000 units and sent with the first photo.
unfoldable pub send_issue : ℤ → PgdbIssue → List Text → M Answer
unfolding built_msg
send_issue to i [] = call (send_message (chat to) (built_msg i) kb_start_solving)
send_issue to i (photo ∷ more) = do
  b ← get
  let caption =
      if ltb 1000 (length (built_msg i))
      then truncate_msg_from_user b.env.qt (built_msg i) 1000
      else built_msg i
  call (
      send_photo to photo caption
        (if is_empty more then kb_start_solving else kb_start_solving_w_photo))

-- The three lists of the session grow together.
unfoldable pub remember_issue : PgdbIssue → Answer → UserDispatcher → UserDispatcher
remember_issue i sent ud = record ud {
  recent_msgs = ud.recent_msgs ++ record { ms_query_row_id = i.id; msg_id = sent.number } ∷ [];
  recent_msg_ids = ud.recent_msg_ids ++ sent.number ∷ [];
  pgdb_issues =
      ud.pgdb_issues
      ++ record i { sent_msg_id = sent.number; sent_chat_id = sent.sent_chat_id } ∷ [];
  issues_changes = ud.issues_changes + 1;
}

unfoldable pub send_issues : ℤ → ℕ → List (List Text) → M (Unit {0})
unfolding issue_of_row send_issue remember_issue
send_issues to p [] = skip
send_issues to p (row ∷ rows) = do
  b ← get
  let i = issue_of_row b.env.qt p row
  sent ← send_issue to i i.photos
  modify_ud (remember_issue i sent)
  send_issues to (p + 1) rows

unfoldable pub is_positive : ℤ → Bool
is_positive (pos zero) = false
is_positive (pos (suc n)) = true
is_positive (negsuc n) = false

-- Each press empties the lists of the last one. Rows are skipped, if the database does not count
-- them.
unfoldable pub list_issues : ℤ → M (Unit {0})
unfolding send_issues is_positive
list_issues from_message_id = do
  a ← call (
      exec_sql pg_database
        "SELECT id, consumer_link, consumer_name, section, category, theme, description, created_time, idCard, photos, project, contractor_list, contractor_link, contractor_name FROM issues WHERE contractor_id = ?"
        (itoa from_message_id ∷ []))
  modify_ud (λ ud. record ud {
    recent_msgs = [];
    recent_msg_ids = [];
    pgdb_issues = [];
    issues_changes = ud.issues_changes + 1;
  })
  when (is_positive a.number) (send_issues from_message_id 1 a.rows)
  when (a.number ==ℤ pos 0) (do
    say from_message_id (utf8 "У вас нет активных задач\nКайфуйте 🚬🚬🚬") kb_ganzel
    b ← get
    when (not (is_empty (b.sett "sticker_no_tasks")))
        (request (send_sticker from_message_id (b.sett "sticker_no_tasks"))))

unfoldable pub get_my_issues : ℤ → M (Unit {0})
unfolding list_issues
get_my_issues from_message_id = do
  found ← point_to from_message_id
  branch found (list_issues from_message_id) skip
