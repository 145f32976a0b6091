-- ===== src/Startup.antt =====
-- The start of the process: `main` of src/main.cpp up to its threads, with the constructor of
-- chanserv_bot, `IInitializeDB`, `initialize_tracking_apis` and `service_notification` of
-- src/chanserv.cpp. The databases and the file are parameters.
pub mod Outcome
use mathlib.Core.Option
use tgbot_with_rest.Prelude.{
  ℕ, zero, suc, ◌+◌, List, [], ◌∷◌, ◌++◌, Option, none, some, ℤ, pos, if◌then◌else◌, length,
}
use tgbot_with_rest.Text.{Text, utf8, text_eq}
use tgbot_with_rest.Numbers.{itoa}
use tgbot_with_rest.Settings.{Map, Outside, ChanConf, built, threw, read_settings_from, chan_conf}
use tgbot_with_rest.Trello.{Api}
use tgbot_with_rest.Jira.{Jira}
use tgbot_with_rest.Keyboards.{Keyboards, create_keyboards}

-- What `main` finds: the database of the settings and the file, the error with which the other database
-- refuses a connection, the rows of `consumers`, a column of texts which
-- Qt narrows to an `int`, and of `buttons`.
pub record Host : Type 0 where
  pub outside : Outside
  pub open_mssql : Text → Option Text
  pub consumers : List (Text × Text)
  pub to_int : Text → ℤ
  pub buttons : Text → List (List Text)

-- The constructor of chanserv_bot reads where the other database is.
abbrev pub mssql_settings : List Text
unfolding utf8
mssql_settings = utf8 "msidbhost" ∷ utf8 "msidb" ∷ utf8 "msidbusr" ∷ utf8 "msidbpasswd" ∷ []

unfoldable pub msdb : Outside → Map
unfolding read_settings_from
msdb w = read_settings_from w mssql_settings (λ k. [])

unfoldable pub conn_str : Map → Text
unfolding utf8
conn_str db =
    utf8 "DRIVER={ODBC Driver 18 for SQL Server};Encrypt=Optional;TrustServerCertificate=Yes;"
    ++ (utf8 "Server="
        ++ (db (utf8 "msidbhost")
            ++ (utf8 ";"
                ++ (utf8 "Database="
                    ++ (db (utf8 "msidb")
                        ++ (utf8 ";"
                            ++ (utf8 "Uid="
                                ++ (db (utf8 "msidbusr")
                                    ++ (utf8 ";"
                                        ++ (utf8 "Pwd="
                                            ++ (db (utf8 "msidbpasswd") ++ utf8 ";")))))))))))

-- The exception of a database that does not open, if there is one.
unfoldable pub initialize_db : Host → Option Text
unfolding msdb conn_str utf8
initialize_db h = elim (h.open_mssql (conn_str (msdb h.outside))) [
  | none ↦ none
  | some err ↦ some (utf8 "MSSQL: " ++ err)
]

abbrev pub trello_api : ChanConf → Api
unfolding utf8
trello_api conf = record {
  api_key = conf.sett (utf8 "trello_key");
  user_token = conf.sett (utf8 "trello_token");
  apiprefix = conf.sett (utf8 "trello_prefix");
}

abbrev pub jira_api : ChanConf → Jira
unfolding utf8
jira_api conf = record {
  token = conf.sett (utf8 "jira_token");
  base_url = conf.sett (utf8 "jira_base_url");
  browse_url = conf.sett (utf8 "jira_browse_url");
  mail_sender_path = conf.sett (utf8 "script_path_mail_sender");
}

abbrev pub no_keyboards : Keyboards
no_keyboards = record {
  consumer_buttons = [];
  contractor_buttons = [];
  staff_buttons = [];
  dev_buttons = [];
  kb_ganzel = [];
  kb_consumer = [];
  kb_contractor = [];
  kb_staff = [];
  kb_developer = [];
  kb_tekla = [];
  kb_start_solving = [];
  kb_start_solving_w_photo = [];
  kb_task_closing = [];
  kb_task_done = [];
  kb_go_dashboard = [];
  kb_manage_photos = [];
}

-- `service_notification_coroutine`: it yields in front of each row, and has `i` rows behind it.
pub data Coroutine : Type 0 where
  finished : Coroutine
  suspended : (i : ℕ) → Text × Text → List (Text × Text) → Coroutine

abbrev pub sent_line : (Text → ℤ) → Text → ℕ → Text × Text → Text
unfolding utf8
sent_line to_int msg i (id, username) =
    itoa (pos i)
    ++ (utf8 ") emulated Sent '"
        ++ (msg ++ (utf8 "' to " ++ (username ++ (utf8 " (" ++ (itoa (to_int id) ++ utf8 ")"))))))

abbrev pub all_sent : Text
unfolding utf8
all_sent = utf8 "Рассылка сообщения завершена"

-- Up to the next yield; the second part is what was printed.
unfoldable pub go_on : ℕ → List (Text × Text) → List Text → Coroutine × List Text
go_on i [] out = (finished, out ++ all_sent ∷ [])
go_on i (row ∷ rows) out = (suspended i row rows, out)

unfoldable pub resume : (Text → ℤ) → Text → Coroutine → List Text → Coroutine × List Text
unfolding go_on
resume to_int msg finished out = (finished, out)
resume to_int msg (suspended i row rows) out =
    go_on (i + 1) rows (out ++ sent_line to_int msg (i + 1) row ∷ [])

-- `while(coroutine) coroutine();` with fuel.
unfoldable pub drive : (Text → ℤ) → ℕ → Text → Coroutine × List Text → Option (List Text)
unfolding resume
drive to_int fuel msg (finished, out) = some out
drive to_int zero msg (suspended i row rows, out) = none
drive to_int (suc fuel) msg (suspended i row rows, out) =
    drive to_int fuel msg (resume to_int msg (suspended i row rows) out)

unfoldable pub service_notification : (Text → ℤ) → Text → List (Text × Text) → Option (List Text)
unfolding drive go_on
service_notification to_int msg rows = drive to_int (length rows) msg (go_on 0 rows [])

pub record Services : Type 0 where
  pub conf : ChanConf
  pub trello : Api
  pub jira : Jira
  pub keyboards : Keyboards

-- How `main` goes on: it returns a code, having printed lines, or starts its threads and `bot_start`.
pub data Ending : Type 0 where
  exits : (code : ℕ) → Option (List Text) → Ending
  serves : Services → Ending

abbrev pub heading : Text → Text
unfolding utf8
heading msg = utf8 "Режим рассылки. Будет разослано сообщение \"" ++ (msg ++ utf8 "\"")

-- Behind the initialisation; `args` are those behind the name of the program.
unfoldable pub with_args : Host → ChanConf → List Text → Ending
unfolding create_keyboards service_notification text_eq utf8
with_args h conf [] = serves (record {
  conf = conf;
  trello = trello_api conf;
  jira = jira_api conf;
  keyboards = create_keyboards h.buttons (conf.sett (utf8 "board_link")) no_keyboards;
})
with_args h conf (a ∷ []) = exits 0 (some [])
with_args h conf (a ∷ msg ∷ rest) =
    if text_eq a (utf8 "notify")
    then exits 0
        (Option.map (λ out. heading msg ∷ out) (service_notification h.to_int msg h.consumers))
    else exits 0 (some [])

abbrev pub failed : Text → Ending
unfolding utf8
failed err = exits 1 (some ((utf8 "Ошибка инициализации бота: " ++ err) ∷ []))

unfoldable pub main : Host → List Text → Ending
unfolding chan_conf initialize_db with_args
main h args = elim (chan_conf h.outside) [
  | threw err ↦ failed err
  | built conf ↦ elim (initialize_db h) [ some err ↦ failed err | none ↦ with_args h conf args ]
]
