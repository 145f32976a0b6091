-- ===== src/Console.antt =====
-- Console and log: `cpp_out` of src/support.h, `bg_message_handler`, `colour_out` and `cout_small_talk` of
-- src/support.cpp, and the calls over DBus of src/serverdbus.cpp and src/adaptorimp.cpp, which only print. Times
-- and dates are given as texts.
pub mod Lines
use tgbot_with_rest.Prelude.{
  Bool, true, false, not, ◌&&◌, List, [], ◌∷◌, ◌++◌, Option, none, some, if◌then◌else◌, is_empty, ℤ,
}
use tgbot_with_rest.Text.{Text, utf8, starts_with}
use tgbot_with_rest.Numbers.{itoa}

-- The object, what is on the console, and the messages given to `qDebug`.
pub record CppOut : Type 0 where
  pub str_debug_to_log : Text
  pub prefix_printed : Bool
  pub console : Text
  pub debug : List Text

-- At the time `now`.
unfoldable pub add_prefix_if_needed : Text → CppOut → CppOut
unfolding utf8
add_prefix_if_needed now o =
    if o.prefix_printed
    then o
    else record o { console = o.console ++ (now ++ utf8 ": "); prefix_printed = true }

unfoldable pub put_text : Text → Text → CppOut → CppOut
unfolding add_prefix_if_needed
put_text now sstr o =
    let p = add_prefix_if_needed now o in
    record p { console = p.console ++ sstr; str_debug_to_log = p.str_debug_to_log ++ sstr }

-- `<< std::endl`.
unfoldable pub put_endl : Text → CppOut → CppOut
unfolding add_prefix_if_needed utf8
put_endl now o =
    let p = add_prefix_if_needed now o in
    record p {
      debug = p.debug ++ (now ++ (utf8 ": " ++ p.str_debug_to_log)) ∷ [];
      str_debug_to_log = [];
      prefix_printed = false;
      console = p.console ++ 10 ∷ [];
    }

-- Qt's levels.
pub data MsgType : Type 0 where
  debug_msg warning_msg critical_msg fatal_msg info_msg : MsgType

-- `none` is `abort()`; a warning and an information have no text.
abbrev pub log_text : MsgType → Text → Option Text
unfolding utf8
log_text debug_msg msg = some msg
log_text warning_msg msg = some []
log_text critical_msg msg = some (utf8 "Critical: " ++ msg)
log_text fatal_msg msg = none
log_text info_msg msg = some []

-- The file and the line that is added to it, if there is one. `date` has the hour.
abbrev pub log_line : Text → Text → Text → Text → Option (Text × Text)
unfolding utf8 starts_with
log_line directory date msg txt =
    if not (is_empty txt)
      && not (starts_with msg (utf8 "QML Debugger: Waiting for connection on port"))
    then some (
      directory ++ (utf8 "/" ++ (utf8 "chanserv-" ++ (date ++ utf8 ".log"))),
      utf8 " " ++ (txt ++ 10 ∷ []),
    )
    else none

-- `none` is the end of the process.
unfoldable pub bg_message_handler : Text → Text → MsgType → Text → Option (Option (Text × Text))
bg_message_handler directory date type msg = elim (log_text type msg) [
  | none ↦ none
  | some txt ↦ some (log_line directory date msg txt)
]

-- In white on black.
abbrev pub colour_line : Text → Text → Text
unfolding utf8
colour_line now text =
    now
    ++ (utf8 ": "
        ++ ((27 ∷ utf8 "[40m")
            ++ ((27 ∷ utf8 "[37m ") ++ (text ++ ((32 ∷ 27 ∷ utf8 "[49m") ++ (27 ∷ utf8 "[39m"))))))

abbrev pub small_talk_line : Text → Text → ℤ → Text → Text → Text
unfolding utf8
small_talk_line now tg_name tg_id field_name text =
    now
    ++ (utf8 ": "
        ++ (tg_name
            ++ (utf8 " (" ++ (itoa tg_id ++ (utf8 ") " ++ (field_name ++ (utf8 ": " ++ text)))))))

-- The methods of the interface chanserv.qdbus.
pub data DbusCall : Type 0 where
  send_tg_message : Text → DbusCall
  run_command : (cmd : Text) → DbusCall

-- What a call prints; the command is not run.
abbrev pub dbus_line : Text → DbusCall → Text
unfolding utf8
dbus_line now (send_tg_message message) = now ++ (utf8 ": ListChecker: " ++ message)
dbus_line now (run_command cmd) =
    now ++ (utf8 ": ListChecker запросил перезапуск (" ++ (cmd ++ utf8 ")"))
