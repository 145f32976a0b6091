-- ===== src/Settings.antt =====
-- The settings of src/chanconf.cpp: what the constructor of ChanConf reads from the file and from the
-- database. The reader of TOML and the database are parameters.
pub mod Read
use tgbot_with_rest.Prelude.{
  Bool, true, false, List, [], ◌∷◌, ◌++◌, Option, none, some, ℤ, if◌then◌else◌,
}
use tgbot_with_rest.Text.{Text, utf8, text_eq}
use tgbot_with_rest.Numbers.{itoa}

-- A value of the file: `value_exact` of a text and of an integer.
pub data Node : Type 0 where
  str : Text → Node
  num : ℤ → Node
  other : Node

-- What the file has under a section and a key.
abbrev pub TomlTable : Type 0
TomlTable = Text → Text → Option Node

abbrev pub node_text : Text → Option Node → Text
node_text default_value none = default_value
node_text default_value (some (str s)) = s
node_text default_value (some (num n)) = itoa n
node_text default_value (some other) = default_value

abbrev pub toml_value_as_string : TomlTable → Text → Text → Text → Text
toml_value_as_string tbl section_ key default_value = node_text default_value (tbl section_ key)

-- A map in which a key that is missing reads as the empty text, as `[]` of `std::map` does.
abbrev pub Map : Type 0
Map = Text → Text

abbrev pub set_setting : Text → Text → Map → Map
unfolding text_eq
set_setting key v m = λ k. if text_eq k key then v else m k

-- Outside: the parsed file, if it can be parsed, the error with which the database refuses to open,
-- and the rows of a SELECT of a setting, if it succeeds.
pub record Outside : Type 0 where
  pub parse_file : Option TomlTable
  pub open_error : Map → Option Text
  pub select_value : Text → Option (List Text)

-- A table that could not be parsed stays empty.
abbrev pub chanserv_toml : Outside → TomlTable
chanserv_toml w = elim w.parse_file [ none ↦ (λ section_ key. none) | some tbl ↦ tbl ]

abbrev pub is_parsed : Outside → Bool
is_parsed w = elim w.parse_file [ none ↦ false | some tbl ↦ true ]

abbrev pub conf_value : Outside → Text → Text → Text → Text
conf_value w = toml_value_as_string (chanserv_toml w)

-- No answer and no row are both the empty text.
abbrev pub get_setting : Outside → Text → Text
get_setting w field_name = elim (w.select_value field_name) [
  | none ↦ []
  | some [] ↦ []
  | some (v ∷ vs) ↦ v
]

abbrev pub chanserv_settings : List Text
unfolding utf8
chanserv_settings =
    utf8 "board_link"
    ∷ utf8 "distribution_list"
    ∷ utf8 "fam_otp_key"
    ∷ utf8 "jira_base_url"
    ∷ utf8 "jira_browse_url_prefix"
    ∷ utf8 "jira_project_url"
    ∷ utf8 "jira_token"
    ∷ utf8 "port_jira_webhook"
    ∷ utf8 "repeat_list_check_in_sec"
    ∷ utf8 "rework_list"
    ∷ utf8 "script_path_getmem_chanserv"
    ∷ utf8 "script_path_getmem_listchecker"
    ∷ utf8 "script_path_listchecker"
    ∷ utf8 "script_path_mail_sender"
    ∷ utf8 "script_path_reboot"
    ∷ utf8 "support_TgID"
    ∷ utf8 "tekla_admin_tgid"
    ∷ utf8 "tg_bot_token"
    ∷ utf8 "trello_token"
    ∷ utf8 "trello_key"
    ∷ utf8 "trello_prefix"
    ∷ []

unfoldable pub read_settings_from : Outside → List Text → Map → Map
read_settings_from w [] sett = sett
read_settings_from w (key ∷ keys) sett =
    read_settings_from w keys (set_setting key (get_setting w key) sett)

abbrev pub pg_settings : Outside → Map
unfolding utf8
pg_settings w =
    set_setting (utf8 "pgport") (conf_value w (utf8 "main") (utf8 "pgport") (utf8 "5432")) (
      set_setting (utf8 "pgpwd") (conf_value w (utf8 "main") (utf8 "pgpwd") []) (
        set_setting (utf8 "pguser") (conf_value w (utf8 "main") (utf8 "pguser") []) (
          set_setting (utf8 "pgdb") (conf_value w (utf8 "main") (utf8 "pgdb") []) (
            set_setting (utf8 "pghost") (conf_value w (utf8 "main") (utf8 "pghost") [])
              (λ k. [])))))

-- The settings that are kept in the file, on top of those of the database.
abbrev pub file_settings : Outside → Map → Map
unfolding utf8
file_settings w sett =
    set_setting (utf8 "sticker_no_tasks") (conf_value w (utf8 "stickers") (utf8 "no_tasks") []) (
      set_setting (utf8 "utc_offset_hours")
        (conf_value w (utf8 "main") (utf8 "utc_offset_hours") (utf8 "3"))
        (set_setting (utf8 "session_ttl_hours")
          (conf_value w (utf8 "main") (utf8 "session_ttl_hours") (utf8 "24"))
          (set_setting (utf8 "jira_webhook_secret")
            (conf_value w (utf8 "jira") (utf8 "webhook_secret") [])
            (set_setting (utf8 "jira_browse_url")
              (conf_value w (utf8 "jira") (utf8 "browse_url") []) sett))))

pub record ChanConf : Type 0 where
  pub is_valid : Bool
  pub pg : Map
  pub sett : Map

pub data Built : Type 0 where
  built : ChanConf → Built
  threw : Text → Built

-- What the constructor makes once the database is open.
unfoldable pub opened : Outside → ChanConf
unfolding read_settings_from
opened w = record {
  is_valid = is_parsed w;
  pg = pg_settings w;
  sett = file_settings w (read_settings_from w chanserv_settings (λ k. []));
}

-- The constructor. A file that cannot be parsed does not keep it from opening the database.
unfoldable pub chan_conf : Outside → Built
unfolding opened utf8
chan_conf w = elim (w.open_error (pg_settings w)) [
  | some err ↦ threw (utf8 "PostgreSQL: " ++ err)
  | none ↦ built (opened w)
]
