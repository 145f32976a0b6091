-- ===== src/Tests/Menus.antt =====
-- Concrete inputs for the theorems on the keyboards and the settings.
use tgbot_with_rest.Prelude.{pos, List, [], ◌∷◌, none, some, ◌≡◌, if◌then◌else◌, refl}
use tgbot_with_rest.Text.{Text, utf8, text_eq}
use tgbot_with_rest.Numbers.{atol}
use tgbot_with_rest.Bot.Dispatcher.{ttl_hours}
use tgbot_with_rest.Settings.{num, Outside, ChanConf, built, chan_conf}
use tgbot_with_rest.Settings.Read.{ttl_hours_lem}

-- Contractors have a stored button for their tasks, and the others have none.
abbrev sample_rows : Text → List (List Text)
unfolding text_eq utf8
sample_rows role =
    if text_eq role (utf8 "contractor")
    then (utf8 "contractor" ∷ utf8 "Мои задачи" ∷ utf8 "my_tasks" ∷ []) ∷ []
    else []

-- The file has 8 under every key of the section `main` and nothing else, and the database has "v" for
-- every setting.
abbrev sample_outside : Outside
unfolding text_eq utf8
sample_outside = record {
  parse_file =
      some (λ section_ key. if text_eq section_ (utf8 "main") then some (num (pos 8)) else none);
  open_error = λ pg. none;
  select_value = λ name. some ((b'v' ∷ []) ∷ []);
}

ttl_hours_lem_example :
    (c : ChanConf) × (chan_conf sample_outside ≡ built c)
    × (ttl_hours (atol (c.sett (utf8 "session_ttl_hours"))) ≡ ttl_hours (pos 8))
unfolding text_eq utf8
ttl_hours_lem_example = ttl_hours_lem sample_outside (pos 8) refl refl refl
