-- ===== src/Settings/Read.antt =====
-- The lifetime of sessions that src/chanserv.cpp takes from the settings of src/chanconf.cpp.
use tgbot_with_rest.Prelude.{true, none, some, ◌≡◌, refl, ap, ◌∙◌, ℤ, pos, negsuc}
use tgbot_with_rest.Text.{Text, utf8, text_eq}
use tgbot_with_rest.Numbers.{itoa, atol, clamp, fits_long}
use tgbot_with_rest.Numbers.RoundTrip.{read_long-itoa}
use tgbot_with_rest.Bot.Dispatcher.{ttl_hours}
use tgbot_with_rest.Settings.{
  num, node_text, Outside, ChanConf, built, chanserv_toml, conf_value, pg_settings,
  read_settings_from, opened, chan_conf,
}

atol-itoa : (z : ℤ) → fits_long z ≡ true → atol (itoa z) ≡ z
unfolding atol clamp
atol-itoa (pos n) h = rw (read_long-itoa (pos n), atol) (rw h refl)
atol-itoa (negsuc n) h = rw (read_long-itoa (negsuc n), atol) (rw h refl)

conf_value_num :
    (w : Outside) (section_ key d : Text) (n : ℤ)
    → chanserv_toml w section_ key ≡ some (num n)
    → conf_value w section_ key d ≡ itoa n
conf_value_num w section_ key d n h = ap (node_text d) h

session_ttl :
    (w : Outside)
    → (opened w).sett (utf8 "session_ttl_hours")
      ≡ conf_value w (utf8 "main") (utf8 "session_ttl_hours") (utf8 "24")
unfolding opened read_settings_from text_eq utf8
session_ttl w = refl

-- If the database opens and the file has an integer of 64 bits as the lifetime of sessions, the bot
-- reads exactly that number from its settings, and so takes it as the lifetime if it is positive, and
-- 24 hours otherwise.
pub ttl_hours_lem :
    (w : Outside) (n : ℤ)
    → w.open_error (pg_settings w) ≡ none
    → chanserv_toml w (utf8 "main") (utf8 "session_ttl_hours") ≡ some (num n)
    → fits_long n ≡ true
    → (c : ChanConf) × (chan_conf w ≡ built c)
      × (ttl_hours (atol (c.sett (utf8 "session_ttl_hours"))) ≡ ttl_hours n)
unfolding chan_conf
ttl_hours_lem w n h k fits = (
  opened w,
  rw (h, chan_conf) refl,
  ap (λ t. ttl_hours (atol t)) (session_ttl w ∙ conf_value_num w _ _ _ n k)
      ∙ ap ttl_hours (atol-itoa n fits),
)
