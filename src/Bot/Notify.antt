-- ===== src/Bot/Notify.antt =====
-- Messages: `sendMessage`, the notifications and the truncation of src/support.cpp.
use tgbot_with_rest.Prelude.{
  ℕ, ℤ, List, [], ◌∷◌, ◌++◌, ltb, length, if◌then◌else◌, keep_if, not, ◌||◌, ◌==◌,
}
use tgbot_with_rest.Text.{Text}
use tgbot_with_rest.Bot.World.{Keyboard, chat, named, send_message, Qt}
use tgbot_with_rest.Bot.Monad.{M, ◌>>=◌, ◌>>◌, skip, get, request, try_catch_tg}

-- `sendMessage(id, text, nullptr, nullptr, kb)`.
unfoldable pub say : ℤ → Text → Keyboard → M (Unit {0})
say id text kb = request (send_message (chat id) text kb)

-- The support chat is named by a setting.
unfoldable pub send_msg_to_support : Text → Keyboard → M (Unit {0})
send_msg_to_support text kb = do
  b ← get
  request (send_message (named (b.sett "support_TgID")) text kb)

-- A `TgException` of one receiver does not stop the others.
unfoldable pub send_msg_to : List ℤ → Text → Keyboard → M (Unit {0})
send_msg_to [] text kb = skip
send_msg_to (employee ∷ ids) text kb = do
  try_catch_tg (say employee text kb) (λ _. skip)
  send_msg_to ids text kb

unfoldable pub send_msg_to_staff : Text → Keyboard → M (Unit {0})
unfolding send_msg_to
send_msg_to_staff text kb = do b ← get; send_msg_to b.v_staff text kb

-- Longer texts are cut to `width` UTF-16 units, and three dots are added.
unfoldable pub truncate_msg_from_user : Qt → Text → ℕ → Text
truncate_msg_from_user qt str width =
    let qstr = qt.from_std_string str in
    if ltb width (length qstr)
    then qt.to_std_string (qt.left_justified qstr width ++ b'.' ∷ b'.' ∷ b'.' ∷ [])
    else qt.to_std_string qstr

-- `std::regex_replace(text, std::regex("[\r\t\n]+"), "")`.
unfoldable pub remove_breaks : Text → Text
remove_breaks = keep_if (λ c. not (c == b'\r' || c == b'\t' || c == b'\n'))
