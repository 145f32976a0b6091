-- ===== src/Bot/Keys.antt =====
-- The master keys of Revit: `insert_revit_key_to_db` of src/chanserv.cpp.
pub mod Safe
use tgbot_with_rest.Prelude.{ℕ, ℤ, List, [], ◌∷◌, Option, none, some, String}
use tgbot_with_rest.Text.{Text, utf8}
use tgbot_with_rest.Numbers.{itoa}
use tgbot_with_rest.Structures.{UserDispatcher}
use tgbot_with_rest.Totp.{otp}
use tgbot_with_rest.Bot.{Bot}
use tgbot_with_rest.Bot.World.{Answer, exec_sql, commit, ms_database}
use tgbot_with_rest.Bot.Monad.{M, ◌>>=◌, ◌>>◌, pure, branch, get, call, request, element}
use tgbot_with_rest.Bot.Registry.{value}

-- `generate_totp` with six digits and steps of two seconds.
unfoldable pub generate_revit_master_key : Text → M Text
generate_revit_master_key secret_key = do
  b ← get
  let qt = b.env.qt
  n ← element (otp b.env.sha1 (qt.to_std_string (qt.from_std_string secret_key)) b.unix_time 6 2)
  pure (qt.arg n 6)

unfoldable pub new_key : UserDispatcher → M Text
unfolding generate_revit_master_key
new_key t_ud = do
  b ← get
  generated_revit_key ← generate_revit_master_key (b.sett "fam_otp_key")
  a ← call (
      exec_sql ms_database
        "INSERT INTO master_keys ( tg_id, master_key, requested_by, requested_at, reason, is_activated ) VALUES (?, ?, ?, ?, ?, 0)"
        (itoa t_ud.chat_user_tg_id
          ∷ generated_revit_key
          ∷ t_ud.jira_task.consumer_name
          ∷ b.utc
          ∷ t_ud.jira_task.key_reason
          ∷ []))
  branch a.success (do request (commit ms_database); pure generated_revit_key) (pure [])

-- The key of an open request, if there is one; else a new key.
unfoldable pub open_or_new : List (List Text) → UserDispatcher → M Text
unfolding value new_key
open_or_new (row ∷ rows) t_ud = pure (value 0 row)
open_or_new [] t_ud = new_key t_ud

-- Empty if a query fails.
unfoldable pub insert_revit_key_to_db : UserDispatcher → M Text
unfolding open_or_new
insert_revit_key_to_db t_ud = do
  a ← call (
      exec_sql ms_database
        "SELECT TOP 1 master_key FROM master_keys WHERE tg_id = ? AND is_activated = 0"
        (itoa t_ud.chat_user_tg_id ∷ []))
  branch a.success (open_or_new a.rows t_ud) (pure [])
