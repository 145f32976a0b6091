-- ===== src/Access.antt =====
-- src/access.h: which role an action needs. Buttons are named by data that the client sends.
use tgbot_with_rest.Prelude.{ℕ, Bool, true, ◌||◌, ◌==◌, if◌then◌else◌}
use tgbot_with_rest.Text.{Text, utf8, text_eq, starts_with}
use tgbot_with_rest.Structures.{
  developer_send_msg_as_bot, developer_send_msg_to_gpt, developer_run_host_command,
  staff_set_new_msi_version, staff_add_new_contractor,
}

pub data RequiredRole : Type 0 where
  anyone staff developer : RequiredRole

unfoldable pub role_for_callback : Text → RequiredRole
unfolding text_eq starts_with utf8
role_for_callback data_ =
    if text_eq data_ (utf8 "msg_as_bot")
      || text_eq data_ (utf8 "msg_to_gpt")
      || text_eq data_ (utf8 "run_command")
      || text_eq data_ (utf8 "reboot_host")
      || text_eq data_ (utf8 "send_file")
    then developer
    else if text_eq data_ (utf8 "add_new_contractor")
        || text_eq data_ (utf8 "set_new_msi_version")
        || starts_with data_ (utf8 "approve_key_request")
        || starts_with data_ (utf8 "_reject_key_request")
    then staff
    else anyone

unfoldable pub role_for_step : ℕ → RequiredRole
role_for_step stat =
    if stat == developer_send_msg_as_bot
      || stat == developer_send_msg_to_gpt
      || stat == developer_run_host_command
    then developer
    else if stat == staff_set_new_msi_version || stat == staff_add_new_contractor
    then staff
    else anyone

-- A developer has the rights of staff too.
unfoldable pub is_allowed : RequiredRole → Bool → Bool → Bool
is_allowed developer is_staff is_developer = is_developer
is_allowed staff is_staff is_developer = is_staff || is_developer
is_allowed anyone is_staff is_developer = true
