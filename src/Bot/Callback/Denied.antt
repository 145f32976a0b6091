-- ===== src/Bot/Callback/Denied.antt =====
-- The service buttons in the hands of somebody without rights: the data of a press is made by the
-- client, which may send the data of buttons that it was never shown.
use tgbot_with_rest.Prelude.{
  Bool, true, false, String, List, [], ◌∷◌, ◌||◌, ◌≡◌, ◌⊎◌, inl, inr, refl, if◌then◌else◌, arith,
}
use tgbot_with_rest.Text.{Text, utf8, text_eq, starts_with}
use tgbot_with_rest.Access.{RequiredRole, anyone, staff, developer, role_for_callback, is_allowed}
use tgbot_with_rest.Bot.{Bot}
use tgbot_with_rest.Bot.Monad.{done, ◌>>=◌, after, get, when, skip}
use tgbot_with_rest.Bot.Users.{contains, is_staff, is_developer, has_role}
use tgbot_with_rest.Bot.Query.{CallbackQuery}
use tgbot_with_rest.Bot.Callback.{on_callback_query}

-- The data is one of these names.
abbrev pub any_of : List String → Text → Bool
any_of [] data_ = false
any_of (name ∷ names) data_ = text_eq data_ (utf8 name) || any_of names data_

abbrev pub for_developer : Text → Bool
for_developer =
    any_of ("msg_as_bot" ∷ "msg_to_gpt" ∷ "run_command" ∷ "reboot_host" ∷ "send_file" ∷ [])

abbrev pub for_staff : Text → Bool
for_staff data_ =
    any_of ("add_new_contractor" ∷ "set_new_msi_version" ∷ []) data_
    || starts_with data_ (utf8 "approve_key_request")
    || starts_with data_ (utf8 "_reject_key_request")

developer_row :
    (a b c d e : Bool) (x : RequiredRole)
    → (a || (b || (c || (d || (e || false))))) ≡ true
    → (if a || b || c || d || e then developer else x) ≡ developer
developer_row a b c d e x h = ground arith

staff_row :
    (dev a b c d : Bool)
    → ((a || (b || false)) || c || d) ≡ true
    → ((if dev then developer else if a || b || c || d then staff else anyone) ≡ developer)
      ⊎ ((if dev then developer else if a || b || c || d then staff else anyone) ≡ staff)
staff_row true a b c d h = inl refl
staff_row false a b c d h = inr (ground arith)

abbrev rest_of : Text → RequiredRole
rest_of data_ =
    if text_eq data_ (utf8 "add_new_contractor")
      || text_eq data_ (utf8 "set_new_msi_version")
      || starts_with data_ (utf8 "approve_key_request")
      || starts_with data_ (utf8 "_reject_key_request")
    then staff
    else anyone

role-for_developer :
    (data_ : Text) → for_developer data_ ≡ true → role_for_callback data_ ≡ developer
unfolding role_for_callback text_eq starts_with utf8
role-for_developer data_ h =
    developer_row (text_eq data_ (utf8 "msg_as_bot")) (text_eq data_ (utf8 "msg_to_gpt"))
      (text_eq data_ (utf8 "run_command")) (text_eq data_ (utf8 "reboot_host"))
      (text_eq data_ (utf8 "send_file")) (rest_of data_) h

role-for_staff :
    (data_ : Text)
    → for_staff data_ ≡ true
    → (role_for_callback data_ ≡ developer) ⊎ (role_for_callback data_ ≡ staff)
unfolding role_for_callback text_eq starts_with utf8
role-for_staff data_ h =
    staff_row _ (text_eq data_ (utf8 "add_new_contractor"))
      (text_eq data_ (utf8 "set_new_msi_version")) (starts_with data_ (utf8 "approve_key_request"))
      (starts_with data_ (utf8 "_reject_key_request")) h

-- Whoever lacks the role does nothing.
without_role :
    (q : CallbackQuery) (b : Bot)
    → has_role b.v_staff b.sett q.from_id (role_for_callback q.data_) ≡ false
    → on_callback_query q b ≡ done tt b
unfolding on_callback_query get ◌>>=◌ after when skip
without_role q b e = rw e refl

-- A press of a developer's button by anybody but the developer, and of a button of staff by
-- somebody who is neither staff nor the developer, does nothing at all: no request is made, and the
-- state, sessions and `uD` included, is as it was.
pub on_callback_query-denied :
    (q : CallbackQuery) (b : Bot)
    → is_developer b.v_staff b.sett q.from_id ≡ false
    → (for_developer q.data_ ≡ true)
      ⊎ ((for_staff q.data_ ≡ true) × (contains b.v_staff q.from_id ≡ false))
    → on_callback_query q b ≡ done tt b
unfolding has_role is_staff is_allowed
on_callback_query-denied q b d (inl h) = without_role q b (rw (role-for_developer q.data_ h) d)
on_callback_query-denied q b d (inr (h, s)) =
    without_role q b
      (elim (role-for_staff q.data_ h) [ inl e ↦ rw e d | inr e ↦ rw e (ground (arith, d, s)) ])
