-- ===== src/Keyboards/Open.antt =====
-- Who may press the buttons of the keyboards (src/chanserv_keyboards.cpp, src/access.h).
use tgbot_with_rest.Prelude.{Bool, true, List, ◌≡◌, All}
use tgbot_with_rest.Text.{Text}
use tgbot_with_rest.Access.{role_for_callback, is_allowed}
use tgbot_with_rest.Keyboards.{Button, Keyboards}

-- Somebody who is staff or not, and the developer or not, may press a button.
abbrev pub IsOpen : Bool → Bool → Button → Type 0
IsOpen is_staff is_developer b =
    is_allowed (role_for_callback b.callback_data) is_staff is_developer ≡ true

abbrev pub AllOpen : Bool → Bool → List (List Button) → Type 0
AllOpen is_staff is_developer = All (All (IsOpen is_staff is_developer))
