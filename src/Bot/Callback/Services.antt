-- ===== src/Bot/Callback/Services.antt =====
-- The buttons of the menu keep the invariant: who may press the button of a service step has the role of
-- the step.
use tgbot_with_rest.Prelude.{ℕ, ℤ, Bool, true, String, List, ◌≡◌, refl, ap, subst, ◌∙◌}
use tgbot_with_rest.Text.{Text, utf8, text_eq, text_eq_iff, starts_with}
use tgbot_with_rest.Structures.{
  UserDispatcher, developer_send_msg_as_bot, developer_send_msg_to_gpt, developer_run_host_command,
  staff_set_new_msi_version, staff_add_new_contractor,
}
use tgbot_with_rest.Access.{role_for_step, role_for_callback}
use tgbot_with_rest.Bot.Monad.{M}
use tgbot_with_rest.Bot.Users.{has_role}
use tgbot_with_rest.Bot.Keeps.{Keeps, IgnoresOut, >>=-Keeps, >>-Keeps, when-Keeps}
use tgbot_with_rest.Bot.Inv.{Scope, At, At-IgnoresOut, the_ud-Keeps, modify_ud-Keeps}
use tgbot_with_rest.Bot.Rules.{say-Keeps}
use tgbot_with_rest.Bot.Query.{Pressed, is}
use tgbot_with_rest.Bot.Actions.{ask_service, on_msg_to_gpt}
use tgbot_with_rest.Bot.Callback.{button, menu_buttons}
use tgbot_with_rest.Bot.Actions.Safe.{
  req_master_key-Keeps, reboot-Keeps, send_file-Keeps, no_more_photos-Keeps,
}

module _ (staff : List ℤ) (sett : String → Text) (scope : Scope) (id : ℤ) where
  abbrev Kept : {A : Type 0} → M A → Type 0
  Kept = Keeps (At staff sett scope id)

  quiet : IgnoresOut (At staff sett scope id)
  quiet = At-IgnoresOut staff sett scope id

  module _ (q : Pressed) where
    pub button-Keeps :
        (name : String) (holds : UserDispatcher → Bool) {m : M (Unit {0})}
        → (is q name ≡ true → Kept m)
        → Kept (button q name holds m)
    unfolding button
    button-Keeps name holds h =
        when-Keeps _ λ e. >>=-Keeps (the_ud-Keeps staff sett scope id) λ ud. when-Keeps _ (λ _. h e)

  -- `id` has passed the check of the button.
  module _ (q : Pressed) (allowed : has_role staff sett id (role_for_callback q.data_) ≡ true) where
    -- The button that leads to a service step needs the role of that step.
    service_role :
        (name : String) (next : ℕ)
        → role_for_callback (utf8 name) ≡ role_for_step next
        → is q name ≡ true
        → has_role staff sett id (role_for_step next) ≡ true
    unfolding is
    service_role name next e h =
        subst (λ r. has_role staff sett id r ≡ true)
          (ap role_for_callback ((text_eq_iff q.data_ (utf8 name)).0 h) ∙ e) allowed

    ask_service-Keeps :
        (question type_ : Text) (next : ℕ)
        → has_role staff sett id (role_for_step next) ≡ true
        → Kept (ask_service q question type_ next)
    unfolding ask_service
    ask_service-Keeps question type_ next h = >>-Keeps (say-Keeps quiet _ _ _) (
        modify_ud-Keeps staff sett scope id _
          (λ ud s. record { authorised = h; owner = s.owner; aligned = s.aligned }))

    msg_to_gpt-Keeps :
        has_role staff sett id (role_for_step developer_send_msg_to_gpt) ≡ true
        → Kept (on_msg_to_gpt q)
    unfolding on_msg_to_gpt
    msg_to_gpt-Keeps h = >>-Keeps (say-Keeps quiet _ _ _) (ask_service-Keeps _ _ _ h)

    pub menu_buttons-Keeps : Kept (menu_buttons q)
    unfolding menu_buttons role_for_callback role_for_step text_eq starts_with utf8
    menu_buttons-Keeps =
        >>-Keeps
          (button-Keeps q "req_master_key" _ (λ _. (req_master_key-Keeps staff sett scope id q)))
          (>>-Keeps
            (when-Keeps _ λ e.
              ask_service-Keeps _ _ _ (service_role "msg_as_bot" developer_send_msg_as_bot refl e))
            (>>-Keeps
              (when-Keeps _
                λ e. msg_to_gpt-Keeps (service_role "msg_to_gpt" developer_send_msg_to_gpt refl e))
              (>>-Keeps
                (when-Keeps _ λ e.
                  ask_service-Keeps _ _ _
                    (service_role "run_command" developer_run_host_command refl e))
                (>>-Keeps (when-Keeps _ λ _. (reboot-Keeps staff sett scope id q)) (
                  >>-Keeps
                    (button-Keeps q "add_new_contractor" _ λ e.
                      ask_service-Keeps _ _ _
                        (service_role "add_new_contractor" staff_add_new_contractor refl e))
                    (>>-Keeps
                      (button-Keeps q "set_new_msi_version" _ λ e.
                        ask_service-Keeps _ _ _
                          (service_role "set_new_msi_version" staff_set_new_msi_version refl e))
                      (>>-Keeps (when-Keeps _ λ _. (send_file-Keeps staff sett scope id)) (
                        button-Keeps q "no_more_photos" _
                          λ _. (no_more_photos-Keeps staff sett scope id q)))))))))
