-- ===== src/Bot/Callback/Forms.antt =====
-- The buttons that begin or close a form keep the invariant: a new form is at a step that needs no role.
use tgbot_with_rest.Prelude.{
  ℕ, ℤ, true, false, String, List, Option, none, ◌≡◌, refl, ap, subst, ◌∙◌,
}
use tgbot_with_rest.Text.{Text, utf8}
use tgbot_with_rest.Structures.{UserDispatcher, NewTask, empty_task}
use tgbot_with_rest.Access.{anyone, role_for_step}
use tgbot_with_rest.Bot.World.{Keyboard}
use tgbot_with_rest.Bot.Monad.{M, ◌>>=◌, ◌>>◌, skip, branch, point_to, modify_ud, modify_task}
use tgbot_with_rest.Bot.Keeps.{
  Keeps, IgnoresOut, >>=-Keeps, >>-Keeps, pure-Keeps, skip-Keeps, when-Keeps, branch-Keeps,
}
use tgbot_with_rest.Bot.Inv.{Scope, At, At-IgnoresOut, the_ud-Keeps, modify_ud-Keeps}
use tgbot_with_rest.Bot.Rules.{has_role_anyone, say-Keeps, step-Keeps, again-Keeps}
use tgbot_with_rest.Bot.Notify.{say}
use tgbot_with_rest.Bot.Commands.{on_more_photos_command}
use tgbot_with_rest.Bot.Query.{Pressed, is}
use tgbot_with_rest.Bot.MyIssues.{IssuePointer}
use tgbot_with_rest.Bot.Actions.{
  on_new_task_query, on_new_family_query, start_form, on_new_task, on_new_family,
}
use tgbot_with_rest.Bot.Callback.{form_buttons}
use tgbot_with_rest.Bot.Actions.Safe.{with_none-Keeps}
use tgbot_with_rest.Bot.Callback.Services.{button-Keeps}

module _ (staff : List ℤ) (sett : String → Text) (scope : Scope) (id : ℤ) where
  abbrev Kept : {A : Type 0} → M A → Type 0
  Kept = Keeps (At staff sett scope id)

  quiet : IgnoresOut (At staff sett scope id)
  quiet = At-IgnoresOut staff sett scope id

  to_step :
      (f : NewTask → NewTask)
      → ((t : NewTask) → role_for_step (f t).stat_ ≡ anyone)
      → Kept (modify_task f)
  to_step = step-Keeps staff sett scope id

  -- A new form: the step is 0, and the menu is used up.
  pub renew :
      (f : UserDispatcher → UserDispatcher)
      → ((ud : UserDispatcher)
          → ((f ud).jira_task.stat_ ≡ 0)
            × ((f ud).chat_user_tg_id ≡ ud.chat_user_tg_id)
            × ((f ud).recent_msg_ids ≡ ud.recent_msg_ids)
            × ((f ud).recent_msgs ≡ ud.recent_msgs))
      → Kept (modify_ud f)
  unfolding role_for_step
  renew f h = modify_ud-Keeps staff sett scope id f λ ud s.
      let (e, o, i, m) = h ud in
      record {
        authorised = has_role_anyone staff sett id (f ud).jira_task.stat_ (ap role_for_step e);
        owner = o ∙ s.owner;
        aligned = rw (i, m) s.aligned;
      }

  module _ (q : Pressed) where
    -- A second look-up of the user's own session.
    own-Keeps :
        {A : Type 0}
        → id ≡ q.from_id
        → {m other : M A} → Kept m
        → Kept other
        → Kept (point_to q.from_id >>= λ p. branch p m other)
    own-Keeps e {m} {other} h ho =
        subst (λ i. Kept (point_to i >>= λ p. branch p m other)) e
          (again-Keeps staff sett scope id h ho)

    first_question-Keeps :
        id ≡ q.from_id
        → (text : Text) (kb : Keyboard) (next : ℕ) → role_for_step next ≡ anyone
        → Kept (do
          found ← point_to q.from_id
          branch found
              (do say q.chat_id text kb; modify_task (λ t. record t { stat_ = next }))
              skip)
    first_question-Keeps e text kb next h =
        own-Keeps e (>>-Keeps (say-Keeps quiet _ _ _) (to_step _ (λ t. h))) skip-Keeps

    start_form-Keeps :
        id ≡ q.from_id
        → (form : NewTask → NewTask) {first_question : M (Unit {0})} → (form empty_task).stat_ ≡ 0
        → Kept first_question
        → Kept (start_form q form first_question)
    unfolding start_form
    start_form-Keeps e form h hq =
        own-Keeps e
          (>>=-Keeps (the_ud-Keeps staff sett scope id) λ ud.
            branch-Keeps _
              (λ _. >>-Keeps (renew _ (λ u. (h, refl, refl, refl))) (>>-Keeps hq (pure-Keeps true)))
              (λ _. pure-Keeps false))
          (pure-Keeps true)

    pub form_buttons-Keeps :
        id ≡ q.from_id
        → (clicked : Option IssuePointer) → (is q "more_photos" ≡ true → clicked ≡ none)
        → (is q "task_closing" ≡ true → clicked ≡ none)
        → Kept (form_buttons q clicked)
    unfolding form_buttons on_new_task on_new_family on_new_task_query on_new_family_query
        on_more_photos_command role_for_step
    form_buttons-Keeps e clicked no_photos no_closing =
        >>=-Keeps
          (branch-Keeps _
            (λ _.
              start_form-Keeps e (λ t. record t { type = utf8 "BIMTASK" }) refl
                (first_question-Keeps e _ _ _ refl))
            (λ _. pure-Keeps true))
          λ after_task. when-Keeps _ λ _.
            >>=-Keeps
              (branch-Keeps _
                (λ _.
                  start_form-Keeps e
                    (λ t. record t { subj = utf8 "Создать семейство"; type = utf8 "FAMILY" }) refl
                    (first_question-Keeps e _ _ _ refl))
                (λ _. pure-Keeps true))
              λ after_family. when-Keeps _ λ _.
                >>-Keeps
                  (when-Keeps _ λ h. with_none-Keeps staff sett scope id clicked _ (no_photos h))
                  (button-Keeps staff sett scope id q "task_closing" _
                    λ h. with_none-Keeps staff sett scope id clicked _ (no_closing h))
