-- ===== src/Bot/Issue/Safe.antt =====
-- The creation of an issue keeps the invariant, whatever fails on the way.
use tgbot_with_rest.Prelude.{ℕ, ℤ, String, List, refl}
use tgbot_with_rest.Text.{Text}
use tgbot_with_rest.Structures.{UserDispatcher}
use tgbot_with_rest.Access.{role_for_step}
use tgbot_with_rest.Bot.Monad.{M}
use tgbot_with_rest.Bot.Keeps.{
  Keeps, IgnoresOut, >>=-Keeps, >>-Keeps, pure-Keeps, get-Keeps, request-Keeps, try_catch-Keeps,
  call-Keeps, branch-Keeps, when-Keeps, in_thread-Keeps,
}
use tgbot_with_rest.Bot.Inv.{Scope, At, At-IgnoresOut, the_ud-Keeps}
use tgbot_with_rest.Bot.Rules.{
  say-Keeps, support-Keeps, staff-Keeps, each-Keeps, field-Keeps, step-Keeps, ud-Keeps,
}
use tgbot_with_rest.Bot.Issue.{
  escape_all, write_issue_to_db, report_issue, create_card, save_issue, create_bim_issue,
  create_jira_task, send_random_sticker, create_new_issue,
}
use tgbot_with_rest.Bot.Photos.{SentMessage}

module _ (staff : List ℤ) (sett : String → Text) (scope : Scope) (id : ℤ) where
  abbrev Kept : {A : Type 0} → M A → Type 0
  Kept = Keeps (At staff sett scope id)

  quiet : IgnoresOut (At staff sett scope id)
  quiet = At-IgnoresOut staff sett scope id

  report_issue-Keeps : (text : Text) → Kept (report_issue text)
  unfolding report_issue
  report_issue-Keeps text =
      >>=-Keeps (the_ud-Keeps staff sett scope id) (λ ud. support-Keeps quiet _ _)

  write_issue-Keeps : (ud : UserDispatcher) (table : ℕ) → Kept (write_issue_to_db ud table)
  unfolding write_issue_to_db
  write_issue-Keeps ud table =
      try_catch-Keeps
        (>>=-Keeps (call-Keeps quiet _) λ a.
          branch-Keeps _ (λ _. >>=-Keeps (call-Keeps quiet _) (λ c. pure-Keeps _))
            (λ _. pure-Keeps 1))
        (λ e. pure-Keeps 1)

  create_card-Keeps : (text : Text) → Kept (create_card text)
  unfolding create_card
  create_card-Keeps text =
      try_catch-Keeps
        (get-Keeps λ b p. >>=-Keeps (the_ud-Keeps staff sett scope id) λ ud.
          >>=-Keeps (call-Keeps quiet _) λ a.
            branch-Keeps _ (λ _. ud-Keeps staff sett scope id _ (λ u. (refl, refl, refl, refl)))
              (λ _. report_issue-Keeps _))
        (λ e. get-Keeps (λ b p. report_issue-Keeps _))

  save_issue-Keeps : Kept save_issue
  unfolding save_issue
  save_issue-Keeps =
      try_catch-Keeps
        (>>=-Keeps (the_ud-Keeps staff sett scope id) λ ud.
          >>=-Keeps (write_issue-Keeps ud _) (λ code. when-Keeps _ (λ _. report_issue-Keeps _)))
        (λ e. report_issue-Keeps _)

  create_bim_issue-Keeps : (text : Text) → Kept (create_bim_issue text)
  unfolding create_bim_issue
  create_bim_issue-Keeps text = >>-Keeps (create_card-Keeps text) (
      >>-Keeps (ud-Keeps staff sett scope id _ (λ u. (refl, refl, refl, refl))) (
        >>-Keeps save_issue-Keeps (
          >>=-Keeps (the_ud-Keeps staff sett scope id) λ ud.
            >>-Keeps
              (when-Keeps _
                (λ _. each-Keeps _ ud.jira_task.v_local_file_paths _ (λ x. request-Keeps quiet _)))
              (in_thread-Keeps (staff-Keeps quiet _ _)))))

  create_jira_task-Keeps : (text : Text) → Kept (create_jira_task text)
  unfolding create_jira_task
  create_jira_task-Keeps text =
      try_catch-Keeps
        (>>=-Keeps (the_ud-Keeps staff sett scope id) λ ud. >>=-Keeps (call-Keeps quiet _) λ a.
          branch-Keeps _
            (λ _.
              >>-Keeps (report_issue-Keeps _)
                (ud-Keeps staff sett scope id _ (λ u. (refl, refl, refl, refl))))
            (λ _.
              >>-Keeps (each-Keeps _ ud.jira_task.v_local_file_paths _ (λ x. request-Keeps quiet _))
                (when-Keeps _ (λ _. get-Keeps (λ b p. request-Keeps quiet _)))))
        (λ e. get-Keeps λ b p.
          >>-Keeps (report_issue-Keeps _)
            (ud-Keeps staff sett scope id _ (λ u. (refl, refl, refl, refl))))

  sticker-Keeps : (chat : ℤ) → Kept (send_random_sticker chat)
  unfolding send_random_sticker
  sticker-Keeps chat = get-Keeps (λ b p. when-Keeps _ (λ _. request-Keeps quiet _))

  pub create_new_issue-Keeps : (m : SentMessage) → Kept (create_new_issue m)
  unfolding create_new_issue escape_all role_for_step
  create_new_issue-Keeps m = >>-Keeps (say-Keeps quiet _ _ _) (
      get-Keeps λ b p. >>-Keeps (field-Keeps staff sett scope id _ (λ t. refl)) (
        >>=-Keeps (the_ud-Keeps staff sett scope id) λ ud.
          >>-Keeps (ud-Keeps staff sett scope id _ (λ u. (refl, refl, refl, refl))) (
            >>-Keeps (when-Keeps _ (λ _. create_bim_issue-Keeps _)) (
              >>-Keeps (say-Keeps quiet _ _ _) (
                >>-Keeps (sticker-Keeps _) (
                  >>-Keeps (create_jira_task-Keeps _)
                    (step-Keeps staff sett scope id _ (λ t. refl))))))))
