-- ===== src/Bot/Actions/Safe.antt =====
-- What single buttons do keeps the invariant.
use tgbot_with_rest.Prelude.{ℤ, String, List, Option, none, ◌≡◌, refl}
use tgbot_with_rest.Text.{Text}
use tgbot_with_rest.Structures.{NewTask}
use tgbot_with_rest.Access.{anyone, role_for_step}
use tgbot_with_rest.Bot.Monad.{M, skip, modify_task}
use tgbot_with_rest.Bot.Keeps.{
  Keeps, IgnoresOut, >>=-Keeps, >>-Keeps, skip-Keeps, get-Keeps, request-Keeps, try_catch_tg-Keeps,
  in_thread-Keeps,
}
use tgbot_with_rest.Bot.Inv.{Scope, At, At-IgnoresOut}
use tgbot_with_rest.Bot.Rules.{say-Keeps, staff-Keeps, each-Keeps, field-Keeps, step-Keeps}
use tgbot_with_rest.Bot.MyIssues.{IssuePointer}
use tgbot_with_rest.Bot.MyIssues.Pointer.{
  Held, Held-IgnoresOut, the_issue-Held, modify_ud-Held, again-Held,
}
use tgbot_with_rest.Bot.Commands.{on_more_photos_command}
use tgbot_with_rest.Bot.Query.{Pressed}
use tgbot_with_rest.Bot.Actions.{
  send_document_to_all, on_req_master_key, on_reboot_host, on_send_file, on_no_more_photos,
  on_tekla_enter_menu, on_tekla_general_issue, on_tekla_back, on_start_solving, on_task_closing,
  with_issue,
}

module _ (staff : List ℤ) (sett : String → Text) (scope : Scope) (id : ℤ) where
  abbrev Kept : {A : Type 0} → M A → Type 0
  Kept = Keeps (At staff sett scope id)

  quiet : IgnoresOut (At staff sett scope id)
  quiet = At-IgnoresOut staff sett scope id

  to_step :
      (f : NewTask → NewTask)
      → ((t : NewTask) → role_for_step (f t).stat_ ≡ anyone)
      → Kept (modify_task f)
  to_step = step-Keeps staff sett scope id

  pub req_master_key-Keeps : (q : Pressed) → Kept (on_req_master_key q)
  unfolding on_req_master_key role_for_step
  req_master_key-Keeps q =
      >>-Keeps (to_step _ (λ t. refl)) (>>-Keeps (say-Keeps quiet _ _ _) (to_step _ (λ t. refl)))

  pub reboot-Keeps : (q : Pressed) → Kept (on_reboot_host q)
  unfolding on_reboot_host
  reboot-Keeps q = >>-Keeps (say-Keeps quiet _ _ _) (get-Keeps (λ b p. request-Keeps quiet _))

  pub send_file-Keeps : Kept on_send_file
  unfolding on_send_file send_document_to_all
  send_file-Keeps =
      get-Keeps λ b p. in_thread-Keeps (each-Keeps _ b.v_consumers _ (λ x. skip-Keeps))

  pub no_more_photos-Keeps : (q : Pressed) → Kept (on_no_more_photos q)
  unfolding on_no_more_photos role_for_step
  no_more_photos-Keeps q = >>-Keeps (say-Keeps quiet _ _ _) (to_step _ (λ t. refl))

  pub tekla_enter_menu-Keeps : (q : Pressed) → Kept (on_tekla_enter_menu q)
  unfolding on_tekla_enter_menu
  tekla_enter_menu-Keeps q =
      >>-Keeps (request-Keeps quiet _) (field-Keeps staff sett scope id _ (λ t. refl))

  pub tekla_general-Keeps : (q : Pressed) → Kept (on_tekla_general_issue q)
  unfolding on_tekla_general_issue role_for_step
  tekla_general-Keeps q =
      >>-Keeps (request-Keeps quiet _) (>>-Keeps (say-Keeps quiet _ _ _) (to_step _ (λ t. refl)))

  pub tekla_back-Keeps : (q : Pressed) → Kept (on_tekla_back q)
  unfolding on_tekla_back role_for_step
  tekla_back-Keeps q = >>-Keeps (request-Keeps quiet _) (to_step _ (λ t. refl))

  -- Without a pointer nothing is done.
  pub with_none-Keeps :
      (clicked : Option IssuePointer) (f : IssuePointer → M (Unit {0}))
      → clicked ≡ none
      → Kept (with_issue clicked f)
  unfolding with_issue
  with_none-Keeps clicked f e = rw e skip-Keeps

module _ (staff : List ℤ) (sett : String → Text) (scope : Scope) (p : IssuePointer) where
  abbrev HeldKept : M (Unit {0}) → Type 0
  HeldKept = Keeps (Held staff sett scope p)

  still : IgnoresOut (Held staff sett scope p)
  still = Held-IgnoresOut staff sett scope p

  pub start_solving-Held : (q : Pressed) → HeldKept (on_start_solving q p)
  unfolding on_start_solving
  start_solving-Held q =
      >>-Keeps
        (try_catch_tg-Keeps
          (>>-Keeps (request-Keeps still _)
            (modify_ud-Held staff sett scope p _ (λ u. (refl, refl, refl, refl, refl, refl))))
          (λ e. skip-Keeps))
        (>>-Keeps (request-Keeps still _)
          (>>=-Keeps (the_issue-Held staff sett scope p) (λ issue. request-Keeps still _)))

  pub task_closing-Held : (q : Pressed) → HeldKept (on_task_closing q p)
  unfolding on_task_closing
  task_closing-Held q = >>-Keeps (request-Keeps still _) (
      >>-Keeps (modify_ud-Held staff sett scope p _ (λ u. (refl, refl, refl, refl, refl, refl))) (
        >>-Keeps (request-Keeps still _) (
          >>-Keeps
            (in_thread-Keeps
              (>>=-Keeps (the_issue-Held staff sett scope p) (λ issue. staff-Keeps still _ _)))
            (>>=-Keeps (the_issue-Held staff sett scope p) λ card.
              >>-Keeps (request-Keeps still _)
                (>>=-Keeps (the_issue-Held staff sett scope p) (λ row. request-Keeps still _))))))

  pub more_photos-Held : HeldKept (on_more_photos_command p p.owner)
  unfolding on_more_photos_command
  more_photos-Held =
      again-Held staff sett scope p skip
        (>>=-Keeps (the_issue-Held staff sett scope p) (λ issue. request-Keeps still _))
