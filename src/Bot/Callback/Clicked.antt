-- ===== src/Bot/Callback/Clicked.antt =====
-- The buttons that use the pointer to the clicked issue: nothing changes the issues before its use.
use tgbot_with_rest.Prelude.{
  ℤ, Bool, true, false, String, List, [], ◌∷◌, some, ◌≡◌, refl, subst, sym, All, arith,
}
use tgbot_with_rest.Text.{Text, utf8, text_eq, text_eq_iff}
use tgbot_with_rest.Structures.{UserDispatcher}
use tgbot_with_rest.Bot.Monad.{M, ◌>>◌, when}
use tgbot_with_rest.Bot.Keeps.{
  Keeps, >>=-Keeps, >>-Keeps, pure-Keeps, skip-Keeps, when-Keeps, branch-Keeps,
}
use tgbot_with_rest.Bot.Inv.{Scope}
use tgbot_with_rest.Bot.MyIssues.{IssuePointer}
use tgbot_with_rest.Bot.MyIssues.Pointer.{Held, the_ud-Held}
use tgbot_with_rest.Bot.Query.{Pressed, is}
use tgbot_with_rest.Bot.Commands.{on_more_photos_command}
use tgbot_with_rest.Bot.Actions.{with_issue, on_start_solving, on_task_closing}
use tgbot_with_rest.Bot.Actions.Safe.{start_solving-Held, task_closing-Held, more_photos-Held}
use tgbot_with_rest.Bot.Callback.{button, menu_buttons, task_buttons, form_buttons}

-- The buttons that do not look at the clicked issue.
abbrev pub others : List String
others =
    "req_master_key" ∷ "msg_as_bot" ∷ "msg_to_gpt" ∷ "run_command" ∷ "reboot_host"
    ∷ "add_new_contractor" ∷ "set_new_msi_version" ∷ "send_file" ∷ "no_more_photos" ∷ "my_tasks"
    ∷ "tekla_enter_menu" ∷ "tekla_general_issue" ∷ "tekla_back" ∷ "new_task" ∷ "new_family" ∷ []

abbrev pub Absent : Pressed → Type 0
Absent q = All (λ name. is q name ≡ false) others

is-Absent :
    (q : Pressed) (name : String)
    → All (λ n. text_eq (utf8 name) (utf8 n) ≡ false) others
    → is q name ≡ true
    → Absent q
unfolding is
is-Absent q name h e =
    subst (λ d. All (λ n. text_eq d (utf8 n) ≡ false) others)
      (sym ((text_eq_iff q.data_ (utf8 name)).0 e)) h

pub start_solving-Absent : (q : Pressed) → is q "start_solving" ≡ true → Absent q
unfolding text_eq utf8
start_solving-Absent q = is-Absent q "start_solving" (
  refl,
  (
    refl,
    (
      refl,
      (
        refl,
        (refl, (refl, (refl, (refl, (refl, (refl, (refl, (refl, (refl, (refl, (refl, tt))))))))))),
      ),
    ),
  ),
)

pub more_photos-Absent : (q : Pressed) → is q "more_photos" ≡ true → Absent q
unfolding text_eq utf8
more_photos-Absent q = is-Absent q "more_photos" (
  refl,
  (
    refl,
    (
      refl,
      (
        refl,
        (refl, (refl, (refl, (refl, (refl, (refl, (refl, (refl, (refl, (refl, (refl, tt))))))))))),
      ),
    ),
  ),
)

pub task_closing-Absent : (q : Pressed) → is q "task_closing" ≡ true → Absent q
unfolding text_eq utf8
task_closing-Absent q = is-Absent q "task_closing" (
  refl,
  (
    refl,
    (
      refl,
      (
        refl,
        (refl, (refl, (refl, (refl, (refl, (refl, (refl, (refl, (refl, (refl, (refl, tt))))))))))),
      ),
    ),
  ),
)

module _ (staff : List ℤ) (sett : String → Text) (scope : Scope) (p : IssuePointer)
    (q : Pressed) where
  abbrev HeldKept : M (Unit {0}) → Type 0
  HeldKept = Keeps (Held staff sett scope p)

  idle_when : (c : Bool) (m : M (Unit {0})) → c ≡ false → HeldKept (when c m)
  unfolding when
  idle_when c m e = rw e skip-Keeps

  idle :
      (name : String) (holds : UserDispatcher → Bool) (m : M (Unit {0}))
      → is q name ≡ false
      → HeldKept (button q name holds m)
  unfolding button when
  idle name holds m e = rw e skip-Keeps

  used :
      (name : String) (holds : UserDispatcher → Bool) (f : IssuePointer → M (Unit {0}))
      → HeldKept (f p)
      → HeldKept (button q name holds (with_issue (some p) f))
  unfolding button with_issue
  used name holds f h =
      when-Keeps _ λ _. >>=-Keeps (the_ud-Held staff sett scope p) (λ ud. when-Keeps _ (λ _. h))

  menu-Held : Absent q → HeldKept (menu_buttons q)
  unfolding menu_buttons
  menu-Held (a, (b, (c, (d, (e, (f, (g, (h, (i, rest))))))))) =
      >>-Keeps (idle "req_master_key" _ _ a) (
        >>-Keeps (idle_when _ _ b) (
          >>-Keeps (idle_when _ _ c) (
            >>-Keeps (idle_when _ _ d) (
              >>-Keeps (idle_when _ _ e) (
                >>-Keeps (idle "add_new_contractor" _ _ f) (
                  >>-Keeps (idle "set_new_msi_version" _ _ g)
                    (>>-Keeps (idle_when _ _ h) (idle "no_more_photos" _ _ i))))))))

  task-Held : Absent q → HeldKept (task_buttons q (some p))
  unfolding task_buttons
  task-Held (_, (_, (_, (_, (_, (_, (_, (_, (_, (a, (b, (c, (d, rest))))))))))))) =
      >>-Keeps (idle "my_tasks" _ _ a) (
        >>-Keeps (idle "tekla_enter_menu" _ _ b) (
          >>-Keeps (idle_when _ _ c) (
            >>-Keeps (idle "tekla_back" _ _ d) (
              used "start_solving" _ (on_start_solving q)
                (start_solving-Held staff sett scope p q)))))

  form-Held : p.owner ≡ q.from_id → Absent q → HeldKept (form_buttons q (some p))
  unfolding form_buttons with_issue
  form-Held own (_, (_, (_, (_, (_, (_, (_, (_, (_, (_, (_, (_, (_, (a, (b, _))))))))))))))) =
      >>=-Keeps (branch-Keeps _ (λ h. ground (arith, h, a)) (λ _. pure-Keeps true)) λ after_task.
        when-Keeps _ λ _.
          >>=-Keeps (branch-Keeps _ (λ h. ground (arith, h, b)) (λ _. pure-Keeps true))
            λ after_family. when-Keeps _ λ _.
              >>-Keeps
                (when-Keeps _ λ _.
                  subst (λ i. HeldKept (on_more_photos_command p i)) own
                    (more_photos-Held staff sett scope p))
                (used "task_closing" _ (on_task_closing q) (task_closing-Held staff sett scope p q))

  pub clicked-Held :
      p.owner ≡ q.from_id
      → Absent q
      → HeldKept (do menu_buttons q; task_buttons q (some p); form_buttons q (some p))
  clicked-Held own h = >>-Keeps (menu-Held h) (>>-Keeps (task-Held h) (form-Held own h))
