-- ===== src/Bot/Callback/Safe.antt =====
-- Every button keeps the invariant: a service step is begun only after the check of the role that it
-- needs.
use tgbot_with_rest.Prelude.{
  some, none, inl, inr, ap, ◌∙◌, arith, Bool-cases, ◌||◌, ℤ, true, String, List, Option, ◌≡◌, refl,
  sym, subst,
}
use tgbot_with_rest.Text.{Text}
use tgbot_with_rest.Structures.{UserDispatcher}
use tgbot_with_rest.Sessions.{lookup}
use tgbot_with_rest.Access.{role_for_callback}
use tgbot_with_rest.Bot.{Bot}
use tgbot_with_rest.Bot.Monad.{M, ◌>>=◌, ◌>>◌, after, the_ud, read_at, in_thread}
use tgbot_with_rest.Bot.Users.{has_role}
use tgbot_with_rest.Bot.Keeps.{
  Keeps, Ends, Ends-mono, IgnoresOut, >>=-Keeps, >>-Keeps, skip-Keeps, get-Keeps, when-Keeps,
  in_thread-Keeps,
}
use tgbot_with_rest.Bot.Inv.{Scope, Free, Inv, At, At-IgnoresOut, lookup-IsSound}
use tgbot_with_rest.Bot.Points.{point_to-Keeps}
use tgbot_with_rest.Bot.Callback.KeyRequest.{key_request-Inv}
use tgbot_with_rest.Bot.MyIssues.{IssuePointer, get_my_issues}
use tgbot_with_rest.Bot.MyIssues.Pointer.{Held, Found, get_selected_returns}
use tgbot_with_rest.Bot.MyIssues.Safe.{get_my_issues-Keeps}
use tgbot_with_rest.Bot.Query.{CallbackQuery, ClickedMessage, Pressed, with_message, is}
use tgbot_with_rest.Bot.Actions.{on_my_tasks}
use tgbot_with_rest.Bot.Approval.{is_approve, is_reject, requester}
use tgbot_with_rest.Bot.Callback.{
  menu_buttons, task_buttons, form_buttons, pressed_buttons, buttons, allowed_query,
  on_callback_query,
}
use tgbot_with_rest.Bot.Actions.Safe.{
  tekla_enter_menu-Keeps, tekla_general-Keeps, tekla_back-Keeps, with_none-Keeps,
}
use tgbot_with_rest.Bot.Callback.Services.{button-Keeps, menu_buttons-Keeps}
use tgbot_with_rest.Bot.Callback.Clicked.{
  Absent, start_solving-Absent, more_photos-Absent, task_closing-Absent, clicked-Held,
}
use tgbot_with_rest.Bot.Rules.{element-Keeps}
use tgbot_with_rest.Bot.Callback.Forms.{renew, form_buttons-Keeps}

module _ (staff : List ℤ) (sett : String → Text) (scope : Scope) (id : ℤ) where
  abbrev Kept : {A : Type 0} → M A → Type 0
  Kept = Keeps (At staff sett scope id)

  quiet : IgnoresOut (At staff sett scope id)
  quiet = At-IgnoresOut staff sett scope id

  -- `id` has passed the check of the button.
  module _ (q : Pressed) (allowed : has_role staff sett id (role_for_callback q.data_) ≡ true) where
    my_tasks-Keeps : id ≡ q.from_id → Kept (on_my_tasks q)
    unfolding on_my_tasks
    my_tasks-Keeps e = >>-Keeps (renew staff sett scope id _ (λ u. (refl, refl, refl, refl))) (
        subst (λ i. Kept (in_thread (get_my_issues i))) e
          (in_thread-Keeps (get_my_issues-Keeps staff sett scope id)))

    task_buttons-Keeps :
        id ≡ q.from_id
        → (clicked : Option IssuePointer) → (is q "start_solving" ≡ true → clicked ≡ none)
        → Kept (task_buttons q clicked)
    unfolding task_buttons
    task_buttons-Keeps e clicked no_start =
        >>-Keeps (button-Keeps staff sett scope id q "my_tasks" _ (λ _. my_tasks-Keeps e)) (
          >>-Keeps
            (button-Keeps staff sett scope id q "tekla_enter_menu" _
              (λ _. (tekla_enter_menu-Keeps staff sett scope id q)))
            (>>-Keeps (when-Keeps _ (λ _. (tekla_general-Keeps staff sett scope id q))) (
              >>-Keeps
                (button-Keeps staff sett scope id q "tekla_back" _
                  (λ _. (tekla_back-Keeps staff sett scope id q)))
                (button-Keeps staff sett scope id q "start_solving" _
                  λ h. with_none-Keeps staff sett scope id clicked _ (no_start h)))))

    -- The buttons, where none that uses the clicked issue is pressed, or none was found.
    without-Keeps :
        id ≡ q.from_id
        → (clicked : Option IssuePointer) → (is q "start_solving" ≡ true → clicked ≡ none)
        → (is q "more_photos" ≡ true → clicked ≡ none)
        → (is q "task_closing" ≡ true → clicked ≡ none)
        → Kept (do menu_buttons q; task_buttons q clicked; form_buttons q clicked)
    without-Keeps e clicked no_start no_photos no_closing =
        >>-Keeps (menu_buttons-Keeps staff sett scope id q allowed) (
          >>-Keeps (task_buttons-Keeps e clicked no_start)
            (form_buttons-Keeps staff sett scope id q e clicked no_photos no_closing))

    with_pointer-Ends :
        id ≡ q.from_id
        → (p : IssuePointer) (b : Bot) → Held staff sett scope p b
        → p.owner ≡ id
        → Ends
            (At staff sett scope id)
            ((do menu_buttons q; task_buttons q (some p); form_buttons q (some p)) b)
    with_pointer-Ends e p b h own = elim (Bool-cases (is q "start_solving")) [
      | inl f ↦ pressed (start_solving-Absent q f)
      | inr f ↦ elim (Bool-cases (is q "more_photos")) [
        | inl g ↦ pressed (more_photos-Absent q g)
        | inr g ↦ elim (Bool-cases (is q "task_closing")) [
          | inl c ↦ pressed (task_closing-Absent q c)
          | inr c ↦
              (without-Keeps e (some p) (λ t. ground (arith, t, f)) (λ t. ground (arith, t, g))
                  (λ t. ground (arith, t, c))).run
                b (subst (λ i. At staff sett scope i b) own h.at)
        ]
      ]
    ]
      where
        pressed :
            Absent q
            → Ends
                (At staff sett scope id)
                ((do menu_buttons q; task_buttons q (some p); form_buttons q (some p)) b)
        pressed a =
            Ends-mono _ (λ b' k. subst (λ i. At staff sett scope i b') own k.at)
              ((clicked-Held staff sett scope p q (own ∙ e) a).run b h)

    clicked-Ends :
        id ≡ q.from_id
        → (ud : UserDispatcher) (clicked : Option IssuePointer) (b : Bot) → At staff sett scope id b
        → lookup id b.m_sessions ≡ some ud
        → Found id ud clicked
        → Ends
            (At staff sett scope id)
            ((do menu_buttons q; task_buttons q clicked; form_buttons q clicked) b)
    clicked-Ends e ud none b p f w =
        (without-Keeps e none (λ _. refl) (λ _. refl) (λ _. refl)).run b p
    clicked-Ends e ud (some c) b p f (own, v) =
        with_pointer-Ends e c b
          (record {
            at = subst (λ i. At staff sett scope i b) (sym own) p;
            ud = ud;
            found = ap (λ i. lookup i b.m_sessions) own ∙ f;
            valid = v;
          })
          own

    pub pressed-Keeps : id ≡ q.from_id → Kept (pressed_buttons q)
    unfolding pressed_buttons the_ud read_at ◌>>=◌ after
    pressed-Keeps e = record {
      run = λ b p.
          let (ud, f) = p.exists in
          let (clicked, w, r) =
            get_selected_returns q.from_id q.message_id ud
              (lookup-IsSound staff sett scope id b.m_sessions p.inv.sound f).aligned in
          rw (p.points, the_ud)
            (rw f (
              rw (r b)
                (clicked-Ends e ud clicked b p f (subst (λ i. Found i ud clicked) (sym e) w))));
    }

-- In a state with the invariant, no press of a button, whatever its data, leads to the use of a
-- null or dangling pointer or to an index out of range, if Telegram sends the message of the
-- button along; and the invariant holds afterwards, also if the handler ends in an exception or in
-- `std::terminate`. The pointers are `query->message`, which by the condition is there, `uD`, and
-- the pointer to the clicked issue, which is into the session's issues and ends with each change
-- of them. The invariant has a scope, a condition on the session of each user. It must be free for
-- the sender and, in an answer to a request for a key, for the user who asked; so no other session
-- leaves its scope.
pub on_callback_query-Inv :
    (staff : List ℤ) (sett : String → Text) (scope : Scope) (q : CallbackQuery) (b : Bot)
    (m : ClickedMessage)
    → q.message ≡ some m
    → Free scope q.from_id
    → ((k : ℤ) → is_approve q || is_reject q ≡ true → requester q.data_ ≡ some k → Free scope k)
    → Inv staff sett scope b
    → Ends (Inv staff sett scope) (on_callback_query q b)
unfolding on_callback_query allowed_query buttons
on_callback_query-Inv staff sett scope q b m there own asked p =
    (get-Keeps λ b p. when-Keeps _ λ allowed.
        >>=-Keeps (key_request-Inv staff sett scope q asked) λ returned. when-Keeps _ λ _.
          point_to-Keeps staff sett scope q.from_id own
            (rw there (
              >>=-Keeps (element-Keeps _ m) λ m'.
                pressed-Keeps staff sett scope q.from_id (with_message q m')
                  (rw (sym p.same_staff, sym p.same_sett) allowed) refl))
            skip-Keeps).run
      b p
