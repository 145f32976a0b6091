-- ===== src/Bot/Rules.antt =====
-- The rules by which handlers are shown to keep the invariant, while `uD` points to the session of
-- `id`.
use tgbot_with_rest.Prelude.{ℕ, ℤ, true, String, List, [], ◌∷◌, ◌≡◌, ◌∙◌, some}
use tgbot_with_rest.Text.{Text}
use tgbot_with_rest.Structures.{UserDispatcher, NewTask}
use tgbot_with_rest.Access.{anyone, role_for_step}
use tgbot_with_rest.Bot.{Bot}
use tgbot_with_rest.Bot.World.{Keyboard}
use tgbot_with_rest.Bot.Monad.{M, ◌>>=◌, branch, modify_ud, modify_task, point_to, element}
use tgbot_with_rest.Bot.Keeps.{
  Keeps, IgnoresOut, >>=-Keeps, >>-Keeps, skip-Keeps, get-Keeps, request-Keeps, try_catch_tg-Keeps,
  branch-Keeps,
}
use tgbot_with_rest.Bot.Users.{has_role}
use tgbot_with_rest.Bot.Inv.{Scope, At, modify_ud-Keeps}
use tgbot_with_rest.Bot.Points.{point_to-some, find-Inv}
use tgbot_with_rest.Bot.Notify.{say, send_msg_to_support, send_msg_to, send_msg_to_staff}
use tgbot_with_rest.Bot.Issue.{each}

-- A step that needs no role is open to everybody.
pub has_role_anyone :
    (staff : List ℤ) (sett : String → Text) (k : ℤ) (n : ℕ)
    → role_for_step n ≡ anyone
    → has_role staff sett k (role_for_step n) ≡ true
unfolding has_role
has_role_anyone staff sett k n e = rw e

pub element-Keeps : {A : Type 0} (P : Bot → Type 0) (a : A) → Keeps P (element (some a))
unfolding element
element-Keeps P a = record { run = λ b p. p }

-- Messages keep whatever does not speak of the requests.
module _ {P : Bot → Type 0} (ignores : IgnoresOut P) where
  pub say-Keeps : (id : ℤ) (text : Text) (kb : Keyboard) → Keeps P (say id text kb)
  unfolding say
  say-Keeps id text kb = request-Keeps ignores _

  pub support-Keeps : (text : Text) (kb : Keyboard) → Keeps P (send_msg_to_support text kb)
  unfolding send_msg_to_support
  support-Keeps text kb = get-Keeps (λ b p. request-Keeps ignores _)

  send_msg_to-Keeps :
      (ids : List ℤ) (text : Text) (kb : Keyboard) → Keeps P (send_msg_to ids text kb)
  unfolding send_msg_to
  send_msg_to-Keeps [] text kb = skip-Keeps
  send_msg_to-Keeps (employee ∷ ids) text kb =
      >>-Keeps (try_catch_tg-Keeps (say-Keeps employee text kb) (λ e. skip-Keeps))
        (send_msg_to-Keeps ids text kb)

  pub staff-Keeps : (text : Text) (kb : Keyboard) → Keeps P (send_msg_to_staff text kb)
  unfolding send_msg_to_staff
  staff-Keeps text kb = get-Keeps (λ b p. send_msg_to-Keeps b.v_staff text kb)

pub each-Keeps :
    {A : Type 0} (P : Bot → Type 0) (xs : List A) (f : A → M (Unit {0}))
    → ((x : A) → Keeps P (f x))
    → Keeps P (each xs f)
unfolding each
each-Keeps P [] f h = skip-Keeps
each-Keeps P (x ∷ xs) f h = >>-Keeps (h x) (each-Keeps P xs f h)

module _ (staff : List ℤ) (sett : String → Text) (scope : Scope) (id : ℤ) where
  -- A write to a field of the task other than the step.
  pub field-Keeps :
      (f : NewTask → NewTask)
      → ((t : NewTask) → (f t).stat_ ≡ t.stat_)
      → Keeps (At staff sett scope id) (modify_task f)
  field-Keeps f h = modify_ud-Keeps staff sett scope id _ λ ud s. record {
    authorised = rw (h ud.jira_task) s.authorised;
    owner = s.owner;
    aligned = s.aligned;
  }

  -- A write after which the step needs no role.
  pub step-Keeps :
      (f : NewTask → NewTask)
      → ((t : NewTask) → role_for_step (f t).stat_ ≡ anyone)
      → Keeps (At staff sett scope id) (modify_task f)
  step-Keeps f h = modify_ud-Keeps staff sett scope id _ λ ud s. record {
    authorised = has_role_anyone staff sett id _ (h ud.jira_task);
    owner = s.owner;
    aligned = s.aligned;
  }

  -- A write that leaves the task's step, the owner and the lists of messages.
  pub ud-Keeps :
      (f : UserDispatcher → UserDispatcher)
      → ((ud : UserDispatcher)
          → ((f ud).jira_task.stat_ ≡ ud.jira_task.stat_)
            × ((f ud).chat_user_tg_id ≡ ud.chat_user_tg_id)
            × ((f ud).recent_msg_ids ≡ ud.recent_msg_ids)
            × ((f ud).recent_msgs ≡ ud.recent_msgs))
      → Keeps (At staff sett scope id) (modify_ud f)
  ud-Keeps f h = modify_ud-Keeps staff sett scope id f λ ud s.
      let (e, o, i, m) = h ud in
      record { authorised = rw e s.authorised; owner = o ∙ s.owner; aligned = rw (i, m) s.aligned }

  -- A second `uD = uniq_data(id)` finds the same session.
  pub again-Keeps :
      {A : Type 0} {m other : M A}
      → Keeps (At staff sett scope id) m
      → Keeps (At staff sett scope id) other
      → Keeps (At staff sett scope id) (point_to id >>= λ p. branch p m other)
  again-Keeps h ho = >>=-Keeps at_once (λ p. branch-Keeps p (λ _. h) (λ _. ho))
    where
      at_once : Keeps (At staff sett scope id) (point_to id)
      at_once = record {
        run = λ b p.
            let (ud, e) = p.exists in
            rw (point_to-some id b ud e) (find-Inv staff sett scope id b ud e p.own p.inv);
      }
