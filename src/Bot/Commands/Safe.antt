-- ===== src/Bot/Commands/Safe.antt =====
-- The commands keep the invariant.
use tgbot_with_rest.Prelude.{ℤ, String, List, refl, ◌≡◌, some}
use tgbot_with_rest.Text.{Text}
use tgbot_with_rest.Structures.{empty_task}
use tgbot_with_rest.Access.{role_for_step}
use tgbot_with_rest.Bot.{Bot}
use tgbot_with_rest.Bot.Monad.{element, ◌>>=◌, after, M, modify_task}
use tgbot_with_rest.Bot.Keeps.{
  Keeps, Ends, IgnoresOut, >>=-Keeps, >>-Keeps, skip-Keeps, get-Keeps, call-Keeps, branch-Keeps,
}
use tgbot_with_rest.Bot.Inv.{Scope, Free, Inv, At, At-IgnoresOut}
use tgbot_with_rest.Bot.Points.{point_to-Keeps}
use tgbot_with_rest.Bot.Rules.{say-Keeps, step-Keeps, ud-Keeps, again-Keeps}
use tgbot_with_rest.Bot.Photos.{User, Message, SentMessage, with_from}
use tgbot_with_rest.Bot.Commands.{
  menu, show_menu, on_start_command, restart, start_from, command_start, help, help_from,
  command_help,
}

module _ (staff : List ℤ) (sett : String → Text) (scope : Scope) (m : SentMessage) where
  abbrev Kept : {A : Type 0} → M A → Type 0
  Kept = Keeps (At staff sett scope m.from_id)

  quiet : IgnoresOut (At staff sett scope m.from_id)
  quiet = At-IgnoresOut staff sett scope m.from_id

  clear : Kept (modify_task (λ t. empty_task))
  unfolding role_for_step
  clear = step-Keeps staff sett scope m.from_id _ (λ t. refl)

  menu-Keeps : Kept (menu m)
  unfolding menu
  menu-Keeps = get-Keeps λ b p.
      branch-Keeps _ (λ _. call-Keeps quiet _)
        λ _. >>-Keeps (say-Keeps quiet _ _ _) (
          branch-Keeps _ (λ _. call-Keeps quiet _)
            λ _. branch-Keeps _ (λ _. call-Keeps quiet _) (λ _. call-Keeps quiet _))

  show_menu-Keeps : Kept (show_menu m)
  unfolding show_menu
  show_menu-Keeps =
      >>=-Keeps menu-Keeps
        (λ a. ud-Keeps staff sett scope m.from_id _ (λ u. (refl, refl, refl, refl)))

  restart-Keeps : Kept (restart m)
  unfolding restart on_start_command
  restart-Keeps = >>-Keeps clear (again-Keeps staff sett scope m.from_id show_menu-Keeps skip-Keeps)

  help-Keeps : Kept (help m)
  unfolding help
  help-Keeps = >>-Keeps clear (say-Keeps quiet _ _ _)

commands_from-Inv :
    (staff : List ℤ) (sett : String → Text) (scope : Scope) (m : SentMessage) (b : Bot)
    → Free scope m.from_id
    → Inv staff sett scope b
    → Ends (Inv staff sett scope) (start_from m b) × Ends (Inv staff sett scope) (help_from m b)
unfolding start_from help_from
commands_from-Inv staff sett scope m b own p = (
  (point_to-Keeps staff sett scope m.from_id own (restart-Keeps staff sett scope m) skip-Keeps).run
      b p,
  (point_to-Keeps staff sett scope m.from_id own (help-Keeps staff sett scope m) skip-Keeps).run b
      p,
)

-- In a state with the invariant, `start` and `help` end without a fault, if the message has a sender,
-- and the invariant holds afterwards, also if they end in an exception. Its scope, a condition on the
-- session of each user, must be free for the sender; so no other session leaves its scope.
pub commands-Inv :
    (staff : List ℤ) (sett : String → Text) (scope : Scope) (m : Message) (u : User) (b : Bot)
    → m.from ≡ some u
    → Free scope u.id
    → Inv staff sett scope b
    → Ends (Inv staff sett scope) (command_start m b)
      × Ends (Inv staff sett scope) (command_help m b)
unfolding command_start command_help element ◌>>=◌ after
commands-Inv staff sett scope m u b there own p =
    let (s, h) = commands_from-Inv staff sett scope (with_from m u) b own p in
    (rw there s, rw there h)
