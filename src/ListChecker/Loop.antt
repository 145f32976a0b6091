-- ===== src/ListChecker/Loop.antt =====
-- The process of the list checker: `main` of listchecker/main.cxx, whose event loop runs passes and
-- reports, one after another in one thread.
use tgbot_with_rest.Prelude.{
  ℕ, ◌/◌, Bool, true, false, List, [], ◌∷◌, ◌++◌, Option, none, some, ℤ, pos,
}
use tgbot_with_rest.Text.{Text, utf8}
use tgbot_with_rest.Numbers.{itoa}
use tgbot_with_rest.Bot.World.{named, other_exception}
use tgbot_with_rest.Keyboards.{Button, go_dashboard_rows}
use tgbot_with_rest.Worker.{Machine, get_mem_size}
use tgbot_with_rest.ListChecker.Table.{Database}
use tgbot_with_rest.ListChecker.Monad.{World, send_message, thrown, C, ◌>>◌, pure, send}
use tgbot_with_rest.ListChecker.Pass.{check_the_list}

-- What the timers of the event loop fire: a pass, with the uptime and the texts of errors of the
-- database; a report; and the check of the flag, with what it finds.
pub data Tick : Type 0 where
  check_timer : (elapsed : ℕ) → (errors : Text) → Tick
  bg_timer : Machine → (elapsed : ℕ) → Tick
  stop_check : (stop_requested : Bool) → Tick

-- Where the event loop is behind what its timers have fired: it waits for the next, or was left by
-- `quit()`.
pub data LoopState : Type 0 where
  waiting : LoopState
  has_quit : LoopState

-- Called nowhere.
abbrev pub bootstrap : Text → List (List Button)
bootstrap = go_dashboard_rows

module _ {D : Database} (w : World) where
  unfoldable pub send_mem_size : ℕ → Option ℤ → C D (Unit {0})
  unfolding utf8
  send_mem_size elapsed none = λ s. thrown (other_exception []) s
  send_mem_size elapsed (some size) = send w (
      send_message (named w.support_tg_id)
        (utf8 "ListChecker "
          ++ (itoa size
              ++ (utf8 " Мб в памяти"
                  ++ (utf8 ", uptime " ++ (itoa (pos (elapsed / 1000 / 60)) ++ utf8 " min")))))
        none)

  unfoldable pub nix_bg_worker : Machine → ℕ → C D (Unit {0})
  unfolding send_mem_size get_mem_size
  nix_bg_worker m elapsed = send_mem_size elapsed (get_mem_size m)

  -- `app.exec()` as far as the timers have fired; an exception of a slot ends it.
  unfoldable pub exec_loop : List Tick → C D LoopState
  unfolding nix_bg_worker
  exec_loop [] = pure waiting
  exec_loop (check_timer elapsed errors ∷ ticks) =
      check_the_list w elapsed errors >> exec_loop ticks
  exec_loop (bg_timer m elapsed ∷ ticks) = nix_bg_worker m elapsed >> exec_loop ticks
  exec_loop (stop_check true ∷ ticks) = pure has_quit
  exec_loop (stop_check false ∷ ticks) = exec_loop ticks

  -- The first checks come right after the start.
  unfoldable pub main : ℕ → Text → Machine → List Tick → C D LoopState
  unfolding exec_loop
  main elapsed errors m ticks =
      check_the_list w elapsed errors >> nix_bg_worker m elapsed >> exec_loop ticks
