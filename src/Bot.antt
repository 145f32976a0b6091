-- ===== src/Bot.antt =====
-- The state of `chanserv_bot`, what it asks of the outside world, and the monad of its handlers.
-- What Telegram, the databases, Qt's processes, Trello and Jira do is the environment's: it answers
-- each request as it likes, by everything that was asked before.
pub mod World
pub mod Monad
pub mod Keeps
pub mod Users
pub mod Notify
pub mod Registry
pub mod Photos
pub mod Issue
pub mod Rules
pub mod Questions
pub mod Dialog
pub mod Keys
pub mod MyIssues
pub mod Query
pub mod Approval
pub mod Actions
pub mod Callback
pub mod Commands
pub mod Dispatcher
pub mod Inv
pub mod Points
pub mod Returns
pub mod Loop
pub mod Isolation
use tgbot_with_rest.Prelude.{ℕ, ℤ, String, List, Option}
use tgbot_with_rest.Text.{Text}
use tgbot_with_rest.Structures.{Contractor}
use tgbot_with_rest.Sessions.{Sessions}
use World.{Env, Event}

-- `u_d` is the pointer `uD`: the key of the session that it points to. `clock` is the steady clock,
-- `utc` the text of the current date, `unix_time` the seconds since 1970. `out` holds the requests
-- made so far, the newest first.
pub record Bot : Type 0 where
  pub env : Env
  pub sett : String → Text
  pub v_staff : List ℤ
  pub v_consumers : List ℤ
  pub v_allowed_contractors : List ℤ
  pub v_contractors : List Contractor
  pub sticker_list : List Text
  pub u_d : Option ℤ
  pub m_sessions : Sessions
  pub m_last_sessions_cleanup : ℕ
  pub clock : ℕ
  pub utc : Text
  pub unix_time : ℕ
  pub out : List Event
