-- ===== src/ListChecker/Monad.antt =====
-- The list checker's steps: functions on its state that return, throw, or end the process.
use tgbot_with_rest.Prelude.{ℕ, ℤ, Bool, List, ◌∷◌, Option, none, some}
use tgbot_with_rest.Text.{Text}
use tgbot_with_rest.Structures.{Contractor}
use tgbot_with_rest.Bot.World.{ChatId, Exception, tg_exception, other_exception, Qt}
use tgbot_with_rest.Json.{Boost}
use tgbot_with_rest.Http.{Transfer}
use tgbot_with_rest.Trello.{Api}
use tgbot_with_rest.ListChecker.Table.{Database, Row, Statement, sql, bound_values}

-- A message with, where there is one, a button's text and its link; the calls over DBus; and the
-- request to archive a card, with its code.
pub data Event : Type 0 where
  send_message : ChatId → Text → Option (Text × Text) → Event
  send_tg_message : Text → Event
  run_command : Text → Event
  archived : (card : Text) (code : ℕ) → Event

-- The settings and lists that the list checker reads, and the world around it: `throws` is what a
-- message throws, behind those sent; a pass makes every request to the board at most once, so
-- `net` needs no history.
pub record World : Type 1 where
  pub distribution_list : Text
  pub rework_list : Text
  pub support_tg_id : Text
  pub script_path_listchecker : Text
  pub v_contractors : List Contractor
  pub v_staff : List ℤ
  pub api : Api
  pub qt : Qt
  pub boost : Boost
  pub net : Transfer
  pub to_ulong : Text → ℤ
  pub throws : List Event → Event → Option Exception

pub record Checker (D : Database) : Type 0 where
  pub db : D.Db
  pub v_id_cards : List Text
  pub v_cards_to_delete : List Text
  pub out : List Event

pub data Outcome (D : Database) (A : Type 0) : Type 0 where
  done : A → Checker D → Outcome D A
  thrown : Exception → Checker D → Outcome D A
  terminated : Checker D → Outcome D A

abbrev pub C : Database → Type 0 → Type 0
C D A = Checker D → Outcome D A

module _ {D : Database} where
  unfoldable pub after : {A B : Type 0} → (A → C D B) → Outcome D A → Outcome D B
  after f (done a s) = f a s
  after f (thrown e s) = thrown e s
  after f (terminated s) = terminated s

  infixl 5 ◌>>=◌ ◌>>◌
  unfoldable pub ◌>>=◌ : {A B : Type 0} → C D A → (A → C D B) → C D B
  ◌>>=◌ m f s = after f (m s)

  unfoldable pub ◌>>◌ : {A B : Type 0} → C D A → C D B → C D B
  ◌>>◌ m k s = after (λ _. k) (m s)

  unfoldable pub pure : {A : Type 0} → A → C D A
  pure a s = done a s

  unfoldable pub skip : C D (Unit {0})
  skip s = done tt s

  unfoldable pub get : C D (Checker D)
  get s = done s s

  unfoldable pub put : (Checker D → Checker D) → C D (Unit {0})
  put f s = done tt (f s)

  -- A statement, and whether it succeeded.
  unfoldable pub exec : Statement → C D Bool
  exec st s =
      let (db, ok) = D.exec (sql st) (bound_values st) s.db in done ok (record s { db = db })

  unfoldable pub select : Text → C D (Option Row)
  select card s = done (D.select s.db card) s

  -- An event that may throw.
  abbrev pub emitted : Option Exception → Checker D → Outcome D (Unit {0})
  emitted none s = done tt s
  emitted (some e) s = thrown e s

  unfoldable pub send : World → Event → C D (Unit {0})
  send w e s = emitted (w.throws s.out e) (record s { out = e ∷ s.out })

  -- A call over DBus, which throws nothing.
  unfoldable pub call : Event → C D (Unit {0})
  call e s = done tt (record s { out = e ∷ s.out })

  -- `try { … } catch (TgException e) { }` around a message.
  abbrev pub unless_tg : Outcome D (Unit {0}) → Outcome D (Unit {0})
  unless_tg (thrown (tg_exception t) s) = done tt s
  unless_tg (thrown (other_exception t) s) = thrown (other_exception t) s
  unless_tg (done a s) = done a s
  unless_tg (terminated s) = terminated s

  unfoldable pub try_send : World → Event → C D (Unit {0})
  try_send w e s = unless_tg (send w e s)

  abbrev pub joined : Outcome D (Unit {0}) → Outcome D (Unit {0})
  joined (done a s) = done a s
  joined (thrown e s) = terminated s
  joined (terminated s) = terminated s

  -- A thread that is joined at the end of its block: an exception that leaves it ends the process.
  unfoldable pub threaded : C D (Unit {0}) → C D (Unit {0})
  threaded m s = joined (m s)
