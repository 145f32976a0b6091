-- ===== src/Bot/Registry.antt =====
-- The lists of contractors and consumers that the bot keeps beside the database.
use tgbot_with_rest.Prelude.{ℕ, zero, suc, ℤ, List, [], ◌∷◌, ◌++◌, map}
use tgbot_with_rest.Text.{Text}
use tgbot_with_rest.Numbers.{itoa}
use tgbot_with_rest.Structures.{Contractor}
use tgbot_with_rest.Bot.World.{Qt, exec_sql, commit, pg_database}
use tgbot_with_rest.Bot.Monad.{M, ◌>>=◌, ◌>>◌, pure, branch, get, put, call, request}
use tgbot_with_rest.Bot.Users.{contains}

-- `pg_query.value(n)`, empty for a missing column.
unfoldable pub value : ℕ → List Text → Text
value n [] = []
value zero (x ∷ row) = x
value (suc n) (x ∷ row) = value n row

unfoldable pub contractor_row : Qt → List Text → Contractor
unfolding value
contractor_row qt row = record {
  id = qt.to_long_long (value 0 row);
  name = value 1 row;
  link = value 2 row;
  trello_list = value 3 row;
}

-- `v_contractors` is emptied first; `v_allowed_contractors` is only added to.
unfoldable pub reload_contractors_list : M (Unit {0})
reload_contractors_list = do
  put (λ b. record b { v_contractors = [] })
  a ← call (exec_sql pg_database "SELECT id, name, link, trello_list FROM contractors" [])
  put (λ b.
      let rows = map (contractor_row b.env.qt) a.rows in
      record b {
        v_contractors = b.v_contractors ++ rows;
        v_allowed_contractors = b.v_allowed_contractors ++ map (λ c. c.id) rows;
      })

unfoldable pub reload_consumers_list : M (Unit {0})
unfolding value
reload_consumers_list = do
  put (λ b. record b { v_consumers = [] })
  a ← call (exec_sql pg_database "SELECT id FROM consumers" [])
  put (λ b. record b {
    v_consumers = b.v_consumers ++ map (λ row. b.env.qt.to_long_long (value 0 row)) a.rows;
  })

-- The constructor of AbstractChanserv: staff, stickers, contractors and consumers.
unfoldable pub abstract_chanserv : M (Unit {0})
unfolding value reload_contractors_list reload_consumers_list
abstract_chanserv = do
  staff ← call (exec_sql pg_database "SELECT id FROM staff" [])
  put (λ b. record b {
    v_staff = b.v_staff ++ map (λ row. b.env.qt.to_long_long (value 0 row)) staff.rows;
  })
  stickers ← call (exec_sql pg_database "SELECT id FROM stickers" [])
  put (λ b. record b { sticker_list = b.sticker_list ++ map (value 0) stickers.rows })
  reload_contractors_list
  reload_consumers_list

-- 1 if the row could not be written.
unfoldable pub add_consumer_to_db : ℤ → Text → M ℕ
unfolding contains
add_consumer_to_db tg_id tg_link = do
  b ← get
  branch (contains b.v_consumers tg_id) (pure 0) (do
    a ← call (
        exec_sql pg_database "INSERT INTO consumers ( id, username ) VALUES (?, ?)"
          (itoa tg_id ∷ tg_link ∷ []))
    branch a.success (do request (commit pg_database); pure 0) (pure 1))
