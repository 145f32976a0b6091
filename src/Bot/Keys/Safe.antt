-- ===== src/Bot/Keys/Safe.antt =====
-- The keys are made without a read out of range.
use tgbot_with_rest.Prelude.{ℤ, String, List, [], ◌∷◌}
use tgbot_with_rest.Text.{Text}
use tgbot_with_rest.Structures.{UserDispatcher}
use tgbot_with_rest.Totp.{otp-bound}
use tgbot_with_rest.Bot.Monad.{M}
use tgbot_with_rest.Bot.Keeps.{
  Keeps, >>=-Keeps, >>-Keeps, pure-Keeps, get-Keeps, call-Keeps, request-Keeps, branch-Keeps,
}
use tgbot_with_rest.Bot.Inv.{Scope, At, At-IgnoresOut}
use tgbot_with_rest.Bot.Rules.{element-Keeps}
use tgbot_with_rest.Bot.Keys.{
  generate_revit_master_key, new_key, open_or_new, insert_revit_key_to_db,
}

module _ (staff : List ℤ) (sett : String → Text) (scope : Scope) (id : ℤ) where
  abbrev Kept : {A : Type 0} → M A → Type 0
  Kept = Keeps (At staff sett scope id)

  generate-Keeps : (secret_key : Text) → Kept (generate_revit_master_key secret_key)
  unfolding generate_revit_master_key
  generate-Keeps secret_key = get-Keeps λ b p.
      let (n, _, e) =
        otp-bound b.env.sha1 (b.env.qt.to_std_string (b.env.qt.from_std_string secret_key))
          b.unix_time 2 p.inv.digest in
      >>=-Keeps (rw e (element-Keeps _ n)) (λ n. pure-Keeps _)

  new_key-Keeps : (ud : UserDispatcher) → Kept (new_key ud)
  unfolding new_key
  new_key-Keeps ud = get-Keeps λ b p. >>=-Keeps (generate-Keeps _) λ key.
      >>=-Keeps (call-Keeps (At-IgnoresOut staff sett scope id) _) λ a.
        branch-Keeps _
          (λ _. >>-Keeps (request-Keeps (At-IgnoresOut staff sett scope id) _) (pure-Keeps _))
          (λ _. pure-Keeps _)

  open_or_new-Keeps : (rows : List (List Text)) (ud : UserDispatcher) → Kept (open_or_new rows ud)
  unfolding open_or_new
  open_or_new-Keeps [] ud = new_key-Keeps ud
  open_or_new-Keeps (row ∷ rows) ud = pure-Keeps _

  pub insert_key-Keeps : (ud : UserDispatcher) → Kept (insert_revit_key_to_db ud)
  unfolding insert_revit_key_to_db
  insert_key-Keeps ud =
      >>=-Keeps (call-Keeps (At-IgnoresOut staff sett scope id) _)
        λ a. branch-Keeps _ (λ _. open_or_new-Keeps a.rows ud) (λ _. pure-Keeps _)
