-- ===== src/Bot/Users.antt =====
-- Who is who: the role checks of src/chanserv.cpp, and the pointer to a user's session.
use tgbot_with_rest.Prelude.{ℤ, ◌==ℤ◌, Bool, false, List, [], ◌∷◌, ◌||◌, String}
use tgbot_with_rest.Text.{Text}
use tgbot_with_rest.Numbers.{atol}
use tgbot_with_rest.Access.{RequiredRole, is_allowed}

-- `std::find(…) != end()`.
unfoldable pub contains : List ℤ → ℤ → Bool
contains [] id = false
contains (x ∷ xs) id = x ==ℤ id || contains xs id

module _ (v_staff : List ℤ) (sett : String → Text) where
  unfoldable pub is_staff : ℤ → Bool
  unfolding contains
  is_staff id = contains v_staff id

  unfoldable pub is_developer : ℤ → Bool
  is_developer id = id ==ℤ atol (sett "support_TgID")

  unfoldable pub has_role : ℤ → RequiredRole → Bool
  unfolding is_allowed is_staff is_developer
  has_role id role = is_allowed role (is_staff id) (is_developer id)
