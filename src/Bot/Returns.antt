-- ===== src/Bot/Returns.antt =====
-- What holds behind a run that may also end in a fault.
use tgbot_with_rest.Prelude.{ℤ, String, List, none, ◌≡◌, inl, inr, Bool-cases, Option-cases}
use tgbot_with_rest.Text.{Text}
use tgbot_with_rest.Sessions.{lookup}
use tgbot_with_rest.Access.{role_for_callback}
use tgbot_with_rest.Bot.{Bot}
use tgbot_with_rest.Bot.Users.{has_role}
use tgbot_with_rest.Bot.Monad.{
  Result, M, done, thrown, terminated, fault, ◌>>=◌, after, caught, skip, when, branch, get,
  element, point_to,
}
use tgbot_with_rest.Bot.Keeps.{Ends}
use tgbot_with_rest.Bot.Inv.{Inv, anything, nowhere-Inv}
use tgbot_with_rest.Bot.Points.{point_to-none, point_to-some}
use tgbot_with_rest.Bot.Query.{CallbackQuery}
use tgbot_with_rest.Bot.Approval.{key_request}
use tgbot_with_rest.Bot.Callback.{buttons, allowed_query, on_callback_query}
use tgbot_with_rest.Bot.Callback.KeyRequest.{key_request-Inv}

abbrev pub Returns : {A : Type 0} → (Bot → Type 0) → Result A → Type 0
Returns P (done a b) = P b
Returns P (thrown e b) = P b
Returns P (terminated b) = P b
Returns P fault = Unit

pub Ends-Returns : {A : Type 0} (P : Bot → Type 0) (r : Result A) → Ends P r → Returns P r
Ends-Returns P (done a b) p = p
Ends-Returns P (thrown e b) p = p
Ends-Returns P (terminated b) p = p
Ends-Returns P fault p = tt

pub after-Returns :
    {A B : Type 0} (P : Bot → Type 0) (k : A → M B) (r : Result A)
    → ((a : A) (b : Bot) → P b → Returns P (k a b))
    → Returns P r
    → Returns P (after k r)
unfolding after
after-Returns P k (done a b) h p = h a b p
after-Returns P k (thrown e b) h p = p
after-Returns P k (terminated b) h p = p
after-Returns P k fault h p = tt

pub caught-Returns :
    (P : Bot → Type 0) (r : Result (Unit {0})) → Returns P r → Returns P (caught (λ e. skip) r)
unfolding caught skip
caught-Returns P (done a b) p = p
caught-Returns P (thrown e b) p = p
caught-Returns P (terminated b) p = p
caught-Returns P fault p = tt

module _ (staff : List ℤ) (sett : String → Text) (q : CallbackQuery)
    (absent : q.message ≡ none) where
  abbrev I : Bot → Type 0
  I = Inv staff sett anything

  -- Without its message, a press ends in a fault where it reaches the buttons.
  no_buttons :
      (b : Bot)
      → I b
      → Returns I ((point_to q.from_id >>= λ found. branch found (buttons q) skip) b)
  unfolding ◌>>=◌ after branch skip buttons element
  no_buttons b p = elim (Option-cases (lookup q.from_id b.m_sessions)) [
    | inl e ↦ rw (point_to-none q.from_id b e) (nowhere-Inv staff sett anything b p)
    | inr (ud, e) ↦ rw (point_to-some q.from_id b ud e) (rw absent tt)
  ]

  allowed-Returns : (b : Bot) → I b → Returns I (allowed_query q b)
  unfolding allowed_query ◌>>=◌ when skip
  allowed-Returns b p =
      after-Returns I _ (key_request q b)
        (λ returned b' p'. elim (Bool-cases returned) [
          | inl e ↦ rw e p'
          | inr e ↦ rw e (no_buttons b' p')
        ])
        (Ends-Returns I _ ((key_request-Inv staff sett anything q (λ k h e ud. tt)).run b p))

  pub absent-Returns : (b : Bot) → I b → Returns I (on_callback_query q b)
  unfolding on_callback_query ◌>>=◌ after get when skip
  absent-Returns b p =
      elim (Bool-cases (has_role b.v_staff b.sett q.from_id (role_for_callback q.data_))) [
        | inl e ↦ rw e (allowed-Returns b p)
        | inr e ↦ rw e p
      ]
