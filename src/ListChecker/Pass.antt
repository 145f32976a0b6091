-- ===== src/ListChecker/Pass.antt =====
-- One pass of the list checker over all cards.
use tgbot_with_rest.Prelude.{
  ℕ, ◌/◌, ◌%◌, Bool, true, false, not, ◌&&◌, List, [], ◌∷◌, ◌++◌, Option, none, some, if◌then◌else◌,
  ltb, ◌==◌, keep_if, pos,
}
use tgbot_with_rest.Text.{Text, utf8, text_eq}
use tgbot_with_rest.Numbers.{itoa}
use tgbot_with_rest.Bot.World.{named, other_exception}
use tgbot_with_rest.Trello.{TrelloResult, value, error, not_found_404, JiraCard}
use tgbot_with_rest.Trello.GetCard.{get_card}
use tgbot_with_rest.ListChecker.Table.{Database, update_list, delete_issue, commit}
use tgbot_with_rest.ListChecker.Monad.{
  World, send_message, run_command, thrown, C, ◌>>=◌, ◌>>◌, pure, skip, get, put, exec, send, call,
}
use tgbot_with_rest.ListChecker.Cards.{sync_n_manage_contractors_and_cards}

-- The cards of the table but "1".
abbrev pub real_cards : List Text → List Text
real_cards = keep_if (λ c. not (text_eq c (b'1' ∷ [])))

-- From half an hour on, every half hour.
abbrev pub is_due : ℕ → Bool
is_due upt_minutes = ltb 29 upt_minutes && upt_minutes % 30 == 0

-- The answer of the board about a card; `none` is an exception of the JSON library.
unfoldable pub card_on_board : World → Text → Option (TrelloResult JiraCard)
unfolding get_card
card_on_board w card_id = get_card w.api w.qt w.boost w.net card_id

module _ {D : Database} (w : World) where
  unfoldable pub get_answer : Text → C D (TrelloResult JiraCard)
  unfolding card_on_board
  get_answer card_id s = elim (card_on_board w card_id) [
    | none ↦ thrown (other_exception []) s
    | some r ↦ pure r s
  ]

  -- `errors` are the texts of the errors of the database, which the message ends with.
  unfoldable pub report_empty : ℕ → Text → C D (Unit {0})
  unfolding utf8
  report_empty upt_minutes errors =
      if is_due upt_minutes
      then send w (
          send_message (named w.support_tg_id)
            (utf8 "ListChecker's uptime is "
              ++ itoa (pos upt_minutes)
              ++ utf8 "min: Запрос задач из БД вернул пустой результат. "
              ++ errors)
            none)
      else skip

  unfoldable pub got_cards : ℕ → Text → List Text → C D Bool
  unfolding report_empty
  got_cards elapsed errors [] =
      report_empty (elapsed / 1000 / 60) errors
      >> call (run_command w.script_path_listchecker)
      >> pure false
  got_cards elapsed errors (c ∷ cs) = put (λ s. record s { v_id_cards = c ∷ cs }) >> pure true

  -- The table's cards, read into `v_id_cards`, and whether there are any.
  unfoldable pub checks_bootstrap : ℕ → Text → C D Bool
  unfolding got_cards
  checks_bootstrap elapsed errors =
      put (λ s. record s { v_id_cards = [] })
      >> get
      >>= (λ s. got_cards elapsed errors (real_cards (D.cards s.db)))

  unfoldable pub note_closed : Text → JiraCard → C D (Unit {0})
  note_closed card_id card =
      if card.is_closed
      then put (λ s. record s { v_cards_to_delete = s.v_cards_to_delete ++ card_id ∷ [] })
      else skip

  unfoldable pub process_card : Text → TrelloResult JiraCard → C D (Unit {0})
  unfolding note_closed sync_n_manage_contractors_and_cards
  process_card card_id (value card) =
      note_closed card_id card
      >> exec (update_list card.id_list card.id)
      >> sync_n_manage_contractors_and_cards w card.id card.id_list
  process_card card_id (error not_found_404) = exec (delete_issue card_id) >> skip
  process_card card_id (error e) = skip

  unfoldable pub process_cards : List Text → C D (Unit {0})
  unfolding get_answer process_card
  process_cards [] = skip
  process_cards (card_id ∷ cards) =
      get_answer card_id >>= process_card card_id >> exec commit >> process_cards cards

  unfoldable pub process_every_card : C D (Unit {0})
  unfolding process_cards
  process_every_card = get >>= (λ s. process_cards s.v_id_cards)

  unfoldable pub delete_all : List Text → C D (Unit {0})
  delete_all [] = skip
  delete_all (card_id ∷ cards) = exec (delete_issue card_id) >> delete_all cards

  unfoldable pub delete_cards : C D (Unit {0})
  unfolding delete_all
  delete_cards =
      get
      >>= (λ s. delete_all s.v_cards_to_delete)
      >> put (λ s. record s { v_cards_to_delete = [] })
      >> exec commit
      >> skip

  unfoldable pub check_cards : Bool → C D (Unit {0})
  unfolding process_every_card delete_cards
  check_cards true = process_every_card >> delete_cards
  check_cards false = skip

  unfoldable pub check_the_list : ℕ → Text → C D (Unit {0})
  unfolding checks_bootstrap check_cards
  check_the_list elapsed errors = checks_bootstrap elapsed errors >>= check_cards
