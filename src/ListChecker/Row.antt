-- ===== src/ListChecker/Row.antt =====
-- What a pass of the list checker is to do with the issue of one card, and a table with one issue
-- replaced.
use tgbot_with_rest.Prelude.{
  Bool, not, ◌&&◌, Option, none, some, if◌then◌else◌, is_empty, ◌≡◌, refl, Bool-cases, inl, inr,
}
use tgbot_with_rest.Text.{Text, utf8, text_eq, text_eq_iff}
use tgbot_with_rest.Numbers.{itoa}
use tgbot_with_rest.Structures.{Contractor}
use tgbot_with_rest.Trello.{TrelloResult, value, error, not_found_404, JiraCard}
use tgbot_with_rest.ListChecker.Table.{Row, underway, pending, in_list, bind, on}
use tgbot_with_rest.ListChecker.Monad.{World}
use tgbot_with_rest.ListChecker.Cards.{find_contractor}
use tgbot_with_rest.ListChecker.Pass.{card_on_board}

abbrev pub is_pending : Row → Bool
is_pending r = text_eq r.card_status (utf8 "pending")

-- An issue that came back to the list for distribution loses its contractor.
abbrev pub redistributed : World → Row → Row
redistributed w r =
    if text_eq r.id_card_list w.distribution_list && not (is_empty r.contractor_list)
    then pending r
    else r

-- A pending issue gets the contractor whose list it is in.
abbrev pub taken_by : Option Contractor → Row → Row
taken_by none r = r
taken_by (some p) r = underway p.trello_list p.link (itoa p.id) p.name r

-- A pending issue in the list for rework is removed.
abbrev pub managed : World → Row → Option Row
managed w r =
    if is_pending r
    then (if text_eq r.id_card_list w.rework_list
        then none
        else some (taken_by (find_contractor r.id_card_list w.v_contractors) r))
    else some r

-- The issue of a card that stands in `list` on the board.
abbrev pub synced : World → Text → Row → Option Row
synced w list r = managed w (redistributed w (in_list list r))

-- What an answer of the board makes of an issue: it goes if the card is closed or missing, is brought
-- in line with the card's list if the board shows the card, and else stays.
abbrev pub answered_by : Option (TrelloResult JiraCard) → World → Row → Option Row
answered_by none w r = some r
answered_by (some (value k)) w r = if k.is_closed then none else synced w k.id_list r
answered_by (some (error not_found_404)) w r = none
answered_by (some (error e)) w r = some r

abbrev pub passed : World → Text → Row → Option Row
passed w card r = answered_by (card_on_board w card) w r

abbrev pub set_row : Text → Option Row → (Text → Option Row) → Text → Option Row
set_row card o f c = if text_eq c card then o else f c

pub on-set_row :
    (card : Text) (g : Row → Option Row) (o : Option Row) (f : Text → Option Row)
    → on card g (set_row card o f) ≡ set_row card (bind o g) f
on-set_row card g o f = λ i c. at c i
  where
    at : (c : Text) → on card g (set_row card o f) c ≡ set_row card (bind o g) f c
    at c = elim (Bool-cases (text_eq c card)) [ inl e ↦ rw e refl | inr e ↦ rw e refl ]

pub set_row_self : (card : Text) (f : Text → Option Row) → set_row card (f card) f ≡ f
set_row_self card f = λ i c. at c i
  where
    at : (c : Text) → set_row card (f card) f c ≡ f c
    at c = elim (Bool-cases (text_eq c card)) [
      | inl e ↦ let q : c ≡ card = (text_eq_iff c card).0 e in rw e (rw q refl)
      | inr e ↦ rw e refl
    ]

pub set_row_at : (card : Text) (o : Option Row) (f : Text → Option Row) → set_row card o f card ≡ o
set_row_at card o f = let e = (text_eq_iff card card).1 refl in rw e refl
