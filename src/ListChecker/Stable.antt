-- ===== src/ListChecker/Stable.antt =====
-- Passes after the first change nothing while the board stays as it is (listchecker).
use tgbot_with_rest.Prelude.{
  true, false, not, ◌&&◌, Option, none, some, is_empty, ◌≡◌, refl, subst, Bool-cases, inl, inr,
}
use tgbot_with_rest.Text.{Text, utf8, text_eq}
use tgbot_with_rest.Structures.{Contractor}
use tgbot_with_rest.Trello.{
  TrelloResult, value, error, no_error, unknown, request_failed, request_invalid, not_found_404,
  JiraCard,
}
use tgbot_with_rest.ListChecker.Table.{Row, bind, in_list}
use tgbot_with_rest.ListChecker.Monad.{World}
use tgbot_with_rest.ListChecker.Cards.{find_contractor}
use tgbot_with_rest.ListChecker.Pass.{card_on_board}
use tgbot_with_rest.ListChecker.After.{and_false}
use tgbot_with_rest.ListChecker.Row.{
  is_pending, redistributed, taken_by, managed, synced, answered_by, passed,
}

-- What a row comes to: it is first redistributed or not, and then taken or not.
settled :
    (w : World) (o : Option Contractor) (q : Row)
    → find_contractor q.id_card_list w.v_contractors ≡ o
    → text_eq q.id_card_list w.rework_list ≡ false
    → redistributed w q ≡ q
    → is_pending q ≡ true
    → bind (some (taken_by o q)) (synced w q.id_card_list) ≡ some (taken_by o q)
unfolding text_eq utf8
settled w none q f n d p = rw (d, p) (rw (n, f) refl)
settled w (some c) q f n d p =
    elim (Bool-cases (text_eq q.id_card_list w.distribution_list && not (is_empty c.trello_list))) [
      | inl e ↦ rw e (rw (n, f) refl)
      | inr e ↦ rw e refl
    ]

-- Managing a row that is redistributed already.
managed_again :
    (w : World) (q : Row)
    → redistributed w q ≡ q
    → bind (managed w q) (synced w q.id_card_list) ≡ managed w q
unfolding text_eq utf8
managed_again w q d = elim (Bool-cases (is_pending q)) [
  | inr p ↦ rw p (rw (d, p) refl)
  | inl p ↦ elim (Bool-cases (text_eq q.id_card_list w.rework_list)) [
    | inl n ↦ rw (p, n) refl
    | inr n ↦ rw (p, n) (settled w (find_contractor q.id_card_list w.v_contractors) q refl n d p)
  ]
]

redistributed_again :
    (w : World) (q : Row) → redistributed w (redistributed w q) ≡ redistributed w q
redistributed_again w q =
    elim (Bool-cases
      (text_eq q.id_card_list w.distribution_list && not (is_empty q.contractor_list))) [
        | inl e ↦ rw e (rw (and_false (text_eq q.id_card_list w.distribution_list)) refl)
        | inr e ↦ rw e (rw e refl)
      ]

redistributed-list : (w : World) (q : Row) → (redistributed w q).id_card_list ≡ q.id_card_list
redistributed-list w q =
    elim (Bool-cases
      (text_eq q.id_card_list w.distribution_list && not (is_empty q.contractor_list))) [
        | inl e ↦ rw e refl
        | inr e ↦ rw e refl
      ]

-- An issue in the list `list`, brought in line with it, is in line with it.
synced_again :
    (w : World) (list : Text) (r : Row) → bind (synced w list r) (synced w list) ≡ synced w list r
synced_again w list r =
    let q = redistributed w (in_list list r) in
    subst (λ l. bind (managed w q) (synced w l) ≡ managed w q)
      (redistributed-list w (in_list list r))
      (managed_again w q (redistributed_again w (in_list list r)))

pub passed_again :
    (w : World) (c : Text) (r : Row) → bind (passed w c r) (passed w c) ≡ passed w c r
passed_again w c r = again (card_on_board w c)
  where
    again :
        (o : Option (TrelloResult JiraCard))
        → bind (answered_by o w r) (answered_by o w) ≡ answered_by o w r
    again none = refl
    again (some (value k)) = elim (Bool-cases k.is_closed) [
      | inl e ↦ rw e refl
      | inr e ↦ rw e (synced_again w k.id_list r)
    ]
    again (some (error no_error)) = refl
    again (some (error unknown)) = refl
    again (some (error request_failed)) = refl
    again (some (error request_invalid)) = refl
    again (some (error not_found_404)) = refl
