-- ===== src/ListChecker/Managed.antt =====
-- The steps on one card bring its issue in line with the card's list.
use tgbot_with_rest.Prelude.{
  ℤ, Bool, true, false, List, [], ◌∷◌, Option, none, some, if◌then◌else◌, ◌≡◌, refl, sym, ap, ◌∙◌,
  Bool-cases, inl, inr,
}
use tgbot_with_rest.Text.{Text, utf8, text_eq}
use tgbot_with_rest.Numbers.{itoa}
use tgbot_with_rest.Structures.{Contractor}
use tgbot_with_rest.ListChecker.Table.{
  Database, Row, assign_contractor, clear_contractor, delete_issue, effect, bind, underway, pending,
  in_list,
}
use tgbot_with_rest.ListChecker.Monad.{World, Checker, C, pure, exec, skip, ◌>>◌}
use tgbot_with_rest.ListChecker.Cards.{
  column, tell_assigned, assigned, assign_contractor_to_card, send_msg_to_staff, tell_rework,
  rework_card_and_notify, is_returned, clear_returned, sync_distributed_card, assign_to, rework_in,
  manage_pending, sync_n_manage_contractors_and_cards,
}
use tgbot_with_rest.ListChecker.Row.{
  is_pending, redistributed, taken_by, managed, synced, set_row, set_row_at,
}
use tgbot_with_rest.ListChecker.Runs.{
  Serves, Runs, At, Keeps, then_Runs, next_Runs, skip_Runs, pure_Runs, given_Runs, exec_on_Runs,
  select_Runs, send-Keeps, call-Keeps, try_send-Keeps, threaded-Keeps, commit_Keeps,
}

module _ {D : Database} {w : World} {X : Type 0} (S : Serves D w X) where
  module _ (f : Text → Option Row) (ds : List Text) where
    tell_assigned-Keeps :
        (consumer_id : Text) (p : Contractor) → Keeps S f ds (tell_assigned w consumer_id p)
    unfolding tell_assigned
    tell_assigned-Keeps consumer_id p =
        next_Runs
          (next_Runs (next_Runs (send-Keeps S f ds _) (λ _. call-Keeps S f ds _))
            (λ _. send-Keeps S f ds _))
          (λ _. call-Keeps S f ds _)

    send_msg_to_staff-Keeps :
        (staff_tg_ids : List ℤ) (msg : Text) (kbd : Option (Text × Text))
        → Keeps S f ds (send_msg_to_staff w staff_tg_ids msg kbd)
    unfolding send_msg_to_staff
    send_msg_to_staff-Keeps [] msg kbd = skip_Runs
    send_msg_to_staff-Keeps (e ∷ es) msg kbd =
        next_Runs (try_send-Keeps S f ds _) (λ _. send_msg_to_staff-Keeps es msg kbd)

    tell_rework-Keeps : (customer : Option Row) → Keeps S f ds (tell_rework w customer)
    unfolding tell_rework
    tell_rework-Keeps customer =
        next_Runs
          (next_Runs (send-Keeps S f ds _)
            (λ _. threaded-Keeps S f ds _ (send_msg_to_staff-Keeps w.v_staff _ _)))
          (λ _. call-Keeps S f ds _)

    assigned-Keeps :
        (card : Text) (p : Contractor) (ok : Bool) → Keeps S f ds (assigned w card p ok)
    unfolding assigned
    assigned-Keeps card p false = skip_Runs
    assigned-Keeps card p true =
        then_Runs (next_Runs (commit_Keeps S f ds) (λ _. select_Runs S card f ds))
          (λ row. given_Runs (λ _. tell_assigned-Keeps _ p))

  module _ (card : Text) (f : Text → Option Row) (ds : List Text) where
    -- The table with another issue of the card.
    abbrev Issue : Option Row → Checker D → Type 0
    Issue o = At S (set_row card o f) ds

    assign_to_Runs :
        (p : Option Contractor) (r : Row)
        → Runs X (Issue (some r)) (assign_to w card p) (λ _. Issue (some (taken_by p r)))
    unfolding assign_to assign_contractor_to_card effect
    assign_to_Runs none r = skip_Runs
    assign_to_Runs (some p) r =
        then_Runs
          (exec_on_Runs S (assign_contractor p.trello_list p.link (itoa p.id) p.name card) card
            (λ r. some (underway p.trello_list p.link (itoa p.id) p.name r)) (λ g. refl) (some r) f
            ds)
          (λ ok. given_Runs (λ _. assigned-Keeps _ ds card p ok))

    rework_Runs :
        (r : Row) → Runs X (Issue (some r)) (rework_card_and_notify w card) (λ _. Issue none)
    unfolding rework_card_and_notify effect
    rework_Runs r =
        next_Runs
          (next_Runs
            (next_Runs
              (next_Runs
                (then_Runs (select_Runs S card _ ds)
                  (λ row. given_Runs (λ _. tell_rework-Keeps _ ds row)))
                (λ _. call-Keeps S _ ds _))
              (λ _. exec_on_Runs S (delete_issue card) card (λ r. none) (λ g. refl) (some r) f ds))
            (λ ok. given_Runs (λ _. commit_Keeps S _ ds)))
          (λ _. skip_Runs)

    cleared_Runs :
        (r : Row) (b : Bool)
        → Runs X
            (Issue (some r))
            (elim b as (λ x. C D Text) [
              | true ↦ exec (clear_contractor card) >> pure r.id_card_list
              | false ↦ pure r.id_card_list
            ])
            (λ l s. (l ≡ r.id_card_list) × Issue (some (if b then pending r else r)) s)
    unfolding effect
    cleared_Runs r true =
        next_Runs
          (exec_on_Runs S (clear_contractor card) card (λ r. some (pending r)) (λ g. refl) (some r)
            f ds)
          (λ ok. given_Runs (λ _. pure_Runs r.id_card_list (λ s p. (refl, p))))
    cleared_Runs r false = pure_Runs r.id_card_list (λ s p. (refl, p))

    clear_returned_Runs :
        (r : Row)
        → Runs X
            (Issue (some r))
            (clear_returned w card (some r))
            (λ l s. (l ≡ r.id_card_list) × Issue (some (redistributed w r)) s)
    unfolding clear_returned effect
    clear_returned_Runs r = cleared_Runs r (is_returned w (some r))

    sync_distributed_card_Runs :
        (r : Row)
        → Runs X
            (Issue (some r))
            (sync_distributed_card w card)
            (λ l s. (l ≡ r.id_card_list) × Issue (some (redistributed w r)) s)
    unfolding sync_distributed_card
    sync_distributed_card_Runs r =
        then_Runs (select_Runs S card (set_row card (some r) f) ds)
          (λ row. given_Runs (λ h. rw (h ∙ set_row_at card (some r) f) (clear_returned_Runs r)))

    rework_in_Runs :
        (b : Bool) (r : Row)
        → Runs X (Issue (some r)) (rework_in w card b) (λ _. Issue (if b then none else some r))
    unfolding rework_in
    rework_in_Runs true r = rework_Runs r
    rework_in_Runs false r = skip_Runs

    manage_pending_Runs :
        (r : Row) (list l : Text) (b : Bool)
        → b ≡ is_pending r
        → list ≡ r.id_card_list
        → l ≡ r.id_card_list
        → Runs X (Issue (some r)) (manage_pending w card list l b) (λ _. Issue (managed w r))
    unfolding manage_pending
    manage_pending_Runs r list l true p q k =
        rw (sym p, q, k) (next_Runs (assign_to_Runs _ r) (λ _. rework_in_Runs _ _))
    manage_pending_Runs r list l false p q k = rw (sym p) skip_Runs

    list_kept : (r : Row) → (redistributed w r).id_card_list ≡ r.id_card_list
    list_kept r = elim (Bool-cases (is_returned w (some r))) [
      | inl e ↦ rw e refl
      | inr e ↦ rw e refl
    ]

    -- An issue that stands in the list of its card is managed as it should be.
    pub sync_n_manage_Runs :
        (r : Row)
        → Runs X
            (Issue (some r))
            (sync_n_manage_contractors_and_cards w card r.id_card_list)
            (λ _. Issue (managed w (redistributed w r)))
    unfolding sync_n_manage_contractors_and_cards
    sync_n_manage_Runs r = then_Runs (sync_distributed_card_Runs r) (λ l. given_Runs (λ k.
        then_Runs (select_Runs S card (set_row card (some (redistributed w r)) f) ds) (λ row.
          given_Runs (λ h.
            manage_pending_Runs (redistributed w r) r.id_card_list l _
              (ap (λ o. text_eq (column (λ r. r.card_status) o) (utf8 "pending"))
                (h ∙ set_row_at card (some (redistributed w r)) f))
              (sym (list_kept r)) (k ∙ sym (list_kept r))))))

    none_returned : is_returned w none ≡ false
    none_returned = elim (Bool-cases (text_eq [] w.distribution_list)) [
      | inl e ↦ rw e refl
      | inr e ↦ rw e refl
    ]

    missing_Runs : Runs X (Issue none) (sync_distributed_card w card) (λ l. Issue none)
    unfolding sync_distributed_card clear_returned text_eq
    missing_Runs = then_Runs (select_Runs S card (set_row card none f) ds) (λ row.
        given_Runs (λ h. rw (h ∙ set_row_at card none f, none_returned) (pure_Runs [] (λ s p. p))))

    -- Without an issue nothing is done.
    sync_missing_Runs :
        (list : Text)
        → Runs X (Issue none) (sync_n_manage_contractors_and_cards w card list) (λ _. Issue none)
    unfolding sync_n_manage_contractors_and_cards manage_pending text_eq skip
    sync_missing_Runs list = then_Runs missing_Runs (λ l.
        then_Runs (select_Runs S card (set_row card none f) ds)
          (λ row. given_Runs (λ h. rw (h ∙ set_row_at card none f) skip_Runs)))

    -- Once the list of the issue, if there is one, is that of the card.
    pub synced_Runs :
        (list : Text) (o : Option Row)
        → Runs X
            (Issue (bind o (λ r. some (in_list list r))))
            (sync_n_manage_contractors_and_cards w card list)
            (λ _. Issue (bind o (synced w list)))
    synced_Runs list none = sync_missing_Runs list
    synced_Runs list (some r) = sync_n_manage_Runs (in_list list r)
