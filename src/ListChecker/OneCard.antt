-- ===== src/ListChecker/OneCard.antt =====
-- The round of the loop for one card makes of its issue what it is to be.
use tgbot_with_rest.Prelude.{
  Bool, true, false, List, [], ◌∷◌, ◌++◌, Option, none, some, if◌then◌else◌, ◌≡◌, refl, sym, ap,
  ◌∙◌, subst, append-nil,
}
use tgbot_with_rest.Text.{Text}
use tgbot_with_rest.Bot.World.{other_exception}
use tgbot_with_rest.Trello.{
  TrelloResult, value, error, no_error, unknown, request_failed, request_invalid, not_found_404,
  JiraCard,
}
use tgbot_with_rest.Trello.Codes.{get_card-id}
use tgbot_with_rest.ListChecker.Table.{
  Database, Row, update_list, delete_issue, effect, bind, in_list,
}
use tgbot_with_rest.ListChecker.Monad.{World, Checker, C, Outcome, thrown, pure, exec, skip, put}
use tgbot_with_rest.ListChecker.Pass.{card_on_board, get_answer, note_closed, process_card}
use tgbot_with_rest.ListChecker.Row.{synced, set_row, set_row_self}
use tgbot_with_rest.ListChecker.Runs.{Serves, Runs, Leads, At, next_Runs, given_Runs, exec_on_Runs}
use tgbot_with_rest.ListChecker.Managed.{synced_Runs}

-- What the first loop makes of an issue, before the closed cards are deleted.
abbrev pub stepped_by : Text → Option (TrelloResult JiraCard) → World → Row → Option Row
stepped_by card none w r = some r
stepped_by card (some (value k)) w r = synced w k.id_list r
stepped_by card (some (error not_found_404)) w r = none
stepped_by card (some (error e)) w r = some r

abbrev pub stepped : World → Text → Row → Option Row
stepped w card r = stepped_by card (card_on_board w card) w r

abbrev pub closed_by : Option (TrelloResult JiraCard) → Bool
closed_by (some (value k)) = k.is_closed
closed_by _ = false

abbrev pub is_closed_card : World → Text → Bool
is_closed_card w card = closed_by (card_on_board w card)

abbrev pub if_closed : Text → Option (TrelloResult JiraCard) → List Text
if_closed card a = if closed_by a then card ∷ [] else []

pub bind-some : (o : Option Row) → bind o (λ r. some r) ≡ o
bind-some none = refl
bind-some (some r) = refl

pub bind-none : (o : Option Row) → bind o (λ r. none) ≡ none
bind-none none = refl
bind-none (some r) = refl

module _ {D : Database} {w : World} {X : Type 0} (S : Serves D w X) where
  answered_Leads :
      (card : Text) (f : Text → Option Row) (ds : List Text) (s : Checker D)
      (o : Option (TrelloResult JiraCard))
      → card_on_board w card ≡ o
      → At S f ds s
      → Leads X
          (λ a s. (card_on_board w card ≡ some a) × At S f ds s)
          (elim o as (λ x. Outcome D (TrelloResult JiraCard)) [
            | none ↦ thrown (other_exception []) s
            | some r ↦ pure r s
          ])
  unfolding pure
  answered_Leads card f ds s none h p = S.board_to card h
  answered_Leads card f ds s (some a) h p = (h, p)

  pub get_answer_Runs :
      (card : Text) (f : Text → Option Row) (ds : List Text)
      → Runs X
          (At S f ds)
          (get_answer w card)
          (λ a s. (card_on_board w card ≡ some a) × At S f ds s)
  unfolding get_answer
  get_answer_Runs card f ds = record {
    run = λ s p. answered_Leads card f ds s (card_on_board w card) refl p;
  }

  module _ (card : Text) (f : Text → Option Row) (ds : List Text) where
    -- The table with its issue of the card singled out.
    single_Runs :
        {A : Type 0} {m : C D A} {Q : A → Checker D → Type 0}
        → Runs X (At S (set_row card (f card) f) ds) m Q
        → Runs X (At S f ds) m Q
    single_Runs {m = m} {Q = Q} h = subst (λ g. Runs X (At S g ds) m Q) (set_row_self card f) h

    updated_Runs :
        (list id : Text)
        → id ≡ card
        → Runs X (At S f ds) (exec (update_list list id)) (λ ok s.
          (ok ≡ true) × At S (set_row card (bind (f card) (λ r. some (in_list list r))) f) ds s)
    unfolding effect
    updated_Runs list id same = rw same (
        single_Runs (
          exec_on_Runs S (update_list list card) card (λ r. some (in_list list r)) (λ g. refl)
            (f card) f ds))

  module _ (card : Text) (f : Text → Option Row) (ds : List Text) where
    abbrev pub After : Option (TrelloResult JiraCard) → Checker D → Type 0
    After a = At S (set_row card (bind (f card) (stepped_by card a w)) f) (ds ++ if_closed card a)

    noted_Runs :
        (b : Bool)
        → Runs X
            (At S f ds)
            (if b
              then put (λ s. record s { v_cards_to_delete = s.v_cards_to_delete ++ card ∷ [] })
              else skip)
            (λ _. At S f (ds ++ (if b then card ∷ [] else [])))
    unfolding put skip
    noted_Runs true = record { run = λ s (p, q). (p, ap (λ l. l ++ card ∷ []) q) }
    noted_Runs false = record { run = λ s (p, q). (p, q ∙ sym (append-nil ds)) }

    done_Runs :
        (a : TrelloResult JiraCard) (g : Text → Option Row)
        → g ≡ set_row card (bind (f card) (stepped_by card (some a) w)) f
        → closed_by (some a) ≡ false
        → Runs X (At S g ds) skip (λ _. After (some a))
    unfolding skip
    done_Runs a g e c = record { run = λ s (p, q). (p ∙ e, rw c (q ∙ sym (append-nil ds))) }

    unchanged : (g : Row → Option Row) → g ≡ (λ r. some r) → f ≡ set_row card (bind (f card) g) f
    unchanged g e = rw (e, bind-some (f card)) (sym (set_row_self card f))

    pub process_card_Runs :
        (a : TrelloResult JiraCard)
        → card_on_board w card ≡ some a
        → Runs X (At S f ds) (process_card w card a) (λ _. After (some a))
    unfolding process_card card_on_board note_closed effect
    process_card_Runs (value k) h =
        let same : k.id ≡ card = get_card-id w.api w.qt w.boost w.net card k h in
        next_Runs
          (next_Runs (noted_Runs k.is_closed)
            (λ _. updated_Runs card f (ds ++ if_closed card (some (value k))) k.id_list k.id same))
          (λ ok. given_Runs (λ _. rw same (synced_Runs S card f _ k.id_list (f card))))
    process_card_Runs (error not_found_404) h = single_Runs card f ds (
        next_Runs (exec_on_Runs S (delete_issue card) card (λ r. none) (λ g. refl) (f card) f ds)
          (λ ok. given_Runs (λ _. done_Runs (error not_found_404) _ refl refl)))
    process_card_Runs (error no_error) h = done_Runs (error no_error) f (unchanged _ refl) refl
    process_card_Runs (error unknown) h = done_Runs (error unknown) f (unchanged _ refl) refl
    process_card_Runs (error request_failed) h =
        done_Runs (error request_failed) f (unchanged _ refl) refl
    process_card_Runs (error request_invalid) h =
        done_Runs (error request_invalid) f (unchanged _ refl) refl
