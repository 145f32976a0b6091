-- ===== src/ListChecker/Refines.antt =====
-- `check_the_list` of listchecker/listchecker.cxx against what a pass is to do with each issue.
use tgbot_with_rest.Prelude.{
  ℕ, true, List, [], ◌∷◌, none, if◌then◌else◌, ◌≡◌, ◌≢◌, refl, sym, ap, ◌∙◌, none-some,
}
use tgbot_with_rest.Text.{Text, text_eq}
use tgbot_with_rest.ListChecker.Table.{Database, IsTable, Statement, sql, bound_values, bind}
use tgbot_with_rest.ListChecker.Monad.{World, Event, Checker, Outcome, done, thrown, terminated}
use tgbot_with_rest.ListChecker.Pass.{card_on_board, check_the_list, real_cards}
use tgbot_with_rest.ListChecker.Row.{passed}
use tgbot_with_rest.ListChecker.Runs.{Serves, Leads, At}
use tgbot_with_rest.ListChecker.After.{after_cards, closed_cards, deleted, swept_row}
use tgbot_with_rest.ListChecker.Sweep.{swept_Runs}

-- Every issue but those of the card "1" is what a pass is to make of it.
abbrev pub Swept : (D : Database) → IsTable D → World → D.Db → Checker D → Type 0
Swept D T w db s =
    (c : Text)
    → T.row s.db c ≡ (if text_eq c (b'1' ∷ []) then T.row db c else bind (T.row db c) (passed w c))

Leads-Swept :
    {D : Database} {w : World} {X : Type 0} (S : Serves D w X) (db : D.Db)
    (r : Outcome D (Unit {0}))
    → Leads {D = D} X
        (λ _.
          At S
            (deleted
              (closed_cards w (real_cards (D.cards db)))
              (after_cards w (real_cards (D.cards db)) (S.table.row db)))
            [])
        r
    → Leads {D = D} X (λ _. Swept D S.table w db) r
Leads-Swept {D = D} {w = w} S db (done a s) (p, q) = λ c.
    ap (λ g. g c) p
    ∙ swept_row w (D.cards db) (S.table.row db) c (S.table.cards_unique db)
        (S.table.cards_row db c).0
Leads-Swept S db (thrown e s) h = h
Leads-Swept S db (terminated s) h = h

pub swept :
    {D : Database} {w : World} {X : Type 0} (S : Serves D w X) (s : Checker D) (elapsed : ℕ)
    (errors : Text)
    → s.v_cards_to_delete ≡ []
    → Leads {D = D} X (λ _. Swept D S.table w s.db) (check_the_list w elapsed errors s)
swept {w = w} S s elapsed errors h =
    Leads-Swept S s.db (check_the_list w elapsed errors s)
      ((swept_Runs S s.db elapsed errors).run s (refl, h))

module _ (D : Database) (T : IsTable D) (w : World)
    (succeeds : (st : Statement) (db : D.Db) → (D.exec (sql st) (bound_values st) db).1 ≡ true)
    (s : Checker D) (elapsed : ℕ) (errors : Text) (fresh : s.v_cards_to_delete ≡ []) where
  -- A pass that returns makes of the issue of every card, but "1", what the answer of the board asks
  -- for: it is removed if the card is closed or missing; else it gets the card's list, and in the list
  -- for distribution it loses its contractor, and if it is pending it gets the contractor of the list,
  -- or is removed in the list for rework; and it stays as it is if the board gave another error. The
  -- conditions are that the table is keyed by its cards, that statements succeed and do what SQL says,
  -- and that no card is left to delete from an earlier pass.
  pub check_the_list_refines :
      Leads {D = D} (Unit {0}) (λ _. Swept D T w s.db) (check_the_list w elapsed errors s)
  check_the_list_refines =
      swept
        (record {
          table = T;
          succeeds = succeeds;
          throws_to = λ out e x h. tt;
          board_to = λ card h. tt;
        })
        s elapsed errors fresh

  -- Where moreover no message throws and the JSON library reads every answer of the board, the pass
  -- does return, with every issue as it is to be.
  pub check_the_list_returns :
      ((out : List Event) (e : Event) → w.throws out e ≡ none)
      → ((card : Text) → card_on_board w card ≢ none)
      → Leads {D = D} ⊥ (λ _. Swept D T w s.db) (check_the_list w elapsed errors s)
  check_the_list_returns quiet read =
      swept
        (record {
          table = T;
          succeeds = succeeds;
          throws_to = λ out e x h. none-some (sym (quiet out e) ∙ h);
          board_to = read;
        })
        s elapsed errors fresh
