-- ===== src/ListChecker/Sweep.antt =====
-- One pass of the list checker over the table.
use tgbot_with_rest.Prelude.{
  ℕ, Bool, true, false, ◌/◌, List, [], ◌∷◌, ◌++◌, Option, none, ◌≡◌, refl, sym, ap, ◌∙◌, Bool-cases,
  inl, inr, subst, append_assoc, append-nil,
}
use tgbot_with_rest.Text.{Text}
use tgbot_with_rest.ListChecker.Table.{Database, Row, delete_issue, effect, on}
use tgbot_with_rest.ListChecker.Monad.{World, Checker, C, after, get, put, skip, ◌>>=◌}
use tgbot_with_rest.ListChecker.Pass.{
  card_on_board, process_card, process_cards, process_every_card, delete_all, delete_cards,
  checks_bootstrap, got_cards, report_empty, check_cards, check_the_list, real_cards, is_due,
}
use tgbot_with_rest.ListChecker.Runs.{
  Serves, Runs, At, Keeps, then_Runs, next_Runs, skip_Runs, pure_Runs, given_Runs, exec_Runs,
  commit_Keeps, send-Keeps, call-Keeps,
}
use tgbot_with_rest.ListChecker.OneCard.{if_closed, get_answer_Runs, process_card_Runs, After}
use tgbot_with_rest.ListChecker.After.{after_cards, closed_cards, deleted}

module _ {D : Database} {w : World} {X : Type 0} (S : Serves D w X) where
  process_cards_Runs :
      (cs : List Text) (f : Text → Option Row) (ds : List Text)
      → Runs X
          (At S f ds)
          (process_cards w cs)
          (λ _. At S (after_cards w cs f) (ds ++ closed_cards w cs))
  unfolding process_cards skip
  process_cards_Runs [] f ds = record { run = λ s (p, q). (p, q ∙ sym (append-nil ds)) }
  process_cards_Runs (c ∷ cs) f ds =
      subst
        (λ l.
          Runs X (At S f ds) (process_cards w (c ∷ cs)) (λ _. At S (after_cards w (c ∷ cs) f) l))
        (append_assoc ds (if_closed c (card_on_board w c)) (closed_cards w cs))
        (next_Runs
          (next_Runs
            (then_Runs (get_answer_Runs S c f ds) (λ a. given_Runs (λ h.
              subst (λ o. Runs X (At S f ds) (process_card w c a) (λ _. After S c f ds o)) (sym h)
                (process_card_Runs S c f ds a h))))
            (λ _. commit_Keeps S _ _))
          (λ _. process_cards_Runs cs _ _))

  delete_all_Runs :
      (cs : List Text) (f : Text → Option Row) (ds : List Text)
      → Runs X (At S f ds) (delete_all w cs) (λ _. At S (deleted cs f) ds)
  unfolding delete_all effect
  delete_all_Runs [] f ds = skip_Runs
  delete_all_Runs (c ∷ cs) f ds =
      next_Runs (exec_Runs S (delete_issue c) f ds)
        (λ ok. given_Runs (λ _. delete_all_Runs cs (on c (λ r. none) f) ds))

  -- What is read from the state.
  get_Runs :
      {A : Type 0} {P : Checker D → Type 0} {k : Checker D → C D A} {Q : A → Checker D → Type 0}
      → ((s : Checker D) → P s → Runs X P (k s) Q)
      → Runs X P (get >>= k) Q
  unfolding get ◌>>=◌ after
  get_Runs h = record { run = λ s p. (h s p).run s p }

  put_Runs :
      {P Q : Checker D → Type 0} (g : Checker D → Checker D)
      → ((s : Checker D) → P s → Q (g s))
      → Runs X P (put g) (λ _. Q)
  unfolding put
  put_Runs g h = record { run = h }

  pre_Runs :
      {A : Type 0} {P P' : Checker D → Type 0} {m : C D A} {Q : A → Checker D → Type 0}
      → ((s : Checker D) → P s → P' s)
      → Runs X P' m Q
      → Runs X P m Q
  pre_Runs h k = record { run = λ s p. k.run s (h s p) }

  delete_noted_Runs :
      (f : Text → Option Row) (ds : List Text)
      → Runs X
          (At S f ds)
          (get >>= (λ s. delete_all w s.v_cards_to_delete))
          (λ _. At S (deleted ds f) ds)
  delete_noted_Runs f ds = get_Runs (λ s (p, q). rw q (delete_all_Runs ds f ds))

  delete_cards_Runs :
      (f : Text → Option Row) (ds : List Text)
      → Runs X (At S f ds) (delete_cards w) (λ _. At S (deleted ds f) [])
  unfolding delete_cards
  delete_cards_Runs f ds =
      next_Runs
        (next_Runs
          (next_Runs (delete_noted_Runs f ds)
            (λ _. put_Runs (λ s. record s { v_cards_to_delete = [] }) (λ s (p, q). (p, refl))))
          (λ _. commit_Keeps S (deleted ds f) []))
        (λ _. skip_Runs)

  process_every_card_Runs :
      (cs : List Text) (f : Text → Option Row) (ds : List Text)
      → Runs X
          (λ s. (s.v_id_cards ≡ cs) × At S f ds s)
          (process_every_card w)
          (λ _. At S (after_cards w cs f) (ds ++ closed_cards w cs))
  unfolding process_every_card
  process_every_card_Runs cs f ds =
      get_Runs (λ s (p, q). rw p (pre_Runs (λ s (a, b). b) (process_cards_Runs cs f ds)))

  -- The cards `cs` are read, and there are some; or there are none.
  abbrev Got : List Text → (Text → Option Row) → Bool → Checker D → Type 0
  Got cs f true s = (s.v_id_cards ≡ cs) × At S f [] s
  Got cs f false s = (cs ≡ []) × At S f [] s

  report_empty_Runs :
      (f : Text → Option Row) (n : ℕ) (errors : Text) → Keeps S f [] (report_empty w n errors)
  unfolding report_empty
  report_empty_Runs f n errors = elim (Bool-cases (is_due n)) [
    | inl e ↦ rw e (send-Keeps S f [] _)
    | inr e ↦ rw e skip_Runs
  ]

  got_cards_Runs :
      (cs : List Text) (f : Text → Option Row) (elapsed : ℕ) (errors : Text)
      → Runs X (At S f []) (got_cards w elapsed errors cs) (Got cs f)
  unfolding got_cards
  got_cards_Runs [] f elapsed errors =
      next_Runs
        (next_Runs (report_empty_Runs f (elapsed / 1000 / 60) errors) (λ _. call-Keeps S f [] _))
        (λ _. pure_Runs false (λ s p. (refl, p)))
  got_cards_Runs (c ∷ cs) f elapsed errors =
      next_Runs
        (put_Runs {Q = λ s. (s.v_id_cards ≡ c ∷ cs) × At S f [] s}
          (λ s. record s { v_id_cards = c ∷ cs }) (λ s p. (refl, p)))
        (λ _. pure_Runs true (λ s p. p))

  -- Before the cards are read.
  abbrev pub From : D.Db → Checker D → Type 0
  From db s = (s.db ≡ db) × (s.v_cards_to_delete ≡ [])

  read_Runs : (db : D.Db) → Runs X (From db) get (λ a s. (a.db ≡ db) × From db s)
  unfolding get
  read_Runs db = record { run = λ s (p, q). (p, (p, q)) }

  checks_bootstrap_Runs :
      (db : D.Db) (elapsed : ℕ) (errors : Text)
      → Runs {D = D} X
          (From db)
          (checks_bootstrap w elapsed errors)
          (Got (real_cards (D.cards db)) (S.table.row db))
  unfolding checks_bootstrap
  checks_bootstrap_Runs db elapsed errors =
      then_Runs
        (next_Runs (put_Runs {Q = From db} (λ s. record s { v_id_cards = [] }) (λ s p. p))
          (λ _. read_Runs db))
        (λ s. given_Runs (λ h.
          pre_Runs {P' = At S (S.table.row db) []} (λ t (p, q). (ap S.table.row p, q))
            (rw h (got_cards_Runs (real_cards (D.cards db)) (S.table.row db) elapsed errors))))

  check_cards_Runs :
      (cs : List Text) (f : Text → Option Row) (b : Bool)
      → Runs X
          (Got cs f b)
          (check_cards w b)
          (λ _. At S (deleted (closed_cards w cs) (after_cards w cs f)) [])
  unfolding check_cards
  check_cards_Runs cs f true =
      next_Runs (process_every_card_Runs cs f []) (λ _. delete_cards_Runs _ (closed_cards w cs))
  check_cards_Runs cs f false = given_Runs (λ h. rw h skip_Runs)

  -- What a pass makes of the table.
  pub swept_Runs :
      (db : D.Db) (elapsed : ℕ) (errors : Text)
      → Runs {D = D} X (From db) (check_the_list w elapsed errors) (λ _.
        At S
          (deleted
            (closed_cards w (real_cards (D.cards db)))
            (after_cards w (real_cards (D.cards db)) (S.table.row db)))
          [])
  unfolding check_the_list
  swept_Runs db elapsed errors =
      then_Runs (checks_bootstrap_Runs db elapsed errors) (λ b. check_cards_Runs _ _ b)
