-- ===== src/ListChecker/Runs.antt =====
-- Rules on what the list checker's steps make of the table.
use tgbot_with_rest.Prelude.{true, List, ◌∷◌, Option, none, some, ◌≡◌, refl, sym, ap, ◌∙◌}
use tgbot_with_rest.Text.{Text}
use tgbot_with_rest.Bot.World.{Exception, tg_exception, other_exception}
use tgbot_with_rest.ListChecker.Table.{
  Database, IsTable, Row, Statement, sql, bound_values, effect, on, bind, commit,
}
use tgbot_with_rest.ListChecker.Monad.{
  World, Event, Checker, Outcome, done, thrown, terminated, C, after, ◌>>=◌, ◌>>◌, pure, skip, exec,
  select, send, call, emitted, try_send, unless_tg, threaded, joined,
}
use tgbot_with_rest.ListChecker.Pass.{card_on_board}
use tgbot_with_rest.ListChecker.Row.{set_row, on-set_row}

-- A result that returns leads to `Q`; one that does not, to `X`.
abbrev pub Leads :
    {D : Database} {A : Type 0} → Type 0 → (A → Checker D → Type 0) → Outcome D A → Type 0
Leads X Q (done a s) = Q a s
Leads X Q (thrown e s) = X
Leads X Q (terminated s) = X

-- The statements succeed; a message that throws, and an answer of the board that the JSON library
-- throws on, lead to `X`.
pub record Serves (D : Database) (w : World) (X : Type 0) : Type 1 where
  pub table : IsTable D
  pub succeeds : (st : Statement) (db : D.Db) → (D.exec (sql st) (bound_values st) db).1 ≡ true
  pub throws_to : (out : List Event) (e : Event) (x : Exception) → w.throws out e ≡ some x → X
  pub board_to : (card : Text) → card_on_board w card ≡ none → X

-- From a state where `P` holds, `m` leads to `Q`.
pub record Runs {D : Database} {A : Type 0} (X : Type 0) (P : Checker D → Type 0) (m : C D A)
    (Q : A → Checker D → Type 0) : Type 0 where
  pub run : (s : Checker D) → P s → Leads X Q (m s)

module _ {D : Database} {X : Type 0} where
  pub after-Leads :
      {A B : Type 0} {Q : A → Checker D → Type 0} {R : B → Checker D → Type 0} {f : A → C D B}
      (r : Outcome D A)
      → Leads X Q r
      → ((a : A) → Runs X (Q a) (f a) R)
      → Leads X R (after f r)
  unfolding after
  after-Leads (done a s) h k = (k a).run s h
  after-Leads (thrown e s) h k = h
  after-Leads (terminated s) h k = h

module _ {D : Database} {X : Type 0} {P : Checker D → Type 0} where
  pub then_Runs :
      {A B : Type 0} {Q : A → Checker D → Type 0} {R : B → Checker D → Type 0} {m : C D A}
      {f : A → C D B}
      → Runs X P m Q
      → ((a : A) → Runs X (Q a) (f a) R)
      → Runs X P (m >>= f) R
  unfolding ◌>>=◌
  then_Runs {m = m} h k = record { run = λ s p. after-Leads (m s) (h.run s p) k }

  pub next_Runs :
      {A B : Type 0} {Q : A → Checker D → Type 0} {R : B → Checker D → Type 0} {m : C D A}
      {k : C D B}
      → Runs X P m Q
      → ((a : A) → Runs X (Q a) k R)
      → Runs X P (m >> k) R
  unfolding ◌>>◌
  next_Runs {m = m} h k = record { run = λ s p. after-Leads (m s) (h.run s p) k }

  pub skip_Runs : Runs X P skip (λ _. P)
  unfolding skip
  skip_Runs = record { run = λ s p. p }

  pub pure_Runs :
      {A : Type 0} {Q : A → Checker D → Type 0} (a : A)
      → ((s : Checker D) → P s → Q a s)
      → Runs X P (pure a) Q
  unfolding pure
  pure_Runs a h = record { run = h }

  -- A fact in front of a state's property.
  pub given_Runs :
      {A : Type 0} {F : Type 0} {m : C D A} {Q : A → Checker D → Type 0}
      → (F → Runs X P m Q)
      → Runs X (λ s. F × P s) m Q
  given_Runs h = record { run = λ s (f, p). (h f).run s p }

module _ {D : Database} {w : World} {X : Type 0} (S : Serves D w X) where
  -- The issues are `f`, and `ds` are the cards to delete.
  abbrev pub At : (Text → Option Row) → List Text → Checker D → Type 0
  At f ds s = (S.table.row s.db ≡ f) × (s.v_cards_to_delete ≡ ds)

  exec-row :
      (st : Statement) (db : D.Db)
      → S.table.row (D.exec (sql st) (bound_values st) db).0 ≡ effect st (S.table.row db)
  exec-row st db = λ i c. at c i
    where
      at :
          (c : Text)
          → S.table.row (D.exec (sql st) (bound_values st) db).0 c ≡ effect st (S.table.row db) c
      at c = S.table.exec_row st db c ∙ rw (S.succeeds st db) refl

  pub exec_Runs :
      (st : Statement) (f : Text → Option Row) (ds : List Text)
      → Runs X (At f ds) (exec st) (λ ok s. (ok ≡ true) × At (effect st f) ds s)
  unfolding exec
  exec_Runs st f ds = record {
    run = λ s (p, q). (S.succeeds st s.db, (exec-row st s.db ∙ ap (effect st) p, q));
  }

  pub select_Runs :
      (card : Text) (f : Text → Option Row) (ds : List Text)
      → Runs X (At f ds) (select card) (λ r s. (r ≡ f card) × At f ds s)
  unfolding select
  select_Runs card f ds = record {
    run = λ s (p, q). (S.table.select_row s.db card ∙ ap (λ g. g card) p, (p, q));
  }

  module _ (f : Text → Option Row) (ds : List Text) where
    -- Steps that leave the table as it is.
    abbrev pub Keeps : C D (Unit {0}) → Type 0
    Keeps m = Runs X (At f ds) m (λ _. At f ds)

    emitted-Leads :
        (e : Event) (s : Checker D) (o : Option Exception)
        → w.throws s.out e ≡ o
        → At f ds s
        → Leads X (λ _. At f ds) (emitted o (record s { out = e ∷ s.out }))
    emitted-Leads e s none h p = p
    emitted-Leads e s (some x) h p = S.throws_to s.out e x h

    pub send-Keeps : (e : Event) → Keeps (send w e)
    unfolding send
    send-Keeps e = record { run = λ s p. emitted-Leads e s (w.throws s.out e) refl p }

    pub call-Keeps : (e : Event) → Keeps (call e)
    unfolding call
    call-Keeps e = record { run = λ s p. p }

    unless_tg-Leads :
        (e : Event) (s : Checker D) (o : Option Exception)
        → w.throws s.out e ≡ o
        → At f ds s
        → Leads X (λ _. At f ds) (unless_tg (emitted o (record s { out = e ∷ s.out })))
    unless_tg-Leads e s none h p = p
    unless_tg-Leads e s (some (tg_exception t)) h p = p
    unless_tg-Leads e s (some (other_exception t)) h p = S.throws_to s.out e (other_exception t) h

    pub try_send-Keeps : (e : Event) → Keeps (try_send w e)
    unfolding try_send send
    try_send-Keeps e = record { run = λ s p. unless_tg-Leads e s (w.throws s.out e) refl p }

    joined-Leads :
        (o : Outcome D (Unit {0})) → Leads X (λ _. At f ds) o → Leads X (λ _. At f ds) (joined o)
    joined-Leads (done a s) h = h
    joined-Leads (thrown e s) h = h
    joined-Leads (terminated s) h = h

    pub threaded-Keeps : (m : C D (Unit {0})) → Keeps m → Keeps (threaded m)
    unfolding threaded
    threaded-Keeps m h = record { run = λ s p. joined-Leads (m s) (h.run s p) }

    pub commit_Keeps : Runs X (At f ds) (exec commit) (λ _. At f ds)
    unfolding exec effect
    commit_Keeps = record { run = λ s p. ((exec_Runs commit f ds).run s p).1 }

  -- A statement on the issue of one card.
  pub exec_on_Runs :
      (st : Statement) (card : Text) (g : Row → Option Row)
      → ((f : Text → Option Row) → effect st f ≡ on card g f)
      → (o : Option Row) (f : Text → Option Row) (ds : List Text)
      → Runs X
          (At (set_row card o f) ds)
          (exec st)
          (λ ok s. (ok ≡ true) × At (set_row card (bind o g) f) ds s)
  exec_on_Runs st card g h o f ds =
      rw (sym (h (set_row card o f) ∙ on-set_row card g o f)) (exec_Runs st (set_row card o f) ds)
