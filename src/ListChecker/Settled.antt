-- ===== src/ListChecker/Settled.antt =====
-- The event loop of listchecker/main.cxx leaves the table as its first pass made it, while the
-- board and the lists of the list checker stay as they are.
use tgbot_with_rest.Prelude.{
  ℕ, true, false, All, List, [], ◌∷◌, Option, none, if◌then◌else◌, ◌≡◌, ◌≢◌, refl, sym, ap, subst,
  ◌∙◌, Bool-cases, Option-cases, none-some, inl, inr,
}
use tgbot_with_rest.Text.{Text, text_eq}
use tgbot_with_rest.Worker.{Machine, get_mem_size}
use tgbot_with_rest.ListChecker.Table.{Database, IsTable, Row, Statement, sql, bound_values, bind}
use tgbot_with_rest.ListChecker.Monad.{World, Event, Checker, Outcome, done, thrown, terminated}
use tgbot_with_rest.ListChecker.Pass.{card_on_board, check_the_list}
use tgbot_with_rest.ListChecker.Row.{passed}
use tgbot_with_rest.ListChecker.Runs.{Serves, Leads, Runs, At, next_Runs, pure_Runs, send-Keeps}
use tgbot_with_rest.ListChecker.After.{swept_row}
use tgbot_with_rest.ListChecker.Sweep.{swept_Runs}
use tgbot_with_rest.ListChecker.Refines.{Swept}
use tgbot_with_rest.ListChecker.Stable.{passed_again}
use tgbot_with_rest.ListChecker.Loop.{
  LoopState, waiting, has_quit, Tick, check_timer, bg_timer, stop_check, send_mem_size,
  nix_bg_worker, exec_loop, main,
}

-- What a pass makes of the issues `f`.
abbrev pass_of : World → (Text → Option Row) → Text → Option Row
pass_of w f c = if text_eq c (b'1' ∷ []) then f c else bind (f c) (passed w c)

pass_again : (w : World) (f : Text → Option Row) → pass_of w (pass_of w f) ≡ pass_of w f
pass_again w f = λ i c. at c i
  where
    at : (c : Text) → pass_of w (pass_of w f) c ≡ pass_of w f c
    at c = elim (Bool-cases (text_eq c (b'1' ∷ []))) [
      | inl e ↦ rw e refl
      | inr e ↦ elim (Option-cases (f c)) [
        | inl n ↦ rw (e, n) refl
        | inr (r, n) ↦ rw (e, n) (passed_again w c r)
      ]
    ]

Leads-map :
    (X : Type 0) {D : Database} {A : Type 0} {Q R : A → Checker D → Type 0} (r : Outcome D A)
    → ((a : A) (s : Checker D) → Q a s → R a s)
    → Leads {D = D} X Q r
    → Leads {D = D} X R r
Leads-map X (done a s) h q = h a s q
Leads-map X (thrown e s) h x = x
Leads-map X (terminated s) h x = x

-- Where the event loop is: it is left exactly at the first check that finds the flag set.
abbrev pub behind : List Tick → LoopState
behind [] = waiting
behind (check_timer elapsed errors ∷ ticks) = behind ticks
behind (bg_timer m elapsed ∷ ticks) = behind ticks
behind (stop_check true ∷ ticks) = has_quit
behind (stop_check false ∷ ticks) = behind ticks

-- What is asked of the machines on which reports are made.
abbrev pub OnReport : (Machine → Type 0) → Tick → Type 0
OnReport P (bg_timer m elapsed) = P m
OnReport P _ = Unit

module _ {D : Database} {w : World} {X : Type 0} (S : Serves D w X) (P : Machine → Type 0)
    (unread : (m : Machine) → P m → get_mem_size m ≡ none → X) where
  pass_Runs :
      (f : Text → Option Row) (elapsed : ℕ) (errors : Text)
      → Runs {D = D} X (At S f []) (check_the_list w elapsed errors) (λ _. At S (pass_of w f) [])
  pass_Runs f elapsed errors = record {
    run = λ s (p, q).
        Leads-map X (check_the_list w elapsed errors s)
          (λ a t (u, v). (
            u
                ∙ (λ i c.
                    swept_row w (D.cards s.db) (S.table.row s.db) c (S.table.cards_unique s.db)
                      (S.table.cards_row s.db c).0 i)
                ∙ ap (pass_of w) p,
            v,
          ))
          ((swept_Runs S s.db elapsed errors).run s (refl, q));
  }

  nix_bg_worker_Runs :
      (f : Text → Option Row) (m : Machine) (elapsed : ℕ)
      → P m
      → Runs {D = D} X (At S f []) (nix_bg_worker w m elapsed) (λ _. At S f [])
  unfolding nix_bg_worker send_mem_size
  nix_bg_worker_Runs f m elapsed k = elim (Option-cases (get_mem_size m)) [
    | inl e ↦ rw e (record { run = λ s p. unread m k e })
    | inr (n, e) ↦ rw e (send-Keeps S f [] _)
  ]

  exec_loop_Runs :
      (f : Text → Option Row) (ticks : List Tick)
      → All (OnReport P) ticks
      → Runs {D = D} X
          (At S (pass_of w f) [])
          (exec_loop w ticks)
          (λ a s. (a ≡ behind ticks) × At S (pass_of w f) [] s)
  unfolding exec_loop
  exec_loop_Runs f [] k = pure_Runs _ (λ s p. (refl, p))
  exec_loop_Runs f (check_timer elapsed errors ∷ ticks) k =
      next_Runs
        (subst
          (λ g. Runs X (At S (pass_of w f) []) (check_the_list w elapsed errors) (λ _. At S g []))
          (pass_again w f) (pass_Runs (pass_of w f) elapsed errors))
        (λ _. exec_loop_Runs f ticks k.1)
  exec_loop_Runs f (bg_timer m elapsed ∷ ticks) k =
      next_Runs (nix_bg_worker_Runs (pass_of w f) m elapsed k.0) (λ _. exec_loop_Runs f ticks k.1)
  exec_loop_Runs f (stop_check true ∷ ticks) k = pure_Runs _ (λ s p. (refl, p))
  exec_loop_Runs f (stop_check false ∷ ticks) k = exec_loop_Runs f ticks k.1

  main_Swept :
      (s : Checker D) (elapsed : ℕ) (errors : Text) (m : Machine) (ticks : List Tick)
      → s.v_cards_to_delete ≡ []
      → P m
      → All (OnReport P) ticks
      → Leads {D = D} X
          (λ a t. (a ≡ behind ticks) × Swept D S.table w s.db t)
          (main w elapsed errors m ticks s)
  unfolding main
  main_Swept s elapsed errors m ticks h k l =
      Leads-map X (main w elapsed errors m ticks s) (λ a t (e, (p, q)). (e, λ c. ap (λ g. g c) p))
        ((next_Runs
            (next_Runs (pass_Runs (S.table.row s.db) elapsed errors)
              (λ _. nix_bg_worker_Runs _ m elapsed k))
            (λ _. exec_loop_Runs (S.table.row s.db) ticks l)).run
          s (refl, h))

-- Whenever finitely many of its timers have fired, in whatever order: no exception has ended the list
-- checker, its event loop has been left exactly if a check found the flag of a stop set and waits
-- otherwise, and every issue but that of the card "1" is what the first pass was to make of it, so
-- that the passes behind it change nothing. The conditions are that the answers of the board and the
-- lists of contractors and staff stay the same, that no message throws, that the JSON library reads
-- every answer of the board, that the script prints a number for every report, that the table is keyed
-- by its cards, that every statement succeeds and does what SQL says, and that no card is left to
-- delete at the start.
pub main_settles :
    (D : Database) (T : IsTable D) (w : World)
    → ((st : Statement) (db : D.Db) → (D.exec (sql st) (bound_values st) db).1 ≡ true)
    → ((out : List Event) (e : Event) → w.throws out e ≡ none)
    → ((card : Text) → card_on_board w card ≢ none)
    → (s : Checker D) (elapsed : ℕ) (errors : Text) (m : Machine) (ticks : List Tick)
    → s.v_cards_to_delete ≡ []
    → get_mem_size m ≢ none
    → All (OnReport (λ m. get_mem_size m ≢ none)) ticks
    → Leads {D = D} ⊥
        (λ a t. (a ≡ behind ticks) × Swept D T w s.db t)
        (main w elapsed errors m ticks s)
main_settles D T w succeeds quiet read s elapsed errors m ticks h first reports =
    main_Swept
      (record {
        table = T;
        succeeds = succeeds;
        throws_to = λ out e x q. none-some (sym (quiet out e) ∙ q);
        board_to = read;
      })
      (λ m. get_mem_size m ≢ none) (λ m p q. p q) s elapsed errors m ticks h first reports
