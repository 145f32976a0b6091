-- ===== src/Tests/Table.antt =====
-- A table with one issue, and a pass of the list checker over it.
use text.Mathlib.Text.{◌==◌ as str_eq}
use tgbot_with_rest.Prelude.{
  pos, true, false, List, [], ◌∷◌, Option, none, some, String, if◌then◌else◌, ◌≡◌, ◌≢◌, ◌↔◌, refl,
  ap, sym, ◌∙◌, Bool-cases, inl, inr, arith,
}
use tgbot_with_rest.Structures.{Contractor}
use tgbot_with_rest.Numbers.{itoa}
use tgbot_with_rest.ListChecker.Row.{passed}
use tgbot_with_rest.ListChecker.Cards.{find_contractor}
use tgbot_with_rest.Text.{Text, utf8, text_eq, text_eq_iff}
use tgbot_with_rest.Tests.Samples.{sample_qt}
use tgbot_with_rest.Tests.Board.{sample_api, sample_boost, ok_transfer}
use tgbot_with_rest.ListChecker.Table.{
  Database, IsTable, IsUnique, Row, Statement, assign_contractor, clear_contractor, update_list,
  delete_issue, commit, sql, bound_values, effect, on, mem, underway,
}
use tgbot_with_rest.ListChecker.Monad.{World, Checker}
use tgbot_with_rest.ListChecker.Pass.{card_on_board, check_the_list}
use tgbot_with_rest.ListChecker.Runs.{Leads}
use tgbot_with_rest.ListChecker.Refines.{Swept, check_the_list_refines}
use tgbot_with_rest.ListChecker.Loop.{Tick, check_timer, bg_timer, stop_check, main}
use tgbot_with_rest.ListChecker.Settled.{behind, main_settles}
use tgbot_with_rest.Worker.{Machine, get_mem_size}

abbrev key : Text
key = b'c' ∷ []

-- The table is the issue of the card "c", if there is one.
abbrev row : Option Row → Text → Option Row
row db c = if text_eq c key then db else none

abbrev one_value : String → Text → Option Statement
one_value q card =
    if str_eq q "DELETE FROM issues WHERE idCard = ?"
    then some (delete_issue card)
    else some (clear_contractor card)

abbrev read_sql : String → List Text → Option Statement
read_sql q (a ∷ b ∷ c ∷ d ∷ e ∷ []) = some (assign_contractor a b c d e)
read_sql q (a ∷ b ∷ []) = some (update_list a b)
read_sql q (a ∷ []) = one_value q a
read_sql q _ = none

abbrev apply : Option Statement → Option Row → Option Row
apply none db = db
apply (some st) db = effect st (row db) key

abbrev table : Database
table = record {
  Db = Option Row;
  exec = λ q vs db. (apply (read_sql q vs) db, true);
  select = row;
  cards = λ db. elim db [ none ↦ [] | some r ↦ key ∷ [] ];
}

on_other :
    (card c : Text) (g : Row → Option Row) (db : Option Row)
    → text_eq c key ≡ false
    → none ≡ on card g (row db) c
on_other card c g db h = elim (Bool-cases (text_eq c card)) [
  | inl e ↦ rw (e, h) refl
  | inr e ↦ rw (e, h) refl
]

own : (c : Text) (db : Option Row) → text_eq c key ≡ true → row db c ≡ db
own c db e = rw e refl

other : (c : Text) (db : Option Row) → text_eq c key ≡ false → row db c ≡ none
other c db e = rw e refl

-- A statement on one card does to the table what it does to its only issue.
on_row :
    (card c : Text) (g : Row → Option Row) (db : Option Row)
    → row (on card g (row db) key) c ≡ on card g (row db) c
on_row card c g db = elim (Bool-cases (text_eq c key)) [
  | inl e ↦
      own c (on card g (row db) key) e ∙ ap (on card g (row db)) (sym ((text_eq_iff c key).0 e))
  | inr e ↦ other c (on card g (row db) key) e ∙ on_other card c g db e
]

applied :
    (st : Statement) (db : Option Row) (c : Text)
    → row (apply (read_sql (sql st) (bound_values st)) db) c ≡ effect st (row db) c
unfolding sql bound_values effect
applied (assign_contractor list link id name card) db c = on_row card c _ db
applied (clear_contractor card) db c = on_row card c _ db
applied (update_list list card) db c = on_row card c _ db
applied (delete_issue card) db c = on_row card c _ db
applied commit db c = refl

cards_row : (db : Option Row) (c : Text) → (mem c (table.cards db) ≡ false) ↔ (row db c ≡ none)
cards_row none c = (λ h. ground arith, λ h. refl)
cards_row (some r) c = ground arith

cards-IsUnique : (db : Option Row) → IsUnique (table.cards db)
cards-IsUnique none = tt
cards-IsUnique (some r) = (refl, tt)

abbrev table_IsTable : IsTable table
table_IsTable = record {
  row = row;
  exec_row = applied;
  select_row = λ db c. refl;
  cards_row = cards_row;
  cards_unique = cards-IsUnique;
}

-- Contractor 5 has the list "L", in which the board shows every card.
abbrev sample_contractor : Contractor
sample_contractor = record {
  id = pos 5;
  name = b'n' ∷ [];
  link = b'l' ∷ [];
  trello_list = b'L' ∷ [];
}

abbrev sample_world : World
sample_world = record {
  distribution_list = b'D' ∷ [];
  rework_list = b'R' ∷ [];
  support_tg_id = [];
  script_path_listchecker = [];
  v_contractors = sample_contractor ∷ [];
  v_staff = [];
  api = sample_api;
  qt = sample_qt;
  boost = sample_boost;
  net = ok_transfer;
  to_ulong = λ s. pos 0;
  throws = λ out e. none;
}

abbrev pending_row : Row
pending_row = record {
  id_card_list = b'D' ∷ [];
  card_status = utf8 "pending";
  contractor_list = [];
  contractor_link = [];
  contractor_id = [];
  contractor_name = [];
  theme = [];
  consumer_id = [];
  consumer_name = [];
  consumer_link = [];
}

abbrev before : Checker table
before = record { db = some pending_row; v_id_cards = []; v_cards_to_delete = []; out = [] }

board_reads : (card : Text) → card_on_board sample_world card ≢ none
unfolding card_on_board
board_reads card h = ground arith

check_the_list_refines_example :
    Leads {D = table}
      (Unit {0})
      (λ _. Swept table table_IsTable sample_world (some pending_row))
      (check_the_list sample_world 0 [] before)
check_the_list_refines_example =
    check_the_list_refines table table_IsTable sample_world (λ st db. refl) before 0 [] refl

-- A script that prints a number.
abbrev sample_machine : Machine
sample_machine = record {
  output = utf8 " 19.60 Mb";
  stof = λ s. some (pos 19);
  entries = [];
  throws = λ s. false;
}

abbrev sample_ticks : List Tick
sample_ticks = check_timer 60000 [] ∷ stop_check false ∷ bg_timer sample_machine 0 ∷ []

main_settles_example :
    Leads {D = table} ⊥
      (λ a t.
        (a ≡ behind sample_ticks) × Swept table table_IsTable sample_world (some pending_row) t)
      (main sample_world 0 [] sample_machine sample_ticks before)
unfolding get_mem_size
main_settles_example =
    main_settles table table_IsTable sample_world (λ st db. refl) (λ out e. refl) board_reads before
      0 [] sample_machine sample_ticks refl (λ h. ground arith)
      (tt, (tt, ((λ h. ground arith), tt)))

-- The pending issue is given to the contractor.
given :
    passed sample_world key pending_row
    ≡ some (
        underway
          (b'L' ∷ [])
          (b'l' ∷ [])
          (b'5' ∷ [])
          (b'n' ∷ [])
          (record pending_row { id_card_list = b'L' ∷ [] }))
unfolding card_on_board text_eq utf8 find_contractor itoa
given = refl
