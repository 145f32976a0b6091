-- ===== src/ListChecker/Table.antt =====
-- The table `issues` as the list checker uses it, and the laws that it relies on.
use tgbot_with_rest.Prelude.{
  Bool, true, false, List, [], ◌∷◌, Option, none, some, String, if◌then◌else◌, ◌≡◌, ◌↔◌,
}
use tgbot_with_rest.Text.{Text, utf8, text_eq}

-- The columns of an issue that the statements here read or write, except its key `idCard`.
pub record Row : Type 0 where
  pub id_card_list : Text
  pub card_status : Text
  pub contractor_list : Text
  pub contractor_link : Text
  pub contractor_id : Text
  pub contractor_name : Text
  pub theme : Text
  pub consumer_id : Text
  pub consumer_name : Text
  pub consumer_link : Text

-- The statements that change the table, with the values that are bound to their question marks.
pub data Statement : Type 0 where
  assign_contractor : (list link id name card : Text) → Statement
  clear_contractor : (card : Text) → Statement
  update_list : (list card : Text) → Statement
  delete_issue : (card : Text) → Statement
  commit : Statement

unfoldable pub sql : Statement → String
sql (assign_contractor list link id name card) =
    "UPDATE issues SET card_status = 'underway', contractor_list = ?, contractor_link = ?, contractor_id = ?, contractor_name = ? WHERE idCard = ?"
sql (clear_contractor card) =
    "UPDATE issues SET card_status = 'pending', contractor_list = '', contractor_link = '', contractor_id = '', contractor_name = '' WHERE idCard = ?"
sql (update_list list card) = "UPDATE issues SET idCard_list = ? WHERE idCard = ?"
sql (delete_issue card) = "DELETE FROM issues WHERE idCard = ?"
sql commit = "COMMIT"

unfoldable pub bound_values : Statement → List Text
bound_values (assign_contractor list link id name card) = list ∷ link ∷ id ∷ name ∷ card ∷ []
bound_values (clear_contractor card) = card ∷ []
bound_values (update_list list card) = list ∷ card ∷ []
bound_values (delete_issue card) = card ∷ []
bound_values commit = []

-- The database: `exec` runs a statement with its values and says whether that succeeded; `select`
-- reads the first issue of a card, `none` without one or on an error; `cards` is
-- `SELECT idCard FROM issues`.
pub record Database : Type 1 where
  pub Db : Type 0
  pub exec : String → List Text → Db → Db × Bool
  pub select : Db → Text → Option Row
  pub cards : Db → List Text

-- What SQL says of a statement, for the issue of the card `c`.
abbrev pub underway : Text → Text → Text → Text → Row → Row
underway list link id name r = record r {
  card_status = utf8 "underway";
  contractor_list = list;
  contractor_link = link;
  contractor_id = id;
  contractor_name = name;
}

abbrev pub pending : Row → Row
pending r = record r {
  card_status = utf8 "pending";
  contractor_list = [];
  contractor_link = [];
  contractor_id = [];
  contractor_name = [];
}

abbrev pub in_list : Text → Row → Row
in_list list r = record r { id_card_list = list }

abbrev pub bind : Option Row → (Row → Option Row) → Option Row
bind none g = none
bind (some r) g = g r

-- A change of the issue of one card.
abbrev pub on : Text → (Row → Option Row) → (Text → Option Row) → Text → Option Row
on card g f c = if text_eq c card then bind (f c) g else f c

unfoldable pub effect : Statement → (Text → Option Row) → Text → Option Row
unfolding utf8 text_eq
effect (assign_contractor list link id name card) =
    on card (λ r. some (underway list link id name r))
effect (clear_contractor card) = on card (λ r. some (pending r))
effect (update_list list card) = on card (λ r. some (in_list list r))
effect (delete_issue card) = on card (λ r. none)
effect commit = λ f. f

abbrev pub mem : Text → List Text → Bool
mem c [] = false
mem c (d ∷ cs) = if text_eq c d then true else mem c cs

abbrev pub IsUnique : List Text → Type 0
IsUnique [] = Unit
IsUnique (c ∷ cs) = (mem c cs ≡ false) × IsUnique cs

-- The issues are keyed by their cards; a statement that succeeds does what SQL says of it, one that
-- fails does nothing; and the queries read the table.
pub record IsTable (D : Database) : Type 1 where
  pub row : D.Db → Text → Option Row
  pub exec_row :
      (s : Statement) (db : D.Db) (c : Text)
      → row (D.exec (sql s) (bound_values s) db).0 c
        ≡ (if (D.exec (sql s) (bound_values s) db).1 then effect s (row db) c else row db c)
  pub select_row : (db : D.Db) (c : Text) → D.select db c ≡ row db c
  pub cards_row : (db : D.Db) (c : Text) → (mem c (D.cards db) ≡ false) ↔ (row db c ≡ none)
  pub cards_unique : (db : D.Db) → IsUnique (D.cards db)
