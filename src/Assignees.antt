-- ===== src/Assignees.antt =====
-- `remember_assignee` of src/jiraapi.h: who has had a letter about which issue. The map is an
-- association list.
use tgbot_with_rest.Prelude.{
  ℕ, ◌+◌, Bool, true, false, not, ◌&&◌, List, [], ◌∷◌, Option, none, some, leb, ◌≡◌, refl, ap,
  if◌then◌else◌, is_empty, map, Bool-cases, inl, inr, arith,
}
use tgbot_with_rest.Text.{Text, text_eq, text_eq_iff}

abbrev pub Notified : Type 0
Notified = List (Text × Text)

-- `std::tolower` in the "C" locale.
abbrev pub tolower : ℕ → ℕ
tolower c = if leb b'A' c && leb c b'Z' then c + 32 else c

unfoldable pub email_of : Text → Notified → Option Text
unfolding text_eq
email_of k [] = none
email_of k ((j, e) ∷ m) = if text_eq j k then some e else email_of k m

unfoldable pub erase : Text → Notified → Notified
unfolding text_eq
erase k [] = []
erase k ((j, e) ∷ m) = if text_eq j k then erase k m else (j, e) ∷ erase k m

-- `try_emplace`, and the write through its iterator.
unfoldable pub set_email : Text → Text → Notified → Notified
unfolding text_eq
set_email k x [] = (k, x) ∷ []
set_email k x ((j, e) ∷ m) = if text_eq j k then (j, x) ∷ m else (j, e) ∷ set_email k x m

abbrev pub is_email : Text → Option Text → Bool
is_email x none = false
is_email x (some e) = text_eq e x

unfoldable pub remember_assignee : Notified → Text → Text → Bool × Notified
unfolding erase set_email email_of text_eq
remember_assignee notified issue_key email =
    let lower = map tolower email in
    if is_empty lower
    then (false, erase issue_key notified)
    else if is_email lower (email_of issue_key notified)
    then (false, notified)
    else (true, set_email issue_key lower notified)

email_of-erase :
    (k j : Text) (m : Notified)
    → email_of j (erase k m) ≡ (if text_eq k j then none else email_of j m)
unfolding email_of erase
email_of-erase k j [] = ground arith
email_of-erase k j ((i, e) ∷ m) =
    ground (arith, text_eq_iff k j, text_eq_iff i k, text_eq_iff i j, email_of-erase k j m)

pub email_of-set_email :
    (k j x : Text) (m : Notified)
    → email_of j (set_email k x m) ≡ (if text_eq k j then some x else email_of j m)
unfolding email_of set_email
email_of-set_email k j x [] = ground arith
email_of-set_email k j x ((i, e) ∷ m) =
    ground (arith, text_eq_iff k j, text_eq_iff i k, text_eq_iff i j, email_of-set_email k j x m)

is_email-some : (x : Text) (o : Option Text) → is_email x o ≡ true → o ≡ some x
is_email-some x none h = absurd (ground arith)
is_email-some x (some e) h = ap some ((text_eq_iff e x).0 h)

remembered :
    (k j x : Text) (m : Notified)
    → email_of k m ≡ some x
    → email_of j m ≡ (if text_eq k j then some x else email_of j m)
remembered k j x m h = elim (Bool-cases (text_eq k j)) [
  | inl e ↦ rw e (rw ((text_eq_iff k j).0 e) at h)
  | inr e ↦ rw e
]

-- A letter is due exactly if there is an assignee, and the one remembered for the issue is none or
-- another one (in lower case). Afterwards the issue's assignee is remembered, or nobody, if there is
-- none; for the other issues nothing changes.
pub remember_assignee_lem :
    (m : Notified) (k j email : Text)
    → let (due, m') = remember_assignee m k email in
      let lower = map tolower email in
      (due ≡ (not (is_empty lower) && not (is_email lower (email_of k m))))
      × (email_of j m'
          ≡ (if text_eq k j then if is_empty lower then none else some lower else email_of j m))
unfolding remember_assignee
remember_assignee_lem m k j email = elim (Bool-cases (is_empty (map tolower email))) [
  | inl e ↦ rw e (refl, email_of-erase k j m)
  | inr e ↦ elim (Bool-cases (is_email (map tolower email) (email_of k m))) [
    | inl f ↦ rw (e, f) (refl, remembered k j (map tolower email) m (is_email-some _ _ f))
    | inr f ↦ rw (e, f) (refl, email_of-set_email k j (map tolower email) m)
  ]
]
