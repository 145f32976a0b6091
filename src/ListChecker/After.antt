-- ===== src/ListChecker/After.antt =====
-- The table after a pass, issue by issue.
use tgbot_with_rest.Prelude.{
  Bool, true, false, not, ◌&&◌, List, [], ◌∷◌, ◌++◌, Option, none, some, if◌then◌else◌, ◌≡◌, refl,
  sym, ap, ◌∙◌, Bool-cases, inl, inr, keep_if,
}
use tgbot_with_rest.Text.{Text, text_eq, text_eq_iff}
use tgbot_with_rest.Trello.{
  TrelloResult, value, error, no_error, unknown, request_failed, request_invalid, not_found_404,
  JiraCard,
}
use tgbot_with_rest.ListChecker.Table.{Row, on, bind, mem, IsUnique}
use tgbot_with_rest.ListChecker.Monad.{World}
use tgbot_with_rest.ListChecker.Pass.{card_on_board, real_cards}
use tgbot_with_rest.ListChecker.Row.{passed, set_row}
use tgbot_with_rest.ListChecker.OneCard.{stepped, is_closed_card, if_closed, bind-none}

-- The issues after the first loop, and the cards that it found closed.
abbrev pub after_cards : World → List Text → (Text → Option Row) → Text → Option Row
after_cards w [] f = f
after_cards w (c ∷ cs) f = after_cards w cs (set_row c (bind (f c) (stepped w c)) f)

abbrev pub closed_cards : World → List Text → List Text
closed_cards w [] = []
closed_cards w (c ∷ cs) = if_closed c (card_on_board w c) ++ closed_cards w cs

abbrev pub deleted : List Text → (Text → Option Row) → Text → Option Row
deleted [] f = f
deleted (c ∷ cs) f = deleted cs (on c (λ r. none) f)

mem_same : (c d : Text) (cs : List Text) → text_eq c d ≡ true → mem d cs ≡ false → mem c cs ≡ false
mem_same c d cs e h = let q : c ≡ d = (text_eq_iff c d).0 e in rw q h

after_cards_row :
    (w : World) (cs : List Text) (f : Text → Option Row) (c : Text)
    → IsUnique cs
    → after_cards w cs f c ≡ (if mem c cs then bind (f c) (stepped w c) else f c)
after_cards_row w [] f c u = refl
after_cards_row w (d ∷ cs) f c u =
    let ih = after_cards_row w cs (set_row d (bind (f d) (stepped w d)) f) c u.1 in
    elim (Bool-cases (text_eq c d)) [
      | inl e ↦
          let q : c ≡ d = (text_eq_iff c d).0 e in ih ∙ rw (e, mem_same c d cs e u.0) (rw q refl)
      | inr e ↦ ih ∙ rw e refl
    ]

deleted_row :
    (ds : List Text) (f : Text → Option Row) (c : Text)
    → deleted ds f c ≡ (if mem c ds then none else f c)
deleted_row [] f c = refl
deleted_row (d ∷ ds) f c = elim (Bool-cases (text_eq c d)) [
  | inl e ↦
      deleted_row ds (on d (λ r. none) f) c
      ∙ rw (e, bind-none (f c))
          (elim (Bool-cases (mem c ds)) [ inl m ↦ rw m refl | inr m ↦ rw m refl ])
  | inr e ↦ deleted_row ds (on d (λ r. none) f) c ∙ rw e refl
]

pub and_false : (b : Bool) → (b && false) ≡ false
and_false true = refl
and_false false = refl

closed_cards-mem :
    (w : World) (cs : List Text) (c : Text)
    → mem c (closed_cards w cs) ≡ (mem c cs && is_closed_card w c)
closed_cards-mem w [] c = refl
closed_cards-mem w (d ∷ cs) c =
    let ih = closed_cards-mem w cs c in
    elim (Bool-cases (is_closed_card w d)) [
      | inl k ↦ elim (Bool-cases (text_eq c d)) [
        | inl e ↦ let q : c ≡ d = (text_eq_iff c d).0 e in rw (k, e) (rw q (sym k))
        | inr e ↦ rw (k, e) ih
      ]
      | inr k ↦ elim (Bool-cases (text_eq c d)) [
        | inl e ↦
            let q : c ≡ d = (text_eq_iff c d).0 e in
            let k' : is_closed_card w c ≡ false = rw q k in
            rw (k, e, k') (ih ∙ rw k' (and_false (mem c cs)))
        | inr e ↦ rw (k, e) ih
      ]
    ]

passed_answer :
    (w : World) (c : Text) (r : Row) (a : Option (TrelloResult JiraCard))
    → card_on_board w c ≡ a
    → passed w c r ≡ (if is_closed_card w c then none else stepped w c r)
passed_answer w c r none e = rw e refl
passed_answer w c r (some (value k)) e = rw e refl
passed_answer w c r (some (error not_found_404)) e = rw e refl
passed_answer w c r (some (error no_error)) e = rw e refl
passed_answer w c r (some (error unknown)) e = rw e refl
passed_answer w c r (some (error request_failed)) e = rw e refl
passed_answer w c r (some (error request_invalid)) e = rw e refl

passed_by :
    (w : World) (c : Text) (o : Option Row)
    → bind o (passed w c) ≡ (if is_closed_card w c then none else bind o (stepped w c))
passed_by w c (some r) = passed_answer w c r (card_on_board w c) refl
passed_by w c none = elim (Bool-cases (is_closed_card w c)) [
  | inl e ↦ rw e refl
  | inr e ↦ rw e refl
]

kept :
    (p : Text → Bool) (d : Text) (cs : List Text)
    → p d ≡ true
    → keep_if p (d ∷ cs) ≡ d ∷ keep_if p cs
kept p d cs k = rw (keep_if, k) refl

dropped :
    (p : Text → Bool) (d : Text) (cs : List Text) → p d ≡ false → keep_if p (d ∷ cs) ≡ keep_if p cs
dropped p d cs k = rw (keep_if, k) refl

keep_if-mem :
    (p : Text → Bool) (cs : List Text) (c : Text) → mem c (keep_if p cs) ≡ (mem c cs && p c)
keep_if-mem p [] c = refl
keep_if-mem p (d ∷ cs) c =
    let ih = keep_if-mem p cs c in
    let moved : text_eq c d ≡ true → p c ≡ p d = λ e. ap p ((text_eq_iff c d).0 e) in
    elim (Bool-cases (p d)) [
      | inl k ↦
          rw (kept p d cs k)
            (elim (Bool-cases (text_eq c d)) [ inl e ↦ rw e (sym (moved e ∙ k)) | inr e ↦ rw e ih ])
      | inr k ↦ rw (dropped p d cs k) (elim (Bool-cases (text_eq c d)) [
        | inl e ↦ let k' = moved e ∙ k in rw (e, k') (ih ∙ rw k' (and_false (mem c cs)))
        | inr e ↦ rw e ih
      ])
    ]

keep_if-IsUnique : (p : Text → Bool) (cs : List Text) → IsUnique cs → IsUnique (keep_if p cs)
keep_if-IsUnique p [] u = u
keep_if-IsUnique p (d ∷ cs) u = elim (Bool-cases (p d)) [
  | inl k ↦ rw (kept p d cs k) (keep_if-mem p cs d ∙ rw u.0 refl, keep_if-IsUnique p cs u.1)
  | inr k ↦ rw (dropped p d cs k) (keep_if-IsUnique p cs u.1)
]

-- Every issue but those of the card "1" is what it is to be, where the cards are those of the table.
pub swept_row :
    (w : World) (cards : List Text) (f : Text → Option Row) (c : Text)
    → IsUnique cards
    → (mem c cards ≡ false → f c ≡ none)
    → deleted (closed_cards w (real_cards cards)) (after_cards w (real_cards cards) f) c
      ≡ (if text_eq c (b'1' ∷ []) then f c else bind (f c) (passed w c))
swept_row w cards f c u h =
    let rest = real_cards cards in
    deleted_row (closed_cards w rest) (after_cards w rest f) c
    ∙ rw
        (
          closed_cards-mem w rest c,
          after_cards_row w rest f c (keep_if-IsUnique _ cards u),
          keep_if-mem (λ c. not (text_eq c (b'1' ∷ []))) cards c,
          passed_by w c (f c),
        )
        (elim (Bool-cases (mem c cards)) [
          | inr m ↦
              rw (m, h m)
                (elim (Bool-cases (text_eq c (b'1' ∷ []))) [
                  | inl e ↦ rw e refl
                  | inr e ↦ rw e (elim (Bool-cases (is_closed_card w c)) [
                    | inl k ↦ rw k refl
                    | inr k ↦ rw k refl
                  ])
                ])
          | inl m ↦
              rw m (elim (Bool-cases (text_eq c (b'1' ∷ []))) [
                | inl e ↦ rw e refl
                | inr e ↦ rw e refl
              ])
        ])
