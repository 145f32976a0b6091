-- ===== src/Trello/Codes.antt =====
-- What the updates of a card in src/trelloapi.cpp return.
use tgbot_with_rest.Prelude.{
  ℕ, true, false, Option, none, some, ◌≡◌, refl, ◌≢◌, ◌↔◌, inl, inr, arith, Option-cases, ◌==◌,
  ◌++◌, Bool-cases,
}
use mathlib.Core.Option
use tgbot_with_rest.Text.{Text, utf8}
use tgbot_with_rest.Json.{Boost}
use tgbot_with_rest.Bot.World.{Qt}
use tgbot_with_rest.Http.{
  Transfer, Reply, Accepted, curle_ok, is_refused, is_refused-Accepted, curle_ok, c_str,
  status_code,
}
use tgbot_with_rest.Trello.GetCard.{get_card, get_card_request, read_card, card_of_reply}
use tgbot_with_rest.Trello.{
  string_at, bool_at, Api, update_request, update_code, change_card_color, archiving_card,
  TrelloResult, value, error, request_invalid, JiraCard, not_found_404,
}

-- The service took the request, and its answer is JSON.
abbrev pub IsUpdated : Boost → Option Reply → Type 0
IsUpdated boost none = ⊥
IsUpdated boost (some r) = Accepted r × (v : boost.Value) × (boost.parse (c_str r.answer) ≡ some v)

parsed :
    (boost : Boost) (r : Reply)
    → elim (boost.parse (c_str r.answer)) as (λ x. ℕ) [ none ↦ 3 | some v ↦ 0 ] ≡ 0
    → (v : boost.Value) × (boost.parse (c_str r.answer) ≡ some v)
parsed boost r h = elim (Option-cases (boost.parse (c_str r.answer))) [
  | inl e ↦ ground arith
  | inr s ↦ s
]

pub update_code-IsUpdated :
    (boost : Boost) (reply : Option Reply) → (update_code boost reply ≡ 0) ↔ IsUpdated boost reply
unfolding update_code
update_code-IsUpdated boost none = (λ h. ground arith, λ u. elim u [ ])
update_code-IsUpdated boost (some r) = (
  λ h. elim (Bool-cases (is_refused r)) [
    | inl e ↦ ground arith
    | inr e ↦ let (v, p) = parsed boost r (ground arith) in ((is_refused-Accepted r).0 e, v, p)
  ],
  λ (a, v, e). rw ((is_refused-Accepted r).1 a, e) refl,
)

-- A change of colour, and an archiving, return 0 exactly if curl had a handle and no error, the
-- status is one of success, and the answer is JSON; each makes one request, of its own body, and
-- else returns 1, 2 or 3.
pub updates_lem :
    (api : Api) (boost : Boost) (transfer : Transfer) (card_id color : Text)
    → ((change_card_color api boost transfer card_id color ≡ 0)
        ↔ IsUpdated boost (
            transfer (
              update_request api card_id (
                utf8 "\" ,\"cover\": {\"color\": \""
                ++ color
                ++ utf8 "\", \"size\": \"full\", \"brightness\": \"light\" } } "))))
      × ((archiving_card api boost transfer card_id ≡ 0)
          ↔ IsUpdated boost
              (transfer (update_request api card_id (utf8 "\" , \"closed\": \"true\" } "))))
unfolding change_card_color archiving_card
updates_lem api boost transfer card_id color =
    (update_code-IsUpdated boost _, update_code-IsUpdated boost _)

status_code_lem :
    (r : Reply) → ((status_code r == 404) ≡ true) ↔ ((r.curl_code ≡ curle_ok) × (r.status ≡ 404))
unfolding status_code
status_code_lem r = ground arith

refused_missing : (r : Reply) → (status_code r == 404) ≡ true → is_refused r ≡ true
unfolding is_refused
refused_missing r h = ground arith

module _ (qt : Qt) (boost : Boost) (card_id : Text) where
  -- The part behind the tests of the status.
  abbrev read_answer : Text → Option (TrelloResult JiraCard)
  read_answer t = elim (boost.parse t) [
    | none ↦ some (error request_invalid)
    | some v ↦ Option.map value (read_card qt boost card_id v)
  ]

  read_answer-value :
      (t : Text) (card : JiraCard)
      → (read_answer t ≡ some (value card)) ↔ (
          (v : boost.Value) × (boost.parse t ≡ some v) × (read_card qt boost card_id v ≡ some card))
  read_answer-value t card = elim (Option-cases (boost.parse t)) [
    | inl e ↦ (λ h. ground arith, λ (v, p, q). ground arith)
    | inr (v, e) ↦ elim (Option-cases (read_card qt boost card_id v)) [
      | inl f ↦ (λ h. ground arith, λ (w, p, q). ground arith)
      | inr (c, f) ↦ (λ h. (v, e, ground arith), λ (w, p, q). ground arith)
    ]
  ]

  read_answer_found : (t : Text) → read_answer t ≢ some (error not_found_404)
  read_answer_found t h = elim (Option-cases (boost.parse t)) [
    | inl e ↦ ground arith
    | inr (v, e) ↦ elim (Option-cases (read_card qt boost card_id v)) [
      | inl f ↦ ground arith
      | inr (c, f) ↦ ground arith
    ]
  ]

  card_of_reply_missing :
      (r : Reply)
      → (card_of_reply qt boost card_id r ≡ some (error not_found_404))
        ↔ ((status_code r == 404) ≡ true)
  unfolding card_of_reply
  card_of_reply_missing r = elim (Bool-cases (status_code r == 404)) [
    | inl e ↦ rw e (λ _. refl, λ _. refl)
    | inr n ↦ rw n (elim (Bool-cases (is_refused r)) [
      | inl e ↦ rw e (λ h. ground arith, λ h. ground arith)
      | inr m ↦ rw m (λ h. elim (read_answer_found (c_str r.answer) h) [ ], λ h. ground arith)
    ])
  ]

  card_of_reply_found :
      (r : Reply) (card : JiraCard)
      → (card_of_reply qt boost card_id r ≡ some (value card))
        ↔ ((is_refused r ≡ false) × (read_answer (c_str r.answer) ≡ some (value card)))
  unfolding card_of_reply
  card_of_reply_found r card = elim (Bool-cases (status_code r == 404)) [
    | inl e ↦ let m = refused_missing r e in rw (e, m) (λ h. ground arith, λ h. ground arith)
    | inr n ↦ rw n (elim (Bool-cases (is_refused r)) [
      | inl e ↦ rw e (λ h. ground arith, λ h. ground arith)
      | inr m ↦ rw m (λ h. (refl, h), λ h. h.1)
    ])
  ]

-- A card is reported as missing exactly if curl had no error and the status is 404; and it is
-- returned exactly if the request was accepted and the card could be read from an answer in JSON.
-- In every other case the result is another error, or an exception.
pub get_card_lem :
    (api : Api) (qt : Qt) (boost : Boost) (transfer : Transfer) (card_id : Text) (r : Reply)
    → transfer (get_card_request api card_id) ≡ some r
    → ((get_card api qt boost transfer card_id ≡ some (error not_found_404))
        ↔ ((r.curl_code ≡ curle_ok) × (r.status ≡ 404)))
      × ((card : JiraCard)
          → (get_card api qt boost transfer card_id ≡ some (value card)) ↔ (
              Accepted r
              × (v : boost.Value) × (boost.parse (c_str r.answer) ≡ some v)
              × (read_card qt boost card_id v ≡ some card)))
unfolding get_card
get_card_lem api qt boost transfer card_id r h =
    rw (get_card, h)
      (
        (
          λ e. (status_code_lem r).0 ((card_of_reply_missing qt boost card_id r).0 e),
          λ p. (card_of_reply_missing qt boost card_id r).1 ((status_code_lem r).1 p),
        ),
        λ card. (
          λ e.
              let (a, b) = (card_of_reply_found qt boost card_id r card).0 e in
              let (v, p, q) = (read_answer-value qt boost card_id (c_str r.answer) card).0 b in
              ((is_refused-Accepted r).0 a, v, p, q),
          λ (a, v, p, q). (card_of_reply_found qt boost card_id r card).1 (
            (is_refused-Accepted r).1 a,
            (read_answer-value qt boost card_id (c_str r.answer) card).1 (v, p, q),
          ),
        ),
      )

read_card-id :
    (qt : Qt) (boost : Boost) (card_id : Text) (v : boost.Value) (card : JiraCard)
    → read_card qt boost card_id v ≡ some card
    → card.id ≡ card_id
unfolding read_card
read_card-id qt boost card_id v card h = elim (Option-cases (bool_at boost v (utf8 "closed"))) [
  | inl e ↦ ground arith
  | inr (b, e) ↦ elim (Option-cases (string_at boost v (utf8 "idList"))) [
    | inl f ↦ ground arith
    | inr (l, f) ↦ ground arith
  ]
]

-- A card that is returned has the id that was asked for.
pub get_card-id :
    (api : Api) (qt : Qt) (boost : Boost) (transfer : Transfer) (card_id : Text) (card : JiraCard)
    → get_card api qt boost transfer card_id ≡ some (value card)
    → card.id ≡ card_id
unfolding get_card
get_card-id api qt boost transfer card_id card h =
    elim (Option-cases (transfer (get_card_request api card_id))) [
      | inl e ↦ ground arith
      | inr (r, e) ↦
          let (a, v, p, q) = ((get_card_lem api qt boost transfer card_id r e).1 card).0 h in
          read_card-id qt boost card_id v card q
    ]
