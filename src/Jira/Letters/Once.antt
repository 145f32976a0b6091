-- ===== src/Jira/Letters/Once.antt =====
-- One letter to one assignee (src/jiraapi.cpp).
use tgbot_with_rest.Prelude.{
  ℕ, true, false, [], ◌∷◌, Option, ◌≡◌, refl, sym, ap, ◌∙◌, ◌⊎◌, Bool-cases, Option-cases, inl, inr,
  map, is_empty, ltb,
}
use tgbot_with_rest.Text.{Text, text_eq, text_eq_iff}
use tgbot_with_rest.Assignees.{
  Notified, remember_assignee, is_email, email_of, erase, set_email, tolower, email_of-set_email,
}
use tgbot_with_rest.Http.{Reply, Transfer, is_refused, status_code}
use tgbot_with_rest.Jira.{Jira}
use tgbot_with_rest.Jira.Letters.{Mail, info_request, tell_assignee, informed, get_task_info}

erase_again : (k : Text) (m : Notified) → erase k (erase k m) ≡ erase k m
unfolding erase
erase_again k [] = refl
erase_again k ((j, e) ∷ m) = elim (Bool-cases (text_eq j k)) [
  | inl q ↦ rw (erase, q) (erase_again k m)
  | inr q ↦ rw (erase, q) (rw (erase, q) (ap (λ t. (j, e) ∷ t) (erase_again k m)))
]

remembers : (k x : Text) (m : Notified) → is_email x (email_of k (set_email k x m)) ≡ true
remembers k x m =
    let same = (text_eq_iff k k).1 refl in
    rw (email_of-set_email k k x m, same) ((text_eq_iff x x).1 refl)

remember_again :
    (m : Notified) (k email : Text)
    → let m' = (remember_assignee m k email).1 in remember_assignee m' k email ≡ (false, m')
unfolding remember_assignee
remember_again m k email = elim (Bool-cases (is_empty (map tolower email))) [
  | inl e ↦ rw e (ap (λ t. (false, t)) (erase_again k m))
  | inr e ↦ elim (Bool-cases (is_email (map tolower email) (email_of k m))) [
    | inl f ↦ rw (e, f) (rw f refl)
    | inr f ↦ rw (e, f, remembers k (map tolower email) m) refl
  ]
]

tell_again :
    (jira : Jira) (issue_key email : Text) (mail : Mail)
    → tell_assignee jira issue_key email (tell_assignee jira issue_key email mail)
      ≡ tell_assignee jira issue_key email mail
unfolding tell_assignee
tell_again jira issue_key email mail = rw (remember_again mail.notified issue_key email) refl

-- What a reply makes of the mail: nothing, with some code, or what an assignee is to be told.
abbrev Does : Jira → Text → (Mail → ℕ × Mail) → Type 0
Does jira issue_key f =
    ((code : ℕ) × ((mail : Mail) → f mail ≡ (code, mail)))
    ⊎ ((email : Text) × ((mail : Mail) → f mail ≡ (0, tell_assignee jira issue_key email mail)))

informed-Does :
    (jira : Jira) (assignee_email : Text → Option Text) (issue_key : Text) (r : Reply)
    → Does jira issue_key (informed jira assignee_email issue_key r)
unfolding informed
informed-Does jira assignee_email issue_key r = elim (Bool-cases (is_refused r)) [
  | inl f ↦ inl (2, λ mail. rw (informed, f) refl)
  | inr f ↦ elim (Bool-cases (ltb 300 (status_code r))) [
    | inl g ↦ inl (4, λ mail. rw (informed, f, g) refl)
    | inr g ↦ elim (Option-cases (assignee_email r.answer)) [
      | inl h ↦ inl (0, λ mail. rw (informed, f, g, h) refl)
      | inr (email, h) ↦ inr (email, λ mail. rw (informed, f, g, h) refl)
    ]
  ]
]

moved :
    (jira : Jira) (issue_key : Text) (f g : Mail → ℕ × Mail)
    → ((mail : Mail) → g mail ≡ f mail)
    → Does jira issue_key f
    → Does jira issue_key g
moved jira issue_key f g h (inl (c, e)) = inl (c, λ mail. h mail ∙ e mail)
moved jira issue_key f g h (inr (c, e)) = inr (c, λ mail. h mail ∙ e mail)

get_task_info-Does :
    (jira : Jira) (assignee_email : Text → Option Text) (transfer : Transfer) (issue_key : Text)
    → Does jira issue_key (get_task_info jira assignee_email transfer issue_key)
unfolding get_task_info
get_task_info-Does jira assignee_email transfer issue_key =
    elim (Option-cases (transfer (info_request jira issue_key))) [
      | inl e ↦ inl (0, λ mail. rw (get_task_info, e) refl)
      | inr (r, e) ↦
          moved jira issue_key (informed jira assignee_email issue_key r)
            (get_task_info jira assignee_email transfer issue_key)
            (λ mail. rw (get_task_info, e) refl) (informed-Does jira assignee_email issue_key r)
    ]

done_again :
    (jira : Jira) (issue_key : Text) (f : Mail → ℕ × Mail) (mail : Mail)
    → Does jira issue_key f
    → f (f mail).1 ≡ f mail
done_again jira issue_key f mail (inl (c, e)) =
    e ((f mail).1) ∙ (ap (λ m. (c, m.1)) (e mail) ∙ sym (e mail))
done_again jira issue_key f mail (inr (email, e)) =
    e ((f mail).1)
    ∙ (ap (λ m. (0, tell_assignee jira issue_key email m.1)) (e mail)
        ∙ (ap (λ m. (0, m)) (tell_again jira issue_key email mail) ∙ sym (e mail)))

-- Two calls for the same issue with the same reply send no more letters than one, and remember the
-- same, whatever the reply is.
pub get_task_info_again :
    (jira : Jira) (assignee_email : Text → Option Text) (transfer : Transfer) (issue_key : Text)
    (mail : Mail)
    → let once = get_task_info jira assignee_email transfer issue_key mail in
      get_task_info jira assignee_email transfer issue_key once.1 ≡ once
get_task_info_again jira assignee_email transfer issue_key mail =
    done_again jira issue_key (get_task_info jira assignee_email transfer issue_key) mail
      (get_task_info-Does jira assignee_email transfer issue_key)
