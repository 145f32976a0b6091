-- ===== src/Jira/Body.antt =====
-- What a reader of JSON makes of the body of a new task (src/jiraapi.cpp).
use tgbot_with_rest.Prelude.{[], ◌∷◌, ◌++◌, ◌≡◌, refl, sym, ap, ◌∙◌, List, some, append-nil}
use tgbot_with_rest.Text.{Text, utf8}
use tgbot_with_rest.Structures.{NewTask}
use tgbot_with_rest.Escape.RoundTrip.{plain, next, unescape, unescape_from}
use tgbot_with_rest.Json.{
  Token, tokens, tokens_from, turn, outside, within, str, mark, Reading, Reading-append,
  part-Reading, then_tokens, then_token,
}
use tgbot_with_rest.Jira.{
  task_body, to_project, to_summary, to_second, to_section, to_link, to_description, to_name,
  to_telegram, to_close,
}

to_project-Reading : Reading outside to_project (within [] plain) (
    mark b'{'
    ∷ str (utf8 "fields")
    ∷ mark b':'
    ∷ mark b'{'
    ∷ str (utf8 "project")
    ∷ mark b':'
    ∷ mark b'{'
    ∷ str (utf8 "key")
    ∷ mark b':'
    ∷ [])
unfolding tokens_from turn next utf8
to_project-Reading = record { read = λ rest. refl }

to_summary-Reading :
    (acc : Text)
    → Reading (within acc plain) to_summary (within [] plain) (
        str acc
        ∷ mark b'}'
        ∷ mark b','
        ∷ str (utf8 "issuetype")
        ∷ mark b':'
        ∷ mark b'{'
        ∷ str (utf8 "name")
        ∷ mark b':'
        ∷ str (utf8 "Задача")
        ∷ mark b'}'
        ∷ mark b','
        ∷ str (utf8 "summary")
        ∷ mark b':'
        ∷ [])
unfolding tokens_from turn next utf8
to_summary-Reading acc = record { read = λ rest. refl }

to_second-Reading :
    (acc : Text) → Reading (within acc plain) to_second (within (acc ++ utf8 "; Проект: ") plain) []
unfolding unescape_from next utf8
to_second-Reading acc = part-Reading acc to_second (utf8 "; Проект: ") refl

to_section-Reading :
    (acc : Text)
    → Reading
        (within acc plain)
        to_section
        (within (utf8 "Секция:") plain)
        (str acc ∷ mark b',' ∷ str (utf8 "labels") ∷ mark b':' ∷ mark b'[' ∷ [])
unfolding tokens_from turn next utf8
to_section-Reading acc = record { read = λ rest. refl }

to_link-Reading :
    (acc : Text)
    → Reading
        (within acc plain)
        to_link
        (within (utf8 "https://t.me/") plain)
        (str acc ∷ mark b',' ∷ [])
unfolding tokens_from turn next utf8
to_link-Reading acc = record { read = λ rest. refl }

to_description-Reading :
    (acc : Text)
    → Reading
        (within acc plain)
        to_description
        (within [] plain)
        (str acc ∷ mark b']' ∷ mark b',' ∷ str (utf8 "description") ∷ mark b':' ∷ [])
unfolding tokens_from turn next utf8
to_description-Reading acc = record { read = λ rest. refl }

-- The signature, as it is read.
abbrev pub regards : Text
regards = utf8 "\n\n--   \nC уважением,\n"

abbrev pub telegram : Text
telegram = utf8 "\nTelegram: https://t.me/"

to_name-Reading :
    (acc : Text) → Reading (within acc plain) to_name (within (acc ++ regards) plain) []
unfolding unescape_from next utf8
to_name-Reading acc = part-Reading acc to_name regards refl

to_telegram-Reading :
    (acc : Text) → Reading (within acc plain) to_telegram (within (acc ++ telegram) plain) []
unfolding unescape_from next utf8
to_telegram-Reading acc = part-Reading acc to_telegram telegram refl

to_close-Reading :
    (acc : Text)
    → Reading (within acc plain) to_close outside (str acc ∷ mark b'}' ∷ mark b'}' ∷ [])
unfolding tokens_from turn next utf8
to_close-Reading acc = record { read = λ rest. refl }

field-Reading :
    (acc f t : Text)
    → unescape f ≡ some t
    → Reading (within acc plain) f (within (acc ++ t) plain) []
unfolding unescape
field-Reading acc f t h = part-Reading acc f t h

then_tokens_end : (ts : List Token) → then_tokens ts (some []) ≡ some ts
then_tokens_end [] = refl
then_tokens_end (a ∷ ts) = ap (then_token a) (then_tokens_end ts)

tokens-Reading : (t : Text) (ts : List Token) → Reading outside t outside ts → tokens t ≡ some ts
unfolding tokens tokens_from
tokens-Reading t ts h =
    ap (tokens_from outside) (sym (append-nil t)) ∙ (h.read [] ∙ then_tokens_end ts)

-- Where the texts that a task is made of are read by a JSON reader as one string each, the service
-- reads the body of the new task as one object with exactly the fields of Jira: no text ends its
-- field, and the summary, the labels and the description are put together of the texts as they were.
pub task_body-tokens :
    (project_name s_subj s_project : Text) (t : NewTask) (key subj project section link : Text)
    (description name : Text)
    → unescape project_name ≡ some key
    → unescape s_subj ≡ some subj
    → unescape s_project ≡ some project
    → unescape t.section ≡ some section
    → unescape t.consumer_tg_username_link ≡ some link
    → unescape t.description ≡ some description
    → unescape t.consumer_name ≡ some name
    → tokens (task_body project_name s_subj s_project t)
      ≡ some (
          mark b'{'
          ∷ str (utf8 "fields")
          ∷ mark b':'
          ∷ mark b'{'
          ∷ str (utf8 "project")
          ∷ mark b':'
          ∷ mark b'{'
          ∷ str (utf8 "key")
          ∷ mark b':'
          ∷ str key
          ∷ mark b'}'
          ∷ mark b','
          ∷ str (utf8 "issuetype")
          ∷ mark b':'
          ∷ mark b'{'
          ∷ str (utf8 "name")
          ∷ mark b':'
          ∷ str (utf8 "Задача")
          ∷ mark b'}'
          ∷ mark b','
          ∷ str (utf8 "summary")
          ∷ mark b':'
          ∷ str (subj ++ utf8 "; Проект: " ++ project)
          ∷ mark b','
          ∷ str (utf8 "labels")
          ∷ mark b':'
          ∷ mark b'['
          ∷ str (utf8 "Секция:" ++ section)
          ∷ mark b','
          ∷ str (utf8 "https://t.me/" ++ link)
          ∷ mark b']'
          ∷ mark b','
          ∷ str (utf8 "description")
          ∷ mark b':'
          ∷ str (description ++ regards ++ name ++ telegram ++ link)
          ∷ mark b'}'
          ∷ mark b'}'
          ∷ [])
unfolding task_body
task_body-tokens project_name s_subj s_project t key subj project section link description name hk
      hs hp hc hl hd hn =
    tokens-Reading _ _ (
      Reading-append to_project-Reading (
        Reading-append (field-Reading [] project_name key hk) (
          Reading-append (to_summary-Reading key) (
            Reading-append (field-Reading [] s_subj subj hs) (
              Reading-append (to_second-Reading subj) (
                Reading-append (field-Reading _ s_project project hp) (
                  Reading-append (to_section-Reading _) (
                    Reading-append (field-Reading _ t.section section hc) (
                      Reading-append (to_link-Reading _) (
                        Reading-append (field-Reading _ t.consumer_tg_username_link link hl) (
                          Reading-append (to_description-Reading _) (
                            Reading-append (field-Reading [] t.description description hd) (
                              Reading-append (to_name-Reading description) (
                                Reading-append (field-Reading _ t.consumer_name name hn) (
                                  Reading-append (to_telegram-Reading _) (
                                    Reading-append
                                      (field-Reading _ t.consumer_tg_username_link link hl)
                                      (to_close-Reading _)))))))))))))))))
