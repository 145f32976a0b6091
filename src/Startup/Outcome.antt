-- ===== src/Startup/Outcome.antt =====
-- When the process serves, and what it does otherwise (src/main.cpp, src/chanserv.cpp).
use mathlib.Core.Option
use tgbot_with_rest.Prelude.{
  ℕ, ◌+◌, List, [], ◌∷◌, ◌++◌, none, some, ℤ, length, ◌≡◌, refl, sym, ap, ◌∙◌, ◌↔◌, ◌⊎◌, inl, inr,
  append_assoc, arith, Option-cases, none-some,
}
use tgbot_with_rest.Text.{Text, utf8, text_eq}
use tgbot_with_rest.Settings.{pg_settings, opened, chan_conf}
use tgbot_with_rest.Startup.{
  Host, initialize_db, sent_line, all_sent, go_on, resume, drive, service_notification, Services,
  heading, exits, serves, failed, with_args, main,
}

-- One line for each row, numbered from one on.
abbrev pub numbered : (Text → ℤ) → Text → ℕ → List (Text × Text) → List Text
numbered to_int msg i [] = []
numbered to_int msg i (row ∷ rows) =
    sent_line to_int msg (i + 1) row ∷ numbered to_int msg (i + 1) rows

drive_all :
    (to_int : Text → ℤ) (msg : Text) (rows : List (Text × Text)) (i : ℕ) (out : List Text)
    → drive to_int (length rows) msg (go_on i rows out)
      ≡ some (out ++ (numbered to_int msg i rows ++ all_sent ∷ []))
unfolding drive resume go_on
drive_all to_int msg [] i out = refl
drive_all to_int msg (row ∷ rows) i out =
    drive_all to_int msg rows (i + 1) (out ++ sent_line to_int msg (i + 1) row ∷ [])
    ∙ ap some (append_assoc out (sent_line to_int msg (i + 1) row ∷ []) _)

-- Both databases open.
abbrev pub Opens : Host → Type 0
Opens h = (h.outside.open_error (pg_settings h.outside) ≡ none) × (initialize_db h ≡ none)

abbrev pub Serves : Host → List Text → Type 0
Serves h args = (s : Services) × (main h args ≡ serves s)

main_opened :
    (h : Host) (args : List Text) → Opens h → main h args ≡ with_args h (opened h.outside) args
unfolding main chan_conf
main_opened h args (a, b) = rw (a, main, chan_conf) (rw b refl)

main_refused :
    (h : Host) (args : List Text)
    → Opens h ⊎ ((¬ Opens h) × ((err : Text) × (main h args ≡ failed err)))
unfolding main chan_conf
main_refused h args = elim (Option-cases (h.outside.open_error (pg_settings h.outside))) [
  | inr (err, e) ↦
      inr (λ o. none-some (sym o.0 ∙ e), (utf8 "PostgreSQL: " ++ err, rw (e, main, chan_conf) refl))
  | inl a ↦ elim (Option-cases (initialize_db h)) [
    | inr (err, e) ↦ inr (λ o. none-some (sym o.1 ∙ e), (err, rw (a, main, chan_conf) (rw e refl)))
    | inl b ↦ inl (a, b)
  ]
]

with_args_serves :
    (h : Host) (args : List Text) (s : Services)
    → with_args h (opened h.outside) args ≡ serves s
    → args ≡ []
unfolding with_args
with_args_serves h [] s e = refl
with_args_serves h (a ∷ []) s e = cc
with_args_serves h (a ∷ msg ∷ rest) s e = ground arith

-- If both databases open, the process goes on to its threads exactly if there are no arguments: a
-- configuration file that cannot be parsed does not keep it from that; and with the argument `notify`
-- and a message, it prints a heading, one line for each consumer, in order and numbered from one, with
-- the id that Qt makes of the text in its row, and a line behind them, and ends with the code 0. If a
-- database does not open, it ends with the code 1.
pub main_lem :
    (h : Host) (args : List Text) (msg : Text) (rest : List Text)
    → (Opens h
        × (Serves h args ↔ (args ≡ []))
        × (main h (utf8 "notify" ∷ msg ∷ rest)
            ≡ exits 0 (some (heading msg ∷ numbered h.to_int msg 0 h.consumers ++ all_sent ∷ []))))
      ⊎ ((¬ Opens h) × ((err : Text) × (main h args ≡ failed err)))
unfolding with_args service_notification text_eq utf8
main_lem h args msg rest = elim (main_refused h args) [
  | inl o ↦ inl (
    o,
    (
      λ (s, e). with_args_serves h args s (sym (main_opened h args o) ∙ e),
      λ e. (_, main_opened h args o ∙ ap (with_args h (opened h.outside)) e),
    ),
    main_opened h _ o
        ∙ ap (λ o. exits 0 (Option.map (λ out. heading msg ∷ out) o))
            (drive_all h.to_int msg h.consumers 0 []),
  )
  | inr refused ↦ inr refused
]
