-- ===== src/Worker/Restarts.antt =====
-- When the report starts the list checker again (src/chanserv.cpp, src/support.cpp).
use tgbot_with_rest.Prelude.{
  ℕ, true, false, List, [], ◌∷◌, ◌++◌, none, some, ℤ, negsuc, is_empty, ◌≡◌, ◌≢◌, refl, ap, ◌∙◌,
  All, ◌⊎◌, inl, inr, ◌↔◌, arith, Bool-cases, Option-cases,
}
use tgbot_with_rest.Text.{Text, utf8, text_eq_iff}
use tgbot_with_rest.Worker.{
  ProcEntry, atoi, is_positive, first_line, program, is_process, get_proc_id_by_name, Desk, Machine,
  get_mem_size, report, restart_list_checker_in_qterminal, check_listchecker, qt_bg_worker,
}

-- A process of the name: a number in `/proc` whose command has it as its program.
abbrev pub IsProcess : Text → ProcEntry → Type 0
IsProcess proc_name e =
    (is_positive (atoi e.d_name) ≡ true) × (first_line e.cmdline ≢ []) × (program e ≡ proc_name)

is_empty-false : {s : Text} → s ≢ [] → is_empty s ≡ false
is_empty-false {s = []} h = absurd (h refl)
is_empty-false {s = c ∷ s} h = refl

is_process-IsProcess :
    (proc_name : Text) (e : ProcEntry) → (is_process proc_name e ≡ true) ↔ IsProcess proc_name e
unfolding is_process
is_process-IsProcess proc_name e = (
  λ h. (ground arith, λ q. ground arith, ground (arith, text_eq_iff proc_name (program e))),
  λ (p, n, q). ground (arith, text_eq_iff proc_name (program e), is_empty-false n),
)

-- The first process of the name, with the entries around it.
abbrev pub First : Text → List ProcEntry → ℤ → Type 0
First proc_name entries id =
    (front : List ProcEntry) × (e : ProcEntry) × (rest : List ProcEntry) × (entries
      ≡ front ++ e ∷ rest)
    × All (λ d. ¬ IsProcess proc_name d) front
    × IsProcess proc_name e
    × (id ≡ atoi e.d_name)

get_proc_id_by_name_lem :
    (proc_name : Text) (entries : List ProcEntry)
    → ((get_proc_id_by_name proc_name entries ≡ negsuc 0)
        × All (λ e. ¬ IsProcess proc_name e) entries)
      ⊎ First proc_name entries (get_proc_id_by_name proc_name entries)
unfolding get_proc_id_by_name
get_proc_id_by_name_lem proc_name [] = inl (refl, tt)
get_proc_id_by_name_lem proc_name (e ∷ entries) = elim (Bool-cases (is_process proc_name e)) [
  | inl h ↦ inr (
    [],
    e,
    entries,
    refl,
    tt,
    (is_process-IsProcess proc_name e).0 h,
    rw (h, get_proc_id_by_name) refl,
  )
  | inr h ↦
      let other : ¬ IsProcess proc_name e =
        (λ q. let t = (is_process-IsProcess proc_name e).1 q in ground arith) in
      elim (get_proc_id_by_name_lem proc_name entries) [
        | inl (r, missing) ↦ inl (rw (h, get_proc_id_by_name) r, (other, missing))
        | inr (front, f, rest, split, missing, found, id) ↦ inr (
          e ∷ front,
          f,
          rest,
          ap (◌∷◌ e) split,
          (other, missing),
          found,
          rw (h, get_proc_id_by_name) id,
        )
      ]
]

check_listchecker_lem :
    (m : Machine) (start_path : Text) (d : Desk)
    → ((check_listchecker m start_path d ≡ restart_list_checker_in_qterminal start_path d)
        × All (λ e. ¬ IsProcess (utf8 "listchecker") e) m.entries)
      ⊎ ((check_listchecker m start_path d ≡ d)
          × First
              (utf8 "listchecker")
              m.entries
              (get_proc_id_by_name (utf8 "listchecker") m.entries))
unfolding check_listchecker
check_listchecker_lem m start_path d =
    elim (get_proc_id_by_name_lem (utf8 "listchecker") m.entries) [
      | inl (r, missing) ↦ inl (rw (r, check_listchecker) refl, missing)
      | inr (front, e, rest, split, missing, found, id) ↦ inr (
        rw (id ∙ refl, check_listchecker) (rw found.0 refl),
        (front, e, rest, split, missing, found, id),
      )
    ]

-- The report is sent once, and then the list checker is stopped and started exactly if no entry of
-- `/proc` is a process of its name; otherwise there is a first such entry. If what the script prints
-- is no number, or if the message throws, the task ends in an exception, and starts nothing, whether
-- the list checker runs or not.
pub qt_bg_worker_lem :
    (m : Machine) (start_path : Text) (elapsed : ℕ) (d : Desk)
    → let r = qt_bg_worker m start_path elapsed d in
      ((get_mem_size m ≡ none) × (r.threw ≡ true) × (r.state ≡ d))
      ⊎ ((n : ℤ) × (get_mem_size m ≡ some n)
          × (r.state.sent ≡ d.sent ++ report n elapsed ∷ [])
          × (((r.threw ≡ true)
                × (m.throws (report n elapsed) ≡ true)
                × (r.state.started ≡ d.started))
              ⊎ ((r.threw ≡ false)
                  × All (λ e. ¬ IsProcess (utf8 "listchecker") e) m.entries
                  × (r.state.started
                      ≡ d.started
                        ++ (utf8 "pkill", utf8 "listchecker" ∷ [])
                          ∷ (utf8 "qterminal", utf8 "-e" ∷ start_path ∷ [])
                          ∷ []))
              ⊎ ((r.threw ≡ false)
                  × First
                      (utf8 "listchecker")
                      m.entries
                      (get_proc_id_by_name (utf8 "listchecker") m.entries)
                  × (r.state.started ≡ d.started))))
unfolding qt_bg_worker restart_list_checker_in_qterminal
qt_bg_worker_lem m start_path elapsed d = elim (Option-cases (get_mem_size m)) [
  | inl e ↦ inl (e, rw (e, qt_bg_worker) refl, rw (e, qt_bg_worker) refl)
  | inr (n, e) ↦ elim (Bool-cases (m.throws (report n elapsed))) [
    | inl t ↦ inr (
      n,
      e,
      rw (e, qt_bg_worker) (rw t refl),
      inl (rw (e, qt_bg_worker) (rw t refl), t, rw (e, qt_bg_worker) (rw t refl)),
    )
    | inr t ↦
        elim (check_listchecker_lem m start_path
          (record d { sent = d.sent ++ report n elapsed ∷ [] })) [
            | inl (c, missing) ↦ inr (
              n,
              e,
              rw (e, qt_bg_worker) (rw (t, c) refl),
              inr (
                  inl (
                    rw (e, qt_bg_worker) (rw t refl),
                    missing,
                    rw (e, qt_bg_worker) (rw (t, c) refl),
                  )),
            )
            | inr (c, found) ↦ inr (
              n,
              e,
              rw (e, qt_bg_worker) (rw (t, c) refl),
              inr (
                  inr (
                    rw (e, qt_bg_worker) (rw t refl),
                    found,
                    rw (e, qt_bg_worker) (rw (t, c) refl),
                  )),
            )
          ]
  ]
]
