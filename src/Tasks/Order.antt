-- ===== src/Tasks/Order.antt =====
-- The order in which tasks run.
use tgbot_with_rest.Prelude.{
  ℕ, true, false, List, [], ◌∷◌, ◌++◌, length, ◌≡◌, refl, sym, ap, ◌∙◌, arith, inl, inr,
  append_assoc, append-nil, Bool-cases,
}
use tgbot_with_rest.Tasks.{Effect, Queue, run_tasks, run_pending}

module _ {S T : Type 0} where
  -- The tasks that a run of `ts` posts, one after another.
  abbrev pub posts : (T → S → Effect S T) → List T → S → List T
  posts exec [] s = []
  posts exec (t ∷ ts) s = (exec t s).posted ++ posts exec ts (exec t s).state

  -- In every state of a run the journal names the tasks run so far.
  abbrev pub Journals : (S → List T) → (T → S → Effect S T) → Type 0
  Journals journal exec = (t : T) (s : S) → journal (exec t s).state ≡ journal s ++ t ∷ []

  run_tasks_done :
      (journal : S → List T) (exec : T → S → Effect S T) (n : ℕ) (ts : List T) (q : Queue S T)
      → Journals journal exec
      → (run_tasks exec n ts q).threw ≡ false
      → (journal (run_tasks exec n ts q).queue.state ≡ journal q.state ++ ts)
        × ((run_tasks exec n ts q).queue.m_tasks ≡ q.m_tasks ++ posts exec ts q.state)
        × ((run_tasks exec n ts q).count ≡ n)
  unfolding run_tasks
  run_tasks_done journal exec n [] q j h = (sym (append-nil _), sym (append-nil _), refl)
  run_tasks_done journal exec n (t ∷ ts) q j h = elim (Bool-cases (exec t q.state).threw) [
    | inl e ↦ absurd (ground arith)
    | inr e ↦
        let q' : Queue S T = record {
          state = (exec t q.state).state;
          m_tasks = q.m_tasks ++ (exec t q.state).posted;
        } in
        let ih = run_tasks_done journal exec n ts q' j (rw (e, run_tasks) at h) in
        rw (e, run_tasks)
          (
            ih.0 ∙ ap (λ l. l ++ ts) (j t q.state) ∙ append_assoc (journal q.state) (t ∷ []) ts,
            ih.1
                ∙ append_assoc q.m_tasks (exec t q.state).posted
                    (posts exec ts (exec t q.state).state),
            ih.2,
          )
  ]

  run_tasks_threw :
      (journal : S → List T) (exec : T → S → Effect S T) (n : ℕ) (ts : List T) (q : Queue S T)
      → Journals journal exec
      → (run_tasks exec n ts q).threw ≡ true
      → (ran : List T) × (t : T) × (lost : List T) × (ts ≡ ran ++ t ∷ lost)
        × (journal (run_tasks exec n ts q).queue.state ≡ journal q.state ++ ran ++ t ∷ [])
        × ((run_tasks exec n ts q).queue.m_tasks ≡ q.m_tasks ++ posts exec (ran ++ t ∷ []) q.state)
  unfolding run_tasks
  run_tasks_threw journal exec n [] q j h = absurd (ground arith)
  run_tasks_threw journal exec n (t ∷ ts) q j h = elim (Bool-cases (exec t q.state).threw) [
    | inl e ↦ (
      [],
      t,
      ts,
      refl,
      rw (e, run_tasks) (j t q.state ∙ sym (ap (λ l. l ++ t ∷ []) (append-nil (journal q.state)))),
      rw (e, run_tasks) (ap (λ l. q.m_tasks ++ l) (sym (append-nil (exec t q.state).posted))),
    )
    | inr e ↦
        let q' : Queue S T = record {
          state = (exec t q.state).state;
          m_tasks = q.m_tasks ++ (exec t q.state).posted;
        } in
        let (ran, u, lost, split, marks, queued) =
          run_tasks_threw journal exec n ts q' j (rw (e, run_tasks) at h) in
        (
          t ∷ ran,
          u,
          lost,
          ap (◌∷◌ t) split,
          rw (e, run_tasks) (marks ∙ simp (j t q.state, append_assoc)),
          rw (e, run_tasks)
              (queued
                ∙ append_assoc q.m_tasks (exec t q.state).posted
                    (posts exec (ran ++ u ∷ []) (exec t q.state).state)),
        )
  ]

  -- When no task throws, one call of `run_pending` runs exactly the tasks that were waiting, each
  -- once and in the order of their posting, returns their number, and leaves waiting exactly the
  -- tasks that were posted meanwhile, in order: these run at the next call. (`journal` is any
  -- record of the tasks run that the state keeps.)
  pub run_pending_fifo :
      (journal : S → List T) (exec : T → S → Effect S T) (q : Queue S T)
      → Journals journal exec
      → (run_pending exec q).threw ≡ false
      → (journal (run_pending exec q).queue.state ≡ journal q.state ++ q.m_tasks)
        × ((run_pending exec q).queue.m_tasks ≡ posts exec q.m_tasks q.state)
        × ((run_pending exec q).count ≡ length q.m_tasks)
  unfolding run_pending
  run_pending_fifo journal exec q j h =
      run_tasks_done journal exec (length q.m_tasks) q.m_tasks (record q { m_tasks = [] }) j h

  -- When a task throws, the tasks behind it in that batch are lost: they have not run, and the queue
  -- holds only what was posted by the tasks that did run.
  pub run_pending_loses :
      (journal : S → List T) (exec : T → S → Effect S T) (q : Queue S T)
      → Journals journal exec
      → (run_pending exec q).threw ≡ true
      → (ran : List T) × (t : T) × (lost : List T) × (q.m_tasks ≡ ran ++ t ∷ lost)
        × (journal (run_pending exec q).queue.state ≡ journal q.state ++ ran ++ t ∷ [])
        × ((run_pending exec q).queue.m_tasks ≡ posts exec (ran ++ t ∷ []) q.state)
  unfolding run_pending
  run_pending_loses journal exec q j h =
      run_tasks_threw journal exec (length q.m_tasks) q.m_tasks (record q { m_tasks = [] }) j h
