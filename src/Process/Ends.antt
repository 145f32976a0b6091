-- ===== src/Process/Ends.antt =====
-- The process of src/main.cpp can always end, without waiting for the monitor's four hours.
use tgbot_with_rest.Prelude.{
  is_empty, ℕ, zero, suc, true, false, List, [], ◌∷◌, ◌≡◌, refl, ◌∙◌, ◌<◌, none, inl, inr, arith,
  Bool-cases,
}
use tgbot_with_rest.Process.{
  Task, Main, starting, at_test, at_swap, in_batch, polling, backing_off, stopping, locking,
  unlocking, notifying, join_listener, join_monitor, joined, Listener, opening, serving, closed,
  State, MainStep, start_loop, leave_loop, swap_tasks, run_task, batch_done, last_batch_done,
  poll_returns, back_off_stops, request_stop, lock_mutex, unlock_mutex, notify_all, listener_joined,
  monitor_joined, MonitorStep, enter, post_worker, test_stops, test_waits, wait, wake,
  timeout_stops, timeout_repeats, leave, Server, ListenerStep, no_secret, cannot_listen, quit,
  main_moves, monitor_moves, listener_moves, signal, Reach,
}
use tgbot_with_rest.Process.Wakeup.{
  monitor_holds, rank, Inv, Step-Inv, Reach-Inv, MonitorStep-rank, monitor_can_move,
}

-- Steps of the threads, and signals, but no timeout of the monitor, lead to `u`.
pub data Soon (c : Server) (u : State) : State → Type 0 where
  here : Soon c u u
  main_next : {s t : State} → MainStep s t → Soon c u t → Soon c u s
  monitor_next : {s t : State} → MonitorStep s t → Soon c u t → Soon c u s
  listener_next : {s t : State} → ListenerStep c s t → Soon c u t → Soon c u s
  signal_next : {s : State} → Soon c u (record s { stop_requested = true }) → Soon c u s

-- The threads have ended and are joined.
abbrev pub CanEnd : Server → State → Type 0
CanEnd c s = (u : State) × Soon c u s × (u.main ≡ joined)

MonitorStep-main : {s t : State} → MonitorStep s t → t.main ≡ s.main
MonitorStep-main (enter e f) = refl
MonitorStep-main (post_worker e) = refl
MonitorStep-main (test_stops e f) = refl
MonitorStep-main (test_waits e f) = refl
MonitorStep-main (wait e) = refl
MonitorStep-main (wake e f) = refl
MonitorStep-main (timeout_stops e f) = refl
MonitorStep-main (timeout_repeats e f) = refl
MonitorStep-main (leave e) = refl

module _ (c : Server) where
  main_ends : {s t : State} → MainStep s t → Inv s → (Inv t → CanEnd c t) → CanEnd c s
  main_ends {s} m inv k =
      let (u, r, e) = k (Step-Inv {c = c} (main_moves m) inv) in (u, main_next m r, e)

  monitor_goes : {s t : State} → MonitorStep s t → Inv s → (Inv t → CanEnd c t) → CanEnd c s
  monitor_goes m inv k =
      let (u, r, e) = k (Step-Inv {c = c} (monitor_moves m) inv) in (u, monitor_next m r, e)

  listener_ends : {s t : State} → ListenerStep c s t → Inv s → (Inv t → CanEnd c t) → CanEnd c s
  listener_ends m inv k =
      let (u, r, e) = k (Step-Inv {c = c} (listener_moves m) inv) in (u, listener_next m r, e)

  -- The fuel is the rank of the monitor.
  from_join_monitor :
      (n : ℕ) (s : State) → rank s.monitor < n → s.main ≡ join_monitor → Inv s → CanEnd c s
  from_join_monitor zero s lt e inv = elim lt [ ]
  from_join_monitor (suc n) s lt e inv =
      elim (monitor_can_move s s.monitor refl inv (rw e refl) (inv.requested (rw e refl))
        (λ w. ground arith)) [
          | inl ended ↦ main_ends (monitor_joined e ended) inv (λ _. (_, here, refl))
          | inr (t, m) ↦
              let less = MonitorStep-rank m (inv.requested (rw e refl)) in
              monitor_goes m inv (from_join_monitor n t (omega arith) (MonitorStep-main m ∙ e))
        ]

  from_joinable : (s : State) → s.main ≡ join_listener → s.listener ≡ closed → Inv s → CanEnd c s
  from_joinable s e l inv =
      main_ends (listener_joined e l) inv
        (from_join_monitor (suc (rank s.monitor)) _ (omega arith) refl)

  from_join_listener :
      (s : State) (l : Listener) → s.listener ≡ l → s.main ≡ join_listener → Inv s → CanEnd c s
  from_join_listener s opening l e inv = elim (Bool-cases (is_empty c.webhook_secret)) [
    | inl h ↦ listener_ends (no_secret l h) inv (from_joinable _ e refl)
    | inr h ↦ listener_ends (cannot_listen l h) inv (from_joinable _ e refl)
  ]
  from_join_listener s serving l e inv =
      listener_ends (quit l (inv.requested (rw e refl))) inv (from_joinable _ e refl)
  from_join_listener s closed l e inv = from_joinable s e l inv

  from_free : (s : State) → s.main ≡ locking → s.stop_mutex ≡ none → Inv s → CanEnd c s
  from_free s e f inv = main_ends (lock_mutex e f) inv λ i.
      main_ends (unlock_mutex refl) i
        λ j. main_ends (notify_all refl) j (from_join_listener _ s.listener refl refl)

  from_locking : (n : ℕ) (s : State) → rank s.monitor < n → s.main ≡ locking → Inv s → CanEnd c s
  from_locking zero s lt e inv = elim lt [ ]
  from_locking (suc n) s lt e inv = elim (Bool-cases (monitor_holds s.monitor)) [
    | inl h ↦
        elim (monitor_can_move s s.monitor refl inv (rw e refl) (inv.requested (rw e refl))
          (λ w. ground arith)) [
            | inl ended ↦ absurd (ground arith)
            | inr (t, m) ↦
                let less = MonitorStep-rank m (inv.requested (rw e refl)) in
                monitor_goes m inv (from_locking n t (omega arith) (MonitorStep-main m ∙ e))
          ]
    | inr h ↦ from_free s e (ground arith) inv
  ]

  from_stopping : (s : State) → s.main ≡ stopping → Inv s → CanEnd c s
  from_stopping s e inv =
      main_ends (request_stop e) inv (from_locking (suc (rank s.monitor)) _ (omega arith) refl)

  from_last_batch : (ts : List Task) (s : State) → s.main ≡ in_batch true ts → Inv s → CanEnd c s
  from_last_batch [] s e inv = main_ends (last_batch_done e) inv (from_stopping _ refl)
  from_last_batch (t ∷ ts) s e inv = main_ends (run_task e) inv (from_last_batch ts _ refl)

  from_last_swap : (s : State) → s.main ≡ at_swap true → Inv s → CanEnd c s
  from_last_swap s e inv = main_ends (swap_tasks e) inv (from_last_batch s.m_tasks _ refl)

  from_test : (s : State) → s.main ≡ at_test → s.stop_requested ≡ true → Inv s → CanEnd c s
  from_test s e q inv = main_ends (leave_loop e q) inv (from_last_swap _ refl)

  from_polling : (s : State) → s.main ≡ polling → s.stop_requested ≡ true → Inv s → CanEnd c s
  from_polling s e q inv = main_ends (poll_returns e) inv (from_test _ refl q)

  from_batch :
      (ts : List Task) (s : State)
      → s.main ≡ in_batch false ts
      → s.stop_requested ≡ true
      → Inv s
      → CanEnd c s
  from_batch [] s e q inv = main_ends (batch_done e) inv (from_polling _ refl q)
  from_batch (t ∷ ts) s e q inv = main_ends (run_task e) inv (from_batch ts _ refl q)

  from : (p : Main) (s : State) → s.main ≡ p → s.stop_requested ≡ true → Inv s → CanEnd c s
  from starting s e q inv = main_ends (start_loop e) inv (from_test _ refl q)
  from at_test s e q inv = from_test s e q inv
  from (at_swap true) s e q inv = from_last_swap s e inv
  from (at_swap false) s e q inv = main_ends (swap_tasks e) inv (from_batch s.m_tasks _ refl q)
  from (in_batch true ts) s e q inv = from_last_batch ts s e inv
  from (in_batch false ts) s e q inv = from_batch ts s e q inv
  from polling s e q inv = from_polling s e q inv
  from (backing_off n) s e q inv = main_ends (back_off_stops e q) inv (from_test _ refl q)
  from stopping s e q inv = from_stopping s e inv
  from locking s e q inv = from_locking (suc (rank s.monitor)) s (omega arith) e inv
  from unlocking s e q inv =
      main_ends (unlock_mutex e) inv
        λ i. main_ends (notify_all refl) i (from_join_listener _ s.listener refl refl)
  from notifying s e q inv =
      main_ends (notify_all e) inv (from_join_listener _ s.listener refl refl)
  from join_listener s e q inv = from_join_listener s s.listener refl e inv
  from join_monitor s e q inv = from_join_monitor (suc (rank s.monitor)) s (omega arith) e inv
  from joined s e q inv = (s, here, e)

  -- From every state that the three threads can get into, a signal followed by steps of theirs, none of
  -- them a timeout or a wake-up for no reason, leads to the end of the process with both threads
  -- joined: no interleaving leads into a deadlock, or to an end that has to wait for the clock.
  pub process-CanEnd : (s : State) → Reach c s → CanEnd c s
  process-CanEnd s r =
      let inv = Reach-Inv r in
      let (t, soon, e) =
        from s.main (record s { stop_requested = true }) refl refl (Step-Inv {c = c} signal inv) in
      (t, signal_next soon, e)
