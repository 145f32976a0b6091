-- ===== src/Tests/Threads.antt =====
-- Concrete inputs for the theorems on the threads of the process.
use tgbot_with_rest.Prelude.{
  true, false, List, none, some, [], ◌∷◌, ◌++◌, ◌≡◌, ◌≢◌, refl, All, ◌⊎◌, ◌≤◌, ◌<◌,
}
use tgbot_with_rest.Webhook.{webhook_token_valid}
use tgbot_with_rest.Process.{
  Task, State, Server, Reach, start, next, main_moves, monitor_moves, listener_moves, start_loop,
  go_on, swap_tasks, task_throws, request_stop, lock_mutex, unlock_mutex, notify_all, enter,
  post_worker, test_waits, wait, listen, trigger, waiting, ended, MonitorStep,
}
use tgbot_with_rest.Process.Order.{batch, in_bot_start, IsVouched, tasks_in_order}
use tgbot_with_rest.Process.Wakeup.{rank, monitor_ends}
use tgbot_with_rest.Process.Ends.{CanEnd, process-CanEnd}

abbrev sample_server : Server
sample_server = record { token = λ url. url; path = λ url. b'/' ∷ url; webhook_secret = b'k' ∷ [] }

-- The monitor posts its report and goes to sleep; a webhook comes; the report throws.
abbrev thrown_run : (s : State) × Reach sample_server s
unfolding webhook_token_valid
thrown_run = (
  _,
  next
      (next
        (next
          (next
            (next
              (next
                (next
                  (next
                    (next (next start (monitor_moves (enter refl refl)))
                      (monitor_moves (post_worker refl)))
                    (monitor_moves (test_waits refl refl)))
                  (monitor_moves (wait refl)))
                (listener_moves (listen refl refl)))
              (listener_moves (trigger (b'k' ∷ []) refl refl)))
            (main_moves (start_loop refl)))
          (main_moves (go_on refl refl)))
        (main_moves (swap_tasks refl)))
      (main_moves (task_throws refl)),
)

tasks_in_order_example :
    (thrown_run.0.posted
      ≡ thrown_run.0.begun
        ++ (thrown_run.0.dropped ++ (batch thrown_run.0.main ++ thrown_run.0.m_tasks)))
    × ((thrown_run.0.dropped ≡ [])
        ⊎ ((in_bot_start thrown_run.0.main ≡ false)
            × ((t : Task) × (before : List Task) × (thrown_run.0.thrown ≡ some t)
                × (thrown_run.0.begun ≡ before ++ t ∷ []))))
    × (in_bot_start thrown_run.0.main ≡ true → thrown_run.0.thrown ≡ none)
    × All (IsVouched sample_server) thrown_run.0.posted
tasks_in_order_example = tasks_in_order sample_server thrown_run.0 thrown_run.1

-- The main thread stops the others.
abbrev notified_run : (s : State) × Reach sample_server s
unfolding webhook_token_valid
notified_run = (
  _,
  next
      (next
        (next (next thrown_run.1 (main_moves (request_stop refl)))
          (main_moves (lock_mutex refl refl)))
        (main_moves (unlock_mutex refl)))
      (main_moves (notify_all refl)),
)

monitor_ends_example :
    (notified_run.0.monitor ≢ waiting)
    × (rank notified_run.0.monitor ≤ 4)
    × ((notified_run.0.monitor ≡ ended) ⊎ ((t : State) × MonitorStep notified_run.0 t))
    × ((t : State) → MonitorStep notified_run.0 t → rank t.monitor < rank notified_run.0.monitor)
unfolding notified_run thrown_run webhook_token_valid
monitor_ends_example = monitor_ends sample_server notified_run.0 notified_run.1 refl

process-CanEnd_example : CanEnd sample_server thrown_run.0
process-CanEnd_example = process-CanEnd sample_server thrown_run.0 thrown_run.1
