-- ===== src/Process.antt =====
-- The three threads of src/main.cpp behind the start: the main thread with the loop of `bot_start`
-- (src/chanserv.cpp), the monitor and the webhook server, over the queue of src/task_queue.h, the flag of
-- src/support.h, and the mutex and condition variable of `main`. A step is one access to what they
-- share; the steps of the threads interleave in any order.
pub mod Order
pub mod Wakeup
pub mod Ends
use tgbot_with_rest.Prelude.{
  ℕ, suc, Bool, true, false, List, [], ◌∷◌, ◌++◌, Option, none, some, ◌≡◌, is_empty,
}
use tgbot_with_rest.Text.{Text}
use tgbot_with_rest.Webhook.{webhook_token_valid}

-- What the lambdas given to `post_task` do.
pub data Task : Type 0 where
  qt_bg_worker : Task
  jira_webhooks_handler : (path : Text) → Task

-- Where the main thread stands. A batch holds the tasks of a run of `run_pending` that have not begun;
-- it is the last run behind the loop.
pub data Main : Type 0 where
  starting : Main  -- in `bot_start`, before the loop
  at_test : Main  -- `while (!stop_requested())`
  at_swap : (last : Bool) → Main  -- `run_pending`, before it takes the tasks
  in_batch : (last : Bool) → List Task → Main
  polling : Main  -- `long_poll.start()`
  backing_off : (left : ℕ) → Main  -- the pause behind an error of the poll
  stopping : Main  -- before `request_stop()`
  locking : Main  -- before `lock_guard`
  unlocking : Main
  notifying : Main  -- before `notify_all()`
  join_listener : Main
  join_monitor : Main
  joined : Main

-- Where `monitor_mem_size_worker` stands. From `posting` to `going_to_wait` and in `timed_out` and
-- `leaving` it holds the mutex.
pub data Monitor : Type 0 where
  entering : Monitor  -- before `unique_lock`
  posting : Monitor
  testing : Monitor  -- the test of `wait_for` before it waits
  going_to_wait : Monitor
  waiting : Monitor
  woken : (timeout : Bool) → Monitor  -- before it has the mutex again
  timed_out : Monitor  -- the test of `wait_for` after a timeout
  leaving : Monitor
  ended : Monitor

-- Where `jira_listener` stands.
pub data Listener : Type 0 where
  opening : Listener
  serving : Listener
  closed : Listener

pub data Owner : Type 0 where
  by_main : Owner
  by_monitor : Owner

-- The last four fields are a history: the tasks that were posted, that were begun, that were taken from
-- the queue and not begun when `bot_start` was left, and the task whose exception left it.
pub record State : Type 0 where
  pub main : Main
  pub monitor : Monitor
  pub listener : Listener
  pub stop_requested : Bool
  pub stop_mutex : Option Owner
  pub m_tasks : List Task
  pub posted : List Task
  pub begun : List Task
  pub dropped : List Task
  pub thrown : Option Task

abbrev pub init : State
init = record {
  main = starting;
  monitor = entering;
  listener = opening;
  stop_requested = false;
  stop_mutex = none;
  m_tasks = [];
  posted = [];
  begun = [];
  dropped = [];
  thrown = none;
}

-- `post_task`, which locks the queue.
abbrev pub post_task : Task → State → State
post_task t s = record s { m_tasks = s.m_tasks ++ t ∷ []; posted = s.posted ++ t ∷ [] }

-- `notify_all()` wakes the monitor if it waits.
abbrev pub notified : Monitor → Monitor
notified waiting = woken false
notified m = m

-- The handler of a signal may run between any two steps. `poll_throws` is an exception that the loop
-- catches; `start_throws` and `task_throws` are exceptions that leave `bot_start`.
pub data MainStep (s : State) : State → Type 0 where
  start_loop : s.main ≡ starting → MainStep s (record s { main = at_test })
  start_throws : s.main ≡ starting → MainStep s (record s { main = stopping })
  go_on :
      s.main ≡ at_test → s.stop_requested ≡ false → MainStep s (record s { main = at_swap false })
  leave_loop :
      s.main ≡ at_test → s.stop_requested ≡ true → MainStep s (record s { main = at_swap true })
  swap_tasks :
      {last : Bool}
      → s.main ≡ at_swap last
      → MainStep s (record s { main = in_batch last s.m_tasks; m_tasks = [] })
  run_task :
      {last : Bool} {t : Task} {ts : List Task}
      → s.main ≡ in_batch last (t ∷ ts)
      → MainStep s (record s { main = in_batch last ts; begun = s.begun ++ t ∷ [] })
  task_throws :
      {last : Bool} {t : Task} {ts : List Task}
      → s.main ≡ in_batch last (t ∷ ts)
      → MainStep s
          (record s { main = stopping; begun = s.begun ++ t ∷ []; dropped = ts; thrown = some t })
  batch_done : s.main ≡ in_batch false [] → MainStep s (record s { main = polling })
  last_batch_done : s.main ≡ in_batch true [] → MainStep s (record s { main = stopping })
  poll_returns : s.main ≡ polling → MainStep s (record s { main = at_test })
  poll_throws : s.main ≡ polling → MainStep s (record s { main = backing_off 10 })
  back_off :
      {n : ℕ}
      → s.main ≡ backing_off (suc n)
      → s.stop_requested ≡ false
      → MainStep s (record s { main = backing_off n })
  backed_off : s.main ≡ backing_off 0 → MainStep s (record s { main = at_test })
  back_off_stops :
      {n : ℕ}
      → s.main ≡ backing_off n
      → s.stop_requested ≡ true
      → MainStep s (record s { main = at_test })
  request_stop : s.main ≡ stopping → MainStep s (record s { main = locking; stop_requested = true })
  lock_mutex :
      s.main ≡ locking
      → s.stop_mutex ≡ none
      → MainStep s (record s { main = unlocking; stop_mutex = some by_main })
  unlock_mutex : s.main ≡ unlocking → MainStep s (record s { main = notifying; stop_mutex = none })
  notify_all :
      s.main ≡ notifying
      → MainStep s (record s { main = join_listener; monitor = notified s.monitor })
  listener_joined :
      s.main ≡ join_listener → s.listener ≡ closed → MainStep s (record s { main = join_monitor })
  monitor_joined :
      s.main ≡ join_monitor → s.monitor ≡ ended → MainStep s (record s { main = joined })

-- `wait_for` with a predicate: it tests before it waits, when it is woken, and after a timeout.
pub data MonitorStep (s : State) : State → Type 0 where
  enter :
      s.monitor ≡ entering
      → s.stop_mutex ≡ none
      → MonitorStep s (record s { monitor = posting; stop_mutex = some by_monitor })
  post_worker :
      s.monitor ≡ posting → MonitorStep s (record (post_task qt_bg_worker s) { monitor = testing })
  test_stops :
      s.monitor ≡ testing → s.stop_requested ≡ true → MonitorStep s (record s { monitor = leaving })
  test_waits :
      s.monitor ≡ testing
      → s.stop_requested ≡ false
      → MonitorStep s (record s { monitor = going_to_wait })
  wait :
      s.monitor ≡ going_to_wait → MonitorStep s (record s { monitor = waiting; stop_mutex = none })
  wake :
      {timeout : Bool}
      → s.monitor ≡ woken timeout
      → s.stop_mutex ≡ none
      → MonitorStep s (record s {
        monitor = elim timeout [ true ↦ timed_out | false ↦ testing ];
        stop_mutex = some by_monitor;
      })
  timeout_stops :
      s.monitor ≡ timed_out
      → s.stop_requested ≡ true
      → MonitorStep s (record s { monitor = leaving })
  timeout_repeats :
      s.monitor ≡ timed_out
      → s.stop_requested ≡ false
      → MonitorStep s (record s { monitor = posting })
  leave : s.monitor ≡ leaving → MonitorStep s (record s { monitor = ended; stop_mutex = none })

-- Four hours pass, or the wait ends for no reason.
pub data WaitStep (s : State) : State → Type 0 where
  time_out : s.monitor ≡ waiting → WaitStep s (record s { monitor = woken true })
  spurious : s.monitor ≡ waiting → WaitStep s (record s { monitor = woken false })

-- What Qt finds in a URL, and the secret of the settings.
pub record Server : Type 0 where
  pub token : Text → Text
  pub path : Text → Text
  pub webhook_secret : Text

pub data ListenerStep (c : Server) (s : State) : State → Type 0 where
  no_secret :
      s.listener ≡ opening
      → is_empty c.webhook_secret ≡ true
      → ListenerStep c s (record s { listener = closed })
  cannot_listen :
      s.listener ≡ opening
      → is_empty c.webhook_secret ≡ false
      → ListenerStep c s (record s { listener = closed })
  listen :
      s.listener ≡ opening
      → is_empty c.webhook_secret ≡ false
      → ListenerStep c s (record s { listener = serving })
  trigger :
      (url : Text)
      → s.listener ≡ serving
      → webhook_token_valid c.token url c.webhook_secret ≡ true
      → ListenerStep c s (post_task (jira_webhooks_handler (c.path url)) s)
  quit :
      s.listener ≡ serving
      → s.stop_requested ≡ true
      → ListenerStep c s (record s { listener = closed })

pub data Step (c : Server) (s : State) : State → Type 0 where
  main_moves : {t : State} → MainStep s t → Step c s t
  monitor_moves : {t : State} → MonitorStep s t → Step c s t
  monitor_wakes : {t : State} → WaitStep s t → Step c s t
  listener_moves : {t : State} → ListenerStep c s t → Step c s t
  signal : Step c s (record s { stop_requested = true })

pub data Reach (c : Server) : State → Type 0 where
  start : Reach c init
  next : {s t : State} → Reach c s → Step c s t → Reach c t
