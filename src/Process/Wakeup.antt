-- ===== src/Process/Wakeup.antt =====
-- The mutex and the condition variable of src/main.cpp: the monitor does not sleep through the end.
use tgbot_with_rest.Prelude.{
  ℕ, Bool, true, false, ◌≡◌, ◌≢◌, refl, Option, none, some, ◌<◌, ◌≤◌, ◌⊎◌, inl, inr, if◌then◌else◌,
  arith,
}
use tgbot_with_rest.Process.{
  Main, locking, unlocking, notifying, join_listener, join_monitor, joined, Monitor, entering,
  posting, testing, going_to_wait, waiting, woken, timed_out, leaving, ended, Owner, by_main,
  by_monitor, State, MainStep, start_loop, start_throws, go_on, leave_loop, swap_tasks, run_task,
  task_throws, batch_done, last_batch_done, poll_returns, poll_throws, back_off, backed_off,
  back_off_stops, request_stop, lock_mutex, unlock_mutex, notify_all, listener_joined,
  monitor_joined, MonitorStep, enter, post_worker, test_stops, test_waits, wait, wake,
  timeout_stops, timeout_repeats, leave, time_out, spurious, no_secret, cannot_listen, listen,
  trigger, quit, Server, Step, Reach, start, next, main_moves, monitor_moves, monitor_wakes,
  listener_moves, signal,
}

abbrev pub monitor_holds : Monitor → Bool
monitor_holds posting = true
monitor_holds testing = true
monitor_holds going_to_wait = true
monitor_holds timed_out = true
monitor_holds leaving = true
monitor_holds _ = false

abbrev pub main_holds : Main → Bool
main_holds unlocking = true
main_holds _ = false

-- Who holds the mutex, by where the two threads stand.
abbrev pub owner : Main → Monitor → Option Owner
owner p m = if main_holds p then some by_main else if monitor_holds m then some by_monitor else none

-- How far the main thread is.
abbrev pub has_requested : Main → Bool
has_requested locking = true
has_requested unlocking = true
has_requested notifying = true
has_requested join_listener = true
has_requested join_monitor = true
has_requested joined = true
has_requested _ = false

abbrev pub has_locked : Main → Bool
has_locked locking = false
has_locked p = has_requested p

abbrev pub has_notified : Main → Bool
has_notified unlocking = false
has_notified notifying = false
has_notified p = has_locked p

abbrev pub will_wait : Monitor → Bool
will_wait going_to_wait = true
will_wait _ = false

abbrev pub waits : Monitor → Bool
waits waiting = true
waits _ = false

pub record Inv (s : State) : Type 0 where
  pub owned : s.stop_mutex ≡ owner s.main s.monitor
  pub exclusive : main_holds s.main ≡ true → monitor_holds s.monitor ≡ false
  pub requested : has_requested s.main ≡ true → s.stop_requested ≡ true
  pub settled : has_locked s.main ≡ true → will_wait s.monitor ≡ false
  pub awake : has_notified s.main ≡ true → waits s.monitor ≡ false

MainStep-Inv : {s t : State} → MainStep s t → Inv s → Inv t
MainStep-Inv (start_loop e) inv = ground arith
MainStep-Inv (start_throws e) inv = ground arith
MainStep-Inv (go_on e f) inv = ground arith
MainStep-Inv (leave_loop e f) inv = ground arith
MainStep-Inv (swap_tasks e) inv = ground arith
MainStep-Inv (run_task e) inv = ground arith
MainStep-Inv (task_throws e) inv = ground arith
MainStep-Inv (batch_done e) inv = ground arith
MainStep-Inv (last_batch_done e) inv = ground arith
MainStep-Inv (poll_returns e) inv = ground arith
MainStep-Inv (poll_throws e) inv = ground arith
MainStep-Inv (back_off e f) inv = ground arith
MainStep-Inv (backed_off e) inv = ground arith
MainStep-Inv (back_off_stops e f) inv = ground arith
MainStep-Inv (request_stop e) inv = ground arith
MainStep-Inv (lock_mutex e f) inv = ground arith
MainStep-Inv (unlock_mutex e) inv = ground arith
MainStep-Inv (notify_all e) inv = ground arith
MainStep-Inv (listener_joined e f) inv = ground arith
MainStep-Inv (monitor_joined e f) inv = ground arith

MonitorStep-Inv : {s t : State} → MonitorStep s t → Inv s → Inv t
MonitorStep-Inv (enter e f) inv = ground arith
MonitorStep-Inv (post_worker e) inv = ground arith
MonitorStep-Inv (test_stops e f) inv = ground arith
MonitorStep-Inv (test_waits e f) inv = ground arith
MonitorStep-Inv (wait e) inv = ground arith
MonitorStep-Inv (wake e f) inv = ground arith
MonitorStep-Inv (timeout_stops e f) inv = ground arith
MonitorStep-Inv (timeout_repeats e f) inv = ground arith
MonitorStep-Inv (leave e) inv = ground arith

pub Step-Inv : {c : Server} {s t : State} → Step c s t → Inv s → Inv t
Step-Inv (main_moves m) inv = MainStep-Inv m inv
Step-Inv (monitor_moves m) inv = MonitorStep-Inv m inv
Step-Inv (monitor_wakes (time_out e)) inv = ground arith
Step-Inv (monitor_wakes (spurious e)) inv = ground arith
Step-Inv (listener_moves (no_secret e f)) inv = ground arith
Step-Inv (listener_moves (cannot_listen e e')) inv = ground arith
Step-Inv (listener_moves (listen e f)) inv = ground arith
Step-Inv (listener_moves (trigger url e v)) inv = ground arith
Step-Inv (listener_moves (quit e f)) inv = ground arith
Step-Inv signal inv = ground arith

pub Reach-Inv : {c : Server} {s : State} → Reach c s → Inv s
Reach-Inv start = ground arith
Reach-Inv (next r m) = Step-Inv m (Reach-Inv r)

-- How many steps the monitor still takes when it has been asked to stop.
abbrev pub rank : Monitor → ℕ
rank going_to_wait = 5
rank waiting = 4
rank entering = 4
rank posting = 3
rank (woken timeout) = 3
rank testing = 2
rank timed_out = 2
rank leaving = 1
rank ended = 0

pub MonitorStep-rank :
    {s t : State} → MonitorStep s t → s.stop_requested ≡ true → rank t.monitor < rank s.monitor
MonitorStep-rank (enter e f) h = ground arith
MonitorStep-rank (post_worker e) h = ground arith
MonitorStep-rank (test_stops e f) h = ground arith
MonitorStep-rank (test_waits e f) h = ground arith
MonitorStep-rank (wait e) h = ground arith
MonitorStep-rank (wake e f) h = ground arith
MonitorStep-rank (timeout_stops e f) h = ground arith
MonitorStep-rank (timeout_repeats e f) h = ground arith
MonitorStep-rank (leave e) h = ground arith

-- With the stop requested and the mutex not in the main thread's hands, a monitor that does not wait
-- can move.
pub monitor_can_move :
    (s : State) (m : Monitor)
    → s.monitor ≡ m
    → Inv s
    → main_holds s.main ≡ false
    → s.stop_requested ≡ true
    → m ≢ waiting
    → (m ≡ ended) ⊎ ((t : State) × MonitorStep s t)
monitor_can_move s entering e inv h q n = inr (_, enter e (ground arith))
monitor_can_move s posting e inv h q n = inr (_, post_worker e)
monitor_can_move s testing e inv h q n = inr (_, test_stops e q)
monitor_can_move s going_to_wait e inv h q n = inr (_, wait e)
monitor_can_move s waiting e inv h q n = absurd (n refl)
monitor_can_move s (woken b) e inv h q n = inr (_, wake e (ground arith))
monitor_can_move s timed_out e inv h q n = inr (_, timeout_stops e q)
monitor_can_move s leaving e inv h q n = inr (_, leave e)
monitor_can_move s ended e inv h q n = inl refl

-- However the threads interleaved: when the main thread has called `notify_all`, the monitor is not
-- asleep, so it does not sleep for the rest of its four hours; while it has not ended, it can always
-- make a step of its own, whoever holds the mutex; and each of its steps brings it nearer to its end,
-- so that it takes at most four.
pub monitor_ends :
    (c : Server) (s : State)
    → Reach c s
    → has_notified s.main ≡ true
    → (s.monitor ≢ waiting)
      × (rank s.monitor ≤ 4)
      × ((s.monitor ≡ ended) ⊎ ((t : State) × MonitorStep s t))
      × ((t : State) → MonitorStep s t → rank t.monitor < rank s.monitor)
monitor_ends c s r h =
    let inv = Reach-Inv r in
    let q : s.stop_requested ≡ true = inv.requested (ground arith) in
    let n : s.monitor ≢ waiting = (λ e. ground arith) in
    (
      n,
      ground arith,
      monitor_can_move s s.monitor refl inv (ground arith) q n,
      λ t m. MonitorStep-rank m q,
    )
