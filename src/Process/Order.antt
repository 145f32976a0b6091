-- ===== src/Process/Order.antt =====
-- The order in which the main thread runs what the other threads post (src/main.cpp, src/task_queue.h).
use tgbot_with_rest.Prelude.{
  Option, none, some, none-some, Option-cases, subst, Bool, true, false, List, [], ◌∷◌, ◌++◌, ◌≡◌,
  refl, sym, ap, ◌∙◌, All, All-append, ◌⊎◌, inl, inr, Bool-cases, append_assoc, append-nil, arith,
}
use tgbot_with_rest.Text.{Text}
use tgbot_with_rest.Webhook.{webhook_token_valid}
use tgbot_with_rest.Process.{
  Task, qt_bg_worker, jira_webhooks_handler, Main, in_batch, stopping, locking, unlocking,
  notifying, join_listener, join_monitor, joined, State, post_task, MainStep, start_loop,
  start_throws, go_on, leave_loop, swap_tasks, run_task, task_throws, batch_done, last_batch_done,
  poll_returns, poll_throws, back_off, backed_off, back_off_stops, request_stop, lock_mutex,
  unlock_mutex, notify_all, listener_joined, monitor_joined, MonitorStep, enter, post_worker,
  test_stops, test_waits, wait, wake, timeout_stops, timeout_repeats, leave, time_out, spurious,
  Server, ListenerStep, no_secret, cannot_listen, listen, trigger, quit, Step, main_moves,
  monitor_moves, monitor_wakes, listener_moves, signal, Reach, start, next,
}

-- The tasks taken from the queue that have not begun.
abbrev pub batch : Main → List Task
batch (in_batch last ts) = ts
batch _ = []

-- Whether `bot_start` has not been left.
abbrev pub in_bot_start : Main → Bool
in_bot_start stopping = false
in_bot_start locking = false
in_bot_start unlocking = false
in_bot_start notifying = false
in_bot_start join_listener = false
in_bot_start join_monitor = false
in_bot_start joined = false
in_bot_start _ = true

-- The report of the monitor, or a webhook whose URL had the token.
abbrev pub IsVouched : Server → Task → Type 0
IsVouched c qt_bg_worker = Unit
IsVouched c (jira_webhooks_handler p) =
    (url : Text) × (webhook_token_valid c.token url c.webhook_secret ≡ true) × (p ≡ c.path url)

-- Tasks are dropped only behind the last task that was begun, if it threw.
abbrev pub LeftBy : Option Task → List Task → List Task → Type 0
LeftBy none begun dropped = dropped ≡ []
LeftBy (some t) begun dropped = (before : List Task) × (begun ≡ before ++ t ∷ [])

record Kept (c : Server) (p : Main) (waiting posted begun dropped : List Task)
    (thrown : Option Task) : Type 0 where
  split : posted ≡ begun ++ (dropped ++ (batch p ++ waiting))
  none_thrown : in_bot_start p ≡ true → thrown ≡ none
  cause : LeftBy thrown begun dropped
  vouched : All (IsVouched c) posted

abbrev Inv : Server → State → Type 0
Inv c s = Kept c s.main s.m_tasks s.posted s.begun s.dropped s.thrown

-- A step of the main thread without tasks.
moves-Kept :
    {c : Server} {p : Main} {ts posted begun dropped : List Task} {o : Option Task} (p' : Main)
    → batch p ≡ batch p'
    → (in_bot_start p' ≡ true → in_bot_start p ≡ true)
    → Kept c p ts posted begun dropped o
    → Kept c p' ts posted begun dropped o
moves-Kept {ts = ts} {begun = begun} {dropped = dropped} p' e f k = record {
  split = k.split ∙ ap (λ l. begun ++ (dropped ++ (l ++ ts))) e;
  none_thrown = λ h. k.none_thrown (f h);
  cause = k.cause;
  vouched = k.vouched;
}

nothing_dropped :
    (o : Option Task) (begun dropped : List Task) → LeftBy o begun dropped → o ≡ none → dropped ≡ []
nothing_dropped none begun dropped h e = h
nothing_dropped (some t) begun dropped h e = absurd (none-some (sym e))

begin_split :
    (s : State) {last : Bool} {t : Task} {ts : List Task}
    → s.main ≡ in_batch last (t ∷ ts)
    → s.dropped ≡ []
    → s.posted ≡ s.begun ++ (s.dropped ++ (batch s.main ++ s.m_tasks))
    → s.posted ≡ (s.begun ++ t ∷ []) ++ (ts ++ s.m_tasks)
begin_split s {t = t} {ts = ts} e d h =
    (rw (e, d) at h) ∙ sym (append_assoc s.begun (t ∷ []) (ts ++ s.m_tasks))

MainStep-Inv : {c : Server} {s t : State} → MainStep s t → Inv c s → Inv c t
MainStep-Inv (start_loop e) inv = moves-Kept _ (rw e refl) (λ _. rw e refl) inv
MainStep-Inv (start_throws e) inv = moves-Kept _ (rw e refl) (λ _. rw e refl) inv
MainStep-Inv (go_on e f) inv = moves-Kept _ (rw e refl) (λ _. rw e refl) inv
MainStep-Inv (leave_loop e f) inv = moves-Kept _ (rw e refl) (λ _. rw e refl) inv
MainStep-Inv {s = s} (swap_tasks e) inv = record {
  split = inv.split ∙ ap (λ l. s.begun ++ (s.dropped ++ l)) (rw e (sym (append-nil s.m_tasks)));
  none_thrown = λ _. inv.none_thrown (rw e refl);
  cause = inv.cause;
  vouched = inv.vouched;
}
MainStep-Inv {s = s} (run_task {t = t} {ts = ts} e) inv =
    let n : s.thrown ≡ none = inv.none_thrown (rw e refl) in
    let d : s.dropped ≡ [] = nothing_dropped _ _ _ inv.cause n in
    record {
      split = begin_split s e d inv.split ∙ rw d refl;
      none_thrown = λ _. n;
      cause = rw n d;
      vouched = inv.vouched;
    }
MainStep-Inv {s = s} (task_throws {t = t} {ts = ts} e) inv = record {
  split = begin_split s e (nothing_dropped _ _ _ inv.cause (inv.none_thrown (rw e refl))) inv.split;
  none_thrown = λ h. absurd (ground arith);
  cause = (s.begun, refl);
  vouched = inv.vouched;
}
MainStep-Inv (batch_done e) inv = moves-Kept _ (rw e refl) (λ _. rw e refl) inv
MainStep-Inv (last_batch_done e) inv = moves-Kept _ (rw e refl) (λ _. rw e refl) inv
MainStep-Inv (poll_returns e) inv = moves-Kept _ (rw e refl) (λ _. rw e refl) inv
MainStep-Inv (poll_throws e) inv = moves-Kept _ (rw e refl) (λ _. rw e refl) inv
MainStep-Inv (back_off e f) inv = moves-Kept _ (rw e refl) (λ _. rw e refl) inv
MainStep-Inv (backed_off e) inv = moves-Kept _ (rw e refl) (λ _. rw e refl) inv
MainStep-Inv (back_off_stops e f) inv = moves-Kept _ (rw e refl) (λ _. rw e refl) inv
MainStep-Inv (request_stop e) inv = moves-Kept _ (rw e refl) (λ h. absurd (ground arith)) inv
MainStep-Inv (lock_mutex e f) inv = moves-Kept _ (rw e refl) (λ h. absurd (ground arith)) inv
MainStep-Inv (unlock_mutex e) inv = moves-Kept _ (rw e refl) (λ h. absurd (ground arith)) inv
MainStep-Inv (notify_all e) inv = moves-Kept _ (rw e refl) (λ h. absurd (ground arith)) inv
MainStep-Inv (listener_joined e f) inv = moves-Kept _ (rw e refl) (λ h. absurd (ground arith)) inv
MainStep-Inv (monitor_joined e f) inv = moves-Kept _ (rw e refl) (λ h. absurd (ground arith)) inv

post_task-Inv :
    {c : Server} (s : State) (t : Task) → IsVouched c t → Inv c s → Inv c (post_task t s)
post_task-Inv {c} s t v inv = record {
  split = rw inv.split (simp append_assoc);
  none_thrown = inv.none_thrown;
  cause = inv.cause;
  vouched = All-append (IsVouched c) s.posted (t ∷ []) inv.vouched (v, tt);
}

MonitorStep-Inv : {c : Server} {s t : State} → MonitorStep s t → Inv c s → Inv c t
MonitorStep-Inv (enter e f) inv = inv
MonitorStep-Inv {s = s} (post_worker e) inv = post_task-Inv s qt_bg_worker tt inv
MonitorStep-Inv (test_stops e f) inv = inv
MonitorStep-Inv (test_waits e f) inv = inv
MonitorStep-Inv (wait e) inv = inv
MonitorStep-Inv (wake e f) inv = inv
MonitorStep-Inv (timeout_stops e f) inv = inv
MonitorStep-Inv (timeout_repeats e f) inv = inv
MonitorStep-Inv (leave e) inv = inv

ListenerStep-Inv : {c : Server} {s t : State} → ListenerStep c s t → Inv c s → Inv c t
ListenerStep-Inv (no_secret e f) inv = inv
ListenerStep-Inv (cannot_listen e e') inv = inv
ListenerStep-Inv (listen e f) inv = inv
ListenerStep-Inv {c} {s} (trigger url e v) inv =
    post_task-Inv s (jira_webhooks_handler (c.path url)) (url, v, refl) inv
ListenerStep-Inv (quit e f) inv = inv

Step-Inv : {c : Server} {s t : State} → Step c s t → Inv c s → Inv c t
Step-Inv (main_moves m) inv = MainStep-Inv m inv
Step-Inv (monitor_moves m) inv = MonitorStep-Inv m inv
Step-Inv (monitor_wakes (time_out e)) inv = inv
Step-Inv (monitor_wakes (spurious e)) inv = inv
Step-Inv (listener_moves m) inv = ListenerStep-Inv m inv
Step-Inv signal inv = inv

Reach-Inv : {c : Server} {s : State} → Reach c s → Inv c s
Reach-Inv start = record { split = refl; none_thrown = λ _. refl; cause = refl; vouched = tt }
Reach-Inv (next r m) = Step-Inv m (Reach-Inv r)

-- However the threads interleave, and wherever a signal, an error of the poll or an exception of a task
-- strikes: the tasks begun, those dropped, those taken from the queue and those in it are, in this
-- order, exactly the tasks posted in the order of their posting. Tasks that were taken from the queue
-- are dropped only if a task threw, which then is the last one begun; as long as the main thread is in
-- `bot_start`, none threw and none are dropped. (Tasks that are posted behind the last run stay in the
-- queue.) Each posted webhook stems from a URL with the secret as its token.
pub tasks_in_order :
    (c : Server) (s : State)
    → Reach c s
    → (s.posted ≡ s.begun ++ (s.dropped ++ (batch s.main ++ s.m_tasks)))
      × ((s.dropped ≡ [])
          ⊎ ((in_bot_start s.main ≡ false)
              × ((t : Task) × (before : List Task) × (s.thrown ≡ some t)
                  × (s.begun ≡ before ++ t ∷ []))))
      × (in_bot_start s.main ≡ true → s.thrown ≡ none)
      × All (IsVouched c) s.posted
tasks_in_order c s r =
    let inv = Reach-Inv r in
    (
      inv.split,
      elim (Bool-cases (in_bot_start s.main)) [
        | inl e ↦ inl (nothing_dropped _ _ _ inv.cause (inv.none_thrown e))
        | inr e ↦ elim (Option-cases s.thrown) [
          | inl n ↦ inl (nothing_dropped _ _ _ inv.cause n)
          | inr (t, n) ↦
              let (before, b) = subst (λ o. LeftBy o s.begun s.dropped) n inv.cause in
              inr (e, (t, before, n, b))
        ]
      ],
      inv.none_thrown,
      inv.vouched,
    )
