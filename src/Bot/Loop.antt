-- ===== src/Bot/Loop.antt =====
-- The loop of `bot_start` in src/chanserv.cpp. What the long poll delivers is given as a list of
-- batches: one for each `long_poll.start()`.
use tgbot_with_rest.Prelude.{
  ◌⊎◌, inl, inr, Option-cases, ◌||◌, ℕ, ℤ, String, List, [], ◌∷◌, ◌≡◌, ◌≢◌, refl, none, some,
  length, true, false, All, subst, arith,
}
use tgbot_with_rest.Text.{Text}
use tgbot_with_rest.Structures.{
  UserDispatcher, developer_send_msg_as_bot, developer_send_msg_to_gpt, developer_run_host_command,
  staff_set_new_msi_version, staff_add_new_contractor,
}
use tgbot_with_rest.Access.{role_for_step, is_allowed}
use tgbot_with_rest.Sessions.{lookup}
use tgbot_with_rest.Bot.{Bot}
use tgbot_with_rest.Bot.Users.{contains, is_staff, is_developer, has_role}
use tgbot_with_rest.Bot.Monad.{M, ◌>>=◌, ◌>>◌, after, element, skip, put, try_catch}
use tgbot_with_rest.Bot.Keeps.{Keeps, Ends, Leads, >>-Keeps, skip-Keeps, put-Keeps, try_catch-Keeps}
use tgbot_with_rest.Bot.Inv.{same-Inv, Scope, Free, anything, Inv, At, lookup-IsSound}
use tgbot_with_rest.Bot.Issue.{each}
use tgbot_with_rest.Bot.Photos.{User, Message}
use tgbot_with_rest.Bot.Returns.{
  Returns, Ends-Returns, after-Returns, caught-Returns, absent-Returns,
}
use tgbot_with_rest.Bot.Dialog.{handle_small_talk}
use tgbot_with_rest.Bot.Dialog.Safe.{handle_small_talk-Inv}
use tgbot_with_rest.Bot.Query.{CallbackQuery, ClickedMessage}
use tgbot_with_rest.Bot.Approval.{is_approve, is_reject, requester}
use tgbot_with_rest.Bot.Callback.{on_callback_query}
use tgbot_with_rest.Bot.Callback.Safe.{on_callback_query-Inv}
use tgbot_with_rest.Bot.Commands.{command_start, command_help}
use tgbot_with_rest.Bot.Commands.Safe.{commands-Inv}
use tgbot_with_rest.Bot.Dispatcher.{session_dispatcher}
use tgbot_with_rest.Bot.Dispatcher.Safe.{session_dispatcher-Leads}
use tgbot_with_rest.Bot.Monad.{Result, done, thrown, terminated, fault}

-- What makes a registered handler run: any message, a message without a command, the two commands, a
-- pressed button. Between them time passes.
pub data Update : Type 0 where
  any_message non_command_message start help : Message → Update
  callback_query : CallbackQuery → Update
  time_passes : (clock : ℕ) (utc : Text) (unix_time : ℕ) → Update

unfoldable pub handle : Update → M (Unit {0})
handle (any_message m) = session_dispatcher m
handle (non_command_message m) = handle_small_talk m
handle (start m) = command_start m
handle (help m) = command_help m
handle (callback_query q) = on_callback_query q
handle (time_passes t s u) = put (λ b. record b { clock = t; utc = s; unix_time = u })

-- An exception ends the batch, not the loop.
unfoldable pub bot_start : List (List Update) → M (Unit {0})
unfolding handle each
bot_start [] = skip
bot_start (updates ∷ batches) = do try_catch (each updates handle) (λ e. skip); bot_start batches

Leads-Ends :
    (staff : List ℤ) (sett : String → Text) (scope : Scope) (id : ℤ) (r : Result (Unit {0}))
    → Leads (Inv staff sett scope) (At staff sett scope id) r
    → Ends (Inv staff sett scope) r
Leads-Ends staff sett scope id (done a b) p = p.inv
Leads-Ends staff sett scope id (thrown e b) p = p
Leads-Ends staff sett scope id (terminated b) p = p
Leads-Ends staff sett scope id fault p = p

-- Whose sessions an update may change: the sender's, and that of the user who asked for the key.
pub data Concerns : Update → ℤ → Type 0 where
  by_any_message : (m : Message) (u : User) → m.from ≡ some u → Concerns (any_message m) u.id
  by_message : (m : Message) (u : User) → m.from ≡ some u → Concerns (non_command_message m) u.id
  by_start : (m : Message) (u : User) → m.from ≡ some u → Concerns (start m) u.id
  by_help : (m : Message) (u : User) → m.from ≡ some u → Concerns (help m) u.id
  by_button : (q : CallbackQuery) → Concerns (callback_query q) q.from_id
  by_answer :
      (q : CallbackQuery) (k : ℤ)
      → is_approve q || is_reject q ≡ true
      → requester q.data_ ≡ some k
      → Concerns (callback_query q) k

-- The dispatcher also removes idle sessions.
abbrev pub Removes : Update → Type 0
Removes (any_message m) = Unit
Removes _ = ⊥

-- A message has a sender, and a press of a button comes with its message.
abbrev pub IsComplete : Update → Type 0
IsComplete (any_message m) = (u : User) × (m.from ≡ some u)
IsComplete (non_command_message m) = (u : User) × (m.from ≡ some u)
IsComplete (start m) = (u : User) × (m.from ≡ some u)
IsComplete (help m) = (u : User) × (m.from ≡ some u)
IsComplete (callback_query q) = (m : ClickedMessage) × (q.message ≡ some m)
IsComplete (time_passes t s u) = Unit

swapped : {A B : Type 0} → A ⊎ B → B ⊎ A
swapped (inl a) = inr a
swapped (inr b) = inl b

-- What an update that is not complete lacks.
abbrev Lacks : Update → Type 0
Lacks (any_message m) = m.from ≡ none
Lacks (non_command_message m) = m.from ≡ none
Lacks (start m) = m.from ≡ none
Lacks (help m) = m.from ≡ none
Lacks (callback_query q) = q.message ≡ none
Lacks (time_passes t s u) = ⊥

IsComplete-or_not : (u : Update) → IsComplete u ⊎ Lacks u
IsComplete-or_not (any_message m) = swapped (Option-cases m.from)
IsComplete-or_not (non_command_message m) = swapped (Option-cases m.from)
IsComplete-or_not (start m) = swapped (Option-cases m.from)
IsComplete-or_not (help m) = swapped (Option-cases m.from)
IsComplete-or_not (callback_query q) = swapped (Option-cases q.message)
IsComplete-or_not (time_passes t s u) = inl tt

pub handle-Inv :
    (staff : List ℤ) (sett : String → Text) (scope : Scope) (u : Update)
    → IsComplete u
    → ((k : ℤ) → Concerns u k → Free scope k)
    → (Removes u → (k : ℤ) → scope k none)
    → Keeps (Inv staff sett scope) (handle u)
unfolding handle
handle-Inv staff sett scope (any_message m) (u, e) free gone = record {
  run = λ b p. Leads-Ends staff sett scope u.id _ (
      session_dispatcher-Leads staff sett scope m u b e (free u.id (by_any_message m u e)) (gone tt)
        p);
}
handle-Inv staff sett scope (non_command_message m) (u, e) free gone = record {
  run = λ b. handle_small_talk-Inv staff sett scope m u b e (free u.id (by_message m u e));
}
handle-Inv staff sett scope (start m) (u, e) free gone = record {
  run = λ b p. (commands-Inv staff sett scope m u b e (free u.id (by_start m u e)) p).0;
}
handle-Inv staff sett scope (help m) (u, e) free gone = record {
  run = λ b p. (commands-Inv staff sett scope m u b e (free u.id (by_help m u e)) p).1;
}
handle-Inv staff sett scope (callback_query q) (m, e) free gone = record {
  run = λ b.
      on_callback_query-Inv staff sett scope q b m e (free q.from_id (by_button q))
        (λ k h r. free k (by_answer q k h r));
}
handle-Inv staff sett scope (time_passes t s u) c free gone =
    put-Keeps _ λ b p. same-Inv staff sett scope b _ refl refl refl refl refl p

updates-Keeps :
    (staff : List ℤ) (sett : String → Text) (updates : List Update)
    → All IsComplete updates
    → Keeps (Inv staff sett anything) (each updates handle)
unfolding each
updates-Keeps staff sett [] c = skip-Keeps
updates-Keeps staff sett (u ∷ updates) c =
    >>-Keeps (handle-Inv staff sett anything u c.0 (λ k h ud. tt) (λ r k. tt))
      (updates-Keeps staff sett updates c.1)

bot_start-Keeps :
    (staff : List ℤ) (sett : String → Text) (batches : List (List Update))
    → All (All IsComplete) batches
    → Keeps (Inv staff sett anything) (bot_start batches)
unfolding bot_start
bot_start-Keeps staff sett [] c = skip-Keeps
bot_start-Keeps staff sett (updates ∷ batches) c =
    >>-Keeps (try_catch-Keeps (updates-Keeps staff sett updates c.0) (λ e. skip-Keeps))
      (bot_start-Keeps staff sett batches c.1)

new_bot-Inv :
    (b : Bot)
    → b.m_sessions ≡ []
    → b.u_d ≡ none
    → ((s : Text) → length (b.env.sha1 s) ≡ 20)
    → Inv b.v_staff b.sett anything b
new_bot-Inv b e n h = record {
  same_staff = refl;
  same_sett = refl;
  frame = λ k. tt;
  digest = h;
  store = rw e tt;
  sound = rw e tt;
  live = rw n tt;
}

-- Whatever updates arrive in whatever order, and whatever the outside world answers or throws, as
-- long as each message has a sender and each press of a button comes with its message: a bot that
-- starts without sessions never uses a null or dangling pointer or an index out of range, if SHA-1
-- yields 20 bytes. (The pointers are `message->from` and `query->message`, which by the conditions
-- are there, `uD`, and the pointer to the clicked issue.) At the end, also where the process ended
-- in `std::terminate`, the sessions have distinct keys, each is filed under its user, has its two
-- lists of messages of equal length, and is in no step whose role its user lacks; and `uD` is null
-- or points to a session.
pub bot_start-Inv :
    (batches : List (List Update)) (b : Bot)
    → All (All IsComplete) batches
    → b.m_sessions ≡ []
    → b.u_d ≡ none
    → ((s : Text) → length (b.env.sha1 s) ≡ 20)
    → Ends (Inv b.v_staff b.sett anything) (bot_start batches b)
bot_start-Inv batches b c e n h =
    (bot_start-Keeps b.v_staff b.sett batches c).run b (new_bot-Inv b e n h)

-- Somebody without rights is not in a step of the services.
not_in_service :
    (staff : List ℤ) (sett : String → Text) (k : ℤ) (n : ℕ)
    → contains staff k ≡ false
    → is_developer staff sett k ≡ false
    → has_role staff sett k (role_for_step n) ≡ true
    → All
        (λ service. n ≢ service)
        (developer_send_msg_as_bot ∷ developer_send_msg_to_gpt ∷ developer_run_host_command
          ∷ staff_set_new_msi_version ∷ staff_add_new_contractor ∷ [])
unfolding has_role is_staff is_allowed role_for_step
not_in_service staff sett k n s d h = (
  λ e. absurd (ground (arith, e, s, d, h)),
  (
    λ e. absurd (ground (arith, e, s, d, h)),
    (
      λ e. absurd (ground (arith, e, s, d, h)),
      (λ e. absurd (ground (arith, e, s, d, h)), (λ e. absurd (ground (arith, e, s, d, h)), tt)),
    ),
  ),
)

-- An update that is not complete may end in a fault.
handle-Returns :
    (staff : List ℤ) (sett : String → Text) (u : Update) (b : Bot)
    → Inv staff sett anything b
    → Returns (Inv staff sett anything) (handle u b)
unfolding handle session_dispatcher handle_small_talk command_start command_help element ◌>>=◌ after
handle-Returns staff sett u b p = elim (IsComplete-or_not u) [
  | inl c ↦
      Ends-Returns (Inv staff sett anything) (handle u b)
        ((handle-Inv staff sett anything u c (λ k h ud. tt) (λ r k. tt)).run b p)
  | inr h ↦ faulty u h
]
  where
    faulty : (u : Update) → Lacks u → Returns (Inv staff sett anything) (handle u b)
    faulty (any_message m) e = rw e tt
    faulty (non_command_message m) e = rw e tt
    faulty (start m) e = rw e tt
    faulty (help m) e = rw e tt
    faulty (callback_query q) e = absent-Returns staff sett q e b p
    faulty (time_passes t s u) e = absurd e

updates-Returns :
    (staff : List ℤ) (sett : String → Text) (updates : List Update) (b : Bot)
    → Inv staff sett anything b
    → Returns (Inv staff sett anything) (each updates handle b)
unfolding each skip ◌>>◌
updates-Returns staff sett [] b p = p
updates-Returns staff sett (u ∷ updates) b p =
    after-Returns (Inv staff sett anything) _ (handle u b) (λ _. updates-Returns staff sett updates)
      (handle-Returns staff sett u b p)

bot_start-Returns :
    (staff : List ℤ) (sett : String → Text) (batches : List (List Update)) (b : Bot)
    → Inv staff sett anything b
    → Returns (Inv staff sett anything) (bot_start batches b)
unfolding bot_start skip ◌>>◌ try_catch
bot_start-Returns staff sett [] b p = p
bot_start-Returns staff sett (updates ∷ batches) b p =
    after-Returns (Inv staff sett anything) _ (try_catch (each updates handle) (λ e. skip) b)
      (λ _. bot_start-Returns staff sett batches)
      (caught-Returns (Inv staff sett anything) (each updates handle b)
        (updates-Returns staff sett updates b p))

-- After any run that returns, of a bot that started without sessions: the session of a user who is
-- neither staff nor the developer is in none of the five steps that send messages as the bot or to
-- GPT, run a command on the host, set the version or add a contractor. (SHA-1 yields 20 bytes.)
pub bot_start-guards :
    (batches : List (List Update)) (b b' : Bot) (k : ℤ) (ud : UserDispatcher)
    → b.m_sessions ≡ []
    → b.u_d ≡ none
    → ((s : Text) → length (b.env.sha1 s) ≡ 20)
    → bot_start batches b ≡ done tt b'
    → lookup k b'.m_sessions ≡ some ud
    → contains b.v_staff k ≡ false
    → is_developer b.v_staff b.sett k ≡ false
    → All
        (λ service. ud.jira_task.stat_ ≢ service)
        (developer_send_msg_as_bot ∷ developer_send_msg_to_gpt ∷ developer_run_host_command
          ∷ staff_set_new_msi_version ∷ staff_add_new_contractor ∷ [])
bot_start-guards batches b b' k ud e n h r l s d =
    let p : Inv b.v_staff b.sett anything b' =
      subst (Returns (Inv b.v_staff b.sett anything)) r
        (bot_start-Returns b.v_staff b.sett batches b (new_bot-Inv b e n h)) in
    not_in_service b.v_staff b.sett k ud.jira_task.stat_ s d
      (lookup-IsSound b.v_staff b.sett anything k b'.m_sessions p.sound l).authorised
