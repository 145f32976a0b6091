-- ===== src/Bot/Monad.antt =====
-- Handlers as functions on the state that may end in an exception, in `std::terminate`, or in a
-- fault: the use of a null or dangling pointer.
use tgbot_with_rest.Prelude.{ℤ, Bool, true, false, ◌∷◌, Option, none, some}
use tgbot_with_rest.Structures.{UserDispatcher, NewTask}
use tgbot_with_rest.Sessions.{lookup, modify, find}
use tgbot_with_rest.Bot.{Bot}
use tgbot_with_rest.Bot.World.{Event, Answer, Exception, tg_exception, other_exception}

pub data Result (A : Type 0) : Type 0 where
  done : A → Bot → Result A
  thrown : Exception → Bot → Result A
  terminated : Bot → Result A
  fault : Result A

abbrev pub M : Type 0 → Type 0
M A = Bot → Result A

-- How a call goes on from a result.
unfoldable pub after : {A B : Type 0} → (A → M B) → Result A → Result B
after f (done a b) = f a b
after f (thrown e b) = thrown e b
after f (terminated b) = terminated b
after f fault = fault

infixl 5 ◌>>=◌ ◌>>◌
unfoldable pub ◌>>=◌ : {A B : Type 0} → M A → (A → M B) → M B
◌>>=◌ m f b = after f (m b)

unfoldable pub ◌>>◌ : {B : Type 0} → M (Unit {0}) → M B → M B
◌>>◌ m k b = after (λ _. k) (m b)

unfoldable pub pure : {A : Type 0} → A → M A
pure a b = done a b

unfoldable pub skip : M (Unit {0})
skip b = done tt b

unfoldable pub when : Bool → M (Unit {0}) → M (Unit {0})
when true m = m
when false m = skip

unfoldable pub branch : {A : Type 0} → Bool → M A → M A → M A
branch true m k = m
branch false m k = k

-- The state, to compute with.
unfoldable pub get : M Bot
get b = done b b

-- A write to the bot's own fields.
unfoldable pub put : (Bot → Bot) → M (Unit {0})
put f b = done tt (f b)

-- A request is recorded, and answered by the environment.
unfoldable pub answered : {A : Type 0} → Answer → (Answer → A) → Bot → Result A
answered a f b = elim a.threw [ none ↦ done (f a) b | some e ↦ thrown e b ]

unfoldable pub call : Event → M Answer
call e b = answered (b.env.answer b.out e) (λ a. a) (record b { out = e ∷ b.out })

-- A request whose answer is not used, beyond its exception.
unfoldable pub request : Event → M (Unit {0})
request e b = answered (b.env.answer b.out e) (λ _. tt) (record b { out = e ∷ b.out })

unfoldable pub caught : {A : Type 0} → (Exception → M A) → Result A → Result A
caught h (done a b) = done a b
caught h (thrown e b) = h e b
caught h (terminated b) = terminated b
caught h fault = fault

-- `try { m } catch (const std::exception& e) { h }`.
unfoldable pub try_catch : {A : Type 0} → M A → (Exception → M A) → M A
try_catch m h b = caught h (m b)

unfoldable pub rethrow_other : {A : Type 0} → (Exception → M A) → Exception → M A
rethrow_other h (tg_exception s) b = h (tg_exception s) b
rethrow_other h (other_exception s) b = thrown (other_exception s) b

-- `try { m } catch (TgException e) { h }`.
unfoldable pub try_catch_tg : {A : Type 0} → M A → (Exception → M A) → M A
try_catch_tg m h b = caught (rethrow_other h) (m b)

unfoldable pub joined : Result (Unit {0}) → Result (Unit {0})
joined (done a b) = done a b
joined (thrown e b) = terminated b
joined (terminated b) = terminated b
joined fault = fault

-- `in_thread t([…]{ m })`: the thread is joined at the end of the block. An exception that leaves
-- its function ends the process.
unfoldable pub in_thread : M (Unit {0}) → M (Unit {0})
in_thread m b = joined (m b)

-- `uD = uniq_data(tg_id)`, and whether it is not null.
unfoldable pub pointed : ℤ → Option UserDispatcher → Bool
pointed tg_id none = false
pointed tg_id (some ud) = true

unfoldable pub pointer : ℤ → Option UserDispatcher → Option ℤ
pointer tg_id none = none
pointer tg_id (some ud) = some tg_id

unfoldable pub point_to : ℤ → M Bool
point_to tg_id b =
    let (ud, m) = find tg_id b.clock b.m_sessions in
    done (pointed tg_id ud) (record b { u_d = pointer tg_id ud; m_sessions = m })

unfoldable pub read_at : Option UserDispatcher → M UserDispatcher
read_at none b = fault
read_at (some ud) b = done ud b

-- `*uD`.
unfoldable pub the_ud : M UserDispatcher
the_ud b = elim b.u_d [ none ↦ fault | some k ↦ read_at (lookup k b.m_sessions) b ]

unfoldable pub write_at :
    ℤ → (UserDispatcher → UserDispatcher) → Option UserDispatcher → M (Unit {0})
write_at k f none b = fault
write_at k f (some ud) b = done tt (record b { m_sessions = modify k f b.m_sessions })

-- A write through `uD`.
unfoldable pub modify_ud : (UserDispatcher → UserDispatcher) → M (Unit {0})
modify_ud f b = elim b.u_d [ none ↦ fault | some k ↦ write_at k f (lookup k b.m_sessions) b ]

-- An element that the source takes to be there.
unfoldable pub element : {A : Type 0} → Option A → M A
element none b = fault
element (some a) b = done a b

-- A write to `uD->jira_task`.
abbrev pub modify_task : (NewTask → NewTask) → M (Unit {0})
modify_task f = modify_ud (λ ud. record ud { jira_task = f ud.jira_task })
