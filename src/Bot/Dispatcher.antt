-- ===== src/Bot/Dispatcher.antt =====
-- What every message does first: `session_dispatcher` of src/chanserv_on_any_message.cpp and
-- `evict_idle_sessions` of src/chanserv.cpp.
pub mod Safe
use tgbot_with_rest.Prelude.{
  ℕ, zero, suc, ◌-◌, ◌*◌, ◌^◌, ℤ, pos, negsuc, Bool, true, false, List, ltb, Option, none, some,
  String, if◌then◌else◌,
}
use tgbot_with_rest.Text.{Text}
use tgbot_with_rest.Numbers.{atol}
use tgbot_with_rest.Sessions.{create, evict_idle}
use tgbot_with_rest.Bot.{Bot}
use tgbot_with_rest.Bot.Monad.{element, M, ◌>>=◌, ◌>>◌, skip, branch, get, put, point_to}
use tgbot_with_rest.Bot.Users.{contains}
use tgbot_with_rest.Bot.Registry.{add_consumer_to_db, reload_consumers_list}
use tgbot_with_rest.Bot.Photos.{Message, with_from, SentMessage}

-- The steady clock counts nanoseconds.
abbrev pub minute : ℕ
minute = 60 * 10 ^ 9

abbrev pub hour : ℕ
hour = 60 * minute

-- The setting, or 24 if it is not a positive number.
unfoldable pub ttl_hours : ℤ → ℕ
ttl_hours (pos zero) = 24
ttl_hours (pos (suc n)) = suc n
ttl_hours (negsuc n) = 24

unfoldable pub evict : Bot → Bot
unfolding ttl_hours
evict b =
    let (evicted, m) =
      evict_idle b.clock (ttl_hours (atol (b.sett "session_ttl_hours")) * hour) b.m_sessions in
    record b { m_last_sessions_cleanup = b.clock; m_sessions = m; u_d = none }

-- At most every ten minutes. `uD` may have pointed to a removed session.
unfoldable pub evict_idle_sessions : M (Unit {0})
unfolding evict
evict_idle_sessions = do
  b ← get
  branch (ltb (b.clock - b.m_last_sessions_cleanup) (10 * minute)) skip (put evict)

unfoldable pub create_session : SentMessage → Bot → Bot
create_session m b =
    let (ud, sessions) = create m.from_id m.from_username m.from_first_name b.clock b.m_sessions in
    record b { m_sessions = sessions; u_d = some m.from_id }

unfoldable pub register_consumer : SentMessage → M (Unit {0})
register_consumer m = do
  b ← get
  branch (contains b.v_consumers m.from_id) skip
      (do code ← add_consumer_to_db m.from_id m.from_username; reload_consumers_list)

unfoldable pub dispatch_from : SentMessage → M (Unit {0})
unfolding register_consumer evict_idle_sessions create_session
dispatch_from m = do
  register_consumer m
  evict_idle_sessions
  found ← point_to m.from_id
  branch found skip (put (create_session m))

unfoldable pub session_dispatcher : Message → M (Unit {0})
unfolding dispatch_from
session_dispatcher m = do u ← element m.from; dispatch_from (with_from m u)
