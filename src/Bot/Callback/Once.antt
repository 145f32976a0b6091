-- ===== src/Bot/Callback/Once.antt =====
-- A request for a key is answered once.
use tgbot_with_rest.Prelude.{
  ℤ, pos, ◌==ℤ◌, Bool, true, false, not, ◌&&◌, ◌||◌, [], some, ◌≡◌, refl, ◌∙◌,
}
use tgbot_with_rest.Structures.{UserDispatcher}
use tgbot_with_rest.Sessions.{lookup, modify, touch}
use tgbot_with_rest.Sessions.Laws.{lookup-modify, ==ℤ_refl}
use tgbot_with_rest.Bot.{Bot}
use tgbot_with_rest.Bot.Monad.{
  M, done, ◌>>=◌, ◌>>◌, after, pure, skip, when, branch, get, try_catch, caught, the_ud, read_at,
}
use tgbot_with_rest.Bot.Points.{point_to-some}
use tgbot_with_rest.Bot.Query.{CallbackQuery}
use tgbot_with_rest.Bot.Approval.{
  is_approve, is_reject, requester, approve, reject, try_approve, points_somewhere, try_reject,
  answer_key_request, key_request,
}

-- Where `uD` points to the session of `id`, which has no open request.
record Answered (id : ℤ) (b : Bot) : Type 0 where
  ud : UserDispatcher
  points : b.u_d ≡ some id
  found : lookup id b.m_sessions ≡ some ud
  no_reason : ud.jira_task.key_reason ≡ []

the_ud-Answered : (id : ℤ) (b : Bot) (h : Answered id b) → the_ud b ≡ done h.ud b
unfolding the_ud read_at
the_ud-Answered id b h = simp (h.points, the_ud, h.found)

approve-Answered :
    (q : CallbackQuery) (id : ℤ) (b : Bot) → Answered id b → approve q id b ≡ done tt b
unfolding approve ◌>>=◌ after when skip
approve-Answered q id b h = rw (the_ud-Answered id b h) (rw h.no_reason refl)

reject-Answered : (q : CallbackQuery) (id : ℤ) (b : Bot) → Answered id b → reject q id b ≡ done tt b
unfolding reject ◌>>=◌ after when skip
reject-Answered q id b h = rw (the_ud-Answered id b h) (rw h.no_reason refl)

when-done : (c : Bool) (m : M (Unit {0})) (b : Bot) → m b ≡ done tt b → when c m b ≡ done tt b
unfolding when skip
when-done true m b h = h
when-done false m b h = refl

touched-Answered :
    (id : ℤ) (b : Bot) (ud : UserDispatcher)
    → lookup id b.m_sessions ≡ some ud
    → ud.jira_task.key_reason ≡ []
    → Answered id (record b { u_d = some id; m_sessions = modify id (touch b.clock) b.m_sessions })
touched-Answered id b ud e h = record {
  ud = touch b.clock ud;
  points = refl;
  found = lookup-modify id id (touch b.clock) b.m_sessions ∙ rw (==ℤ_refl id, e);
  no_reason = h;
}

-- If the user who asked has a session without an open request - it was never made, or is already
-- approved or rejected - then a press of either button makes no request to the outside (no key is
-- made, nobody is written to) and changes nothing but the time of the session's last activity and
-- `uD`.
pub key_request-once :
    (q : CallbackQuery) (b : Bot) (id : ℤ) (ud : UserDispatcher)
    → requester q.data_ ≡ some id
    → (is_approve q || is_reject q) ≡ true
    → lookup id b.m_sessions ≡ some ud
    → ud.jira_task.key_reason ≡ []
    → key_request q b
      ≡ done false (record b { u_d = some id; m_sessions = modify id (touch b.clock) b.m_sessions })
unfolding key_request answer_key_request try_approve try_reject try_catch caught ◌>>=◌ ◌>>◌ after
    branch pure get
key_request-once q b id ud r k e h =
    let a = touched-Answered id b ud e h in
    let b' : Bot = record b {
      u_d = some id;
      m_sessions = modify id (touch b.clock) b.m_sessions;
    } in
    let p : when (not (id ==ℤ pos 0) && is_approve q) (approve q id) b' ≡ done tt b' =
      when-done _ (approve q id) b' (approve-Answered q id b' a) in
    let s : when (not (id ==ℤ pos 0) && points_somewhere b'.u_d && is_reject q) (reject q id) b'
        ≡ done tt b' =
      when-done _ (reject q id) b' (reject-Answered q id b' a) in
    rw (k, r) (rw (point_to-some id b ud e) (rw p (rw s refl)))
