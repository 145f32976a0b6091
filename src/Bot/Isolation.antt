-- ===== src/Bot/Isolation.antt =====
-- An update of one user and the sessions of the others.
use tgbot_with_rest.Prelude.{ℤ, none, ◌≡◌, refl, ap, subst, ◌⊎◌, inl, inr}
use tgbot_with_rest.Sessions.{lookup}
use tgbot_with_rest.Bot.{Bot}
use tgbot_with_rest.Bot.Keeps.{Ends, Ends-mono}
use tgbot_with_rest.Bot.Inv.{Inv, Scope, anything}
use tgbot_with_rest.Bot.Loop.{Update, handle, handle-Inv, Concerns, Removes, IsComplete}

-- The session of `k` is as in `b`, or was removed.
abbrev Kept : Update → ℤ → Bot → Scope
Kept u k b j o = j ≡ k → (o ≡ lookup k b.m_sessions) ⊎ (Removes u × (o ≡ none))

within-Kept :
    (u : Update) (k : ℤ) (b : Bot)
    → Inv b.v_staff b.sett anything b
    → Inv b.v_staff b.sett (Kept u k b) b
within-Kept u k b p = record {
  same_staff = p.same_staff;
  same_sett = p.same_sett;
  frame = λ j e. inl (ap (λ i. lookup i b.m_sessions) e);
  digest = p.digest;
  store = p.store;
  sound = p.sound;
  live = p.live;
}

-- In a state with the invariant, an update leaves the session of everybody but its sender as it is,
-- however its handler ends, if a message has a sender and a press of a button its message (else the
-- handler may use a null pointer); but the dispatcher, which runs on every message, may remove it, and an
-- answer to a request for a key may change the session of the user who asked.
pub handle-isolates :
    (u : Update) (b : Bot) (k : ℤ)
    → Inv b.v_staff b.sett anything b
    → IsComplete u
    → ¬ Concerns u k
    → Ends
        (λ b'.
          (lookup k b'.m_sessions ≡ lookup k b.m_sessions)
          ⊎ (Removes u × (lookup k b'.m_sessions ≡ none)))
        (handle u b)
handle-isolates u b k p c other =
    Ends-mono (handle u b) (λ b' q. q.frame k refl)
      ((handle-Inv b.v_staff b.sett (Kept u k b) u c
          (λ j h ud e. absurd (other (subst (Concerns u) e h))) (λ r j e. inr (r, refl))).run
        b (within-Kept u k b p))
