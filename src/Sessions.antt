-- ===== src/Sessions.antt =====
-- src/session_store.h: the sessions of the users who are active in this run of the bot. The map is
-- an association list, and the clock's `now` is an argument of each operation.
pub mod Laws
pub mod Idle
use tgbot_with_rest.Prelude.{
  ℕ, ◌+◌, ◌-◌, Option, none, some, List, [], ◌∷◌, ◌++◌, ℤ, ◌==ℤ◌, ltb, length, if◌then◌else◌,
}
use tgbot_with_rest.Text.{Text}
use tgbot_with_rest.Structures.{UserDispatcher, new_dispatcher}

abbrev pub Sessions : Type 0
Sessions = List (ℤ × UserDispatcher)

-- `m_sessions.find`.
unfoldable pub lookup : ℤ → Sessions → Option UserDispatcher
lookup k [] = none
lookup k ((j, ud) ∷ m) = if j ==ℤ k then some ud else lookup k m

-- A write through the pointer to the session of `k`.
unfoldable pub modify : ℤ → (UserDispatcher → UserDispatcher) → Sessions → Sessions
modify k f [] = []
modify k f ((j, ud) ∷ m) = if j ==ℤ k then (j, f ud) ∷ m else (j, ud) ∷ modify k f m

abbrev pub touch : ℕ → UserDispatcher → UserDispatcher
touch now ud = record ud { last_activity = now }

-- The session, if there is one, marked as active.
unfoldable pub find : ℤ → ℕ → Sessions → Option UserDispatcher × Sessions
unfolding lookup modify
find tg_id now m = elim (lookup tg_id m) [
  | none ↦ (none, m)
  | some ud ↦ (some (touch now ud), modify tg_id (touch now) m)
]

-- The existing session, or a new one.
unfoldable pub create : ℤ → Text → Text → ℕ → Sessions → UserDispatcher × Sessions
unfolding find
create tg_id tg_name first_name now m = elim (lookup tg_id m) [
  | none ↦ let ud = new_dispatcher tg_id tg_name first_name now in (ud, m ++ (tg_id, ud) ∷ [])
  | some ud ↦ (touch now ud, modify tg_id (touch now) m)
]

-- `std::erase_if`: what is left.
unfoldable pub active : ℕ → ℕ → Sessions → Sessions
active now ttl [] = []
active now ttl ((j, ud) ∷ m) =
    if ltb ttl (now - ud.last_activity) then active now ttl m else (j, ud) ∷ active now ttl m

-- What is left, and how many sessions were removed.
unfoldable pub evict_idle : ℕ → ℕ → Sessions → ℕ × Sessions
unfolding active
evict_idle now ttl m = (length m - length (active now ttl m), active now ttl m)
