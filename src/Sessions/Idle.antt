-- ===== src/Sessions/Idle.antt =====
-- What `find` and the removal of idle sessions do to every session.
use mathlib.Core.Option
use tgbot_with_rest.Prelude.{
  ℕ, ◌+◌, ◌-◌, ◌≤◌, none, some, [], ◌∷◌, ℤ, ◌==ℤ◌, ==ℤ_iff, if◌then◌else◌, ◌≡◌, refl, arith, inl,
  inr, Bool-cases, Option-cases, All, ltb, length,
}
use tgbot_with_rest.Structures.{UserDispatcher}
use tgbot_with_rest.Sessions.{Sessions, lookup, touch, find, active, evict_idle}
use tgbot_with_rest.Sessions.Laws.{Absent, IsStore, lookup_of_Absent, lookup-modify, modify-IsStore}

-- In a store with distinct keys, `find` yields what it holds under the key, now marked as active; it keeps the keys
-- distinct, adds and removes no session, and leaves those of other keys as they were.
pub find_lem :
    (k j : ℤ) (now : ℕ) (m : Sessions)
    → IsStore m
    → let (found, m') = find k now m in
      IsStore m'
      × (found ≡ Option.map (touch now) (lookup k m))
      × (lookup j m' ≡ (if k ==ℤ j then found else lookup j m))
unfolding find
find_lem k j now m h = elim (Option-cases (lookup k m)) [
  | inl e ↦ rw (e, find) (h, refl, ground (arith, ==ℤ_iff k j))
  | inr (ud, e) ↦
      rw (e, find)
        (modify-IsStore k _ m h, refl, ground (arith, lookup-modify k j (touch now) m, ==ℤ_iff k j))
]

Absent-active : (k : ℤ) (now ttl : ℕ) (m : Sessions) → Absent k m → Absent k (active now ttl m)
unfolding active
Absent-active k now ttl [] h = tt
Absent-active k now ttl ((j, ud) ∷ m) h = ground (arith, Absent-active k now ttl m h.1)

pub active-IsStore : (now ttl : ℕ) (m : Sessions) → IsStore m → IsStore (active now ttl m)
unfolding active
active-IsStore now ttl [] h = tt
active-IsStore now ttl ((j, ud) ∷ m) h =
    ground (arith, Absent-active j now ttl m h.0, active-IsStore now ttl m h.1)

pub active-All :
    (P : ℤ × UserDispatcher → Type 0) (now ttl : ℕ) (m : Sessions)
    → All P m
    → All P (active now ttl m)
unfolding active
active-All P now ttl [] h = tt
active-All P now ttl ((j, ud) ∷ m) h = elim (Bool-cases (ltb ttl (now - ud.last_activity))) [
  | inl e ↦ rw e (active-All P now ttl m h.1)
  | inr e ↦ rw e (h.0, active-All P now ttl m h.1)
]

length-active : (now ttl : ℕ) (m : Sessions) → length (active now ttl m) ≤ length m
unfolding active
length-active now ttl [] = omega arith
length-active now ttl ((j, ud) ∷ m) = ground (arith, length-active now ttl m)

pub lookup-active :
    (j : ℤ) (now ttl : ℕ) (m : Sessions)
    → IsStore m
    → lookup j (active now ttl m)
      ≡ Option.bind (lookup j m) (λ ud. if ltb ttl (now - ud.last_activity) then none else some ud)
unfolding lookup active Option.bind
lookup-active j now ttl [] h = refl
lookup-active j now ttl ((i, ud) ∷ m) h = ground (
  arith,
  ==ℤ_iff i j,
  lookup-active j now ttl m h.1,
  lookup_of_Absent i m h.0,
  lookup_of_Absent i (active now ttl m) (Absent-active i now ttl m h.0),
)

-- In a store with distinct keys, `evict_idle` removes exactly the sessions that have been idle for longer than `ttl`, whatever
-- their place in the store, leaves the others as they were, keeps the keys distinct, and returns
-- how many it removed.
pub evict_idle_lem :
    (j : ℤ) (now ttl : ℕ) (m : Sessions)
    → IsStore m
    → let (evicted, m') = evict_idle now ttl m in
      IsStore m'
      × (lookup j m'
          ≡ Option.bind
              (lookup j m)
              (λ ud. if ltb ttl (now - ud.last_activity) then none else some ud))
      × (evicted + length m' ≡ length m)
unfolding evict_idle
evict_idle_lem j now ttl m h = (
  active-IsStore now ttl m h,
  lookup-active j now ttl m h,
  omega (arith, length-active now ttl m),
)
