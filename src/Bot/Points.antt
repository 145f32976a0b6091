-- ===== src/Bot/Points.antt =====
-- The handler that begins with `uD = uniq_data(id)` keeps the invariant.
use tgbot_with_rest.Prelude.{
  ℤ, true, false, String, List, none, some, ◌≡◌, refl, inl, inr, arith, Option-cases,
}
use tgbot_with_rest.Text.{Text}
use tgbot_with_rest.Structures.{UserDispatcher}
use tgbot_with_rest.Sessions.{lookup, modify, touch, find}
use tgbot_with_rest.Bot.{Bot}
use tgbot_with_rest.Bot.Monad.{M, Result, done, ◌>>=◌, after, branch, point_to, pointed, pointer}
use tgbot_with_rest.Bot.Keeps.{Keeps, Ends}
use tgbot_with_rest.Bot.Inv.{nowhere-Inv, Scope, Free, Inv, At, modify-Inv, modify-Live}

pub point_to-none :
    (id : ℤ) (b : Bot)
    → lookup id b.m_sessions ≡ none
    → point_to id b ≡ done false (record b { u_d = none })
unfolding point_to find pointed pointer
point_to-none id b e = ground arith

pub point_to-some :
    (id : ℤ) (b : Bot) (ud : UserDispatcher)
    → lookup id b.m_sessions ≡ some ud
    → point_to id b
      ≡ done true (record b { u_d = some id; m_sessions = modify id (touch b.clock) b.m_sessions })
unfolding point_to find pointed pointer
point_to-some id b ud e = ground arith

module _ (staff : List ℤ) (sett : String → Text) (scope : Scope) where
  Ends-At :
      {A : Type 0} (id : ℤ) (r : Result A)
      → Ends (At staff sett scope id) r
      → Ends (Inv staff sett scope) r
  Ends-At id (Result.done a b) p = p.inv
  Ends-At id (Result.thrown e b) p = p.inv
  Ends-At id (Result.terminated b) p = p.inv
  Ends-At id Result.fault p = p

  pub find-Inv :
      (id : ℤ) (b : Bot) (ud : UserDispatcher)
      → lookup id b.m_sessions ≡ some ud
      → Free scope id
      → Inv staff sett scope b
      → At staff sett scope id
          (record b { u_d = some id; m_sessions = modify id (touch b.clock) b.m_sessions })
  find-Inv id b ud e own p = record {
    inv = record {
      same_staff = p.same_staff;
      same_sett = p.same_sett;
      frame = q.frame;
      digest = p.digest;
      store = q.store;
      sound = q.sound;
      live = modify-Live staff sett scope id id (touch b.clock) b.m_sessions (ud, e);
    };
    points = refl;
    own = own;
    exists = modify-Live staff sett scope id id (touch b.clock) b.m_sessions (ud, e);
  }
    where
      q : Inv staff sett scope (record b { m_sessions = modify id (touch b.clock) b.m_sessions })
      q =
          modify-Inv staff sett scope id (touch b.clock) b own
            (λ u s. record { authorised = s.authorised; owner = s.owner; aligned = s.aligned }) p

  -- `uD = uniq_data(id); if (uD) … else …`.
  pub point_to-Keeps :
      {B : Type 0} (id : ℤ) {m other : M B}
      → Free scope id
      → Keeps (At staff sett scope id) m
      → Keeps (Inv staff sett scope) other
      → Keeps (Inv staff sett scope) (point_to id >>= λ p. branch p m other)
  unfolding ◌>>=◌ after branch
  point_to-Keeps id {m} {other} own h ho = record {
    run = λ b p. elim (Option-cases (lookup id b.m_sessions)) [
      | inl e ↦ rw (point_to-none id b e) (ho.run _ (nowhere-Inv staff sett scope b p))
      | inr (ud, e) ↦
          rw (point_to-some id b ud e) (Ends-At id _ (h.run _ (find-Inv id b ud e own p)))
    ];
  }
