-- ===== src/Bot/Inv.antt =====
-- The invariant of the bot's sessions, and the handler on the session that `uD` points to.
use mathlib.Core.Option
use tgbot_with_rest.Prelude.{
  ℤ, ◌==ℤ◌, ==ℤ_iff, true, String, List, [], ◌∷◌, Option, none, some, ◌≡◌, refl, ◌∙◌, sym, subst,
  inl, inr, arith, All, length, Bool-cases,
}
use tgbot_with_rest.Text.{Text}
use tgbot_with_rest.Structures.{UserDispatcher}
use tgbot_with_rest.Access.{role_for_step}
use tgbot_with_rest.Sessions.{Sessions, lookup, modify}
use tgbot_with_rest.Sessions.Laws.{IsStore, lookup-modify, modify-IsStore}
use tgbot_with_rest.Bot.{Bot}
use tgbot_with_rest.Bot.Monad.{M, ◌>>=◌, after, the_ud, read_at, modify_ud, write_at}
use tgbot_with_rest.Bot.Keeps.{Keeps, IgnoresOut}
use tgbot_with_rest.Bot.Users.{has_role}

-- Whoever is in a dialogue step has the role that the step needs; each session is filed under its
-- user; the two lists of sent messages run in step.
pub record IsSound (staff : List ℤ) (sett : String → Text) (k : ℤ) (ud : UserDispatcher)
    : Type 0 where
  pub authorised : has_role staff sett k (role_for_step ud.jira_task.stat_) ≡ true
  pub owner : ud.chat_user_tg_id ≡ k
  pub aligned : length ud.recent_msg_ids ≡ length ud.recent_msgs

abbrev pub SoundAt : List ℤ → (String → Text) → ℤ × UserDispatcher → Type 0
SoundAt staff sett s = IsSound staff sett s.0 s.1

-- What the session of a user may be, or that there is none.
abbrev pub Scope : Type 1
Scope = ℤ → Option UserDispatcher → Type 0

abbrev pub anything : Scope
anything k o = Unit

-- The session of `k` may be any.
abbrev pub Free : Scope → ℤ → Type 0
Free scope k = (ud : UserDispatcher) → scope k (some ud)

-- The session of `k` exists.
abbrev pub Live : Sessions → Option ℤ → Type 0
Live m none = Unit
Live m (some k) = (ud : UserDispatcher) × (lookup k m ≡ some ud)

module _ (staff : List ℤ) (sett : String → Text) (scope : Scope) where
  -- The invariant of the bot: who is staff and the settings are fixed, SHA-1
  -- yields 20 bytes, no two sessions share a key,
  -- every session is sound and within the scope, and `uD` is null or points to a session.
  pub record Inv (b : Bot) : Type 0 where
    pub same_staff : b.v_staff ≡ staff
    pub same_sett : b.sett ≡ sett
    pub frame : (k : ℤ) → scope k (lookup k b.m_sessions)
    pub digest : (s : Text) → length (b.env.sha1 s) ≡ 20
    pub store : IsStore b.m_sessions
    pub sound : All (SoundAt staff sett) b.m_sessions
    pub live : Live b.m_sessions b.u_d

  -- The invariant while `uD` points to the session of `id`, which may be any.
  pub record At (id : ℤ) (b : Bot) : Type 0 where
    pub inv : Inv b
    pub points : b.u_d ≡ some id
    pub own : Free scope id
    pub exists : Live b.m_sessions (some id)

  -- The invariant speaks of five fields.
  pub same-Inv :
      (b b' : Bot)
      → b'.v_staff ≡ b.v_staff
      → b'.sett ≡ b.sett
      → b'.env ≡ b.env
      → b'.m_sessions ≡ b.m_sessions
      → b'.u_d ≡ b.u_d
      → Inv b
      → Inv b'
  same-Inv b b' s t e m u p = record {
    same_staff = s ∙ p.same_staff;
    same_sett = t ∙ p.same_sett;
    frame = rw m p.frame;
    digest = rw e p.digest;
    store = rw m p.store;
    sound = rw m p.sound;
    live = rw (m, u) p.live;
  }

  pub same-At :
      (id : ℤ) (b b' : Bot)
      → b'.v_staff ≡ b.v_staff
      → b'.sett ≡ b.sett
      → b'.env ≡ b.env
      → b'.m_sessions ≡ b.m_sessions
      → b'.u_d ≡ b.u_d
      → At id b
      → At id b'
  same-At id b b' s t e m u p = record {
    inv = same-Inv b b' s t e m u p.inv;
    points = u ∙ p.points;
    own = p.own;
    exists = rw m p.exists;
  }

  pub nowhere-Inv : (b : Bot) → Inv b → Inv (record b { u_d = none })
  nowhere-Inv b p = record {
    same_staff = p.same_staff;
    same_sett = p.same_sett;
    frame = p.frame;
    digest = p.digest;
    store = p.store;
    sound = p.sound;
    live = tt;
  }

  pub Inv-IgnoresOut : IgnoresOut Inv
  Inv-IgnoresOut b es = same-Inv b _ refl refl refl refl refl

  pub At-IgnoresOut : (id : ℤ) → IgnoresOut (At id)
  At-IgnoresOut id b es = same-At id b _ refl refl refl refl refl

  modify_sound :
      (k : ℤ) (f : UserDispatcher → UserDispatcher) (m : Sessions)
      → ((ud : UserDispatcher) → IsSound staff sett k ud → IsSound staff sett k (f ud))
      → All (SoundAt staff sett) m
      → All (SoundAt staff sett) (modify k f m)
  unfolding modify
  modify_sound k f [] h p = tt
  modify_sound k f ((j, ud) ∷ m) h p = elim (Bool-cases (j ==ℤ k)) [
    | inl e ↦ rw e (moved ((==ℤ_iff j k).0 e), p.1)
    | inr e ↦ rw e (p.0, modify_sound k f m h p.1)
  ]
    where
      moved : j ≡ k → IsSound staff sett j (f ud)
      moved e =
          subst (λ i. IsSound staff sett i ud → IsSound staff sett i (f ud)) (sym e) (h ud) p.0

  pub lookup-IsSound :
      (k : ℤ) (m : Sessions) {ud : UserDispatcher}
      → All (SoundAt staff sett) m
      → lookup k m ≡ some ud
      → IsSound staff sett k ud
  unfolding lookup
  lookup-IsSound k [] p h = absurd (ground arith)
  lookup-IsSound k ((j, u) ∷ m) {ud} p h = elim (Bool-cases (j ==ℤ k)) [
    | inl e ↦
        let q : u ≡ ud = ground arith in
        subst (IsSound staff sett k) q (subst (λ i. IsSound staff sett i u) ((==ℤ_iff j k).0 e) p.0)
    | inr e ↦ lookup-IsSound k m p.1 (ground arith)
  ]

  pub modify-Live :
      (k j : ℤ) (f : UserDispatcher → UserDispatcher) (m : Sessions)
      → Live m (some j)
      → Live (modify k f m) (some j)
  modify-Live k j f m (ud, e) = elim (Bool-cases (k ==ℤ j)) [
    | inl h ↦ (f ud, lookup-modify k j f m ∙ rw (h, e))
    | inr h ↦ (ud, lookup-modify k j f m ∙ rw (h, e))
  ]

  modify_frame :
      (k : ℤ) (f : UserDispatcher → UserDispatcher) (m : Sessions)
      → Free scope k
      → ((j : ℤ) → scope j (lookup j m))
      → (j : ℤ) → scope j (lookup j (modify k f m))
  modify_frame k f m own h j = rw (lookup-modify k j f m) (elim (Bool-cases (k ==ℤ j)) [
    | inl e ↦ rw e (
        subst (λ i. scope i (Option.map f (lookup i m))) ((==ℤ_iff k j).0 e)
          (mapped (lookup k m) (h k)))
    | inr e ↦ rw e (h j)
  ])
    where
      mapped : (o : Option UserDispatcher) → scope k o → scope k (Option.map f o)
      mapped none s = s
      mapped (some ud) s = own (f ud)

  pub modify-Inv :
      (k : ℤ) (f : UserDispatcher → UserDispatcher) (b : Bot)
      → Free scope k
      → ((ud : UserDispatcher) → IsSound staff sett k ud → IsSound staff sett k (f ud))
      → Inv b
      → Inv (record b { m_sessions = modify k f b.m_sessions })
  modify-Inv k f b own h p = record {
    same_staff = p.same_staff;
    same_sett = p.same_sett;
    frame = modify_frame k f b.m_sessions own p.frame;
    digest = p.digest;
    store = modify-IsStore k f b.m_sessions p.store;
    sound = modify_sound k f b.m_sessions h p.sound;
    live = live_after b.u_d p.live;
  }
    where
      live_after : (u : Option ℤ) → Live b.m_sessions u → Live (modify k f b.m_sessions) u
      live_after none l = tt
      live_after (some j) l = modify-Live k j f b.m_sessions l

  pub the_ud-Keeps : (id : ℤ) → Keeps (At id) the_ud
  unfolding the_ud read_at
  the_ud-Keeps id = record { run = λ b p. rw (p.points, the_ud) (rw (p.exists.1) p) }

  pub At-modify :
      (id : ℤ) (f : UserDispatcher → UserDispatcher) (b : Bot)
      → ((ud : UserDispatcher) → IsSound staff sett id ud → IsSound staff sett id (f ud))
      → At id b
      → At id (record b { m_sessions = modify id f b.m_sessions })
  At-modify id f b h p = record {
    inv = modify-Inv id f b p.own h p.inv;
    points = p.points;
    own = p.own;
    exists = modify-Live id id f b.m_sessions p.exists;
  }

  pub modify_ud-Keeps :
      (id : ℤ) (f : UserDispatcher → UserDispatcher)
      → ((ud : UserDispatcher) → IsSound staff sett id ud → IsSound staff sett id (f ud))
      → Keeps (At id) (modify_ud f)
  unfolding modify_ud write_at
  modify_ud-Keeps id f h = record {
    run = λ b p. rw (p.points, modify_ud) (rw (p.exists.1) (At-modify id f b h p));
  }

  -- What `uD` points to is sound.
  pub the_ud_then :
      {B : Type 0} (id : ℤ) (k : UserDispatcher → M B)
      → ((ud : UserDispatcher) → IsSound staff sett id ud → Keeps (At id) (k ud))
      → Keeps (At id) (the_ud >>= k)
  unfolding the_ud read_at ◌>>=◌ after
  the_ud_then id k h = record {
    run = λ b p.
        let (ud, e) = p.exists in
        rw (p.points, the_ud)
          (rw e ((h ud (lookup-IsSound id b.m_sessions p.inv.sound e)).run b p));
  }
