-- ===== src/Bot/Dispatcher/Safe.antt =====
-- After the dispatcher, `uD` points to the session of the sender.
use mathlib.Core.Option
use tgbot_with_rest.Prelude.{
  ltb, ◌-◌, if◌then◌else◌, ◌==ℤ◌, ==ℤ_iff, Bool-cases, sym, subst, Option, All-append, ℕ, ℤ, String,
  List, [], ◌∷◌, ◌++◌, none, some, ◌≡◌, refl, ◌∙◌, inl, inr, Option-cases, All,
}
use tgbot_with_rest.Text.{Text}
use tgbot_with_rest.Structures.{UserDispatcher, new_dispatcher}
use tgbot_with_rest.Access.{role_for_step}
use tgbot_with_rest.Sessions.{Sessions, lookup, create, evict_idle}
use tgbot_with_rest.Sessions.Laws.{IsStore, create_lem, ==ℤ_refl}
use tgbot_with_rest.Sessions.Idle.{lookup-active, active-IsStore, active-All}
use tgbot_with_rest.Bot.{Bot}
use tgbot_with_rest.Bot.Monad.{element, ◌>>=◌, ◌>>◌, skip, branch, put, point_to, after}
use tgbot_with_rest.Bot.Keeps.{
  Keeps, Leads, after-Leads, >>=-Keeps, >>-Keeps, pure-Keeps, skip-Keeps, get-Keeps, put-Keeps,
  call-Keeps, request-Keeps, branch-Keeps,
}
use tgbot_with_rest.Bot.Inv.{
  same-Inv, nowhere-Inv, Scope, Free, IsSound, SoundAt, Inv, At, Inv-IgnoresOut,
}
use tgbot_with_rest.Bot.Points.{point_to-none, point_to-some, find-Inv}
use tgbot_with_rest.Bot.Rules.{has_role_anyone}
use tgbot_with_rest.Bot.Registry.{add_consumer_to_db, reload_consumers_list}
use tgbot_with_rest.Bot.Photos.{User, Message, SentMessage, with_from}
use tgbot_with_rest.Bot.Dispatcher.{
  evict, evict_idle_sessions, create_session, register_consumer, dispatch_from, session_dispatcher,
}

created :
    (k : ℤ) (name first_name : Text) (now : ℕ) (m : Sessions)
    → lookup k m ≡ none
    → (create k name first_name now m).1 ≡ m ++ (k, new_dispatcher k name first_name now) ∷ []
unfolding create
created k name first_name now m e = rw (e, create)

module _ (staff : List ℤ) (sett : String → Text) (scope : Scope) where
  consumers-Inv :
      (f : Bot → List ℤ) (b : Bot)
      → Inv staff sett scope b
      → Inv staff sett scope (record b { v_consumers = f b })
  consumers-Inv f b p = same-Inv staff sett scope b _ refl refl refl refl refl p

  reload_consumers-Inv : Keeps (Inv staff sett scope) reload_consumers_list
  unfolding reload_consumers_list
  reload_consumers-Inv = >>-Keeps (put-Keeps _ (consumers-Inv _)) (
      >>=-Keeps (call-Keeps (Inv-IgnoresOut staff sett scope) _)
        (λ a. put-Keeps _ (consumers-Inv _)))

  add_consumer-Inv :
      (tg_id : ℤ) (link : Text) → Keeps (Inv staff sett scope) (add_consumer_to_db tg_id link)
  unfolding add_consumer_to_db
  add_consumer-Inv tg_id link = get-Keeps λ b p.
      branch-Keeps _ (λ _. pure-Keeps 0)
        λ _. >>=-Keeps (call-Keeps (Inv-IgnoresOut staff sett scope) _) λ a.
          branch-Keeps _
            (λ _. >>-Keeps (request-Keeps (Inv-IgnoresOut staff sett scope) _) (pure-Keeps 0))
            (λ _. pure-Keeps 1)

  register-Inv : (m : SentMessage) → Keeps (Inv staff sett scope) (register_consumer m)
  unfolding register_consumer
  register-Inv m = get-Keeps λ b p.
      branch-Keeps _ (λ _. skip-Keeps)
        λ _. >>=-Keeps (add_consumer-Inv _ _) (λ code. reload_consumers-Inv)

  -- A session that was idle is gone.
  stays :
      (now ttl : ℕ) (k : ℤ) (o : Option UserDispatcher)
      → scope k none
      → scope k o
      → scope k (Option.bind o (λ ud. if ltb ttl (now - ud.last_activity) then none else some ud))
  unfolding Option.bind
  stays now ttl k none gone s = s
  stays now ttl k (some ud) gone s = elim (Bool-cases (ltb ttl (now - ud.last_activity))) [
    | inl e ↦ rw e gone
    | inr e ↦ rw e s
  ]

  evict-Inv :
      ((k : ℤ) → scope k none) → (b : Bot) → Inv staff sett scope b → Inv staff sett scope (evict b)
  unfolding evict evict_idle
  evict-Inv gone b p = record {
    same_staff = p.same_staff;
    same_sett = p.same_sett;
    frame = λ k.
        subst (scope k) (sym (lookup-active k b.clock _ b.m_sessions p.store))
          (stays b.clock _ k (lookup k b.m_sessions) (gone k) (p.frame k));
    digest = p.digest;
    store = active-IsStore b.clock _ b.m_sessions p.store;
    sound = active-All _ b.clock _ b.m_sessions p.sound;
    live = tt;
  }

  evict_idle-Inv : ((k : ℤ) → scope k none) → Keeps (Inv staff sett scope) evict_idle_sessions
  unfolding evict_idle_sessions
  evict_idle-Inv gone =
      get-Keeps λ b p. branch-Keeps _ (λ _. skip-Keeps) (λ _. put-Keeps evict (evict-Inv gone))

  new-IsSound :
      (k : ℤ) (name first_name : Text) (now : ℕ)
      → IsSound staff sett k (new_dispatcher k name first_name now)
  unfolding role_for_step
  new-IsSound k name first_name now = record {
    authorised = has_role_anyone staff sett k 0 refl;
    owner = refl;
    aligned = refl;
  }

  create-At :
      (m : SentMessage) (b : Bot)
      → lookup m.from_id b.m_sessions ≡ none
      → Free scope m.from_id
      → Inv staff sett scope b
      → At staff sett scope m.from_id (create_session m b)
  unfolding create_session
  create-At m b e own p = record {
    inv = record {
      same_staff = p.same_staff;
      same_sett = p.same_sett;
      frame = created_frame;
      digest = p.digest;
      store = store_after;
      sound = created_sound;
      live = found;
    };
    points = refl;
    own = own;
    exists = found;
  }
    where
      sessions : Sessions
      sessions = (create m.from_id m.from_username m.from_first_name b.clock b.m_sessions).1

      made : UserDispatcher
      made = (create m.from_id m.from_username m.from_first_name b.clock b.m_sessions).0

      store_after : IsStore sessions
      store_after =
          (create_lem m.from_id m.from_id m.from_username m.from_first_name b.clock b.m_sessions
            p.store).0

      found : (ud : UserDispatcher) × (lookup m.from_id sessions ≡ some ud)
      found = (
        made,
        (create_lem m.from_id m.from_id m.from_username m.from_first_name b.clock b.m_sessions
              p.store).1
            ∙ rw (==ℤ_refl m.from_id),
      )

      created_frame : (j : ℤ) → scope j (lookup j sessions)
      created_frame j =
          subst (scope j)
            (sym
              (create_lem m.from_id j m.from_username m.from_first_name b.clock b.m_sessions
                p.store).1)
            (elim (Bool-cases (m.from_id ==ℤ j)) [
              | inl h ↦ rw h (subst (Free scope) ((==ℤ_iff m.from_id j).0 h) own made)
              | inr h ↦ rw h (p.frame j)
            ])

      created_sound : All (SoundAt staff sett) sessions
      created_sound =
          rw (created m.from_id m.from_username m.from_first_name b.clock b.m_sessions e) (
            All-append (SoundAt staff sett) b.m_sessions (_ ∷ []) p.sound
              (new-IsSound m.from_id m.from_username m.from_first_name b.clock, tt))

  find_or_create-Leads :
      (m : SentMessage) (b : Bot)
      → Free scope m.from_id
      → Inv staff sett scope b
      → Leads
          (Inv staff sett scope)
          (At staff sett scope m.from_id)
          ((point_to m.from_id >>= λ found. branch found skip (put (create_session m))) b)
  unfolding ◌>>=◌ after branch skip put
  find_or_create-Leads m b own p = elim (Option-cases (lookup m.from_id b.m_sessions)) [
    | inl e ↦
        rw (point_to-none m.from_id b e)
          (create-At m (record b { u_d = none }) e own (nowhere-Inv staff sett scope b p))
    | inr (ud, e) ↦
        rw (point_to-some m.from_id b ud e) (find-Inv staff sett scope m.from_id b ud e own p)
  ]

dispatch_from-Leads :
    (staff : List ℤ) (sett : String → Text) (scope : Scope) (m : SentMessage) (b : Bot)
    → Free scope m.from_id
    → ((k : ℤ) → scope k none)
    → Inv staff sett scope b
    → Leads (Inv staff sett scope) (At staff sett scope m.from_id) (dispatch_from m b)
unfolding dispatch_from ◌>>◌
dispatch_from-Leads staff sett scope m b own gone p =
    after-Leads (Inv staff sett scope) (At staff sett scope m.from_id) _ (register_consumer m b)
      (λ _ b p.
        after-Leads (Inv staff sett scope) (At staff sett scope m.from_id) _ (evict_idle_sessions b)
          (λ _ b p. find_or_create-Leads staff sett scope m b own p)
          ((evict_idle-Inv staff sett scope gone).run b p))
      ((register-Inv staff sett scope m).run b p)

-- In a state with the invariant, the dispatcher ends without a fault, if the message has a sender; if
-- it returns, `uD` points to the session of the sender, which is in the store, and the invariant
-- holds; else the invariant holds. Its scope, a condition on the session of each user, must be free
-- for the sender and allow that a session is gone; so no other session leaves its scope.
pub session_dispatcher-Leads :
    (staff : List ℤ) (sett : String → Text) (scope : Scope) (m : Message) (u : User) (b : Bot)
    → m.from ≡ some u
    → Free scope u.id
    → ((k : ℤ) → scope k none)
    → Inv staff sett scope b
    → Leads (Inv staff sett scope) (At staff sett scope u.id) (session_dispatcher m b)
unfolding session_dispatcher element ◌>>=◌ after
session_dispatcher-Leads staff sett scope m u b there own gone p =
    rw there (dispatch_from-Leads staff sett scope (with_from m u) b own gone p)
