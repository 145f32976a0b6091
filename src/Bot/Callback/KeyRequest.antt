-- ===== src/Bot/Callback/KeyRequest.antt =====
-- The answers to a request for a key keep the invariant, whatever happens to the requester's session.
use tgbot_with_rest.Prelude.{
  ℤ, pos, ◌==ℤ◌, true, false, not, String, List, Option, none, some, ◌≡◌, refl, ◌⊎◌, inl, inr,
  Bool-cases, Option-cases, ◌&&◌, ◌||◌,
}
use tgbot_with_rest.Text.{Text}
use tgbot_with_rest.Structures.{NewTask}
use tgbot_with_rest.Sessions.{lookup}
use tgbot_with_rest.Bot.{Bot}
use tgbot_with_rest.Bot.Monad.{
  M, ◌>>=◌, pure, skip, when, branch, get, point_to, modify_task, caught, after, try_catch,
}
use tgbot_with_rest.Bot.Keeps.{
  Keeps, Ends, Ends-mono, IgnoresOut, after-Ends, caught-Ends, >>=-Keeps, >>-Keeps, pure-Keeps,
  get-Keeps, request-Keeps, when-Keeps, branch-Keeps, in_thread-Keeps,
}
use tgbot_with_rest.Bot.Inv.{
  nowhere-Inv, Scope, Free, Inv, At, At-IgnoresOut, Inv-IgnoresOut, the_ud-Keeps,
}
use tgbot_with_rest.Bot.Points.{point_to-none, point_to-some, find-Inv}
use tgbot_with_rest.Bot.Rules.{say-Keeps, support-Keeps, staff-Keeps, field-Keeps}
use tgbot_with_rest.Bot.Keys.Safe.{insert_key-Keeps}
use tgbot_with_rest.Bot.Query.{CallbackQuery}
use tgbot_with_rest.Bot.Approval.{
  is_approve, is_reject, requester, send_key, approve, reject, try_approve, points_somewhere,
  try_reject, answer_key_request, key_request,
}

module _ (staff : List ℤ) (sett : String → Text) (scope : Scope) where
  module _ (id : ℤ) where
    abbrev Kept : {A : Type 0} → M A → Type 0
    Kept = Keeps (At staff sett scope id)

    quiet : IgnoresOut (At staff sett scope id)
    quiet = At-IgnoresOut staff sett scope id

    field : (f : NewTask → NewTask) → ((t : NewTask) → (f t).stat_ ≡ t.stat_) → Kept (modify_task f)
    field = field-Keeps staff sett scope id

    send_key-Keeps : (q : CallbackQuery) (r : ℤ) (key : Text) → Kept (send_key q r key)
    unfolding send_key
    send_key-Keeps q r key =
        branch-Keeps _ (λ _. support-Keeps quiet _ _)
          λ _. get-Keeps λ b p. >>-Keeps (say-Keeps quiet _ _ _) (
            >>=-Keeps (the_ud-Keeps staff sett scope id)
              λ ud. in_thread-Keeps (staff-Keeps quiet _ _))

    approve-Keeps : (q : CallbackQuery) (r : ℤ) → Kept (approve q r)
    unfolding approve
    approve-Keeps q r = >>=-Keeps (the_ud-Keeps staff sett scope id) λ ud. when-Keeps _ λ _.
        >>=-Keeps (insert_key-Keeps staff sett scope id ud)
          λ key. >>-Keeps (send_key-Keeps q r key) (field _ (λ t. refl))

    reject-Keeps : (q : CallbackQuery) (r : ℤ) → Kept (reject q r)
    unfolding reject
    reject-Keeps q r = >>=-Keeps (the_ud-Keeps staff sett scope id) λ ud. when-Keeps _ λ _.
        >>-Keeps (say-Keeps quiet _ _ _) (
          >>=-Keeps (the_ud-Keeps staff sett scope id)
            λ ud'. >>-Keeps (in_thread-Keeps (staff-Keeps quiet _ _)) (field _ (λ t. refl)))

  -- `uD` is null, or points to the session of `id`.
  abbrev About : ℤ → Bot → Type 0
  About id b = (Inv staff sett scope b × (b.u_d ≡ none)) ⊎ At staff sett scope id b

  About-Inv : (id : ℤ) (b : Bot) → About id b → Inv staff sett scope b
  About-Inv id b (inl p) = p.0
  About-Inv id b (inr p) = p.inv

  -- What keeps `uD` null.
  Nowhere-IgnoresOut : IgnoresOut (λ b. Inv staff sett scope b × (b.u_d ≡ none))
  Nowhere-IgnoresOut b es p = (Inv-IgnoresOut staff sett scope b es p.0, p.1)

  weaken :
      {A : Type 0} {P Q : Bot → Type 0} {m : M A}
      → Keeps P m
      → ((b : Bot) → P b → Q b)
      → (b : Bot) → P b
      → Ends Q (m b)
  weaken {m} k h b p = Ends-mono (m b) h (k.run b p)

  point_to-About :
      (id : ℤ) {A : Type 0} {m other : M A}
      → Free scope id
      → Keeps (At staff sett scope id) m
      → Keeps (λ b. Inv staff sett scope b × (b.u_d ≡ none)) other
      → (b : Bot) → Inv staff sett scope b
      → Ends (About id) ((point_to id >>= λ p. branch p m other) b)
  unfolding ◌>>=◌ after branch
  point_to-About id {m} {other} own h ho b p = elim (Option-cases (lookup id b.m_sessions)) [
    | inl e ↦ rw (point_to-none id b e) (
        weaken {Q = About id} ho (λ b. inl) (record b { u_d = none })
          (nowhere-Inv staff sett scope b p, refl))
    | inr (ud, e) ↦
        rw (point_to-some id b ud e)
          (weaken {Q = About id} h (λ b. inr) _ (find-Inv staff sett scope id b ud e own p))
  ]

  try_approve-About :
      (q : CallbackQuery) (id : ℤ) (b : Bot)
      → Free scope id
      → Inv staff sett scope b
      → Ends (About id) (try_approve q id b)
  unfolding try_approve
  try_approve-About q id b own =
      point_to-About id own
        (>>-Keeps (when-Keeps _ (λ _. approve-Keeps id q id)) (pure-Keeps false))
        (>>-Keeps (request-Keeps Nowhere-IgnoresOut _) (pure-Keeps true)) b

  try_reject-About : (q : CallbackQuery) (id : ℤ) → Keeps (About id) (try_reject q id)
  unfolding try_reject points_somewhere get ◌>>=◌ after when skip
  try_reject-About q id = record {
    run = λ b p. elim p [
      | inl k ↦ nowhere b b.u_d k.1 (inl k)
      | inr k ↦ weaken {Q = About id} (when-Keeps _ (λ _. reject-Keeps id q id)) (λ b. inr) b k
    ];
  }
    where
      nowhere :
          (b : Bot) (u : Option ℤ)
          → u ≡ none
          → About id b
          → Ends
              (About id)
              (when (not (id ==ℤ pos 0) && points_somewhere u && is_reject q) (reject q id) b)
      nowhere b u e p = elim (Bool-cases (not (id ==ℤ pos 0))) [
        | inl f ↦ rw (e, f) p
        | inr f ↦ rw f p
      ]

  answer-Inv :
      (q : CallbackQuery) (id : ℤ)
      → Free scope id
      → Keeps (Inv staff sett scope) (answer_key_request q id)
  unfolding answer_key_request try_catch ◌>>=◌
  answer-Inv q id own = record {
    run = λ b p. Ends-mono _ (About-Inv id) (
        after-Ends {P = About id} _ (caught (λ e. pure false) (try_approve q id b))
          (λ returned.
            branch-Keeps returned (λ _. pure-Keeps true)
              (λ _. >>-Keeps (try_reject-About q id) (pure-Keeps false)))
          (caught-Ends (λ e. pure false) (try_approve q id b) (λ e. pure-Keeps false)
            (try_approve-About q id b own p)));
  }

  pub key_request-Inv :
      (q : CallbackQuery)
      → ((k : ℤ) → is_approve q || is_reject q ≡ true → requester q.data_ ≡ some k → Free scope k)
      → Keeps (Inv staff sett scope) (key_request q)
  unfolding key_request
  key_request-Inv q asked = elim (Bool-cases (is_approve q || is_reject q)) [
    | inl e ↦ elim (Option-cases (requester q.data_)) [
      | inl f ↦ rw (e, f) (pure-Keeps false)
      | inr (id, f) ↦ rw (e, f) (answer-Inv q id (asked id e f))
    ]
    | inr e ↦ rw e (pure-Keeps false)
  ]
