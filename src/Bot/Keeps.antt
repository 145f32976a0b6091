-- ===== src/Bot/Keeps.antt =====
-- Handlers that keep a predicate of the state: if it holds before, it holds after, also when the
-- handler ends in an exception or in `std::terminate`, and there is no fault.
use tgbot_with_rest.Prelude.{Bool, true, false, ◌≡◌, refl, Option-cases, inl, inr, ◌∷◌, List}
use tgbot_with_rest.Bot.{Bot}
use tgbot_with_rest.Bot.World.{Event, Answer}
use tgbot_with_rest.Bot.Monad.{
  Result, done, thrown, terminated, fault, M, ◌>>=◌, ◌>>◌, after, pure, skip, when, branch, get,
  put, call, request, answered, try_catch, try_catch_tg, caught, rethrow_other, in_thread, joined,
}
use tgbot_with_rest.Bot.World.{Exception, tg_exception, other_exception}

abbrev pub Ends : {A : Type 0} → (Bot → Type 0) → Result A → Type 0
Ends P (done a b) = P b
Ends P (thrown e b) = P b
Ends P (terminated b) = P b
Ends P fault = ⊥

pub record Keeps {A : Type 0} (P : Bot → Type 0) (m : M A) : Type 0 where
  pub run : (b : Bot) → P b → Ends P (m b)

pub Ends-mono :
    {A : Type 0} {P Q : Bot → Type 0} (r : Result A) → ((b : Bot) → P b → Q b) → Ends P r → Ends Q r
Ends-mono (done a b) h p = h b p
Ends-mono (thrown e b) h p = h b p
Ends-mono (terminated b) h p = h b p
Ends-mono fault h p = p

joined-Ends : (P : Bot → Type 0) (r : Result (Unit {0})) → Ends P r → Ends P (joined r)
unfolding joined
joined-Ends P (done a b) p = p
joined-Ends P (thrown e b) p = p
joined-Ends P (terminated b) p = p
joined-Ends P fault p = p

module _ {P : Bot → Type 0} where
  pub after-Ends :
      {A B : Type 0} (k : A → M B) (r : Result A)
      → ((a : A) → Keeps P (k a))
      → Ends P r
      → Ends P (after k r)
  unfolding after
  after-Ends k (done a b) h p = (h a).run b p
  after-Ends k (thrown e b) h p = p
  after-Ends k (terminated b) h p = p
  after-Ends k fault h p = p

  pub >>=-Keeps :
      {A B : Type 0} {m : M A} {k : A → M B}
      → Keeps P m
      → ((a : A) → Keeps P (k a))
      → Keeps P (m >>= k)
  unfolding ◌>>=◌
  >>=-Keeps {m} {k} h hk = record { run = λ b p. after-Ends k (m b) hk (h.run b p) }

  pub >>-Keeps :
      {B : Type 0} {m : M (Unit {0})} {k : M B} → Keeps P m → Keeps P k → Keeps P (m >> k)
  unfolding ◌>>◌
  >>-Keeps {m} {k} h hk = record { run = λ b p. after-Ends (λ _. k) (m b) (λ _. hk) (h.run b p) }

  pub pure-Keeps : {A : Type 0} (a : A) → Keeps P (pure a)
  unfolding pure
  pure-Keeps a = record { run = λ b p. p }

  pub skip-Keeps : Keeps P skip
  unfolding skip
  skip-Keeps = record { run = λ b p. p }

  pub when-Keeps : (c : Bool) {m : M (Unit {0})} → (c ≡ true → Keeps P m) → Keeps P (when c m)
  unfolding when
  when-Keeps true h = h refl
  when-Keeps false h = skip-Keeps

  pub branch-Keeps :
      {A : Type 0} (c : Bool) {m k : M A}
      → (c ≡ true → Keeps P m)
      → (c ≡ false → Keeps P k)
      → Keeps P (branch c m k)
  unfolding branch
  branch-Keeps true h hk = h refl
  branch-Keeps false h hk = hk refl

  pub put-Keeps : (f : Bot → Bot) → ((b : Bot) → P b → P (f b)) → Keeps P (put f)
  unfolding put
  put-Keeps f h = record { run = h }

  -- What is read from the state satisfies the predicate.
  pub get-Keeps :
      {B : Type 0} {k : Bot → M B} → ((b : Bot) → P b → Keeps P (k b)) → Keeps P (get >>= k)
  unfolding get ◌>>=◌ after
  get-Keeps h = record { run = λ b p. (h b p).run b p }

  pub caught-Ends :
      {A : Type 0} (h : Exception → M A) (r : Result A)
      → ((e : Exception) → Keeps P (h e))
      → Ends P r
      → Ends P (caught h r)
  unfolding caught
  caught-Ends h (done a b) hk p = p
  caught-Ends h (thrown e b) hk p = (hk e).run b p
  caught-Ends h (terminated b) hk p = p
  caught-Ends h fault hk p = p

  pub try_catch-Keeps :
      {A : Type 0} {m : M A} {h : Exception → M A}
      → Keeps P m
      → ((e : Exception) → Keeps P (h e))
      → Keeps P (try_catch m h)
  unfolding try_catch
  try_catch-Keeps {m} {h} k l = record { run = λ b p. caught-Ends h (m b) l (k.run b p) }

  rethrow_other-Keeps :
      {A : Type 0} {h : Exception → M A}
      → ((e : Exception) → Keeps P (h e))
      → (e : Exception) → Keeps P (rethrow_other h e)
  unfolding rethrow_other
  rethrow_other-Keeps l (tg_exception s) = record { run = λ b p. (l (tg_exception s)).run b p }
  rethrow_other-Keeps l (other_exception s) = record { run = λ b p. p }

  pub try_catch_tg-Keeps :
      {A : Type 0} {m : M A} {h : Exception → M A}
      → Keeps P m
      → ((e : Exception) → Keeps P (h e))
      → Keeps P (try_catch_tg m h)
  unfolding try_catch_tg
  try_catch_tg-Keeps {m} {h} k l = record {
    run = λ b p. caught-Ends (rethrow_other h) (m b) (rethrow_other-Keeps l) (k.run b p);
  }

  pub in_thread-Keeps : {m : M (Unit {0})} → Keeps P m → Keeps P (in_thread m)
  unfolding in_thread
  in_thread-Keeps {m} k = record { run = λ b p. joined-Ends P (m b) (k.run b p) }

-- A predicate that does not speak of the requests made.
abbrev pub IgnoresOut : (Bot → Type 0) → Type 0
IgnoresOut P = (b : Bot) (es : List Event) → P b → P (record b { out = es })

answered-Ends :
    {A : Type 0} (P : Bot → Type 0) (a : Answer) (f : Answer → A) (b : Bot)
    → P b
    → Ends P (answered a f b)
unfolding answered
answered-Ends P a f b p = elim (Option-cases a.threw) [ inl e ↦ rw e p | inr (x, e) ↦ rw e p ]

pub call-Keeps : {P : Bot → Type 0} → IgnoresOut P → (e : Event) → Keeps P (call e)
unfolding call
call-Keeps {P} h e = record {
  run = λ b p. answered-Ends P (b.env.answer b.out e) (λ a. a) _ (h b (e ∷ b.out) p);
}

pub request-Keeps : {P : Bot → Type 0} → IgnoresOut P → (e : Event) → Keeps P (request e)
unfolding request
request-Keeps {P} h e = record {
  run = λ b p. answered-Ends P (b.env.answer b.out e) (λ _. tt) _ (h b (e ∷ b.out) p);
}

-- `Q` holds after a run that returns, `P` after any other, and there is no fault.
abbrev pub Leads : {A : Type 0} → (Bot → Type 0) → (Bot → Type 0) → Result A → Type 0
Leads P Q (done a b) = Q b
Leads P Q (thrown e b) = P b
Leads P Q (terminated b) = P b
Leads P Q fault = ⊥

pub after-Leads :
    {A B : Type 0} (P Q : Bot → Type 0) (k : A → M B) (r : Result A)
    → ((a : A) (b : Bot) → P b → Leads P Q (k a b))
    → Ends P r
    → Leads P Q (after k r)
unfolding after
after-Leads P Q k (done a b) h p = h a b p
after-Leads P Q k (thrown e b) h p = p
after-Leads P Q k (terminated b) h p = p
after-Leads P Q k fault h p = p
