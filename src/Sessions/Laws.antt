-- ===== src/Sessions/Laws.antt =====
-- Lookups after each operation of the store; its keys stay distinct.
use tgbot_with_rest.Prelude.{
  ℕ, none, some, [], ◌∷◌, ◌++◌, ℤ, ◌==ℤ◌, ==ℤ_iff, if◌then◌else◌, ◌≡◌, ◌≢◌, refl, arith, true, inl,
  inr, Option-cases,
}
use tgbot_with_rest.Prelude.{All}
use mathlib.Core.Option
use tgbot_with_rest.Text.{Text}
use tgbot_with_rest.Structures.{UserDispatcher, new_dispatcher}
use tgbot_with_rest.Sessions.{Sessions, lookup, modify, touch, create}

pub ==ℤ_refl : (k : ℤ) → (k ==ℤ k) ≡ true
==ℤ_refl k = (==ℤ_iff k k).1 refl

pub lookup-modify :
    (k j : ℤ) (f : UserDispatcher → UserDispatcher) (m : Sessions)
    → lookup j (modify k f m) ≡ (if k ==ℤ j then Option.map f (lookup j m) else lookup j m)
unfolding lookup modify
lookup-modify k j f [] = ground arith
lookup-modify k j f ((i, ud) ∷ m) =
    ground (arith, ==ℤ_iff k j, ==ℤ_iff i k, ==ℤ_iff i j, lookup-modify k j f m)

pub lookup-append_new :
    (k j : ℤ) (ud : UserDispatcher) (m : Sessions)
    → lookup k m ≡ none
    → lookup j (m ++ (k, ud) ∷ []) ≡ (if k ==ℤ j then some ud else lookup j m)
unfolding lookup
lookup-append_new k j ud [] h = refl
lookup-append_new k j ud ((i, u) ∷ m) h =
    ground (arith, ==ℤ_iff k j, ==ℤ_iff i k, ==ℤ_iff i j, lookup-append_new k j ud m)

-- No two sessions share a key.
abbrev pub Absent : ℤ → Sessions → Type 0
Absent k = All (λ s. s.0 ≢ k)

abbrev pub IsStore : Sessions → Type 0
IsStore [] = Unit
IsStore ((k, ud) ∷ m) = Absent k m × IsStore m

pub lookup_of_Absent : (k : ℤ) (m : Sessions) → Absent k m → lookup k m ≡ none
unfolding lookup
lookup_of_Absent k [] h = refl
lookup_of_Absent k ((j, ud) ∷ m) h = ground (arith, ==ℤ_iff j k, lookup_of_Absent k m h.1)

pub lookup-Absent : (k : ℤ) (m : Sessions) → lookup k m ≡ none → Absent k m
unfolding lookup
lookup-Absent k [] h = tt
lookup-Absent k ((j, ud) ∷ m) h = ground (arith, ==ℤ_iff j k, lookup-Absent k m)

Absent-modify :
    (k j : ℤ) (f : UserDispatcher → UserDispatcher) (m : Sessions)
    → Absent j m
    → Absent j (modify k f m)
unfolding modify
Absent-modify k j f [] h = tt
Absent-modify k j f ((i, ud) ∷ m) h = ground (arith, Absent-modify k j f m h.1)

pub modify-IsStore :
    (k : ℤ) (f : UserDispatcher → UserDispatcher) (m : Sessions)
    → IsStore m
    → IsStore (modify k f m)
unfolding modify
modify-IsStore k f [] h = tt
modify-IsStore k f ((i, ud) ∷ m) h =
    ground (arith, Absent-modify k i f m h.0, modify-IsStore k f m h.1)

Absent-append :
    (j k : ℤ) (ud : UserDispatcher) (m : Sessions)
    → Absent j m
    → k ≢ j
    → Absent j (m ++ (k, ud) ∷ [])
Absent-append j k ud [] h n = (n, tt)
Absent-append j k ud ((i, u) ∷ m) h n = (h.0, Absent-append j k ud m h.1 n)

append-IsStore :
    (k : ℤ) (ud : UserDispatcher) (m : Sessions)
    → Absent k m
    → IsStore m
    → IsStore (m ++ (k, ud) ∷ [])
append-IsStore k ud [] a h = (tt, tt)
append-IsStore k ud ((i, u) ∷ m) a h =
    (Absent-append i k ud m h.0 (λ e. a.0 (cc)), append-IsStore k ud m a.1 h.1)

-- In a store with distinct keys, `create` keeps them distinct, and afterwards finds the session of its key: the old one marked
-- as active, or a fresh one. The sessions of all other keys are as they were.
pub create_lem :
    (k j : ℤ) (tg_name first_name : Text) (now : ℕ) (m : Sessions)
    → IsStore m
    → let (ud, m') = create k tg_name first_name now m in
      IsStore m'
      × (lookup j m' ≡ (if k ==ℤ j then some ud else lookup j m))
      × (ud ≡ elim (lookup k m) [
        | none ↦ new_dispatcher k tg_name first_name now
        | some old ↦ touch now old
      ])
unfolding create
create_lem k j tg_name first_name now m h = elim (Option-cases (lookup k m)) [
  | inl e ↦
      rw (e, create)
        (append-IsStore k _ m (lookup-Absent k m e) h, lookup-append_new k j _ m e, refl)
  | inr (ud, e) ↦
      rw (e, create)
        (modify-IsStore k _ m h, ground (arith, lookup-modify k j (touch now) m, ==ℤ_iff k j), refl)
]
