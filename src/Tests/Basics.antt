-- ===== src/Tests/Basics.antt =====
-- Concrete inputs for the theorems on sessions, tasks, texts, one-time keys and letters.
use tgbot_with_rest.Prelude.{
  not, ◌&&◌, ◌↔◌, is_empty, map, ℕ, zero, suc, pos, true, false, List, [], ◌∷◌, ◌++◌, none, some,
  ◌≡◌, ◌≢◌, refl, length, replicate, ltb, ◌<◌, ◌+◌, ◌-◌, ◌^◌, if◌then◌else◌, arith,
}
use mathlib.Core.Option
use tgbot_with_rest.Text.{Text, text_eq}
use tgbot_with_rest.Webhook.{webhook_token_valid, webhook_token_valid_lem}
use tgbot_with_rest.Assignees.{
  Notified, tolower, is_email, email_of, remember_assignee, remember_assignee_lem,
}
use tgbot_with_rest.Sessions.{Sessions, lookup, evict_idle}
use tgbot_with_rest.Sessions.Laws.{IsStore}
use tgbot_with_rest.Sessions.Idle.{evict_idle_lem}
use tgbot_with_rest.Tasks.{Effect, Queue, run_tasks, run_pending}
use tgbot_with_rest.Tasks.Order.{posts, run_pending_fifo, run_pending_loses}
use tgbot_with_rest.Escape.{escape_string, escape_json_entire_text, filled}
use tgbot_with_rest.Escape.Pieces.{string_piece, pieces}
use tgbot_with_rest.Escape.Buffer.{last_cell, filled-pieces, escape_string-pieces}
use tgbot_with_rest.Escape.RoundTrip.{unescape, unescape-escape}
use tgbot_with_rest.Totp.{otp, otp-bound}
use tgbot_with_rest.Tests.Samples.{sample_session}

-- A quote, a control character and a byte of UTF-8.
abbrev sample_text : Text
sample_text = b'"' ∷ 1 ∷ 0xd0 ∷ []

unescape-escape_example :
    (unescape (escape_string sample_text) ≡ some sample_text)
    × (unescape (escape_json_entire_text sample_text) ≡ some sample_text)
unescape-escape_example =
    unescape-escape sample_text (omega arith, (omega arith, (omega arith, tt)))

filled-pieces_example :
    filled sample_text ≡ pieces string_piece sample_text ++ last_cell sample_text 0 ∷ []
filled-pieces_example = filled-pieces sample_text

escape_string-pieces_example : escape_string sample_text ≡ pieces string_piece sample_text
escape_string-pieces_example = escape_string-pieces sample_text

abbrev sample_store : Sessions
sample_store = (pos 7, sample_session) ∷ []

evict_idle_lem_example :
    let (evicted, m') = evict_idle 9 5 sample_store in
    IsStore m'
    × (lookup (pos 7) m'
        ≡ Option.bind
            (lookup (pos 7) sample_store)
            (λ ud. if ltb 5 (9 - ud.last_activity) then none else some ud))
    × (evicted + length m' ≡ length sample_store)
evict_idle_lem_example = evict_idle_lem (pos 7) 9 5 sample_store (tt, tt)

otp-bound_example :
    (n : ℕ) × (n < 10 ^ 6) × (otp (λ s. replicate 20 7) (b'k' ∷ []) 1000 6 2 ≡ some n)
otp-bound_example = otp-bound (λ s. replicate 20 7) (b'k' ∷ []) 1000 2 (λ s. refl)

-- Tasks are numbers; the state is their journal; 0 throws, and 1 posts 5.
abbrev sample_exec : ℕ → List ℕ → Effect (List ℕ) ℕ
sample_exec zero s = record { state = s ++ 0 ∷ []; posted = []; threw = true }
sample_exec (suc zero) s = record { state = s ++ 1 ∷ []; posted = 5 ∷ []; threw = false }
sample_exec (suc (suc n)) s = record { state = s ++ suc (suc n) ∷ []; posted = []; threw = false }

sample_exec-Journals : (t : ℕ) (s : List ℕ) → (sample_exec t s).state ≡ s ++ t ∷ []
sample_exec-Journals zero s = refl
sample_exec-Journals (suc zero) s = refl
sample_exec-Journals (suc (suc n)) s = refl

abbrev sample_queue : Queue (List ℕ) ℕ
sample_queue = record { state = []; m_tasks = 1 ∷ 2 ∷ [] }

abbrev throwing_queue : Queue (List ℕ) ℕ
throwing_queue = record { state = []; m_tasks = 1 ∷ 0 ∷ 2 ∷ [] }

run_pending_fifo_example :
    ((run_pending sample_exec sample_queue).queue.state ≡ [] ++ sample_queue.m_tasks)
    × ((run_pending sample_exec sample_queue).queue.m_tasks
        ≡ posts sample_exec sample_queue.m_tasks [])
    × ((run_pending sample_exec sample_queue).count ≡ length sample_queue.m_tasks)
unfolding run_pending run_tasks
run_pending_fifo_example =
    run_pending_fifo (λ s. s) sample_exec sample_queue sample_exec-Journals refl

run_pending_loses_example :
    (ran : List ℕ) × (t : ℕ) × (lost : List ℕ) × (throwing_queue.m_tasks ≡ ran ++ t ∷ lost)
    × ((run_pending sample_exec throwing_queue).queue.state ≡ [] ++ ran ++ t ∷ [])
    × ((run_pending sample_exec throwing_queue).queue.m_tasks
        ≡ posts sample_exec (ran ++ t ∷ []) [])
unfolding run_pending run_tasks
run_pending_loses_example =
    run_pending_loses (λ s. s) sample_exec throwing_queue sample_exec-Journals refl

abbrev sample_secret : Text
sample_secret = b'k' ∷ []

webhook_token_valid_lem_example :
    (webhook_token_valid (λ url. sample_secret) [] sample_secret ≡ true)
    ↔ ((sample_secret ≢ []) × (sample_secret ≡ sample_secret))
webhook_token_valid_lem_example =
    webhook_token_valid_lem (λ url. sample_secret) [] sample_secret (omega arith, tt)
      (omega arith, tt)

-- The assignee of issue "a" changes.
abbrev sample_notified : Notified
sample_notified = (b'a' ∷ [], b'x' ∷ []) ∷ []

remember_assignee_lem_example :
    let (due, m') = remember_assignee sample_notified (b'a' ∷ []) (b'Y' ∷ []) in
    let lower = map tolower (b'Y' ∷ []) in
    (due ≡ (not (is_empty lower) && not (is_email lower (email_of (b'a' ∷ []) sample_notified))))
    × (email_of (b'b' ∷ []) m' ≡ (
        if text_eq (b'a' ∷ []) (b'b' ∷ [])
        then if is_empty lower then none else some lower
        else email_of (b'b' ∷ []) sample_notified))
remember_assignee_lem_example =
    remember_assignee_lem sample_notified (b'a' ∷ []) (b'b' ∷ []) (b'Y' ∷ [])
