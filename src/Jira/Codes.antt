-- ===== src/Jira/Codes.antt =====
-- What `create_task` and `change_task_status` of src/jiraapi.cpp return.
use tgbot_with_rest.Prelude.{
  ℕ, ℤ, pos, false, [], ◌∷◌, ◌++◌, some, ◌≡◌, ◌↔◌, refl, ◌<◌, ◌^◌, arith, All, ◌==◌, ltb,
}
use tgbot_with_rest.Text.{Text, utf8}
use tgbot_with_rest.Structures.{NewTask}
use tgbot_with_rest.Numbers.{itoa, atol, clamp}
use tgbot_with_rest.Numbers.RoundTrip.{read_long-itoa}
use tgbot_with_rest.Bot.World.{Qt}
use tgbot_with_rest.Json.{Boost}
use tgbot_with_rest.Http.{
  Reply, Transfer, Accepted, is_refused, is_refused-Accepted, c_str, status_code,
}
use tgbot_with_rest.Trello.{string_at}
use tgbot_with_rest.Trello.Codes.{IsUpdated, update_code-IsUpdated}
use tgbot_with_rest.Jira.{
  Jira, task_request, find_dash, after_dash, to_int, created_issue, created, create_task,
  change_task_status, status_request,
}

abbrev pub NoDash : ℕ → Type 0
NoDash c = (c == b'-') ≡ false

find_dash-append : (p s : Text) → All NoDash p → find_dash (p ++ b'-' ∷ s) ≡ some s
find_dash-append [] s h = refl
find_dash-append (c ∷ p) s h = rw (find_dash, h.0) (find_dash-append p s h.1)

after_dash-append : (p s : Text) → All NoDash p → after_dash (p ++ b'-' ∷ s) ≡ s
after_dash-append p s h = rw (after_dash, find_dash-append p s h) refl

atol-itoa : (n : ℕ) → n < 2 ^ 31 → atol (itoa (pos n)) ≡ pos n
unfolding atol clamp
atol-itoa n h = rw (atol, read_long-itoa (pos n)) (ground arith)

to_int_small : (n : ℕ) → n < 2 ^ 31 → to_int (pos n) ≡ pos n
to_int_small n h = ground arith

created_issue_number :
    (boost : Boost) (v : boost.Value) (p : Text) (n : ℕ)
    → n < 2 ^ 31
    → All NoDash p
    → string_at boost v (utf8 "key") ≡ some (p ++ b'-' ∷ itoa (pos n))
    → created_issue boost v ≡ pos n
unfolding created_issue
created_issue_number boost v p n k h e =
    rw (created_issue, e, after_dash-append p (itoa (pos n)) h, atol-itoa n k) (to_int_small n k)

unlikely : (r : Reply) → is_refused r ≡ false → ltb 300 (status_code r) ≡ false
unfolding is_refused
unlikely r h = ground arith

-- If Jira takes the request and answers with the key of the new issue, a dash and its number behind
-- a prefix without a dash, `create_task` returns that number, which fits an `int`.
pub create_task_number :
    (jira : Jira) (qt : Qt) (boost : Boost) (transfer : Transfer) (t : NewTask)
    (project_name : Text) (r : Reply) (v : boost.Value) (p : Text) (n : ℕ)
    → transfer (task_request jira qt t project_name) ≡ some r
    → Accepted r
    → boost.parse (c_str r.answer) ≡ some v
    → string_at boost v (utf8 "key") ≡ some (p ++ b'-' ∷ itoa (pos n))
    → All NoDash p
    → n < 2 ^ 31
    → create_task jira qt boost transfer t project_name ≡ pos n
unfolding create_task created
create_task_number jira qt boost transfer t project_name r v p n e a q k h l =
    let m = (is_refused-Accepted r).1 a in
    rw (create_task, e, m, q, unlikely r m) (created_issue_number boost v p n l h k)

-- A change of the status of an issue returns 0 exactly if Jira takes the request and answers in JSON.
pub change_task_status_lem :
    (jira : Jira) (boost : Boost) (transfer : Transfer) (issue_key : Text) (new_status : ℤ)
    → (change_task_status jira boost transfer issue_key new_status ≡ 0)
      ↔ IsUpdated boost (transfer (status_request jira issue_key new_status))
unfolding change_task_status
change_task_status_lem jira boost transfer issue_key new_status = update_code-IsUpdated boost _
