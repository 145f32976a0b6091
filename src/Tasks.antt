-- ===== src/Tasks.antt =====
-- src/task_queue.h: tasks that other threads leave for the main thread. What a task does is the
-- parameter `exec`: it changes the state, may post tasks, and may end in an exception. The mutex
-- makes `post` and the swap atomic, so an interleaving is the order of the posts.
pub mod Order
use tgbot_with_rest.Prelude.{ℕ, Bool, true, false, List, [], ◌∷◌, ◌++◌, length}

-- What one task did.
pub record Effect (S T : Type 0) : Type 0 where
  pub state : S
  pub posted : List T
  pub threw : Bool

pub record Queue (S T : Type 0) : Type 0 where
  pub state : S
  pub m_tasks : List T

-- How `run_pending` ended: with the number of tasks it ran, or with a task's exception.
pub record Ran (S T : Type 0) : Type 0 where
  pub queue : Queue S T
  pub threw : Bool
  pub count : ℕ

module _ {S T : Type 0} where
  unfoldable pub post : T → Queue S T → Queue S T
  post task q = record q { m_tasks = q.m_tasks ++ task ∷ [] }

  -- The loop over the tasks that were taken out. An exception leaves the rest of them unrun.
  unfoldable pub run_tasks : (T → S → Effect S T) → ℕ → List T → Queue S T → Ran S T
  run_tasks exec n [] q = record { queue = q; threw = false; count = n }
  run_tasks exec n (t ∷ ts) q =
      let e = exec t q.state in
      let q' : Queue S T = record { state = e.state; m_tasks = q.m_tasks ++ e.posted } in
      let rest = run_tasks exec n ts q' in
      elim e.threw [ true ↦ record { queue = q'; threw = true; count = 0 } | false ↦ rest ]

  unfoldable pub run_pending : (T → S → Effect S T) → Queue S T → Ran S T
  unfolding run_tasks
  run_pending exec q = run_tasks exec (length q.m_tasks) q.m_tasks (record q { m_tasks = [] })
