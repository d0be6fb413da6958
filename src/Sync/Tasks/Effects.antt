-- ===== src/Sync/Tasks/Effects.antt =====
-- The effect of a finished page, a finished task and a failed task on the two tables
-- (updateTaskStatusAndContinue and markCurrentTaskAsFailedAndContinue of src/sync/installation.ts).
use github_for_jira.Base.{
  ℕ, ◌≡◌, refl, ◌∙◌, Bool, true, false, ◌&&◌, List, [], ◌∷◌, map, String, Option, none, some, arith,
  ◌==◌, if◌then◌else◌, last?,
}
use github_for_jira.Sync.Types.{
  TaskType, repository, ◌=t=◌, TaskStatus, pending, complete, Task, TaskResultPayload,
  BackfillMessagePayload,
}
use github_for_jira.Sync.Store.{Subscription, Db}
use github_for_jira.Sync.Tasks.{
  World, Sender, update_repo, task_assignments, find_subscription_for_message,
  update_task_status_and_continue,
}
use github_for_jira.Sync.Tasks.Columns.{
  column, status_after, cursor_after, code_after, assigned-status, assigned-cursor,
  assigned-failed_code, row_values, column-update_repo,
}

-- The status and the cursor that a page with these edges leaves behind.
abbrev pub status_for : List String → TaskStatus
status_for edges = elim (last? edges) [ none ↦ complete | some c ↦ pending ]

abbrev pub cursor_for : List String → Option String → Option String
cursor_for edges old = elim (last? edges) [ none ↦ old | some c ↦ some c ]

-- A column with the written entries given anew.
abbrev pub if_written : {A : Type 0} → Bool → (A → A) → List A → List A
if_written b g xs = if b then map g xs else xs

map_same : {A : Type 0} (g : A → A) (xs : List A) → ((x : A) → g x ≡ x) → map g xs ≡ xs
map_same g [] h = refl
map_same g (x ∷ xs) h = cc (h x, map_same g xs h)

-- A write that is made only where `c` holds.
pub map_guarded :
    {A : Type 0} (b c : Bool) (g : A → A) (xs : List A)
    → (if b then map (λ x. if c then g x else x) xs else xs) ≡ if_written (b && c) g xs
map_guarded true true g xs = refl
map_guarded true false g xs = map_same (λ x. x) xs (λ x. refl)
map_guarded false c g xs = refl

pub if_map_id : {A : Type 0} (b : Bool) (xs : List A) → (if b then map (λ x. x) xs else xs) ≡ xs
if_map_id true xs = map_same (λ x. x) xs (λ x. refl)
if_map_id false xs = refl

module _ (payload : BackfillMessagePayload) (edges : List String) (task : Task)
    (subscription : Subscription) (db : Db) (in_rows : (task.task =t= repository) ≡ false) where
  pub assigns_status :
      (u : TaskType) (s : Option TaskStatus)
      → status_after (row_values (task_assignments payload edges task subscription db)) u s
        ≡ (if task.task =t= u then some (status_for edges) else s)
  unfolding task_assignments
  assigns_status u s = ground arith

  assigns_cursor :
      (u : TaskType) (c : Option String)
      → cursor_after (row_values (task_assignments payload edges task subscription db)) u c
        ≡ (if task.task =t= u then cursor_for edges c else c)
  unfolding task_assignments
  assigns_cursor u c = ground arith

  assigns_code :
      (c : Option String)
      → code_after (row_values (task_assignments payload edges task subscription db)) c ≡ c
  unfolding task_assignments
  assigns_code c = ground arith

module _ (payload : BackfillMessagePayload) (result : TaskResultPayload) (task : Task)
    (send : Sender)
    (keeps_db : (p : BackfillMessagePayload) (d : ℕ) (w : World) → (send p d w).db ≡ w.db)
    (w : World) (subscription : Subscription)
    (found : find_subscription_for_message payload w.db ≡ some subscription) where
  pub updated_db :
      (update_task_status_and_continue payload result task send w).db
      ≡ update_repo subscription task.repository_id
          (task_assignments payload result.edges task subscription w.db)
          w.db
  unfolding update_task_status_and_continue
  updated_db = rw (found, update_task_status_and_continue) (keeps_db payload 0 _)

  -- A page of a repository's task, with a subscription still there: in the rows of that repository
  -- the task's status becomes "complete" if the page had no edges and "pending" otherwise, its
  -- cursor becomes that of the last edge if there is one, and every other status and cursor of every
  -- row, and every failure code, stays.
  pub update_task_status_and_continue-columns :
      (task.task =t= repository) ≡ false
      → (sub' repo' : ℕ) (u : TaskType)
      → let db' = (update_task_status_and_continue payload result task send w).db in
        let b = (sub' == subscription.id && repo' == task.repository_id) && task.task =t= u in
        (column (λ r. r.status u) sub' repo' db'
          ≡ if_written b
              (λ _. some (status_for result.edges))
              (column (λ r. r.status u) sub' repo' w.db))
        × (column (λ r. r.cursor u) sub' repo' db'
            ≡ if_written b (cursor_for result.edges) (column (λ r. r.cursor u) sub' repo' w.db))
        × (column (λ r. r.failed_code) sub' repo' db' ≡ column (λ r. r.failed_code) sub' repo' w.db)
  update_task_status_and_continue-columns in_rows sub' repo' u =
      let values = task_assignments payload result.edges task subscription w.db in
      let m = sub' == subscription.id && repo' == task.repository_id in
      rw updated_db (
        column-update_repo (λ r. r.status u)
              (λ s. if task.task =t= u then some (status_for result.edges) else s) subscription
              task.repository_id values w.db
              (λ r.
                assigned-status u (row_values values) r
                ∙ assigns_status payload result.edges task subscription w.db in_rows u (r.status u))
              sub' repo'
            ∙ map_guarded m (task.task =t= u) (λ _. some (status_for result.edges)) _,
        column-update_repo (λ r. r.cursor u)
              (λ c. if task.task =t= u then cursor_for result.edges c else c) subscription
              task.repository_id values w.db
              (λ r.
                assigned-cursor u (row_values values) r
                ∙ assigns_cursor payload result.edges task subscription w.db in_rows u (r.cursor u))
              sub' repo'
            ∙ map_guarded m (task.task =t= u) (cursor_for result.edges) _,
        column-update_repo (λ r. r.failed_code) (λ c. c) subscription task.repository_id values w.db
              (λ r.
                assigned-failed_code (row_values values) r
                ∙ assigns_code payload result.edges task subscription w.db in_rows r.failed_code)
              sub' repo'
            ∙ if_map_id m _,
      )
