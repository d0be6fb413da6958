-- ===== src/Sync/Tasks/Failures.antt =====
-- The effect of a failed task on the two tables (markCurrentTaskAsFailedAndContinue of
-- src/sync/installation.ts).
use github_for_jira.Base.{
  ℕ, ◌≡◌, refl, sym, ap, ◌∙◌, Bool, true, false, ◌&&◌, List, [], ◌∷◌, map, String, Option, some,
  ◌==◌, if◌then◌else◌,
}
use github_for_jira.Github.Errors.{Error}
use github_for_jira.Sync.Types.{
  TaskType, repository, ◌=t=◌, TaskStatus, failed, Task, BackfillMessagePayload,
}
use github_for_jira.Sync.Store.{Subscription, RepoSyncState, Db, update_subscription}
use github_for_jira.Sync.Tasks.{
  World, Sender, on_db, Assignment, to_status, to_failed_code, find_subscription_for_message,
  fail_task, note_permissions, get_failed_code, mark_current_task_as_failed_and_continue,
}
use github_for_jira.Sync.Tasks.Columns.{
  column, status_after, cursor_after, code_after, assigned, assigned-status, assigned-cursor,
  assigned-failed_code, row_values, column-update_repo,
}
use github_for_jira.Sync.Tasks.Effects.{if_written, if_map_id, map_guarded}

-- The code that a failed task leaves behind.
abbrev pub code_for : Bool → Error → String
code_for is_permission_error err =
    if is_permission_error then "PERMISSIONS_ERROR" else get_failed_code err

abbrev pub failed_values : Task → Error → List Assignment
failed_values task err = to_status task.task failed ∷ to_failed_code (get_failed_code err) ∷ []

map-map_lem : {A : Type 0} (g h : A → A) (xs : List A) → map h (map g xs) ≡ map (λ a. h (g a)) xs
map-map_lem g h [] = refl
map-map_lem g h (x ∷ xs) = ap (λ ys. h (g x) ∷ ys) (map-map_lem g h xs)

if_written-if_written :
    {A : Type 0} (b : Bool) (g h : A → A) (xs : List A)
    → if_written b h (if_written b g xs) ≡ if_written b (λ a. h (g a)) xs
if_written-if_written true g h xs = map-map_lem g h xs
if_written-if_written false g h xs = refl

module _ (subscription : Subscription) (task : Task) {A : Type 0} (f : RepoSyncState → A)
    (h : A → A)
    (acts' : (r : RepoSyncState)
      → f (assigned (to_failed_code "PERMISSIONS_ERROR" ∷ []) r) ≡ h (f r))
    (sub' repo' : ℕ) where
  note_permissions-rows :
      (flag : Bool) (db : Db)
      → column f sub' repo' (note_permissions flag subscription task db)
        ≡ if_written
            (sub' == subscription.id && repo' == task.repository_id)
            (λ a. if flag then h a else a)
            (column f sub' repo' db)
  unfolding note_permissions update_subscription
  note_permissions-rows true db =
      column-update_repo f h subscription task.repository_id
        (to_failed_code "PERMISSIONS_ERROR" ∷ []) db acts' sub' repo'
  note_permissions-rows false db = sym (if_map_id _ _)

  fail_task-rows :
      (flag : Bool) (err : Error) (db : Db) (g : A → A)
      → ((r : RepoSyncState) → f (assigned (row_values (failed_values task err)) r) ≡ g (f r))
      → column f sub' repo' (fail_task flag subscription task err db)
        ≡ if_written
            (sub' == subscription.id && repo' == task.repository_id)
            (λ a. if flag then h (g a) else g a)
            (column f sub' repo' db)
  unfolding fail_task
  fail_task-rows flag err db g acts =
      note_permissions-rows flag _
      ∙ ap
          (if_written (sub' == subscription.id && repo' == task.repository_id)
            (λ a. if flag then h a else a))
          (column-update_repo f g subscription task.repository_id (failed_values task err) db acts
            sub' repo')
      ∙ if_written-if_written (sub' == subscription.id && repo' == task.repository_id) g
          (λ a. if flag then h a else a) _

module _ (subscription : Subscription) (task : Task) (err : Error) (db : Db)
    (in_rows : (task.task =t= repository) ≡ false) (sub' repo' : ℕ) where
  abbrev is_hit : Bool
  is_hit = sub' == subscription.id && repo' == task.repository_id

  pub acts_status :
      (u : TaskType) (s : Option TaskStatus)
      → status_after (row_values (failed_values task err)) u s
        ≡ (if task.task =t= u then some failed else s)
  acts_status u s = rw in_rows

  acts_cursor :
      (u : TaskType) (c : Option String)
      → cursor_after (row_values (failed_values task err)) u c ≡ c
  acts_cursor u c = rw in_rows

  acts_code :
      (c : Option String)
      → code_after (row_values (failed_values task err)) c ≡ some (get_failed_code err)
  acts_code c = rw in_rows

  fail_task-status :
      (u : TaskType) (flag : Bool)
      → column (λ r. r.status u) sub' repo' (fail_task flag subscription task err db)
        ≡ if_written
            (is_hit && task.task =t= u)
            (λ _. some failed)
            (column (λ r. r.status u) sub' repo' db)
  fail_task-status u flag =
      fail_task-rows subscription task (λ r. r.status u) (λ s. s)
        (λ r. assigned-status u (to_failed_code "PERMISSIONS_ERROR" ∷ []) r) sub' repo' flag err db
        (λ s. if task.task =t= u then some failed else s)
        (λ r.
          assigned-status u (row_values (failed_values task err)) r ∙ acts_status u (r.status u))
      ∙ (forget flag ∙ map_guarded is_hit (task.task =t= u) (λ _. some failed) _)
    where
      forget :
          (flag : Bool)
          → if_written is_hit
              (λ (a : Option TaskStatus).
                if flag
                then (if task.task =t= u then some failed else a)
                else (if task.task =t= u then some failed else a))
              (column (λ r. r.status u) sub' repo' db)
            ≡ if_written is_hit
                (λ a. if task.task =t= u then some failed else a)
                (column (λ r. r.status u) sub' repo' db)
      forget true = refl
      forget false = refl

  fail_task-cursor :
      (u : TaskType) (flag : Bool)
      → column (λ r. r.cursor u) sub' repo' (fail_task flag subscription task err db)
        ≡ column (λ r. r.cursor u) sub' repo' db
  fail_task-cursor u flag =
      fail_task-rows subscription task (λ r. r.cursor u) (λ c. c)
        (λ r. assigned-cursor u (to_failed_code "PERMISSIONS_ERROR" ∷ []) r) sub' repo' flag err db
        (λ c. c)
        (λ r.
          assigned-cursor u (row_values (failed_values task err)) r ∙ acts_cursor u (r.cursor u))
      ∙ forget flag
    where
      forget :
          (flag : Bool)
          → if_written is_hit
              (λ (a : Option String). if flag then a else a)
              (column (λ r. r.cursor u) sub' repo' db)
            ≡ column (λ r. r.cursor u) sub' repo' db
      forget true = if_map_id is_hit _
      forget false = if_map_id is_hit _

  fail_task-failed_code :
      (flag : Bool)
      → column (λ r. r.failed_code) sub' repo' (fail_task flag subscription task err db)
        ≡ if_written is_hit
            (λ _. some (code_for flag err))
            (column (λ r. r.failed_code) sub' repo' db)
  fail_task-failed_code flag =
      fail_task-rows subscription task (λ r. r.failed_code) (λ _. some "PERMISSIONS_ERROR")
        (λ r. assigned-failed_code (to_failed_code "PERMISSIONS_ERROR" ∷ []) r) sub' repo' flag err
        db (λ _. some (get_failed_code err))
        (λ r.
          assigned-failed_code (row_values (failed_values task err)) r ∙ acts_code r.failed_code)
      ∙ forget flag
    where
      forget :
          (flag : Bool)
          → if_written is_hit
              (λ (a : Option String).
                if flag then some "PERMISSIONS_ERROR" else some (get_failed_code err))
              (column (λ r. r.failed_code) sub' repo' db)
            ≡ if_written is_hit
                (λ _. some (code_for flag err))
                (column (λ r. r.failed_code) sub' repo' db)
      forget true = refl
      forget false = refl

module _ (payload : BackfillMessagePayload) (task : Task) (flag : Bool) (send : Sender)
    (keeps_db : (p : BackfillMessagePayload) (d : ℕ) (w : World) → (send p d w).db ≡ w.db)
    (err : Error) (w : World) (subscription : Subscription)
    (found : find_subscription_for_message payload w.db ≡ some subscription) where
  pub failed_db :
      (task.task =t= repository) ≡ false
      → mark_current_task_as_failed_and_continue payload task flag send err w
        ≡ send payload 0 (on_db (fail_task flag subscription task err) w)
  unfolding mark_current_task_as_failed_and_continue
  failed_db in_rows = rw (found, mark_current_task_as_failed_and_continue) (rw in_rows)

  -- A failed task of a repository, with its subscription still there: in the rows of that repository the task's status becomes
  -- "failed" and the failure code that of the error, or "PERMISSIONS_ERROR"; every other status, and
  -- every cursor, of every row stays.
  pub mark_current_task_as_failed-columns :
      (task.task =t= repository) ≡ false
      → (sub' repo' : ℕ) (u : TaskType)
      → let db' = (mark_current_task_as_failed_and_continue payload task flag send err w).db in
        let m = sub' == subscription.id && repo' == task.repository_id in
        (column (λ r. r.status u) sub' repo' db'
          ≡ if_written
              (m && task.task =t= u)
              (λ _. some failed)
              (column (λ r. r.status u) sub' repo' w.db))
        × (column (λ r. r.cursor u) sub' repo' db' ≡ column (λ r. r.cursor u) sub' repo' w.db)
        × (column (λ r. r.failed_code) sub' repo' db'
            ≡ if_written m
                (λ _. some (code_for flag err))
                (column (λ r. r.failed_code) sub' repo' w.db))
  mark_current_task_as_failed-columns in_rows sub' repo' u =
      rw (failed_db in_rows, keeps_db)
        (
          fail_task-status subscription task err w.db in_rows sub' repo' u flag,
          fail_task-cursor subscription task err w.db in_rows sub' repo' u flag,
          fail_task-failed_code subscription task err w.db in_rows sub' repo' flag,
        )
