-- ===== src/Sync/Tasks/Progress.antt =====
-- The backfill makes progress (src/sync/installation.ts): a finished or a failed task is never open
-- again until a new backfill resets it, so the number of open tasks falls.
use github_for_jira.Base.{
  ℕ, suc, ◌+◌, ◌≤◌, ◌<◌, ◌≡◌, refl, ap, ◌∙◌, inl, inr, Bool, true, false, List, [], ◌∷◌, String,
  Option, none, some, arith, ◌==◌, if◌then◌else◌, Bool-cases, last?, any, Any, here, there, subst,
}
use github_for_jira.Github.Errors.{Error}
use github_for_jira.Sync.Types.{
  TaskType, repository, ◌=t=◌, =t=_iff, TaskStatus, complete, failed, includes, Task,
  TaskResultPayload, BackfillMessagePayload,
}
use github_for_jira.Sync.Store.{
  Subscription, RepoSyncState, Db, update_rows, update_repo_from_subscription, update_subscription,
}
use github_for_jira.Sync.Scheduler.{is_open}
use github_for_jira.Sync.Tasks.{
  World, Sender, Assignment, to_failed_code, unless_empty, update_repo, task_assignments, fail_task,
  note_permissions, find_subscription_for_message, update_task_status_and_continue,
  mark_current_task_as_failed_and_continue,
}
use github_for_jira.Sync.Tasks.Columns.{
  is_row_of, status_after, assigned, assigned-status, assigned-ids, row_values, update_repo-rows,
}
use github_for_jira.Sync.Tasks.Effects.{status_for, updated_db, assigns_status}
use github_for_jira.Sync.Tasks.Failures.{failed_db, failed_values, acts_status}

-- The number of open tasks of a row among the listed types, and of the rows of a subscription.
abbrev pub open_tasks : List TaskType → RepoSyncState → ℕ
open_tasks [] r = 0
open_tasks (t ∷ ts) r =
    let rest = open_tasks ts r in if is_open (r.status t) then suc rest else rest

abbrev pub open_total : List TaskType → ℕ → List RepoSyncState → ℕ
open_total tasks sub [] = 0
open_total tasks sub (r ∷ rs) =
    let rest = open_total tasks sub rs in
    if r.subscription_id == sub then open_tasks tasks r + rest else rest

-- Assignments that give the task type `t` a closed status and leave the other statuses alone.
module _ (t : TaskType) (closed : TaskStatus) (is_closed : is_open (some closed) ≡ false)
    (vs : List Assignment)
    (acts : (u : TaskType) (s : Option TaskStatus)
      → status_after vs u s ≡ (if t =t= u then some closed else s)) where
  closes_le :
      (ts : List TaskType) (r : RepoSyncState) → open_tasks ts (assigned vs r) ≤ open_tasks ts r
  closes_le [] r = omega arith
  closes_le (u ∷ ts) r =
      let e = assigned-status u vs r ∙ acts u (r.status u) in
      let ih = closes_le ts r in
      elim (Bool-cases (t =t= u)) [
        | inl same ↦ ground (arith, is_closed)
        | inr other ↦ ground arith
      ]

  closes_lt :
      (ts : List TaskType) (r : RepoSyncState)
      → includes ts t ≡ true
      → is_open (r.status t) ≡ true
      → open_tasks ts (assigned vs r) < open_tasks ts r
  closes_lt [] r m o = cc
  closes_lt (u ∷ ts) r m o =
      let e = assigned-status u vs r ∙ acts u (r.status u) in
      let le = closes_le ts r in
      elim (Bool-cases (t =t= u)) [
        | inl same ↦
            let eq : t ≡ u = (=t=_iff t u).0 same in
            let o' : is_open (r.status u) ≡ true = subst (λ x. is_open (r.status x) ≡ true) eq o in
            ground arith
        | inr other ↦
            let m' : includes ts t ≡ true = ground arith in
            let ih = closes_lt ts r m' o in ground arith
      ]

  closes_total_le :
      (ts : List TaskType) (sub repo : ℕ) (rows : List RepoSyncState)
      → open_total ts sub (update_rows (is_row_of sub repo) (assigned vs) rows)
        ≤ open_total ts sub rows
  unfolding update_rows
  closes_total_le ts sub repo [] = omega arith
  closes_total_le ts sub repo (r ∷ rows) =
      let ids = assigned-ids vs r in
      let le = closes_le ts r in let ih = closes_total_le ts sub repo rows in ground (arith, ids.0)

  pub closes_total_lt :
      (ts : List TaskType) (sub repo : ℕ) (rows : List RepoSyncState)
      → includes ts t ≡ true
      → Any (λ r. (is_row_of sub repo r ≡ true) × (is_open (r.status t) ≡ true)) rows
      → open_total ts sub (update_rows (is_row_of sub repo) (assigned vs) rows)
        < open_total ts sub rows
  unfolding update_rows
  closes_total_lt ts sub repo [] m any = elim any [ ]
  closes_total_lt ts sub repo (r ∷ rows) m (here (hit, o)) =
      let ids = assigned-ids vs r in
      let lt = closes_lt ts r m o in
      let le = closes_total_le ts sub repo rows in ground (arith, ids.0)
  closes_total_lt ts sub repo (r ∷ rows) m (there any) =
      let ids = assigned-ids vs r in
      let le = closes_le ts r in
      let ih = closes_total_lt ts sub repo rows m any in ground (arith, ids.0)

module _ (tasks : List TaskType) (subscription : Subscription) (task : Task) (db : Db)
    (selected : includes tasks task.task ≡ true)
    (is_open_ : Any
      (λ r.
        (is_row_of subscription.id task.repository_id r ≡ true)
        × (is_open (r.status task.task) ≡ true))
      db.repo_sync_states) where
  closes_unless_empty :
      (closed : TaskStatus)
      → is_open (some closed) ≡ false
      → (vs : List Assignment)
      → ((u : TaskType) (s : Option TaskStatus)
          → status_after vs u s ≡ (if task.task =t= u then some closed else s))
      → open_total tasks subscription.id
          (unless_empty vs
            (update_repo_from_subscription subscription.id task.repository_id (assigned vs))
            db).repo_sync_states
        < open_total tasks subscription.id db.repo_sync_states
  unfolding update_repo_from_subscription
  closes_unless_empty closed h [] acts =
      let e = acts task.task none in ground (arith, =t=_iff task.task task.task)
  closes_unless_empty closed h (v ∷ vs) acts =
      closes_total_lt task.task closed h (v ∷ vs) acts tasks subscription.id task.repository_id
        db.repo_sync_states selected is_open_

  closes_update_repo :
      (closed : TaskStatus)
      → is_open (some closed) ≡ false
      → (values : List Assignment)
      → ((u : TaskType) (s : Option TaskStatus)
          → status_after (row_values values) u s ≡ (if task.task =t= u then some closed else s))
      → open_total tasks subscription.id
          (update_repo subscription task.repository_id values db).repo_sync_states
        < open_total tasks subscription.id db.repo_sync_states
  closes_update_repo closed h values acts =
      rw update_repo-rows (closes_unless_empty closed h (row_values values) acts)

code_open :
    (code : String) (ts : List TaskType) (r : RepoSyncState)
    → open_tasks ts (assigned (to_failed_code code ∷ []) r) ≡ open_tasks ts r
code_open code [] r = refl
code_open code (t ∷ ts) r =
    let e = assigned-status t (to_failed_code code ∷ []) r in
    let ih = code_open code ts r in ground arith

-- Writing a failure code opens and closes nothing.
code_total :
    (tasks : List TaskType) (sub sub' repo' : ℕ) (code : String) (rows : List RepoSyncState)
    → open_total tasks sub
        (update_rows (is_row_of sub' repo') (assigned (to_failed_code code ∷ [])) rows)
      ≡ open_total tasks sub rows
unfolding update_rows
code_total tasks sub sub' repo' code [] = refl
code_total tasks sub sub' repo' code (r ∷ rows) =
    let ih = code_total tasks sub sub' repo' code rows in
    let ids = assigned-ids (to_failed_code code ∷ []) r in
    ground (arith, ids.0, code_open code tasks r)

note_permissions_total :
    (tasks : List TaskType) (sub : ℕ) (flag : Bool) (subscription : Subscription) (task : Task)
    (db : Db)
    → open_total tasks sub (note_permissions flag subscription task db).repo_sync_states
      ≡ open_total tasks sub db.repo_sync_states
unfolding note_permissions update_subscription update_repo_from_subscription
note_permissions_total tasks sub false subscription task db = refl
note_permissions_total tasks sub true subscription task db = rw update_repo-rows (
    code_total tasks sub subscription.id task.repository_id "PERMISSIONS_ERROR" db.repo_sync_states)

module _ (payload : BackfillMessagePayload) (task : Task) (send : Sender)
    (keeps_db : (p : BackfillMessagePayload) (d : ℕ) (w : World) → (send p d w).db ≡ w.db)
    (w : World) (subscription : Subscription)
    (found : find_subscription_for_message payload w.db ≡ some subscription)
    (in_rows : (task.task =t= repository) ≡ false) (tasks : List TaskType)
    (selected : includes tasks task.task ≡ true)
    (is_open_ : Any
      (λ r.
        (is_row_of subscription.id task.repository_id r ≡ true)
        × (is_open (r.status task.task) ≡ true))
      w.db.repo_sync_states) where
  -- The page without edges that ends an open task of a repository, of a selected type, with its
  -- subscription still there: the subscription has fewer open tasks of the selected types.
  pub update_task_status-open_total :
      (result : TaskResultPayload)
      → last? result.edges ≡ none
      → open_total tasks subscription.id
          (update_task_status_and_continue payload result task send w).db.repo_sync_states
        < open_total tasks subscription.id w.db.repo_sync_states
  update_task_status-open_total result ended =
      let ended_status : status_for result.edges ≡ complete = ground arith in
      rw (updated_db payload result task send keeps_db w subscription found) (
        closes_update_repo tasks subscription task w.db selected is_open_ complete refl
          (task_assignments payload result.edges task subscription w.db)
          (λ u s.
            assigns_status payload result.edges task subscription w.db in_rows u s
            ∙ ap (λ c. if task.task =t= u then some c else s) ended_status))

  -- The failure of an open task of a repository, of a selected type, with its subscription still
  -- there, that is given up: the subscription has fewer open tasks of the selected types.
  pub mark_current_task_as_failed-open_total :
      (flag : Bool) (err : Error)
      → open_total tasks subscription.id
          (mark_current_task_as_failed_and_continue payload task flag send err
            w).db.repo_sync_states
        < open_total tasks subscription.id w.db.repo_sync_states
  unfolding fail_task
  mark_current_task_as_failed-open_total flag err =
      rw
        (
          failed_db payload task flag send keeps_db err w subscription found in_rows,
          keeps_db,
          note_permissions_total,
        )
        (closes_update_repo tasks subscription task w.db selected is_open_ failed refl
          (failed_values task err) (acts_status subscription task err w.db in_rows 0 0))
