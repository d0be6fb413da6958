-- ===== src/Sync/Tasks.antt =====
-- The bookkeeping of src/sync/installation.ts: what a finished page, a finished task or a failed task
-- writes to the two tables, and the message that continues the backfill. Delays are in milliseconds.
-- Logging and metrics, which change no state, are left out.
pub mod Columns
pub mod Effects
pub mod Failures
pub mod Progress
use Prim.Native.String
use github_for_jira.Base.{
  ℕ, ◌+◌, ap, Bool, true, false, ◌||◌, ◌&&◌, not, List, [], ◌∷◌, ◌++◌, String, Option, none, some,
  ltb, ◌==◌, ◌=s=◌, if◌then◌else◌, last?, all, filter,
}
use github_for_jira.Github.Errors.{Error, text_includes}
use github_for_jira.Sync.Types.{
  TaskType, repository, branch, ◌=t=◌, task_name, TaskStatus, pending, complete, failed, SyncStatus,
  sync_failed, sync_complete, includes, Task, TaskResultPayload, BackfillMessagePayload,
}
use github_for_jira.Sync.Store.{
  Subscription, RepoSyncState, Db, get_single_installation, update_subscription,
  update_repo_from_subscription, find_by_repo_id, set_at,
}
use github_for_jira.Sync.Scheduler.{all_task_types, without}

pub record SentMessage : Type 0 where
  pub payload : BackfillMessagePayload
  pub delay_ms : ℕ

-- The tables, and the messages that were sent so far, the newest first.
pub record World : Type 0 where
  pub db : Db
  pub sent : List SentMessage

-- The callback `sendBackfillMessage`.
abbrev pub Sender : Type 0
Sender = BackfillMessagePayload → ℕ → World → World

abbrev pub on_db : (Db → Db) → World → World
on_db f w = record w { db = f w.db }

-- One entry of the object of values that `updateRepo` writes.
pub data Assignment : Type 0 where
  to_status : TaskType → TaskStatus → Assignment
  to_cursor : TaskType → String → Assignment
  to_from : TaskType → ℕ → Assignment
  to_failed_code : String → Assignment

-- `pick(values, ["repositoryStatus", "repositoryCursor"])` keeps these.
abbrev pub is_of_subscription : Assignment → Bool
is_of_subscription (to_status t s) = t =t= repository
is_of_subscription (to_cursor t c) = t =t= repository
is_of_subscription (to_from t d) = false
is_of_subscription (to_failed_code c) = false

unfoldable pub assign_subscription : Assignment → Subscription → Subscription
assign_subscription (to_status t status) s = record s { repository_status = some status }
assign_subscription (to_cursor t cursor) s = record s { repository_cursor = some cursor }
assign_subscription (to_from t d) s = s
assign_subscription (to_failed_code c) s = s

unfoldable pub assign_row : Assignment → RepoSyncState → RepoSyncState
assign_row (to_status t status) r = record r { status = set_at r.status t (some status) }
assign_row (to_cursor t cursor) r = record r { cursor = set_at r.cursor t (some cursor) }
assign_row (to_from t d) r = record r { from = set_at r.from t (some d) }
assign_row (to_failed_code c) r = record r { failed_code = some c }

abbrev pub assign_all {ℓ} : {A : Type ℓ} → (Assignment → A → A) → List Assignment → A → A
assign_all f [] a = a
assign_all f (v ∷ vs) a = assign_all f vs (f v a)

-- `Object.keys(values).length && update(values)`
abbrev pub unless_empty : List Assignment → (Db → Db) → Db → Db
unless_empty [] f db = db
unless_empty (v ∷ vs) f db = f db

unfoldable pub update_repo : Subscription → ℕ → List Assignment → Db → Db
unfolding update_subscription update_repo_from_subscription assign_subscription assign_row
update_repo subscription repo_id values db =
    let subscription_values = filter is_of_subscription values in
    let row_values = filter (λ v. not (is_of_subscription v)) values in
    unless_empty row_values
      (update_repo_from_subscription subscription.id repo_id (assign_all assign_row row_values))
      (unless_empty subscription_values
        (update_subscription subscription.id (assign_all assign_subscription subscription_values))
        db)

abbrev pub all_tasks_except_branch : List TaskType
all_tasks_except_branch = without all_task_types (branch ∷ [])

-- The start date that a completed task gets, unless an earlier one is stored.
unfoldable pub new_from_date : Option ℕ → Option ℕ → Option ℕ
new_from_date none existing = none
new_from_date (some new) none = some new
new_from_date (some new) (some existing) = if ltb new existing then some new else none

unfoldable pub from_assignment : BackfillMessagePayload → Task → Subscription → Db → List Assignment
unfolding new_from_date
from_assignment payload task subscription db =
    if includes all_tasks_except_branch task.task
    then elim (find_by_repo_id subscription.id task.repository_id db) [
      | none ↦ []
      | some repo ↦ elim (new_from_date payload.commits_from_date (repo.from task.task)) [
        | none ↦ []
        | some d ↦ to_from task.task d ∷ []
      ]
    ]
    else []

-- With no edges left the task is complete; otherwise the last edge's cursor is kept.
unfoldable pub task_assignments :
    BackfillMessagePayload → List String → Task → Subscription → Db → List Assignment
unfolding from_assignment
task_assignments payload edges task subscription db = elim (last? edges) [
  | none ↦ to_status task.task complete ∷ from_assignment payload task subscription db
  | some cursor ↦ to_status task.task pending ∷ to_cursor task.task cursor ∷ []
]

unfoldable pub find_subscription_for_message : BackfillMessagePayload → Db → Option Subscription
unfolding get_single_installation
find_subscription_for_message payload db =
    get_single_installation payload.jira_host payload.installation_id payload.github_app_id db

unfoldable pub update_task_status_and_continue :
    BackfillMessagePayload → TaskResultPayload → Task → Sender → World → World
unfolding task_assignments update_repo find_subscription_for_message
update_task_status_and_continue payload result task send w =
    elim (find_subscription_for_message payload w.db) [
      | none ↦ w
      | some subscription ↦ send payload 0 (
          on_db
            (update_repo subscription task.repository_id
              (task_assignments payload result.edges task subscription w.db))
            w)
    ]

abbrev pub code_is : Option String → String → Bool
code_is none t = false
code_is (some c) t = c =s= t

abbrev pub status_is : Option ℕ → ℕ → Bool
status_is none n = false
status_is (some s) n = s == n

unfoldable pub get_failed_code : Error → String
get_failed_code e =
    if code_is e.code "ERR_SOCKET_CLOSED" || code_is e.code "ECONNRESET"
    then "CONNECTION_ERROR"
    else if status_is e.status 401
    then "AUTHENTICATION_ERROR"
    else if status_is e.status 403
    then "AUTHORIZATION_ERROR"
    else if status_is e.status 200 && e.message =s= "Resource not accessible by integration"
    then "PERMISSIONS_ERROR"
    else if status_is e.status 500 || status_is e.status 502 || status_is e.status 503
    then "SERVER_ERROR"
    else if text_includes e.message "Error processing task after trying all page sizes"
    then "CURSOR_ERROR"
    else "UNKNOWN_ERROR"

abbrev pub permission_warning : TaskType → String
permission_warning t = String.◌++◌ "Invalid permissions for " (String.◌++◌ (task_name t) " task")

-- The warning of a task that the installation has no permission for.
unfoldable pub note_permissions : Bool → Subscription → Task → Db → Db
note_permissions false subscription task db = db
note_permissions true subscription task db =
    update_subscription subscription.id
      (λ s. record s { sync_warning = some (permission_warning task.task) })
      (update_repo subscription task.repository_id (to_failed_code "PERMISSIONS_ERROR" ∷ []) db)

unfoldable pub fail_task : Bool → Subscription → Task → Error → Db → Db
unfolding note_permissions update_repo update_subscription get_failed_code
fail_task is_permission_error subscription task err db =
    note_permissions is_permission_error subscription task (
      update_repo subscription task.repository_id
        (to_status task.task failed ∷ to_failed_code (get_failed_code err) ∷ []) db)

-- A failed discovery ends the backfill; any other failed task is skipped.
unfoldable pub mark_current_task_as_failed_and_continue :
    BackfillMessagePayload → Task → Bool → Sender → Error → World → World
unfolding fail_task update_subscription find_subscription_for_message
mark_current_task_as_failed_and_continue payload task is_permission_error send err w =
    elim (find_subscription_for_message payload w.db) [
      | none ↦ w
      | some subscription ↦
          let w' = on_db (fail_task is_permission_error subscription task err) w in
          if task.task =t= repository
          then on_db
              (update_subscription subscription.id
                (λ s. record s { sync_status = some sync_failed }))
              w'
          else send payload 0 w'
    ]

-- `null` overwrites the stored date; the date of the message was valid when it was sent.
abbrev pub get_backfill_since : BackfillMessagePayload → Option ℕ
get_backfill_since payload = payload.commits_from_date

unfoldable pub mark_sync_as_complete_and_stop :
    BackfillMessagePayload → Subscription → World → World
unfolding update_subscription
mark_sync_as_complete_and_stop payload subscription w =
    on_db
      (update_subscription subscription.id (λ s. record s {
        sync_status = some sync_complete;
        backfill_since = get_backfill_since payload;
      }))
      w
