-- ===== src/Sync/Tests.antt =====
-- The theorems on the backfill at concrete tables.
mod Pages
mod Scheduling
mod Runs
use github_for_jira.Base.{
  ℕ, ◌+◌, ◌-◌, ◌/◌, ◌<◌, ◌≡◌, refl, ap, true, false, List, [], ◌∷◌, String, none, some,
  if◌then◌else◌, here,
}
use github_for_jira.Github.Errors.{Error, other_class, github_not_found}
use github_for_jira.Sync.Types.{
  TaskType, repository, pull, branch, commit, build, dependabot_alert, includes, ◌=t=◌, SyncType,
  full, partial, TaskStatus, pending, complete, failed, Task, TaskResultPayload,
  BackfillMessagePayload, sync_active,
}
use github_for_jira.Sync.Store.{
  Subscription, RepoSyncState, Db, find_by_repo_id, get_single_installation,
}
use github_for_jira.Sync.Scheduler.{
  RateLimit, NextTasks, get_next_tasks, estimate_number_of_subtasks, selected_tasks, is_open,
  security_task_types, is_complete,
}
use github_for_jira.Sync.Scheduler.MainTask.{get_next_tasks-main_task_same, is_pending_row}
use github_for_jira.Sync.Scheduler.Choice.{
  get_next_tasks-IsNext, IsNext, get_next_tasks-main_task_none_iff,
}
use github_for_jira.Sync.Scheduler.Subtasks.{
  estimate_number_of_subtasks-bounds, get_next_tasks-other_tasks_length, get_next_tasks-IsOpenTask,
  IsOpenTask,
}
use github_for_jira.Sync.Tasks.{
  World, SentMessage, find_subscription_for_message, update_task_status_and_continue,
  mark_current_task_as_failed_and_continue,
}
use github_for_jira.Sync.Tasks.Columns.{column, is_row_of}
use github_for_jira.Sync.Tasks.Effects.{
  update_task_status_and_continue-columns, if_written, status_for, cursor_for,
}
use github_for_jira.Sync.Tasks.Failures.{mark_current_task_as_failed-columns, code_for}
use github_for_jira.Sync.Tasks.Progress.{
  open_total, update_task_status-open_total, mark_current_task_as_failed-open_total,
}
use github_for_jira.Sync.Process.{
  Services, Executor, TaskError, error_of, do_process_installation, keep_message, Worker,
  process_installation,
}
use github_for_jira.Sync.Process.Sending.{do_process_installation-sends}
use github_for_jira.Sync.Process.Continuation.{process_installation-continues, IsSent, IsStopped}

abbrev subscription : Subscription
subscription = record {
  id = 1;
  jira_host = "https://a.atlassian.net";
  github_installation_id = some 7;
  github_app_id = none;
  sync_status = some sync_active;
  sync_warning = none;
  backfill_since = none;
  total_number_of_repos = some 2;
  number_of_synced_repos = some 0;
  repository_cursor = none;
  repository_status = some complete;
  is_security_permissions_accepted = false;
}

abbrev row : ℕ → RepoSyncState
row n = record {
  id = n;
  subscription_id = 1;
  repo_id = 10 + n;
  repo_name = "r";
  repo_full_name = "o/r";
  repo_owner = "o";
  repo_url = "u";
  repo_updated_at = none;
  status = (λ t. if t =t= pull then none else some complete);
  cursor = (λ t. none);
  from = (λ t. none);
  failed_code = none;
}

abbrev tables : Db
tables = record { subscriptions = subscription ∷ []; repo_sync_states = row 1 ∷ row 2 ∷ [] }

abbrev world : World
world = record { db = tables; sent = [] }

abbrev message : BackfillMessagePayload
message = record {
  jira_host = "https://a.atlassian.net";
  installation_id = 7;
  github_app_id = none;
  sync_type = some partial;
  start_time = some 5;
  commits_from_date = none;
  target_tasks = pull ∷ [];
}

abbrev pull_task : Task
pull_task = record { task = pull; repository_id = 11; repository = none; cursor = none }

abbrev failure : Error
failure = record {
  class = other_class;
  status = some 500;
  code = none;
  message = "m";
  is_retryable = true;
}

abbrev page : List String → TaskResultPayload
page edges = record { edges = edges; has_jira_payload = true }

is_found : find_subscription_for_message message tables ≡ some subscription
unfolding find_subscription_for_message
is_found = refl

update_task_status_and_continue-columns_example :
    let db' =
      (update_task_status_and_continue message
        (page ("c1" ∷ "c2" ∷ []))
        pull_task
        keep_message
        world).db in
    (column (λ r. r.status pull) 1 11 db'
      ≡ if_written true (λ _. some pending) (column (λ r. r.status pull) 1 11 tables))
    × (column (λ r. r.cursor pull) 1 11 db'
        ≡ if_written true (λ _. some "c2") (column (λ r. r.cursor pull) 1 11 tables))
    × (column (λ r. r.failed_code) 1 11 db' ≡ column (λ r. r.failed_code) 1 11 tables)
update_task_status_and_continue-columns_example =
    update_task_status_and_continue-columns message (page ("c1" ∷ "c2" ∷ [])) pull_task keep_message
      (λ p d w. refl) world subscription is_found refl 1 11 pull

mark_current_task_as_failed-columns_example :
    let db' =
      (mark_current_task_as_failed_and_continue message pull_task false keep_message failure
        world).db in
    (column (λ r. r.status pull) 1 11 db'
      ≡ if_written true (λ _. some failed) (column (λ r. r.status pull) 1 11 tables))
    × (column (λ r. r.cursor pull) 1 11 db' ≡ column (λ r. r.cursor pull) 1 11 tables)
    × (column (λ r. r.failed_code) 1 11 db'
        ≡ if_written true
            (λ _. some (code_for false failure))
            (column (λ r. r.failed_code) 1 11 tables))
mark_current_task_as_failed-columns_example =
    mark_current_task_as_failed-columns message pull_task false keep_message (λ p d w. refl) failure
      world subscription is_found refl 1 11 pull

update_task_status-open_total_example :
    open_total
      (pull ∷ [])
      1
      (update_task_status_and_continue message
        (page [])
        pull_task
        keep_message
        world).db.repo_sync_states
    < open_total (pull ∷ []) 1 tables.repo_sync_states
update_task_status-open_total_example =
    update_task_status-open_total message pull_task keep_message (λ p d w. refl) world subscription
      is_found refl (pull ∷ []) refl (here (refl, refl)) (page []) refl

mark_current_task_as_failed-open_total_example :
    open_total
      (pull ∷ [])
      1
      (mark_current_task_as_failed_and_continue message pull_task true keep_message failure
        world).db.repo_sync_states
    < open_total (pull ∷ []) 1 tables.repo_sync_states
mark_current_task_as_failed-open_total_example =
    mark_current_task_as_failed-open_total message pull_task keep_message (λ p d w. refl) world
      subscription is_found refl (pull ∷ []) refl (here (refl, refl)) true failure
