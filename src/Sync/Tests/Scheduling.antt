-- ===== src/Sync/Tests/Scheduling.antt =====
-- The theorems on the choice of tasks, on the cursor and on the start of a backfill at concrete values.
use github_for_jira.Base.{
  ◌+◌, ◌≤◌, ◌<◌, ◌≡◌, refl, ◌↔◌, true, false, List, [], ◌∷◌, Option, none, some, arith, ◌==◌,
  filter, All, Any, here,
}
use github_for_jira.Sync.Types.{TaskType, pull, branch, full, sync_pending, Task}
use github_for_jira.Sync.Store.{Subscription}
use github_for_jira.Sync.Scheduler.{RateLimit, get_next_tasks, selected_tasks, is_complete}
use github_for_jira.Sync.Scheduler.MainTask.{get_next_tasks-main_task_same, is_pending_row}
use github_for_jira.Sync.Scheduler.Choice.{
  get_next_tasks-IsNext, IsNext, get_next_tasks-main_task_none_iff,
}
use github_for_jira.Sync.Tasks.Columns.{column}
use github_for_jira.Sync.Tasks.Effects.{if_written}
use github_for_jira.Sync.Tests.{subscription, row, tables}
use github_for_jira.Sync.Scheduler.{to_task}
use github_for_jira.Sync.Cursor.{PageSizeAwareCounterCursor, scale}
use github_for_jira.Sync.Cursor.Laws.{processed, scale-keeps_place}
use github_for_jira.Sync.Start.{reset_state}
use github_for_jira.Sync.Start.Resetting.{reset_state-columns}
use github_for_jira.Sync.Start.Restart.{reset_state-restarts, from_scratch}

abbrev same_order : List Task → List Task
same_order l = l

abbrev quota : Option RateLimit
quota = some (record { core_remaining = 5000; graphql_remaining = 1700 })

abbrev pull_tasks : List TaskType
pull_tasks = pull ∷ []

get_next_tasks-main_task_same_example :
    (get_next_tasks same_order quota false subscription pull_tasks tables).main_task
    ≡ (get_next_tasks (λ l. []) none false subscription pull_tasks tables).main_task
get_next_tasks-main_task_same_example =
    get_next_tasks-main_task_same same_order (λ l. []) quota none false subscription pull_tasks
      tables

get_next_tasks-IsNext_example :
    IsNext subscription (selected_tasks false subscription pull_tasks) tables (to_task (row 2) pull)
unfolding get_next_tasks
get_next_tasks-IsNext_example =
    get_next_tasks-IsNext same_order none false subscription pull_tasks tables
      (to_task (row 2) pull) refl refl

get_next_tasks-main_task_none_iff_example :
    ((get_next_tasks same_order quota false subscription (branch ∷ []) tables).main_task ≡ none) ↔ (
      (is_complete subscription.repository_status ≡ true)
      × All
          (λ r.
            is_pending_row subscription (selected_tasks false subscription (branch ∷ [])) r ≡ false)
          tables.repo_sync_states)
get_next_tasks-main_task_none_iff_example =
    get_next_tasks-main_task_none_iff same_order quota false subscription (branch ∷ []) tables

abbrev third_page : PageSizeAwareCounterCursor
third_page = record { per_page = 20; page_no = 3 }

scale-keeps_place_example :
    (processed (scale 30 third_page) ≤ processed third_page)
    × (processed third_page < processed (scale 30 third_page) + 30)
    × ((scale 30 third_page).per_page ≡ 30)
    × (0 < (scale 30 third_page).page_no)
scale-keeps_place_example = scale-keeps_place third_page 30 (omega arith) (omega arith)

reset_state-columns_example :
    let db' = reset_state 1 (some full) (pull ∷ []) tables in
    (column (λ r. r.status pull) 1 11 db'
      ≡ if_written true (λ _. none) (column (λ r. r.status pull) 1 11 tables))
    × (column (λ r. r.cursor pull) 1 11 db'
        ≡ if_written true (λ _. none) (column (λ r. r.cursor pull) 1 11 tables))
    × (column (λ r. r.failed_code) 1 11 db'
        ≡ if_written true (λ _. none) (column (λ r. r.failed_code) 1 11 tables))
reset_state-columns_example = reset_state-columns 1 (some full) pull [] tables 1 11 pull refl

abbrev restarted_subscription : Subscription
restarted_subscription = record subscription {
  sync_status = some sync_pending;
  number_of_synced_repos = some 0;
  sync_warning = none;
  total_number_of_repos = none;
  repository_cursor = none;
  repository_status = none;
}

is_restarted :
    Any (λ q. q ≡ restarted_subscription) (reset_state 1 (some full) [] tables).subscriptions
unfolding reset_state
is_restarted = here refl

reset_state-restarts_example :
    let db' = reset_state 1 (some full) [] tables in
    (filter (λ r. r.subscription_id == 1) db'.repo_sync_states ≡ [])
    × ((filter (λ r. r.subscription_id == 2) db'.repo_sync_states
          ≡ filter (λ r. r.subscription_id == 2) tables.repo_sync_states)
        × (get_next_tasks same_order quota false restarted_subscription pull_tasks db'
            ≡ record { main_task = some from_scratch; other_tasks = [] }))
reset_state-restarts_example =
    reset_state-restarts same_order quota false 1 2 pull_tasks tables restarted_subscription
      (λ e. absurd (omega (arith, e))) is_restarted refl
