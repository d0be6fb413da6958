-- ===== src/Sync/Scheduler.antt =====
-- src/sync/scheduler.ts, and the choice of target tasks of src/sync/installation.ts: which tasks a
-- backfill message works on.
pub mod Lemmas
pub mod MainTask
pub mod Choice
pub mod Subtasks
use github_for_jira.Base.{
  ℕ, ◌+◌, ◌-◌, ◌*◌, ◌/◌, min, max, Bool, true, false, ◌||◌, not, List, [], ◌∷◌, ◌++◌, Option, none,
  some, ltb, if◌then◌else◌, length, head?, take, drop, any, filter,
}
use github_for_jira.Sync.Types.{
  TaskType, repository, pull, branch, commit, build, deployment, dependabot_alert,
  secret_scanning_alert, code_scanning_alert, TaskStatus, pending, complete, failed, includes, Task,
  Repository,
}
use github_for_jira.Sync.Store.{
  Subscription, RepoSyncState, Db, truthy_text, find_all_from_subscription,
}

abbrev pub all_task_types : List TaskType
all_task_types =
    pull ∷ branch ∷ commit ∷ build ∷ deployment ∷ dependabot_alert ∷ secret_scanning_alert
    ∷ code_scanning_alert ∷ []

abbrev pub security_task_types : List TaskType
security_task_types = dependabot_alert ∷ secret_scanning_alert ∷ code_scanning_alert ∷ []

-- lodash's `without(tasks, ...values)` and `intersection(tasks, values)` on lists with no repeats
abbrev pub without : List TaskType → List TaskType → List TaskType
without tasks values = filter (λ t. not (includes values t)) tasks

abbrev pub intersection : List TaskType → List TaskType → List TaskType
intersection tasks values = filter (includes values) tasks

unfoldable pub get_target_tasks : List TaskType → List TaskType
get_target_tasks [] = all_task_types
get_target_tasks (t ∷ ts) = intersection all_task_types (t ∷ ts)

abbrev pub rate_limit_quota_per_task_reserve : ℕ
rate_limit_quota_per_task_reserve = 500

abbrev pub subtasks_pool_coef : ℕ
subtasks_pool_coef = 10

abbrev pub max_subtasks : ℕ
max_subtasks = 100

-- What GitHub says is left of the two quotas; `none` if the request failed.
pub record RateLimit : Type 0 where
  pub core_remaining : ℕ
  pub graphql_remaining : ℕ

-- `Math.max(0, quota - reserve)` is the truncated difference.
unfoldable pub estimate_number_of_subtasks : Option RateLimit → ℕ
estimate_number_of_subtasks none = 0
estimate_number_of_subtasks (some r) =
    let avail_quota = min r.core_remaining r.graphql_remaining in
    let avail_quota_for_subtasks = max 0 (avail_quota - rate_limit_quota_per_task_reserve) in
    let allowed_subtasks = avail_quota_for_subtasks / rate_limit_quota_per_task_reserve in
    min allowed_subtasks max_subtasks

-- `!status || status === "pending"`
abbrev pub is_open : Option TaskStatus → Bool
is_open none = true
is_open (some pending) = true
is_open (some complete) = false
is_open (some failed) = false

abbrev pub to_task : RepoSyncState → TaskType → Task
to_task r t = record {
  task = t;
  repository_id = r.repo_id;
  repository = some (record {
    id = r.repo_id;
    name = r.repo_name;
    full_name = r.repo_full_name;
    owner_login = r.repo_owner;
    html_url = r.repo_url;
    updated_at = r.repo_updated_at;
  });
  cursor = truthy_text (r.cursor t);
}

unfoldable pub map_sync_state_to_tasks : List TaskType → RepoSyncState → List Task
map_sync_state_to_tasks [] r = []
map_sync_state_to_tasks (t ∷ ts) r =
    let rest = map_sync_state_to_tasks ts r in
    if is_open (r.status t) then to_task r t ∷ rest else rest

-- The WHERE condition: some task has the status NULL or "pending".
unfoldable pub lookup_pending_condition_for_tasks : List TaskType → RepoSyncState → Bool
lookup_pending_condition_for_tasks tasks r = any (λ t. is_open (r.status t)) tasks

unfoldable pub fetch_pending_repo_sync_states :
    Subscription → List TaskType → ℕ → Db → List RepoSyncState
unfolding find_all_from_subscription lookup_pending_condition_for_tasks
fetch_pending_repo_sync_states subscription tasks limit db =
    find_all_from_subscription subscription.id limit (lookup_pending_condition_for_tasks tasks) db

pub record NextTasks : Type 0 where
  pub main_task : Option Task
  pub other_tasks : List Task

-- `if (!mainTask) mainTask = pendingTasks[0]`, with what the branch adds to the other tasks
abbrev pub choose_main : Option Task → List Task → Option Task
choose_main (some t) pending_tasks = some t
choose_main none pending_tasks = head? pending_tasks

abbrev pub add_others : Option Task → List Task → List Task → List Task
add_others (some t) others pending_tasks = others ++ pending_tasks
add_others none others pending_tasks = others ++ drop 1 pending_tasks

-- The loop over the fetched rows; it stops once the pool is large enough.
unfoldable pub collect :
    List TaskType → ℕ → Option Task → List Task → List RepoSyncState → NextTasks
collect tasks n main others [] = record { main_task = main; other_tasks = others }
collect tasks n main others (r ∷ rs) =
    let pending_tasks = map_sync_state_to_tasks tasks r in
    let main' = choose_main main pending_tasks in
    let others' = add_others main others pending_tasks in
    let further = collect tasks n main' others' rs in
    if ltb (n * subtasks_pool_coef) (length others')
    then record { main_task = main'; other_tasks = others' }
    else further

-- `shuffle` is the sort by a random comparison.
unfoldable pub calculate_next_tasks_with_subtasks :
    (List Task → List Task) → List RepoSyncState → List TaskType → ℕ → NextTasks
unfolding collect map_sync_state_to_tasks
calculate_next_tasks_with_subtasks shuffle rows tasks n =
    let pool = collect tasks n none [] rows in
    record { main_task = pool.main_task; other_tasks = take n (shuffle pool.other_tasks) }

-- The feature flag and the permissions decide whether the security tasks take part.
unfoldable pub selected_tasks : Bool → Subscription → List TaskType → List TaskType
unfolding get_target_tasks
selected_tasks security_enabled subscription target_tasks =
    let tasks = get_target_tasks target_tasks in
    if not security_enabled || not subscription.is_security_permissions_accepted
    then without tasks security_task_types
    else tasks

abbrev pub discovery_task : Subscription → Task
discovery_task subscription = record {
  task = repository;
  repository_id = 0;
  repository = none;
  cursor = truthy_text subscription.repository_cursor;
}

abbrev pub is_complete : Option TaskStatus → Bool
is_complete (some complete) = true
is_complete (some pending) = false
is_complete (some failed) = false
is_complete none = false

-- What is returned where no quota is left for subtasks.
abbrev pub main_task_only : List TaskType → List RepoSyncState → NextTasks
main_task_only tasks [] = record { main_task = none; other_tasks = [] }
main_task_only tasks (r ∷ rs) = record {
  main_task = head? (map_sync_state_to_tasks tasks r);
  other_tasks = [];
}

-- The two ways to look for work in the rows, by the number of subtasks.
unfoldable pub next_repository_tasks :
    (List Task → List Task) → ℕ → List TaskType → Subscription → Db → NextTasks
unfolding calculate_next_tasks_with_subtasks fetch_pending_repo_sync_states map_sync_state_to_tasks
next_repository_tasks shuffle n tasks subscription db =
    if ltb 0 n
    then calculate_next_tasks_with_subtasks shuffle
        (fetch_pending_repo_sync_states subscription tasks ((n + 1) * subtasks_pool_coef) db) tasks
        n
    else main_task_only tasks (fetch_pending_repo_sync_states subscription tasks 1 db)

unfoldable pub get_next_tasks :
    (List Task → List Task)
    → Option RateLimit
    → Bool
    → Subscription
    → List TaskType
    → Db
    → NextTasks
unfolding next_repository_tasks selected_tasks estimate_number_of_subtasks
get_next_tasks shuffle limits security_enabled subscription target_tasks db =
    if not (is_complete subscription.repository_status)
    then record { main_task = some (discovery_task subscription); other_tasks = [] }
    else next_repository_tasks shuffle (estimate_number_of_subtasks limits)
        (selected_tasks security_enabled subscription target_tasks) subscription db
