-- ===== src/Sync/Start.antt =====
-- src/sync/sync-utils.ts: the start of a backfill, which resets the state of an earlier one. Times
-- are milliseconds since the epoch.
pub mod Resetting
pub mod Restart
use github_for_jira.Base.{
  ℕ, ◌-◌, ap, Bool, true, false, ◌&&◌, List, [], ◌∷◌, Option, none, some, if◌then◌else◌, is_empty,
  get_or,
}
use github_for_jira.Sync.Types.{
  TaskType, repository, SyncType, full, partial, SyncStatus, sync_pending, TaskStatus, includes,
  BackfillMessagePayload,
}
use github_for_jira.Sync.Store.{
  Subscription, RepoSyncState, Db, update_subscription, update_from_subscription,
  delete_from_subscription, truthy, set_at,
}
use github_for_jira.Sync.Scheduler.{without}
use github_for_jira.Sync.Tasks.{World, Sender, on_db}

abbrev pub is_full : Option SyncType → Bool
is_full none = false
is_full (some full) = true
is_full (some partial) = false

-- One entry of the update of the rows, for one task type.
abbrev pub reset_task : Bool → TaskType → RepoSyncState → RepoSyncState
reset_task true t r = record r { cursor = set_at r.cursor t none; status = set_at r.status t none }
reset_task false t r = record r { status = set_at r.status t none }

abbrev pub reset_tasks : Bool → List TaskType → RepoSyncState → RepoSyncState
reset_tasks is_full_ [] r = record r { repo_updated_at = none }
reset_tasks is_full_ (t ∷ ts) r = reset_task is_full_ t (reset_tasks is_full_ ts r)

abbrev pub reset_repository : Bool → Subscription → Subscription
reset_repository true s = record s {
  repository_status = none;
  total_number_of_repos = none;
  repository_cursor = none;
}
reset_repository false s = record s { repository_status = none }

unfoldable pub reset_targeted_tasks : ℕ → Option SyncType → List TaskType → Db → Db
unfolding update_from_subscription update_subscription
reset_targeted_tasks sub sync_type [] db = db
reset_targeted_tasks sub sync_type (t ∷ ts) db =
    let targets = t ∷ ts in
    let db' =
      update_from_subscription sub
        (reset_tasks (is_full sync_type) (without targets (repository ∷ []))) db in
    if includes targets repository
    then update_subscription sub (reset_repository (is_full sync_type)) db'
    else db'

unfoldable pub reset_failed_code : ℕ → List TaskType → Db → Db
unfolding update_from_subscription
reset_failed_code sub [] db = db
reset_failed_code sub (t ∷ ts) db =
    update_from_subscription sub (λ r. record r { failed_code = none }) db

-- The flag's value: `none` is `NaN`, and -1 is not a number of milliseconds either.
unfoldable pub get_commit_since_date : ℕ → Option ℕ → Option ℕ → Option ℕ
get_commit_since_date now flag (some d) = some d
get_commit_since_date now flag none = elim (truthy flag) [
  | none ↦ none
  | some cutoff ↦ some (now - cutoff)
]

-- The tables after the resets.
unfoldable pub reset_state : ℕ → Option SyncType → List TaskType → Db → Db
unfolding update_subscription reset_targeted_tasks delete_from_subscription reset_failed_code
reset_state sub sync_type targets db =
    let pending =
      update_subscription sub
        (λ s. record s {
          sync_status = some sync_pending;
          number_of_synced_repos = some 0;
          sync_warning = none;
        })
        db in
    let reset = reset_targeted_tasks sub sync_type targets pending in
    let emptied =
      if is_full sync_type && is_empty targets
      then delete_from_subscription sub (
          update_subscription sub
            (λ s. record s {
              total_number_of_repos = none;
              repository_cursor = none;
              repository_status = none;
            })
            reset)
      else reset in
    reset_failed_code sub targets emptied

-- The app of a GitHub Enterprise Server must be known.
abbrev pub has_app_config : (ℕ → Bool) → Option ℕ → Bool
has_app_config is_known none = true
has_app_config is_known (some app) = is_known app

-- Whether the start succeeded, and the state after it; the resets stay if it did not.
unfoldable pub find_or_start_sync :
    (ℕ → Bool)
    → ℕ
    → Option ℕ
    → Subscription
    → Option SyncType
    → Option ℕ
    → List TaskType
    → Sender
    → World
    → Bool × World
unfolding reset_state get_commit_since_date
find_or_start_sync is_known now flag subscription sync_type commits_from_date targets send w =
    let w' = on_db (reset_state subscription.id sync_type targets) w in
    if has_app_config is_known (truthy subscription.github_app_id)
    then (
      true,
      send
          (record {
            jira_host = subscription.jira_host;
            installation_id = get_or subscription.github_installation_id 0;
            github_app_id = truthy subscription.github_app_id;
            sync_type = sync_type;
            start_time = some now;
            commits_from_date = get_commit_since_date now flag commits_from_date;
            target_tasks = targets;
          })
          0 w',
    )
    else (false, w')
