-- ===== src/Sync/Scheduler/MainTask.antt =====
-- The main task that src/sync/scheduler.ts chooses.
use github_for_jira.Base.{
  ℕ, zero, suc, ◌+◌, ◌-◌, ◌*◌, ◌≡◌, refl, sym, ap, ◌∙◌, inl, inr, Bool, true, ◌&&◌, List, [], ◌∷◌,
  Option, arith, ltb, ◌==◌, Bool-cases, head?, take, filter, All, Any, and_then, and-elim, All-map,
  All-self,
}
use github_for_jira.Sync.Types.{TaskType, Task}
use github_for_jira.Sync.Store.{Subscription, RepoSyncState, Db, by_id_desc}
use github_for_jira.Sync.Scheduler.{
  map_sync_state_to_tasks, lookup_pending_condition_for_tasks, subtasks_pool_coef,
  calculate_next_tasks_with_subtasks, main_task_only, next_repository_tasks, selected_tasks,
  get_next_tasks, RateLimit, estimate_number_of_subtasks, is_complete,
}
use github_for_jira.Sync.Scheduler.Lemmas.{by_id_desc-All, All-filter_test, collect-main_task}

-- A row of the subscription with an open task among those that the backfill works on.
abbrev pub is_pending_row : Subscription → List TaskType → RepoSyncState → Bool
is_pending_row subscription tasks r =
    r.subscription_id == subscription.id && lookup_pending_condition_for_tasks tasks r

unfoldable pub pending_rows : Subscription → List TaskType → Db → List RepoSyncState
pending_rows subscription tasks db =
    by_id_desc (filter (is_pending_row subscription tasks) db.repo_sync_states)

take-nil : {A : Type 0} (k : ℕ) → take {A = A} k [] ≡ []
take-nil zero = refl
take-nil (suc k) = refl

take-cons :
    (n : ℕ) (r : RepoSyncState) (rs : List RepoSyncState)
    → take ((n + 1) * subtasks_pool_coef) (r ∷ rs) ≡ r ∷ take ((n + 1) * subtasks_pool_coef - 1) rs
take-cons n r rs =
    let e : (n + 1) * subtasks_pool_coef ≡ suc ((n + 1) * subtasks_pool_coef - 1) = omega arith in
    ap (λ k. take k (r ∷ rs)) e

abbrev pub first_of_rows : List TaskType → List RepoSyncState → Option Task
first_of_rows tasks rows = and_then (head? rows) (λ r. head? (map_sync_state_to_tasks tasks r))

one_row :
    (tasks : List TaskType) (rows : List RepoSyncState)
    → (main_task_only tasks (take 1 rows)).main_task ≡ first_of_rows tasks rows
one_row tasks [] = refl
one_row tasks (r ∷ rs) = refl

several_rows :
    (shuffle : List Task → List Task) (n : ℕ) (tasks : List TaskType) (rows : List RepoSyncState)
    → All (λ r. lookup_pending_condition_for_tasks tasks r ≡ true) rows
    → (calculate_next_tasks_with_subtasks shuffle
        (take ((n + 1) * subtasks_pool_coef) rows)
        tasks
        n).main_task
      ≡ first_of_rows tasks rows
unfolding calculate_next_tasks_with_subtasks
several_rows shuffle n tasks [] h = rw take-nil
several_rows shuffle n tasks (r ∷ rs) (p, h) = rw take-cons (collect-main_task tasks n r _ p)

module _ (tasks : List TaskType) (subscription : Subscription) (db : Db) where
  pub pending_rows-All :
      All
        (λ r. (is_pending_row subscription tasks r ≡ true) × Any (λ q. q ≡ r) db.repo_sync_states)
        (pending_rows subscription tasks db)
  unfolding pending_rows
  pending_rows-All = by_id_desc-All _ _ (
      All-filter_test (λ r. Any (λ q. q ≡ r) db.repo_sync_states)
        (is_pending_row subscription tasks) db.repo_sync_states (All-self db.repo_sync_states))

  pub pending_rows-condition :
      All
        (λ r. lookup_pending_condition_for_tasks tasks r ≡ true)
        (pending_rows subscription tasks db)
  pending_rows-condition =
      All-map (λ r h. (and-elim _ _ h.0).1) (pending_rows subscription tasks db) pending_rows-All

  pub next_repository_tasks-main_task :
      (shuffle : List Task → List Task) (n : ℕ)
      → (next_repository_tasks shuffle n tasks subscription db).main_task
        ≡ first_of_rows tasks (pending_rows subscription tasks db)
  unfolding next_repository_tasks pending_rows
  next_repository_tasks-main_task shuffle n = elim (Bool-cases (ltb 0 n)) [
    | inl positive ↦
        rw positive
          (several_rows shuffle n tasks (pending_rows subscription tasks db) pending_rows-condition)
    | inr zero_ ↦ rw zero_ (one_row tasks (pending_rows subscription tasks db))
  ]

-- Whatever quota GitHub reports, or none at all, and however the pool is shuffled, the main task
-- is the same.
pub get_next_tasks-main_task_same :
    (shuffle shuffle' : List Task → List Task) (limits limits' : Option RateLimit)
    (security_enabled : Bool) (subscription : Subscription) (target_tasks : List TaskType) (db : Db)
    → (get_next_tasks shuffle limits security_enabled subscription target_tasks db).main_task
      ≡ (get_next_tasks shuffle' limits' security_enabled subscription target_tasks db).main_task
unfolding get_next_tasks
get_next_tasks-main_task_same shuffle shuffle' limits limits' security_enabled subscription
      target_tasks db =
    let tasks = selected_tasks security_enabled subscription target_tasks in
    elim (Bool-cases (is_complete subscription.repository_status)) [
      | inl discovered ↦ rw discovered (
          next_repository_tasks-main_task tasks subscription db shuffle
            (estimate_number_of_subtasks limits)
          ∙ sym (
              next_repository_tasks-main_task tasks subscription db shuffle'
                (estimate_number_of_subtasks limits')))
      | inr discovering ↦ rw discovering
    ]
