-- ===== src/Sync/Scheduler/Subtasks.antt =====
-- The subtasks that src/sync/scheduler.ts picks beside the main task.
use github_for_jira.Base.{
  ℕ, ◌+◌, ◌*◌, ◌≤◌, ◌<◌, ◌≡◌, refl, inl, inr, Bool, true, false, ◌||◌, ◌&&◌, not, List, [], ◌∷◌,
  Option, none, some, arith, ltb, Bool-cases, filter, length, All, Any, All-take, and-elim, ==_iff,
  length-take_le, All-map, All-of_members,
}
use github_for_jira.Sync.Types.{TaskType, Task, includes, =t=_iff}
use github_for_jira.Sync.Store.{Subscription, RepoSyncState, Db}
use github_for_jira.Sync.Scheduler.{
  map_sync_state_to_tasks, collect, to_task, is_open, subtasks_pool_coef,
  fetch_pending_repo_sync_states, next_repository_tasks, selected_tasks, get_next_tasks, RateLimit,
  estimate_number_of_subtasks, is_complete, max_subtasks, security_task_types, without,
  get_target_tasks, main_task_only,
}
use github_for_jira.Sync.Scheduler.Lemmas.{collect-All}
use github_for_jira.Sync.Scheduler.MainTask.{pending_rows, pending_rows-All}

-- If subtasks are allowed at all, both quotas have 500 requests for each of them and 500 more.
pub estimate_number_of_subtasks-bounds :
    (core graphql : ℕ)
    → let n =
        estimate_number_of_subtasks
          (some (record { core_remaining = core; graphql_remaining = graphql })) in
      0 < n → ((n + 1) * 500 ≤ core) × ((n + 1) * 500 ≤ graphql)
unfolding estimate_number_of_subtasks
estimate_number_of_subtasks-bounds core graphql h = (omega (arith, h), omega (arith, h))

estimate_le : (limits : Option RateLimit) → estimate_number_of_subtasks limits ≤ max_subtasks
unfolding estimate_number_of_subtasks
estimate_le none = omega arith
estimate_le (some r) = omega arith

next_repository_tasks-length :
    (shuffle : List Task → List Task) (n : ℕ) (tasks : List TaskType) (subscription : Subscription)
    (db : Db)
    → length (next_repository_tasks shuffle n tasks subscription db).other_tasks ≤ n
unfolding next_repository_tasks
next_repository_tasks-length shuffle n tasks subscription db = elim (Bool-cases (ltb 0 n)) [
  | inl positive ↦ rw positive (length-take_le n _)
  | inr zero_ ↦ rw zero_ (none_others (fetch_pending_repo_sync_states subscription tasks 1 db))
]
  where
    none_others : (rows : List RepoSyncState) → length (main_task_only tasks rows).other_tasks ≤ n
    none_others [] = omega arith
    none_others (r ∷ rs) = omega arith

-- One message starts at most as many subtasks as the reported quota allows, and 100 at most; with
-- no report it starts none.
pub get_next_tasks-other_tasks_length :
    (shuffle : List Task → List Task) (limits : Option RateLimit) (security_enabled : Bool)
    (subscription : Subscription) (target_tasks : List TaskType) (db : Db)
    → let others =
        (get_next_tasks shuffle limits security_enabled subscription target_tasks db).other_tasks in
      (length others ≤ estimate_number_of_subtasks limits) × (length others ≤ 100)
unfolding get_next_tasks
get_next_tasks-other_tasks_length shuffle limits security_enabled subscription target_tasks db =
    let n = estimate_number_of_subtasks limits in
    let few = estimate_le limits in
    elim (Bool-cases (is_complete subscription.repository_status)) [
      | inl discovered ↦
          let h =
            next_repository_tasks-length shuffle n
              (selected_tasks security_enabled subscription target_tasks) subscription db in
          rw discovered (h, omega arith)
      | inr discovering ↦ rw discovering (omega arith, omega arith)
    ]

-- The task stands for an open column of a row of the subscription, and its type is selected.
pub record IsOpenTask (subscription : Subscription) (tasks : List TaskType) (db : Db) (t : Task)
    : Type 0 where
  pub row : RepoSyncState
  pub listed : Any (λ r. r ≡ row) db.repo_sync_states
  pub owned : row.subscription_id ≡ subscription.id
  pub selected : includes tasks t.task ≡ true
  pub is_open_ : is_open (row.status t.task) ≡ true
  pub same : t ≡ to_task row t.task

map_sync_state_to_tasks-All :
    (subscription : Subscription) (tasks : List TaskType) (db : Db) (r : RepoSyncState)
    → Any (λ q. q ≡ r) db.repo_sync_states
    → r.subscription_id ≡ subscription.id
    → (ts : List TaskType) → All (λ t. includes tasks t ≡ true) ts
    → All (IsOpenTask subscription tasks db) (map_sync_state_to_tasks ts r)
unfolding map_sync_state_to_tasks
map_sync_state_to_tasks-All subscription tasks db r m o [] h = tt
map_sync_state_to_tasks-All subscription tasks db r m o (t ∷ ts) (p, h) =
    let rest = map_sync_state_to_tasks-All subscription tasks db r m o ts h in
    elim (Bool-cases (is_open (r.status t))) [
      | inl open_ ↦ rw open_ (
        record { row = r; listed = m; owned = o; selected = p; is_open_ = open_; same = refl },
        rest,
      )
      | inr closed ↦ rw closed rest
    ]

includes-cons :
    (t u : TaskType) (ts : List TaskType) → includes ts t ≡ true → includes (u ∷ ts) t ≡ true
includes-cons t u ts h = ground arith

includes_self : (tasks : List TaskType) → All (λ t. includes tasks t ≡ true) tasks
includes_self [] = tt
includes_self (t ∷ ts) =
    (ground (arith, =t=_iff t t), All-map (λ u h. includes-cons u t ts h) ts (includes_self ts))

module _ (subscription : Subscription) (tasks : List TaskType) (db : Db) where
  fetched-All :
      (limit : ℕ)
      → All
          (λ r. All (IsOpenTask subscription tasks db) (map_sync_state_to_tasks tasks r))
          (fetch_pending_repo_sync_states subscription tasks limit db)
  unfolding fetch_pending_repo_sync_states pending_rows
  fetched-All limit = All-take _ limit (pending_rows subscription tasks db) (
      All-map
        (λ r h.
          map_sync_state_to_tasks-All subscription tasks db r h.1
            ((==_iff _ _).0 (and-elim _ _ h.0).0) tasks (includes_self tasks))
        (pending_rows subscription tasks db) (pending_rows-All tasks subscription db))

  others-All :
      (shuffle : List Task → List Task)
      → ((l : List Task) → All (λ t. Any (λ u. u ≡ t) l) (shuffle l))
      → (n : ℕ)
      → All
          (IsOpenTask subscription tasks db)
          (next_repository_tasks shuffle n tasks subscription db).other_tasks
  unfolding next_repository_tasks
  others-All shuffle members n = elim (Bool-cases (ltb 0 n)) [
    | inl positive ↦
        let rows =
          fetch_pending_repo_sync_states subscription tasks ((n + 1) * subtasks_pool_coef) db in
        let pool = (collect tasks n none [] rows).other_tasks in
        rw positive (
          All-take _ n (shuffle pool) (
            All-of_members _ pool (shuffle pool) (members pool)
              (collect-All _ tasks n none [] rows tt (fetched-All ((n + 1) * subtasks_pool_coef)))))
    | inr zero_ ↦ rw zero_ (none_others (fetch_pending_repo_sync_states subscription tasks 1 db))
  ]
    where
      none_others :
          (rows : List RepoSyncState)
          → All (IsOpenTask subscription tasks db) (main_task_only tasks rows).other_tasks
      none_others [] = tt
      none_others (r ∷ rs) = tt

-- Sorting by a random comparison adds no element. Then every subtask is an open, selected task of a
-- row of the subscription: no finished or failed task is run again beside the main one.
pub get_next_tasks-IsOpenTask :
    (shuffle : List Task → List Task)
    → ((l : List Task) → All (λ t. Any (λ u. u ≡ t) l) (shuffle l))
    → (limits : Option RateLimit) (security_enabled : Bool) (subscription : Subscription)
      (target_tasks : List TaskType) (db : Db)
    → All
        (IsOpenTask subscription (selected_tasks security_enabled subscription target_tasks) db)
        (get_next_tasks shuffle limits security_enabled subscription target_tasks db).other_tasks
unfolding get_next_tasks
get_next_tasks-IsOpenTask shuffle members limits security_enabled subscription target_tasks db =
    elim (Bool-cases (is_complete subscription.repository_status)) [
      | inl discovered ↦ rw discovered (
          others-All subscription (selected_tasks security_enabled subscription target_tasks) db
            shuffle members (estimate_number_of_subtasks limits))
      | inr discovering ↦ rw discovering tt
    ]

filter-test {ℓ} : {A : Type ℓ} (p : A → Bool) (xs : List A) → All (λ x. p x ≡ true) (filter p xs)
filter-test p [] = tt
filter-test p (x ∷ xs) = elim (Bool-cases (p x)) [
  | inl kept ↦ rw kept (kept, filter-test p xs)
  | inr dropped ↦ rw dropped (filter-test p xs)
]

-- Unless the feature is on and the permissions are accepted, no security task is selected,
-- whatever the message asks for.
pub selected_tasks-no_security :
    (security_enabled : Bool) (subscription : Subscription) (target_tasks : List TaskType)
    → (security_enabled && subscription.is_security_permissions_accepted) ≡ false
    → All
        (λ t. includes security_task_types t ≡ false)
        (selected_tasks security_enabled subscription target_tasks)
unfolding selected_tasks
selected_tasks-no_security security_enabled subscription target_tasks h =
    let excluded : (not security_enabled || not subscription.is_security_permissions_accepted)
        ≡ true =
      ground arith in
    rw excluded (
      All-map (λ t e. ground arith) (without (get_target_tasks target_tasks) security_task_types)
        (filter-test (λ t. not (includes security_task_types t)) (get_target_tasks target_tasks)))
