-- ===== src/Sync/Scheduler/Choice.antt =====
-- Which task src/sync/scheduler.ts chooses as the main one, and when there is none.
use github_for_jira.Base.{
  ℕ, ◌≤◌, ◌≡◌, refl, sym, ap, ◌∙◌, ◌↔◌, inl, inr, Bool, true, false, List, [], ◌∷◌, Option, none,
  some, arith, Bool-cases, head?, filter, All, Any, All-map, All-unfilter, filter-nil,
}
use github_for_jira.Sync.Types.{TaskType, Task}
use github_for_jira.Sync.Store.{Subscription, RepoSyncState, Db, insert_by_id, by_id_desc}
use github_for_jira.Sync.Scheduler.{
  map_sync_state_to_tasks, lookup_pending_condition_for_tasks, next_repository_tasks,
  selected_tasks, get_next_tasks, RateLimit, estimate_number_of_subtasks, is_complete,
}
use github_for_jira.Sync.Scheduler.Lemmas.{map_sync_state_to_tasks-some}
use github_for_jira.Sync.Scheduler.MainTask.{
  is_pending_row, pending_rows, first_of_rows, pending_rows-All, pending_rows-condition,
  next_repository_tasks-main_task,
}

-- The task is the first open one of the pending row with the greatest id.
pub record IsNext (subscription : Subscription) (tasks : List TaskType) (db : Db) (t : Task)
    : Type 0 where
  pub row : RepoSyncState
  pub listed : Any (λ r. r ≡ row) db.repo_sync_states
  pub is_pending : is_pending_row subscription tasks row ≡ true
  pub newest :
      All (λ r. is_pending_row subscription tasks r ≡ true → r.id ≤ row.id) db.repo_sync_states
  pub first : head? (map_sync_state_to_tasks tasks row) ≡ some t

-- The head of the ordered rows has the greatest id.
abbrev AtMost : RepoSyncState → Option RepoSyncState → Type 0
AtMost q none = ⊥
AtMost q (some r) = q.id ≤ r.id

AtMost-insert :
    (q r : RepoSyncState) (rs : List RepoSyncState)
    → AtMost q (head? rs)
    → AtMost q (head? (insert_by_id r rs))
unfolding insert_by_id
AtMost-insert q r [] h = elim h [ ]
AtMost-insert q r (p ∷ ps) h = ground arith

AtMost-insert_self :
    (r : RepoSyncState) (rs : List RepoSyncState) → AtMost r (head? (insert_by_id r rs))
unfolding insert_by_id
AtMost-insert_self r [] = omega arith
AtMost-insert_self r (p ∷ ps) = ground arith

by_id_desc-AtMost : (rs : List RepoSyncState) → All (λ q. AtMost q (head? (by_id_desc rs))) rs
unfolding by_id_desc
by_id_desc-AtMost [] = tt
by_id_desc-AtMost (r ∷ rs) = (
  AtMost-insert_self r (by_id_desc rs),
  All-map (λ q h. AtMost-insert q r (by_id_desc rs) h) rs (by_id_desc-AtMost rs),
)

module _ (tasks : List TaskType) (subscription : Subscription) (db : Db) where
  pending_rows-AtMost :
      All
        (λ q.
          is_pending_row subscription tasks q ≡ true
          → AtMost q (head? (pending_rows subscription tasks db)))
        db.repo_sync_states
  unfolding pending_rows
  pending_rows-AtMost =
      All-unfilter _ (is_pending_row subscription tasks) db.repo_sync_states
        (by_id_desc-AtMost (filter (is_pending_row subscription tasks) db.repo_sync_states))

  head-IsNext :
      (t : Task) (rows : List RepoSyncState)
      → All
          (λ q. is_pending_row subscription tasks q ≡ true → AtMost q (head? rows))
          db.repo_sync_states
      → All
          (λ r. (is_pending_row subscription tasks r ≡ true) × Any (λ q. q ≡ r) db.repo_sync_states)
          rows
      → first_of_rows tasks rows ≡ some t
      → IsNext subscription tasks db t
  head-IsNext t [] greatest h e = cc
  head-IsNext t (r ∷ rs) greatest ((p, m), h) e = record {
    row = r;
    listed = m;
    is_pending = p;
    newest = greatest;
    first = e;
  }

  -- A message after discovery works on the first open task of the pending row with the greatest id.
  next_repository_tasks-IsNext :
      (shuffle : List Task → List Task) (n : ℕ) (t : Task)
      → (next_repository_tasks shuffle n tasks subscription db).main_task ≡ some t
      → IsNext subscription tasks db t
  next_repository_tasks-IsNext shuffle n t e =
      head-IsNext t (pending_rows subscription tasks db) pending_rows-AtMost
        (pending_rows-All tasks subscription db)
        (sym (next_repository_tasks-main_task tasks subscription db shuffle n) ∙ e)

  no_first :
      (rows : List RepoSyncState)
      → All (λ r. lookup_pending_condition_for_tasks tasks r ≡ true) rows
      → first_of_rows tasks rows ≡ none
      → rows ≡ []
  no_first [] h e = refl
  no_first (r ∷ rs) (p, h) e = let (t, found) = map_sync_state_to_tasks-some tasks r p in cc

  next_repository_tasks-none :
      (shuffle : List Task → List Task) (n : ℕ)
      → (next_repository_tasks shuffle n tasks subscription db).main_task ≡ none
      → All (λ r. is_pending_row subscription tasks r ≡ false) db.repo_sync_states
  next_repository_tasks-none shuffle n e =
      let empty =
        no_first (pending_rows subscription tasks db) (pending_rows-condition tasks subscription db)
          (sym (next_repository_tasks-main_task tasks subscription db shuffle n) ∙ e) in
      All-map (λ r h. not_pending r h) db.repo_sync_states (rw empty at pending_rows-AtMost)
    where
      not_pending :
          (r : RepoSyncState)
          → (is_pending_row subscription tasks r ≡ true → ⊥)
          → is_pending_row subscription tasks r ≡ false
      not_pending r h = elim (Bool-cases (is_pending_row subscription tasks r)) [
        | inl p ↦ absurd (h p)
        | inr p ↦ p
      ]

  pending_rows-nil :
      All (λ r. is_pending_row subscription tasks r ≡ false) db.repo_sync_states
      → pending_rows subscription tasks db ≡ []
  unfolding pending_rows by_id_desc
  pending_rows-nil h = ap by_id_desc (filter-nil _ db.repo_sync_states h)

  none_pending :
      (shuffle : List Task → List Task) (n : ℕ)
      → All (λ r. is_pending_row subscription tasks r ≡ false) db.repo_sync_states
      → (next_repository_tasks shuffle n tasks subscription db).main_task ≡ none
  none_pending shuffle n h =
      next_repository_tasks-main_task tasks subscription db shuffle n
      ∙ ap (first_of_rows tasks) (pending_rows-nil h)

-- A task of the rows is the first open one of the pending row with the greatest id.
pub get_next_tasks-IsNext :
    (shuffle : List Task → List Task) (limits : Option RateLimit) (security_enabled : Bool)
    (subscription : Subscription) (target_tasks : List TaskType) (db : Db) (t : Task)
    → is_complete subscription.repository_status ≡ true
    → (get_next_tasks shuffle limits security_enabled subscription target_tasks db).main_task
      ≡ some t
    → IsNext subscription (selected_tasks security_enabled subscription target_tasks) db t
unfolding get_next_tasks
get_next_tasks-IsNext shuffle limits security_enabled subscription target_tasks db t discovered e =
    next_repository_tasks-IsNext (selected_tasks security_enabled subscription target_tasks)
      subscription db shuffle (estimate_number_of_subtasks limits) t (rw discovered at e)

-- There is no main task, which ends the backfill, exactly when discovery is complete and no row of
-- the subscription has an open task among the selected ones.
pub get_next_tasks-main_task_none_iff :
    (shuffle : List Task → List Task) (limits : Option RateLimit) (security_enabled : Bool)
    (subscription : Subscription) (target_tasks : List TaskType) (db : Db)
    → ((get_next_tasks shuffle limits security_enabled subscription target_tasks db).main_task
        ≡ none)
      ↔ ((is_complete subscription.repository_status ≡ true)
          × All
              (λ r.
                is_pending_row subscription
                  (selected_tasks security_enabled subscription target_tasks)
                  r
                ≡ false)
              db.repo_sync_states)
unfolding get_next_tasks
get_next_tasks-main_task_none_iff shuffle limits security_enabled subscription target_tasks db =
    let tasks = selected_tasks security_enabled subscription target_tasks in
    let n = estimate_number_of_subtasks limits in
    elim (Bool-cases (is_complete subscription.repository_status)) [
      | inl discovered ↦ rw discovered (
        (λ e. (refl, next_repository_tasks-none tasks subscription db shuffle n e)),
        (λ h. none_pending tasks subscription db shuffle n h.1),
      )
      | inr discovering ↦ rw discovering ((λ e. cc), (λ h. cc))
    ]
