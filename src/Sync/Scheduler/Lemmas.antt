-- ===== src/Sync/Scheduler/Lemmas.antt =====
-- The parts of the scheduler of src/sync/scheduler.ts: the mapped tasks, the fetched rows and the
-- loop over them.
use github_for_jira.Base.{
  ℕ, ◌*◌, ◌≡◌, refl, inl, inr, Bool, true, List, [], ◌∷◌, ◌++◌, Option, none, some, ltb, Bool-cases,
  head?, drop, filter, length, All, All-append,
}
use github_for_jira.Sync.Types.{TaskType, Task}
use github_for_jira.Sync.Store.{RepoSyncState, insert_by_id, by_id_desc}
use github_for_jira.Sync.Scheduler.{
  is_open, to_task, map_sync_state_to_tasks, lookup_pending_condition_for_tasks, choose_main,
  add_others, collect, subtasks_pool_coef,
}

-- A row that meets the WHERE condition has a first task.
pub map_sync_state_to_tasks-some :
    (tasks : List TaskType) (r : RepoSyncState)
    → lookup_pending_condition_for_tasks tasks r ≡ true
    → (t : Task) × (head? (map_sync_state_to_tasks tasks r) ≡ some t)
unfolding map_sync_state_to_tasks lookup_pending_condition_for_tasks
map_sync_state_to_tasks-some [] r h = cc
map_sync_state_to_tasks-some (t ∷ ts) r h = elim (Bool-cases (is_open (r.status t))) [
  | inl open_ ↦ rw open_ (to_task r t, refl)
  | inr closed ↦ rw closed (map_sync_state_to_tasks-some ts r (rw closed at h))
]

module _ {κ} (P : RepoSyncState → Type κ) where
  insert_by_id-All :
      (r : RepoSyncState) (rs : List RepoSyncState) → P r → All P rs → All P (insert_by_id r rs)
  unfolding insert_by_id
  insert_by_id-All r [] p h = (p, tt)
  insert_by_id-All r (q ∷ qs) p (k, h) = elim (Bool-cases (ltb r.id q.id)) [
    | inl less ↦ rw less (k, insert_by_id-All r qs p h)
    | inr more ↦ rw more (p, (k, h))
  ]

  pub by_id_desc-All : (rs : List RepoSyncState) → All P rs → All P (by_id_desc rs)
  unfolding by_id_desc
  by_id_desc-All [] h = tt
  by_id_desc-All (r ∷ rs) (p, h) = insert_by_id-All r (by_id_desc rs) p (by_id_desc-All rs h)

-- What every kept element satisfies: the test, and whatever all the elements satisfy.
pub All-filter_test {ℓ κ} :
    {A : Type ℓ} (P : A → Type κ) (p : A → Bool) (xs : List A)
    → All P xs
    → All (λ x. (p x ≡ true) × P x) (filter p xs)
All-filter_test P p [] h = tt
All-filter_test P p (x ∷ xs) (k, h) = elim (Bool-cases (p x)) [
  | inl kept ↦ rw kept ((kept, k), All-filter_test P p xs h)
  | inr dropped ↦ rw dropped (All-filter_test P p xs h)
]

-- Once the main task is chosen, the loop keeps it.
pub collect-main_task_some :
    (tasks : List TaskType) (n : ℕ) (t : Task) (others : List Task) (rs : List RepoSyncState)
    → (collect tasks n (some t) others rs).main_task ≡ some t
unfolding collect
collect-main_task_some tasks n t others [] = refl
collect-main_task_some tasks n t others (r ∷ rs) =
    elim (Bool-cases
      (ltb (n * subtasks_pool_coef) (length (others ++ map_sync_state_to_tasks tasks r)))) [
        | inl enough ↦ rw enough
        | inr more ↦
            rw more
              (collect-main_task_some tasks n t (others ++ map_sync_state_to_tasks tasks r) rs)
      ]

-- The loop chooses the first task of the first row.
pub collect-main_task :
    (tasks : List TaskType) (n : ℕ) (r : RepoSyncState) (rs : List RepoSyncState)
    → lookup_pending_condition_for_tasks tasks r ≡ true
    → (collect tasks n none [] (r ∷ rs)).main_task ≡ head? (map_sync_state_to_tasks tasks r)
unfolding collect
collect-main_task tasks n r rs h =
    let (t, e) = map_sync_state_to_tasks-some tasks r h in
    elim (Bool-cases
      (ltb (n * subtasks_pool_coef) (length (drop 1 (map_sync_state_to_tasks tasks r))))) [
        | inl enough ↦ rw enough
        | inr more ↦ rw more (rw e (collect-main_task_some tasks n t _ rs))
      ]

-- Every task of the pool has what the tasks of the rows have.
module _ {κ} (P : Task → Type κ) where
  pub All-drop_one : (ts : List Task) → All P ts → All P (drop 1 ts)
  All-drop_one [] h = tt
  All-drop_one (t ∷ ts) (p, h) = h

  add_others-All :
      (main : Option Task) (others ts : List Task)
      → All P others
      → All P ts
      → All P (add_others main others ts)
  add_others-All none others ts h k = All-append P others _ h (All-drop_one ts k)
  add_others-All (some t) others ts h k = All-append P others _ h k

  pub collect-All :
      (tasks : List TaskType) (n : ℕ) (main : Option Task) (others : List Task)
      (rs : List RepoSyncState)
      → All P others
      → All (λ r. All P (map_sync_state_to_tasks tasks r)) rs
      → All P (collect tasks n main others rs).other_tasks
  unfolding collect
  collect-All tasks n main others [] h k = h
  collect-All tasks n main others (r ∷ rs) h (p, k) =
      let others' = add_others main others (map_sync_state_to_tasks tasks r) in
      let h' = add_others-All main others (map_sync_state_to_tasks tasks r) h p in
      elim (Bool-cases (ltb (n * subtasks_pool_coef) (length others'))) [
        | inl enough ↦ rw enough h'
        | inr more ↦ rw more (
            collect-All tasks n (choose_main main (map_sync_state_to_tasks tasks r)) others' rs h'
              k)
      ]
