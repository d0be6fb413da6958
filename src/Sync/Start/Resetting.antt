-- ===== src/Sync/Start/Resetting.antt =====
-- What a started backfill (src/sync/sync-utils.ts) finds to do.
use github_for_jira.Base.{
  ℕ, ◌≡◌, refl, ap, ◌∙◌, inl, inr, Bool, true, false, ◌&&◌, List, [], ◌∷◌, map, Option, none, arith,
  ◌==◌, if◌then◌else◌, Bool-cases, filter,
}
use github_for_jira.Sync.Types.{TaskType, repository, ◌=t=◌, =t=_iff, SyncType, includes}
use github_for_jira.Sync.Store.{
  RepoSyncState, Db, update_subscription, update_from_subscription, update_rows,
}
use github_for_jira.Sync.Scheduler.{without}
use github_for_jira.Sync.Tasks.Columns.{column, is_row_of}
use github_for_jira.Sync.Tasks.Effects.{if_written, if_map_id, map_guarded}
use github_for_jira.Sync.Start.{
  is_full, reset_task, reset_tasks, reset_targeted_tasks, reset_failed_code, reset_state,
}

module _ (is_full_ : Bool) (u : TaskType) where
  reset_tasks-status :
      (ts : List TaskType) (r : RepoSyncState)
      → (reset_tasks is_full_ ts r).status u ≡ (if includes ts u then none else r.status u)
  reset_tasks-status [] r = refl
  reset_tasks-status (t ∷ ts) r =
      let ih = reset_tasks-status ts r in
      let s = step is_full_ t (reset_tasks is_full_ ts r) in ground arith
    where
      step :
          (b : Bool) (t : TaskType) (r : RepoSyncState)
          → (reset_task b t r).status u ≡ (if t =t= u then none else r.status u)
      step b t r = ground arith

  reset_tasks-cursor :
      (ts : List TaskType) (r : RepoSyncState)
      → (reset_tasks is_full_ ts r).cursor u
        ≡ (if is_full_ && includes ts u then none else r.cursor u)
  reset_tasks-cursor [] r = ground arith
  reset_tasks-cursor (t ∷ ts) r =
      let ih = reset_tasks-cursor ts r in
      let s = step is_full_ t (reset_tasks is_full_ ts r) in ground arith
    where
      step :
          (b : Bool) (t : TaskType) (r : RepoSyncState)
          → (reset_task b t r).cursor u ≡ (if b && t =t= u then none else r.cursor u)
      step b t r = ground arith

reset_tasks-ids :
    (b : Bool) (ts : List TaskType) (r : RepoSyncState)
    → ((reset_tasks b ts r).subscription_id ≡ r.subscription_id)
      × ((reset_tasks b ts r).repo_id ≡ r.repo_id)
reset_tasks-ids b [] r = (refl, refl)
reset_tasks-ids true (t ∷ ts) r = reset_tasks-ids true ts r
reset_tasks-ids false (t ∷ ts) r = reset_tasks-ids false ts r

reset_tasks-failed_code :
    (b : Bool) (ts : List TaskType) (r : RepoSyncState)
    → (reset_tasks b ts r).failed_code ≡ r.failed_code
reset_tasks-failed_code b [] r = refl
reset_tasks-failed_code true (t ∷ ts) r = reset_tasks-failed_code true ts r
reset_tasks-failed_code false (t ∷ ts) r = reset_tasks-failed_code false ts r

-- A column that an update of a subscription's rows changes by `g`.
module _ {A : Type 0} (f : RepoSyncState → A) (g : A → A) (h : RepoSyncState → RepoSyncState)
    (ids : (r : RepoSyncState)
      → ((h r).subscription_id ≡ r.subscription_id) × ((h r).repo_id ≡ r.repo_id))
    (acts : (r : RepoSyncState) → f (h r) ≡ g (f r)) (sub sub' repo' : ℕ) where
  column-rows :
      (rows : List RepoSyncState)
      → map f (filter (is_row_of sub' repo') (update_rows (λ r. r.subscription_id == sub) h rows))
        ≡ if_written (sub' == sub) g (map f (filter (is_row_of sub' repo') rows))
  unfolding update_rows
  column-rows [] = ground arith
  column-rows (r ∷ rows) =
      let ih = column-rows rows in let e = ids r in let a = acts r in ground (arith, e.0, e.1)

without-includes :
    (targets : List TaskType) (u : TaskType)
    → (u =t= repository) ≡ false
    → includes (without targets (repository ∷ [])) u ≡ includes targets u
without-includes [] u h = refl
without-includes (t ∷ ts) u h = let ih = without-includes ts u h in ground (arith, =t=_iff t u)

abbrev forget_code : RepoSyncState → RepoSyncState
forget_code r = record r { failed_code = none }

targeted-rows :
    (sub : ℕ) (sync_type : Option SyncType) (t : TaskType) (ts : List TaskType) (db : Db)
    → (reset_state sub sync_type (t ∷ ts) db).repo_sync_states
      ≡ update_rows
          (λ r. r.subscription_id == sub)
          forget_code
          (update_rows
            (λ r. r.subscription_id == sub)
            (reset_tasks (is_full sync_type) (without (t ∷ ts) (repository ∷ [])))
            db.repo_sync_states)
unfolding reset_state reset_targeted_tasks reset_failed_code update_from_subscription
    update_subscription
targeted-rows sub sync_type t ts db = elim (Bool-cases (includes (t ∷ ts) repository)) [
  | inl asked ↦ elim (Bool-cases (is_full sync_type)) [
    | inl all_ ↦ rw (asked, all_) refl
    | inr some_ ↦ rw (asked, some_) refl
  ]
  | inr not_asked ↦ elim (Bool-cases (is_full sync_type)) [
    | inl all_ ↦ rw (not_asked, all_) refl
    | inr some_ ↦ rw (not_asked, some_) refl
  ]
]

module _ (sub : ℕ) (sync_type : Option SyncType) (t : TaskType) (ts : List TaskType) (db : Db)
    (sub' repo' : ℕ) where
  -- A column after the resets, by what they do to a value of it.
  targeted-column :
      {A : Type 0} (f : RepoSyncState → A) (g k : A → A)
      → ((r : RepoSyncState) → f (forget_code r) ≡ k (f r))
      → ((r : RepoSyncState)
          → f (reset_tasks (is_full sync_type) (without (t ∷ ts) (repository ∷ [])) r) ≡ g (f r))
      → column f sub' repo' (reset_state sub sync_type (t ∷ ts) db)
        ≡ if_written (sub' == sub) k (if_written (sub' == sub) g (column f sub' repo' db))
  targeted-column f g k ek eg = rw (targeted-rows sub sync_type t ts db) (
      column-rows f k forget_code (λ r. (refl, refl)) ek sub sub' repo' _
      ∙ ap (if_written (sub' == sub) k) (
          column-rows f g _
            (reset_tasks-ids (is_full sync_type) (without (t ∷ ts) (repository ∷ []))) eg sub sub'
            repo' db.repo_sync_states))

  -- The start of a backfill of some task types: in every row of the subscription, and in no other
  -- row, the status of each of these types is removed, its cursor is removed if the backfill is
  -- full, and the failure code is removed; other types keep status and cursor.
  pub reset_state-columns :
      (u : TaskType)
      → (u =t= repository) ≡ false
      → let db' = reset_state sub sync_type (t ∷ ts) db in
        (column (λ r. r.status u) sub' repo' db'
          ≡ if_written
              (sub' == sub && includes (t ∷ ts) u)
              (λ _. none)
              (column (λ r. r.status u) sub' repo' db))
        × (column (λ r. r.cursor u) sub' repo' db'
            ≡ if_written
                (sub' == sub && (is_full sync_type && includes (t ∷ ts) u))
                (λ _. none)
                (column (λ r. r.cursor u) sub' repo' db))
        × (column (λ r. r.failed_code) sub' repo' db'
            ≡ if_written (sub' == sub) (λ _. none) (column (λ r. r.failed_code) sub' repo' db))
  reset_state-columns u in_rows =
      let m = sub' == sub in
      let b = includes (t ∷ ts) u in
      let rest = without (t ∷ ts) (repository ∷ []) in
      let same : includes rest u ≡ b = without-includes (t ∷ ts) u in_rows in
      (
        targeted-column (λ r. r.status u) (λ s. if b then none else s) (λ s. s) (λ r. refl)
              (λ r.
                reset_tasks-status (is_full sync_type) u rest r
                ∙ ap (λ b. if b then none else r.status u) same)
            ∙ (if_map_id m _ ∙ map_guarded m b (λ _. none) _),
        targeted-column (λ r. r.cursor u) (λ c. if is_full sync_type && b then none else c) (λ c. c)
              (λ r. refl)
              (λ r.
                reset_tasks-cursor (is_full sync_type) u rest r
                ∙ ap (λ b. if is_full sync_type && b then none else r.cursor u) same)
            ∙ (if_map_id m _ ∙ map_guarded m (is_full sync_type && b) (λ _. none) _),
        targeted-column (λ r. r.failed_code) (λ c. c) (λ _. none) (λ r. refl)
              (λ r. reset_tasks-failed_code (is_full sync_type) rest r)
            ∙ ap (if_written m (λ _. none)) (if_map_id m _),
      )
