-- ===== src/Sync/Tasks/Columns.antt =====
-- What the bookkeeping of src/sync/installation.ts changes in the table of repositories, column by
-- column, and what it leaves alone.
use github_for_jira.Base.{
  ℕ, ◌≡◌, refl, ap, ◌∙◌, inl, inr, Bool, true, false, ◌&&◌, not, List, [], ◌∷◌, map, String, Option,
  some, arith, ◌==◌, if◌then◌else◌, Bool-cases, filter,
}
use github_for_jira.Sync.Types.{TaskType, ◌=t=◌, TaskStatus}
use github_for_jira.Sync.Store.{
  Subscription, RepoSyncState, Db, update_rows, update_repo_from_subscription, update_subscription,
}
use github_for_jira.Sync.Tasks.{
  Assignment, to_status, to_cursor, to_from, to_failed_code, is_of_subscription,
  assign_subscription, assign_row, assign_all, unless_empty, update_repo,
}

abbrev pub is_row_of : ℕ → ℕ → RepoSyncState → Bool
is_row_of sub repo r = r.subscription_id == sub && r.repo_id == repo

-- One column of the rows of a repository.
abbrev pub column {ℓ} : {A : Type ℓ} → (RepoSyncState → A) → ℕ → ℕ → Db → List A
column f sub repo db = map f (filter (is_row_of sub repo) db.repo_sync_states)

-- What a list of assignments makes of one status and of one cursor.
abbrev pub status_after : List Assignment → TaskType → Option TaskStatus → Option TaskStatus
status_after [] u s = s
status_after (to_status t s' ∷ vs) u s = status_after vs u (if t =t= u then some s' else s)
status_after (to_cursor t c ∷ vs) u s = status_after vs u s
status_after (to_from t d ∷ vs) u s = status_after vs u s
status_after (to_failed_code c ∷ vs) u s = status_after vs u s

abbrev pub cursor_after : List Assignment → TaskType → Option String → Option String
cursor_after [] u c = c
cursor_after (to_status t s ∷ vs) u c = cursor_after vs u c
cursor_after (to_cursor t c' ∷ vs) u c = cursor_after vs u (if t =t= u then some c' else c)
cursor_after (to_from t d ∷ vs) u c = cursor_after vs u c
cursor_after (to_failed_code e ∷ vs) u c = cursor_after vs u c

abbrev pub code_after : List Assignment → Option String → Option String
code_after [] c = c
code_after (to_status t s ∷ vs) c = code_after vs c
code_after (to_cursor t c' ∷ vs) c = code_after vs c
code_after (to_from t d ∷ vs) c = code_after vs c
code_after (to_failed_code e ∷ vs) c = code_after vs (some e)

abbrev pub assigned : List Assignment → RepoSyncState → RepoSyncState
assigned vs = assign_all assign_row vs

pub assigned-ids :
    (vs : List Assignment) (r : RepoSyncState)
    → ((assigned vs r).subscription_id ≡ r.subscription_id) × ((assigned vs r).repo_id ≡ r.repo_id)
unfolding assign_row
assigned-ids [] r = (refl, refl)
assigned-ids (to_status t s ∷ vs) r = assigned-ids vs _
assigned-ids (to_cursor t c ∷ vs) r = assigned-ids vs _
assigned-ids (to_from t d ∷ vs) r = assigned-ids vs _
assigned-ids (to_failed_code c ∷ vs) r = assigned-ids vs _

pub assigned-status :
    (u : TaskType) (vs : List Assignment) (r : RepoSyncState)
    → (assigned vs r).status u ≡ status_after vs u (r.status u)
unfolding assign_row
assigned-status u [] r = refl
assigned-status u (to_status t s ∷ vs) r = assigned-status u vs _
assigned-status u (to_cursor t c ∷ vs) r = assigned-status u vs _
assigned-status u (to_from t d ∷ vs) r = assigned-status u vs _
assigned-status u (to_failed_code c ∷ vs) r = assigned-status u vs _

pub assigned-cursor :
    (u : TaskType) (vs : List Assignment) (r : RepoSyncState)
    → (assigned vs r).cursor u ≡ cursor_after vs u (r.cursor u)
unfolding assign_row
assigned-cursor u [] r = refl
assigned-cursor u (to_status t s ∷ vs) r = assigned-cursor u vs _
assigned-cursor u (to_cursor t c ∷ vs) r = assigned-cursor u vs _
assigned-cursor u (to_from t d ∷ vs) r = assigned-cursor u vs _
assigned-cursor u (to_failed_code c ∷ vs) r = assigned-cursor u vs _

pub assigned-failed_code :
    (vs : List Assignment) (r : RepoSyncState)
    → (assigned vs r).failed_code ≡ code_after vs r.failed_code
unfolding assign_row
assigned-failed_code [] r = refl
assigned-failed_code (to_status t s ∷ vs) r = assigned-failed_code vs _
assigned-failed_code (to_cursor t c ∷ vs) r = assigned-failed_code vs _
assigned-failed_code (to_from t d ∷ vs) r = assigned-failed_code vs _
assigned-failed_code (to_failed_code c ∷ vs) r = assigned-failed_code vs _

-- A column that the assignments change by `g` changes by `g` in the rows of the written repository,
-- and not at all elsewhere.
module _ {A : Type 0} (f : RepoSyncState → A) (g : A → A) (vs : List Assignment)
    (acts : (r : RepoSyncState) → f (assigned vs r) ≡ g (f r)) where
  column-update_rows :
      (sub repo sub' repo' : ℕ) (rows : List RepoSyncState)
      → map f (filter (is_row_of sub' repo') (update_rows (is_row_of sub repo) (assigned vs) rows))
        ≡ (if sub' == sub && repo' == repo
            then map g (map f (filter (is_row_of sub' repo') rows))
            else map f (filter (is_row_of sub' repo') rows))
  unfolding update_rows
  column-update_rows sub repo sub' repo' [] = ground arith
  column-update_rows sub repo sub' repo' (r ∷ rows) =
      let (same_sub, same_repo) = assigned-ids vs r in
      let ih = column-update_rows sub repo sub' repo' rows in
      elim (Bool-cases (is_row_of sub repo r)) [
        | inl hit ↦ elim (Bool-cases (is_row_of sub' repo' r)) [
          | inl shown ↦
              let shown' : is_row_of sub' repo' (assigned vs r) ≡ true = ground arith in
              let b : (sub' == sub && repo' == repo) ≡ true = ground arith in
              rw (hit, shown', shown, b) (cc (acts r, rw b at ih))
          | inr hidden ↦
              let hidden' : is_row_of sub' repo' (assigned vs r) ≡ false = ground arith in
              rw (hit, hidden', hidden) ih
        ]
        | inr miss ↦ elim (Bool-cases (is_row_of sub' repo' r)) [
          | inl shown ↦
              let b : (sub' == sub && repo' == repo) ≡ false = ground arith in
              rw (miss, shown, b) (cc (rw b at ih))
          | inr hidden ↦ rw (miss, hidden) ih
        ]
      ]

  map-acts_nil :
      ((r : RepoSyncState) → f r ≡ g (f r))
      → (rows : List RepoSyncState) → map f rows ≡ map g (map f rows)
  map-acts_nil h [] = refl
  map-acts_nil h (r ∷ rows) = cc (h r, map-acts_nil h rows)

abbrev pub row_values : List Assignment → List Assignment
row_values values = filter (λ v. not (is_of_subscription v)) values

pub update_repo-rows :
    (subscription : Subscription) (repo : ℕ) (values : List Assignment) (db : Db)
    → (update_repo subscription repo values db).repo_sync_states
      ≡ (unless_empty
          (row_values values)
          (update_repo_from_subscription subscription.id repo (assigned (row_values values)))
          db).repo_sync_states
unfolding update_repo
update_repo-rows subscription repo values db =
    unless_rows (row_values values) (filter is_of_subscription values)
  where
    unless_rows :
        (vs ws : List Assignment)
        → (unless_empty vs (update_repo_from_subscription subscription.id repo (assigned vs)) (
            unless_empty ws
              (update_subscription subscription.id (assign_all assign_subscription ws))
              db)).repo_sync_states
          ≡ (unless_empty vs
              (update_repo_from_subscription subscription.id repo (assigned vs))
              db).repo_sync_states
    unless_rows [] [] = refl
    unless_rows [] (w ∷ ws) = refl
    unless_rows (v ∷ vs) [] = refl
    unless_rows (v ∷ vs) (w ∷ ws) = refl

-- A column after `updateRepo`: in the rows of the written repository the assignments act on it, and
-- all other rows keep it.
module _ {A : Type 0} (f : RepoSyncState → A) (g : A → A) where
  unless_column :
      (sub repo : ℕ) (vs : List Assignment) (db : Db)
      → ((r : RepoSyncState) → f (assigned vs r) ≡ g (f r))
      → (sub' repo' : ℕ)
      → column f sub' repo'
          (unless_empty vs (update_repo_from_subscription sub repo (assigned vs)) db)
        ≡ (if sub' == sub && repo' == repo
            then map g (column f sub' repo' db)
            else column f sub' repo' db)
  unfolding update_repo_from_subscription
  unless_column sub repo [] db acts sub' repo' =
      let same =
        map-acts_nil f g [] acts acts (filter (is_row_of sub' repo') db.repo_sync_states) in
      ground arith
  unless_column sub repo (v ∷ vs) db acts sub' repo' =
      column-update_rows f g (v ∷ vs) acts sub repo sub' repo' db.repo_sync_states

  pub column-update_repo :
      (subscription : Subscription) (repo : ℕ) (values : List Assignment) (db : Db)
      → ((r : RepoSyncState) → f (assigned (row_values values) r) ≡ g (f r))
      → (sub' repo' : ℕ)
      → column f sub' repo' (update_repo subscription repo values db) ≡ (
          if sub' == subscription.id && repo' == repo
          then map g (column f sub' repo' db)
          else column f sub' repo' db)
  column-update_repo subscription repo values db acts sub' repo' =
      ap (λ rows. map f (filter (is_row_of sub' repo') rows))
        (update_repo-rows subscription repo values db)
      ∙ unless_column subscription.id repo (row_values values) db acts sub' repo'
