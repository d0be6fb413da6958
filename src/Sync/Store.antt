-- ===== src/Sync/Store.antt =====
-- The two tables that the backfill keeps its state in, and the queries of
-- src/models/subscription.ts and src/models/reposyncstate.ts that it uses. A row of RepoSyncStates
-- has one status, one cursor and one start date for each task type.
use text.Mathlib.Text.{◌==◌ as str_eq}
use github_for_jira.Base.{
  ℕ, Bool, true, false, ◌&&◌, List, [], ◌∷◌, String, Option, none, some, ◌==◌, ltb, if◌then◌else◌,
  ◌=s=◌, find, filter, take,
}
use github_for_jira.Sync.Types.{TaskType, ◌=t=◌, TaskStatus, SyncStatus}

pub record Subscription : Type 0 where
  pub id : ℕ
  pub jira_host : String
  pub github_installation_id : Option ℕ
  pub github_app_id : Option ℕ
  pub sync_status : Option SyncStatus
  pub sync_warning : Option String
  pub backfill_since : Option ℕ
  pub total_number_of_repos : Option ℕ
  pub number_of_synced_repos : Option ℕ
  pub repository_cursor : Option String
  pub repository_status : Option TaskStatus
  pub is_security_permissions_accepted : Bool

pub record RepoSyncState : Type 0 where
  pub id : ℕ
  pub subscription_id : ℕ
  pub repo_id : ℕ
  pub repo_name : String
  pub repo_full_name : String
  pub repo_owner : String
  pub repo_url : String
  pub repo_updated_at : Option ℕ
  pub status : TaskType → Option TaskStatus
  pub cursor : TaskType → Option String
  pub from : TaskType → Option ℕ
  pub failed_code : Option String

pub record Db : Type 0 where
  pub subscriptions : List Subscription
  pub repo_sync_states : List RepoSyncState

-- `column IS NULL` or `column = value`, as sequelize writes `{ column: value || null }`.
abbrev pub null_eq : Option ℕ → Option ℕ → Bool
null_eq none none = true
null_eq none (some b) = false
null_eq (some a) none = false
null_eq (some a) (some b) = a == b

-- `n || null`
abbrev pub truthy : Option ℕ → Option ℕ
truthy none = none
truthy (some n) = if n == 0 then none else some n

-- `s || undefined`
abbrev pub truthy_text : Option String → Option String
truthy_text none = none
truthy_text (some s) = if str_eq s "" then none else some s

unfoldable pub get_single_installation : String → ℕ → Option ℕ → Db → Option Subscription
get_single_installation host installation app db =
    find
      (λ s.
        s.jira_host =s= host
        && null_eq s.github_installation_id (truthy (some installation))
        && null_eq s.github_app_id (truthy app))
      db.subscriptions

-- `subscription.update(values)`: the row with the instance's primary key, if it is still there.
unfoldable pub update_where :
    ℕ → (Subscription → Subscription) → List Subscription → List Subscription
update_where k f [] = []
update_where k f (s ∷ ss) = (if s.id == k then f s else s) ∷ update_where k f ss

unfoldable pub update_subscription : ℕ → (Subscription → Subscription) → Db → Db
unfolding update_where
update_subscription k f db = record db { subscriptions = update_where k f db.subscriptions }

-- `RepoSyncState.update(values, { where })`
unfoldable pub update_rows :
    (RepoSyncState → Bool)
    → (RepoSyncState → RepoSyncState)
    → List RepoSyncState
    → List RepoSyncState
update_rows p f [] = []
update_rows p f (r ∷ rs) = (if p r then f r else r) ∷ update_rows p f rs

unfoldable pub update_from_subscription : ℕ → (RepoSyncState → RepoSyncState) → Db → Db
update_from_subscription sub f db = record db {
  repo_sync_states = update_rows (λ r. r.subscription_id == sub) f db.repo_sync_states;
}

unfoldable pub update_repo_from_subscription : ℕ → ℕ → (RepoSyncState → RepoSyncState) → Db → Db
update_repo_from_subscription sub repo f db = record db {
  repo_sync_states =
      update_rows (λ r. r.subscription_id == sub && r.repo_id == repo) f db.repo_sync_states;
}

unfoldable pub delete_from_subscription : ℕ → Db → Db
delete_from_subscription sub db = record db {
  repo_sync_states =
      filter (λ r. if r.subscription_id == sub then false else true) db.repo_sync_states;
}

-- `ORDER BY id DESC`
unfoldable pub insert_by_id : RepoSyncState → List RepoSyncState → List RepoSyncState
insert_by_id r [] = r ∷ []
insert_by_id r (q ∷ qs) =
    let further = insert_by_id r qs in if ltb r.id q.id then q ∷ further else r ∷ q ∷ qs

unfoldable pub by_id_desc : List RepoSyncState → List RepoSyncState
unfolding insert_by_id
by_id_desc [] = []
by_id_desc (r ∷ rs) = insert_by_id r (by_id_desc rs)

-- `findAllFromSubscription(subscription, limit, 0, [["id", "DESC"]], { where })`
unfoldable pub find_all_from_subscription : ℕ → ℕ → (RepoSyncState → Bool) → Db → List RepoSyncState
unfolding by_id_desc
find_all_from_subscription sub limit p db =
    take limit (by_id_desc (filter (λ r. r.subscription_id == sub && p r) db.repo_sync_states))

-- `ORDER BY repoUpdatedAt DESC LIMIT 1`: in PostgreSQL a missing date sorts first.
later : Option ℕ → Option ℕ → Bool
later none b = false
later (some a) none = true
later (some a) (some b) = ltb a b

newest : List RepoSyncState → Option RepoSyncState
newest [] = none
newest (r ∷ rs) = elim (newest rs) [
  | none ↦ some r
  | some q ↦ some (if later r.repo_updated_at q.repo_updated_at then q else r)
]

unfoldable pub find_by_repo_id : ℕ → ℕ → Db → Option RepoSyncState
unfolding newest later
find_by_repo_id sub repo db =
    newest (filter (λ r. r.subscription_id == sub && r.repo_id == repo) db.repo_sync_states)

-- A column of one task type given anew.
abbrev pub set_at {ℓ} : {A : Type ℓ} → (TaskType → A) → TaskType → A → TaskType → A
set_at f t v u = if t =t= u then v else f u
