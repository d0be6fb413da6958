-- ===== src/Sync/Start/Restart.antt =====
-- A full backfill of all task types starts anew (src/sync/sync-utils.ts).
use github_for_jira.Base.{
  ℕ, ◌≡◌, refl, ap, ◌∙◌, ◌≢◌, inl, inr, Bool, true, false, List, [], ◌∷◌, Option, none, some, arith,
  ◌==◌, if◌then◌else◌, Bool-cases, filter, All, Any, All-lookup,
}
use github_for_jira.Sync.Types.{TaskType, repository, full, sync_pending, Task}
use github_for_jira.Sync.Store.{
  Subscription, RepoSyncState, Db, update_subscription, update_where, delete_from_subscription,
}
use github_for_jira.Sync.Scheduler.{get_next_tasks, RateLimit}
use github_for_jira.Sync.Start.{reset_targeted_tasks, reset_failed_code, reset_state}

abbrev pub from_scratch : Task
from_scratch = record { task = repository; repository_id = 0; repository = none; cursor = none }

discovers :
    (shuffle : List Task → List Task) (limits : Option RateLimit) (security_enabled : Bool)
    (targets : List TaskType) (s : Subscription) (db : Db)
    → s.repository_status ≡ none
    → s.repository_cursor ≡ none
    → get_next_tasks shuffle limits security_enabled s targets db
      ≡ record { main_task = some from_scratch; other_tasks = [] }
unfolding get_next_tasks
discovers shuffle limits security_enabled targets s db status cursor =
    rw (status, get_next_tasks) (rw cursor refl)

rows_gone :
    (sub : ℕ) (rs : List RepoSyncState)
    → filter
        (λ r. r.subscription_id == sub)
        (filter (λ r. if r.subscription_id == sub then false else true) rs)
      ≡ []
rows_gone sub [] = refl
rows_gone sub (r ∷ rs) = let ih = rows_gone sub rs in ground arith

rows_kept :
    (sub other : ℕ) (rs : List RepoSyncState)
    → other ≢ sub
    → filter
        (λ r. r.subscription_id == other)
        (filter (λ r. if r.subscription_id == sub then false else true) rs)
      ≡ filter (λ r. r.subscription_id == other) rs
rows_kept sub other [] h = refl
rows_kept sub other (r ∷ rs) h = let ih = rows_kept sub other rs h in ground arith

-- What both updates of the subscription leave.
abbrev restarted : Subscription → Subscription
restarted s = record s {
  sync_status = some sync_pending;
  number_of_synced_repos = some 0;
  sync_warning = none;
  total_number_of_repos = none;
  repository_cursor = none;
  repository_status = none;
}

subscription_restarted :
    (P : Subscription → Type 0) (sub : ℕ) (f g : Subscription → Subscription)
    → ((s : Subscription) → (f s).id ≡ s.id)
    → ((s : Subscription) → P (g (f s)))
    → (ss : List Subscription)
    → All (λ s. (s.id ≡ sub → P s)) (update_where sub g (update_where sub f ss))
unfolding update_where
subscription_restarted P sub f g same h [] = tt
subscription_restarted P sub f g same h (s ∷ ss) =
    let ih = subscription_restarted P sub f g same h ss in
    elim (Bool-cases (s.id == sub)) [
      | inl hit ↦
          let hit' : ((f s).id == sub) ≡ true = ap (λ n. n == sub) (same s) ∙ hit in
          rw hit (rw hit' ((λ _. h s), ih))
      | inr miss ↦ rw miss ((λ e. absurd (ground (arith, miss, e))), ih)
    ]

-- A full backfill without a choice of task types: no row of the subscription is left, and the rows of
-- another subscription are; whatever tasks are asked for then and whatever the quota, the next task
-- is the discovery of the repositories from its beginning, alone.
pub reset_state-restarts :
    (shuffle : List Task → List Task) (limits : Option RateLimit) (security_enabled : Bool)
    (sub other : ℕ) (targets : List TaskType) (db : Db) (s : Subscription)
    → other ≢ sub
    → Any (λ q. q ≡ s) (reset_state sub (some full) [] db).subscriptions
    → s.id ≡ sub
    → let db' = reset_state sub (some full) [] db in
      (filter (λ r. r.subscription_id == sub) db'.repo_sync_states ≡ [])
      × ((filter (λ r. r.subscription_id == other) db'.repo_sync_states
            ≡ filter (λ r. r.subscription_id == other) db.repo_sync_states)
          × (get_next_tasks shuffle limits security_enabled s targets db'
              ≡ record { main_task = some from_scratch; other_tasks = [] }))
unfolding reset_state reset_targeted_tasks reset_failed_code delete_from_subscription
    update_subscription
reset_state-restarts shuffle limits security_enabled sub other targets db s ne member same =
    let db' = reset_state sub (some full) [] db in
    let restarts =
      subscription_restarted
        (λ s.
          get_next_tasks shuffle limits security_enabled s targets db'
          ≡ record { main_task = some from_scratch; other_tasks = [] })
        sub _ _ (λ s. refl) (λ s. discovers shuffle limits security_enabled targets _ db' refl refl)
        db.subscriptions in
    (
      rows_gone sub db.repo_sync_states,
      (
        rows_kept sub other db.repo_sync_states ne,
        All-lookup
            (λ s.
              (s.id ≡ sub
                → get_next_tasks shuffle limits security_enabled s targets db'
                  ≡ record { main_task = some from_scratch; other_tasks = [] }))
            db'.subscriptions member restarts same,
      ),
    )
