-- ===== src/Sync/Process/Executors.antt =====
-- The executors of a run (src/sync/installation.ts): a message's subscription is still found after
-- each of them, and only the main one sends.
use github_for_jira.Base.{
  sum-cases, ℕ, suc, ◌+◌, ◌≡◌, refl, ap, ◌∙◌, inl, inr, Bool, true, false, ◌&&◌, not, List, [], ◌∷◌,
  map, String, Option, some, arith, ◌=s=◌, if◌then◌else◌, Bool-cases, Option-cases, filter, find,
  length, is_some,
}
use github_for_jira.Sync.Types.{Task, BackfillMessagePayload, TaskResultPayload}
use github_for_jira.Sync.Store.{
  Subscription, RepoSyncState, Db, update_subscription, update_where, update_repo_from_subscription,
  truthy, null_eq, get_single_installation,
}
use github_for_jira.Sync.Tasks.{
  World, find_subscription_for_message, update_task_status_and_continue, Assignment, to_status,
  to_cursor, to_from, to_failed_code, assign_subscription, assign_all, update_repo, unless_empty,
  task_assignments, is_of_subscription,
}
use github_for_jira.Sync.Process.{
  Services, Executor, sender_of, run_executor, run_executors, error_of, keep_message,
}

-- What a message's subscription is found by.
abbrev key_of : Subscription → String × (Option ℕ × Option ℕ)
key_of s = (s.jira_host, (s.github_installation_id, s.github_app_id))

module _ (p : Subscription → Bool) (k : ℕ) (f : Subscription → Subscription)
    (same : (s : Subscription) → p (f s) ≡ p s) where
  found_after :
      (ss : List Subscription)
      → is_some (find p ss) ≡ true
      → is_some (find p (update_where k f ss)) ≡ true
  unfolding update_where
  found_after [] h = h
  found_after (s ∷ ss) h = let ih = found_after ss in let e = same s in ground arith

assigned-key :
    (vs : List Assignment) (s : Subscription)
    → key_of (assign_all assign_subscription vs s) ≡ key_of s
unfolding assign_subscription
assigned-key [] s = refl
assigned-key (to_status t x ∷ vs) s = assigned-key vs _
assigned-key (to_cursor t x ∷ vs) s = assigned-key vs _
assigned-key (to_from t x ∷ vs) s = assigned-key vs _
assigned-key (to_failed_code x ∷ vs) s = assigned-key vs _

abbrev pub is_found : BackfillMessagePayload → Db → Bool
is_found payload db = is_some (find_subscription_for_message payload db)

module _ (payload : BackfillMessagePayload) where
  pub is_found-update_subscription :
      (k : ℕ) (f : Subscription → Subscription)
      → ((s : Subscription) → key_of (f s) ≡ key_of s)
      → (db : Db) → is_found payload db ≡ true
      → is_found payload (update_subscription k f db) ≡ true
  unfolding update_subscription find_subscription_for_message get_single_installation
  is_found-update_subscription k f same db h =
      found_after _ k f
        (λ s.
          ap
            (λ (x : String × (Option ℕ × Option ℕ)).
              x.0 =s= payload.jira_host
              && null_eq x.1.0 (truthy (some payload.installation_id))
              && null_eq x.1.1 (truthy payload.github_app_id))
            (same s))
        db.subscriptions h

  is_found-rows :
      (vs : List Assignment) (sub repo : ℕ) (f : RepoSyncState → RepoSyncState) (db : Db)
      → is_found payload db ≡ true
      → is_found payload (unless_empty vs (update_repo_from_subscription sub repo f) db) ≡ true
  unfolding update_repo_from_subscription find_subscription_for_message get_single_installation
  is_found-rows [] sub repo f db h = h
  is_found-rows (v ∷ vs) sub repo f db h = h

  is_found-unless_empty :
      (vs us : List Assignment) (k : ℕ) (db : Db)
      → is_found payload db ≡ true
      → is_found payload
          (unless_empty vs (update_subscription k (assign_all assign_subscription us)) db)
        ≡ true
  is_found-unless_empty [] us k db h = h
  is_found-unless_empty (v ∷ vs) us k db h =
      is_found-update_subscription k (assign_all assign_subscription us) (assigned-key us) db h

  is_found-update_repo :
      (subscription : Subscription) (repo : ℕ) (values : List Assignment) (db : Db)
      → is_found payload db ≡ true
      → is_found payload (update_repo subscription repo values db) ≡ true
  unfolding update_repo
  is_found-update_repo subscription repo values db h =
      is_found-rows (filter (λ v. not (is_of_subscription v)) values) subscription.id repo _ _ (
        is_found-unless_empty (filter is_of_subscription values) (filter is_of_subscription values)
          subscription.id db h)

-- The executors that are the main one and whose page was fetched and sent on.
abbrev pub succeeded : Services → Executor → Bool
succeeded services e = e.is_main && not (is_some (error_of e.task (services.attempt e.task)))

page-sends :
    (payload : BackfillMessagePayload) (result : TaskResultPayload) (e : Executor) (w : World)
    → is_found payload w.db ≡ true
    → let w' = update_task_status_and_continue payload result e.task (sender_of e keep_message) w in
      (is_found payload w'.db ≡ true)
      × (length w'.sent ≡ (if e.is_main then suc (length w.sent) else length w.sent))
unfolding update_task_status_and_continue
page-sends payload result e w h = elim (Option-cases (find_subscription_for_message payload w.db)) [
  | inl none_ ↦ absurd (let h' = rw none_ at h in ground arith)
  | inr (s, found) ↦
      let kept =
        is_found-update_repo payload s e.task.repository_id
          (task_assignments payload result.edges e.task s w.db) w.db h in
      elim (Bool-cases e.is_main) [
        | inl main ↦ rw (found, update_task_status_and_continue) (rw main (kept, refl))
        | inr other ↦ rw (found, update_task_status_and_continue) (rw other (kept, refl))
      ]
]

module _ (services : Services) (payload : BackfillMessagePayload) where
  run_executor-sends :
      (e : Executor) (w : World)
      → is_found payload w.db ≡ true
      → (is_found payload (run_executor services payload keep_message e w).db ≡ true)
        × (length (run_executor services payload keep_message e w).sent
            ≡ (if succeeded services e then suc (length w.sent) else length w.sent))
  unfolding run_executor
  run_executor-sends e w h = elim (sum-cases (services.attempt e.task)) [
    | inl (result, fetched) ↦
        let (found, sent) = page-sends payload result e w h in
        rw (fetched, run_executor)
          (found, (sent ∙ main_only e.is_main (suc (length w.sent)) (length w.sent)))
    | inr (err, threw) ↦
        rw (threw, run_executor) (h, unsent e.is_main (suc (length w.sent)) (length w.sent))
  ]
    where
      main_only : (b : Bool) (x y : ℕ) → (if b then x else y) ≡ (if b && true then x else y)
      main_only b x y = ground arith

      unsent : (b : Bool) (x y : ℕ) → y ≡ (if b && false then x else y)
      unsent b x y = ground arith

  pub run_executors-sends :
      (es : List Executor) (w : World)
      → is_found payload w.db ≡ true
      → length (run_executors services payload keep_message es w).sent
        ≡ length (filter (succeeded services) es) + length w.sent
  unfolding run_executors
  run_executors-sends [] w h = omega arith
  run_executors-sends (e ∷ es) w h =
      let (found, sent) = run_executor-sends e w h in
      let ih = run_executors-sends es (run_executor services payload keep_message e w) found in
      ground arith

  pub others-unsent :
      (ts : List Task)
      → length (filter (succeeded services) (map (λ t. record { task = t; is_main = false }) ts))
        ≡ 0
  others-unsent [] = refl
  others-unsent (t ∷ ts) = others-unsent ts
