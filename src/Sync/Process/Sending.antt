-- ===== src/Sync/Process/Sending.antt =====
-- The messages that the job of a run sends (src/sync/installation.ts).
use github_for_jira.Base.{
  ℕ, suc, ◌+◌, ◌≡◌, refl, ap, ◌∙◌, inl, inr, Bool, true, List, Option, none, some, arith,
  if◌then◌else◌, Bool-cases, Option-cases, filter, length, is_some,
}
use github_for_jira.Sync.Types.{Task, BackfillMessagePayload, sync_active}
use github_for_jira.Sync.Store.{Subscription, update_subscription}
use github_for_jira.Sync.Scheduler.{NextTasks, get_next_tasks}
use github_for_jira.Sync.Tasks.{
  World, on_db, find_subscription_for_message, mark_sync_as_complete_and_stop,
}
use github_for_jira.Sync.Process.{
  Services, Executor, executors_of, run_executors, TaskError, error_of, do_process_installation,
  keep_message,
}
use github_for_jira.Sync.Process.Executors.{
  is_found, is_found-update_subscription, succeeded, run_executors-sends, others-unsent,
}

abbrev pub next_tasks : Services → BackfillMessagePayload → World → Subscription → NextTasks
next_tasks services payload w subscription =
    get_next_tasks services.shuffle services.limits services.security_enabled subscription
      payload.target_tasks w.db

-- A run's work, once it has a main task.
abbrev pub work_on :
    Services
    → (List Executor → List Executor)
    → BackfillMessagePayload
    → World
    → Subscription
    → List Task
    → Task
    → Option TaskError × World
work_on services in_order payload w subscription others main = (
  error_of main (services.attempt main),
  run_executors services payload keep_message (in_order (executors_of main others)) (
      on_db (update_subscription subscription.id (λ s. record s { sync_status = some sync_active }))
        w),
)

abbrev pub by_cases :
    {A : Type 0}
    → Option Subscription
    → (Subscription → Option Task)
    → A
    → (Subscription → A)
    → (Subscription → Task → A)
    → A
by_cases none next a b c = a
by_cases (some s) next a b c = elim (next s) [ none ↦ b s | some main ↦ c s main ]

pub process-by_cases :
    (services : Services) (in_order : List Executor → List Executor)
    (payload : BackfillMessagePayload) (w : World)
    → do_process_installation services in_order payload keep_message w
      ≡ by_cases
          (find_subscription_for_message payload w.db)
          (λ s. (next_tasks services payload w s).main_task)
          (none, w)
          (λ s. (none, mark_sync_as_complete_and_stop payload s w))
          (λ s main.
            work_on services in_order payload w s
              (next_tasks services payload w s).other_tasks
              main)
unfolding do_process_installation
process-by_cases services in_order payload w =
    elim (Option-cases (find_subscription_for_message payload w.db)) [
      | inl none_ ↦ rw (none_, do_process_installation) refl
      | inr (s, found) ↦ rw (found, do_process_installation) refl
    ]

main_counted :
    (services : Services) (payload : BackfillMessagePayload) (main : Task) (others : List Task)
    → length (filter (succeeded services) (executors_of main others))
      ≡ (if is_some (error_of main (services.attempt main)) then 0 else 1)
main_counted services payload main others =
    let rest = others-unsent services payload others in
    elim (Bool-cases (is_some (error_of main (services.attempt main)))) [
      | inl threw ↦ rw threw rest
      | inr fetched ↦ rw fetched (ap suc rest)
    ]

work_on-sends :
    (services : Services) (in_order : List Executor → List Executor)
    (payload : BackfillMessagePayload) (w : World) (subscription s : Subscription)
    (others : List Task) (main : Task)
    (keeps_count : (p : Executor → Bool) (es : List Executor)
      → length (filter p (in_order es)) ≡ length (filter p es))
    → find_subscription_for_message payload w.db ≡ some s
    → length (work_on services in_order payload w subscription others main).1.sent ≡ (
        if is_some (error_of main (services.attempt main))
        then length w.sent
        else suc (length w.sent))
work_on-sends services in_order payload w subscription s others main keeps_count found =
    let h : is_found payload w.db ≡ true = rw found refl in
    let still =
      is_found-update_subscription payload subscription.id
        (λ t. record t { sync_status = some sync_active }) (λ t. refl) w.db h in
    let sends =
      run_executors-sends services payload (in_order (executors_of main others))
        (on_db
          (update_subscription subscription.id (λ t. record t { sync_status = some sync_active }))
          w)
        still in
    let counted = keeps_count (succeeded services) (executors_of main others) in
    sends
    ∙ (ap (λ n. n + length w.sent) (counted ∙ main_counted services payload main others)
        ∙ one_or_none (is_some (error_of main (services.attempt main))) (length w.sent))
  where
    one_or_none : (b : Bool) (n : ℕ) → (if b then 0 else 1) + n ≡ (if b then n else suc n)
    one_or_none b n = ground arith

-- With a subscription that is found and work left, the job of a run sends exactly one message if the main
-- task's page was fetched and its data sent to Jira, and none otherwise, however many other tasks
-- run beside it, and in whatever order the tasks end; the run fails with the main task's error.
pub do_process_installation-sends :
    (services : Services) (in_order : List Executor → List Executor)
    (payload : BackfillMessagePayload) (w : World) (subscription : Subscription) (main : Task)
    (keeps_count : (p : Executor → Bool) (es : List Executor)
      → length (filter p (in_order es)) ≡ length (filter p es))
    → find_subscription_for_message payload w.db ≡ some subscription
    → (get_next_tasks services.shuffle services.limits services.security_enabled subscription
        payload.target_tasks w.db).main_task
      ≡ some main
    → let r = do_process_installation services in_order payload keep_message w in
      (r.0 ≡ error_of main (services.attempt main))
      × (length r.1.sent ≡ (
          if is_some (error_of main (services.attempt main))
          then length w.sent
          else suc (length w.sent)))
do_process_installation-sends services in_order payload w subscription main keeps_count found work =
    rw (process-by_cases services in_order payload w) (
      rw found (
        rw (work, by_cases)
          (
            refl,
            work_on-sends services in_order payload w subscription subscription _ main keeps_count
                found,
          )))
