-- ===== src/Sync/Process.antt =====
-- One run of the backfill: `doProcessInstallation` and `processInstallation` of
-- src/sync/installation.ts. The fetch of a page with the sending of its data to Jira is a parameter.
pub mod Executors
pub mod Sending
pub mod Continuation
use github_for_jira.Base.{
  ℕ, ◌+◌, ◌*◌, ap, ◌⊎◌, inl, inr, Bool, true, false, List, [], ◌∷◌, map, String, Option, none, some,
  if◌then◌else◌, is_some,
}
use github_for_jira.Github.Errors.{Error}
use github_for_jira.Sync.Types.{
  Task, BackfillMessagePayload, TaskResultPayload, TaskType, SyncStatus, sync_active,
}
use github_for_jira.Sync.Store.{Subscription, Db, update_subscription}
use github_for_jira.Sync.Scheduler.{RateLimit, NextTasks, get_next_tasks}
use github_for_jira.Sync.Tasks.{
  World, SentMessage, Sender, on_db, find_subscription_for_message, update_task_status_and_continue,
  mark_sync_as_complete_and_stop,
}
use github_for_jira.Sync.Deduplicator.{
  Surroundings, Outcome, returned, job_failed, blocked_too_long, DeduplicatorResult, e_ok,
  e_other_worker_doing_this_job, e_not_sure_try_again_later, Execution, new_deduplicator,
  execute_with_deduplication,
}

-- What a run depends on: the shuffle, GitHub's quotas, a feature flag, and what the fetch of a task's
-- page and the sending to Jira come to: the page's edges or an error.
pub record Services : Type 0 where
  pub shuffle : List Task → List Task
  pub limits : Option RateLimit
  pub security_enabled : Bool
  pub attempt : Task → TaskResultPayload ⊎ Error

-- A task with its place in the list; the first one is the main task.
pub record Executor : Type 0 where
  pub task : Task
  pub is_main : Bool

abbrev pub executors_of : Task → List Task → List Executor
executors_of main others =
    record { task = main; is_main = true } ∷ map (λ t. record { task = t; is_main = false }) others

-- Only the main task may send a message.
abbrev pub sender_of : Executor → Sender → Sender
sender_of e send payload delay w = if e.is_main then send payload delay w else w

unfoldable pub run_executor : Services → BackfillMessagePayload → Sender → Executor → World → World
unfolding update_task_status_and_continue
run_executor services payload send e w = elim (services.attempt e.task) [
  | inl result ↦ update_task_status_and_continue payload result e.task (sender_of e send) w
  | inr err ↦ w
]

-- The executors write in the order in which they end.
unfoldable pub run_executors :
    Services → BackfillMessagePayload → Sender → List Executor → World → World
unfolding run_executor
run_executors services payload send [] w = w
run_executors services payload send (e ∷ es) w =
    run_executors services payload send es (run_executor services payload send e w)

-- `TaskError`
pub record TaskError : Type 0 where
  pub task : Task
  pub cause : Error

abbrev pub error_of : Task → TaskResultPayload ⊎ Error → Option TaskError
error_of task (inl result) = none
error_of task (inr err) = some (record { task = task; cause = err })

-- `in_order` is the order in which the concurrent executors end.
unfoldable pub do_process_installation :
    Services
    → (List Executor → List Executor)
    → BackfillMessagePayload
    → Sender
    → World
    → Option TaskError × World
unfolding find_subscription_for_message get_next_tasks mark_sync_as_complete_and_stop
    update_subscription run_executors
do_process_installation services in_order payload send w =
    elim (find_subscription_for_message payload w.db) [
      | none ↦ (none, w)
      | some subscription ↦
          let next =
            get_next_tasks services.shuffle services.limits services.security_enabled subscription
              payload.target_tasks w.db in
          elim next.main_task [
            | none ↦ (none, mark_sync_as_complete_and_stop payload subscription w)
            | some main ↦
                let active =
                  on_db
                    (update_subscription subscription.id
                      (λ s. record s { sync_status = some sync_active }))
                    w in
                (
                  error_of main (services.attempt main),
                  run_executors services payload send
                      (in_order (executors_of main next.other_tasks)) active,
                )
          ]
    ]

abbrev pub retry_delay_base_ms : ℕ
retry_delay_base_ms = 60 * 1000

-- `nextMessage = {...}`: the last message of the job is kept.
abbrev pub keep_message : Sender
keep_message payload delay w = record w {
  sent = record { payload = payload; delay_ms = delay } ∷ w.sent;
}

-- The message that is kept, if the job left one, is sent off after the flag is released.
abbrev pub send_kept : Sender → List SentMessage → World → World
send_kept send [] w = w
send_kept send (m ∷ ms) w = send m.payload m.delay_ms w

pub record Worker : Type 0 where
  pub key : String
  pub own_id : ℕ
  pub surroundings : Surroundings
  pub is_blocked : Bool
  pub delete_duplicates : Bool
  -- `RETRY_DELAY_BASE_SEC * Math.random()`
  pub jitter_ms : ℕ

-- How a run ends: normally, with an error of the main task, or with the deduplicator's own error.
pub data RunResult : Type 0 where
  finished : RunResult
  task_failed : TaskError → RunResult
  refused : RunResult

abbrev pub failure_of : Option TaskError → RunResult
failure_of none = finished
failure_of (some e) = task_failed e

-- What a run does with the deduplicator's answer.
unfoldable pub after_deduplication :
    Worker
    → BackfillMessagePayload
    → Sender
    → Outcome
    → Option TaskError
    → List SentMessage
    → World
    → RunResult × World
after_deduplication worker payload send (returned e_ok) failure kept w =
    (finished, send_kept send kept w)
after_deduplication worker payload send (returned e_not_sure_try_again_later) failure kept w =
    (finished, send payload retry_delay_base_ms w)
after_deduplication worker payload send (returned e_other_worker_doing_this_job) failure kept w =
    if worker.delete_duplicates
    then (finished, w)
    else (finished, send payload (retry_delay_base_ms + worker.jitter_ms) w)
after_deduplication worker payload send job_failed failure kept w = (failure_of failure, w)
after_deduplication worker payload send blocked_too_long failure kept w = (refused, w)

-- The job's effects on the tables are there only if it was run.
unfoldable pub process_installation :
    Worker
    → Services
    → (List Executor → List Executor)
    → BackfillMessagePayload
    → Sender
    → World
    → RunResult × World
unfolding do_process_installation execute_with_deduplication new_deduplicator after_deduplication
process_installation worker services in_order payload send w =
    if worker.is_blocked
    then (finished, w)
    else let job =
        do_process_installation services in_order payload keep_message (record w { sent = [] }) in
      let x =
        execute_with_deduplication (new_deduplicator 1000) worker.key worker.own_id
          (record worker.surroundings { job_threw = is_some job.0 }) in
      after_deduplication worker payload send x.outcome job.0 job.1.sent
        (if x.ran_job then record w { db = job.1.db } else w)
