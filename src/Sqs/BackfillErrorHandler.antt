-- ===== src/Sqs/BackfillErrorHandler.antt =====
-- src/sqs/backfill-error-handler.ts: what a failed run of the backfill does to the task that failed
-- and to the message. Delays and times are in milliseconds.
pub mod Continuation
use github_for_jira.Base.{ℕ, ◌-◌, true, false, [], none, some, if◌then◌else◌}
use github_for_jira.Github.Errors.{
  Error, ErrorClass, github_invalid_permissions, github_rate_limiting, github_not_found,
}
use github_for_jira.Sync.Types.{Task, BackfillMessagePayload}
use github_for_jira.Sync.Tasks.{
  World, Sender, update_task_status_and_continue, mark_current_task_as_failed_and_continue,
}
use github_for_jira.Sqs.Types.{SqsMessageContext, ErrorHandlingResult, Source, github}
use github_for_jira.Sqs.ErrorHandlers.{handle_unknown_error}

-- `TaskError` names the task that failed; anything else is a plain error.
pub data BackfillError : Type 0 where
  task_error : Task → Error → BackfillError
  plain_error : Error → BackfillError

-- The result that has the message deleted.
abbrev pub dealt_with : ErrorHandlingResult
dealt_with = record {
  retryable = none;
  is_failure = false;
  retry_delay = none;
  skip_dlq = none;
  source = some github;
}

-- A new message is sent for the same payload in place of a retry of this one.
unfoldable pub handle_task_error :
    Sender
    → ℕ
    → BackfillMessagePayload
    → SqsMessageContext
    → Task
    → Error
    → World
    → ErrorHandlingResult × World
unfolding update_task_status_and_continue mark_current_task_as_failed_and_continue
    handle_unknown_error
handle_task_error send now payload context task cause w = elim cause.class [
  | github_invalid_permissions ↦
      (dealt_with, mark_current_task_as_failed_and_continue payload task true send cause w)
  | github_rate_limiting reset ↦ (dealt_with, send payload (reset - now) w)
  | github_not_found ↦ (
    dealt_with,
    update_task_status_and_continue payload (record { edges = []; has_jira_payload = false }) task
        send w,
  )
  | _ ↦
      if context.last_attempt
      then (dealt_with, mark_current_task_as_failed_and_continue payload task false send cause w)
      else (handle_unknown_error cause context, w)
]

unfoldable pub backfill_error_handler :
    Sender
    → ℕ
    → BackfillMessagePayload
    → SqsMessageContext
    → BackfillError
    → World
    → ErrorHandlingResult × World
unfolding handle_task_error handle_unknown_error
backfill_error_handler send now payload context (task_error task cause) w =
    handle_task_error send now payload context task cause w
backfill_error_handler send now payload context (plain_error err) w =
    (handle_unknown_error err context, w)
