-- ===== src/Sqs/ErrorHandlers/Decisions.antt =====
-- Which failed messages are dropped and which are tried again (src/sqs/error-handlers.ts).
use github_for_jira.Base.{ℕ, ◌≡◌, Bool, true, false, ◌||◌, ◌&&◌, not, some, arith, is_some}
use github_for_jira.Github.Errors.{
  Error, ErrorClass, is_jira_client_error, github_rate_limiting, jira_rate_limiting,
}
use github_for_jira.Sqs.Types.{SqsMessageContext}
use github_for_jira.Sqs.ErrorHandlers.{
  jira_and_github_errors_handler, is_unretryable_status, emits_webhook_failed,
}

-- The error comes with a time to wait, which the handler honours for GitHub always and for Jira
-- under the feature flag.
abbrev pub is_rate_limited : Bool → ErrorClass → Bool
is_rate_limited use_rate_limit (github_rate_limiting reset) = true
is_rate_limited use_rate_limit (jira_rate_limiting (some s)) = use_rate_limit
is_rate_limited use_rate_limit _ = false

-- A message is dropped without counting as a failure exactly when the status is 401, 403 or 404 and
-- the error is Jira's or asks for no waiting time; otherwise it is a failure that is tried again,
-- with a delay.
pub jira_and_github_errors_handler-decision :
    (use_rate_limit : Bool) (now : ℕ) (e : Error) (context : SqsMessageContext)
    → let r = jira_and_github_errors_handler use_rate_limit now e context in
      let dropped =
        is_unretryable_status e.status
        && (is_jira_client_error e.class || not (is_rate_limited use_rate_limit e.class)) in
      (r.is_failure ≡ not dropped)
      × (r.retryable ≡ some (not dropped))
      × (is_some r.retry_delay ≡ not dropped)
unfolding jira_and_github_errors_handler
jira_and_github_errors_handler-decision use_rate_limit now e context = ground arith

-- The webhook counts as failed for good exactly on the last attempt of a message that is not dropped.
pub jira_and_github_errors_handler-emits :
    (use_rate_limit : Bool) (now : ℕ) (e : Error) (context : SqsMessageContext)
    → let r = jira_and_github_errors_handler use_rate_limit now e context in
      emits_webhook_failed r context ≡ (r.is_failure && context.last_attempt)
unfolding jira_and_github_errors_handler emits_webhook_failed
jira_and_github_errors_handler-emits use_rate_limit now e context = ground arith
