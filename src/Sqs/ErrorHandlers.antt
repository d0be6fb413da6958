-- ===== src/Sqs/ErrorHandlers.antt =====
-- src/sqs/error-handlers.ts: what becomes of a message whose processing failed. Delays and times are
-- in milliseconds.
pub mod Delays
pub mod Decisions
use github_for_jira.Base.{
  ℕ, ◌+◌, ◌-◌, ◌*◌, ◌^◌, max, Bool, true, false, ◌||◌, ◌&&◌, not, List, [], ◌∷◌, Option, none, some,
  ◌==◌, if◌then◌else◌, any, get_or, or_else,
}
use github_for_jira.Base.Int.{ℤ, pos, sub_ℕ}
use github_for_jira.Github.Errors.{
  ErrorClass, github_rate_limiting, jira_rate_limiting, Error, is_github_client_error,
  is_jira_client_error,
}
use github_for_jira.Sqs.Types.{
  SqsMessageContext, Source, github, jira, other, ErrorHandlingResult, is_true,
}

abbrev pub unretryable_status_codes : List ℕ
unretryable_status_codes = 401 ∷ 404 ∷ 403 ∷ []

abbrev pub base_rate_limiting_delay_buffer_sec : ℕ
base_rate_limiting_delay_buffer_sec = 60

abbrev pub rate_limiting_buffer_step : ℕ
rate_limiting_buffer_step = 10

abbrev pub exponential_backoff_base_sec : ℕ
exponential_backoff_base_sec = 60

abbrev pub exponential_backoff_multiplier : ℕ
exponential_backoff_multiplier = 3

abbrev pub one_hour_in_seconds : ℕ
one_hour_in_seconds = 3600

abbrev pub source_of : ErrorClass → Source
source_of c =
    if is_github_client_error c then github else if is_jira_client_error c then jira else other

unfoldable pub handle_unknown_error : Error → SqsMessageContext → ErrorHandlingResult
handle_unknown_error e context = record {
  retryable = some true;
  is_failure = true;
  retry_delay = some (
      pos (
        exponential_backoff_base_sec
        * exponential_backoff_multiplier ^ context.receive_count
        * 1000));
  skip_dlq = none;
  source = some (source_of e.class);
}

-- `status && UNRETRYABLE_STATUS_CODES.includes(status)`
abbrev pub is_unretryable_status : Option ℕ → Bool
is_unretryable_status none = false
is_unretryable_status (some s) = not (s == 0) && any (λ c. c == s) unretryable_status_codes

unfoldable pub maybe_handle_non_failure_case : Error → Option ErrorHandlingResult
maybe_handle_non_failure_case e =
    if is_jira_client_error e.class && is_unretryable_status e.status
    then some (record {
      retryable = some false;
      is_failure = false;
      retry_delay = none;
      skip_dlq = none;
      source = some jira;
    })
    else none

unfoldable pub maybe_handle_non_retryable_response_code : Error → Option ErrorHandlingResult
maybe_handle_non_retryable_response_code e =
    if is_unretryable_status e.status
    then some (record {
      retryable = some false;
      is_failure = false;
      retry_delay = none;
      skip_dlq = none;
      source = some (source_of e.class);
    })
    else none

abbrev pub retry_later : ℤ → Source → ErrorHandlingResult
retry_later delay source = record {
  retryable = some true;
  is_failure = true;
  retry_delay = some delay;
  skip_dlq = none;
  source = some source;
}

-- The delay of a rate-limited message: the reset, a buffer that shrinks with each attempt, and an
-- hour for each earlier attempt. The difference is taken last, so that it is exact.
unfoldable pub rate_limiting_delay : ℕ → ℕ → ℕ → ℤ
rate_limiting_delay now reset receive_count =
    let buffer =
      max rate_limiting_buffer_step
        (base_rate_limiting_delay_buffer_sec - receive_count * rate_limiting_buffer_step) in
    sub_ℕ (reset + buffer * 1000 + one_hour_in_seconds * 1000 * receive_count)
      (now + one_hour_in_seconds * 1000)

-- `use_rate_limit` is the feature flag USE_RATELIMIT_ON_JIRA_CLIENT.
unfoldable pub maybe_handle_rate_limiting_error :
    Bool → ℕ → Error → SqsMessageContext → Option ErrorHandlingResult
unfolding rate_limiting_delay
maybe_handle_rate_limiting_error use_rate_limit now e context = elim e.class [
  | github_rate_limiting reset ↦
      some (retry_later (rate_limiting_delay now reset context.receive_count) github)
  | jira_rate_limiting (some seconds) ↦
      if use_rate_limit then some (retry_later (pos (seconds * 1000)) jira) else none
  | _ ↦ none
]

-- The handlers in turn; the last one always answers.
unfoldable pub jira_and_github_errors_handler :
    Bool → ℕ → Error → SqsMessageContext → ErrorHandlingResult
unfolding maybe_handle_non_failure_case maybe_handle_rate_limiting_error
    maybe_handle_non_retryable_response_code handle_unknown_error
jira_and_github_errors_handler use_rate_limit now e context =
    get_or
      (or_else
        (or_else (maybe_handle_non_failure_case e)
          (maybe_handle_rate_limiting_error use_rate_limit now e context))
        (maybe_handle_non_retryable_response_code e))
      (handle_unknown_error e context)

-- Whether `webhookMetricWrapper` reports the webhook as failed for good.
unfoldable pub emits_webhook_failed : ErrorHandlingResult → SqsMessageContext → Bool
emits_webhook_failed result context =
    result.is_failure && (not (is_true result.retryable) || context.last_attempt)
