-- ===== src/Jira/Axios/Retries.antt =====
-- What the queue (src/sqs/error-handlers.ts) makes of a failed request to Jira
-- (src/jira/client/axios.ts).
use github_for_jira.Base.{
  ℕ, ◌*◌, ◌^◌, ◌≡◌, refl, sym, ap, ◌∙◌, inl, inr, Bool, false, ◌&&◌, not, String, Option, none,
  some, arith, ◌=s=◌, if◌then◌else◌, Bool-cases, and_then, get_or, eq_iff,
}
use github_for_jira.Base.Int.{ℤ, pos}
use github_for_jira.Github.Errors.{Error, jira_client, jira_rate_limiting}
use github_for_jira.Sqs.Types.{SqsMessageContext, ErrorHandlingResult, jira}
use github_for_jira.Sqs.ErrorHandlers.{
  jira_and_github_errors_handler, is_unretryable_status, exponential_backoff_base_sec,
  exponential_backoff_multiplier,
}
use github_for_jira.Jira.Axios.{
  JiraAxiosError, Numbers, handle_jira_error, is_skipped_redirect, jira_status,
  is_too_many_requests, get_retry_after_in_sec,
}

-- The seconds of the header retry-after, if it is there and has a number.
abbrev pub retry_after_of : Numbers → JiraAxiosError → Option ℕ
retry_after_of numbers e = and_then (and_then e.response (λ r. r.retry_after)) numbers.parse_int

abbrev pub backoff : ℕ → ℕ
backoff receive_count =
    exponential_backoff_base_sec * exponential_backoff_multiplier ^ receive_count * 1000

-- The delay, in milliseconds, of a status, given the seconds of the header.
abbrev pub delay_of : Bool → Option ℕ → Option ℕ → ℕ → Option ℤ
delay_of use_rate_limit status seconds receive_count =
    if is_unretryable_status status
    then none
    else if use_rate_limit && is_too_many_requests status
    then elim seconds [ none ↦ some (pos (backoff receive_count)) | some s ↦ some (pos (s * 1000)) ]
    else some (pos (backoff receive_count))

retry_after-header :
    (numbers : Numbers) (e : JiraAxiosError)
    → numbers.parse_int "unknown" ≡ none
    → numbers.parse_int "" ≡ none
    → get_retry_after_in_sec numbers e ≡ retry_after_of numbers e
unfolding get_retry_after_in_sec
retry_after-header numbers e unknown empty = by_header (and_then e.response (λ r. r.retry_after))
  where
    by_header :
        (o : Option String)
        → numbers.parse_int (if get_or o "" =s= "" then "unknown" else get_or o "")
          ≡ and_then o numbers.parse_int
    by_header none = unknown
    by_header (some text) = elim (Bool-cases (text =s= "")) [
      | inl nothing ↦
          let same : text ≡ "" = ground (arith, eq_iff text "") in
          rw nothing (unknown ∙ sym empty ∙ ap numbers.parse_int (sym same))
      | inr given ↦ rw given refl
    ]

-- What the handler answers for an error of Jira's client.
abbrev pub IsAnswer : Bool → Option ℕ → Option ℕ → ℕ → ErrorHandlingResult → Type 0
IsAnswer use_rate_limit status seconds receive_count r =
    (r.is_failure ≡ not (is_unretryable_status status))
    × (r.retryable ≡ some (not (is_unretryable_status status)))
    × (r.source ≡ some jira)
    × (r.retry_delay ≡ delay_of use_rate_limit status seconds receive_count)

handler-IsAnswer :
    (use_rate_limit : Bool) (now : ℕ) (context : SqsMessageContext) (status seconds : Option ℕ)
    (message : String)
    → IsAnswer use_rate_limit status seconds context.receive_count (
        jira_and_github_errors_handler use_rate_limit now
          (record {
            class = if is_too_many_requests status then jira_rate_limiting seconds else jira_client;
            status = status;
            code = none;
            message = message;
            is_retryable = false;
          })
          context)
unfolding jira_and_github_errors_handler
handler-IsAnswer use_rate_limit now context status none message = ground arith
handler-IsAnswer use_rate_limit now context status (some s) message = ground arith

-- A failed request to Jira, other than a redirect to another site, becomes an error with the status
-- of the response. In the queue, its message is dropped if the status is 401, 403 or 404. Otherwise
-- it fails and is tried again: after the seconds that Jira asked for if the status is 429 and the
-- feature is on, and with exponential backoff in all other cases, a header without a number included.
pub handle_jira_error-IsAnswer :
    (numbers : Numbers) (use_rate_limit : Bool) (now : ℕ) (context : SqsMessageContext)
    (e : JiraAxiosError)
    → numbers.parse_int "unknown" ≡ none
    → numbers.parse_int "" ≡ none
    → is_skipped_redirect e ≡ false
    → (err : Error) × (handle_jira_error numbers e ≡ inr err)
      × (err.status ≡ jira_status e)
      × IsAnswer use_rate_limit
          (jira_status e)
          (retry_after_of numbers e)
          context.receive_count
          (jira_and_github_errors_handler use_rate_limit now err context)
unfolding handle_jira_error
handle_jira_error-IsAnswer numbers use_rate_limit now context e unknown empty same_site =
    rw (same_site, handle_jira_error, retry_after-header numbers e unknown empty)
      (
        _,
        refl,
        refl,
        handler-IsAnswer use_rate_limit now context (jira_status e) (retry_after_of numbers e) _,
      )
