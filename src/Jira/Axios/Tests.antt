-- ===== src/Jira/Axios/Tests.antt =====
-- The theorem on failed requests to Jira at a concrete response.
use github_for_jira.Base.{◌≡◌, refl, inr, true, false, none, some, ◌=s=◌, if◌then◌else◌}
use github_for_jira.Github.Errors.{Error}
use github_for_jira.Sqs.Types.{SqsMessageContext}
use github_for_jira.Sqs.ErrorHandlers.{jira_and_github_errors_handler}
use github_for_jira.Jira.Axios.{
  JiraAxiosError, Numbers, handle_jira_error, jira_status, is_skipped_redirect,
}
use github_for_jira.Jira.Axios.Retries.{retry_after_of, IsAnswer, handle_jira_error-IsAnswer}

abbrev numbers : Numbers
numbers = record { parse_int = (λ s. if s =s= "30" then some 30 else none); to_text = (λ n. "n") }

abbrev too_many_requests : JiraAxiosError
too_many_requests = record {
  request = some (record { method = "POST"; path = "/rest/devinfo/0.10/bulk" });
  response = some (record { status = 429; retry_after = some "30" });
  message = "m";
}

abbrev context : SqsMessageContext
context = record { receive_count = 2; last_attempt = false }

not_skipped : is_skipped_redirect too_many_requests ≡ false
unfolding is_skipped_redirect
not_skipped = refl

handle_jira_error-IsAnswer_example :
    (err : Error) × (handle_jira_error numbers too_many_requests ≡ inr err)
    × (err.status ≡ jira_status too_many_requests)
    × IsAnswer true
        (jira_status too_many_requests)
        (retry_after_of numbers too_many_requests)
        context.receive_count
        (jira_and_github_errors_handler true 1000 err context)
handle_jira_error-IsAnswer_example =
    handle_jira_error-IsAnswer numbers true 1000 context too_many_requests refl refl not_skipped
