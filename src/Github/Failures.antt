-- ===== src/Github/Failures.antt =====
-- `handleFailedRequest` of src/github/client/github-client-interceptors.ts: the error that a failed
-- request to GitHub is turned into. The current time and `toLocaleLowerCase`, which follows the
-- process's locale, are arguments.
pub mod Classes
use github_for_jira.Base.{
  ℕ, ◌+◌, ap, Bool, true, false, ◌||◌, ◌&&◌, not, ◌++◌, String, Option, none, some, ◌==◌, ◌=s=◌,
  if◌then◌else◌,
}
use Prim.Native.String
use github_for_jira.Github.Errors.{
  ErrorClass, github_client, github_timeout, github_rate_limiting, github_blocked_ip,
  github_sso_login, github_invalid_permissions, github_not_found, github_commit_not_found_by_sha,
  Error, HttpResponse, AxiosError, text_includes, github_error, rate_limiting_error,
  rate_limit_reset_ms, other_class,
}

-- `response.data?.message?.includes(t)`
abbrev pub message_includes : HttpResponse → String → Bool
message_includes r t = elim r.message [ none ↦ false | some m ↦ text_includes m t ]

-- A header that is present and not empty.
abbrev pub is_truthy : Option String → Bool
is_truthy none = false
is_truthy (some s) = not (s =s= "")

abbrev pub remaining_is_zero : Option String → Bool
remaining_is_zero none = false
remaining_is_zero (some s) = s =s= "0"

-- `String(message).toLocaleLowerCase()`
abbrev pub lowered : (String → String) → Option String → String
lowered lower none = lower "undefined"
lowered lower (some m) = lower m

-- The error for a failure that has a response and is no timeout.
unfoldable pub map_response : (String → String) → ℕ → AxiosError → HttpResponse → Error
unfolding rate_limiting_error
map_response lower now e r =
    if r.status == 403 && remaining_is_zero r.rate_limit_remaining
    then rate_limiting_error now e
    else if r.status == 403 && message_includes r "has an IP allow list enabled"
    then github_error github_blocked_ip "Blocked by GitHub allowlist" false e
    else if r.status == 403 && message_includes r "Resource not accessible by integration"
    then github_error github_invalid_permissions "Resource not accessible by integration" true e
    else if r.status == 403 && is_truthy r.sso
    then github_error github_sso_login "SSO Login required" true e
    else if r.status == 404
    then github_error github_not_found "Not found" true e
    else if r.status == 422 && text_includes (lowered lower r.message) "no commit found for sha"
    then github_error github_commit_not_found_by_sha "Commit not found by sha" true e
    else github_error github_client (String.◌++◌ "Error executing Axios Request: " e.message) true e

unfoldable pub is_timeout : AxiosError → Bool
is_timeout e =
    elim e.response [ none ↦ false | some r ↦ r.status == 408 ]
    || elim e.code [ none ↦ false | some c ↦ c =s= "ETIMEDOUT" ]

-- Without a response the axios error itself is rethrown.
unfoldable pub handle_failed_request : (String → String) → ℕ → AxiosError → Error
unfolding map_response is_timeout
handle_failed_request lower now e =
    if is_timeout e then github_error github_timeout "Timeout" true e else elim e.response [
      | some r ↦ map_response lower now e r
      | none ↦ record {
        class = other_class;
        status = none;
        code = e.code;
        message = e.message;
        is_retryable = false;
      }
    ]
