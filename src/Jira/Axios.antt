-- ===== src/Jira/Axios.antt =====
-- src/jira/client/axios.ts: how a failed request to Jira becomes an error. JavaScript's parseInt and the
-- text of a number are parameters; the log entry is left out.
pub mod Retries
mod Tests
use github_for_jira.Base.{
  ℕ, ◌⊎◌, inl, inr, Bool, false, ◌&&◌, List, [], ◌∷◌, String, Option, none, some, ◌==◌, ◌=s=◌,
  if◌then◌else◌, any, and_then, get_or,
}
use github_for_jira.Github.Errors.{Error, ErrorClass, jira_client, jira_rate_limiting}
use Prim.Native.String.append
use Prim.Native.String.{◌++◌}

-- `error.request`, as far as it is read
pub record JiraRequest : Type 0 where
  pub method : String
  pub path : String

-- `error.response`, as far as it is read, with its header retry-after
pub record JiraResponse : Type 0 where
  pub status : ℕ
  pub retry_after : Option String

pub record JiraAxiosError : Type 0 where
  pub request : Option JiraRequest
  pub response : Option JiraResponse
  pub message : String

pub record SkipRedirect : Type 0 where
  pub status : ℕ
  pub result : String

-- What JavaScript gives: parseInt, `none` for NaN, and a number as a text.
pub record Numbers : Type 0 where
  pub parse_int : String → Option ℕ
  pub to_text : ℕ → String

abbrev pub api_paths_to_ignore_on_405 : List String
api_paths_to_ignore_on_405 =
    "/rest/devinfo/0.10/bulk" ∷ "/rest/builds/0.1/bulk" ∷ "/rest/deployments/0.1/bulk" ∷ []

unfoldable pub get_jira_error_messages : Numbers → ℕ → String
get_jira_error_messages numbers status =
    if status == 400
    then "HTTP 400 - Request had incorrect format."
    else if status == 401
    then "HTTP 401 - Missing a JWT token, or token is invalid."
    else if status == 403
    then "HTTP 403 - The JWT token used does not correspond to an app that defines the jiraDevelopmentTool module, or the app does not define the 'WRITE' scope"
    else if status == 404
    then "HTTP 404 - Bad REST path, or Jira instance not found, renamed or temporarily suspended."
    else if status == 413
    then "HTTP 413 - Data is too large. Submit fewer devinfo entities in each payload."
    else if status == 429
    then "HTTP 429 - API rate limit has been exceeded."
    else "HTTP " ++ numbers.to_text status

-- The redirect of a POST to another Jira site, which comes as a GET.
unfoldable pub is_skipped_redirect : JiraAxiosError → Bool
is_skipped_redirect e = elim e.request [
  | none ↦ false
  | some request ↦
      request.method =s= "GET" && any (λ p. p =s= request.path) api_paths_to_ignore_on_405
]

abbrev pub jira_status : JiraAxiosError → Option ℕ
jira_status e = and_then e.response (λ r. some r.status)

-- `status ? getJiraErrorMessages(status) : error.message || ""`
unfoldable pub reason_of : Numbers → JiraAxiosError → String
unfolding get_jira_error_messages
reason_of numbers e = elim (jira_status e) [
  | none ↦ e.message
  | some status ↦ if status == 0 then e.message else get_jira_error_messages numbers status
]

-- `parseInt(header || "unknown")`: a header that is missing or empty is read as "unknown".
unfoldable pub get_retry_after_in_sec : Numbers → JiraAxiosError → Option ℕ
get_retry_after_in_sec numbers e =
    let header = get_or (and_then e.response (λ r. r.retry_after)) "" in
    numbers.parse_int (if header =s= "" then "unknown" else header)

-- `error.response?.status === 429`
abbrev pub is_too_many_requests : Option ℕ → Bool
is_too_many_requests none = false
is_too_many_requests (some status) = status == 429

unfoldable pub handle_jira_error : Numbers → JiraAxiosError → SkipRedirect ⊎ Error
unfolding is_skipped_redirect reason_of get_retry_after_in_sec
handle_jira_error numbers e =
    if is_skipped_redirect e
    then inl (record { status = 200; result = "SKIP_REDIRECTED" })
    else inr (record {
      class =
          if is_too_many_requests (jira_status e)
          then jira_rate_limiting (get_retry_after_in_sec numbers e)
          else jira_client;
      status = jira_status e;
      code = none;
      message = "Error executing Axios Request " ++ reason_of numbers e;
      is_retryable = false;
    })
