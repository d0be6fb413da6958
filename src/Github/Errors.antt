-- ===== src/Github/Errors.antt =====
-- The errors that the clients throw: src/github/client/github-client-errors.ts, the error classes of
-- src/jira/client/axios.ts and SqsTimeoutError of src/sqs/sqs.types.ts. A class with its subclasses
-- is one data type; `instanceof` is a Boolean test. Times are milliseconds since the epoch.
use text.Mathlib.Text.{find?, starts_with}
use github_for_jira.Base.{
  ℕ, ◌+◌, ◌*◌, Bool, true, false, ◌||◌, List, String, Option, none, some, ◌==◌, ◌=s=◌,
  if◌then◌else◌, any, and_then, is_some,
}

pub data ErrorClass : Type 0 where
  github_client : ErrorClass
  github_timeout : ErrorClass
  github_rate_limiting : ℕ → ErrorClass
  github_blocked_ip : ErrorClass
  github_sso_login : ErrorClass
  github_invalid_permissions : ErrorClass
  github_not_found : ErrorClass
  github_commit_not_found_by_sha : ErrorClass
  github_graphql : ErrorClass
  jira_client : ErrorClass
  jira_rate_limiting : Option ℕ → ErrorClass
  sqs_timeout : ErrorClass
  other_class : ErrorClass

pub record Error : Type 0 where
  pub class : ErrorClass
  pub status : Option ℕ
  pub code : Option String
  pub message : String
  pub is_retryable : Bool

abbrev pub is_github_client_error : ErrorClass → Bool
is_github_client_error jira_client = false
is_github_client_error (jira_rate_limiting r) = false
is_github_client_error sqs_timeout = false
is_github_client_error other_class = false
is_github_client_error _ = true

abbrev pub is_jira_client_error : ErrorClass → Bool
is_jira_client_error jira_client = true
is_jira_client_error (jira_rate_limiting r) = true
is_jira_client_error _ = false

-- An axios error: the response, if one came, with the headers and the part of the body that the
-- mapping reads. The reset time is `parseInt` of its header, in seconds.
pub record HttpResponse : Type 0 where
  pub status : ℕ
  pub rate_limit_remaining : Option String
  pub rate_limit_reset : Option ℕ
  pub sso : Option String
  pub message : Option String

pub record AxiosError : Type 0 where
  pub response : Option HttpResponse
  pub code : Option String
  pub message : String

abbrev pub one_hour_in_seconds : ℕ
one_hour_in_seconds = 3600

-- `s.includes(t)`
abbrev pub text_includes : String → String → Bool
text_includes s t = is_some (find? s t)

abbrev pub status_of : AxiosError → Option ℕ
status_of e = and_then e.response (λ r. some r.status)

-- The constructor of GithubClientError and of the subclasses that change only the message.
abbrev pub github_error : ErrorClass → String → Bool → AxiosError → Error
github_error class message is_retryable e = record {
  class = class;
  status = status_of e;
  code = e.code;
  message = message;
  is_retryable = is_retryable;
}

-- `parseInt(header) || Date.now() / 1000 + ONE_HOUR_IN_SECONDS`, in milliseconds
unfoldable pub rate_limit_reset_ms : ℕ → AxiosError → ℕ
rate_limit_reset_ms now e = elim (and_then e.response (λ r. r.rate_limit_reset)) [
  | none ↦ now + one_hour_in_seconds * 1000
  | some seconds ↦ if seconds == 0 then now + one_hour_in_seconds * 1000 else seconds * 1000
]

unfoldable pub rate_limiting_error : ℕ → AxiosError → Error
unfolding rate_limit_reset_ms
rate_limiting_error now e =
    github_error (github_rate_limiting (rate_limit_reset_ms now e)) "Rate limiting error" false e

-- The errors section of a GraphQL response.
pub record GraphqlError : Type 0 where
  pub message : String
  pub type : String

is_retryable_graphql_error : GraphqlError → Bool
is_retryable_graphql_error e =
    "MAX_NODE_LIMIT_EXCEEDED" =s= e.type
    || starts_with e.message "Something went wrong while executing your query"

unfoldable pub graphql_is_retryable : List GraphqlError → Bool
unfolding is_retryable_graphql_error
graphql_is_retryable errors = any is_retryable_graphql_error errors

unfoldable pub is_changed_files_error : List GraphqlError → Bool
is_changed_files_error errors = any (λ e. text_includes e.message "changedFiles") errors
