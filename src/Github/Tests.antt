-- ===== src/Github/Tests.antt =====
-- The theorems on GitHub's failures at concrete responses.
use github_for_jira.Base.{ℕ, none, some}
use github_for_jira.Github.Errors.{AxiosError}

abbrev answer : ℕ → AxiosError
answer status = record {
  response = some (record {
    status = status;
    rate_limit_remaining = some "0";
    rate_limit_reset = some 2000;
    sso = none;
    message = none;
  });
  code = none;
  message = "m";
}
