-- ===== src/Github/Failures/Classes.antt =====
-- Which failures of GitHub requests (src/github/client/github-client-interceptors.ts) become which
-- errors.
use github_for_jira.Base.{
  ℕ, ◌≡◌, ap, ◌∙◌, ◌↔◌, inl, inr, false, String, some, arith, Option-cases, eq_iff,
}
use github_for_jira.Github.Errors.{
  github_rate_limiting, github_not_found, HttpResponse, AxiosError, rate_limit_reset_ms,
}
use github_for_jira.Github.Failures.{is_timeout, handle_failed_request}

module _ (lower : String → String) (now : ℕ) (e : AxiosError) where
  -- A failure counts as "not found" exactly when it is no timeout and GitHub answered 404.
  pub handle_failed_request-not_found_iff :
      ((handle_failed_request lower now e).class ≡ github_not_found)
      ↔ ((is_timeout e ≡ false) × (r : HttpResponse) × (e.response ≡ some r) × (r.status ≡ 404))
  unfolding handle_failed_request
  handle_failed_request-not_found_iff = ground (arith)

  -- A failure counts as rate limiting exactly when it is no timeout and GitHub answered 403 with no
  -- requests remaining; the error then has the reset time of the response, or an hour from now.
  pub handle_failed_request-rate_limiting_iff :
      (reset : ℕ)
      → ((handle_failed_request lower now e).class ≡ github_rate_limiting reset) ↔ (
          (is_timeout e ≡ false)
          × (r : HttpResponse) × (e.response ≡ some r)
          × (r.status ≡ 403)
          × (r.rate_limit_remaining ≡ some "0")
          × (reset ≡ rate_limit_reset_ms now e))
  unfolding handle_failed_request
  handle_failed_request-rate_limiting_iff reset = elim (Option-cases e.response) [
    | inl none_ ↦ ground arith
    | inr (r, answered) ↦ elim (Option-cases r.rate_limit_remaining) [
      | inl none_ ↦ ground arith
      | inr (h, header) ↦ (
        (λ c.
            let zero_ : h ≡ "0" = ground (arith, eq_iff h "0") in
            (ground arith, r, answered, ground arith, header ∙ ap some zero_, ground arith)),
        (λ k. ground (arith, eq_iff h "0")),
      )
    ]
  ]
