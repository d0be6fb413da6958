-- ===== src/Sync/Pages/Alerts.antt =====
-- src/sync/code-scanning-alerts.ts, dependabot-alerts.ts and secret-scanning-alerts.ts: the tasks that fetch a
-- page of a repository's alerts. The three differ in the errors that end the task and in the transform.
-- The requests to GitHub, the reading of dates, lodash's functions and `toLowerCase` are parameters.
pub mod Walk
pub mod Sending
use github_for_jira.Base.{
  ℕ, ◌+◌, ◌⊎◌, inl, inr, Bool, false, ◌||◌, ◌&&◌, List, [], ◌∷◌, Option, none, some, ◌==◌, ltb,
  if◌then◌else◌, all, is_empty, Text, String, codes,
}
use github_for_jira.Github.Errors.{Error}
use github_for_jira.Sync.Cursor.{SerialisedCursor, new_cursor, scale, copy_with_page_no, serialise}
use github_for_jira.Transforms.Repository.{TransformError, request_failed, invalid_url}
use github_for_jira.Transforms.Alerts.{Vulnerability, Lodash}
use github_for_jira.Transforms.Alerts.CodeScanning.{
  CodeScanningAlert, transform_code_scanning_alerts,
}
use github_for_jira.Transforms.Alerts.Dependabot.{
  DependabotAlert, includes_text, transform_dependabot_alerts,
}
use github_for_jira.Transforms.Alerts.SecretScanning.{
  SecretScanningAlert, transform_secret_scanning_alerts,
}

-- An error of GitHub's client with the response that caused it.
pub record FetchError : Type 0 where
  pub error : Error
  pub response_status : Option ℕ
  pub response_message : Option Text

abbrev pub has_status : ℕ → FetchError → Bool
has_status n e = elim e.response_status [ none ↦ false | some s ↦ s == n ]

abbrev pub has_message : String → FetchError → Bool
has_message t e = elim e.response_message [ none ↦ false | some m ↦ includes_text (codes t) m ]

-- The errors that end a task as if there were no more pages.
unfoldable pub code_scanning_is_over : FetchError → Bool
code_scanning_is_over e =
    (has_status 403 e
      && has_message "Advanced Security must be enabled for this repository to use code scanning" e)
    || ((has_status 403 e && has_message "Code scanning is not enabled for this repository" e)
        || ((has_status 404 e && has_message "no analysis found" e)
            || (has_status 404 e || has_status 451 e)))

unfoldable pub dependabot_is_over : FetchError → Bool
dependabot_is_over e =
    (has_status 403 e && has_message "Dependabot alerts are disabled for this repository" e)
    || ((has_status 403 e
          && has_message "Dependabot alerts are not available for archived repositories" e)
        || (has_status 404 e || has_status 451 e))

unfoldable pub secret_scanning_is_over : FetchError → Bool
secret_scanning_is_over e =
    (has_status 404 e && has_message "Secret scanning is disabled on this repository" e)
    || (has_status 404 e || has_status 451 e)

-- A page: the cursor of its only edge, or none, and what Jira gets.
pub record AlertPage : Type 0 where
  pub cursors : List SerialisedCursor
  pub vulnerabilities : Option (List Vulnerability)

abbrev pub last_page : AlertPage
last_page = record { cursors = []; vulnerabilities = none }

-- What the three tasks read of a message and of their surroundings.
pub record AlertServices : Type 0 where
  pub lodash : Lodash
  pub lower_case : Text → Text
  pub date_of : Text → ℕ
  pub host_and_path : Text → Option Text
  pub base_url : Option Text
  pub repository_id : ℕ

module _ {A : Type 0} (created_at : A → ℕ) (transform : List A → Option (List Vulnerability)) where
  abbrev pub are_all_earlier_than_from_date : List A → Option ℕ → Bool
  are_all_earlier_than_from_date alerts none = false
  are_all_earlier_than_from_date alerts (some from_date) =
      all (λ a. ltb (created_at a) from_date) alerts

  -- `next` is the cursor of the next page.
  unfoldable pub page_of_alerts : Option ℕ → SerialisedCursor → List A → TransformError ⊎ AlertPage
  page_of_alerts from_date next alerts =
      if is_empty alerts
      then inr last_page
      else if are_all_earlier_than_from_date alerts from_date
      then inr last_page
      else elim (transform alerts) [
        | none ↦ inl invalid_url
        | some vs ↦ inr (record { cursors = next ∷ []; vulnerabilities = some vs })
      ]

  unfoldable pub get_alert_task :
      (FetchError → Bool)
      → (ℕ → ℕ → FetchError ⊎ List A)
      → SerialisedCursor
      → ℕ
      → Option ℕ
      → TransformError ⊎ AlertPage
  unfolding page_of_alerts new_cursor scale copy_with_page_no serialise
  get_alert_task is_over fetch cursor per_page from_date =
      let smart_cursor = scale per_page (new_cursor cursor) in
      let next = serialise (copy_with_page_no (smart_cursor.page_no + 1) smart_cursor) in
      elim (fetch smart_cursor.per_page smart_cursor.page_no) [
        | inl e ↦ if is_over e then inr last_page else inl (request_failed e.error)
        | inr alerts ↦ page_of_alerts from_date next alerts
      ]

unfoldable pub get_code_scanning_alert_task :
    AlertServices
    → (ℕ → ℕ → FetchError ⊎ List CodeScanningAlert)
    → SerialisedCursor
    → ℕ
    → Option ℕ
    → TransformError ⊎ AlertPage
unfolding get_alert_task
get_code_scanning_alert_task sv =
    get_alert_task (λ (a : CodeScanningAlert). sv.date_of a.created_at)
      (transform_code_scanning_alerts sv.lodash sv.host_and_path sv.base_url sv.repository_id)
      code_scanning_is_over

unfoldable pub get_dependabot_alert_task :
    AlertServices
    → (ℕ → ℕ → FetchError ⊎ List DependabotAlert)
    → SerialisedCursor
    → ℕ
    → Option ℕ
    → TransformError ⊎ AlertPage
unfolding get_alert_task
get_dependabot_alert_task sv =
    get_alert_task (λ (a : DependabotAlert). sv.date_of a.created_at)
      (transform_dependabot_alerts sv.lodash sv.lower_case sv.host_and_path sv.base_url
        sv.repository_id)
      dependabot_is_over

unfoldable pub get_secret_scanning_alert_task :
    AlertServices
    → (ℕ → ℕ → FetchError ⊎ List SecretScanningAlert)
    → SerialisedCursor
    → ℕ
    → Option ℕ
    → TransformError ⊎ AlertPage
unfolding get_alert_task
get_secret_scanning_alert_task sv =
    get_alert_task (λ (a : SecretScanningAlert). sv.date_of a.created_at)
      (transform_secret_scanning_alerts sv.lodash sv.host_and_path sv.base_url sv.repository_id)
      secret_scanning_is_over
