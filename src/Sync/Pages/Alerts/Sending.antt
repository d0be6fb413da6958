-- ===== src/Sync/Pages/Alerts/Sending.antt =====
-- What Jira gets of a repository's alerts of the three kinds (src/sync/code-scanning-alerts.ts,
-- dependabot-alerts.ts, secret-scanning-alerts.ts).
use github_for_jira.Base.{
  ℕ, suc, ◌<◌, ◌≡◌, refl, ◌⊎◌, List, [], ◌∷◌, map, Option, some, Text, map_option, length,
}
use github_for_jira.Sync.Cursor.{missing}
use github_for_jira.Transforms.RepositoryId.{transform_repository_id}
use github_for_jira.Transforms.Alerts.{Vulnerability}
use github_for_jira.Transforms.Alerts.CodeScanning.{
  CodeScanningAlert, code_scanning_vulnerability, transform_code_scanning_alerts,
}
use github_for_jira.Transforms.Alerts.Dependabot.{
  DependabotAlert, dependabot_vulnerability, transform_dependabot_alerts,
}
use github_for_jira.Transforms.Alerts.SecretScanning.{
  SecretScanningAlert, secret_scanning_vulnerability, transform_secret_scanning_alerts,
}
use github_for_jira.Sync.Pages.Alerts.{
  FetchError, AlertServices, get_code_scanning_alert_task, get_dependabot_alert_task,
  get_secret_scanning_alert_task, code_scanning_is_over, dependabot_is_over,
  secret_scanning_is_over,
}
use github_for_jira.Sync.Pages.Alerts.Walk.{
  backfill_alerts, IsListing, IsSent, backfill_alerts-IsSent,
}

-- The vulnerability of an alert in the backfill, for a repository's id in Jira.
abbrev pub of_code_scanning : AlertServices → Text → CodeScanningAlert → Vulnerability
of_code_scanning sv container_id alert = code_scanning_vulnerability sv.lodash container_id alert

abbrev pub of_dependabot : AlertServices → Text → DependabotAlert → Vulnerability
of_dependabot sv container_id alert =
    dependabot_vulnerability sv.lodash container_id alert alert.updated_at
      (map_option sv.lower_case alert.vulnerability_severity) (sv.lower_case alert.state)

abbrev pub of_secret_scanning : AlertServices → Text → SecretScanningAlert → Vulnerability
of_secret_scanning sv container_id alert =
    secret_scanning_vulnerability sv.lodash container_id alert alert.resolved_at

module _ (sv : AlertServices) (container_id : Text)
    (accepted : transform_repository_id sv.host_and_path (some sv.repository_id) sv.base_url
      ≡ some container_id) where
  transform_code_scanning_alerts-map :
      (alerts : List CodeScanningAlert)
      → transform_code_scanning_alerts sv.lodash sv.host_and_path sv.base_url sv.repository_id
          alerts
        ≡ some (map (of_code_scanning sv container_id) alerts)
  unfolding transform_code_scanning_alerts
  transform_code_scanning_alerts-map [] = refl
  transform_code_scanning_alerts-map (a ∷ alerts) =
      rw (transform_code_scanning_alerts-map alerts, accepted) refl

  transform_dependabot_alerts-map :
      (alerts : List DependabotAlert)
      → transform_dependabot_alerts sv.lodash sv.lower_case sv.host_and_path sv.base_url
          sv.repository_id alerts
        ≡ some (map (of_dependabot sv container_id) alerts)
  unfolding transform_dependabot_alerts
  transform_dependabot_alerts-map [] = refl
  transform_dependabot_alerts-map (a ∷ alerts) =
      rw (transform_dependabot_alerts-map alerts, accepted) refl

  transform_secret_scanning_alerts-map :
      (alerts : List SecretScanningAlert)
      → transform_secret_scanning_alerts sv.lodash sv.host_and_path sv.base_url sv.repository_id
          alerts
        ≡ some (map (of_secret_scanning sv container_id) alerts)
  unfolding transform_secret_scanning_alerts
  transform_secret_scanning_alerts-map [] = refl
  transform_secret_scanning_alerts-map (a ∷ alerts) =
      rw (transform_secret_scanning_alerts-map alerts, accepted) refl

  module _ (p : ℕ) (0<p : 0 < p) (from_date : Option ℕ) where
    -- Let the base URL be accepted and GitHub list a repository's alerts of the three kinds newest first, in
    -- pages of `p`, which is not 0. Then each of the three tasks, run with the cursor of the last edge until
    -- there is no edge, ends after as many rounds as there are alerts and one more at most. Jira gets the
    -- vulnerabilities of the first alerts, each once and in GitHub's order, and every alert that it does
    -- not get was created before the start date; without a start date it gets all.
    pub alert_tasks-IsSent :
        (cs : List CodeScanningAlert) (fetch_cs : ℕ → ℕ → FetchError ⊎ List CodeScanningAlert)
        → IsListing (λ a. sv.date_of a.created_at) p cs fetch_cs
        → (ds : List DependabotAlert) (fetch_ds : ℕ → ℕ → FetchError ⊎ List DependabotAlert)
        → IsListing (λ a. sv.date_of a.created_at) p ds fetch_ds
        → (ss : List SecretScanningAlert) (fetch_ss : ℕ → ℕ → FetchError ⊎ List SecretScanningAlert)
        → IsListing (λ a. sv.date_of a.created_at) p ss fetch_ss
        → IsSent
            (λ a. sv.date_of a.created_at)
            from_date
            (of_code_scanning sv container_id)
            cs
            (backfill_alerts
              (λ c. get_code_scanning_alert_task sv fetch_cs c p from_date)
              (suc (length cs))
              missing)
          × (IsSent
                (λ a. sv.date_of a.created_at)
                from_date
                (of_dependabot sv container_id)
                ds
                (backfill_alerts
                  (λ c. get_dependabot_alert_task sv fetch_ds c p from_date)
                  (suc (length ds))
                  missing)
              × IsSent
                  (λ a. sv.date_of a.created_at)
                  from_date
                  (of_secret_scanning sv container_id)
                  ss
                  (backfill_alerts
                    (λ c. get_secret_scanning_alert_task sv fetch_ss c p from_date)
                    (suc (length ss))
                    missing))
    unfolding get_code_scanning_alert_task get_dependabot_alert_task get_secret_scanning_alert_task
    alert_tasks-IsSent cs fetch_cs listed_cs ds fetch_ds listed_ds ss fetch_ss listed_ss = (
      backfill_alerts-IsSent (λ a. sv.date_of a.created_at) p 0<p cs fetch_cs listed_cs _ _
          transform_code_scanning_alerts-map code_scanning_is_over from_date,
      (
        backfill_alerts-IsSent (λ a. sv.date_of a.created_at) p 0<p ds fetch_ds listed_ds _ _
            transform_dependabot_alerts-map dependabot_is_over from_date,
        backfill_alerts-IsSent (λ a. sv.date_of a.created_at) p 0<p ss fetch_ss listed_ss _ _
            transform_secret_scanning_alerts-map secret_scanning_is_over from_date,
      ),
    )
