-- ===== src/Transforms/Alerts/SecretScanning.antt =====
-- src/transforms/transform-secret-scanning-alert.ts and transformSecretScanningAlert of
-- src/sync/secret-scanning-alerts.ts. lodash's functions are parameters.
use github_for_jira.Base.{
  ℕ, List, [], ◌∷◌, ◌++◌, Option, none, some, if◌then◌else◌, and_then, get_or, map_option, Text,
  codes,
}
use github_for_jira.Transforms.Author.{truthy_text}
use github_for_jira.Transforms.RepositoryId.{transform_repository_id}
use github_for_jira.Transforms.Alerts.{
  severity_critical, VulnerabilityStatus, status_open, status_closed, status_unknown, is_text, sast,
  Vulnerability, vulnerability_id, Lodash, or_undefined, capitalized,
}

pub record SecretScanningAlert : Type 0 where
  pub number : ℕ
  pub state : Option Text
  pub html_url : Text
  pub created_at : Text
  pub updated_at : Option Text
  pub resolved_at : Option Text
  pub secret_type : Text
  pub secret_type_display_name : Option Text

unfoldable pub transform_github_state_to_jira_status : Option Text → VulnerabilityStatus
transform_github_state_to_jira_status none = status_unknown
transform_github_state_to_jira_status (some s) =
    if is_text "open" s
    then status_open
    else if is_text "resolved" s
    then status_closed
    else status_unknown

unfoldable pub get_secret_scanning_vuln_description : Lodash → SecretScanningAlert → Text
get_secret_scanning_vuln_description lodash alert = lodash.truncate 4999 (
    codes "**Vulnerability:** Fix "
    ++ (or_undefined alert.secret_type_display_name
        ++ (codes "\n\n**State:** "
            ++ (capitalized lodash alert.state
                ++ (codes "\n\n**Secret type:** "
                    ++ (alert.secret_type
                        ++ (codes "\n\nVisit the vulnerability’s [secret scanning alert page]("
                            ++ (alert.html_url
                                ++ codes
                                    ") in GitHub to learn more about the potential active secret and remediation steps."))))))))

-- The vulnerability of an alert, with the time that the caller reads.
unfoldable pub secret_scanning_vulnerability :
    Lodash → Text → SecretScanningAlert → Option Text → Vulnerability
unfolding get_secret_scanning_vuln_description transform_github_state_to_jira_status
secret_scanning_vulnerability lodash container_id alert updated = record {
  id = vulnerability_id b's' container_id alert.number;
  container_id = container_id;
  display_name = lodash.truncate 254 (
      get_or (truthy_text alert.secret_type_display_name)
        (alert.secret_type ++ codes " secret exposed"));
  description = get_secret_scanning_vuln_description lodash alert;
  url = alert.html_url;
  vulnerability_type = sast;
  introduced_date = alert.created_at;
  last_updated = get_or (truthy_text updated) alert.created_at;
  severity = severity_critical;
  identifiers = some (record { display_name = alert.secret_type; url = alert.html_url } ∷ []);
  status = transform_github_state_to_jira_status alert.state;
  additional_info = none;
}

-- The webhook's transform; `none`: the base URL is refused.
unfoldable pub transform_secret_scanning_alert :
    Lodash
    → (Text → Option Text)
    → Option Text
    → ℕ
    → SecretScanningAlert
    → Option (List Vulnerability)
unfolding secret_scanning_vulnerability
transform_secret_scanning_alert lodash host_and_path base_url repository_id alert =
    map_option
      (λ container_id.
        secret_scanning_vulnerability lodash container_id alert alert.updated_at ∷ [])
      (transform_repository_id host_and_path (some repository_id) base_url)

-- The backfill's transform of a page of alerts.
unfoldable pub transform_secret_scanning_alerts :
    Lodash
    → (Text → Option Text)
    → Option Text
    → ℕ
    → List SecretScanningAlert
    → Option (List Vulnerability)
unfolding secret_scanning_vulnerability
transform_secret_scanning_alerts lodash host_and_path base_url repository_id [] = some []
transform_secret_scanning_alerts lodash host_and_path base_url repository_id (a ∷ alerts) =
    let rest =
      transform_secret_scanning_alerts lodash host_and_path base_url repository_id alerts in
    and_then (transform_repository_id host_and_path (some repository_id) base_url) (λ container_id.
      map_option (λ vs. secret_scanning_vulnerability lodash container_id a a.resolved_at ∷ vs)
        rest)
