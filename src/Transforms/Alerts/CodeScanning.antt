-- ===== src/Transforms/Alerts/CodeScanning.antt =====
-- src/transforms/transform-code-scanning-alert.ts and transformCodeScanningAlert of
-- src/sync/code-scanning-alerts.ts. lodash's functions, JavaScript's `substring` and the requests for the
-- titles of pull requests are parameters.
use github_for_jira.Base.{
  ℕ, List, [], ◌∷◌, ◌++◌, map, Option, none, some, if◌then◌else◌, and_then, get_or, or_else,
  map_option, Text, codes, number_text,
}
use github_for_jira.Jira.Jwt.Canonical.{join}
use github_for_jira.Transforms.Author.{truthy_text}
use github_for_jira.Transforms.RepositoryId.{transform_repository_id}
use github_for_jira.Transforms.Alerts.{
  Identifier, starts_with, sast, Vulnerability, vulnerability_id, Lodash, or_undefined, capitalized,
  identifier_link, transform_github_severity_to_jira_severity,
  transform_github_state_to_jira_status, transform_rule_tags_to_identifiers,
}

pub record CodeScanningAlert : Type 0 where
  pub number : ℕ
  pub state : Text
  pub html_url : Text
  pub created_at : Text
  pub updated_at : Option Text
  pub fixed_at : Option Text
  pub dismissed_at : Option Text
  pub rule_name : Option Text
  pub rule_description : Option Text
  pub rule_tags : Option (List Text)
  pub security_severity_level : Option Text
  pub tool_name : Text
  pub most_recent_ref : Option Text
  pub most_recent_state : Text

abbrev pub get_identifiers_text : Option (List Identifier) → Text
get_identifiers_text none = []
get_identifiers_text (some identifiers) = join (codes ", ") (map identifier_link identifiers)

unfoldable pub get_code_scanning_vuln_description :
    Lodash → CodeScanningAlert → Option (List Identifier) → Text
get_code_scanning_vuln_description lodash alert identifiers = lodash.truncate 4999 (
    codes "**Vulnerability:** "
    ++ (or_undefined alert.rule_description
        ++ (codes "\n\n**Severity:** "
            ++ (capitalized lodash alert.security_severity_level
                ++ (codes
                      "\n\nGitHub uses  [Common Vulnerability Scoring System (CVSS)](https://www.atlassian.com/trust/security/security-severity-levels) data to calculate security severity.\n\n**Status:** "
                    ++ (lodash.capitalize alert.state
                        ++ (codes "\n\n**Weaknesses:** "
                            ++ (get_identifiers_text identifiers
                                ++ (codes
                                      "\n\nVisit the vulnerability’s [code scanning alert page]("
                                    ++ (alert.html_url
                                        ++ codes
                                            ") in GitHub for impact, a recommendation, and a relevant example."))))))))))

-- The vulnerability of an alert in the container `container_id`.
unfoldable pub code_scanning_vulnerability : Lodash → Text → CodeScanningAlert → Vulnerability
unfolding get_code_scanning_vuln_description transform_rule_tags_to_identifiers
code_scanning_vulnerability lodash container_id alert =
    let identifiers = transform_rule_tags_to_identifiers alert.rule_tags in
    record {
      id = vulnerability_id b'c' container_id alert.number;
      container_id = container_id;
      display_name = lodash.truncate 254 (
          get_or (or_else (truthy_text alert.rule_description) (truthy_text alert.rule_name))
            (codes "Code scanning alert #" ++ number_text alert.number));
      description = get_code_scanning_vuln_description lodash alert identifiers;
      url = alert.html_url;
      vulnerability_type = sast;
      introduced_date = alert.created_at;
      last_updated =
          get_or
            (or_else (truthy_text alert.dismissed_at)
              (or_else (truthy_text alert.fixed_at) (truthy_text alert.updated_at)))
            alert.created_at;
      severity = transform_github_severity_to_jira_severity alert.security_severity_level;
      identifiers = identifiers;
      status = transform_github_state_to_jira_status alert.state;
      additional_info = some (lodash.truncate 254 alert.tool_name);
    }

-- `none`: the base URL is refused; `some none`: the alert is on a pull request and left out.
unfoldable pub transform_code_scanning_alert_to_jira_security :
    Lodash
    → (Text → Option Text)
    → Option Text
    → ℕ
    → CodeScanningAlert
    → Option (Option (List Vulnerability))
unfolding code_scanning_vulnerability
transform_code_scanning_alert_to_jira_security lodash host_and_path base_url repository_id alert =
    if starts_with (codes "refs/heads") (get_or alert.most_recent_ref [])
    then map_option
        (λ container_id. some (code_scanning_vulnerability lodash container_id alert ∷ []))
        (transform_repository_id host_and_path (some repository_id) base_url)
    else some none

-- The backfill's transform of a page of alerts.
unfoldable pub transform_code_scanning_alerts :
    Lodash
    → (Text → Option Text)
    → Option Text
    → ℕ
    → List CodeScanningAlert
    → Option (List Vulnerability)
unfolding code_scanning_vulnerability
transform_code_scanning_alerts lodash host_and_path base_url repository_id [] = some []
transform_code_scanning_alerts lodash host_and_path base_url repository_id (a ∷ alerts) =
    let rest = transform_code_scanning_alerts lodash host_and_path base_url repository_id alerts in
    and_then (transform_repository_id host_and_path (some repository_id) base_url) (λ container_id.
      map_option (λ vs. code_scanning_vulnerability lodash container_id a ∷ vs) rest)
