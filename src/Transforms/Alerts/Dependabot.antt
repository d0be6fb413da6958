-- ===== src/Transforms/Alerts/Dependabot.antt =====
-- src/transforms/transform-dependabot-alert.ts and transformDependabotAlerts of
-- src/sync/dependabot-alerts.ts. lodash's functions and `toLowerCase` are parameters.
use github_for_jira.Base.{
  ℕ, Bool, ◌||◌, List, [], ◌∷◌, ◌++◌, map, Option, some, find, and_then, get_or, map_option, Text,
  codes, number_text,
}
use github_for_jira.Jira.Jwt.Canonical.{join}
use github_for_jira.Transforms.Author.{truthy_text}
use github_for_jira.Transforms.RepositoryId.{transform_repository_id}
use github_for_jira.Transforms.Alerts.{
  Identifier, starts_with, sca, Vulnerability, vulnerability_id, Lodash, or_undefined,
  identifier_link, transform_github_severity_to_jira_severity,
  transform_github_state_to_jira_status,
}

pub record DependabotAlert : Type 0 where
  pub number : ℕ
  pub state : Text
  pub html_url : Text
  pub created_at : Text
  pub updated_at : Text
  pub summary : Text
  pub advisory_description : Text
  pub advisory_severity : Text
  pub cvss_score : Option Text
  pub identifier_values : List Text
  pub reference_urls : List Text
  pub vulnerability_severity : Option Text
  pub first_patched_version : Option Text
  pub manifest_path : Text

-- `url.includes(value)`
abbrev pub includes_text : Text → Text → Bool
includes_text value [] = starts_with value []
includes_text value (c ∷ s) = starts_with value (c ∷ s) || includes_text value s

-- The URL of the first reference that has the identifier in it, or that of the alert.
abbrev pub identifier_url : List Text → Text → Text → Text
identifier_url references alert_url value =
    get_or (and_then (find (includes_text value) references) (λ url. truthy_text (some url)))
      alert_url

unfoldable pub map_vuln_identifiers : List Text → List Text → Text → List Identifier
map_vuln_identifiers values references alert_url =
    map (λ value. record { display_name = value; url = identifier_url references alert_url value })
      values

abbrev pub get_identifiers_text : List Identifier → Text
get_identifiers_text identifiers =
    join (codes "\n") (map (λ i. codes "- " ++ identifier_link i) identifiers)

unfoldable pub get_dependabot_scanning_vuln_description :
    Lodash → DependabotAlert → List Identifier → Text
get_dependabot_scanning_vuln_description lodash alert identifiers = lodash.truncate 4999 (
    codes "**Vulnerability:** "
    ++ (alert.summary
        ++ (codes "\n\n**Impact:** "
            ++ (alert.advisory_description
                ++ (codes "\n\n**Severity:** "
                    ++ (lodash.capitalize alert.advisory_severity
                        ++ (codes " - "
                            ++ (or_undefined alert.cvss_score
                                ++ (codes
                                      "\n\nGitHub uses  [Common Vulnerability Scoring System (CVSS)](https://www.atlassian.com/trust/security/security-severity-levels) data to calculate security severity.\n\n**State:** "
                                    ++ (lodash.capitalize alert.state
                                        ++ (codes "\n\n**Patched version:** "
                                            ++ (or_undefined alert.first_patched_version
                                                ++ (codes "\n\n**Identifiers:**\n\n"
                                                    ++ (get_identifiers_text identifiers
                                                        ++ (codes
                                                            "\n\nVisit the vulnerability’s [dependabot alert page]("
                                                            ++ (alert.html_url
                                                            ++ codes
                                                            ") in GitHub to learn more about and see remediation options."))))))))))))))))

-- The vulnerability of an alert, with the time, the severity and the state that the caller reads.
unfoldable pub dependabot_vulnerability :
    Lodash → Text → DependabotAlert → Text → Option Text → Text → Vulnerability
unfolding get_dependabot_scanning_vuln_description map_vuln_identifiers
dependabot_vulnerability lodash container_id alert last_updated severity state =
    let identifiers =
      map_vuln_identifiers alert.identifier_values alert.reference_urls alert.html_url in
    record {
      id = vulnerability_id b'd' container_id alert.number;
      container_id = container_id;
      display_name = lodash.truncate 254 (
          get_or (truthy_text (some alert.summary))
            (codes "Dependabot alert #" ++ number_text alert.number));
      description = get_dependabot_scanning_vuln_description lodash alert identifiers;
      url = alert.html_url;
      vulnerability_type = sca;
      introduced_date = alert.created_at;
      last_updated = last_updated;
      severity = transform_github_severity_to_jira_severity severity;
      identifiers = some identifiers;
      status = transform_github_state_to_jira_status state;
      additional_info = some (lodash.truncate 254 alert.manifest_path);
    }

-- The webhook's transform; `none`: the base URL is refused.
unfoldable pub transform_dependabot_alert :
    Lodash → (Text → Option Text) → Option Text → ℕ → DependabotAlert → Option (List Vulnerability)
unfolding dependabot_vulnerability
transform_dependabot_alert lodash host_and_path base_url repository_id alert =
    map_option
      (λ container_id.
        dependabot_vulnerability lodash container_id alert
          (get_or (truthy_text (some alert.updated_at)) alert.created_at)
          alert.vulnerability_severity alert.state
        ∷ [])
      (transform_repository_id host_and_path (some repository_id) base_url)

-- The backfill's transform of a page of alerts.
unfoldable pub transform_dependabot_alerts :
    Lodash
    → (Text → Text)
    → (Text → Option Text)
    → Option Text
    → ℕ
    → List DependabotAlert
    → Option (List Vulnerability)
unfolding dependabot_vulnerability
transform_dependabot_alerts lodash lower_case host_and_path base_url repository_id [] = some []
transform_dependabot_alerts lodash lower_case host_and_path base_url repository_id (a ∷ alerts) =
    let rest =
      transform_dependabot_alerts lodash lower_case host_and_path base_url repository_id alerts in
    and_then (transform_repository_id host_and_path (some repository_id) base_url) (λ container_id.
      map_option
        (λ vs.
          dependabot_vulnerability lodash container_id a a.updated_at
            (map_option lower_case a.vulnerability_severity) (lower_case a.state)
          ∷ vs)
        rest)
