-- ===== src/Transforms/Alerts.antt =====
-- src/transforms: the alerts of GitHub's security features in the form that Jira takes. Here the shared part,
-- src/transforms/util/github-security-alerts.ts, and the vulnerability that Jira gets. The sequence
-- numbers, which are the time, are left out.
pub mod CodeScanning
pub mod Dependabot
pub mod SecretScanning
pub mod RemoteLinks
pub mod Ids
pub mod Titles
mod Tests
use github_for_jira.Base.{
  ℕ, Bool, true, false, ◌||◌, ◌&&◌, List, [], ◌∷◌, ◌++◌, map, Option, none, some, ◌==◌, String,
  if◌then◌else◌, filter, is_empty, length, drop, Text, codes, text_eq, number_text,
}

pub data VulnerabilitySeverity : Type 0 where
  severity_low severity_medium severity_high severity_critical severity_unknown :
      VulnerabilitySeverity

pub data VulnerabilityStatus : Type 0 where
  status_open status_closed status_ignored status_unknown : VulnerabilityStatus

abbrev pub is_text : String → Text → Bool
is_text s t = text_eq t (codes s)

unfoldable pub transform_github_severity_to_jira_severity : Option Text → VulnerabilitySeverity
transform_github_severity_to_jira_severity none = severity_unknown
transform_github_severity_to_jira_severity (some s) =
    if is_text "low" s
    then severity_low
    else if is_text "medium" s || is_text "moderate" s
    then severity_medium
    else if is_text "high" s
    then severity_high
    else if is_text "critical" s
    then severity_critical
    else severity_unknown

unfoldable pub transform_github_state_to_jira_status : Text → VulnerabilityStatus
transform_github_state_to_jira_status s =
    if is_text "open" s
    then status_open
    else if is_text "fixed" s
    then status_closed
    else if is_text "dismissed" s || is_text "auto_dismissed" s
    then status_ignored
    else status_unknown

pub record Identifier : Type 0 where
  pub display_name : Text
  pub url : Text

abbrev pub starts_with : Text → Text → Bool
starts_with [] t = true
starts_with (c ∷ s) [] = false
starts_with (c ∷ s) (d ∷ t) = c == d && starts_with s t

-- The text up to the next `separator`.
abbrev pub before : Text → Text → Text
before separator [] = []
before separator (c ∷ s) =
    let rest = before separator s in if starts_with separator (c ∷ s) then [] else c ∷ rest

-- `replace(/^0+/, "")`
abbrev pub without_zeros : Text → Text
without_zeros [] = []
without_zeros (c ∷ s) = let rest = without_zeros s in if c == b'0' then rest else c ∷ s

abbrev pub cwe_prefix : Text
cwe_prefix = codes "external/cwe/cwe-"

-- `tag.split(cwePrefix)[1]`, of a tag that starts with the prefix, without the zeros.
unfoldable pub cwe_id : Text → Text
cwe_id tag = without_zeros (before cwe_prefix (drop (length cwe_prefix) tag))

abbrev pub cwe_identifier : Text → Identifier
cwe_identifier id = record {
  display_name = codes "CWE-" ++ id;
  url = codes "https://cwe.mitre.org/cgi-bin/jumpmenu.cgi?id=" ++ id;
}

unfoldable pub transform_rule_tags_to_identifiers : Option (List Text) → Option (List Identifier)
unfolding cwe_id
transform_rule_tags_to_identifiers none = none
transform_rule_tags_to_identifiers (some tags) =
    let identifiers =
      map (λ tag. cwe_identifier (cwe_id tag)) (filter (starts_with cwe_prefix) tags) in
    if is_empty identifiers then none else some identifiers

pub data VulnerabilityType : Type 0 where
  sast sca : VulnerabilityType

pub record Vulnerability : Type 0 where
  pub id : Text
  pub container_id : Text
  pub display_name : Text
  pub description : Text
  pub url : Text
  pub vulnerability_type : VulnerabilityType
  pub introduced_date : Text
  pub last_updated : Text
  pub severity : VulnerabilitySeverity
  pub identifiers : Option (List Identifier)
  pub status : VulnerabilityStatus
  pub additional_info : Option Text

-- `${kind}-${containerId}-${alert.number}`
abbrev pub vulnerability_id : ℕ → Text → ℕ → Text
vulnerability_id kind container_id number =
    kind ∷ b'-' ∷ (container_id ++ (b'-' ∷ number_text number))

-- What the transforms take from lodash: `truncate` to a length and `capitalize`.
pub record Lodash : Type 0 where
  pub truncate : ℕ → Text → Text
  pub capitalize : Text → Text

-- `${value}` of a value that may be missing.
abbrev pub or_undefined : Option Text → Text
or_undefined none = codes "undefined"
or_undefined (some t) = t

-- `capitalize` of a value that may be missing.
abbrev pub capitalized : Lodash → Option Text → Text
capitalized lodash none = []
capitalized lodash (some t) = lodash.capitalize t

-- `[name](url)`
abbrev pub identifier_link : Identifier → Text
identifier_link i = b'[' ∷ (i.display_name ++ (b']' ∷ b'(' ∷ (i.url ++ (b')' ∷ []))))
