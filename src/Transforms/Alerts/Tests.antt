-- ===== src/Transforms/Alerts/Tests.antt =====
-- The theorems on alerts at concrete values.
use github_for_jira.Base.{
  ℕ, ◌≡◌, refl, inr, [], ◌∷◌, ◌++◌, Option, none, some, Text, codes, number_text,
}
use github_for_jira.Transforms.RepositoryId.{transform_repository_id}
use github_for_jira.Transforms.RepositoryId.Injective.{server_prefix}
use github_for_jira.Transforms.Alerts.{
  Lodash, cwe_identifier, transform_rule_tags_to_identifiers, cwe_id,
}
use github_for_jira.Transforms.Alerts.CodeScanning.{CodeScanningAlert}
use github_for_jira.Transforms.Alerts.RemoteLinks.{LinkServices, get_entity_title}
use github_for_jira.Transforms.Alerts.Ids.{
  code_scanning, kind_of, number_of, vulnerability_of-injective,
}
use github_for_jira.Transforms.Alerts.Titles.{get_entity_title-branch}

abbrev lodash : Lodash
lodash = record { truncate = (λ n s. s); capitalize = (λ s. s) }

abbrev same_text : Text → Text
same_text s = s

abbrev any_url : Text → Option Text
any_url url = some url

abbrev alert : CodeScanningAlert
alert = record {
  number = 7;
  state = codes "open";
  html_url = codes "u";
  created_at = codes "now";
  updated_at = none;
  fixed_at = none;
  dismissed_at = none;
  rule_name = some (codes "rule");
  rule_description = none;
  rule_tags = some (codes "external/cwe/cwe-079" ∷ codes "security" ∷ []);
  security_severity_level = some (codes "high");
  tool_name = codes "tool";
  most_recent_ref = some (codes "refs/heads/main");
  most_recent_state = codes "open";
}

tags_identifiers :
    transform_rule_tags_to_identifiers alert.rule_tags ≡ some (cwe_identifier (codes "79") ∷ [])
unfolding transform_rule_tags_to_identifiers cwe_id
tags_identifiers = refl

abbrev repository_number : ℕ
repository_number = 1

repository_1 : transform_repository_id any_url (some repository_number) none ≡ some (codes "1")
unfolding transform_repository_id number_text
repository_1 = refl

vulnerability_of-injective_example :
    (kind_of (code_scanning alert) ≡ kind_of (code_scanning alert))
    × (number_of (code_scanning alert) ≡ number_of (code_scanning alert))
    × (repository_number ≡ repository_number)
    × (server_prefix any_url none ≡ server_prefix any_url none)
vulnerability_of-injective_example =
    vulnerability_of-injective lodash same_text any_url repository_number repository_number none
      none (codes "1") (codes "1") (code_scanning alert) (code_scanning alert) repository_1
      repository_1 refl

abbrev link_services : LinkServices
link_services = record {
  uniq = (λ ks. ks);
  substring = (λ n s. s);
  parse_int = (λ s. none);
  host_and_path = any_url;
  base_url = none;
  get_pull_request = (λ n. inr none);
}

get_entity_title-branch_example :
    get_entity_title link_services (codes "refs/heads/" ++ codes "fix/AB-12")
    ≡ inr (codes "fix/AB-12")
get_entity_title-branch_example = get_entity_title-branch link_services (codes "fix/AB-12")
