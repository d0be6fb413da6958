-- ===== src/Transforms/Deployment.antt =====
-- src/transforms/transform-deployment.ts: the state, the environment and the associations that a
-- GitHub deployment has in Jira, and the commit that it is compared with. Lower-casing, the globs
-- of the user's configuration and the regular expression of the environments are parameters.
pub mod Associations
pub mod Environments
use github_for_jira.Base.{
  map_option, ℕ, ◌+◌, ◌-◌, ap, Bool, ◌||◌, List, [], ◌∷◌, ◌++◌, String, Option, none, some, leb,
  ◌=s=◌, if◌then◌else◌, last?, take, any, find, length, and_then, get_or,
}

abbrev pub max_associations_per_entity : ℕ
max_associations_per_entity = 500

-- `mapState`, with the state in lower case.
unfoldable pub map_state : (String → String) → Option String → String
map_state to_lower_case none = "unknown"
map_state to_lower_case (some state) =
    let s = to_lower_case state in
    if s =s= "queued" || s =s= "waiting"
    then "pending"
    else if s =s= "pending" || s =s= "in_progress"
    then "in_progress"
    else if s =s= "success"
    then "successful"
    else if s =s= "error" || s =s= "failure"
    then "failed"
    else "unknown"

-- `config.deployments`: the environment mapping in the order of its keys, and the service ids.
pub record Config : Type 0 where
  pub environment_mapping : List (String × List String)
  pub service_ids : Option (List String)

unfoldable pub matches_environment : (String → String → Bool) → String → List String → Bool
matches_environment minimatch environment globs = any (minimatch environment) globs

unfoldable pub map_environment_with_config :
    (String → String → Bool) → String → Config → Option String
unfolding matches_environment
map_environment_with_config minimatch environment config =
    map_option (λ (e : String × List String). e.0)
      (find (λ e. matches_environment minimatch environment e.1) config.environment_mapping)

abbrev pub valid_envs : List String
valid_envs = "development" ∷ "testing" ∷ "staging" ∷ "production" ∷ []

-- The fallback's names, in the order in which they are tried.
abbrev pub environment_mapping : List (String × List String)
environment_mapping =
    ("development", "development" ∷ "dev" ∷ "trunk" ∷ "develop" ∷ [])
    ∷ (
      "testing",
      "testing" ∷ "test" ∷ "tests" ∷ "tst" ∷ "integration" ∷ "integ" ∷ "intg" ∷ "int" ∷ "acceptance"
          ∷ "accept" ∷ "acpt" ∷ "qa" ∷ "qc" ∷ "control" ∷ "quality" ∷ "uat" ∷ "sit" ∷ [],
    )
    ∷ ("staging", "staging" ∷ "stage" ∷ "stg" ∷ "sta" ∷ "preprod" ∷ "model" ∷ "internal" ∷ [])
    ∷ ("production", "production" ∷ "prod" ∷ "prd" ∷ "live" ∷ [])
    ∷ []

-- `names_match` is the regular expression's test on the environment.
unfoldable pub map_environment_by_name : (List String → String → Bool) → String → String
map_environment_by_name names_match environment =
    get_or
      (map_option (λ (e : String × List String). e.0)
        (find (λ (e : String × List String). names_match e.1 environment) environment_mapping))
      "unmapped"

-- An environment type that is empty counts as none.
abbrev pub truthy_type : Option String → Option String
truthy_type none = none
truthy_type (some t) = if t =s= "" then none else some t

unfoldable pub map_environment :
    (String → String → Bool) → (List String → String → Bool) → String → Option Config → String
unfolding map_environment_with_config map_environment_by_name
map_environment minimatch names_match environment config =
    elim (and_then config
      (λ c. truthy_type (map_environment_with_config minimatch environment c))) [
        | some t ↦ if any (λ v. v =s= t) valid_envs then t else "unmapped"
        | none ↦ map_environment_by_name names_match environment
      ]

-- `JiraAssociation`, by its type.
pub data JiraAssociation : Type 0 where
  issue_id_or_keys : List String → JiraAssociation
  service_id_or_keys : List String → JiraAssociation
  -- the commits' hashes; the repository is the same for all
  commit : List String → JiraAssociation

-- `array.slice(0, a - b)`, where a negative end counts from the end of the array.
unfoldable pub slice_to_difference : {A : Type 0} → ℕ → ℕ → List A → List A
slice_to_difference a b xs = if leb b a then take (a - b) xs else take (length xs - (b - a)) xs

abbrev pub unless_nil : {A : Type 0} → List A → List JiraAssociation → List JiraAssociation
unless_nil [] as_ = []
unless_nil (x ∷ xs) as_ = as_

abbrev pub service_ids_of : Option Config → List String
service_ids_of none = []
service_ids_of (some c) = get_or c.service_ids []

-- The count goes up by the issues that are kept, but by all of the services.
unfoldable pub issue_count : List String → ℕ
issue_count issue_ids = length (take max_associations_per_entity issue_ids)

unfoldable pub commit_values : List String → List String → List String → List String
unfolding slice_to_difference issue_count
commit_values issue_ids services commits =
    slice_to_difference max_associations_per_entity (issue_count issue_ids + length services)
      commits

unfoldable pub map_to_association_array :
    List String → List String → Option Config → List JiraAssociation
unfolding issue_count slice_to_difference commit_values
map_to_association_array issue_ids commits config =
    let services = service_ids_of config in
    unless_nil issue_ids (issue_id_or_keys (take max_associations_per_entity issue_ids) ∷ [])
    ++ unless_nil services (
        service_id_or_keys
          (slice_to_difference max_associations_per_entity (issue_count issue_ids) services)
        ∷ [])
    ++ unless_nil commits (
        unless_nil (commit_values issue_ids services commits)
          (commit (commit_values issue_ids services commits) ∷ []))

pub record Deployment : Type 0 where
  pub id : ℕ
  pub sha : String

-- The sha to compare with: that of the first deployment with a successful status, and otherwise
-- that of the last one. `statuses` is what GitHub answers for a deployment, `none` an error, which
-- ends the search.
unfoldable pub last_successful : (ℕ → Option (List String)) → List Deployment → Option String
last_successful statuses [] = none
last_successful statuses (d ∷ ds) =
    let further = last_successful statuses ds in
    elim (statuses d.id) [
      | none ↦ none
      | some states ↦ if any (λ s. s =s= "success") states then some d.sha else further
    ]

-- `none` is the exception for an empty list.
unfoldable pub get_last_successful_deploy_commit_sha :
    (ℕ → Option (List String)) → List Deployment → Option String
unfolding last_successful
get_last_successful_deploy_commit_sha statuses deployments =
    elim (last_successful statuses deployments) [
      | some sha ↦ some sha
      | none ↦ map_option (λ (d : Deployment). d.sha) (last? deployments)
    ]
