-- ===== src/Transforms/Tests.antt =====
-- The theorems on deployments at concrete values.
mod Pushes
mod Sending
use github_for_jira.Base.{ℕ, zero, suc, ◌+◌, ◌-◌, ◌≡◌, List, [], ◌∷◌, String, Option, some, arith}
use github_for_jira.Transforms.Deployment.{Config, issue_count, map_to_association_array}
use github_for_jira.Transforms.Deployment.Associations.{
  total_values, map_to_association_array-exceeds,
}

abbrev ids : ℕ → List String
ids zero = []
ids (suc n) = "id" ∷ ids n

abbrev config : ℕ → Option Config
config n =
    some (record {
      environment_mapping = ("production", "live*" ∷ []) ∷ [];
      service_ids = some (ids n);
    })

map_to_association_array-exceeds_example :
    total_values (map_to_association_array (ids 2) (ids 10) (config 502))
    ≡ 500 + (10 - (issue_count (ids 2) + 502 - 500))
unfolding issue_count
map_to_association_array-exceeds_example =
    map_to_association_array-exceeds (ids 2) (ids 10) (config 502) (omega arith)
