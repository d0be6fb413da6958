-- ===== src/Jira/Tests.antt =====
-- The theorems on what is sent to Jira at concrete objects.
use github_for_jira.Base.{
  ◌≤◌, ◌≡◌, true, List, [], ◌∷◌, map, String, none, some, last?, length, All,
}
use github_for_jira.Jira.IssueKeys.{IssueKeyObject, Repository}
use github_for_jira.Jira.Batches.{ids_of, portion, commit_chunks, batched_bulk_update}
use github_for_jira.Jira.Batches.Portions.{concat, keep_first, IsDistinct, commit_chunks-portions}
use github_for_jira.Jira.Batches.Requests.{batched_bulk_update-deferred}

abbrev object : String → IssueKeyObject
object id = record { id = id; issue_keys = some ("A-1" ∷ "A-2" ∷ []); associations = none }

abbrev objects : List IssueKeyObject
objects = object "x" ∷ object "y" ∷ object "x" ∷ []

abbrev keys : List String → List String
keys ks = ks

abbrev a_repository : Repository
a_repository = record { commits = some objects; branches = none; pull_requests = none }

commit_chunks-portions_example :
    (concat (commit_chunks objects) ≡ keep_first [] objects)
    × (All (λ c. length c ≤ portion) (commit_chunks objects)
        × IsDistinct (ids_of (concat (commit_chunks objects))))
commit_chunks-portions_example = commit_chunks-portions objects

batched_bulk_update-deferred_example :
    batched_bulk_update true (some objects)
    ≡ map (λ _. last? (commit_chunks objects)) (commit_chunks objects)
batched_bulk_update-deferred_example =
    batched_bulk_update-deferred (object "x") (object "y" ∷ object "x" ∷ [])
