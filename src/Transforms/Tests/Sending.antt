-- ===== src/Transforms/Tests/Sending.antt =====
-- The theorem on commits at concrete values.
use github_for_jira.Base.{Option, some, ◌⊎◌, ℕ, false, List, [], ◌∷◌, none, Text, codes}
use github_for_jira.Transforms.Commit.{CommitNode, CommitBulkSubmitData, transform_commit}
use github_for_jira.Transforms.Repository.{TransformError, Repository}
use github_for_jira.Transforms.Commit.Kept.{IsAnswer, transform_commit-keys}

abbrev all_of : List Text → List Text
all_of ks = ks

abbrev commit : Text → Text → CommitNode
commit oid message = record {
  author = none;
  authored_date = codes "now";
  oid = oid;
  changed_files = none;
  message = message;
  url = none;
}

abbrev commits : List CommitNode
commits = commit (codes "1") (codes "AB-12 fix") ∷ commit (codes "2") (codes "no key") ∷ []

abbrev whole : ℕ → Text → Text
whole n s = s

abbrev any_url : Text → Option Text
any_url url = some url

abbrev repository : Repository
repository = record { id = 1; full_name = codes "o/r"; html_url = codes "h" }

abbrev answer : TransformError ⊎ Option CommitBulkSubmitData
answer = transform_commit all_of whole any_url none false repository commits

transform_commit-keys_example : IsAnswer all_of whole any_url none false repository commits answer
transform_commit-keys_example =
    transform_commit-keys all_of whole any_url none false repository commits
