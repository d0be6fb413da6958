-- ===== src/Transforms/Branch.antt =====
-- src/transforms/transform-branch.ts: branches that were created, in the form that Jira takes. lodash's
-- `uniq`, JavaScript's `substring` and the requests to GitHub are parameters. The sequence ids, which are the
-- time, are left out.
use github_for_jira.Base.{
  ℕ, ◌⊎◌, inl, inr, Bool, ◌&&◌, not, List, [], ◌∷◌, ◌++◌, Option, none, some, if◌then◌else◌,
  is_empty, take, Text, codes, text_eq,
}
use github_for_jira.Github.Errors.{Error}
use github_for_jira.Jira.IssueKeyParser.{issue_key_parser}
use github_for_jira.Jira.JiraId.{get_jira_id}
use github_for_jira.Transforms.Author.{Author, get_jira_author, limit_commit_message}
use github_for_jira.Transforms.Repository.{
  TransformError, request_failed, invalid_url, Repository, transform_repository_dev_info_bulk,
}
use github_for_jira.Transforms.PullRequest.{
  JiraCommit, JiraBranch, BulkSubmitData, generate_create_pull_request_url,
}

pub record CreateEvent : Type 0 where
  pub ref_type : Text
  pub ref : Text
  pub owner : Text
  pub repository : Repository

-- GitHub's answer on a commit.
pub record CommitAnswer : Type 0 where
  pub author : Option Author
  pub commit_author : Option Author
  pub date : Text
  pub message : Option Text
  pub url : Text

-- What GitHub answers on the ref `heads/…` and on its commit.
pub record Requests : Type 0 where
  pub get_ref : Text → Error ⊎ Text
  pub get_commit : Text → Error ⊎ CommitAnswer

unfoldable pub get_last_commit :
    (ℕ → Text → Text) → Requests → CreateEvent → List Text → Error ⊎ JiraCommit
unfolding limit_commit_message
get_last_commit substring github event issue_keys =
    elim (github.get_ref (codes "heads/" ++ event.ref)) [
      | inl e ↦ inl e
      | inr sha ↦ elim (github.get_commit sha) [
        | inl e ↦ inl e
        | inr c ↦ inr (record {
          author = get_jira_author (c.author ∷ c.commit_author ∷ []);
          author_timestamp = c.date;
          display_id = take 6 sha;
          file_count = 0;
          hash = sha;
          issue_keys = issue_keys;
          message = limit_commit_message substring c.message;
          url = c.url;
        })
      ]
    ]

-- The branch, with the pull request's URL and the last commit.
unfoldable pub created_branch :
    (List Text → List Text) → CreateEvent → List Text → JiraCommit → JiraBranch
created_branch uniq event issue_keys last = record {
  create_pull_request_url =
      generate_create_pull_request_url uniq event.repository.html_url event.ref issue_keys;
  last_commit = last;
  id = get_jira_id event.ref;
  issue_keys = issue_keys;
  name = event.ref;
  url = event.repository.html_url ++ (codes "/tree/" ++ event.ref);
}

-- `none` if nothing is sent. The error of a request is thrown, and so is that of a base URL that is refused.
unfoldable pub transform_branch :
    (List Text → List Text)
    → (ℕ → Text → Text)
    → Requests
    → (Text → Option Text)
    → Option Text
    → Bool
    → CreateEvent
    → TransformError ⊎ Option BulkSubmitData
unfolding get_last_commit created_branch
transform_branch uniq substring github host_and_path base_url always_send event =
    let issue_keys = issue_key_parser uniq event.ref in
    if not (text_eq event.ref_type (codes "branch"))
    then inr none
    else if is_empty issue_keys && not always_send
    then inr none
    else elim (get_last_commit substring github event issue_keys) [
      | inl e ↦ inl (request_failed e)
      | inr last ↦
          elim (transform_repository_dev_info_bulk host_and_path event.repository base_url) [
            | none ↦ inl invalid_url
            | some info ↦ inr (
                some (record {
                  repository = info;
                  branches = created_branch uniq event issue_keys last ∷ [];
                  pull_requests = [];
                }))
          ]
    ]
