-- ===== src/Transforms/Commit.antt =====
-- src/transforms/transform-commit.ts: the commits of the backfill in the form that Jira takes. lodash's `uniq` and
-- JavaScript's `substring` are parameters. The sequence ids, which are the time, are left out.
pub mod Kept
use github_for_jira.Base.{
  ◌⊎◌, inl, inr, ℕ, Bool, ◌&&◌, not, List, [], ◌∷◌, Option, none, some, if◌then◌else◌, is_empty,
  get_or, take, Text,
}
use github_for_jira.Jira.IssueKeyParser.{issue_key_parser}
use github_for_jira.Transforms.Repository.{
  TransformError, invalid_url, Repository, RepositoryInfo, transform_repository_dev_info_bulk,
}
use github_for_jira.Transforms.Author.{
  Author, JiraAuthor, get_jira_author, limit_commit_message, truthy_text,
}

pub record CommitNode : Type 0 where
  pub author : Option Author
  pub authored_date : Text
  pub oid : Text
  pub changed_files : Option ℕ
  pub message : Text
  pub url : Option Text

pub record JiraCommit : Type 0 where
  pub author : JiraAuthor
  pub author_timestamp : Text
  pub display_id : Text
  pub file_count : ℕ
  pub hash : Text
  pub id : Text
  pub issue_keys : List Text
  pub message : Text
  pub url : Option Text

unfoldable pub map_commit :
    (List Text → List Text) → (ℕ → Text → Text) → Bool → CommitNode → Option JiraCommit
map_commit uniq substring always_send commit =
    let issue_keys = issue_key_parser uniq commit.message in
    if is_empty issue_keys && not always_send
    then none
    else some (record {
      author = get_jira_author (commit.author ∷ []);
      author_timestamp = commit.authored_date;
      display_id = take 6 commit.oid;
      file_count = get_or commit.changed_files 0;
      hash = commit.oid;
      id = commit.oid;
      issue_keys = issue_keys;
      message = limit_commit_message substring (some commit.message);
      url = truthy_text commit.url;
    })

-- `.map(…).filter((commit) => !!commit)`
unfoldable pub map_commits :
    (List Text → List Text) → (ℕ → Text → Text) → Bool → List CommitNode → List JiraCommit
unfolding map_commit
map_commits uniq substring always_send [] = []
map_commits uniq substring always_send (c ∷ cs) =
    let rest = map_commits uniq substring always_send cs in
    elim (map_commit uniq substring always_send c) [ none ↦ rest | some d ↦ d ∷ rest ]

pub record CommitBulkSubmitData : Type 0 where
  pub repository : RepositoryInfo
  pub commits : List JiraCommit

-- `none` if no commit is left; the error of a base URL that is refused is thrown.
unfoldable pub transform_commit :
    (List Text → List Text)
    → (ℕ → Text → Text)
    → (Text → Option Text)
    → Option Text
    → Bool
    → Repository
    → List CommitNode
    → TransformError ⊎ Option CommitBulkSubmitData
unfolding map_commits
transform_commit uniq substring host_and_path base_url always_send repository commits =
    let kept = map_commits uniq substring always_send commits in
    if is_empty kept
    then inr none
    else elim (transform_repository_dev_info_bulk host_and_path repository base_url) [
      | none ↦ inl invalid_url
      | some info ↦ inr (some (record { repository = info; commits = kept }))
    ]
