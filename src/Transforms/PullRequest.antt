-- ===== src/Transforms/PullRequest.antt =====
-- src/transforms/transform-pull-request.ts and util/pull-request-link-generator.ts: pull requests in the
-- form that Jira takes. lodash's `uniq` and the requests for users are parameters. The sequence ids, which are
-- the time, are left out.
pub mod Reviews
pub mod Rest
use github_for_jira.Base.{
  inl, inr, ◌⊎◌, ℕ, Bool, true, false, ◌&&◌, not, List, [], ◌∷◌, ◌++◌, Option, none, some, ltb,
  if◌then◌else◌, is_empty, is_some, and_then, get_or, take, head?, Text, codes, text_eq,
  number_text, utf16_length,
}
use github_for_jira.Jira.IssueKeyParser.{issue_key_parser}
use github_for_jira.Jira.JiraId.{get_jira_id}
use github_for_jira.Jira.Jwt.Canonical.{encode_uri_component}
use github_for_jira.Transforms.Author.{Author, JiraAuthor, get_jira_author, truthy_text}
use github_for_jira.Transforms.RepositoryId.{lower}
use github_for_jira.Transforms.Repository.{
  TransformError, invalid_url, Repository, RepositoryInfo, transform_repository_dev_info_bulk,
}
use github_for_jira.Transforms.PullRequest.Reviews.{Review, JiraReview, login_of, map_reviews_rest}

pub data Status : Type 0 where
  merged open_ draft declined unknown : Status

unfoldable pub map_status : Text → Bool → Option Text → Status
map_status status is_draft merged_at =
    let s = lower status in
    let was_merged = is_some (truthy_text merged_at) in
    if text_eq s (codes "merged")
    then merged
    else if text_eq s (codes "open") && not is_draft
    then open_
    else if text_eq s (codes "open") && is_draft
    then draft
    else if text_eq s (codes "closed") && was_merged
    then merged
    else if text_eq s (codes "closed") && not was_merged
    then declined
    else if text_eq s (codes "declined")
    then declined
    else unknown

abbrev pub is_merged : Status → Bool
is_merged merged = true
is_merged _ = false

-- Jira takes 2000 characters.
unfoldable pub generate_create_pull_request_url :
    (List Text → List Text) → Text → Text → List Text → Text
unfolding encode_uri_component issue_key_parser
generate_create_pull_request_url uniq base_url branch_name issue_keys =
    let keys =
      if is_empty (issue_key_parser uniq branch_name) then get_or (head? issue_keys) [] else [] in
    let title =
      encode_uri_component (if is_empty keys then branch_name else keys ++ (b'-' ∷ branch_name)) in
    let branch = encode_uri_component branch_name in
    let url =
      base_url
      ++ (codes "/compare/" ++ (branch ++ (codes "?title=" ++ (title ++ codes "&quick_pull=1")))) in
    if ltb 2000 (utf16_length url) then base_url ++ (codes "/compare/" ++ branch) else url

pub record PullRequest : Type 0 where
  pub number : ℕ
  pub state : Text
  pub is_draft : Bool
  pub merged_at : Option Text
  pub title : Text
  pub body : Option Text
  pub updated_at : Text
  pub html_url : Text
  pub comments : ℕ
  pub user : Option Author
  pub base_ref : Text
  pub base_repo : Repository
  pub head_ref : Text
  pub head_sha : Text
  pub head_repo_url : Option Text
  pub head_user : Option Author

pub record JiraCommit : Type 0 where
  pub author : JiraAuthor
  pub author_timestamp : Text
  pub display_id : Text
  pub file_count : ℕ
  pub hash : Text
  pub issue_keys : List Text
  pub message : Text
  pub url : Text

pub record JiraBranch : Type 0 where
  pub create_pull_request_url : Text
  pub last_commit : JiraCommit
  pub id : Text
  pub issue_keys : List Text
  pub name : Text
  pub url : Text

pub record JiraPullRequest : Type 0 where
  pub author : JiraAuthor
  pub comment_count : ℕ
  pub destination_branch : Text
  pub destination_branch_url : Text
  pub display_id : Text
  pub id : ℕ
  pub issue_keys : List Text
  pub last_update : Text
  pub reviewers : List JiraReview
  pub source_branch : Text
  pub source_branch_url : Text
  pub status : Status
  pub timestamp : Text
  pub title : Text
  pub url : Text

pub record BulkSubmitData : Type 0 where
  pub repository : RepositoryInfo
  pub branches : List JiraBranch
  pub pull_requests : List JiraPullRequest

-- `${prTitle}\n${head?.ref}\n${body}`
unfoldable pub extract_issue_keys_from_pr_rest : (List Text → List Text) → PullRequest → List Text
unfolding issue_key_parser
extract_issue_keys_from_pr_rest uniq p =
    issue_key_parser uniq (p.title ++ (10 ∷ (p.head_ref ++ (10 ∷ get_or p.body (codes "null")))))

-- `getGithubUser`: nothing is asked for a login that is missing.
abbrev pub get_github_user : (Text → Option Author) → Option Text → Option Author
get_github_user user_of login = and_then login user_of

-- A merged pull request comes with no branch.
unfoldable pub get_branches :
    (List Text → List Text)
    → (Text → Option Author)
    → PullRequest
    → Text
    → List Text
    → List JiraBranch
unfolding map_status generate_create_pull_request_url
get_branches uniq user_of p head_url issue_keys =
    if is_merged (map_status p.state p.is_draft p.merged_at)
    then []
    else record {
      create_pull_request_url =
          generate_create_pull_request_url uniq head_url p.head_ref issue_keys;
      last_commit = record {
        author =
            get_jira_author (p.head_user ∷ get_github_user user_of (login_of p.head_user) ∷ []);
        author_timestamp = p.updated_at;
        display_id = take 6 p.head_sha;
        file_count = 0;
        hash = p.head_sha;
        issue_keys = issue_keys;
        message = codes "n/a";
        url = head_url ++ (codes "/commit/" ++ p.head_sha);
      };
      id = get_jira_id p.head_ref;
      issue_keys = issue_keys;
      name = p.head_ref;
      url = head_url ++ (codes "/tree/" ++ p.head_ref);
    }
      ∷ []

-- What is sent for a pull request whose repository is there.
unfoldable pub pull_request_data :
    (List Text → List Text)
    → (Text → Option Author)
    → List Review
    → PullRequest
    → Text
    → List Text
    → RepositoryInfo
    → BulkSubmitData
unfolding get_branches
pull_request_data uniq user_of reviews p head_url issue_keys info = record {
  repository = info;
  branches = get_branches uniq user_of p head_url issue_keys;
  pull_requests =
      record {
        author = get_jira_author (p.user ∷ get_github_user user_of (login_of p.user) ∷ []);
        comment_count = p.comments;
        destination_branch = p.base_ref;
        destination_branch_url = p.base_repo.html_url ++ (codes "/tree/" ++ p.base_ref);
        display_id = b'#' ∷ number_text p.number;
        id = p.number;
        issue_keys = issue_keys;
        last_update = p.updated_at;
        reviewers = map_reviews_rest user_of reviews;
        source_branch = p.head_ref;
        source_branch_url = head_url ++ (codes "/tree/" ++ p.head_ref);
        status = map_status p.state p.is_draft p.merged_at;
        timestamp = p.updated_at;
        title = p.title;
        url = p.html_url;
      }
      ∷ [];
}

-- `always_send` is the feature flag's answer.
unfoldable pub transform_pull_request_rest :
    (List Text → List Text)
    → (Text → Option Author)
    → (Text → Option Text)
    → Option Text
    → Bool
    → List Review
    → PullRequest
    → TransformError ⊎ Option BulkSubmitData
unfolding extract_issue_keys_from_pr_rest pull_request_data
transform_pull_request_rest uniq user_of host_and_path base_url always_send reviews p =
    let issue_keys = extract_issue_keys_from_pr_rest uniq p in
    elim p.head_repo_url [
      | none ↦ inr none
      | some head_url ↦
          if is_empty issue_keys && not always_send
          then inr none
          else elim (transform_repository_dev_info_bulk host_and_path p.base_repo base_url) [
            | none ↦ inl invalid_url
            | some info ↦
                inr (some (pull_request_data uniq user_of reviews p head_url issue_keys info))
          ]
    ]
