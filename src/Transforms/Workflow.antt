-- ===== src/Transforms/Workflow.antt =====
-- src/transforms/transform-workflow.ts and util/github-api-requests.ts: builds in the form that Jira takes.
-- lodash's `uniq` and the comparison of branches are parameters. The sequence id, which is the time,
-- is left out.
pub mod Builds
use github_for_jira.Base.{
  ℕ, Bool, ◌||◌, ◌&&◌, not, List, [], ◌∷◌, ◌++◌, map, Option, none, some, if◌then◌else◌, is_empty,
  get_or, take, head?, Text, codes, text_eq, number_text,
}
use github_for_jira.Jira.IssueKeyParser.{issue_key_parser}
use github_for_jira.Jira.Jwt.Canonical.{join}

pub data BuildState : Type 0 where
  in_progress successful failed cancelled pending unknown : BuildState

unfoldable pub map_status : Text → Option Text → BuildState
map_status status conclusion =
    let key : Text = elim conclusion [
      | none ↦ status
      | some c ↦ if is_empty c then status else status ++ (b'.' ∷ c)
    ] in
    let is = λ (s : Text). text_eq key s in
    if is (codes "queued") || is (codes "in_progress")
    then in_progress
    else if is (codes "completed.success")
        || (is (codes "completed.neutral") || is (codes "completed.skipped"))
    then successful
    else if is (codes "completed.failure") || is (codes "completed.timed_out")
    then failed
    else if is (codes "completed.cancelled") || is (codes "completed.stale")
    then cancelled
    else if is (codes "completed.action_required")
    then pending
    else unknown

pub record WorkflowPullRequest : Type 0 where
  pub base_ref : Text
  pub head_ref : Text
  pub head_sha : Text
  pub head_repo_url : Text

-- A reference to a pull request: its commit and its branch.
pub record Reference : Type 0 where
  pub commit_id : Text
  pub repository_uri : Text
  pub ref_name : Text
  pub ref_uri : Text

unfoldable pub map_pull_requests : List WorkflowPullRequest → List Reference
map_pull_requests pull_requests =
    map
      (λ p. record {
        commit_id = p.head_sha;
        repository_uri = p.head_repo_url;
        ref_name = p.head_ref;
        ref_uri = p.head_repo_url ++ (codes "/tree/" ++ p.head_ref);
      })
      pull_requests

pub record WorkflowRun : Type 0 where
  pub conclusion : Option Text
  pub head_branch : Text
  pub head_commit_message : Option Text
  pub html_url : Text
  pub name : Text
  pub workflow_id : ℕ
  pub pull_requests : List WorkflowPullRequest
  pub owner : Text
  pub repository_name : Text
  pub run_number : ℕ
  pub status : Text
  pub updated_at : Text

pub record JiraBuild : Type 0 where
  pub pipeline_id : Text
  pub build_number : ℕ
  pub display_name : Text
  pub url : Text
  pub state : BuildState
  pub last_updated : Text
  pub issue_keys : List Text
  pub references : Option (List Reference)

-- The messages of the commits, `none` where the comparison failed.
unfoldable pub extract_messages_from_commit_summaries : Option (List Text) → Text
extract_messages_from_commit_summaries none = []
extract_messages_from_commit_summaries (some messages) = join (codes " ") messages

-- `compare owner repo base head` is a request to GitHub.
unfoldable pub commit_messages :
    (Text → Text → Text → Text → Option (List Text)) → WorkflowRun → Text
unfolding extract_messages_from_commit_summaries
commit_messages compare run = elim (head? run.pull_requests) [
  | none ↦ []
  | some p ↦
      extract_messages_from_commit_summaries
        (compare run.owner run.repository_name p.base_ref p.head_ref)
]

-- The text that is searched for issue keys.
unfoldable pub searched_text : (Text → Text → Text → Text → Option (List Text)) → WorkflowRun → Text
unfolding commit_messages
searched_text compare run =
    run.head_branch
    ++ (10 ∷ (get_or run.head_commit_message [] ++ (10 ∷ commit_messages compare run)))

unfoldable pub workflow_build : WorkflowRun → List Text → JiraBuild
unfolding map_status map_pull_requests
workflow_build run issue_keys = record {
  pipeline_id = number_text run.workflow_id;
  build_number = run.run_number;
  display_name = run.name;
  url = run.html_url;
  state = map_status run.status run.conclusion;
  last_updated = run.updated_at;
  issue_keys = issue_keys;
  references =
      if is_empty run.pull_requests
      then none
      else some (take 5 (map_pull_requests run.pull_requests));
}

unfoldable pub transform_workflow :
    (List Text → List Text)
    → (Text → Text → Text → Text → Option (List Text))
    → Bool
    → WorkflowRun
    → Option JiraBuild
transform_workflow uniq compare always_send run =
    let issue_keys = issue_key_parser uniq (searched_text compare run) in
    if is_empty issue_keys && not always_send then none else some (workflow_build run issue_keys)
