-- ===== src/Sync/Pages/Builds.antt =====
-- src/sync/build.ts: the task that fetches a page of a repository's workflow runs, or several at once, and
-- turns them into builds. The requests to GitHub and lodash's `uniq` are parameters.
pub mod Places
pub mod Steps
pub mod Walk
use github_for_jira.Base.{
  ℕ, ◌+◌, ◌⊎◌, inl, inr, Bool, false, List, [], ◌∷◌, Option, none, some, leb, ltb, all,
  if◌then◌else◌, is_empty, Text,
}
use github_for_jira.Github.Errors.{Error}
use github_for_jira.Sync.Cursor.{
  PageSizeAwareCounterCursor, SerialisedCursor, new_cursor, scale, copy_with_page_no, serialise,
}
use github_for_jira.Transforms.Repository.{
  TransformError, request_failed, invalid_url, Repository, transform_repository_dev_info_bulk,
}
use github_for_jira.Transforms.Workflow.{WorkflowRun, JiraBuild, transform_workflow}
use github_for_jira.Sync.Pages.{PageResult, fetch_next_pages_in_parallel}

pub record ListedRun : Type 0 where
  pub run : WorkflowRun
  pub created_at : ℕ

pub record BuildWithCursor : Type 0 where
  pub workflow_runs : List ListedRun
  pub cursor : SerialisedCursor

-- What a task depends on: the feature flags, the repository, the base URL of GitHub, and what GitHub answers:
-- a page of runs by its size and number, and the messages between two references.
pub record BuildServices : Type 0 where
  pub uniq : List Text → List Text
  pub always_send : Bool
  pub host_and_path : Text → Option Text
  pub base_url : Option Text
  pub repository : Repository
  pub compare : Text → Text → Text → Text → Option (List Text)
  pub list_workflow_runs : ℕ → ℕ → Error ⊎ List ListedRun

unfoldable pub get_transformed_builds : BuildServices → List ListedRun → List JiraBuild
get_transformed_builds sv [] = []
get_transformed_builds sv (r ∷ rs) =
    let rest = get_transformed_builds sv rs in
    elim (transform_workflow sv.uniq sv.compare sv.always_send r.run) [
      | none ↦ rest
      | some b ↦ b ∷ rest
    ]

abbrev pub are_all_builds_earlier_than_from_date : List ListedRun → Option ℕ → Bool
are_all_builds_earlier_than_from_date builds none = false
are_all_builds_earlier_than_from_date builds (some from_date) =
    all (λ (b : ListedRun). ltb b.created_at from_date) builds

-- What a page that GitHub answered becomes.
unfoldable pub page_of_runs :
    BuildServices
    → Option ℕ
    → PageSizeAwareCounterCursor
    → List ListedRun
    → TransformError ⊎ PageResult BuildWithCursor
unfolding copy_with_page_no serialise
page_of_runs sv from_date c runs =
    let next_page_cursor = serialise (copy_with_page_no (c.page_no + 1) c) in
    let edges = record { workflow_runs = runs; cursor = next_page_cursor } ∷ [] in
    let builds = get_transformed_builds sv runs in
    if are_all_builds_earlier_than_from_date runs from_date
    then inr (record { edges = []; jira_payload = none })
    else if is_empty runs
    then inr (record { edges = []; jira_payload = none })
    else if is_empty builds
    then inr (record { edges = edges; jira_payload = none })
    else elim (transform_repository_dev_info_bulk sv.host_and_path sv.repository sv.base_url) [
      | none ↦ inl invalid_url
      | some info ↦ inr (record {
        edges = edges;
        jira_payload = some (record { repository = info; pull_requests = []; builds = builds });
      })
    ]

unfoldable pub do_get_build_task :
    BuildServices
    → Option ℕ
    → PageSizeAwareCounterCursor
    → TransformError ⊎ PageResult BuildWithCursor
unfolding page_of_runs
do_get_build_task sv from_date c = elim (sv.list_workflow_runs c.per_page c.page_no) [
  | inl e ↦ inl (request_failed e)
  | inr runs ↦ page_of_runs sv from_date c runs
]

-- `in_parallel` is the feature flag's number of pages.
unfoldable pub get_build_task :
    BuildServices
    → ℕ
    → Option ℕ
    → SerialisedCursor
    → ℕ
    → TransformError ⊎ PageResult BuildWithCursor
unfolding do_get_build_task new_cursor scale fetch_next_pages_in_parallel
get_build_task sv in_parallel from_date cursor per_page =
    let smart_cursor = scale per_page (new_cursor cursor) in
    if leb in_parallel 1
    then do_get_build_task sv from_date smart_cursor
    else fetch_next_pages_in_parallel in_parallel smart_cursor (do_get_build_task sv from_date)
