-- ===== src/Sync/Pages.antt =====
-- What the tasks of the backfill fetch: a page of GitHub's data and its form for Jira. Here the fetch of
-- several pages at once, src/sync/parallel-page-fetcher.ts.
pub mod Joining
pub mod Builds
pub mod Alerts
use github_for_jira.Base.{
  ℕ, zero, suc, ◌+◌, ◌⊎◌, inl, inr, ◌&&◌, List, [], ◌∷◌, ◌++◌, map, Option, none, some,
  if◌then◌else◌, is_empty, or_else,
}
use github_for_jira.Sync.Cursor.{PageSizeAwareCounterCursor, copy_with_page_no}
use github_for_jira.Transforms.Repository.{TransformError, RepositoryInfo}
use github_for_jira.Transforms.PullRequest.{JiraPullRequest}
use github_for_jira.Transforms.Workflow.{JiraBuild}

-- What Jira gets; a list that is missing is empty.
pub record BackfillPayload : Type 0 where
  pub repository : RepositoryInfo
  pub pull_requests : List JiraPullRequest
  pub builds : List JiraBuild

pub record PageResult (E : Type 0) : Type 0 where
  pub edges : List E
  pub jira_payload : Option BackfillPayload

abbrev pub pull_requests_of : Option BackfillPayload → List JiraPullRequest
pull_requests_of none = []
pull_requests_of (some p) = p.pull_requests

abbrev pub builds_of : Option BackfillPayload → List JiraBuild
builds_of none = []
builds_of (some p) = p.builds

-- The repository is that of the first payload that is there.
unfoldable pub merge_jira_payload :
    Option BackfillPayload → Option BackfillPayload → Option BackfillPayload
merge_jira_payload a b = elim (or_else a b) [
  | none ↦ none
  | some first ↦
      let pull_requests = pull_requests_of a ++ pull_requests_of b in
      let builds = builds_of a ++ builds_of b in
      if is_empty pull_requests && is_empty builds
      then none
      else some
          (record { repository = first.repository; pull_requests = pull_requests; builds = builds })
]

-- The cursors of the pages: `index` is the number of those before.
abbrev pub page_cursors : ℕ → ℕ → PageSizeAwareCounterCursor → List PageSizeAwareCounterCursor
page_cursors zero index c = []
page_cursors (suc n) index c =
    copy_with_page_no (c.page_no + index) c ∷ page_cursors n (index + 1) c

module _ {E : Type 0} where
  abbrev pub no_pages : PageResult E
  no_pages = record { edges = []; jira_payload = none }

  -- The reduction of what the fetches come to: the error of the first page that failed is thrown.
  unfoldable pub join_pages :
      PageResult E → List (TransformError ⊎ PageResult E) → TransformError ⊎ PageResult E
  join_pages prev [] = inr prev
  join_pages prev (inl e ∷ rs) = inl e
  join_pages prev (inr page ∷ rs) =
      join_pages
        (record {
          edges = prev.edges ++ page.edges;
          jira_payload = merge_jira_payload prev.jira_payload page.jira_payload;
        })
        rs

  unfoldable pub fetch_next_pages_in_parallel :
      ℕ
      → PageSizeAwareCounterCursor
      → (PageSizeAwareCounterCursor → TransformError ⊎ PageResult E)
      → TransformError ⊎ PageResult E
  unfolding join_pages
  fetch_next_pages_in_parallel pages_to_fetch next_page_cursor fetch_page =
      join_pages no_pages (map fetch_page (page_cursors pages_to_fetch 0 next_page_cursor))
