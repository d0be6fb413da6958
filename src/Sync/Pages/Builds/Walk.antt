-- ===== src/Sync/Pages/Builds/Walk.antt =====
-- All pages of a repository's workflow runs: the builds that Jira gets are those of the whole list
-- (src/sync/build.ts, src/sync/parallel-page-fetcher.ts).
use github_for_jira.Base.{
  ℕ, zero, suc, ◌+◌, ◌-◌, ◌*◌, ◌/◌, ◌<◌, ◌≡◌, refl, ap, ◌⊎◌, inl, inr, List, [], ◌++◌, Option, none,
  some, arith, Bool-cases, last?, take, drop, ◌==◌, ==_iff,
}
use github_for_jira.Sync.Cursor.{SerialisedCursor, missing, json, new_cursor, scale}
use github_for_jira.Transforms.Repository.{
  TransformError, RepositoryInfo, transform_repository_dev_info_bulk,
}
use github_for_jira.Transforms.Workflow.{JiraBuild}
use github_for_jira.Sync.Pages.{builds_of}
use github_for_jira.Sync.Pages.Builds.{ListedRun, BuildServices, get_build_task}
use github_for_jira.Sync.Pages.Builds.Steps.{rest_at}

-- The builds that Jira gets when the task is run again and again, each time with the cursor of the last
-- edge before, until there is no edge; `n` is the number of pages at once, `p` their size.
pub backfill_builds :
    BuildServices → ℕ → Option ℕ → ℕ → ℕ → SerialisedCursor → TransformError ⊎ List JiraBuild
backfill_builds sv n from_date p zero cursor = inr []
backfill_builds sv n from_date p (suc fuel) cursor = elim (get_build_task sv n from_date cursor p) [
  | inl e ↦ inl e
  | inr r ↦ elim (last? r.edges) [
    | none ↦ inr (builds_of r.jira_payload)
    | some edge ↦ elim (backfill_builds sv n from_date p fuel edge.cursor) [
      | inl e ↦ inl e
      | inr rest ↦ inr (builds_of r.jira_payload ++ rest)
    ]
  ]
]

pub scale_json :
    (p j : ℕ) → scale p (new_cursor (json p (j + 1))) ≡ record { per_page = p; page_no = j + 1 }
unfolding scale new_cursor
scale_json p j = let e = (==_iff p p).1 refl in rw e refl

pub scale_missing :
    (p : ℕ) → 0 < p → scale p (new_cursor missing) ≡ record { per_page = p; page_no = 0 + 1 }
unfolding scale new_cursor
scale_missing p h = elim (Bool-cases (20 == p)) [
  | inl e ↦ rw e (ap (λ q. record { per_page = q; page_no = 1 }) ((==_iff 20 p).0 e))
  | inr e ↦
      let z : 0 / p ≡ 0 = omega (arith, h) in
      rw e (ap (λ q. record { per_page = p; page_no = q + 1 }) z)
]

module _ (sv : BuildServices) (n p : ℕ) (runs : List ListedRun) (info : RepositoryInfo)
    (made : transform_repository_dev_info_bulk sv.host_and_path sv.repository sv.base_url
      ≡ some info)
    (0<p : 0 < p)
    (listed : (page_no : ℕ)
      → sv.list_workflow_runs p page_no ≡ inr (take p (drop ((page_no - 1) * p) runs))) where
  abbrev rest : ℕ → List ListedRun
  rest j = rest_at sv p runs info j
