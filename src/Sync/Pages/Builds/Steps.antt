-- ===== src/Sync/Pages/Builds/Steps.antt =====
-- The pages of a repository's workflow runs one after the other, each with the cursor of the last edge before
-- (src/sync/build.ts, src/sync/parallel-page-fetcher.ts).
use github_for_jira.Base.{
  ℕ, zero, suc, ◌+◌, ◌-◌, ◌*◌, ◌<◌, ◌≡◌, refl, sym, ap, ◌∙◌, inl, inr, List, [], ◌∷◌, ◌++◌, map,
  none, some, arith, is_empty, Bool-cases, take, drop, length, leb,
}
use github_for_jira.Sync.Cursor.{
  PageSizeAwareCounterCursor, SerialisedCursor, json, new_cursor, scale, copy_with_page_no,
  serialise,
}
use github_for_jira.Transforms.Repository.{RepositoryInfo, transform_repository_dev_info_bulk}
use github_for_jira.Transforms.Workflow.{JiraBuild}
use github_for_jira.Sync.Pages.{
  PageResult, builds_of, merge_jira_payload, page_cursors, no_pages, join_pages,
  fetch_next_pages_in_parallel,
}
use github_for_jira.Sync.Pages.Joining.{
  is_empty-nil, builds_of-merge_jira_payload, take-nil, take-cons,
}
use github_for_jira.Sync.Pages.Builds.Places
use github_for_jira.Sync.Pages.Builds.{
  ListedRun, BuildWithCursor, BuildServices, get_transformed_builds, page_of_runs,
  do_get_build_task, get_build_task,
}

module _ (sv : BuildServices) (p : ℕ) (runs : List ListedRun) (info : RepositoryInfo) where
  abbrev pub rest_at : ℕ → List ListedRun
  rest_at = Places.rest_at sv p runs info

  abbrev pub page_at : ℕ → List ListedRun
  page_at = Places.page_at sv p runs info

  abbrev pub cursor_at : ℕ → PageSizeAwareCounterCursor
  cursor_at = Places.cursor_at sv p runs info

  abbrev all_builds : List ListedRun → List JiraBuild
  all_builds = get_transformed_builds sv

  abbrev IsPage : ℕ → PageResult BuildWithCursor → Type 0
  IsPage = Places.IsPage sv p runs info

  abbrev pub Inv : ℕ → ℕ → List BuildWithCursor → List JiraBuild → Type 0
  Inv = Places.Inv sv p runs info

  module _
      (made : transform_repository_dev_info_bulk sv.host_and_path sv.repository sv.base_url
        ≡ some info)
      (0<p : 0 < p)
      (listed : (page_no : ℕ)
        → sv.list_workflow_runs p page_no ≡ inr (take p (drop ((page_no - 1) * p) runs))) where
    page_of_runs-IsPage :
        (j : ℕ)
        → (r : PageResult BuildWithCursor) × (page_of_runs sv none (cursor_at j) (page_at j)
            ≡ inr r)
          × IsPage j r
    unfolding page_of_runs copy_with_page_no serialise
    page_of_runs-IsPage j = elim (Bool-cases (is_empty (page_at j))) [
      | inl nothing ↦ (
        no_pages,
        rw (nothing, page_of_runs) refl,
        inl (refl, take-nil p (rest_at j) 0<p nothing, refl),
      )
      | inr some_runs ↦
          let e : BuildWithCursor = record {
            workflow_runs = page_at j;
            cursor = json p (j + 1 + 1);
          } in
          let more : 0 < length (rest_at j) = take-cons p (rest_at j) some_runs in
          elim (Bool-cases (is_empty (all_builds (page_at j)))) [
            | inl no_builds ↦ (
              record { edges = e ∷ []; jira_payload = none },
              rw (some_runs, page_of_runs) (rw no_builds refl),
              inr (e, refl, refl, sym (is_empty-nil (all_builds (page_at j)) no_builds), more),
            )
            | inr builds ↦ (
              record {
                edges = e ∷ [];
                jira_payload = some (record {
                  repository = info;
                  pull_requests = [];
                  builds = all_builds (page_at j);
                });
              },
              rw (some_runs, page_of_runs) (rw (builds, made) refl),
              inr (e, refl, refl, refl, more),
            )
          ]
    ]

    do_get_build_task-IsPage :
        (j : ℕ) (c : PageSizeAwareCounterCursor)
        → c ≡ cursor_at j
        → (r : PageResult BuildWithCursor) × (do_get_build_task sv none c ≡ inr r) × IsPage j r
    unfolding do_get_build_task
    do_get_build_task-IsPage j c at_j =
        let (r, made_r, is_page) = page_of_runs-IsPage j in
        let one : j + 1 - 1 ≡ j = omega arith in
        let e : (j + 1 - 1) * p ≡ j * p = ap (λ k. k * p) one in
        let answer : sv.list_workflow_runs p (j + 1) ≡ inr (page_at j) =
          listed (j + 1) ∙ ap (λ k. inr (take p (drop k runs))) e in
        let there : do_get_build_task sv none (cursor_at j) ≡ inr r =
          rw (answer, do_get_build_task) made_r in
        (r, ap (do_get_build_task sv none) at_j ∙ there, is_page)

    join_pages-Inv :
        (s n i : ℕ) (prev : PageResult BuildWithCursor)
        → Inv s (s + i) prev.edges (builds_of prev.jira_payload)
        → (r : PageResult BuildWithCursor) × (join_pages prev
              (map (do_get_build_task sv none) (page_cursors n i (cursor_at s)))
            ≡ inr r)
          × Inv s (s + i + n) r.edges (builds_of r.jira_payload)
    unfolding join_pages copy_with_page_no
    join_pages-Inv s zero i prev inv =
        let e : s + i + 0 ≡ s + i = omega arith in (prev, refl, rw e inv)
    join_pages-Inv s (suc n) i prev inv =
        let c = copy_with_page_no (s + 1 + i) (cursor_at s) in
        let e : s + 1 + i ≡ s + i + 1 = omega arith in
        let at_i : c ≡ cursor_at (s + i) = ap (λ k. record { per_page = p; page_no = k }) e in
        let (page, fetched, is_page) = do_get_build_task-IsPage (s + i) c at_i in
        let next : PageResult BuildWithCursor = record {
          edges = prev.edges ++ page.edges;
          jira_payload = merge_jira_payload prev.jira_payload page.jira_payload;
        } in
        let sum = builds_of-merge_jira_payload prev.jira_payload page.jira_payload in
        let added =
          Places.Inv-add_page sv p runs info s (s + i) prev.edges (builds_of prev.jira_payload) page
            0<p is_page inv in
        let there : s + i + 1 ≡ s + (i + 1) = omega arith in
        let inv' : Inv s (s + (i + 1)) next.edges (builds_of next.jira_payload) =
          rw (sum, (sym there)) added in
        let (r, joined, done) = join_pages-Inv s n (i + 1) next inv' in
        let far : s + (i + 1) + n ≡ s + i + suc n = omega arith in
        (r, rw fetched joined, rw (sym far) done)

    pub get_build_task-Inv :
        (n k : ℕ) (cursor : SerialisedCursor)
        → scale p (new_cursor cursor) ≡ cursor_at k
        → (r : PageResult BuildWithCursor) × (m : ℕ) × (get_build_task sv n none cursor p ≡ inr r)
          × (0 < m)
          × Inv k (k + m) r.edges (builds_of r.jira_payload)
    unfolding get_build_task fetch_next_pages_in_parallel
    get_build_task-Inv n k cursor at_k =
        let start : Inv k (k + 0) [] [] =
          let e : k + 0 ≡ k = omega arith in rw e (refl, inl (refl, refl, inl refl)) in
        elim (Bool-cases (leb n 1)) [
          | inl alone ↦
              let (r, fetched, is_page) = do_get_build_task-IsPage k (cursor_at k) refl in
              let e : k + 0 ≡ k = omega arith in
              (
                r,
                1,
                rw (alone, get_build_task) (ap (do_get_build_task sv none) at_k ∙ fetched),
                omega arith,
                Places.Inv-add_page sv p runs info k k [] [] r 0<p is_page (rw e at start),
              )
          | inr many ↦
              let (r, joined, inv) = join_pages-Inv k n 0 no_pages start in
              let e : k + 0 + n ≡ k + n = omega arith in
              (
                r,
                n,
                rw (many, get_build_task)
                    (ap (λ c. fetch_next_pages_in_parallel n c (do_get_build_task sv none)) at_k
                      ∙ joined),
                ground arith,
                rw e at inv,
              )
        ]
