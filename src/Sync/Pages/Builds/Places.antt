-- ===== src/Sync/Pages/Builds/Places.antt =====
-- What is left of a repository's workflow runs behind each page, and what the pages so far leave to do
-- (src/sync/build.ts, src/sync/parallel-page-fetcher.ts).
use github_for_jira.Base.{
  ℕ, ◌+◌, ◌*◌, ◌≤◌, ◌<◌, ◌≡◌, refl, sym, ap, ◌∙◌, ◌⊎◌, inl, inr, List, [], ◌∷◌, ◌++◌, none, some,
  arith, last?, take, drop, length, length-drop, take-append-drop,
}
use github_for_jira.Sync.Cursor.{PageSizeAwareCounterCursor, json}
use github_for_jira.Transforms.Repository.{RepositoryInfo}
use github_for_jira.Transforms.Workflow.{JiraBuild, transform_workflow}
use github_for_jira.Sync.Pages.{PageResult, builds_of}
use github_for_jira.Sync.Pages.Joining.{append-nil, append_assoc, drop-nil, drop-drop, last?-append}
use github_for_jira.Sync.Pages.Builds.{
  ListedRun, BuildWithCursor, BuildServices, get_transformed_builds,
}

get_transformed_builds-append :
    (sv : BuildServices) (xs ys : List ListedRun)
    → get_transformed_builds sv (xs ++ ys)
      ≡ get_transformed_builds sv xs ++ get_transformed_builds sv ys
unfolding get_transformed_builds
get_transformed_builds-append sv [] ys = refl
get_transformed_builds-append sv (x ∷ xs) ys =
    let ih = get_transformed_builds-append sv xs ys in
    elim (transform_workflow sv.uniq sv.compare sv.always_send x.run)
      as (λ o.
        elim o as (λ p. List JiraBuild) [
          | none ↦ get_transformed_builds sv (xs ++ ys)
          | some b ↦ b ∷ get_transformed_builds sv (xs ++ ys)
        ]
        ≡ elim o as (λ p. List JiraBuild) [
          | none ↦ get_transformed_builds sv xs
          | some b ↦ b ∷ get_transformed_builds sv xs
        ]
          ++ get_transformed_builds sv ys) [ none ↦ ih | some b ↦ ap (λ bs. b ∷ bs) ih ]

module _ (sv : BuildServices) (p : ℕ) (runs : List ListedRun) (info : RepositoryInfo) where
  -- What is left from page `j + 1` on, and that page.
  abbrev pub rest_at : ℕ → List ListedRun
  rest_at j = drop (j * p) runs

  abbrev pub page_at : ℕ → List ListedRun
  page_at j = take p (rest_at j)

  abbrev pub all_builds : List ListedRun → List JiraBuild
  all_builds rs = get_transformed_builds sv rs

  -- What the task makes of page `j + 1`.
  abbrev pub IsPage : ℕ → PageResult BuildWithCursor → Type 0
  IsPage j r =
      ((r.edges ≡ []) × (rest_at j ≡ []) × (builds_of r.jira_payload ≡ []))
      ⊎ ((e : BuildWithCursor) × (r.edges ≡ e ∷ [])
          × (e.cursor ≡ json p (j + 1 + 1))
          × (builds_of r.jira_payload ≡ all_builds (page_at j))
          × (0 < length (rest_at j)))

  rest_at-suc : (j : ℕ) → rest_at (j + 1) ≡ drop p (rest_at j)
  rest_at-suc j =
      let e : (j + 1) * p ≡ j * p + p = omega arith in
      ap (λ k. drop k runs) e ∙ sym (drop-drop p (j * p) runs)

  builds_at :
      (j : ℕ) → all_builds (rest_at j) ≡ all_builds (page_at j) ++ all_builds (rest_at (j + 1))
  builds_at j =
      ap all_builds (sym (take-append-drop p (rest_at j)))
      ∙ get_transformed_builds-append sv (page_at j) (drop p (rest_at j))
      ∙ ap (λ r. all_builds (page_at j) ++ all_builds r) (sym (rest_at-suc j))

  shorter : (j : ℕ) → 0 < p → 0 < length (rest_at j) → length (rest_at (j + 1)) < length (rest_at j)
  shorter j h k = let l = length-drop p (rest_at j) in rw (rest_at-suc j) (omega (arith, l, h, k))

  -- What the pages from `s + 1` to `j`, with their edges and builds, leave to do: nothing is lost, and
  -- the cursor of the last edge, if there is one, points behind them.
  abbrev pub Inv : ℕ → ℕ → List BuildWithCursor → List JiraBuild → Type 0
  Inv s j edges builds =
      (builds ++ all_builds (rest_at j) ≡ all_builds (rest_at s))
      × (((edges ≡ []) × (rest_at j ≡ rest_at s) × ((j ≡ s) ⊎ (rest_at s ≡ [])))
          ⊎ ((e : BuildWithCursor) × (k : ℕ) × (last? edges ≡ some e)
              × (e.cursor ≡ json p (k + 1))
              × (rest_at k ≡ rest_at j)
              × (length (rest_at k) < length (rest_at s))))

  pub Inv-add_page :
      (s j : ℕ) (edges : List BuildWithCursor) (builds : List JiraBuild)
      (r : PageResult BuildWithCursor)
      → 0 < p
      → IsPage j r
      → Inv s j edges builds
      → Inv s (j + 1) (edges ++ r.edges) (builds ++ builds_of r.jira_payload)
  Inv-add_page s j edges builds r h (inl (no_edges, no_rest, no_builds)) (same, left) =
      let still : rest_at (j + 1) ≡ rest_at j =
        rest_at-suc j ∙ ap (drop p) no_rest ∙ drop-nil p ∙ sym no_rest in
      rw (no_edges, no_builds, append-nil edges, append-nil builds, still)
        (
          same,
          elim left [
            | inl (none_yet, rest, place) ↦ inl (none_yet, rest, inr (sym rest ∙ no_rest))
            | inr (e, k, last, cursor, rest, less) ↦ inr (e, k, last, cursor, rest, less)
          ],
        )
  Inv-add_page s j edges builds r h (inr (e, one_edge, cursor, its_builds, more)) (same, left) =
      let below : length (rest_at j) ≤ length (rest_at s) = elim left [
        | inl (none_yet, rest, place) ↦ let l = ap length rest in omega (arith, l)
        | inr (f, k, last, c, rest, less) ↦ let l = ap length rest in omega (arith, l, less)
      ] in
      (
        ap (λ bs. (builds ++ bs) ++ all_builds (rest_at (j + 1))) its_builds
            ∙ append_assoc builds (all_builds (page_at j)) (all_builds (rest_at (j + 1)))
            ∙ ap (λ bs. builds ++ bs) (sym (builds_at j))
            ∙ same,
        inr (
          e,
          j + 1,
          ap last? (ap (λ es. edges ++ es) one_edge) ∙ last?-append edges e,
          cursor,
          refl,
          (let l = shorter j h more in omega (arith, l, below)),
        ),
      )

  abbrev pub cursor_at : ℕ → PageSizeAwareCounterCursor
  cursor_at j = record { per_page = p; page_no = j + 1 }
