-- ===== src/Transforms/Commit/Kept.antt =====
-- Which commits of a page are sent to Jira (src/transforms/transform-commit.ts).
use github_for_jira.Base.{
  ◌⊎◌, inl, inr, Bool-cases, Option-cases, ℕ, ◌≡◌, refl, sym, ap, ◌∙◌, Bool, true, false, ◌||◌,
  ◌&&◌, not, List, [], ◌∷◌, map, Option, none, some, if◌then◌else◌, filter, is_empty, Text,
}
use github_for_jira.Jira.IssueKeyParser.{issue_key_parser}
use github_for_jira.Transforms.Repository.{
  TransformError, invalid_url, Repository, RepositoryInfo, transform_repository_dev_info_bulk,
}
use github_for_jira.Transforms.Commit.{
  CommitNode, JiraCommit, CommitBulkSubmitData, map_commits, transform_commit,
}

-- The commit has an issue key, or all are to be sent.
abbrev pub is_sent : (List Text → List Text) → Bool → CommitNode → Bool
is_sent uniq always_send c = not (is_empty (issue_key_parser uniq c.message)) || always_send

-- The hash and the issue keys of a commit.
abbrev pub keyed : (List Text → List Text) → CommitNode → Text × List Text
keyed uniq c = (c.oid, issue_key_parser uniq c.message)

of_commit : JiraCommit → Text × List Text
of_commit d = (d.hash, d.issue_keys)

by_test :
    (no_keys always : Bool) (d : JiraCommit) (rest : List JiraCommit)
    → map of_commit
        (elim (if no_keys && not always then none else some d) as (λ x. List JiraCommit) [
          | none ↦ rest
          | some e ↦ e ∷ rest
        ])
      ≡ (if not no_keys || always then of_commit d ∷ map of_commit rest else map of_commit rest)
by_test true true d rest = refl
by_test true false d rest = refl
by_test false true d rest = refl
by_test false false d rest = refl

map-if :
    (f : CommitNode → Text × List Text) (b : Bool) (c : CommitNode) (cs : List CommitNode)
    → map f (if b then c ∷ cs else cs) ≡ (if b then f c ∷ map f cs else map f cs)
map-if f true c cs = refl
map-if f false c cs = refl

is_empty-map : {A B : Type 0} (f : A → B) (xs : List A) → is_empty (map f xs) ≡ is_empty xs
is_empty-map f [] = refl
is_empty-map f (x ∷ xs) = refl

is_empty-nil : {A : Type 0} (xs : List A) → is_empty xs ≡ true → xs ≡ []
is_empty-nil [] h = refl
is_empty-nil (x ∷ xs) h = absurd (cc)

map_commits-keys :
    (uniq : List Text → List Text) (substring : ℕ → Text → Text) (always_send : Bool)
    (cs : List CommitNode)
    → map of_commit (map_commits uniq substring always_send cs)
      ≡ map (keyed uniq) (filter (is_sent uniq always_send) cs)
unfolding map_commits of_commit
map_commits-keys uniq substring always_send [] = refl
map_commits-keys uniq substring always_send (c ∷ cs) =
    by_test (is_empty (issue_key_parser uniq c.message)) always_send _
      (map_commits uniq substring always_send cs)
    ∙ rw (map_commits-keys uniq substring always_send cs) (
        sym (
          map-if (keyed uniq) (is_sent uniq always_send c) c
            (filter (is_sent uniq always_send) cs)))

module _ (uniq : List Text → List Text) (substring : ℕ → Text → Text)
    (host_and_path : Text → Option Text) (base_url : Option Text) (always_send : Bool)
    (repository : Repository) (cs : List CommitNode) where
  abbrev info : Option RepositoryInfo
  info = transform_repository_dev_info_bulk host_and_path repository base_url

  abbrev kept : List CommitNode
  kept = filter (is_sent uniq always_send) cs

  -- The answers that the page may get.
  abbrev pub IsAnswer : TransformError ⊎ Option CommitBulkSubmitData → Type 0
  IsAnswer (inl e) = (is_empty kept ≡ false) × (info ≡ none) × (e ≡ invalid_url)
  IsAnswer (inr none) = kept ≡ []
  IsAnswer (inr (some d)) =
      (is_empty kept ≡ false)
      × (info ≡ some d.repository)
      × (map (λ (c : JiraCommit). (c.hash, c.issue_keys)) d.commits ≡ map (keyed uniq) kept)

  -- The commits that are sent are those with an issue key in their message, or all if all are to be sent,
  -- in their order, each with its hash and the issue keys of its whole message; if there are none,
  -- nothing is sent. Only a base URL that is refused makes the transform fail.
  pub transform_commit-keys :
      IsAnswer (transform_commit uniq substring host_and_path base_url always_send repository cs)
  unfolding transform_commit of_commit
  transform_commit-keys =
      let commits = map_commits uniq substring always_send cs in
      let whole = map_commits-keys uniq substring always_send cs in
      let same : is_empty commits ≡ is_empty kept =
        sym (is_empty-map of_commit commits) ∙ ap is_empty whole ∙ is_empty-map (keyed uniq) kept in
      elim (Bool-cases (is_empty commits)) [
        | inl gone ↦ rw (gone, transform_commit) (is_empty-nil kept (sym same ∙ gone))
        | inr there ↦ elim (Option-cases info) [
          | inl refused ↦ rw (there, refused, transform_commit) (sym same ∙ there, refused, refl)
          | inr (i, made) ↦ rw (there, made, transform_commit) (sym same ∙ there, made, whole)
        ]
      ]
