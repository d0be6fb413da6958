-- ===== src/Transforms/PullRequest/Rest.antt =====
-- When a pull request is sent to Jira, and with what (src/transforms/transform-pull-request.ts).
use github_for_jira.Base.{
  map, [], ◌∷◌, ◌≡◌, refl, subst, ◌⊎◌, inl, inr, Bool, true, false, ◌||◌, ◌&&◌, not, List, Option,
  none, some, if◌then◌else◌, is_empty, is_some, Bool-cases, Option-cases, length, All, Text,
}
use github_for_jira.Transforms.Author.{Author}
use github_for_jira.Transforms.PullRequest.Reviews.{Review}
use github_for_jira.Transforms.Repository.{
  TransformError, invalid_url, RepositoryInfo, transform_repository_dev_info_bulk,
}
use github_for_jira.Transforms.PullRequest.{
  PullRequest, JiraPullRequest, BulkSubmitData, is_merged, map_status,
  extract_issue_keys_from_pr_rest, get_branches, pull_request_data, transform_pull_request_rest,
}

module _ (uniq : List Text → List Text) (user_of : Text → Option Author)
    (host_and_path : Text → Option Text) (base_url : Option Text) (always_send : Bool)
    (reviews : List Review) (p : PullRequest) where
  abbrev keys : List Text
  keys = extract_issue_keys_from_pr_rest uniq p

  abbrev answer : TransformError ⊎ Option BulkSubmitData
  answer = transform_pull_request_rest uniq user_of host_and_path base_url always_send reviews p

  abbrev info : Option RepositoryInfo
  info = transform_repository_dev_info_bulk host_and_path p.base_repo base_url

  abbrev is_left_out : Bool
  is_left_out = not (is_some p.head_repo_url) || (is_empty keys && not always_send)

  branches-keys :
      (head_url : Text)
      → (length (get_branches uniq user_of p head_url keys)
          ≡ (if is_merged (map_status p.state p.is_draft p.merged_at) then 0 else 1))
        × All (λ b. b.issue_keys ≡ keys) (get_branches uniq user_of p head_url keys)
  unfolding get_branches
  branches-keys head_url =
      elim (Bool-cases (is_merged (map_status p.state p.is_draft p.merged_at))) [
        | inl gone ↦ rw (gone, get_branches) (refl, tt)
        | inr there ↦ rw (there, get_branches) (refl, (refl, tt))
      ]

  -- The answers that the pull request may get.
  abbrev pub IsAnswer : TransformError ⊎ Option BulkSubmitData → Type 0
  IsAnswer (inl e) = (is_left_out ≡ false) × (info ≡ none) × (e ≡ invalid_url)
  IsAnswer (inr none) = is_left_out ≡ true
  IsAnswer (inr (some sent)) =
      (is_left_out ≡ false)
      × (info ≡ some sent.repository)
      × (map (λ (q : JiraPullRequest). q.issue_keys) sent.pull_requests ≡ keys ∷ [])
      × All (λ b. b.issue_keys ≡ keys) sent.branches
      × (length sent.branches
          ≡ (if is_merged (map_status p.state p.is_draft p.merged_at) then 0 else 1))

  -- A pull request is left out exactly when its repository is gone, or no issue key is in its title, its
  -- branch's name and its text and not all are to be sent. Otherwise the transform fails for a base URL
  -- that is refused, and sends the pull request with its issue keys and, unless it is merged, with its
  -- branch, which has the same issue keys.
  pub transform_pull_request_rest-IsAnswer : IsAnswer answer
  unfolding transform_pull_request_rest pull_request_data
  transform_pull_request_rest-IsAnswer = elim (Option-cases p.head_repo_url) [
    | inl gone ↦
        let e : inr none ≡ answer = rw (gone, transform_pull_request_rest) refl in
        subst IsAnswer e (rw gone refl)
    | inr (head_url, there) ↦ elim (Bool-cases (is_empty keys && not always_send)) [
      | inl no_keys ↦
          let e : inr none ≡ answer = rw (there, transform_pull_request_rest) (rw no_keys refl) in
          subst IsAnswer e (rw (there, no_keys) refl)
      | inr has_keys ↦ elim (Option-cases info) [
        | inl refused ↦
            let e : inl invalid_url ≡ answer =
              rw (there, transform_pull_request_rest) (rw (has_keys, refused) refl) in
            subst IsAnswer e (rw (there, has_keys) refl, refused, refl)
        | inr (i, made) ↦
            let (count, same) = branches-keys head_url in
            let sent = pull_request_data uniq user_of reviews p head_url keys i in
            let e : inr (some sent) ≡ answer =
              rw (there, transform_pull_request_rest) (rw (has_keys, made) refl) in
            subst IsAnswer e (rw (there, has_keys) refl, made, refl, same, count)
      ]
    ]
  ]
