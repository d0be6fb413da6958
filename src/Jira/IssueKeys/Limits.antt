-- ===== src/Jira/IssueKeys/Limits.antt =====
-- That src/jira/client/jira-client.ts keeps to the limit on issue keys.
use github_for_jira.Base.{
  length-map, map_option, ℕ, ◌≤◌, ◌≡◌, refl, sym, ap, ◌∙◌, ◌⊎◌, inl, inr, true, false, ◌&&◌, List,
  [], ◌∷◌, map, String, Option, none, some, arith, ◌==◌, if◌then◌else◌, Bool-cases, Option-cases,
  find, length, le→leb, length-take_le, subst,
}
use github_for_jira.Jira.IssueKeys.{
  issue_key_api_limit, JiraAssociation, IssueKeyObject, Branch, Repository,
  is_issue_key_association, find_issue_key_association, key_count, value_count, issue_key_count,
  within_issue_key_limit, truncate, update_first, update_object, update_issue_keys_for,
  update_branch, update_repository_issue_keys, repository_within_limit, prepare_update,
  prepare_submit,
}

find-update_first :
    (func : List String → List String) (l : List JiraAssociation)
    → find is_issue_key_association (update_first func l)
      ≡ map_option
          (λ (a : JiraAssociation). record a { values = func a.values })
          (find is_issue_key_association l)
unfolding update_first
find-update_first func [] = refl
find-update_first func (a ∷ as_) =
    let ih = find-update_first func as_ in
    elim (Bool-cases (is_issue_key_association a)) [
      | inl hit ↦ rw hit (rw hit refl)
      | inr miss ↦ rw miss (rw miss ih)
    ]

truncated-association :
    (r : IssueKeyObject)
    → find_issue_key_association (update_object truncate r)
      ≡ map_option
          (λ (a : JiraAssociation). record a { values = truncate a.values })
          (find_issue_key_association r)
unfolding update_object find_issue_key_association
truncated-association r = elim (Option-cases r.associations) [
  | inl none_ ↦ rw none_ refl
  | inr (l, some_) ↦ rw some_ (find-update_first truncate l)
]

truncate_le : (ks : List String) → length (truncate ks) ≤ issue_key_api_limit
unfolding truncate
truncate_le ks = length-take_le issue_key_api_limit ks

value_count_le :
    (o : Option JiraAssociation)
    → value_count (map_option (λ (a : JiraAssociation). record a { values = truncate a.values }) o)
      ≤ issue_key_api_limit
value_count_le none = omega arith
value_count_le (some a) = truncate_le a.values

key_count_le : (o : Option (List String)) → key_count (map_option truncate o) ≤ issue_key_api_limit
key_count_le none = omega arith
key_count_le (some ks) = truncate_le ks

either_le : (x y n : ℕ) → x ≤ n → y ≤ n → (if x == 0 then y else x) ≤ n
either_le x y n hx hy = ground arith

truncated-count :
    (r : IssueKeyObject) → issue_key_count (update_object truncate r) ≤ issue_key_api_limit
unfolding issue_key_count update_object
truncated-count r = either_le _ _ issue_key_api_limit (key_count_le r.issue_keys) (
    subst (λ o. value_count o ≤ issue_key_api_limit) (sym (truncated-association r))
      (value_count_le (find_issue_key_association r)))

truncated-within :
    (rs : List IssueKeyObject)
    → within_issue_key_limit (some (update_issue_keys_for truncate rs)) ≡ true
unfolding within_issue_key_limit update_issue_keys_for
truncated-within [] = refl
truncated-within (r ∷ rs) =
    let ih = truncated-within rs in
    let h = truncated-count r in
    rw (le→leb (issue_key_count (update_object truncate r)) issue_key_api_limit h) ih

within-map_option :
    (o : Option (List IssueKeyObject))
    → within_issue_key_limit (map_option (update_issue_keys_for truncate) o) ≡ true
unfolding within_issue_key_limit
within-map_option none = refl
within-map_option (some rs) = truncated-within rs

within-branches :
    (bs : List Branch)
    → within_issue_key_limit (some (map (λ b. b.object) (map (update_branch truncate) bs))) ≡ true
unfolding within_issue_key_limit update_branch
within-branches [] = refl
within-branches (b ∷ bs) =
    let ih = within-branches bs in
    rw
      (le→leb (issue_key_count (update_object truncate b.object)) issue_key_api_limit
        (truncated-count b.object))
      ih

truncated-repository :
    (r : Repository) → repository_within_limit (update_repository_issue_keys truncate r) ≡ true
unfolding repository_within_limit update_repository_issue_keys
truncated-repository r =
    rw (within-map_option r.commits, within-map_option r.pull_requests) (branches r.branches)
  where
    branches :
        (o : Option (List Branch))
        → (true
            && within_issue_key_limit
                (map_option (map (λ b. b.object)) (map_option (map (update_branch truncate)) o))
            && true)
          ≡ true
    branches none = refl
    branches (some bs) = ap (λ b. b && true) (within-branches bs)

-- The repository that is sent has at most 500 issue keys for each commit, branch and pull request.
-- It is the one without repeats, or that with its issue keys truncated and with the warning.
pub prepare_update-within_limit :
    (uniq : List String → List String) (r : Repository)
    → let sent = prepare_update uniq r in
      let deduped = update_repository_issue_keys uniq r in
      (repository_within_limit sent.0 ≡ true)
      × (((sent.0 ≡ deduped) × (sent.1 ≡ false))
          ⊎ ((sent.0 ≡ update_repository_issue_keys truncate deduped) × (sent.1 ≡ true)))
unfolding prepare_update
prepare_update-within_limit uniq r =
    let deduped = update_repository_issue_keys uniq r in
    elim (Bool-cases (repository_within_limit deduped)) [
      | inl fits ↦ rw (fits, prepare_update) (fits, inl (refl, refl))
      | inr too_many ↦
          rw (too_many, prepare_update) (truncated-repository deduped, inr (refl, refl))
    ]

-- The builds or deployments that are sent are as many as were given, each with at most 500 issue
-- keys: those without repeats, or those with their issue keys truncated and with the warning.
pub prepare_submit-within_limit :
    (uniq : List String → List String) (rs : List IssueKeyObject)
    → let sent = prepare_submit uniq rs in
      let deduped = update_issue_keys_for uniq rs in
      (within_issue_key_limit (some sent.0) ≡ true)
      × ((length sent.0 ≡ length rs)
          × (((sent.0 ≡ deduped) × (sent.1 ≡ false))
              ⊎ ((sent.0 ≡ update_issue_keys_for truncate deduped) × (sent.1 ≡ true))))
unfolding prepare_submit update_issue_keys_for
prepare_submit-within_limit uniq rs =
    let deduped = update_issue_keys_for uniq rs in
    let same = length-map (update_object uniq) rs in
    elim (Bool-cases (within_issue_key_limit (some deduped))) [
      | inl fits ↦ rw (fits, prepare_submit) (fits, (same, inl (refl, refl)))
      | inr too_many ↦
          rw (too_many, prepare_submit)
            (
              truncated-within deduped,
              (length-map (update_object truncate) deduped ∙ same, inr (refl, refl)),
            )
    ]
