-- ===== src/Transforms/Push/Fetched.antt =====
-- What fetching the commits of a push in src/transforms/push.ts gives.
use github_for_jira.Base.{
  length-map, ◌≤◌, ◌≡◌, refl, sym, ap, ◌≢◌, ◌⊎◌, inl, inr, ◌&&◌, List, [], ◌∷◌, map, Option, none,
  some, arith, ◌=s=◌, Bool-cases, Option-cases, take, all, length, All, Any, here, there, get_or,
  length-take_le, subst, All-map,
}
use github_for_jira.Github.Errors.{Error}
use github_for_jira.Transforms.Push.{
  Sha, CommitResponse, JiraCommit, present, Push, to_jira_commit, of_response, of_error, of_answer,
  fetch_commit, add_commit, fetch_commits, map_file, GithubCommitFile,
}

present_le : {A : Type 0} (os : List (Option A)) → length (present os) ≤ length os
present_le [] = omega arith
present_le (none ∷ os) = omega (arith, present_le os)
present_le (some a ∷ os) = omega (arith, present_le os)

-- The commit is that of one of the shas, with its issue keys, and has 10 files at most.
pub record IsCommitOf (p : Push) (shas : List Sha) (c : JiraCommit) : Type 0 where
  pub sha : Sha
  pub listed : Any (λ s. s ≡ sha) shas
  pub fetched : fetch_commit p sha ≡ inl (some c)
  pub keys : c.issue_keys ≡ sha.issue_keys
  pub few_files : length c.files ≤ 10

abbrev commit_of : Option JiraCommit ⊎ Error → Option JiraCommit
commit_of (inl o) = o
commit_of (inr e) = none

same_commit :
    (d c : JiraCommit)
    → (_ : Path (Option JiraCommit ⊎ Error) (inl (some d)) (inl (some c))) → d ≡ c
same_commit d c e = ap (λ o. get_or (commit_of o) d) e

few :
    (p : Push) (sha : Sha) (r : CommitResponse) (files : List GithubCommitFile)
    → length (to_jira_commit p sha r files).files ≤ 10
unfolding to_jira_commit
few p sha r files =
    let os = map (λ f. map_file p.cut f p.repo sha.id p.owner_name) (take 10 files) in
    omega (
      arith,
      present_le os,
      length-map (λ f. map_file p.cut f p.repo sha.id p.owner_name) (take 10 files),
      length-take_le 10 files,
    )

keys_of :
    (p : Push) (sha : Sha) (r : CommitResponse) (files : List GithubCommitFile)
    → (to_jira_commit p sha r files).issue_keys ≡ sha.issue_keys
unfolding to_jira_commit
keys_of p sha r files = refl

response-facts :
    (p : Push) (sha : Sha) (r : CommitResponse) (c : JiraCommit)
    → of_response p sha r ≡ inl (some c)
    → (c.issue_keys ≡ sha.issue_keys) × (length c.files ≤ 10)
unfolding of_response
response-facts p sha r c e = elim (Bool-cases (r.sha =s= "")) [
  | inl nothing ↦ absurd (let e' = rw (nothing, of_response) at e in cc)
  | inr known ↦ elim (Option-cases r.files) [
    | inl none_ ↦ absurd (let e' = rw (known, of_response) at e in let e'' = rw none_ at e' in cc)
    | inr (files, some_) ↦
        let e' = rw (known, of_response) at e in
        let e'' = rw some_ at e' in
        let same = same_commit (to_jira_commit p sha r files) c e'' in
        subst (λ d. (d.issue_keys ≡ sha.issue_keys) × (length d.files ≤ 10)) same
          (keys_of p sha r files, few p sha r files)
  ]
]

error-facts : (p : Push) (e : Error) (c : JiraCommit) → of_error p e ≢ inl (some c)
error-facts p e c h = ground arith

answer-facts :
    (p : Push) (sha : Sha) (a : CommitResponse ⊎ Error) (c : JiraCommit)
    → of_answer p sha a ≡ inl (some c)
    → (c.issue_keys ≡ sha.issue_keys) × (length c.files ≤ 10)
answer-facts p sha (inl r) c e = response-facts p sha r c e
answer-facts p sha (inr err) c e = absurd (error-facts p err c e)

fetched-facts :
    (p : Push) (sha : Sha) (c : JiraCommit)
    → fetch_commit p sha ≡ inl (some c)
    → (c.issue_keys ≡ sha.issue_keys) × (length c.files ≤ 10)
unfolding fetch_commit
fetched-facts p sha c e =
    elim (Bool-cases (p.skip_if_issue_not_found && all p.is_missing_issue sha.issue_keys)) [
      | inl skipped ↦ absurd (let e' = rw (skipped, fetch_commit) at e in cc)
      | inr kept ↦
          let e' = rw (kept, fetch_commit) at e in answer-facts p sha (p.get_commit sha.id) c e'
    ]

weaken :
    (p : Push) (s : Sha) (ss : List Sha) (cs : List JiraCommit)
    → All (IsCommitOf p ss) cs
    → All (IsCommitOf p (s ∷ ss)) cs
weaken p s ss cs h =
    All-map
      (λ c k. record {
        sha = k.sha;
        listed = there k.listed;
        fetched = k.fetched;
        keys = k.keys;
        few_files = k.few_files;
      })
      cs h

-- A list of commits that was put together, with its parts.
data IsAdded (o : Option JiraCommit ⊎ Error) (rest : List JiraCommit ⊎ Error) (cs : List JiraCommit)
    : Type 0 where
  left_out : o ≡ inl none → rest ≡ inl cs → IsAdded o rest cs
  taken :
      (d : JiraCommit) (ds : List JiraCommit)
      → o ≡ inl (some d)
      → rest ≡ inl ds
      → cs ≡ d ∷ ds
      → IsAdded o rest cs

abbrev list_of : List JiraCommit ⊎ Error → List JiraCommit
list_of (inl cs) = cs
list_of (inr e) = []

added-of :
    (o : Option JiraCommit ⊎ Error) (rest : List JiraCommit ⊎ Error) (cs : List JiraCommit)
    → add_commit o rest ≡ inl cs
    → IsAdded o rest cs
added-of (inr e) rest cs h = absurd (cc)
added-of (inl c) (inr e) cs h = absurd (cc)
added-of (inl none) (inl ds) cs h = left_out refl h
added-of (inl (some d)) (inl ds) cs h = taken d ds refl refl (ap list_of (sym h))

pub fetch_commits-All :
    (p : Push) (shas : List Sha) (cs : List JiraCommit)
    → fetch_commits p shas ≡ inl cs
    → All (IsCommitOf p shas) cs × (length cs ≤ length shas)
unfolding fetch_commits
fetch_commits-All p [] cs e =
    let same : [] ≡ cs = ap list_of e in
    subst (λ ds. All (IsCommitOf p []) ds × (length ds ≤ 0)) same (tt, omega arith)
fetch_commits-All p (s ∷ ss) cs e = elim (added-of (fetch_commit p s) (fetch_commits p ss) cs e) [
  | left_out none_ rest ↦
      let (h, n) = fetch_commits-All p ss cs rest in (weaken p s ss cs h, omega (arith, n))
  | taken d ds fetched_ rest same ↦
      let (h, n) = fetch_commits-All p ss ds rest in
      let (k, f) = fetched-facts p s d fetched_ in
      rw same (
        (
          record { sha = s; listed = here refl; fetched = fetched_; keys = k; few_files = f },
          weaken p s ss ds h,
        ),
        omega (arith, n),
      )
]

pub fetch_commits-error :
    (p : Push) (shas : List Sha) (s : Sha) (e : Error)
    → Any (λ t. t ≡ s) shas
    → fetch_commit p s ≡ inr e
    → (f : Error) × (fetch_commits p shas ≡ inr f)
unfolding fetch_commits
fetch_commits-error p [] s e m h = elim m [ ]
fetch_commits-error p (t ∷ ts) s e (here same) h = (e, rw same (rw h refl))
fetch_commits-error p (t ∷ ts) s e (there m) h =
    let (f, k) = fetch_commits-error p ts s e m h in rw k (by_first (fetch_commit p t) f)
  where
    by_first :
        (o : Option JiraCommit ⊎ Error) (f : Error) → (g : Error) × (add_commit o (inr f) ≡ inr g)
    by_first (inl c) f = (f, refl)
    by_first (inr e') f = (e', refl)
