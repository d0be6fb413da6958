-- ===== src/Transforms/Tests/Pushes.antt =====
-- The theorems on pushes at concrete commits.
use github_for_jira.Base.{
  ◌≤◌, ◌≡◌, refl, inl, inr, true, false, [], ◌∷◌, String, none, some, ◌=s=◌, if◌then◌else◌, take,
  length, All, here, there, is_some,
}
use github_for_jira.Github.Errors.{Error, other_class}
use github_for_jira.Transforms.Push.{
  max_commit_history, Sha, CommitResponse, Push, fetch_commit, process_push,
}
use github_for_jira.Transforms.Push.Fetched.{IsCommitOf}
use github_for_jira.Transforms.Push.Commits.{process_push-all_or_nothing, process_push-IsCommitOf}

abbrev failure : Error
failure = record {
  class = other_class;
  status = some 500;
  code = none;
  message = "m";
  is_retryable = true;
}

abbrev answer : CommitResponse
answer = record { files = some []; sha = "s"; parents = 2; html_url = "u" }

abbrev push : Push
push = record {
  cut = (λ n s. s);
  repo = "r";
  owner_name = some "o";
  get_commit = (λ id. if id =s= "bad" then inr failure else inl answer);
  skip_if_issue_not_found = false;
  skip_if_sha_not_found = false;
  last_attempt = false;
  is_missing_issue = (λ k. false);
  update = (λ cs. none);
  type_error = failure;
}

abbrev sha : String → Sha
sha id = record { id = id; issue_keys = "A-1" ∷ [] }

fails : fetch_commit push (sha "bad") ≡ inr failure
unfolding fetch_commit
fails = refl

process_push-all_or_nothing_example :
    ((process_push push (sha "s" ∷ sha "bad" ∷ [])).0 ≡ [])
    × (is_some (process_push push (sha "s" ∷ sha "bad" ∷ [])).1 ≡ true)
process_push-all_or_nothing_example =
    process_push-all_or_nothing push (sha "s" ∷ sha "bad" ∷ []) (sha "bad") failure
      (there (here refl)) fails

process_push-IsCommitOf_example :
    (length (process_push push (sha "s" ∷ [])).0 ≤ 1)
    × All
        (λ c. All (IsCommitOf push (take max_commit_history (sha "s" ∷ []))) c × (length c ≤ 10))
        (process_push push (sha "s" ∷ [])).0
process_push-IsCommitOf_example = process_push-IsCommitOf push (sha "s" ∷ [])
