-- ===== src/Transforms/Push/Commits.antt =====
-- What src/transforms/push.ts sends for a push.
use github_for_jira.Base.{
  sum-cases, ℕ, zero, suc, ◌≤◌, ◌≡◌, refl, inl, inr, true, List, [], ◌∷◌, arith, Option-cases, take,
  drop, length, All, Any, is_some, length-take_le, take_of_length-le,
}
use github_for_jira.Github.Errors.{Error}
use github_for_jira.Transforms.Push.{
  max_commit_history, Sha, JiraCommit, Push, fetch_commit, fetch_commits, push_chunks, send_chunks,
  process_push,
}
use github_for_jira.Transforms.Push.Fetched.{IsCommitOf, fetch_commits-All, fetch_commits-error}

-- If the fetch of one of the first ten commits fails and is not skipped, nothing is sent to Jira, and the
-- processing ends with an error.
pub process_push-all_or_nothing :
    (p : Push) (shas : List Sha) (s : Sha) (e : Error)
    → Any (λ t. t ≡ s) (take max_commit_history shas)
    → fetch_commit p s ≡ inr e
    → ((process_push p shas).0 ≡ []) × (is_some (process_push p shas).1 ≡ true)
unfolding process_push
process_push-all_or_nothing p shas s e m h =
    let (f, k) = fetch_commits-error p (take max_commit_history shas) s e m h in
    rw (k, process_push) (refl, refl)

drop-nil : {A : Type 0} (n : ℕ) (xs : List A) → length xs ≤ n → drop n xs ≡ []
drop-nil zero [] h = refl
drop-nil zero (x ∷ xs) h = absurd (omega arith)
drop-nil (suc n) [] h = refl
drop-nil (suc n) (x ∷ xs) h = drop-nil n xs (omega (arith, h))

push_chunks-nil : (n : ℕ) → push_chunks n [] ≡ []
unfolding push_chunks
push_chunks-nil zero = refl
push_chunks-nil (suc n) = refl

send_one : (p : Push) (c : List JiraCommit) → (send_chunks p (c ∷ [])).0 ≡ c ∷ []
unfolding send_chunks
send_one p c = elim (Option-cases (p.update c)) [
  | inl sent ↦ rw (sent, send_chunks) refl
  | inr (e, threw) ↦ rw (threw, send_chunks) refl
]

few_chunks :
    (n : ℕ) (c : JiraCommit) (cs : List JiraCommit)
    → length (c ∷ cs) ≤ 10
    → push_chunks (suc n) (c ∷ cs) ≡ (c ∷ cs) ∷ []
unfolding push_chunks
few_chunks n c cs h =
    rw
      (
        drop-nil 399 cs (omega (arith, h)),
        push_chunks-nil n,
        take_of_length-le 400 (c ∷ cs) (omega (arith, h)),
      )
      refl

send_none : (p : Push) (n : ℕ) → (send_chunks p (push_chunks (suc n) [])).0 ≡ []
unfolding push_chunks send_chunks
send_none p n = refl

one_chunk :
    (p : Push) (P : JiraCommit → Type 0) (n : ℕ) (cs : List JiraCommit)
    → length cs ≤ 10
    → All P cs
    → (length (send_chunks p (push_chunks (suc n) cs)).0 ≤ 1)
      × All (λ c. All P c × (length c ≤ 10)) (send_chunks p (push_chunks (suc n) cs)).0
one_chunk p P n [] h k = rw (send_none p n) (omega arith, tt)
one_chunk p P n (c ∷ cs) h k =
    rw (few_chunks n c cs h, send_one p (c ∷ cs)) (omega arith, ((k, h), tt))

-- A push sends at most one request to Jira, with at most ten commits: each was fetched for one of
-- the first ten shas, has the issue keys of that sha, and has at most ten files.
pub process_push-IsCommitOf :
    (p : Push) (shas : List Sha)
    → (length (process_push p shas).0 ≤ 1)
      × All
          (λ c. All (IsCommitOf p (take max_commit_history shas)) c × (length c ≤ 10))
          (process_push p shas).0
unfolding process_push
process_push-IsCommitOf p shas = elim (sum-cases (fetch_commits p (take max_commit_history shas))) [
  | inl (cs, e) ↦
      let (all_, n) = fetch_commits-All p (take max_commit_history shas) cs e in
      rw (e, process_push)
        (one_chunk p (IsCommitOf p (take max_commit_history shas)) (length cs) cs
          (omega (arith, n, length-take_le max_commit_history shas)) all_)
  | inr (f, e) ↦ rw (e, process_push) (omega arith, tt)
]
