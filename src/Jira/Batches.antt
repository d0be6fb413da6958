-- ===== src/Jira/Batches.antt =====
-- `batchedBulkUpdate` of src/jira/client/jira-client.ts: the commits of a repository go to Jira in
-- portions of 400. The requests share the repository object, so what they carry depends on when their
-- bodies are made of it.
pub mod Portions
pub mod Requests
use github_for_jira.Base.{
  ℕ, zero, suc, ap, Bool, false, ◌&&◌, not, List, [], ◌∷◌, map, String, Option, some, ◌=s=◌,
  if◌then◌else◌, take, drop, length, is_empty, get_or,
}
use github_for_jira.Jira.IssueKeys.{IssueKeyObject}

-- `ids.indexOf(id) === pos`
unfoldable pub is_first : List String → String → ℕ → Bool
is_first [] id pos = false
is_first (x ∷ xs) id zero = x =s= id
is_first (x ∷ xs) id (suc pos) = not (x =s= id) && is_first xs id pos

abbrev pub ids_of : List IssueKeyObject → List String
ids_of = map (λ c. c.id)

-- The filter, from a position on.
unfoldable pub dedup_from : List String → ℕ → List IssueKeyObject → List IssueKeyObject
unfolding is_first
dedup_from ids pos [] = []
dedup_from ids pos (c ∷ cs) =
    let rest = dedup_from ids (suc pos) cs in if is_first ids c.id pos then c ∷ rest else rest

unfoldable pub dedup_commits : List IssueKeyObject → List IssueKeyObject
unfolding dedup_from
dedup_commits commits = dedup_from (ids_of commits) 0 commits

abbrev pub portion : ℕ
portion = 400

-- The do-while loop over `splice(0, 400)`, on fuel.
unfoldable pub chunks : {A : Type 0} → ℕ → List A → List (List A)
chunks zero xs = []
chunks (suc fuel) xs =
    let rest = chunks fuel (drop portion xs) in
    take portion xs ∷ (if is_empty (drop portion xs) then [] else rest)

-- Each round takes 400 commits, so that one round more than there are commits is never needed.
unfoldable pub commit_chunks : List IssueKeyObject → List (List IssueKeyObject)
unfolding chunks dedup_commits
commit_chunks commits = chunks (suc (length commits)) (dedup_commits commits)

abbrev pub when_not_empty : {A : Type 0} → List A → Option (List A) → Option (List A)
when_not_empty [] old = old
when_not_empty (x ∷ xs) old = some (x ∷ xs)

-- The contents of `data.commits` at each call of `post`, in order, and after the loop.
unfoldable pub post_chunks :
    Option (List IssueKeyObject)
    → List (List IssueKeyObject)
    → List (Option (List IssueKeyObject)) × Option (List IssueKeyObject)
post_chunks cell [] = ([], cell)
post_chunks cell (c ∷ cs) =
    let rest = post_chunks (when_not_empty c cell) cs in (when_not_empty c cell ∷ rest.0, rest.1)

-- The commits in the body of each request: the bodies are made either at the calls of `post` or, as
-- an HTTP client with asynchronous interceptors does, after all of them.
unfoldable pub batched_bulk_update :
    Bool → Option (List IssueKeyObject) → List (Option (List IssueKeyObject))
unfolding post_chunks commit_chunks
batched_bulk_update is_deferred commits =
    let posts = post_chunks commits (commit_chunks (get_or commits [])) in
    if is_deferred then map (λ _. posts.1) posts.0 else posts.0
