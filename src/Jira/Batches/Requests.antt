-- ===== src/Jira/Batches/Requests.antt =====
-- Which commits the requests of src/jira/client/jira-client.ts carry.
use github_for_jira.Base.{
  ℕ, zero, suc, ◌≡◌, refl, ap, inl, inr, true, false, List, [], ◌∷◌, map, Option, some, Bool-cases,
  last?, take, drop, length, All, is_empty,
}
use text.Mathlib.TextPositions.{eq_refl}
use github_for_jira.Jira.IssueKeys.{IssueKeyObject}
use github_for_jira.Jira.Batches.{
  is_first, dedup_from, dedup_commits, portion, chunks, commit_chunks, post_chunks,
  batched_bulk_update,
}

take-ne :
    {A : Type 0} (n : ℕ) (xs : List A) → is_empty xs ≡ false → is_empty (take (suc n) xs) ≡ false
take-ne n [] h = h
take-ne n (x ∷ xs) h = refl

chunks-ne :
    {A : Type 0} (fuel : ℕ) (xs : List A)
    → is_empty xs ≡ false
    → All (λ c. is_empty c ≡ false) (chunks fuel xs)
unfolding chunks
chunks-ne zero xs h = tt
chunks-ne (suc fuel) xs h = elim (Bool-cases (is_empty (drop portion xs))) [
  | inl ended ↦ rw ended (take-ne 399 xs h, tt)
  | inr more ↦ let ih = chunks-ne fuel (drop portion xs) more in rw more (take-ne 399 xs h, ih)
]

posts-at_once :
    (cell : Option (List IssueKeyObject)) (cs : List (List IssueKeyObject))
    → All (λ c. is_empty c ≡ false) cs
    → (post_chunks cell cs).0 ≡ map some cs
unfolding post_chunks
posts-at_once cell [] h = refl
posts-at_once cell ([] ∷ cs) (e, h) = cc
posts-at_once cell ((x ∷ xs) ∷ cs) (e, h) =
    ap (λ ps. some (x ∷ xs) ∷ ps) (posts-at_once (some (x ∷ xs)) cs h)

-- The object's commits after the loop: the last portion, once there is one.
posts-last :
    (cell : Option (List IssueKeyObject)) (c : List IssueKeyObject)
    (cs : List (List IssueKeyObject))
    → All (λ c. is_empty c ≡ false) (c ∷ cs)
    → (post_chunks cell (c ∷ cs)).1 ≡ last? (c ∷ cs)
unfolding post_chunks
posts-last cell [] cs (e, h) = cc
posts-last cell (x ∷ xs) [] (e, h) = refl
posts-last cell (x ∷ xs) (d ∷ ds) (e, h) = posts-last (some (x ∷ xs)) d ds h

map-const : {A B : Type 0} (v : B) (xs : List A) → map (λ _. v) (map some xs) ≡ map (λ _. v) xs
map-const v [] = refl
map-const v (x ∷ xs) = ap (λ ys. v ∷ ys) (map-const v xs)

posts-nil : (cell : Option (List IssueKeyObject)) → (post_chunks cell []).0 ≡ []
unfolding post_chunks
posts-nil cell = refl

posts-deferred :
    (cell : Option (List IssueKeyObject)) (cs : List (List IssueKeyObject))
    → All (λ c. is_empty c ≡ false) cs
    → map (λ _. (post_chunks cell cs).1) (post_chunks cell cs).0 ≡ map (λ _. last? cs) cs
posts-deferred cell [] h = ap (map (λ _. (post_chunks cell []).1)) (posts-nil cell)
posts-deferred cell (c ∷ cs) h =
    rw (posts-last cell c cs h, posts-at_once cell (c ∷ cs) h) (map-const (last? (c ∷ cs)) (c ∷ cs))

dedup-ne :
    (c : IssueKeyObject) (cs : List IssueKeyObject) → is_empty (dedup_commits (c ∷ cs)) ≡ false
unfolding dedup_commits dedup_from is_first
dedup-ne c cs = rw (eq_refl c.id) refl

-- With a commit at least, if each body is made when it is posted, the requests carry the portions of the commits, in order.
pub batched_bulk_update-at_once :
    (c : IssueKeyObject) (cs : List IssueKeyObject)
    → batched_bulk_update false (some (c ∷ cs)) ≡ map some (commit_chunks (c ∷ cs))
unfolding batched_bulk_update commit_chunks
batched_bulk_update-at_once c cs =
    posts-at_once (some (c ∷ cs)) (chunks (suc (suc (length cs))) (dedup_commits (c ∷ cs)))
      (chunks-ne (suc (suc (length cs))) (dedup_commits (c ∷ cs)) (dedup-ne c cs))

-- With a commit at least, if the bodies are made after all calls of `post`, every request carries the last portion, so that
-- the others are not sent at all.
pub batched_bulk_update-deferred :
    (c : IssueKeyObject) (cs : List IssueKeyObject)
    → let portions = commit_chunks (c ∷ cs) in
      batched_bulk_update true (some (c ∷ cs)) ≡ map (λ _. last? portions) portions
unfolding batched_bulk_update commit_chunks
batched_bulk_update-deferred c cs =
    posts-deferred (some (c ∷ cs)) (chunks (suc (suc (length cs))) (dedup_commits (c ∷ cs)))
      (chunks-ne (suc (suc (length cs))) (dedup_commits (c ∷ cs)) (dedup-ne c cs))
