-- ===== src/Transforms/PullRequest/Reviews/Tests.antt =====
-- The reviewers of a pull request at concrete reviews.
use github_for_jira.Base.{◌≤◌, ◌≡◌, refl, List, [], ◌∷◌, none, some, if◌then◌else◌, Text, codes}
use github_for_jira.Transforms.Author.{no_author, text}
use github_for_jira.Transforms.PullRequest.Reviews.{
  Review, needs_work, map_review_state, is_prototype_key, reduce_reviews,
}
use github_for_jira.Transforms.PullRequest.Reviews.Last.{status_of, last_state}
use github_for_jira.Transforms.PullRequest.Reviews.Distinct.{count, reduce_reviews-status_of}

abbrev review : Text → Text → Review
review login state = record {
  author = some (record no_author { login = text login });
  state = some state;
}

abbrev reviews : List Review
reviews =
    review (codes "ann") (codes "APPROVED")
    ∷ review (codes "constructor") (codes "APPROVED")
    ∷ review (codes "bob") (codes "COMMENTED")
    ∷ review (codes "ann") (codes "CHANGES_REQUESTED")
    ∷ []

ann : status_of (codes "ann") (reduce_reviews [] reviews) ≡ some needs_work
unfolding reduce_reviews map_review_state
ann = refl

constructor : status_of (codes "constructor") (reduce_reviews [] reviews) ≡ none
unfolding reduce_reviews
constructor = refl

reduce_reviews-status_of_example :
    (count (codes "ann") (reduce_reviews [] reviews) ≤ 1)
    × (status_of (codes "ann") (reduce_reviews [] reviews)
        ≡ (if is_prototype_key (codes "ann") then none else last_state (codes "ann") none reviews))
reduce_reviews-status_of_example = reduce_reviews-status_of (codes "ann") reviews
