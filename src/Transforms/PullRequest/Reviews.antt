-- ===== src/Transforms/PullRequest/Reviews.antt =====
-- The reviewers of a pull request, src/transforms/transform-pull-request.ts. The object `usernames` has the
-- reviewers seen so far under their logins; those in it and those in the list are the same objects. As every
-- object, it also has the properties of Object.prototype, so these count as seen, and what is written to
-- them is lost. (Their names with underscores can be no logins.)
pub mod Last
pub mod Distinct
mod Tests
use github_for_jira.Base.{
  Bool, List, [], ◌∷◌, ◌++◌, map, Option, none, some, if◌then◌else◌, any, get_or, or_else, and_then,
  Text, codes, text_eq,
}
use github_for_jira.Transforms.Author.{
  Author, JiraAuthor, Field, absent, text, get_jira_author, truthy_field,
}

pub data ApprovalStatus : Type 0 where
  approved needs_work unapproved : ApprovalStatus

unfoldable pub map_review_state : Option Text → ApprovalStatus
map_review_state none = unapproved
map_review_state (some s) =
    if text_eq s (codes "APPROVED")
    then approved
    else if text_eq s (codes "CHANGES_REQUESTED")
    then needs_work
    else unapproved

pub record Review : Type 0 where
  pub author : Option Author
  pub state : Option Text

-- The login of the reviewer is kept beside what Jira gets.
pub record JiraReviewer : Type 0 where
  pub author : JiraAuthor
  pub login : Option Text
  pub approval_status : ApprovalStatus

abbrev pub login_of : Option Author → Option Text
login_of none = none
login_of (some a) = truthy_field a.login

-- The key of a login in an object: a missing one is the text "undefined".
abbrev pub key_of : Option Text → Text
key_of login = get_or login (codes "undefined")

abbrev pub prototype_keys : List Text
prototype_keys =
    codes "constructor"
    ∷ codes "hasOwnProperty"
    ∷ codes "isPrototypeOf"
    ∷ codes "propertyIsEnumerable"
    ∷ codes "toLocaleString"
    ∷ codes "toString"
    ∷ codes "valueOf"
    ∷ []

unfoldable pub is_prototype_key : Text → Bool
is_prototype_key k = any (text_eq k) prototype_keys

abbrev pub has_key : Text → JiraReviewer → Bool
has_key k r = text_eq (key_of r.login) k

-- `usernames[reviewerUsername].approvalStatus = …`
abbrev pub set_status : Text → ApprovalStatus → List JiraReviewer → List JiraReviewer
set_status k status acc =
    map (λ r. if has_key k r then record r { approval_status = status } else r) acc

-- One round of the reduction.
unfoldable pub add_review : List JiraReviewer → Review → List JiraReviewer
unfolding is_prototype_key
add_review acc review =
    let login = login_of review.author in
    let k = key_of login in
    let status = map_review_state review.state in
    if is_prototype_key k
    then acc
    else if any (has_key k) acc
    then set_status k status acc
    else acc
      ++ (record {
        author = get_jira_author (review.author ∷ []);
        login = login;
        approval_status = status;
      }
          ∷ [])

unfoldable pub reduce_reviews : List JiraReviewer → List Review → List JiraReviewer
unfolding add_review
reduce_reviews acc [] = acc
reduce_reviews acc (r ∷ rs) = reduce_reviews (add_review acc r) rs

-- What Jira gets: the reviewer without the login.
pub record JiraReview : Type 0 where
  pub author : JiraAuthor
  pub approval_status : ApprovalStatus

-- The address of a user of GitHub: `email_of` is that of the user, for a login that is there.
abbrev pub to_jira_review : (JiraReviewer → Text → Option Text) → JiraReviewer → JiraReview
to_jira_review email_of r = record {
  author = elim r.login [
    | none ↦ r.author
    | some l ↦ record r.author {
      email = or_else (email_of r l) (some (l ++ codes "@noreply.user.github.com"));
    }
  ];
  approval_status = r.approval_status;
}

-- `mapReviewsRest`: `get_github_user` is a request to GitHub, `none` where it failed.
unfoldable pub map_reviews_rest : (Text → Option Author) → List Review → List JiraReview
unfolding reduce_reviews
map_reviews_rest get_github_user reviews =
    map (to_jira_review (λ r l. and_then (get_github_user l) (λ user. truthy_field user.email)))
      (reduce_reviews [] reviews)

abbrev pub field_of : Option Text → Field
field_of none = absent
field_of (some t) = text t

-- The reviewer read as an author again: its own name, email, URL and login.
abbrev pub as_author : JiraReviewer → Author
as_author r = record {
  avatar_url = absent;
  avatar_url_graphql = absent;
  name = field_of r.author.name;
  login = field_of r.login;
  email = field_of r.author.email;
  url = field_of r.author.url;
  html_url = absent;
  user_name = absent;
  user_url = absent;
}

-- `mapReviews`, on the requested reviewers and then the reviews.
unfoldable pub map_reviews : List Review → List Review → List JiraReview
unfolding reduce_reviews
map_reviews reviews review_requests =
    map (to_jira_review (λ r l. (get_jira_author (some (as_author r) ∷ [])).email))
      (reduce_reviews [] (review_requests ++ reviews))
