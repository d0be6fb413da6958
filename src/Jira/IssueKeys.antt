-- ===== src/Jira/IssueKeys.antt =====
-- The issue keys of what src/jira/client/jira-client.ts sends: no repeats, and at most 500 for each
-- commit, branch and pull request. lodash's `uniq` is a parameter. What an object has besides its issue
-- keys and its id is left out; the objects share no parts, so a mutation is a new value.
pub mod Limits
use github_for_jira.Base.{
  map_option, ℕ, ap, Bool, true, false, ◌&&◌, List, [], ◌∷◌, map, String, Option, none, some, leb,
  ◌==◌, ◌=s=◌, if◌then◌else◌, take, all, find, length, and_then,
}

abbrev pub issue_key_api_limit : ℕ
issue_key_api_limit = 500

pub record JiraAssociation : Type 0 where
  pub association_type : String
  pub values : List String

-- `IssueKeyObject`: a commit, a pull request, a build or a deployment, by its issue keys.
pub record IssueKeyObject : Type 0 where
  pub id : String
  pub issue_keys : Option (List String)
  pub associations : Option (List JiraAssociation)

pub record Branch : Type 0 where
  pub object : IssueKeyObject
  pub last_commit : Option IssueKeyObject

pub record Repository : Type 0 where
  pub commits : Option (List IssueKeyObject)
  pub branches : Option (List Branch)
  pub pull_requests : Option (List IssueKeyObject)

abbrev pub is_issue_key_association : JiraAssociation → Bool
is_issue_key_association a = a.association_type =s= "issueIdOrKeys"

unfoldable pub find_issue_key_association : IssueKeyObject → Option JiraAssociation
find_issue_key_association r = and_then r.associations (find is_issue_key_association)

abbrev pub key_count : Option (List String) → ℕ
key_count none = 0
key_count (some ks) = length ks

abbrev pub value_count : Option JiraAssociation → ℕ
value_count none = 0
value_count (some a) = length a.values

-- `issueKeys?.length || values?.length || 0`
unfoldable pub issue_key_count : IssueKeyObject → ℕ
unfolding find_issue_key_association
issue_key_count r =
    if key_count r.issue_keys == 0
    then value_count (find_issue_key_association r)
    else key_count r.issue_keys

-- `Math.max(...counts) <= limit`; the maximum of nothing is below every limit.
unfoldable pub within_issue_key_limit : Option (List IssueKeyObject) → Bool
unfolding issue_key_count
within_issue_key_limit none = true
within_issue_key_limit (some rs) = all (λ r. leb (issue_key_count r) issue_key_api_limit) rs

unfoldable pub truncate : List String → List String
truncate = take issue_key_api_limit

-- The found association is changed in its place.
unfoldable pub update_first :
    (List String → List String) → List JiraAssociation → List JiraAssociation
update_first func [] = []
update_first func (a ∷ as_) =
    let rest = update_first func as_ in
    if is_issue_key_association a then record a { values = func a.values } ∷ as_ else a ∷ rest

unfoldable pub update_object : (List String → List String) → IssueKeyObject → IssueKeyObject
unfolding update_first
update_object func r = record r {
  issue_keys = elim r.issue_keys [ none ↦ none | some ks ↦ some (func ks) ];
  associations = elim r.associations [ none ↦ none | some l ↦ some (update_first func l) ];
}

unfoldable pub update_issue_keys_for :
    (List String → List String) → List IssueKeyObject → List IssueKeyObject
unfolding update_object
update_issue_keys_for func rs = map (update_object func) rs

unfoldable pub update_branch : (List String → List String) → Branch → Branch
unfolding update_object
update_branch func b = record {
  object = update_object func b.object;
  last_commit = map_option (update_object func) b.last_commit;
}

unfoldable pub update_repository_issue_keys : (List String → List String) → Repository → Repository
unfolding update_issue_keys_for update_branch
update_repository_issue_keys func r = record {
  commits = map_option (update_issue_keys_for func) r.commits;
  branches = map_option (map (update_branch func)) r.branches;
  pull_requests = map_option (update_issue_keys_for func) r.pull_requests;
}

abbrev pub branch_objects : Repository → Option (List IssueKeyObject)
branch_objects r = map_option (map (λ b. b.object)) r.branches

unfoldable pub repository_within_limit : Repository → Bool
unfolding within_issue_key_limit
repository_within_limit r =
    within_issue_key_limit r.commits
    && within_issue_key_limit (branch_objects r)
    && within_issue_key_limit r.pull_requests

-- `devinfo.repository.update` up to the sending: the repository that is sent, and whether the
-- subscription gets the warning that keys were left out.
unfoldable pub prepare_update : (List String → List String) → Repository → Repository × Bool
unfolding update_repository_issue_keys repository_within_limit truncate
prepare_update uniq r =
    let deduped = update_repository_issue_keys uniq r in
    if repository_within_limit deduped
    then (deduped, false)
    else (update_repository_issue_keys truncate deduped, true)

-- `workflow.submit` and `deployment.submit` up to the sending.
unfoldable pub prepare_submit :
    (List String → List String) → List IssueKeyObject → List IssueKeyObject × Bool
unfolding update_issue_keys_for within_issue_key_limit truncate
prepare_submit uniq rs =
    let deduped = update_issue_keys_for uniq rs in
    if within_issue_key_limit (some deduped)
    then (deduped, false)
    else (update_issue_keys_for truncate deduped, true)

abbrev pub first_values : Option (List JiraAssociation) → Option (List String)
first_values none = none
first_values (some []) = none
first_values (some (a ∷ as_)) = some a.values

-- The first association's values become those of the first one with issue keys.
unfoldable pub update_association_values :
    (List String → List String) → IssueKeyObject → IssueKeyObject
unfolding update_first
update_association_values func r = elim (first_values r.associations) [
  | none ↦ r
  | some vs ↦ record r { associations = map_option (update_first (λ _. func vs)) r.associations }
]

unfoldable pub within_issue_key_associations_limit : List IssueKeyObject → Bool
within_issue_key_associations_limit rs =
    all
      (λ r. elim (first_values r.associations) [
        | none ↦ true
        | some vs ↦ leb (length vs) issue_key_api_limit
      ])
      rs

-- `remoteLink.submit` up to the sending.
unfoldable pub prepare_remote_links :
    (List String → List String) → List IssueKeyObject → List IssueKeyObject × Bool
unfolding update_association_values within_issue_key_associations_limit truncate
prepare_remote_links uniq rs =
    let deduped = map (update_association_values uniq) rs in
    if within_issue_key_associations_limit deduped
    then (deduped, false)
    else (map (update_association_values truncate) deduped, true)
