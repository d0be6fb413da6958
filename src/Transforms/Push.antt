-- ===== src/Transforms/Push.antt =====
-- src/transforms/push.ts: a push becomes a message with the shas of its commits, and the message's
-- commits, fetched from GitHub, go to Jira. The parser of issue keys, the fetches, the sending and
-- JavaScript's `slice` of a text are parameters. Of a commit, what is only copied (its author, its
-- dates and its message) is left out.
pub mod Commits
pub mod Fetched
use Prim.Native.String
use github_for_jira.Base.{
  ℕ, zero, suc, ◌+◌, ◌/◌, ap, ◌⊎◌, inl, inr, Bool, true, false, ◌||◌, ◌&&◌, not, List, [], ◌∷◌,
  ◌++◌, map, String, Option, none, some, ltb, ◌=s=◌, if◌then◌else◌, take, drop, all, length,
  is_empty, get_or,
}
use github_for_jira.Github.Errors.{
  Error, github_commit_not_found_by_sha, ErrorClass, is_jira_client_error,
}

abbrev pub max_commit_history : ℕ
max_commit_history = 10

pub data ChangeType : Type 0 where
  added copied deleted modified moved unknown : ChangeType

pub record GithubCommitFile : Type 0 where
  pub filename : String
  pub status : String
  pub additions : ℕ
  pub deletions : ℕ
  pub blob_url : String

pub record JiraCommitFile : Type 0 where
  pub path : String
  pub change_type : ChangeType
  pub lines_added : ℕ
  pub lines_removed : ℕ
  pub url : String

unfoldable pub map_status : String → ChangeType
map_status s =
    if s =s= "added"
    then added
    else if s =s= "removed"
    then deleted
    else if s =s= "modified" || s =s= "changed"
    then modified
    else if s =s= "renamed"
    then moved
    else if s =s= "copied"
    then copied
    else unknown

-- `cut n s` is `s.slice(0, n)`.
abbrev pub Cut : Type 0
Cut = ℕ → String → String

abbrev pub fallback_url : Option String → String → String → String → String
fallback_url owner repo sha filename = String.◌++◌ "https://github.com/" (
    String.◌++◌ (get_or owner "undefined") (
      String.◌++◌ "/"
        (String.◌++◌ repo (String.◌++◌ "/blob/" (String.◌++◌ sha (String.◌++◌ "/" filename))))))

unfoldable pub map_file :
    Cut → GithubCommitFile → String → String → Option String → Option JiraCommitFile
unfolding map_status
map_file cut file repo sha owner =
    if file.filename =s= ""
    then none
    else some (record {
      path = cut 1024 file.filename;
      change_type = map_status file.status;
      lines_added = file.additions;
      lines_removed = file.deletions;
      url =
          if file.blob_url =s= "" then fallback_url owner repo sha file.filename else file.blob_url;
    })

pub record Sha : Type 0 where
  pub id : String
  pub issue_keys : List String

-- A commit of the push, by its id and its message.
pub record PushedCommit : Type 0 where
  pub id : String
  pub message : String

-- The shas of `createJobData`.
unfoldable pub shas_of : (String → List String) → Bool → List PushedCommit → List Sha
shas_of parse always_send [] = []
shas_of parse always_send (c ∷ cs) =
    let rest = shas_of parse always_send cs in
    if not (is_empty (parse c.message)) || always_send
    then record { id = c.id; issue_keys = parse c.message } ∷ rest
    else rest

-- What GitHub answers for a commit; `none` are files that are missing.
pub record CommitResponse : Type 0 where
  pub files : Option (List GithubCommitFile)
  pub sha : String
  pub parents : ℕ
  pub html_url : String

pub record JiraCommit : Type 0 where
  pub id : String
  pub file_count : ℕ
  pub files : List JiraCommitFile
  pub issue_keys : List String
  pub url : String
  pub is_merge_commit : Bool

-- lodash's `compact` on what is missing or an object
abbrev pub present : {A : Type 0} → List (Option A) → List A
present [] = []
present (none ∷ os) = present os
present (some a ∷ os) = a ∷ present os

pub record Push : Type 0 where
  pub cut : Cut
  pub repo : String
  pub owner_name : Option String
  pub get_commit : String → CommitResponse ⊎ Error
  -- the feature flags, and what Jira knows of issue keys
  pub skip_if_issue_not_found : Bool
  pub skip_if_sha_not_found : Bool
  pub last_attempt : Bool
  pub is_missing_issue : String → Bool
  -- the sending of a portion to Jira: `none` is success
  pub update : List JiraCommit → Option Error
  -- the error for reading a property of `undefined`
  pub type_error : Error

unfoldable pub to_jira_commit : Push → Sha → CommitResponse → List GithubCommitFile → JiraCommit
unfolding map_file
to_jira_commit p sha r files = record {
  id = r.sha;
  file_count = length files;
  files = present (map (λ f. map_file p.cut f p.repo sha.id p.owner_name) (take 10 files));
  issue_keys = sha.issue_keys;
  url = r.html_url;
  is_merge_commit = ltb 1 r.parents;
}

abbrev pub is_sha_not_found : ErrorClass → Bool
is_sha_not_found github_commit_not_found_by_sha = true
is_sha_not_found _ = false

-- A fetched commit; `files.length` throws if the files are missing.
unfoldable pub of_response : Push → Sha → CommitResponse → Option JiraCommit ⊎ Error
unfolding to_jira_commit
of_response p sha r = if r.sha =s= "" then inl none else elim r.files [
  | none ↦ inr p.type_error
  | some files ↦ inl (some (to_jira_commit p sha r files))
]

-- An error of a fetch, which is skipped or thrown.
abbrev pub of_error : Push → Error → Option JiraCommit ⊎ Error
of_error p e =
    if (p.last_attempt && p.skip_if_sha_not_found) && is_sha_not_found e.class
    then inl none
    else inr e

abbrev pub of_answer : Push → Sha → CommitResponse ⊎ Error → Option JiraCommit ⊎ Error
of_answer p sha (inl r) = of_response p sha r
of_answer p sha (inr e) = of_error p e

-- One commit: `inl none` is a commit that is left out.
unfoldable pub fetch_commit : Push → Sha → Option JiraCommit ⊎ Error
unfolding of_response
fetch_commit p sha =
    if p.skip_if_issue_not_found && all p.is_missing_issue sha.issue_keys
    then inl none
    else of_answer p sha (p.get_commit sha.id)

abbrev pub add_commit :
    Option JiraCommit ⊎ Error → List JiraCommit ⊎ Error → List JiraCommit ⊎ Error
add_commit (inr e) rest = inr e
add_commit (inl c) (inr e) = inr e
add_commit (inl none) (inl cs) = inl cs
add_commit (inl (some c)) (inl cs) = inl (c ∷ cs)

-- `Promise.all` with the filter; of several errors the first in the list stands for the first in time.
unfoldable pub fetch_commits : Push → List Sha → List JiraCommit ⊎ Error
unfolding fetch_commit
fetch_commits p [] = inl []
fetch_commits p (s ∷ ss) = add_commit (fetch_commit p s) (fetch_commits p ss)

-- The while loop over `splice(0, 400)`, on fuel.
unfoldable pub push_chunks : ℕ → List JiraCommit → List (List JiraCommit)
push_chunks zero cs = []
push_chunks (suc fuel) [] = []
push_chunks (suc fuel) (c ∷ cs) = take 400 (c ∷ cs) ∷ push_chunks fuel (drop 399 cs)

-- The portions that were sent, the one that failed included, and the error that ends the sending.
unfoldable pub send_chunks : Push → List (List JiraCommit) → List (List JiraCommit) × Option Error
send_chunks p [] = ([], none)
send_chunks p (c ∷ cs) =
    let rest = send_chunks p cs in
    elim (p.update c) [ some e ↦ (c ∷ [], some e) | none ↦ (c ∷ rest.0, rest.1) ]

abbrev pub after_fetch : Push → List JiraCommit ⊎ Error → List (List JiraCommit) × Option Error
after_fetch p (inr e) = ([], some e)
after_fetch p (inl commits) = send_chunks p (push_chunks (suc (length commits)) commits)

-- `processPush` for an installation that is not blocked and has a subscription and a client.
unfoldable pub process_push : Push → List Sha → List (List JiraCommit) × Option Error
unfolding fetch_commits push_chunks send_chunks
process_push p shas = after_fetch p (fetch_commits p (take max_commit_history shas))
