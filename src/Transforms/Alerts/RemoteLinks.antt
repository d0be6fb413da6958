-- ===== src/Transforms/Alerts/RemoteLinks.antt =====
-- transformCodeScanningAlert of src/transforms/transform-code-scanning-alert.ts: the remote link between the
-- issues of a branch or pull request and an alert. lodash's `uniq`, JavaScript's `parseInt` and `substring` and
-- the requests for the titles of pull requests are parameters. The sequence number, which is the time, is
-- left out.
use github_for_jira.Base.{
  ℕ, ◌⊎◌, inl, inr, Bool, ◌||◌, List, [], ◌∷◌, ◌++◌, Option, none, some, ◌==◌, if◌then◌else◌,
  is_empty, get_or, drop, get_elem?, Text, codes, number_text,
}
use github_for_jira.Github.Errors.{Error}
use github_for_jira.Jira.IssueKeyParser.{issue_key_parser}
use github_for_jira.Jira.Jwt.Canonical.{join}
use github_for_jira.Transforms.Author.{truthy_text}
use github_for_jira.Transforms.RepositoryId.{transform_repository_id}
use github_for_jira.Transforms.Repository.{TransformError, request_failed, invalid_url}
use github_for_jira.Transforms.Alerts.{is_text}

pub data RemoteLinkAppearance : Type 0 where
  removed success moved default_appearance : RemoteLinkAppearance

pub record AlertInstance : Type 0 where
  pub ref : Text

pub record AlertEvent : Type 0 where
  pub action : Text
  pub ref : Text
  pub repository_id : ℕ
  pub number : ℕ
  pub instances : List AlertInstance
  pub rule_description : Text
  pub html_url : Text
  pub most_recent_state : Text
  pub updated_at : Option Text
  pub created_at : Text

pub record RemoteLink : Type 0 where
  pub id : Text
  pub display_name : Text
  pub description : Option Text
  pub url : Text
  pub appearance : RemoteLinkAppearance
  pub label : Text
  pub last_updated : Text
  pub issue_keys : List Text

-- What the transform takes from outside: `get_pull_request` answers `none` with a status other than 200.
pub record LinkServices : Type 0 where
  pub uniq : List Text → List Text
  pub substring : ℕ → Text → Text
  pub parse_int : Option Text → Option ℕ
  pub host_and_path : Text → Option Text
  pub base_url : Option Text
  pub get_pull_request : Option ℕ → Error ⊎ Option Text

-- `s.split("/")`
abbrev pub split_slash : Text → List Text
split_slash [] = [] ∷ []
split_slash (c ∷ s) =
    let rest = split_slash s in
    if c == b'/' then [] ∷ rest else elim rest [ [] ↦ (c ∷ []) ∷ [] | p ∷ ps ↦ (c ∷ p) ∷ ps ]

unfoldable pub get_pull_request_title : LinkServices → Option Text → Error ⊎ Text
get_pull_request_title sv component = elim (sv.get_pull_request (sv.parse_int component)) [
  | inl e ↦ inl e
  | inr title ↦ inr (get_or title [])
]

unfoldable pub get_entity_title : LinkServices → Text → Error ⊎ Text
unfolding get_pull_request_title
get_entity_title sv ref =
    let components = split_slash ref in
    let second = get_or (get_elem? components 1) [] in
    let title = get_pull_request_title sv (get_elem? components 2) in
    if is_text "heads" second
    then inr (join (codes "/") (drop 2 components))
    else if is_text "pull" second
    then title
    else inr []

-- The titles, or the error of the first request that fails.
unfoldable pub get_entity_titles : LinkServices → List Text → Error ⊎ List Text
unfolding get_entity_title
get_entity_titles sv [] = inr []
get_entity_titles sv (ref ∷ refs) =
    let rest = get_entity_titles sv refs in
    elim (get_entity_title sv ref) [
      | inl e ↦ inl e
      | inr title ↦ elim rest [ inl e ↦ inl e | inr titles ↦ inr (title ∷ titles) ]
    ]

abbrev pub refs_of : List AlertInstance → List Text
refs_of [] = []
refs_of (i ∷ is) = i.ref ∷ refs_of is

abbrev pub is_by_user : AlertEvent → Bool
is_by_user event = is_text "closed_by_user" event.action || is_text "reopened_by_user" event.action

-- The refs that an event is about: all of the alert's if a user did it by hand.
unfoldable pub refs_of_event : AlertEvent → List Text
refs_of_event event = if is_by_user event then refs_of event.instances else event.ref ∷ []

abbrev pub keys_of : (List Text → List Text) → List Text → List Text
keys_of uniq [] = []
keys_of uniq (title ∷ titles) = issue_key_parser uniq title ++ keys_of uniq titles

unfoldable pub transform_status_to_appearance : Text → RemoteLinkAppearance
transform_status_to_appearance status =
    if is_text "open" status
    then removed
    else if is_text "fixed" status
    then success
    else if is_text "dismissed" status
    then moved
    else default_appearance

unfoldable pub remote_link : LinkServices → AlertEvent → Text → List Text → RemoteLink
unfolding transform_status_to_appearance
remote_link sv event repository_id issue_keys = record {
  id = repository_id ++ (b'-' ∷ number_text event.number);
  display_name = codes "Alert #" ++ number_text event.number;
  description = truthy_text (some (sv.substring 255 event.rule_description));
  url = event.html_url;
  appearance = transform_status_to_appearance event.most_recent_state;
  label = event.most_recent_state;
  last_updated = get_or (truthy_text event.updated_at) event.created_at;
  issue_keys = issue_keys;
}

-- `none` if nothing is sent: no ref, or no issue key in the titles.
unfoldable pub transform_code_scanning_alert :
    LinkServices → AlertEvent → TransformError ⊎ Option RemoteLink
unfolding get_entity_titles refs_of_event remote_link
transform_code_scanning_alert sv event = elim (get_entity_titles sv (refs_of_event event)) [
  | inl e ↦ inl (request_failed e)
  | inr titles ↦
      let issue_keys = keys_of sv.uniq titles in
      if is_empty issue_keys
      then inr none
      else elim (transform_repository_id sv.host_and_path (some event.repository_id) sv.base_url) [
        | none ↦ inl invalid_url
        | some id ↦ inr (some (remote_link sv event id issue_keys))
      ]
]
