-- ===== src/Transforms/Author.antt =====
-- getJiraAuthor and limitCommitMessage of src/util/jira-utils.ts. A field of GitHub's author may be absent, null
-- or a text. lodash's `pickBy` leaves out what is missing or empty.
use github_for_jira.Base.{
  ℕ, ◌||◌, List, [], ◌∷◌, ◌++◌, Option, none, some, ◌==◌, if◌then◌else◌, and_then, or_else, is_some,
  get_or, Text, codes,
}

pub data Field : Type 0 where
  absent : Field
  null : Field
  text : Text → Field

-- a value that is not there, null or empty is falsy
abbrev pub truthy_field : Field → Option Text
truthy_field absent = none
truthy_field null = none
truthy_field (text []) = none
truthy_field (text (c ∷ s)) = some (c ∷ s)

-- `author.user` is there for the authors of commits
pub record Author : Type 0 where
  pub avatar_url : Field
  pub avatar_url_graphql : Field
  pub name : Field
  pub login : Field
  pub email : Field
  pub url : Field
  pub html_url : Field
  pub user_name : Field
  pub user_url : Field

abbrev pub no_author : Author
no_author = record {
  avatar_url = absent;
  avatar_url_graphql = absent;
  name = absent;
  login = absent;
  email = absent;
  url = absent;
  html_url = absent;
  user_name = absent;
  user_url = absent;
}

-- `Object.assign`: what the later author has, null included, replaces what the earlier one has.
abbrev pub assign_field : Field → Field → Field
assign_field f absent = f
assign_field f g = g

abbrev pub assign : Author → Option Author → Author
assign a none = a
assign a (some b) = record {
  avatar_url = assign_field a.avatar_url b.avatar_url;
  avatar_url_graphql = assign_field a.avatar_url_graphql b.avatar_url_graphql;
  name = assign_field a.name b.name;
  login = assign_field a.login b.login;
  email = assign_field a.email b.email;
  url = assign_field a.url b.url;
  html_url = assign_field a.html_url b.html_url;
  user_name = assign_field a.user_name b.user_name;
  user_url = assign_field a.user_url b.user_url;
}

abbrev pub assign_all : Author → List (Option Author) → Author
assign_all a [] = a
assign_all a (b ∷ bs) = assign_all (assign a b) bs

pub record JiraAuthor : Type 0 where
  pub avatar : Option Text
  pub name : Option Text
  pub email : Option Text
  pub url : Option Text

abbrev pub deleted_user : JiraAuthor
deleted_user = record {
  avatar = some (codes "https://github.com/ghost.png");
  name = some (codes "Deleted User");
  email = some (codes "deleted@noreply.user.github.com");
  url = some (codes "https://github.com/ghost");
}

-- `email.match(/^(.*)@/)?.pop()`: what stands before the last `@` of the first line.
pub before_at : Text → Option Text
before_at [] = none
before_at (c ∷ s) =
    let later = before_at s in
    if (c == 10) || ((c == 13) || ((c == 0x2028) || (c == 0x2029)))
    then none
    else elim later [ some t ↦ some (c ∷ t) | none ↦ if c == b'@' then some [] else none ]

-- A field in a template: `${author.login}`
abbrev pub field_text : Field → Text
field_text absent = codes "undefined"
field_text null = codes "null"
field_text (text s) = s

abbrev pub truthy_text : Option Text → Option Text
truthy_text none = none
truthy_text (some []) = none
truthy_text (some (c ∷ s)) = some (c ∷ s)

unfoldable pub get_jira_author : List (Option Author) → JiraAuthor
unfolding before_at
get_jira_author authors =
    let author = assign_all no_author authors in
    let login = truthy_field author.login in
    if is_some login || is_some (truthy_field author.name)
    then record {
      avatar = or_else (truthy_field author.avatar_url) (
          or_else (truthy_field author.avatar_url_graphql) (
            and_then login (λ l. some (codes "https://github.com/users/" ++ (l ++ codes ".png")))));
      name = or_else (truthy_field author.name) (
          or_else (truthy_field author.user_name) (
            or_else login (
              or_else (truthy_text (and_then (truthy_field author.email) before_at))
                (some (codes "unknown")))));
      email =
          or_else (truthy_field author.email)
            (some (field_text author.login ++ codes "@noreply.user.github.com"));
      url = or_else (truthy_field author.html_url) (
          or_else (truthy_field author.user_url) (
            or_else (truthy_field author.url)
              (and_then login (λ l. some (codes "https://github.com/users/" ++ l)))));
    }
    else deleted_user

-- `message.substring(0, 1024)`, in UTF-16 units; a missing message is empty.
unfoldable pub limit_commit_message : (ℕ → Text → Text) → Option Text → Text
limit_commit_message substring message = substring 1024 (get_or message [])
