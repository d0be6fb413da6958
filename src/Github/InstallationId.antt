-- ===== src/Github/InstallationId.antt =====
-- src/github/client/installation-id.ts and key-locator.ts. The regular expression of `fromString` is
-- written out: its groups of digits end at a character that is no digit, so they are the last runs of
-- digits, and the rest of the text is the base URL.
pub mod RoundTrip
use mathlib.Core.List.{reverse}
use github_for_jira.Base.{
  ℕ, Bool, ◌||◌, ◌&&◌, ◌∷◌, ◌++◌, Option, none, some, ◌==◌, if◌then◌else◌, any, is_empty, and_then,
  Text, codes, is_digit, span, value_from, number_text,
}

-- The installation of an app on a GitHub server.
pub record InstallationId : Type 0 where
  pub github_base_url : Text
  pub app_id : ℕ
  pub installation_id : ℕ

abbrev pub separator : Text
separator = codes "###"

unfoldable pub to_string : InstallationId → Text
to_string i =
    i.github_base_url
    ++ (separator ++ (number_text i.app_id ++ (separator ++ number_text i.installation_id)))

pub strip_separator : Text → Option Text
strip_separator (a ∷ b ∷ c ∷ s) =
    if (a == b'#') && ((b == b'#') && (c == b'#')) then some s else none
strip_separator _ = none

-- `###([0-9]+)` at the end of a text that is given backwards: the number, and what is before it.
unfoldable pub number_at_end : Text → Option (ℕ × Text)
unfolding span strip_separator
number_at_end s =
    let (digits, rest) = span is_digit s in
    if is_empty digits
    then none
    else and_then (strip_separator rest) (λ before. some (value_from 0 (reverse digits), before))

-- `.` matches all other characters.
abbrev pub is_line_terminator : ℕ → Bool
is_line_terminator c = (c == 10) || ((c == 13) || ((c == 0x2028) || (c == 0x2029)))

unfoldable pub base_url : Text → Option Text
base_url s = if is_empty s || any is_line_terminator s then none else some s

-- `none` stands for the error.
unfoldable pub from_string : Text → Option InstallationId
unfolding number_at_end base_url
from_string s = and_then (number_at_end (reverse s)) (λ (i, s1).
    and_then (number_at_end s1) (λ (a, s2).
      and_then (base_url (reverse s2))
        (λ url. some (record { github_base_url = url; app_id = a; installation_id = i }))))

-- `env_app_id` is the app of GitHub's cloud. An empty URL and an id of zero count as missing.
unfoldable pub get_installation_id : Text → ℕ → ℕ → Option Text → Option ℕ → InstallationId
get_installation_id cloud_url env_app_id installation_id url app_id = record {
  github_base_url = elim url [ none ↦ cloud_url | some u ↦ if is_empty u then cloud_url else u ];
  app_id = elim app_id [ none ↦ env_app_id | some a ↦ if a == 0 then env_app_id else a ];
  installation_id = installation_id;
}
