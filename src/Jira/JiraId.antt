-- ===== src/Jira/JiraId.antt =====
-- getJiraId of src/jira/util/id.ts: the id of a branch in Jira.
pub mod Injective
use github_for_jira.Base.{
  ℕ, Bool, ◌||◌, ◌&&◌, not, ◌∷◌, leb, ◌==◌, if◌then◌else◌, all, is_empty, Text, is_digit, utf8_text,
  to_hex,
}

-- `[a-zA-Z0-9~.\-_]`
abbrev pub is_id_char : ℕ → Bool
is_id_char c =
    (leb b'a' c && leb c b'z')
    || ((leb b'A' c && leb c b'Z')
        || (is_digit c || ((c == b'~') || ((c == b'.') || ((c == b'-') || (c == b'_'))))))

abbrev pub valid_jira_id : Text → Bool
valid_jira_id name = not (is_empty name) && all is_id_char name

unfoldable pub get_jira_id : Text → Text
get_jira_id name = if valid_jira_id name then name else b'~' ∷ to_hex (utf8_text name)
