-- ===== src/Jira/IssueKeyParser.antt =====
-- jiraIssueKeyParser of src/util/jira-utils.ts: the issue keys in a text. The regular expression is
-- written out on code points: with the flags i and u, `[A-Z]` also matches the long s and the Kelvin
-- sign. A run of letters and digits can only end at a hyphen, and the digits of a key only at the end or
-- before a character that is no letter and no digit, so there is nothing to backtrack. lodash's
-- `uniq` is a parameter.
pub mod Keys
pub mod Scan
pub mod Occurrences
mod Tests
use github_for_jira.Base.{
  map_option, ℕ, zero, suc, ◌-◌, Bool, true, false, ◌||◌, ◌&&◌, not, List, [], ◌∷◌, ◌++◌, map,
  Option, none, some, leb, ◌==◌, if◌then◌else◌, length, is_empty, Text, is_digit, span, stops,
  or_else,
}

-- `[A-Z]` with the flags i and u
abbrev pub is_letter : ℕ → Bool
is_letter c =
    (leb b'A' c && leb c b'Z') || ((leb b'a' c && leb c b'z') || ((c == 0x17F) || (c == 0x212A)))

-- `[A-Z\d]`
abbrev pub is_alnum : ℕ → Bool
is_alnum c = is_letter c || is_digit c

-- `toUpperCase` on these characters
unfoldable pub to_upper : ℕ → ℕ
to_upper c = if leb b'a' c && leb c b'z' then c - 32 else if c == 0x17F then b'S' else c

-- `-[1-9]\d{0,255}(?=$|[^A-Z\d])`: what it matches, without the hyphen, and the rest.
unfoldable pub number_at : Text → Option (Text × Text)
unfolding span
number_at (h ∷ d ∷ s) =
    let (ds, rest) = span is_digit s in
    if (h == b'-') && ((leb b'1' d && leb d b'9') && (leb (length ds) 255 && stops is_alnum rest))
    then some (d ∷ ds, rest)
    else none
number_at _ = none

-- The key that a text begins with, and the rest.
unfoldable pub key_at : Text → Option (Text × Text)
unfolding number_at
key_at [] = none
key_at (c ∷ s) =
    let (run, after) = span is_alnum s in
    if is_letter c && (leb 1 (length run) && leb (length run) 255)
    then map_option (λ (number, rest). (c ∷ (run ++ (b'-' ∷ number)), rest)) (number_at after)
    else none

-- `(^|[^A-Z\d])` and a key, at this place: `^` matches only at the start of the whole text.
unfoldable pub match_at : Bool → Text → Option (Text × Text)
unfolding key_at
match_at at_start [] = none
match_at at_start (c ∷ s) =
    or_else (if at_start then key_at (c ∷ s) else none) (if is_alnum c then none else key_at s)

-- `matchAll`: the search goes on behind each match, and by one character where nothing matches.
unfoldable pub match_all : ℕ → Bool → Text → List Text
unfolding match_at
match_all zero at_start s = []
match_all (suc fuel) at_start [] = []
match_all (suc fuel) at_start (c ∷ s) = elim (match_at at_start (c ∷ s)) [
  | none ↦ match_all fuel false s
  | some (key, rest) ↦ key ∷ match_all fuel false rest
]

-- Each round takes a character at least.
unfoldable pub issue_key_parser : (List Text → List Text) → Text → List Text
unfolding match_all to_upper
issue_key_parser uniq s =
    if is_empty s then [] else uniq (map (map to_upper) (match_all (suc (length s)) true s))

unfoldable pub has_jira_issue_key : (List Text → List Text) → Text → Bool
unfolding issue_key_parser
has_jira_issue_key uniq s = not (is_empty (issue_key_parser uniq s))
