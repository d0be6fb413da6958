-- ===== src/Transforms/RepositoryId.antt =====
-- src/transforms/transform-repository-id.ts: the id of a repository in Jira. JavaScript's `URL` is a
-- parameter, which gives the host and the path of a URL, in ASCII, or refuses it.
pub mod Prefixes
pub mod Injective
mod Tests
use github_for_jira.Base.{
  ℕ, ◌+◌, Bool, ◌||◌, ◌&&◌, List, ◌∷◌, ◌++◌, map, Option, none, some, leb, if◌then◌else◌, filter,
  is_empty, take, and_then, map_option, Text, codes, text_eq, is_digit, number_text, utf8_text,
  to_hex, from_hex,
}

abbrev pub lower : Text → Text
lower s = map (λ c. if leb b'A' c && leb c b'Z' then c + 32 else c) s

-- what `[\W_]` does not match
abbrev pub is_letter_or_digit : ℕ → Bool
is_letter_or_digit c = is_digit c || ((leb b'a' c && leb c b'z') || (leb b'A' c && leb c b'Z'))

-- The letters and digits of the host and the path, in lower case.
unfoldable pub server_name : (Text → Option Text) → Text → Option Text
server_name host_and_path url =
    map_option (λ s. filter is_letter_or_digit (lower s)) (host_and_path url)

unfoldable pub calculate_prefix : (Text → Option Text) → Text → Option Text
unfolding server_name
calculate_prefix host_and_path url =
    map_option (λ s. take 512 (to_hex (utf8_text s))) (server_name host_and_path url)

abbrev pub github_cloud_baseurl : Text
github_cloud_baseurl = codes "https://github.com"

-- `String(repositoryId)`
abbrev pub repository_text : Option ℕ → Text
repository_text none = codes "undefined"
repository_text (some n) = number_text n

-- `none` stands for the error of a URL that is refused.
unfoldable pub transform_repository_id : (Text → Option Text) → Option ℕ → Option Text → Option Text
unfolding calculate_prefix
transform_repository_id host_and_path repository_id none = some (repository_text repository_id)
transform_repository_id host_and_path repository_id (some url) =
    if is_empty url
    then some (repository_text repository_id)
    else and_then (calculate_prefix host_and_path url) (λ prefix.
      and_then (calculate_prefix host_and_path github_cloud_baseurl) (λ cloud. some (
        if text_eq prefix cloud
        then repository_text repository_id
        else prefix ++ (b'-' ∷ repository_text repository_id))))

-- The bytes; `toString` reads those of ASCII, which all prefixes are of, as the characters.
unfoldable pub reverse_calculate_prefix : Text → List ℕ
reverse_calculate_prefix hash = from_hex hash
