-- ===== src/Transforms/RepositoryId/Tests.antt =====
-- The ids of repositories and branches at concrete names.
use github_for_jira.Base.{
  ℕ, ◌≡◌, ◌≢◌, refl, Option, none, some, if◌then◌else◌, Text, codes, text_eq, head?, arith, to_hex,
  utf8_text, number_text,
}
use github_for_jira.Transforms.RepositoryId.{calculate_prefix, transform_repository_id}
use github_for_jira.Transforms.RepositoryId.Injective.{
  server_prefix, transform_repository_id-injective,
}
use github_for_jira.Jira.JiraId.{get_jira_id}

-- the host and path of two URLs
abbrev host_and_path : Text → Option Text
host_and_path url =
    if text_eq url (codes "https://github.com")
    then some (codes "github.com/")
    else if text_eq url (codes "http://GHE.co/x?y")
    then some (codes "ghe.co/x")
    else none

abbrev server_id : Text
server_id = codes "676865636f78-42"

on_server_id :
    transform_repository_id host_and_path (some 42) (some (codes "http://GHE.co/x?y"))
    ≡ some server_id
unfolding transform_repository_id to_hex utf8_text number_text
on_server_id = refl

on_cloud_id :
    transform_repository_id host_and_path (some 42) (some (codes "https://github.com"))
    ≡ some (codes "42")
unfolding transform_repository_id to_hex utf8_text number_text
on_cloud_id = refl

transform_repository_id-injective_example :
    (◌≡◌ {A = ℕ} 42 42)
    × (server_prefix host_and_path (some (codes "http://GHE.co/x?y"))
        ≡ server_prefix host_and_path (some (codes "http://GHE.co/x?y")))
transform_repository_id-injective_example =
    transform_repository_id-injective host_and_path 42 42 (some (codes "http://GHE.co/x?y"))
      (some (codes "http://GHE.co/x?y")) server_id on_server_id on_server_id

ghe_prefix :
    calculate_prefix host_and_path (codes "http://GHE.co/x?y") ≡ some (codes "676865636f78")
unfolding calculate_prefix to_hex utf8_text
ghe_prefix = refl

slash_id : get_jira_id (codes "a/b") ≡ codes "~612f62"
unfolding get_jira_id to_hex utf8_text
slash_id = refl

no_tilde : head? (codes "a/b") ≢ some b'~'
no_tilde = ground arith
