-- ===== src/Transforms/Repository.antt =====
-- src/transforms/transform-repository.ts: the repository in what is sent to Jira. JavaScript's `URL` is a
-- parameter, which gives the host and the path of a URL or refuses it. The sequence id, which is the time,
-- is left out.
use github_for_jira.Base.{ℕ, Option, some, map_option, Text}
use github_for_jira.Github.Errors.{Error}
use github_for_jira.Transforms.RepositoryId.{transform_repository_id}

-- What a transform throws: the error of a request to GitHub, or that of a URL that is refused.
pub data TransformError : Type 0 where
  request_failed : Error → TransformError
  invalid_url : TransformError

pub record Repository : Type 0 where
  pub id : ℕ
  pub full_name : Text
  pub html_url : Text

pub record RepositoryInfo : Type 0 where
  pub id : Text
  pub name : Text
  pub url : Text

-- `none` if the base URL is refused.
unfoldable pub transform_repository_dev_info_bulk :
    (Text → Option Text) → Repository → Option Text → Option RepositoryInfo
transform_repository_dev_info_bulk host_and_path repository base_url =
    map_option (λ id. record { id = id; name = repository.full_name; url = repository.html_url })
      (transform_repository_id host_and_path (some repository.id) base_url)
