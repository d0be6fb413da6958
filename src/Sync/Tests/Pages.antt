-- ===== src/Sync/Tests/Pages.antt =====
-- The pages of workflow runs at a concrete repository with three runs, and of its alerts.
use github_for_jira.Base.{
  ◌⊎◌, ◌==◌, if◌then◌else◌, length, ℕ, ◌-◌, ◌*◌, ◌≡◌, refl, inr, false, List, [], ◌∷◌, none, some,
  take, drop, Text, codes, arith, number_text,
}
use github_for_jira.Sync.Pages.Alerts.{
  FetchError, AlertServices, get_code_scanning_alert_task, get_dependabot_alert_task,
  get_secret_scanning_alert_task,
}
use github_for_jira.Sync.Pages.Alerts.Walk.{backfill_alerts, IsSent}
use github_for_jira.Sync.Pages.Alerts.Sending.{
  of_code_scanning, of_dependabot, of_secret_scanning, alert_tasks-IsSent,
}
use github_for_jira.Transforms.Alerts.SecretScanning.{SecretScanningAlert}
use github_for_jira.Sync.Cursor.{missing}
use github_for_jira.Transforms.Repository.{Repository, RepositoryInfo}
use github_for_jira.Transforms.RepositoryId.{transform_repository_id}
use github_for_jira.Sync.Pages.Builds.{ListedRun, BuildServices}

abbrev workflow_run : ℕ → Text → ListedRun
workflow_run n branch = record {
  run = record {
    conclusion = some (codes "success");
    head_branch = branch;
    head_commit_message = none;
    html_url = codes "u";
    name = codes "CI";
    workflow_id = 5;
    pull_requests = [];
    owner = codes "o";
    repository_name = codes "r";
    run_number = n;
    status = codes "completed";
    updated_at = codes "now";
  };
  created_at = n;
}

abbrev workflow_runs : List ListedRun
workflow_runs =
    workflow_run 3 (codes "AB-3")
    ∷ workflow_run 2 (codes "main")
    ∷ workflow_run 1 (codes "AB-1 fix")
    ∷ []

abbrev repository : Repository
repository = record { id = 1; full_name = codes "o/r"; html_url = codes "h" }

abbrev services : BuildServices
services = record {
  uniq = (λ ks. ks);
  always_send = false;
  host_and_path = (λ url. none);
  base_url = none;
  repository = repository;
  compare = (λ owner repo base head. none);
  list_workflow_runs =
      (λ per_page page_no. inr (take per_page (drop ((page_no - 1) * per_page) workflow_runs)));
}

abbrev info : RepositoryInfo
info = record { id = codes "1"; name = codes "o/r"; url = codes "h" }

abbrev alert_services : AlertServices
alert_services = record {
  lodash = record { truncate = (λ n s. s); capitalize = (λ s. s) };
  lower_case = (λ s. s);
  date_of = length;
  host_and_path = (λ url. none);
  base_url = none;
  repository_id = 1;
}

alert_id : transform_repository_id (λ url. none) (some 1) none ≡ some (codes "1")
unfolding transform_repository_id number_text
alert_id = refl

abbrev secret : ℕ → SecretScanningAlert
secret n = record {
  number = n;
  state = some (codes "open");
  html_url = codes "u";
  created_at = codes (if n == 1 then "1" else "22");
  updated_at = none;
  resolved_at = none;
  secret_type = codes "t";
  secret_type_display_name = none;
}

abbrev secrets : List SecretScanningAlert
secrets = secret 3 ∷ secret 2 ∷ secret 1 ∷ []

abbrev pages : {A : Type 0} → List A → ℕ → ℕ → FetchError ⊎ List A
pages alerts per_page page_no = inr (take per_page (drop ((page_no - 1) * per_page) alerts))

abbrev age : Text → ℕ
age = alert_services.date_of

-- With one alert on a page and a start date of 2.
alert_tasks-IsSent_example :
    IsSent
      (λ a. age a.created_at)
      (some 2)
      (of_code_scanning alert_services (codes "1"))
      []
      (backfill_alerts
        (λ c. get_code_scanning_alert_task alert_services (pages []) c 1 (some 2))
        1
        missing)
    × (IsSent
          (λ a. age a.created_at)
          (some 2)
          (of_dependabot alert_services (codes "1"))
          []
          (backfill_alerts
            (λ c. get_dependabot_alert_task alert_services (pages []) c 1 (some 2))
            1
            missing)
        × IsSent
            (λ a. age a.created_at)
            (some 2)
            (of_secret_scanning alert_services (codes "1"))
            secrets
            (backfill_alerts
              (λ c. get_secret_scanning_alert_task alert_services (pages secrets) c 1 (some 2))
              4
              missing))
alert_tasks-IsSent_example =
    alert_tasks-IsSent alert_services (codes "1") alert_id 1 (omega arith) (some 2) [] (pages [])
      (record { newest_first = tt; listed = (λ page_no. refl) }) [] (pages [])
      (record { newest_first = tt; listed = (λ page_no. refl) }) secrets (pages secrets)
      (record {
        newest_first = ((omega arith, (omega arith, tt)), ((omega arith, tt), (tt, tt)));
        listed = (λ page_no. refl);
      })
