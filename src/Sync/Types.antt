-- ===== src/Sync/Types.antt =====
-- The vocabulary of the backfill: src/sync/sync.types.ts, the statuses of src/models/subscription.ts
-- and the backfill message of src/sqs/sqs.types.ts. Times are milliseconds since the epoch; a date
-- that travels as an ISO string is the time that it denotes.
use github_for_jira.Base.{
  ℕ, ◌≡◌, ◌↔◌, Bool, ◌||◌, true, false, List, [], ◌∷◌, String, Option, arith, ◌==◌,
}

pub data TaskType : Type 0 where
  repository pull commit branch build deployment : TaskType
  dependabot_alert secret_scanning_alert code_scanning_alert : TaskType

-- The text of a task type, and the order of the union's members.
abbrev pub task_index : TaskType → ℕ
task_index repository = 0
task_index pull = 1
task_index commit = 2
task_index branch = 3
task_index build = 4
task_index deployment = 5
task_index dependabot_alert = 6
task_index secret_scanning_alert = 7
task_index code_scanning_alert = 8

abbrev pub task_name : TaskType → String
task_name repository = "repository"
task_name pull = "pull"
task_name commit = "commit"
task_name branch = "branch"
task_name build = "build"
task_name deployment = "deployment"
task_name dependabot_alert = "dependabotAlert"
task_name secret_scanning_alert = "secretScanningAlert"
task_name code_scanning_alert = "codeScanningAlert"

infix 50 ◌=t=◌
abbrev pub ◌=t=◌ : TaskType → TaskType → Bool
a =t= b = task_index a == task_index b

of_index : ℕ → TaskType
of_index n = elim (n == 0) [
  | true ↦ repository
  | false ↦ elim (n == 1) [
    | true ↦ pull
    | false ↦ elim (n == 2) [
      | true ↦ commit
      | false ↦ elim (n == 3) [
        | true ↦ branch
        | false ↦ elim (n == 4) [
          | true ↦ build
          | false ↦ elim (n == 5) [
            | true ↦ deployment
            | false ↦ elim (n == 6) [
              | true ↦ dependabot_alert
              | false ↦ elim (n == 7) [ true ↦ secret_scanning_alert | false ↦ code_scanning_alert ]
            ]
          ]
        ]
      ]
    ]
  ]
]

of_index-task_index : (a : TaskType) → of_index (task_index a) ≡ a
unfolding of_index
of_index-task_index a = ground arith

pub =t=_iff : (a b : TaskType) → ((a =t= b) ≡ true) ↔ (a ≡ b)
=t=_iff a b = ground (arith, of_index-task_index a, of_index-task_index b)

pub data SyncType : Type 0 where
  full partial : SyncType

pub data TaskStatus : Type 0 where
  pending complete failed : TaskStatus

pub data SyncStatus : Type 0 where
  sync_pending sync_complete sync_active sync_failed : SyncStatus

-- `tasks.includes(task)`
abbrev pub includes : List TaskType → TaskType → Bool
includes [] t = false
includes (x ∷ xs) t = x =t= t || includes xs t

pub record Repository : Type 0 where
  pub id : ℕ
  pub name : String
  pub full_name : String
  pub owner_login : String
  pub html_url : String
  pub updated_at : Option ℕ

pub record Task : Type 0 where
  pub task : TaskType
  pub repository_id : ℕ
  pub repository : Option Repository
  pub cursor : Option String

-- What the backfill reads of a message; `gitHubAppConfig?.gitHubAppId` is one field.
pub record BackfillMessagePayload : Type 0 where
  pub jira_host : String
  pub installation_id : ℕ
  pub github_app_id : Option ℕ
  pub sync_type : Option SyncType
  pub start_time : Option ℕ
  pub commits_from_date : Option ℕ
  pub target_tasks : List TaskType

-- The cursors of the fetched edges; an empty list ends the task.
pub record TaskResultPayload : Type 0 where
  pub edges : List String
  pub has_jira_payload : Bool
