-- ===== src/Sqs/Tests.antt =====
-- The theorems on the queues at concrete messages and errors.
use github_for_jira.Base.{
  ℕ, ◌+◌, ◌-◌, ◌*◌, ◌≤◌, ◌<◌, ◌≡◌, refl, ◌⊎◌, true, false, ◌||◌, ◌&&◌, not, [], ◌∷◌, none, some,
  if◌then◌else◌, here, is_some,
}
use github_for_jira.Github.Errors.{
  Error, github_not_found, jira_client, github_rate_limiting, is_jira_client_error,
}
use github_for_jira.Sync.Types.{pull, Task, BackfillMessagePayload, partial, complete}
use github_for_jira.Sync.Store.{Subscription, RepoSyncState}
use github_for_jira.Sync.Tasks.{World, find_subscription_for_message}
use github_for_jira.Sync.Tasks.Progress.{open_total}
use github_for_jira.Sync.Types.{sync_active, ◌=t=◌}
use github_for_jira.Sqs.Types.{SqsMessageContext}
use github_for_jira.Sqs.RateLimit.{RateLimitResponse, reaches}
use github_for_jira.Sqs.ErrorHandlers.{jira_and_github_errors_handler, is_unretryable_status}
use github_for_jira.Sqs.ErrorHandlers.Decisions.{
  is_rate_limited, jira_and_github_errors_handler-decision,
}
use github_for_jira.Sqs.Queue.{
  Message, SqsQueue, Environment, delete, send_rate_limited, execute_message, gives_up, is_stale,
}
use github_for_jira.Sqs.Queue.Messages.{execute_message-put_back}
use github_for_jira.Sqs.BackfillErrorHandler.{handle_task_error}
use github_for_jira.Sqs.BackfillErrorHandler.Continuation.{
  enqueue, IsSent, handle_task_error-continues, handle_task_error-progress,
}

abbrev jira_error : Error
jira_error = record {
  class = jira_client;
  status = some 404;
  code = none;
  message = "m";
  is_retryable = true;
}

abbrev first_attempt : SqsMessageContext
first_attempt = record { receive_count = 1; last_attempt = false }

jira_and_github_errors_handler-decision_example :
    let r = jira_and_github_errors_handler false 1000000 jira_error first_attempt in
    let dropped =
      is_unretryable_status jira_error.status
      && (is_jira_client_error jira_error.class || not (is_rate_limited false jira_error.class)) in
    (r.is_failure ≡ not dropped)
    × (r.retryable ≡ some (not dropped))
    × (is_some r.retry_delay ≡ not dropped)
jira_and_github_errors_handler-decision_example =
    jira_and_github_errors_handler-decision false 1000000 jira_error first_attempt

abbrev queue : SqsQueue
queue = record { queue_name = "backfill"; timeout_sec = 600; max_attempts = 3 }

abbrev message : Message
message = record {
  receipt_handle = some "rh";
  approximate_receive_count = some 1;
  jira_host = some "https://a.atlassian.net";
  installation_id = some 7;
  webhook_received = none;
}

abbrev nearly_used_up : RateLimitResponse
nearly_used_up = record {
  core = record { limit = 5000; remaining = 100; reset = 1200 };
  graphql = record { limit = 5000; remaining = 5000; reset = 900 };
}

abbrev environment : Environment
environment = record {
  now = 1000000;
  threshold = 90;
  rate_limit = some nearly_used_up;
  send_error = none;
  message_handler = (λ c. none);
  error_handler = (λ e c. none);
}

is_fresh : is_stale queue environment.now message ≡ false
unfolding is_stale
is_fresh = refl

is_reached :
    (reaches environment.threshold nearly_used_up.core
      || reaches environment.threshold nearly_used_up.graphql)
    ≡ true
unfolding reaches
is_reached = refl

execute_message-put_back_example :
    (d : ℕ) × ((execute_message queue environment message ≡ send_rate_limited d ∷ delete "rh" ∷ [])
      × ((600 * 1000 ≤ d) × ((d < 900 * 1000) × ((1200 * 1000 ≤ 1000000 + d) ⊎ (899 * 1000 ≤ d)))))
execute_message-put_back_example =
    execute_message-put_back queue environment message nearly_used_up "rh" refl is_fresh refl refl
      is_reached refl refl

abbrev unlimited : Environment
unlimited = record environment { rate_limit = none }

abbrev subscription : Subscription
subscription = record {
  id = 1;
  jira_host = "https://a.atlassian.net";
  github_installation_id = some 7;
  github_app_id = none;
  sync_status = some sync_active;
  sync_warning = none;
  backfill_since = none;
  total_number_of_repos = some 2;
  number_of_synced_repos = some 0;
  repository_cursor = none;
  repository_status = some complete;
  is_security_permissions_accepted = false;
}

abbrev row : RepoSyncState
row = record {
  id = 1;
  subscription_id = 1;
  repo_id = 11;
  repo_name = "r";
  repo_full_name = "o/r";
  repo_owner = "o";
  repo_url = "u";
  repo_updated_at = none;
  status = (λ t. if t =t= pull then none else some complete);
  cursor = (λ t. none);
  from = (λ t. none);
  failed_code = none;
}

abbrev world : World
world = record {
  db = record { subscriptions = subscription ∷ []; repo_sync_states = row ∷ [] };
  sent = [];
}

abbrev payload : BackfillMessagePayload
payload = record {
  jira_host = "https://a.atlassian.net";
  installation_id = 7;
  github_app_id = none;
  sync_type = some partial;
  start_time = none;
  commits_from_date = none;
  target_tasks = pull ∷ [];
}

abbrev pull_task : Task
pull_task = record { task = pull; repository_id = 11; repository = none; cursor = none }

is_found : find_subscription_for_message payload world.db ≡ some subscription
unfolding find_subscription_for_message
is_found = refl

abbrev not_found_error : Error
not_found_error = record {
  class = github_not_found;
  status = some 404;
  code = none;
  message = "m";
  is_retryable = true;
}

handle_task_error-continues_example :
    let r =
      handle_task_error enqueue 1000000 payload first_attempt pull_task not_found_error world in
    IsSent world r.1 ⊎ ((false ≡ false) × (gives_up queue first_attempt r.0 ≡ false))
handle_task_error-continues_example =
    handle_task_error-continues payload pull_task world subscription is_found refl queue 1000000
      first_attempt not_found_error

handle_task_error-progress_example :
    let r =
      handle_task_error enqueue 1000000 payload first_attempt pull_task not_found_error world in
    ((false ≡ false)
      × ((r.0.is_failure ≡ true) × ((gives_up queue first_attempt r.0 ≡ false) × (r.1 ≡ world))))
    ⊎ (((reset : ℕ) × ((github_not_found ≡ github_rate_limiting reset)
            × (r.1 ≡ enqueue payload (reset - 1000000) world)))
        ⊎ (open_total (pull ∷ []) 1 r.1.db.repo_sync_states
            < open_total (pull ∷ []) 1 world.db.repo_sync_states))
handle_task_error-progress_example =
    handle_task_error-progress payload pull_task world subscription is_found refl (pull ∷ []) refl
      (here (refl, refl)) queue 1000000 first_attempt not_found_error
