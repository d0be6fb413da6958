-- ===== src/Lib.antt =====
-- GitHub for Jira connects GitHub repositories with Jira: webhooks of GitHub, and a backfill of what
-- was there before, are turned into what Jira's APIs take. This library models the backfill, the
-- queues that it and the webhooks go through, and parts of what is sent to Jira.
--
-- How the parts interact: a backfill is started by findOrStartSync (src/sync/sync-utils.ts), which
-- resets the two tables and sends a message. A queue (src/sqs/sqs.ts) hands the message to
-- processInstallation (src/sync/installation.ts), which runs under a deduplicator
-- (src/sync/deduplicator.ts), asks the scheduler (src/sync/scheduler.ts) for a main task and
-- subtasks, fetches a page for each and sends it to Jira (src/transforms, src/jira/client), writes
-- the progress to the tables (src/models) and sends the message for the next page. Errors, which the
-- clients classify (src/github/client), go to the error handlers (src/sqs/error-handlers.ts,
-- src/sqs/backfill-error-handler.ts), which decide on a retry.
--
-- Base: names of the libraries passed on, tests on numbers and texts, lists and options.
--   Base/Chars has texts as lists of characters, numbers in decimals and JavaScript's code units, Base/Utf8
--   the bytes of a text and their hexadecimal digits.
-- Github/Errors, Github/Failures: the error classes and handleFailedRequest; an instance of a class is
--   a record with its class, and instanceof is a Boolean test.
-- Github/Tokens: src/github/client/auth-token.ts, app-token-holder.ts and installation-token-cache.ts over
--   an LRU cache, a record of operations with what its documentation says of them; the requests of a
--   process on the cache are a step relation. Github/InstallationId: installation-id.ts.
-- Sync/Types, Sync/Store: the task types, the tables and their queries; a table is a list of rows, a
--   row has one status, cursor and start date for each task type.
-- Sync/Scheduler: getNextTasks, with the shuffle and GitHub's quotas as parameters.
-- Sync/Tasks: updateTaskStatusAndContinue, markCurrentTaskAsFailedAndContinue, updateRepo,
--   getFailedCode, markSyncAsCompleteAndStop, as functions on the tables and the sent messages.
-- Sync/Process: doProcessInstallation and processInstallation; the fetch of a page is a parameter,
--   and so is the order in which the concurrent executors write. Each executor's writes are one step.
-- Sync/Start: findOrStartSync, resetTargetedTasks, resetFailedCode, getCommitSinceDate.
-- Sync/Deduplicator: executeWithDeduplication, its timer, isJobRunnerLive and the flag in Redis; what
--   a call reads while it waits, how late the timer fires and whether its writes fail are parameters; the
--   timer's firings until a time are on fuel, one for each millisecond of that time. Sync/Deduplicator/Interleaving has the calls to Redis of
--   several workers as a step relation.
-- Sync/Cursor: PageSizeAwareCounterCursor.
-- Sync/Pages: src/sync/parallel-page-fetcher.ts; Sync/Pages/Builds: src/sync/build.ts, with the run of the
--   task again and again until it has no edge; Sync/Pages/Alerts: src/sync/code-scanning-alerts.ts,
--   dependabot-alerts.ts and secret-scanning-alerts.ts. The requests to GitHub are parameters.
-- Sqs/Queue: executeMessage and what it calls, as the list of what is asked of SQS; the handlers are
--   parameters. Sqs/RateLimit: preemptiveRateLimitCheck. Sqs/ErrorHandlers: the handlers of failed
--   messages. Sqs/BackfillErrorHandler: handleTaskError.
-- Jira/IssueKeys, Jira/Batches: the limits on issue keys and the portions of commits of
--   src/jira/client/jira-client.ts; lodash's uniq is a parameter.
-- Jira/Axios: getErrorMiddleware and getRetryAfterInSec of src/jira/client/axios.ts; parseInt is a
--   parameter.
-- Jira/IssueKeyParser: the expression for issue keys of src/util/jira-utils.ts as a scanner.
-- Jira/Jwt, Jira/Jwt/Canonical: the verification of Jira's tokens of src/jira/util/jwt.ts and the canonical
--   form of a request; decoding, hashing, the public keys and decodeURIComponent are parameters.
-- Jira/JiraId: src/jira/util/id.ts.
-- Models/Subscriptions: the installing and uninstalling of src/models/subscription.ts, on a table that is a
--   list of rows; the id of a new row is a parameter.
-- Transforms/Author: authors and messages of src/util/jira-utils.ts, with lodash's pickBy written out.
-- Transforms/RepositoryId, Transforms/Repository: src/transforms/transform-repository-id.ts and
--   transform-repository.ts; JavaScript's URL is a parameter.
-- Transforms/PullRequest, Transforms/Workflow, Transforms/Branch, Transforms/Commit:
--   src/transforms/transform-pull-request.ts, transform-workflow.ts, transform-branch.ts and
--   transform-commit.ts; the requests to GitHub and lodash's uniq are parameters.
-- Transforms/Alerts: src/transforms/util/github-security-alerts.ts, transform-code-scanning-alert.ts,
--   transform-dependabot-alert.ts and transform-secret-scanning-alert.ts, with the backfill's variants;
--   lodash's truncate and capitalize, substring and parseInt are parameters.
-- Transforms/Deployment: src/transforms/transform-deployment.ts; minimatch, the regular expression of
--   the environments and the lower-casing are parameters.
-- Transforms/Push: src/transforms/push.ts, the shas of a push and processPush; the parser of issue
--   keys, the fetches, the sending and what Jira knows of issue keys are parameters.
--
-- Of lodash, without, intersection, pick and compact are written out on the lists that the code gives
-- them. Times are milliseconds in native numbers, which do not wrap; a difference that can be negative is an
-- integer (Base/Int). There is fuel in four places. The loops over the portions of
-- commits take 400 in each round, and get one more than there are commits. The search for issue keys
-- takes a character at least in each round, and gets one more than the text has. The digits of n are
-- printed with fuel n + 1. The task for builds is run once more than there are workflow runs.
--
-- Not modelled: logging, metrics and Sentry, which change no state; the database and Redis beyond the
-- queries and keys named above; HTTP, the routes and the user interface; the GraphQL
-- variant of pull requests; the fetches of repositories, pull requests, commits, branches and deployments.
pub mod Base
pub mod Github
pub mod Sync
pub mod Sqs
pub mod Jira
pub mod Models
pub mod Transforms
