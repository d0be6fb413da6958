-- ===== src/Sqs/Queue.antt =====
-- src/sqs/sqs.ts: a queue's listener takes a message, runs its handler and decides what becomes of
-- it. What is asked of SQS is a list of actions, in order. Times are in milliseconds, except for the
-- seconds that SQS is given.
pub mod Actions
pub mod Cases
pub mod Messages
use github_for_jira.Base.{
  ℕ, ◌+◌, ◌-◌, ◌*◌, ◌/◌, ap, Bool, false, ◌||◌, ◌&&◌, not, List, [], ◌∷◌, ◌++◌, String, Option,
  none, some, ltb, leb, ◌==◌, ◌=s=◌, if◌then◌else◌, get_or,
}
use github_for_jira.Base.Int.{ℤ, pos, negsuc}
use github_for_jira.Github.Errors.{Error}
use github_for_jira.Sqs.Types.{SqsMessageContext, ErrorHandlingResult, is_true}
use github_for_jira.Sqs.RateLimit.{RateLimitResponse, preemptive_rate_limit_check}

abbrev pub max_message_delay_sec : ℕ
max_message_delay_sec = 15 * 60

abbrev pub max_message_visibility_timeout_sec : ℕ
max_message_visibility_timeout_sec = 12 * 60 * 60 - 1

abbrev pub extra_visibility_timeout_delay : ℕ
extra_visibility_timeout_delay = 2

abbrev pub one_day_milli : ℕ
one_day_milli = 24 * 60 * 60 * 1000

-- What the queue reads of a message: the payload's fields, if it has a body that holds them.
pub record Message : Type 0 where
  pub receipt_handle : Option String
  pub approximate_receive_count : Option ℕ
  pub jira_host : Option String
  pub installation_id : Option ℕ
  pub webhook_received : Option ℕ

pub record SqsQueue : Type 0 where
  pub queue_name : String
  pub timeout_sec : ℕ
  pub max_attempts : ℕ

-- What is asked of SQS. A rescheduled message has the old payload, marked as rate limited.
pub data Action : Type 0 where
  delete : String → Action
  send_rate_limited : (delay_ms : ℕ) → Action
  change_visibility : (seconds : ℕ) → Action

-- The delay that `sendMessage` hands to SQS.
unfoldable pub send_delay : ℕ → ℕ
send_delay delay_ms =
    if leb (max_message_delay_sec * 1000) delay_ms
    then (max_message_delay_sec - 1) * 1000
    else delay_ms

-- `deleteMessage` reports its failures to the log only.
unfoldable pub delete_message : Message → List Action
delete_message m = elim m.receipt_handle [ none ↦ [] | some handle ↦ delete handle ∷ [] ]

-- `Math.round(ms / 1000)`
abbrev pub round_sec : ℕ → ℕ
round_sec ms = (ms + 500) / 1000

unfoldable pub change_visibility_timeout : Message → ℤ → List Action
change_visibility_timeout m (negsuc n) = []
change_visibility_timeout m (pos timeout_ms) = elim m.receipt_handle [
  | none ↦ []
  | some handle ↦
      if leb (max_message_visibility_timeout_sec * 1000) timeout_ms
      then change_visibility max_message_visibility_timeout_sec ∷ []
      else change_visibility (round_sec timeout_ms) ∷ []
]

-- A webhook's timestamp that is missing or 0.
abbrev pub truthy_time : Option ℕ → Option ℕ
truthy_time none = none
truthy_time (some t) = if t == 0 then none else some t

-- Whether `deleteStaleMessages` deletes the message and ends its processing.
unfoldable pub is_stale : SqsQueue → ℕ → Message → Bool
is_stale q now m =
    if "deployment" =s= q.queue_name
    then elim (truthy_time m.webhook_received) [
      | none ↦ false
      | some received ↦ ltb (received + one_day_milli) now
    ]
    else false

unfoldable pub is_message_reached_retry_limit : SqsQueue → SqsMessageContext → Bool
is_message_reached_retry_limit q context = leb q.max_attempts context.receive_count

unfoldable pub change_visibility_timeout_if_needed : ErrorHandlingResult → Message → List Action
unfolding change_visibility_timeout
change_visibility_timeout_if_needed result m = elim result.retry_delay [
  | none ↦ []
  | some delay ↦ change_visibility_timeout m delay
]

-- Whether a failed message is deleted, by the error handler's result.
unfoldable pub gives_up : SqsQueue → SqsMessageContext → ErrorHandlingResult → Bool
unfolding is_message_reached_retry_limit
gives_up q context result =
    not result.is_failure
    || not (is_true result.retryable)
    || (is_true result.skip_dlq && is_message_reached_retry_limit q context)

-- `none`: the error handler itself threw, which is only logged.
unfoldable pub handle_sqs_message_execution_error :
    SqsQueue → SqsMessageContext → Message → Option ErrorHandlingResult → List Action
unfolding gives_up delete_message change_visibility_timeout_if_needed
handle_sqs_message_execution_error q context m none = []
handle_sqs_message_execution_error q context m (some result) =
    if gives_up q context result
    then delete_message m
    else change_visibility_timeout_if_needed result m

-- What happens outside of the queue while it processes a message: GitHub's answer about the rate
-- limit, the sending of a new message, the message handler (`none` is success; a timeout is an
-- error) and the error handler.
pub record Environment : Type 0 where
  pub now : ℕ
  pub threshold : ℕ
  pub rate_limit : Option RateLimitResponse
  pub send_error : Option Error
  pub message_handler : SqsMessageContext → Option Error
  pub error_handler : Error → SqsMessageContext → Option ErrorHandlingResult

-- `Number(ApproximateReceiveCount || "1")`
abbrev pub context_of : SqsQueue → Message → SqsMessageContext
context_of q m =
    let receive_count = get_or m.approximate_receive_count 1 in
    record { receive_count = receive_count; last_attempt = leb q.max_attempts receive_count }

-- The message is put back with a delay, and then deleted.
unfoldable pub reschedule : SqsQueue → Environment → Message → ℕ → List Action
unfolding send_delay delete_message handle_sqs_message_execution_error
reschedule q env m delay = elim env.send_error [
  | none ↦ send_rate_limited (send_delay delay) ∷ delete_message m
  | some e ↦
      handle_sqs_message_execution_error q (context_of q m) m (env.error_handler e (context_of q m))
]

unfoldable pub run_handler : SqsQueue → Environment → Message → List Action
unfolding delete_message change_visibility_timeout handle_sqs_message_execution_error
run_handler q env m =
    change_visibility_timeout m (pos ((q.timeout_sec + extra_visibility_timeout_delay) * 1000))
    ++ elim (env.message_handler (context_of q m)) [
      | none ↦ delete_message m
      | some e ↦
          handle_sqs_message_execution_error q (context_of q m) m
            (env.error_handler e (context_of q m))
    ]

-- `payload.jiraHost` and `payload.installationId` must be there, and not empty or 0.
abbrev pub has_addressee : Message → Bool
has_addressee m =
    elim m.jira_host [ none ↦ false | some host ↦ not (host =s= "") ]
    && elim m.installation_id [ none ↦ false | some id ↦ not (id == 0) ]

unfoldable pub execute_message : SqsQueue → Environment → Message → List Action
unfolding is_stale delete_message reschedule run_handler preemptive_rate_limit_check
execute_message q env m =
    if not (has_addressee m)
    then []
    else if is_stale q env.now m
    then delete_message m
    else elim (preemptive_rate_limit_check q.queue_name env.threshold env.now env.rate_limit) [
      | some delay ↦ reschedule q env m delay
      | none ↦ run_handler q env m
    ]
