-- ===== src/Sqs/Queue/Actions.antt =====
-- Bounds on what the queue of src/sqs/sqs.ts asks of SQS.
use github_for_jira.Base.{
  ℕ, ◌+◌, ◌*◌, ◌<◌, inl, inr, Option, none, some, arith, leb, Bool-cases, Option-cases, All,
  All-append,
}
use github_for_jira.Base.Int.{ℤ, pos, negsuc}
use github_for_jira.Sqs.Types.{SqsMessageContext, ErrorHandlingResult}
use github_for_jira.Sqs.Queue.{
  Action, delete, send_rate_limited, change_visibility, Message, SqsQueue, Environment, send_delay,
  delete_message, change_visibility_timeout, gives_up, handle_sqs_message_execution_error,
  reschedule, run_handler, execute_message, context_of, extra_visibility_timeout_delay,
}
use github_for_jira.Sqs.Queue.Cases.{course, ignored, dropped, waits, runs}

-- What SQS accepts: a delay below 15 minutes, and a visibility timeout below 12 hours.
abbrev pub IsAccepted : Action → Type 0
IsAccepted (delete handle) = Unit
IsAccepted (send_rate_limited delay) = delay < 15 * 60 * 1000
IsAccepted (change_visibility seconds) = seconds < 12 * 60 * 60

delete_message-IsAccepted : (m : Message) → All IsAccepted (delete_message m)
unfolding delete_message
delete_message-IsAccepted m = elim (Option-cases m.receipt_handle) [
  | inl none_ ↦ rw none_ tt
  | inr (h, some_) ↦ rw some_ (tt, tt)
]

change_visibility_timeout-IsAccepted :
    (m : Message) (t : ℤ) → All IsAccepted (change_visibility_timeout m t)
unfolding change_visibility_timeout
change_visibility_timeout-IsAccepted m (negsuc n) = tt
change_visibility_timeout-IsAccepted m (pos t) = elim (Option-cases m.receipt_handle) [
  | inl none_ ↦ rw none_ tt
  | inr (h, some_) ↦ elim (Bool-cases (leb (43199 * 1000) t)) [
    | inl long ↦ rw (some_, long) (omega arith, tt)
    | inr short ↦ let lt : t < 43199 * 1000 = ground arith in rw (some_, short) (omega arith, tt)
  ]
]

handle_error-IsAccepted :
    (q : SqsQueue) (context : SqsMessageContext) (m : Message) (r : Option ErrorHandlingResult)
    → All IsAccepted (handle_sqs_message_execution_error q context m r)
unfolding handle_sqs_message_execution_error
handle_error-IsAccepted q context m none = tt
handle_error-IsAccepted q context m (some r) = elim (Bool-cases (gives_up q context r)) [
  | inl given_up ↦ rw given_up (delete_message-IsAccepted m)
  | inr kept ↦ rw kept (elim (Option-cases r.retry_delay) [
    | inl none_ ↦ rw none_ tt
    | inr (d, some_) ↦ rw some_ (change_visibility_timeout-IsAccepted m d)
  ])
]

send_delay_lt : (d : ℕ) → send_delay d < 15 * 60 * 1000
unfolding send_delay
send_delay_lt d = ground arith

reschedule-IsAccepted :
    (q : SqsQueue) (env : Environment) (m : Message) (d : ℕ) → All IsAccepted (reschedule q env m d)
unfolding reschedule
reschedule-IsAccepted q env m d = elim (Option-cases env.send_error) [
  | inl sent ↦ rw sent (send_delay_lt d, delete_message-IsAccepted m)
  | inr (e, not_sent) ↦
      rw not_sent
        (handle_error-IsAccepted q (context_of q m) m (env.error_handler e (context_of q m)))
]

run_handler-IsAccepted :
    (q : SqsQueue) (env : Environment) (m : Message) → All IsAccepted (run_handler q env m)
unfolding run_handler
run_handler-IsAccepted q env m =
    let first =
      change_visibility_timeout-IsAccepted m
        (pos ((q.timeout_sec + extra_visibility_timeout_delay) * 1000)) in
    elim (Option-cases (env.message_handler (context_of q m))) [
      | inl handled ↦ rw handled (All-append IsAccepted _ _ first (delete_message-IsAccepted m))
      | inr (e, threw) ↦ rw threw (
          All-append IsAccepted _ _ first
            (handle_error-IsAccepted q (context_of q m) m (env.error_handler e (context_of q m))))
    ]

-- Whatever the handlers answer, SQS is asked for no delay of 15 minutes or more and for no
-- visibility timeout of 12 hours or more.
pub execute_message-IsAccepted :
    (q : SqsQueue) (env : Environment) (m : Message) → All IsAccepted (execute_message q env m)
execute_message-IsAccepted q env m = elim (course q env m) [
  | ignored e ↦ rw e tt
  | dropped _ e ↦ rw e (delete_message-IsAccepted m)
  | waits d _ e ↦ rw e (reschedule-IsAccepted q env m d)
  | runs e ↦ rw e (run_handler-IsAccepted q env m)
]
