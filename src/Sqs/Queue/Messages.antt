-- ===== src/Sqs/Queue/Messages.antt =====
-- What becomes of a message in src/sqs/sqs.ts: when it is deleted, and what a rate limit does to it.
use github_for_jira.Base.{
  ℕ, ◌+◌, ◌*◌, ◌≤◌, ◌<◌, max, ◌≡◌, refl, ◌⊎◌, inl, inr, Bool, true, false, ◌||◌, [], ◌∷◌, String,
  none, some, arith, ◌=s=◌, any,
}
use github_for_jira.Github.Errors.{Error}
use github_for_jira.Sqs.Types.{ErrorHandlingResult}
use github_for_jira.Sqs.RateLimit.{
  RateLimitResponse, preemptive_rate_limit_check, rate_reset_time, reaches, targeted_queues,
}
use github_for_jira.Sqs.Queue.{
  Action, delete, send_rate_limited, change_visibility, Message, SqsQueue, Environment, send_delay,
  delete_message, gives_up, reschedule, execute_message, context_of, has_addressee, is_stale,
}
use github_for_jira.Sqs.Queue.Cases.{execute_message-outcome, limited_for}

abbrev pub is_delete : Action → Bool
is_delete (delete handle) = true
is_delete (send_rate_limited d) = false
is_delete (change_visibility s) = false

-- The reasons for which a message may go.
pub data IsDone (q : SqsQueue) (env : Environment) (m : Message) : Type 0 where
  handled : env.message_handler (context_of q m) ≡ none → IsDone q env m
  stale : is_stale q env.now m ≡ true → IsDone q env m
  put_back : (d : ℕ) → limited_for q env ≡ some d → env.send_error ≡ none → IsDone q env m
  given_up :
      (e : Error) (r : ErrorHandlingResult)
      → (env.message_handler (context_of q m) ≡ some e) ⊎ (env.send_error ≡ some e)
      → env.error_handler e (context_of q m) ≡ some r
      → gives_up q (context_of q m) r ≡ true
      → IsDone q env m

-- The time until both of GitHub's quotas are renewed, if the message waits: at least ten minutes.
limited_wait :
    (q : SqsQueue) (env : Environment) (r : RateLimitResponse)
    → any (λ t. t =s= q.queue_name) targeted_queues ≡ true
    → env.rate_limit ≡ some r
    → (reaches env.threshold r.core || reaches env.threshold r.graphql) ≡ true
    → limited_for q env ≡ some (rate_reset_time env.now r)
unfolding preemptive_rate_limit_check
limited_wait q env r targeted limit reached = rw (targeted, limit, reached)

rate_reset_time_le : (now : ℕ) (r : RateLimitResponse) → 600 * 1000 ≤ rate_reset_time now r
unfolding rate_reset_time
rate_reset_time_le now r = omega arith

send_delay-bounds :
    (d : ℕ)
    → 600 * 1000 ≤ d
    → (600 * 1000 ≤ send_delay d)
      × ((send_delay d < 900 * 1000) × ((send_delay d ≡ d) ⊎ (899 * 1000 ≤ send_delay d)))
unfolding send_delay
send_delay-bounds d h = ground arith

rate_reset_time-reset :
    (now : ℕ) (r : RateLimitResponse)
    → max r.core.reset r.graphql.reset * 1000 ≤ now + rate_reset_time now r
unfolding rate_reset_time
rate_reset_time-reset now r = omega arith

reschedule-sent :
    (q : SqsQueue) (env : Environment) (m : Message) (handle : String) (d : ℕ)
    → env.send_error ≡ none
    → m.receipt_handle ≡ some handle
    → reschedule q env m d ≡ send_rate_limited (send_delay d) ∷ delete handle ∷ []
unfolding reschedule delete_message
reschedule-sent q env m handle d sent has_handle = rw (sent, has_handle) refl

-- On the queues that are targeted, a message with an addressee and a receipt handle that is not stale
-- and comes while one of GitHub's quotas has reached the threshold is not processed: if a copy of it
-- can be sent, it is sent first and then the message is deleted; the copy waits ten minutes or more and
-- less than fifteen, and until both quotas are renewed or at least 899 seconds.
pub execute_message-put_back :
    (q : SqsQueue) (env : Environment) (m : Message) (r : RateLimitResponse) (handle : String)
    → has_addressee m ≡ true
    → is_stale q env.now m ≡ false
    → any (λ t. t =s= q.queue_name) targeted_queues ≡ true
    → env.rate_limit ≡ some r
    → (reaches env.threshold r.core || reaches env.threshold r.graphql) ≡ true
    → env.send_error ≡ none
    → m.receipt_handle ≡ some handle
    → (d : ℕ) × ((execute_message q env m ≡ send_rate_limited d ∷ delete handle ∷ [])
        × ((600 * 1000 ≤ d)
            × ((d < 900 * 1000)
                × ((max r.core.reset r.graphql.reset * 1000 ≤ env.now + d) ⊎ (899 * 1000 ≤ d)))))
execute_message-put_back q env m r handle addressed fresh targeted limit reached sent has_handle =
    let e = execute_message-outcome q env m in
    let e' = rw (addressed, fresh, limited_wait q env r targeted limit reached) at e in
    let e'' =
      rw (reschedule-sent q env m handle (rate_reset_time env.now r) sent has_handle) at e' in
    let (least, (less, or_all)) =
      send_delay-bounds (rate_reset_time env.now r) (rate_reset_time_le env.now r) in
    (send_delay (rate_reset_time env.now r), (e'', (least, (less, waits_long or_all))))
  where
    waits_long :
        ((send_delay (rate_reset_time env.now r) ≡ rate_reset_time env.now r)
          ⊎ (899 * 1000 ≤ send_delay (rate_reset_time env.now r)))
        → (max r.core.reset r.graphql.reset * 1000
            ≤ env.now + send_delay (rate_reset_time env.now r))
          ⊎ (899 * 1000 ≤ send_delay (rate_reset_time env.now r))
    waits_long (inl e) = inl (rw e (rate_reset_time-reset env.now r))
    waits_long (inr h) = inr h
