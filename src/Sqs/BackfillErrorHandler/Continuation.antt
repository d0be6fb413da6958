-- ===== src/Sqs/BackfillErrorHandler/Continuation.antt =====
-- That the error handler of src/sqs/backfill-error-handler.ts keeps a backfill going.
use github_for_jira.Base.{
  ℕ, ◌-◌, ◌<◌, ◌≡◌, refl, ◌⊎◌, inl, inr, Bool, true, false, List, [], ◌∷◌, String, some, arith,
  if◌then◌else◌, Any,
}
use github_for_jira.Github.Errors.{
  Error, ErrorClass, github_invalid_permissions, github_rate_limiting, github_not_found,
}
use github_for_jira.Sync.Types.{TaskType, includes, Task, BackfillMessagePayload, ◌=t=◌, repository}
use github_for_jira.Sync.Store.{Subscription}
use github_for_jira.Sync.Tasks.{
  World, SentMessage, Sender, update_task_status_and_continue,
  mark_current_task_as_failed_and_continue, find_subscription_for_message,
}
use github_for_jira.Sync.Scheduler.{is_open}
use github_for_jira.Sync.Tasks.Columns.{is_row_of}
use github_for_jira.Sync.Tasks.Failures.{failed_db}
use github_for_jira.Sync.Tasks.Progress.{
  open_total, update_task_status-open_total, mark_current_task_as_failed-open_total,
}
use github_for_jira.Sqs.Types.{SqsMessageContext, ErrorHandlingResult}
use github_for_jira.Sqs.ErrorHandlers.{handle_unknown_error}
use github_for_jira.Sqs.Queue.{SqsQueue, gives_up}
use github_for_jira.Sqs.BackfillErrorHandler.{dealt_with, handle_task_error}

-- The handler's choice, with its results as arguments.
abbrev choose : {A : Type 0} → ErrorClass → Bool → A → (ℕ → A) → A → A → A → A
choose github_invalid_permissions last a b c d e = a
choose (github_rate_limiting reset) last a b c d e = b reset
choose github_not_found last a b c d e = c
choose _ last a b c d e = if last then d else e

choose-elim :
    {A : Type 0} (P : A → Type 0) (k : ErrorClass) (last : Bool) (a : A) (b : ℕ → A) (c d e : A)
    → P a
    → ((n : ℕ) → k ≡ github_rate_limiting n → P (b n))
    → P c
    → P d
    → (last ≡ false → P e)
    → P (choose k last a b c d e)
choose-elim P github_invalid_permissions last a b c d e pa pb pc pd pe = pa
choose-elim P (github_rate_limiting reset) last a b c d e pa pb pc pd pe = pb reset refl
choose-elim P github_not_found last a b c d e pa pb pc pd pe = pc
choose-elim P _ true a b c d e pa pb pc pd pe = pd
choose-elim P _ false a b c d e pa pb pc pd pe = pe refl

handle_task_error-choose :
    (send : Sender) (now : ℕ) (payload : BackfillMessagePayload) (context : SqsMessageContext)
    (task : Task) (cause : Error) (w : World)
    → handle_task_error send now payload context task cause w
      ≡ choose cause.class context.last_attempt
          (dealt_with, mark_current_task_as_failed_and_continue payload task true send cause w)
          (λ reset. (dealt_with, send payload (reset - now) w))
          (
            dealt_with,
            update_task_status_and_continue payload
                (record { edges = []; has_jira_payload = false })
                task
                send
                w,
          )
          (dealt_with, mark_current_task_as_failed_and_continue payload task false send cause w)
          (handle_unknown_error cause context, w)
unfolding handle_task_error
handle_task_error-choose send now payload context task cause w = ground arith

unknown-kept :
    (q : SqsQueue) (context : SqsMessageContext) (e : Error)
    → gives_up q context (handle_unknown_error e context) ≡ false
unfolding gives_up handle_unknown_error
unknown-kept q context e = refl

unknown-fails :
    (context : SqsMessageContext) (e : Error) → (handle_unknown_error e context).is_failure ≡ true
unfolding handle_unknown_error
unknown-fails context e = refl

-- The queue keeps the outgoing messages.
abbrev pub enqueue : Sender
enqueue payload delay w = record w {
  sent = record { payload = payload; delay_ms = delay } ∷ w.sent;
}

abbrev pub IsSent : World → World → Type 0
IsSent w w' = (m : SentMessage) × (w'.sent ≡ m ∷ w.sent)

module _ (payload : BackfillMessagePayload) (task : Task) (w : World) (subscription : Subscription)
    (found : find_subscription_for_message payload w.db ≡ some subscription)
    (in_rows : (task.task =t= repository) ≡ false) where
  marked-IsSent :
      (flag : Bool) (err : Error)
      → IsSent w (mark_current_task_as_failed_and_continue payload task flag enqueue err w)
  marked-IsSent flag err =
      rw (failed_db payload task flag enqueue (λ p d v. refl) err w subscription found in_rows)
        (_, refl)

  updated-IsSent :
      (edges : List String) (b : Bool)
      → IsSent w (
          update_task_status_and_continue payload
            (record { edges = edges; has_jira_payload = b })
            task
            enqueue
            w)
  unfolding update_task_status_and_continue
  updated-IsSent edges b = rw (found, update_task_status_and_continue) (_, refl)

  -- After an error of a repository's task, with its subscription still there, either one message more is sent, or
  -- it was not the last attempt and the queue keeps the message for another one.
  pub handle_task_error-continues :
      (q : SqsQueue) (now : ℕ) (context : SqsMessageContext) (cause : Error)
      → let r = handle_task_error enqueue now payload context task cause w in
        IsSent w r.1 ⊎ ((context.last_attempt ≡ false) × (gives_up q context r.0 ≡ false))
  handle_task_error-continues q now context cause =
      rw (handle_task_error-choose enqueue now payload context task cause w) (
        choose-elim
          (λ (r : ErrorHandlingResult × World).
            IsSent w r.1 ⊎ ((context.last_attempt ≡ false) × (gives_up q context r.0 ≡ false)))
          cause.class context.last_attempt _ _ _ _ _ (inl (marked-IsSent true cause))
          (λ reset _. inl (_, refl)) (inl (updated-IsSent [] false))
          (inl (marked-IsSent false cause)) (λ early. inr (early, unknown-kept q context cause)))

module _ (payload : BackfillMessagePayload) (task : Task) (w : World) (subscription : Subscription)
    (found : find_subscription_for_message payload w.db ≡ some subscription)
    (in_rows : (task.task =t= repository) ≡ false) (tasks : List TaskType)
    (selected : includes tasks task.task ≡ true)
    (is_open_ : Any
      (λ r.
        (is_row_of subscription.id task.repository_id r ≡ true)
        × (is_open (r.status task.task) ≡ true))
      w.db.repo_sync_states) where
  -- An error of an open task of a repository, of a selected type, with its subscription still there:
  -- it was not the last attempt, the handler answers with a failure for which the queue keeps the message,
  -- and nothing changes, or it is a rate limit and the same message is sent for the time of the reset, or the
  -- subscription has fewer open tasks of the selected types than before.
  pub handle_task_error-progress :
      (q : SqsQueue) (now : ℕ) (context : SqsMessageContext) (cause : Error)
      → let r = handle_task_error enqueue now payload context task cause w in
        ((context.last_attempt ≡ false)
          × ((r.0.is_failure ≡ true) × ((gives_up q context r.0 ≡ false) × (r.1 ≡ w))))
        ⊎ (((reset : ℕ) × ((cause.class ≡ github_rate_limiting reset)
                × (r.1 ≡ enqueue payload (reset - now) w)))
            ⊎ (open_total tasks subscription.id r.1.db.repo_sync_states
                < open_total tasks subscription.id w.db.repo_sync_states))
  handle_task_error-progress q now context cause =
      let marked =
        mark_current_task_as_failed-open_total payload task enqueue (λ p d v. refl) w subscription
          found in_rows tasks selected is_open_ in
      rw (handle_task_error-choose enqueue now payload context task cause w) (
        choose-elim
          (λ (r : ErrorHandlingResult × World).
            ((context.last_attempt ≡ false)
              × ((r.0.is_failure ≡ true) × ((gives_up q context r.0 ≡ false) × (r.1 ≡ w))))
            ⊎ (((reset : ℕ) × ((cause.class ≡ github_rate_limiting reset)
                    × (r.1 ≡ enqueue payload (reset - now) w)))
                ⊎ (open_total tasks subscription.id r.1.db.repo_sync_states
                    < open_total tasks subscription.id w.db.repo_sync_states)))
          cause.class context.last_attempt _ _ _ _ _ (inr (inr (marked true cause)))
          (λ reset e. inr (inl (reset, (e, refl))))
          (inr (
            inr (
              update_task_status-open_total payload task enqueue (λ p d v. refl) w subscription
                found in_rows tasks selected is_open_ _ refl)))
          (inr (inr (marked false cause)))
          (λ early.
            inl (early, (unknown-fails context cause, (unknown-kept q context cause, refl)))))
