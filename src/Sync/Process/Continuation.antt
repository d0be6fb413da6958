-- ===== src/Sync/Process/Continuation.antt =====
-- That a run of the backfill (src/sync/installation.ts) never ends it silently.
use github_for_jira.Base.{
  ℕ, ◌*◌, min, ◌≡◌, refl, sym, ap, ◌∙◌, ◌≢◌, ◌⊎◌, inl, inr, Bool, true, false, List, [], ◌∷◌,
  String, Option, none, some, arith, if◌then◌else◌, Bool-cases, Option-cases, filter, length,
  is_some,
}
use github_for_jira.Sync.Types.{BackfillMessagePayload}
use github_for_jira.Sync.Store.{Subscription, Db}
use github_for_jira.Sync.Tasks.{
  World, SentMessage, find_subscription_for_message, mark_sync_as_complete_and_stop,
}
use github_for_jira.Sync.Deduplicator.{
  Surroundings, Outcome, returned, job_failed, blocked_too_long, e_ok,
  e_other_worker_doing_this_job, e_not_sure_try_again_later, new_deduplicator,
  execute_with_deduplication, max_flag_update_timeout, has_in_progress_flag, when_taken,
}
use github_for_jira.Sync.Deduplicator.Liveness.{IsMoving, execute_with_deduplication-other_iff}
use github_for_jira.Sync.Process.{
  Services, Executor, TaskError, error_of, do_process_installation, keep_message, send_kept, Worker,
  RunResult, finished, failure_of, after_deduplication, process_installation,
}
use github_for_jira.Sync.Process.Sending.{
  next_tasks, by_cases, process-by_cases, do_process_installation-sends,
}

-- Redis-free facts on the deduplicator's answer: `e_ok` is for a job that was run and did not throw,
-- a failed job was run and threw.
ok-ran :
    (timeout : ℕ) (key : String) (own_id : ℕ) (env : Surroundings)
    → let x = execute_with_deduplication (new_deduplicator timeout) key own_id env in
      (x.outcome ≡ returned e_ok → (x.ran_job ≡ true) × (env.job_threw ≡ false))
      × (x.outcome ≡ job_failed → (x.ran_job ≡ true) × (env.job_threw ≡ true))
unfolding execute_with_deduplication new_deduplicator
ok-ran timeout key own_id env =
    let t = min timeout max_flag_update_timeout in
    elim (Option-cases (has_in_progress_flag key (t * 10) env.at_start env.redis)) [
      | inl free ↦ rw (free, execute_with_deduplication) (ground arith, ground arith)
      | inr (id, taken) ↦
          rw (taken, execute_with_deduplication)
            ((λ e. absurd (ne-ok _ e)), (λ e. absurd (ne-failed _ e)))
    ]
  where
    ne-ok : (live : Option Bool) → when_taken live ≢ returned e_ok
    ne-ok live = ground arith

    ne-failed : (live : Option Bool) → when_taken live ≢ job_failed
    ne-failed live = ground arith

-- How a run may end when nothing of it is sent.
pub data IsStopped (worker : Worker) (services : Services) (payload : BackfillMessagePayload)
    (w : World) (subscription : Subscription) (r : RunResult × World) : Type 0 where
  -- the error goes to the queue's error handler
  has_failed : r.0 ≢ finished → IsStopped worker services payload w subscription r
  -- nothing is left to do, and this is recorded
  is_complete :
      (next_tasks services payload w subscription).main_task ≡ none
      → r.1.db ≡ (mark_sync_as_complete_and_stop payload subscription w).db
      → IsStopped worker services payload w subscription r
  -- another worker was seen at work on the same backfill, and duplicates are to be deleted
  is_duplicate :
      worker.delete_duplicates ≡ true
      → (id : ℕ)
      → has_in_progress_flag worker.key 10000 worker.surroundings.at_start worker.surroundings.redis
        ≡ some id
      → IsMoving id worker.surroundings.first_read worker.surroundings.second_read
      → IsStopped worker services payload w subscription r

abbrev pub IsSent : World → World → Type 0
IsSent w w' = (m : SentMessage) × (w'.sent ≡ m ∷ w.sent)

process-after :
    (worker : Worker) (services : Services) (in_order : List Executor → List Executor)
    (payload : BackfillMessagePayload) (w : World)
    → worker.is_blocked ≡ false
    → let job =
        do_process_installation services in_order payload keep_message (record w { sent = [] }) in
      let x =
        execute_with_deduplication
          (new_deduplicator 1000)
          worker.key
          worker.own_id
          (record worker.surroundings { job_threw = is_some job.0 }) in
      process_installation worker services in_order payload keep_message w
      ≡ after_deduplication worker payload keep_message x.outcome job.0 job.1.sent
          (if x.ran_job then record w { db = job.1.db } else w)
unfolding process_installation
process-after worker services in_order payload w free = rw free refl

one-sent :
    (ms : List SentMessage)
    → length ms ≡ 1
    → (m : SentMessage) × ((ns : List SentMessage) × (ms ≡ m ∷ ns))
one-sent [] h = absurd (omega arith)
one-sent (m ∷ ms) h = (m, (ms, refl))

sent-kept :
    (v w : World) (ms : List SentMessage)
    → v.sent ≡ w.sent
    → length ms ≡ 1
    → IsSent w (send_kept keep_message ms v)
sent-kept v w [] same h = absurd (omega arith)
sent-kept v w (m ∷ ms) same h = (m, ap (λ s. m ∷ s) same)

keep-IsSent :
    (b : Bool) (db : Db) (payload : BackfillMessagePayload) (delay : ℕ) (w : World)
    → IsSent w (keep_message payload delay (if b then record w { db = db } else w))
keep-IsSent true db payload delay w = (_, refl)
keep-IsSent false db payload delay w = (_, refl)

failure-ne : (o : Option TaskError) → is_some o ≡ true → failure_of o ≢ finished
failure-ne none h = cc
failure-ne (some e) h = (λ f. cc)

module _ (worker : Worker) (services : Services) (in_order : List Executor → List Executor)
    (payload : BackfillMessagePayload) (w : World) (subscription : Subscription)
    (keeps_count : (p : Executor → Bool) (es : List Executor)
      → length (filter p (in_order es)) ≡ length (filter p es))
    (found : find_subscription_for_message payload w.db ≡ some subscription) where
  abbrev job : Option TaskError × World
  job = do_process_installation services in_order payload keep_message (record w { sent = [] })

  done-stops :
      (next_tasks services payload w subscription).main_task ≡ none
      → (f : Option TaskError) (v : World)
      → ◌≡◌ {A = Option TaskError × World}
          (f, v)
          (none, mark_sync_as_complete_and_stop payload subscription (record w { sent = [] }))
      → IsStopped worker services payload w subscription
          (finished, send_kept keep_message v.sent (record w { db = v.db }))
  unfolding mark_sync_as_complete_and_stop
  done-stops done f v e =
      let e' : v ≡ mark_sync_as_complete_and_stop payload subscription (record w { sent = [] }) =
        ap (λ (x : Option TaskError × World). x.1) e in
      rw e' (is_complete done refl)

  -- What the job leaves if it did not throw.
  job-continues :
      is_some job.0 ≡ false
      → let r =
          after_deduplication worker payload keep_message
            (returned e_ok)
            job.0
            job.1.sent
            (record w { db = job.1.db }) in
        IsSent w r.1 ⊎ IsStopped worker services payload w subscription r
  unfolding after_deduplication
  job-continues ok = elim (Option-cases (next_tasks services payload w subscription).main_task) [
    | inl done ↦
        let w0 : World = record w { sent = [] } in
        let e' : job ≡ (none, mark_sync_as_complete_and_stop payload subscription w0) =
          rw (process-by_cases services in_order payload w0)
            (rw found (rw (done, by_cases) refl)) in
        inr (done-stops done job.0 job.1 e')
    | inr (main, work) ↦
        let (e, n) =
          do_process_installation-sends services in_order payload (record w { sent = [] })
            subscription main keeps_count found work in
        let ok' : is_some (error_of main (services.attempt main)) ≡ false =
          ap is_some (sym e) ∙ ok in
        inl (sent-kept _ w job.1.sent refl (rw ok' at n))
  ]

  outcome-continues :
      (o : Outcome)
      → let x =
          execute_with_deduplication
            (new_deduplicator 1000)
            worker.key
            worker.own_id
            (record worker.surroundings { job_threw = is_some job.0 }) in
        x.outcome ≡ o
        → let r =
            after_deduplication worker payload keep_message o job.0 job.1.sent
              (if x.ran_job then record w { db = job.1.db } else w) in
          IsSent w r.1 ⊎ IsStopped worker services payload w subscription r
  unfolding after_deduplication new_deduplicator
  outcome-continues (returned e_ok) e =
      let (ran, threw) =
        (ok-ran 1000 worker.key worker.own_id
            (record worker.surroundings { job_threw = is_some job.0 })).0
          e in
      rw ran (job-continues threw)
  outcome-continues (returned e_not_sure_try_again_later) e =
      inl (keep-IsSent _ job.1.db payload _ w)
  outcome-continues (returned e_other_worker_doing_this_job) e =
      elim (Bool-cases worker.delete_duplicates) [
        | inl dropped ↦
            let (not_run, id, taken, moving) =
              (execute_with_deduplication-other_iff 1000 worker.key worker.own_id
                  (record worker.surroundings { job_threw = is_some job.0 })).0
                e in
            rw dropped (inr (is_duplicate refl id taken moving))
        | inr kept ↦ rw kept (inl (keep-IsSent _ job.1.db payload _ w))
      ]
  outcome-continues job_failed e =
      let (ran, threw) =
        (ok-ran 1000 worker.key worker.own_id
            (record worker.surroundings { job_threw = is_some job.0 })).1
          e in
      inr (has_failed (failure-ne job.0 threw))
  outcome-continues blocked_too_long e = inr (has_failed (λ f. cc))

-- A backfill that is not blocked and has a subscription never stops silently: each run sends a
-- message, or it fails with an error, or no task is left and the backfill is marked as
-- complete, or another worker is at work on it and duplicates are to be deleted.
pub process_installation-continues :
    (worker : Worker) (services : Services) (in_order : List Executor → List Executor)
    (payload : BackfillMessagePayload) (w : World) (subscription : Subscription)
    (keeps_count : (p : Executor → Bool) (es : List Executor)
      → length (filter p (in_order es)) ≡ length (filter p es))
    → worker.is_blocked ≡ false
    → find_subscription_for_message payload w.db ≡ some subscription
    → let r = process_installation worker services in_order payload keep_message w in
      IsSent w r.1 ⊎ IsStopped worker services payload w subscription r
process_installation-continues worker services in_order payload w subscription keeps_count free
      found =
    rw (process-after worker services in_order payload w free)
      (outcome-continues worker services in_order payload w subscription keeps_count found _ refl)
