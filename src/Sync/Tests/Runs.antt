-- ===== src/Sync/Tests/Runs.antt =====
-- The theorems on a run of the backfill and on the deduplicator at concrete values.
use github_for_jira.Base.{
  arith, ℕ, ◌*◌, ◌+◌, ◌<◌, ◌≤◌, ◌≡◌, refl, ◌↔◌, ◌⊎◌, inl, true, false, List, [], ◌∷◌, none, some,
  length,
}
use github_for_jira.Sync.Types.{pull}
use github_for_jira.Sync.Scheduler.{get_next_tasks}
use github_for_jira.Sync.Process.{
  Services, Executor, error_of, do_process_installation, keep_message, Worker, process_installation,
}
use github_for_jira.Sync.Process.Sending.{do_process_installation-sends}
use github_for_jira.Sync.Process.Continuation.{process_installation-continues, IsSent, IsStopped}
use github_for_jira.Sync.Tests.{subscription, row, world, message, page, is_found}
use github_for_jira.Sync.Scheduler.{to_task}
use github_for_jira.Sync.Deduplicator.{
  Flag, refresh, Surroundings, execute_with_deduplication, new_deduplicator, redis_get, returned,
  e_other_worker_doing_this_job, has_in_progress_flag,
}
use github_for_jira.Sync.Deduplicator.Interleaving.{
  Workers, idle, running, Steps, execute_with_deduplication-both_running,
}
use github_for_jira.Sync.Deduplicator.Liveness.{IsMoving, execute_with_deduplication-other_iff}
use github_for_jira.Sync.Deduplicator.Refresh.{
  execution, timeout_of, execute_with_deduplication-keeps_out,
}

abbrev services : Services
services = record {
  shuffle = (λ l. l);
  limits = none;
  security_enabled = false;
  attempt = (λ t. inl (page ("c" ∷ [])));
}

abbrev as_started : List Executor → List Executor
as_started es = es

work_left :
    (get_next_tasks services.shuffle services.limits services.security_enabled subscription
      message.target_tasks world.db).main_task
    ≡ some (to_task (row 2) pull)
unfolding get_next_tasks
work_left = refl

do_process_installation-sends_example :
    let r = do_process_installation services as_started message keep_message world in
    (r.0 ≡ error_of (to_task (row 2) pull) (services.attempt (to_task (row 2) pull)))
    × (length r.1.sent ≡ 1)
do_process_installation-sends_example =
    do_process_installation-sends services as_started message world subscription
      (to_task (row 2) pull) (λ p es. refl) is_found work_left

abbrev old_flag : Flag
old_flag = record { job_runner_id = 3; timestamp = 99000 }

abbrev new_flag : Flag
new_flag = record { job_runner_id = 3; timestamp = 101000 }

abbrev surroundings : Surroundings
surroundings = record {
  at_start = 100000;
  redis = (λ k. none);
  first_read = some old_flag;
  second_read = some new_flag;
  timer = (λ s. record { late = 7; fails = false });
  at_end = 110000;
  redis_at_end = (λ k. none);
  job_threw = false;
}

abbrev taken : Surroundings
taken = record surroundings { redis = (λ k. some old_flag) }

abbrev worker : Worker
worker = record {
  key = "i-7";
  own_id = 4;
  surroundings = surroundings;
  is_blocked = false;
  delete_duplicates = false;
  jitter_ms = 5;
}

process_installation-continues_example :
    let r = process_installation worker services as_started message keep_message world in
    IsSent world r.1 ⊎ IsStopped worker services message world subscription r
process_installation-continues_example =
    process_installation-continues worker services as_started message world subscription
      (λ p es. refl) refl is_found

execute_with_deduplication-other_iff_example :
    let d = new_deduplicator 1000 in
    let x = execute_with_deduplication d "i-7" 4 taken in
    (x.outcome ≡ returned e_other_worker_doing_this_job) ↔ (
      (x.ran_job ≡ false)
      × (id : ℕ) × (has_in_progress_flag "i-7"
            (d.job_runner_flag_update_timeout_msecs * 10)
            taken.at_start
            taken.redis
          ≡ some id)
      × IsMoving id taken.first_read taken.second_read)
execute_with_deduplication-other_iff_example =
    execute_with_deduplication-other_iff 1000 "i-7" 4 taken

abbrev other_worker : Surroundings
other_worker = record surroundings {
  at_start = 102500;
  redis = (execution 1000 "i-7" 4 surroundings).redis_during 102500;
  first_read = some (record { job_runner_id = 4; timestamp = 102014 });
  second_read = some (record { job_runner_id = 4; timestamp = 104028 });
}

it_ran : (execution 1000 "i-7" 4 surroundings).ran_job ≡ true
unfolding execute_with_deduplication
it_ran = refl

on_time :
    (s : ℕ)
    → ((surroundings.timer s).fails ≡ false) × ((surroundings.timer s).late < timeout_of 1000)
unfolding new_deduplicator
on_time s = (refl, omega arith)

two_timeouts : 102600 + 2 * timeout_of 1000 ≤ 104700
unfolding new_deduplicator
two_timeouts = omega arith

reads_first :
    other_worker.first_read
    ≡ redis_get "i-7" 102600 ((execution 1000 "i-7" 4 surroundings).redis_during 102600)
unfolding execute_with_deduplication redis_get refresh new_deduplicator
reads_first = refl

reads_second :
    other_worker.second_read
    ≡ redis_get "i-7" 104700 ((execution 1000 "i-7" 4 surroundings).redis_during 104700)
unfolding execute_with_deduplication redis_get refresh new_deduplicator
reads_second = refl

execute_with_deduplication-keeps_out_example :
    let y = execution 1000 "i-7" 5 other_worker in
    let left = (execution 1000 "i-7" 4 surroundings).redis_after in
    (y.outcome ≡ returned e_other_worker_doing_this_job)
    × ((y.ran_job ≡ false)
        × ((execution 1000 "i-7" 5 (record other_worker { redis = left })).ran_job ≡ true))
execute_with_deduplication-keeps_out_example =
    execute_with_deduplication-keeps_out 1000 "i-7" 4 5 surroundings other_worker 102600 104700
      it_ran on_time (omega arith) (omega arith) two_timeouts (omega arith) refl reads_first
      reads_second

abbrev at_rest : Workers
at_rest = record { now = 100000; redis = (λ k. none); phase = (λ w. idle) }

no_flag : has_in_progress_flag "i-7" (1000 * 10) at_rest.now at_rest.redis ≡ none
unfolding has_in_progress_flag
no_flag = refl

execute_with_deduplication-both_running_example :
    (t : Workers) × (Steps "i-7" 1000 at_rest t × ((t.phase 1 ≡ running) × (t.phase 2 ≡ running)))
execute_with_deduplication-both_running_example =
    execute_with_deduplication-both_running "i-7" 1000 at_rest 1 2 (λ e. absurd (omega (arith, e)))
      refl refl no_flag
