-- ===== src/Sync/Deduplicator.antt =====
-- src/sync/deduplicator.ts: a flag in Redis keeps two workers from running the same job. Times are
-- milliseconds since the epoch; a job runner's id is a number, the uuid behind "jobRunnerId-".
pub mod Interleaving
pub mod Liveness
pub mod Refresh
use github_for_jira.Base.{
  ℕ, zero, suc, ◌+◌, ◌*◌, min, Bool, true, false, ◌&&◌, String, Option, none, some, ltb, leb, ◌==◌,
  ◌=s=◌, if◌then◌else◌,
}

pub record Flag : Type 0 where
  pub job_runner_id : ℕ
  pub timestamp : ℕ

-- What Redis holds under each key; the flag's JSON stands for the flag.
abbrev pub Redis : Type 0
Redis = String → Option Flag

abbrev pub redis_cleanup_timeout : ℕ
redis_cleanup_timeout = 24 * 3600 * 1000

-- A key that was set with a time to live is gone once that is over.
unfoldable pub redis_get : String → ℕ → Redis → Option Flag
redis_get key now redis = elim (redis key) [
  | none ↦ none
  | some flag ↦ if leb (flag.timestamp + redis_cleanup_timeout) now then none else some flag
]

abbrev pub redis_set : String → Option Flag → Redis → Redis
redis_set key value redis key' = if key =s= key' then value else redis key'

unfoldable pub has_in_progress_flag : String → ℕ → ℕ → Redis → Option ℕ
unfolding redis_get
has_in_progress_flag key invalidating_timestamp now redis = elim (redis_get key now redis) [
  | none ↦ none
  | some flag ↦
      if leb (flag.timestamp + invalidating_timestamp) now then none else some flag.job_runner_id
]

unfoldable pub remove_in_progress_flag : String → Redis → Redis
remove_in_progress_flag key redis = redis_set key none redis

unfoldable pub set_in_progress_flag : String → ℕ → ℕ → Redis → Redis
set_in_progress_flag key job_runner_id now redis =
    redis_set key (some (record { job_runner_id = job_runner_id; timestamp = now })) redis

abbrev pub max_flag_update_timeout : ℕ
max_flag_update_timeout = 5000

-- The first look at the flag: the timestamp to compare with later, if the watched runner owns it.
unfoldable pub first_look : ℕ → Option Flag → Option ℕ
first_look job_runner_id none = none
first_look job_runner_id (some flag) =
    if flag.job_runner_id == job_runner_id then some flag.timestamp else none

-- The second look, after the sleep.
unfoldable pub second_look : ℕ → ℕ → Option Flag → Bool
second_look job_runner_id old none = false
second_look job_runner_id old (some flag) =
    flag.job_runner_id == job_runner_id && ltb old flag.timestamp

-- `isJobRunnerLive` with what Redis answers before and after the sleep; `none` is the exception.
unfoldable pub is_job_runner_live : ℕ → ℕ → Option Flag → Option Flag → Option Bool
unfolding first_look second_look
is_job_runner_live job_runner_id timeout old new = elim (first_look job_runner_id old) [
  | none ↦ some false
  | some timestamp ↦
      if ltb max_flag_update_timeout timeout
      then none
      else some (second_look job_runner_id timestamp new)
]

pub data DeduplicatorResult : Type 0 where
  e_ok e_other_worker_doing_this_job e_not_sure_try_again_later : DeduplicatorResult

pub record Deduplicator : Type 0 where
  pub job_runner_flag_update_timeout_msecs : ℕ

unfoldable pub new_deduplicator : ℕ → Deduplicator
new_deduplicator timeout = record {
  job_runner_flag_update_timeout_msecs = min timeout max_flag_update_timeout;
}

-- A firing of the timer: how late it comes, in milliseconds, and whether its call to Redis fails.
pub record Tick : Type 0 where
  pub late : ℕ
  pub fails : Bool

-- A timer with a delay below one millisecond has a delay of one.
abbrev pub interval_of : ℕ → ℕ
interval_of delay = if delay == 0 then 1 else delay

-- What the callback of `setInterval` does; a failure is logged only.
abbrev pub on_tick : String → ℕ → ℕ → Tick → Redis → Redis
on_tick key own_id now tick redis =
    if tick.fails then redis else set_in_progress_flag key own_id now redis

-- What Redis holds at a time `until`, when the timer was started or fired last at `time`: it fires again an
-- interval later, or as late as the tick says. On fuel: a firing is a millisecond later at least.
unfoldable pub refresh : String → ℕ → ℕ → (ℕ → Tick) → (fuel until time : ℕ) → Redis → Redis
unfolding set_in_progress_flag
refresh key own_id interval timer zero until time redis = redis
refresh key own_id interval timer (suc fuel) until time redis =
    let next = time + interval + (timer time).late in
    let rest =
      refresh key own_id interval timer fuel until next
        (on_tick key own_id next (timer time) redis) in
    if leb next until then rest else redis

-- Who else may change Redis while a call waits, and the clock: what the call reads, in order.
pub record Surroundings : Type 0 where
  pub at_start : ℕ
  pub redis : Redis
  pub first_read : Option Flag
  pub second_read : Option Flag
  -- the timer's firing after the one at a time, when the job ends and the timer is cleared, what Redis
  -- holds then, and whether the job threw
  pub timer : ℕ → Tick
  pub at_end : ℕ
  pub redis_at_end : Redis
  pub job_threw : Bool

-- How a call ends: with a result or with the job's exception, and what it leaves in Redis.
pub data Outcome : Type 0 where
  returned : DeduplicatorResult → Outcome
  job_failed : Outcome
  blocked_too_long : Outcome

-- The writes of a call to Redis: what Redis holds at a time while the job runs, if only this call writes,
-- and what the call leaves in it.
pub record Execution : Type 0 where
  pub outcome : Outcome
  pub ran_job : Bool
  pub redis_during : ℕ → Redis
  pub redis_after : Redis

-- What a call that found a flag answers.
abbrev pub when_taken : Option Bool → Outcome
when_taken none = blocked_too_long
when_taken (some true) = returned e_other_worker_doing_this_job
when_taken (some false) = returned e_not_sure_try_again_later

-- `executeWithDeduplication`.
unfoldable pub execute_with_deduplication : Deduplicator → String → ℕ → Surroundings → Execution
unfolding has_in_progress_flag is_job_runner_live set_in_progress_flag remove_in_progress_flag
    refresh
execute_with_deduplication d key own_id env =
    let timeout = d.job_runner_flag_update_timeout_msecs in
    elim (has_in_progress_flag key (timeout * 10) env.at_start env.redis) [
      | some other ↦ record {
        outcome = when_taken (is_job_runner_live other timeout env.first_read env.second_read);
        ran_job = false;
        redis_during = (λ t. env.redis);
        redis_after = env.redis_at_end;
      }
      | none ↦ record {
        outcome = if env.job_threw then job_failed else returned e_ok;
        ran_job = true;
        redis_during = (λ t.
            refresh key own_id (interval_of timeout) env.timer (suc (min t env.at_end))
              (min t env.at_end) env.at_start
              (set_in_progress_flag key own_id env.at_start env.redis));
        redis_after = remove_in_progress_flag key env.redis_at_end;
      }
    ]
