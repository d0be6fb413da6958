-- ===== src/Sync/Deduplicator/Refresh.antt =====
-- That the flag of a running job (src/sync/deduplicator.ts) keeps the other workers out.
use github_for_jira.Base.{
  ℕ, zero, suc, ◌+◌, ◌*◌, ◌≤◌, ◌<◌, min, ◌≡◌, refl, ap, ◌∙◌, inl, inr, true, false, String, Option,
  none, some, arith, Bool-cases, leb, ◌==◌,
}
use text.Mathlib.TextPositions.{eq_refl}
use github_for_jira.Sync.Deduplicator.{
  Flag, Redis, redis_get, redis_cleanup_timeout, has_in_progress_flag, remove_in_progress_flag,
  set_in_progress_flag, Tick, interval_of, refresh, max_flag_update_timeout,
  e_other_worker_doing_this_job, new_deduplicator, Surroundings, Execution, returned,
  execute_with_deduplication,
}
use github_for_jira.Sync.Deduplicator.Liveness.{
  IsMoving, when_flag_found, execute_with_deduplication-other_iff,
  execute_with_deduplication-ran_job_iff,
}

abbrev flag_of : ℕ → ℕ → Option Flag
flag_of id time = some (record { job_runner_id = id; timestamp = time })

set-at :
    (key : String) (id now : ℕ) (redis : Redis)
    → set_in_progress_flag key id now redis key ≡ flag_of id now
unfolding set_in_progress_flag
set-at key id now redis = rw (eq_refl key) refl

removed : (key : String) (redis : Redis) → remove_in_progress_flag key redis key ≡ none
unfolding remove_in_progress_flag
removed key redis = rw (eq_refl key) refl

-- The flag of a worker, set last no longer ago than some time.
abbrev IsHeld : String → ℕ → ℕ → ℕ → Redis → Type 0
IsHeld key id bound now redis = (s : ℕ) × (redis key ≡ flag_of id s) × (s ≤ now) × (now < s + bound)

module _ (key : String) (id interval bound : ℕ) (timer : ℕ → Tick) (positive : 0 < interval)
    (punctual : (s : ℕ) → ((timer s).fails ≡ false) × (interval + (timer s).late < bound)) where
  refresh-IsHeld :
      (fuel until time : ℕ) (redis : Redis)
      → time ≤ until
      → until < time + fuel
      → redis key ≡ flag_of id time
      → IsHeld key id bound until (refresh key id interval timer fuel until time redis)
  unfolding refresh
  refresh-IsHeld zero until time redis began enough held = absurd (omega arith)
  refresh-IsHeld (suc fuel) until time redis began enough held =
      let next = time + interval + (timer time).late in
      elim (Bool-cases (leb next until)) [
        | inl fired ↦
            rw (fired, (punctual time).0)
              (refresh-IsHeld fuel until next (set_in_progress_flag key id next redis)
                (ground arith) (omega arith) (set-at key id next redis))
        | inr waits ↦ rw waits (time, held, began, let p = (punctual time).1 in ground arith)
      ]

held-get :
    (key : String) (id bound now : ℕ) (redis : Redis)
    → bound ≤ redis_cleanup_timeout
    → IsHeld key id bound now redis
    → (s : ℕ) × (redis_get key now redis ≡ flag_of id s) × (s ≤ now) × (now < s + bound)
unfolding redis_get
held-get key id bound now redis small (s, held, begun, recent) =
    (s, rw (held, redis_get) (ground arith), begun, recent)

held-has :
    (key : String) (id bound invalidating now : ℕ) (redis : Redis)
    → bound ≤ invalidating
    → bound ≤ redis_cleanup_timeout
    → IsHeld key id bound now redis
    → has_in_progress_flag key invalidating now redis ≡ some id
unfolding has_in_progress_flag
held-has key id bound invalidating now redis short small held =
    let (s, got, begun, recent) = held-get key id bound now redis small held in
    rw (got, has_in_progress_flag) (ground arith)

interval_of_pos : (t : ℕ) → 0 < interval_of t
interval_of_pos t = elim (Bool-cases (t == 0)) [
  | inl e ↦ rw e (omega arith)
  | inr e ↦ rw e (ground arith)
]

interval_of_lt : (t late : ℕ) → late < t → interval_of t + late < 2 * t
interval_of_lt t late h = elim (Bool-cases (t == 0)) [
  | inl e ↦ absurd (ground arith)
  | inr e ↦ rw e (omega arith)
]

module _ (timeout : ℕ) (key : String) (own_id : ℕ) (env : Surroundings)
    (ran : (execute_with_deduplication (new_deduplicator timeout) key own_id env).ran_job
      ≡ true) where
  during-IsHeld :
      ((s : ℕ)
        → ((env.timer s).fails ≡ false)
          × ((env.timer s).late < (new_deduplicator timeout).job_runner_flag_update_timeout_msecs))
      → (t : ℕ) → env.at_start ≤ t
      → t ≤ env.at_end
      → IsHeld key own_id
          (2 * (new_deduplicator timeout).job_runner_flag_update_timeout_msecs)
          t
          ((execute_with_deduplication (new_deduplicator timeout) key own_id env).redis_during t)
  unfolding execute_with_deduplication new_deduplicator
  during-IsHeld punctual t begun not_ended =
      let free = (execute_with_deduplication-ran_job_iff timeout key own_id env).0 ran in
      let now : min t env.at_end ≡ t = omega arith in
      rw (free, execute_with_deduplication, now)
        (refresh-IsHeld key own_id (interval_of (min timeout max_flag_update_timeout))
          (2 * min timeout max_flag_update_timeout) env.timer
          (interval_of_pos (min timeout max_flag_update_timeout))
          (λ s. ((punctual s).0, interval_of_lt _ _ (punctual s).1)) (suc t) t env.at_start
          (set_in_progress_flag key own_id env.at_start env.redis) begun (omega arith)
          (set-at key own_id env.at_start env.redis))

  released :
      (execute_with_deduplication (new_deduplicator timeout) key own_id env).redis_after key ≡ none
  unfolding execute_with_deduplication new_deduplicator
  released =
      let free = (execute_with_deduplication-ran_job_iff timeout key own_id env).0 ran in
      rw (free, execute_with_deduplication) (removed key env.redis_at_end)

timeout_le : (timeout : ℕ) → (new_deduplicator timeout).job_runner_flag_update_timeout_msecs ≤ 5000
unfolding new_deduplicator
timeout_le timeout = omega arith

moves :
    (id s1 s2 : ℕ) (old new : Option Flag)
    → old ≡ flag_of id s1
    → new ≡ flag_of id s2
    → s1 < s2
    → IsMoving id old new
moves id s1 s2 old new e1 e2 h = record {
  old_flag = record { job_runner_id = id; timestamp = s1 };
  new_flag = record { job_runner_id = id; timestamp = s2 };
  read_old = e1;
  read_new = e2;
  owns_old = refl;
  owns_new = refl;
  moved = h;
}

get-none :
    (key : String) (now : ℕ) (redis : Redis) → redis key ≡ none → redis_get key now redis ≡ none
unfolding redis_get
get-none key now redis e = rw (e, redis_get) refl

has-none :
    (key : String) (invalidating now : ℕ) (redis : Redis)
    → redis key ≡ none
    → has_in_progress_flag key invalidating now redis ≡ none
unfolding has_in_progress_flag
has-none key invalidating now redis e = rw (get-none key now redis e, has_in_progress_flag) refl

-- A worker's call, with the deduplicator that a timeout makes, and the timeout of that.
abbrev pub execution : ℕ → String → ℕ → Surroundings → Execution
execution timeout key own_id env =
    execute_with_deduplication (new_deduplicator timeout) key own_id env

abbrev pub timeout_of : ℕ → ℕ
timeout_of timeout = (new_deduplicator timeout).job_runner_flag_update_timeout_msecs

-- While a job runs, its flag keeps the other workers out, and it keeps none out later. Conditions: the
-- timer fires less than one interval late each time and its calls to Redis do not fail; only the
-- running worker writes the key; the other worker uses the same timeout, looks at the key three times while the
-- job runs, and its third look comes two timeouts after the second at least, as after its sleep. Then the other
-- worker answers that a worker does this job and does not start it; and once the job has ended, also if
-- it threw, the other worker starts the job.
pub execute_with_deduplication-keeps_out :
    (timeout : ℕ) (key : String) (own_id other_id : ℕ) (env other : Surroundings) (first second : ℕ)
    → (execution timeout key own_id env).ran_job ≡ true
    → ((s : ℕ) → ((env.timer s).fails ≡ false) × ((env.timer s).late < timeout_of timeout))
    → env.at_start ≤ other.at_start
    → other.at_start ≤ first
    → first + 2 * timeout_of timeout ≤ second
    → second ≤ env.at_end
    → other.redis ≡ (execution timeout key own_id env).redis_during other.at_start
    → other.first_read ≡ redis_get key first ((execution timeout key own_id env).redis_during first)
    → other.second_read
      ≡ redis_get key second ((execution timeout key own_id env).redis_during second)
    → let y = execution timeout key other_id other in
      let left = (execution timeout key own_id env).redis_after in
      (y.outcome ≡ returned e_other_worker_doing_this_job)
      × ((y.ran_job ≡ false)
          × ((execution timeout key other_id (record other { redis = left })).ran_job ≡ true))
execute_with_deduplication-keeps_out timeout key own_id other_id env other first second ran punctual
      h0 h1 h2 h3 e0 e1 e2 =
    let t = timeout_of timeout in
    let x = execution timeout key own_id env in
    let small : 2 * t ≤ redis_cleanup_timeout = omega (arith, timeout_le timeout) in
    let at : (n : ℕ)
        → env.at_start ≤ n
        → n ≤ env.at_end
        → IsHeld key own_id (2 * t) n (x.redis_during n) =
      during-IsHeld timeout key own_id env ran punctual in
    let in_time : other.at_start ≤ env.at_end = omega arith in
    let in_time_1 : first ≤ env.at_end = omega arith in
    let begun_1 : env.at_start ≤ first = omega arith in
    let begun_2 : env.at_start ≤ second = omega arith in
    let (s1, got1, set1, recent1) =
      held-get key own_id (2 * t) first (x.redis_during first) small (at first begun_1 in_time_1) in
    let (s2, got2, set2, recent2) =
      held-get key own_id (2 * t) second (x.redis_during second) small (at second begun_2 h3) in
    let later : s1 < s2 = omega arith in
    let found =
      held-has key own_id (2 * t) (t * 10) other.at_start (x.redis_during other.at_start)
        (omega arith) small (at other.at_start h0 in_time) in
    let taken = ap (has_in_progress_flag key (t * 10) other.at_start) e0 ∙ found in
    let still = (when_flag_found (new_deduplicator timeout) key other_id own_id other taken).1 in
    (
      (execute_with_deduplication-other_iff timeout key other_id other).1 (
        still,
        own_id,
        taken,
        moves own_id s1 s2 other.first_read other.second_read (e1 ∙ got1) (e2 ∙ got2) later,
      ),
      (
        still,
        (execute_with_deduplication-ran_job_iff timeout key other_id
              (record other { redis = x.redis_after })).1
            (has-none key (t * 10) other.at_start x.redis_after
              (released timeout key own_id env ran)),
      ),
    )
