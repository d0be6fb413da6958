-- ===== src/Sync/Deduplicator/Liveness.antt =====
-- What the results of the deduplicator (src/sync/deduplicator.ts) say.
use github_for_jira.Base.{
  ℕ, ◌*◌, ◌≤◌, ◌<◌, min, ◌≡◌, refl, sym, ap, ◌∙◌, ◌≢◌, ◌↔◌, inl, inr, Bool, true, false, String,
  Option, none, some, arith, Option-cases, subst,
}
use github_for_jira.Sync.Deduplicator.{
  Flag, has_in_progress_flag, max_flag_update_timeout, is_job_runner_live,
  e_other_worker_doing_this_job, Deduplicator, new_deduplicator, Surroundings, returned,
  blocked_too_long, when_taken, execute_with_deduplication,
}

-- A deduplicator never blocks for too long, whatever timeout it was made with.
pub execute_with_deduplication-ne-blocked :
    (timeout : ℕ) (key : String) (own_id : ℕ) (env : Surroundings)
    → (execute_with_deduplication (new_deduplicator timeout) key own_id env).outcome
      ≢ blocked_too_long
unfolding execute_with_deduplication new_deduplicator
execute_with_deduplication-ne-blocked timeout key own_id env = ground arith

-- The two reads of Redis show one runner whose timestamp moved.
pub record IsMoving (id : ℕ) (old new : Option Flag) : Type 0 where
  pub old_flag : Flag
  pub new_flag : Flag
  pub read_old : old ≡ some old_flag
  pub read_new : new ≡ some new_flag
  pub owns_old : old_flag.job_runner_id ≡ id
  pub owns_new : new_flag.job_runner_id ≡ id
  pub moved : old_flag.timestamp < new_flag.timestamp

live_of_outcome :
    (live : Option Bool)
    → when_taken live ≡ returned e_other_worker_doing_this_job
    → live ≡ some true
live_of_outcome none e = cc
live_of_outcome (some true) e = refl
live_of_outcome (some false) e = cc

pub when_flag_found :
    (d : Deduplicator) (key : String) (own_id id : ℕ) (env : Surroundings)
    → has_in_progress_flag key (d.job_runner_flag_update_timeout_msecs * 10) env.at_start env.redis
      ≡ some id
    → let x = execute_with_deduplication d key own_id env in
      (x.outcome
        ≡ when_taken (
            is_job_runner_live id d.job_runner_flag_update_timeout_msecs env.first_read
              env.second_read))
      × (x.ran_job ≡ false)
unfolding execute_with_deduplication
when_flag_found d key own_id id env taken = rw (taken, execute_with_deduplication) (refl, refl)

when_no_flag :
    (d : Deduplicator) (key : String) (own_id : ℕ) (env : Surroundings)
    → has_in_progress_flag key (d.job_runner_flag_update_timeout_msecs * 10) env.at_start env.redis
      ≡ none
    → (execute_with_deduplication d key own_id env).outcome ≢ returned e_other_worker_doing_this_job
unfolding execute_with_deduplication
when_no_flag d key own_id env free = rw (free, execute_with_deduplication) (ground arith)

IsMoving-of_live :
    (id timeout : ℕ) (old new : Option Flag)
    → is_job_runner_live id timeout old new ≡ some true
    → IsMoving id old new
unfolding is_job_runner_live
IsMoving-of_live id timeout none new e = cc
IsMoving-of_live id timeout (some old) none e = ground arith
IsMoving-of_live id timeout (some old) (some new) e = record {
  old_flag = old;
  new_flag = new;
  read_old = refl;
  read_new = refl;
  owns_old = ground arith;
  owns_new = ground arith;
  moved = ground arith;
}

live_of_moving :
    (id timeout : ℕ) (old new : Option Flag)
    → timeout ≤ max_flag_update_timeout
    → IsMoving id old new
    → is_job_runner_live id timeout old new ≡ some true
unfolding is_job_runner_live
live_of_moving id timeout old new h m =
    rw (m.read_old, m.read_new) (ground (arith, m.owns_old, m.owns_new, m.moved))

-- The answer that another worker does this job is given exactly when the job was not started, Redis
-- held a flag younger than ten timeouts, and the flag's owner refreshed it between the two reads.
pub execute_with_deduplication-other_iff :
    (timeout : ℕ) (key : String) (own_id : ℕ) (env : Surroundings)
    → let d = new_deduplicator timeout in
      let x = execute_with_deduplication d key own_id env in
      (x.outcome ≡ returned e_other_worker_doing_this_job) ↔ (
        (x.ran_job ≡ false)
        × (id : ℕ) × (has_in_progress_flag key
              (d.job_runner_flag_update_timeout_msecs * 10)
              env.at_start
              env.redis
            ≡ some id)
        × IsMoving id env.first_read env.second_read)
unfolding new_deduplicator
execute_with_deduplication-other_iff timeout key own_id env =
    let d = new_deduplicator timeout in
    let t = d.job_runner_flag_update_timeout_msecs in
    let small : t ≤ max_flag_update_timeout = omega arith in
    elim (Option-cases (has_in_progress_flag key (t * 10) env.at_start env.redis)) [
      | inl free ↦ ((λ e. absurd (when_no_flag d key own_id env free e)), (λ (r, id, taken, m). cc))
      | inr (id, taken) ↦
          let (answer, still) = when_flag_found d key own_id id env taken in
          (
            (λ e. (
              still,
              id,
              taken,
              IsMoving-of_live id t env.first_read env.second_read
                  (live_of_outcome _ (sym answer ∙ e)),
            )),
            (λ (r, id', taken', m).
                let same : id' ≡ id = ground arith in
                answer
                ∙ ap when_taken (
                    live_of_moving id t env.first_read env.second_read small
                      (subst (λ i. IsMoving i env.first_read env.second_read) same m))),
          )
    ]

-- The job runs exactly when the key has no flag or one that is at least ten timeouts old.
pub execute_with_deduplication-ran_job_iff :
    (timeout : ℕ) (key : String) (own_id : ℕ) (env : Surroundings)
    → let d = new_deduplicator timeout in
      ((execute_with_deduplication d key own_id env).ran_job ≡ true) ↔ (
        has_in_progress_flag key
          (d.job_runner_flag_update_timeout_msecs * 10)
          env.at_start
          env.redis
        ≡ none)
unfolding execute_with_deduplication new_deduplicator
execute_with_deduplication-ran_job_iff timeout key own_id env =
    let t = min timeout max_flag_update_timeout in
    elim (Option-cases (has_in_progress_flag key (t * 10) env.at_start env.redis)) [
      | inl free ↦ rw free (ground arith)
      | inr (id, taken) ↦ rw taken (ground arith)
    ]
