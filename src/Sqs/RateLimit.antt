-- ===== src/Sqs/RateLimit.antt =====
-- src/util/preemptive-rate-limit.ts: a message waits if GitHub's quota is nearly used up. Times are
-- in milliseconds, but GitHub's reset times are in seconds.
use github_for_jira.Base.{
  ℕ, ◌+◌, ◌-◌, ◌*◌, max, Bool, false, ◌||◌, List, [], ◌∷◌, String, Option, none, some, leb, ◌==◌,
  ◌=s=◌, if◌then◌else◌, any,
}

abbrev pub targeted_queues : List String
targeted_queues = "backfill" ∷ "deployment" ∷ []

abbrev pub default_preempty_ratelimit_delay_in_seconds : ℕ
default_preempty_ratelimit_delay_in_seconds = 600

pub record Quota : Type 0 where
  pub limit : ℕ
  pub remaining : ℕ
  pub reset : ℕ

pub record RateLimitResponse : Type 0 where
  pub core : Quota
  pub graphql : Quota

-- `((limit - remaining) / limit) * 100 >= threshold`, multiplied out; with no limit the quotient is
-- no number, or negative.
unfoldable pub reaches : ℕ → Quota → Bool
reaches threshold q =
    if q.limit == 0 then false else leb (threshold * q.limit + q.remaining * 100) (q.limit * 100)

-- `Math.max(delay, reset - now)`
unfoldable pub rate_reset_time : ℕ → RateLimitResponse → ℕ
rate_reset_time now r =
    max (default_preempty_ratelimit_delay_in_seconds * 1000)
      (max r.core.reset r.graphql.reset * 1000 - now)

-- The time to wait, or `none`. The response is `none` if the request for it failed.
unfoldable pub preemptive_rate_limit_check : String → ℕ → ℕ → Option RateLimitResponse → Option ℕ
unfolding reaches rate_reset_time
preemptive_rate_limit_check queue_name threshold now response =
    if any (λ q. q =s= queue_name) targeted_queues
    then elim response [
      | none ↦ none
      | some r ↦
          if reaches threshold r.core || reaches threshold r.graphql
          then some (rate_reset_time now r)
          else none
    ]
    else none
