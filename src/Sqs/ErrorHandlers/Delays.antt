-- ===== src/Sqs/ErrorHandlers/Delays.antt =====
-- When a failed message is tried again (src/sqs/error-handlers.ts).
use github_for_jira.Base.{ℕ, ◌+◌, ◌-◌, ◌*◌, ◌≤◌, ◌<◌, arith}
use github_for_jira.Base.Int.{pos_part, pos_part-sub_ℕ}
use github_for_jira.Sqs.ErrorHandlers.{rate_limiting_delay}

-- A rate-limited message that was received n times, n at least 1, and whose reset is not past is
-- visible again at least 10 and at most 50 seconds after the reset plus n - 1 hours.
pub rate_limiting_delay-visible_at :
    (now reset receive_count : ℕ)
    → 0 < receive_count
    → now ≤ reset
    → let at = now + pos_part (rate_limiting_delay now reset receive_count) in
      (reset + 3600000 * (receive_count - 1) + 10000 ≤ at)
      × (at ≤ reset + 3600000 * (receive_count - 1) + 50000)
unfolding rate_limiting_delay
rate_limiting_delay-visible_at now reset n h k = simp pos_part-sub_ℕ (omega arith, omega arith)

-- Of two messages that were received, with one reset that is not past, the one that was received
-- more often waits longer.
pub rate_limiting_delay_mono :
    (now reset m n : ℕ)
    → 0 < m
    → m < n
    → now ≤ reset
    → pos_part (rate_limiting_delay now reset m) < pos_part (rate_limiting_delay now reset n)
unfolding rate_limiting_delay
rate_limiting_delay_mono now reset m n h k l = simp pos_part-sub_ℕ (omega arith)
