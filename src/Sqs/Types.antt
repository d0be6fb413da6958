-- ===== src/Sqs/Types.antt =====
-- The types of src/sqs/sqs.types.ts that the logic reads. What a result holds for the metrics only,
-- the status code and the error's name, is left out.
use github_for_jira.Base.{ℕ, Bool, false, Option, none, some}
use github_for_jira.Base.Int.{ℤ}

-- The context that a message is processed in.
pub record SqsMessageContext : Type 0 where
  pub receive_count : ℕ
  pub last_attempt : Bool

pub data Source : Type 0 where
  github jira other : Source

-- `retryable` and `skipDlq` may be missing; the delay is in milliseconds and may be negative.
pub record ErrorHandlingResult : Type 0 where
  pub retryable : Option Bool
  pub is_failure : Bool
  pub retry_delay : Option ℤ
  pub skip_dlq : Option Bool
  pub source : Option Source

abbrev pub is_true : Option Bool → Bool
is_true none = false
is_true (some b) = b
