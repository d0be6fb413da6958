-- ===== src/Sqs/Queue/Cases.antt =====
-- The four ways in which executeMessage of src/sqs/sqs.ts ends.
use github_for_jira.Base.{
  ℕ, ◌≡◌, refl, inl, inr, Bool, true, not, [], Option, none, some, if◌then◌else◌, Bool-cases,
  Option-cases,
}
use github_for_jira.Sqs.RateLimit.{preemptive_rate_limit_check}
use github_for_jira.Sqs.Queue.{
  Message, SqsQueue, Environment, delete_message, reschedule, run_handler, execute_message,
  has_addressee, is_stale,
}

-- The test and the calls are arguments here, so that no call is opened.
abbrev pub outcome : {A : Type 0} → Bool → Bool → Option ℕ → A → A → (ℕ → A) → A → A
outcome addressed stale limited ignored dropped waits runs =
    if not addressed
    then ignored
    else if stale
    then dropped
    else elim limited [ some delay ↦ waits delay | none ↦ runs ]

abbrev pub limited_for : SqsQueue → Environment → Option ℕ
limited_for q env = preemptive_rate_limit_check q.queue_name env.threshold env.now env.rate_limit

pub execute_message-outcome :
    (q : SqsQueue) (env : Environment) (m : Message)
    → execute_message q env m
      ≡ outcome
          (has_addressee m)
          (is_stale q env.now m)
          (limited_for q env)
          []
          (delete_message m)
          (reschedule q env m)
          (run_handler q env m)
unfolding execute_message
execute_message-outcome q env m = refl

-- The ends, each with what leads to it.
pub data Course (q : SqsQueue) (env : Environment) (m : Message) : Type 0 where
  ignored : execute_message q env m ≡ [] → Course q env m
  dropped :
      is_stale q env.now m ≡ true → execute_message q env m ≡ delete_message m → Course q env m
  waits :
      (n : ℕ)
      → limited_for q env ≡ some n
      → execute_message q env m ≡ reschedule q env m n
      → Course q env m
  runs : execute_message q env m ≡ run_handler q env m → Course q env m

pub course : (q : SqsQueue) (env : Environment) (m : Message) → Course q env m
course q env m =
    let e = execute_message-outcome q env m in
    elim (Bool-cases (has_addressee m)) [
      | inr unaddressed ↦ ignored (rw unaddressed at e)
      | inl addressed ↦ elim (Bool-cases (is_stale q env.now m)) [
        | inl stale ↦ dropped stale (rw (addressed, stale) at e)
        | inr fresh ↦ elim (Option-cases (limited_for q env)) [
          | inl free ↦ runs (rw (addressed, fresh, free) at e)
          | inr (n, limited) ↦ waits n limited (rw (addressed, fresh, limited) at e)
        ]
      ]
    ]
