-- ===== src/Sync/Deduplicator/Interleaving.antt =====
-- Workers that use one key of src/sync/deduplicator.ts at the same time: each call to Redis is a
-- step, and the steps of the workers come in any order. A worker is named by its runner's id.
use github_for_jira.Base.{
  ℕ, ◌+◌, ◌*◌, ◌≡◌, refl, sym, ◌≢◌, true, false, String, none, arith, ◌==◌, if◌then◌else◌,
}
use github_for_jira.Sync.Deduplicator.{
  Redis, has_in_progress_flag, set_in_progress_flag, remove_in_progress_flag,
}

-- Before the look at the flag, between the look and the setting of the own flag, and in the job.
pub data Phase : Type 0 where
  idle looked running : Phase

pub record Workers : Type 0 where
  pub now : ℕ
  pub redis : Redis
  pub phase : ℕ → Phase

abbrev pub set_phase : ℕ → Phase → (ℕ → Phase) → ℕ → Phase
set_phase w p f u = if u == w then p else f u

module _ (key : String) (timeout : ℕ) where
  -- One call to Redis by `executeWithDeduplication` or by its interval, or time that passes.
  pub data Step : Workers → Workers → Type 0 where
    look :
        (s : Workers) (w : ℕ)
        → s.phase w ≡ idle
        → has_in_progress_flag key (timeout * 10) s.now s.redis ≡ none
        → Step s (record s { phase = set_phase w looked s.phase })
    begin :
        (s : Workers) (w : ℕ)
        → s.phase w ≡ looked
        → Step s (record s {
          redis = set_in_progress_flag key w s.now s.redis;
          phase = set_phase w running s.phase;
        })
    refresh :
        (s : Workers) (w : ℕ)
        → s.phase w ≡ running
        → Step s (record s { redis = set_in_progress_flag key w s.now s.redis })
    finish :
        (s : Workers) (w : ℕ)
        → s.phase w ≡ running
        → Step s (record s {
          redis = remove_in_progress_flag key s.redis;
          phase = set_phase w idle s.phase;
        })
    wait : (s : Workers) (n : ℕ) → Step s (record s { now = s.now + n })

  pub data Steps : Workers → Workers → Type 0 where
    done : (s : Workers) → Steps s s
    step : {s t u : Workers} → Step s t → Steps t u → Steps s u

eq_self : (a : ℕ) → (a == a) ≡ true
eq_self a = ground arith

ne_test : (a b : ℕ) → a ≢ b → (a == b) ≡ false
ne_test a b h = ground arith

-- From every state in which Redis has no fresh flag, any two workers that have not looked yet can
-- both come to run the job at the same time.
pub execute_with_deduplication-both_running :
    (key : String) (timeout : ℕ) (s : Workers) (a b : ℕ)
    → a ≢ b
    → s.phase a ≡ idle
    → s.phase b ≡ idle
    → has_in_progress_flag key (timeout * 10) s.now s.redis ≡ none
    → (t : Workers) × (Steps key timeout s t × ((t.phase a ≡ running) × (t.phase b ≡ running)))
execute_with_deduplication-both_running key timeout s a b ne ia ib free =
    let ab = ne_test a b ne in
    let ba = ne_test b a (λ e. ne (sym e)) in
    let s1 : Workers = record s { phase = set_phase a looked s.phase } in
    let s2 : Workers = record s1 { phase = set_phase b looked s1.phase } in
    let s3 : Workers = record s2 {
      redis = set_in_progress_flag key a s.now s.redis;
      phase = set_phase a running s2.phase;
    } in
    let s4 : Workers = record s3 {
      redis = set_in_progress_flag key b s.now s3.redis;
      phase = set_phase b running s3.phase;
    } in
    (
      s4,
      (
        step (look s a ia free) (
            step (look s1 b (rw ba ib) free) (
              step (begin s2 a (rw ab (rw (eq_self a) refl)))
                (step (begin s3 b (rw ba (rw (eq_self b) refl))) (done s4)))),
        (rw ab (rw (eq_self a) refl), rw (eq_self b) refl),
      ),
    )
