-- ===== src/Dispatch/Provider.antt =====
-- `SemanticDispatchStore` of src/capy_outcome_runtime/semantic_dispatch.py, second part: a job is
-- claimed, its provider's answer is recorded, its consumer acknowledges it.
use capy_outcome_runtime_pub.Prelude.{
  ℕ, ◌+◌, ◌-◌, ◌*◌, ◌/◌, ◌%◌, ◌^◌, min, max, Bool, true, false, not, ◌&&◌, ◌||◌, Option, none, some,
  String, List, [], ◌∷◌, ◌++◌, ltb, leb, ◌==◌, if◌then◌else◌, or_default, Result, ok, ◌>>=◌, ◌>>◌,
  guard, require,
}
use capy_outcome_runtime_pub.Table.{find, update, count}
use capy_outcome_runtime_pub.Dispatch.Types.{
  second, Policy, State, is_waiting, is_running, is_ready, is_failed, Outcome, Attempt, Job, Health,
  Lane, Store, code_name, is_transient, is_rate_limit, ProviderFailure, ProviderResult,
}
use capy_outcome_runtime_pub.Dispatch.Queue.{release_expired, expire_waiting}

-- The row order `ORDER BY next_attempt_at,created_at` of two due jobs.
abbrev pub before : Job → Job → Bool
before a b =
    ltb a.next_attempt_at b.next_attempt_at
    || (a.next_attempt_at == b.next_attempt_at && ltb a.created_at b.created_at)

-- Of two candidates the earlier row `a` stays unless `b` comes strictly before it.
unfoldable pub earlier : Job → Option Job → Option Job
earlier a none = some a
earlier a (some b) = if before b a then some b else some a

abbrev pub is_due : ℕ → Job → Bool
is_due now j = is_waiting j.state && leb j.next_attempt_at now

-- The SELECT of `claim`: the first due job by next attempt, creation and row.
unfoldable pub next_due : ℕ → List Job → Option Job
unfolding earlier
next_due now [] = none
next_due now (j ∷ jobs) =
    let rest = next_due now jobs in if is_due now j then earlier j rest else rest

-- `UPDATE semantic_dispatch_jobs ... WHERE id=? AND state=...` with its row count.
abbrev pub in_state : ℕ → (State → Bool) → Job → Bool
in_state id test j = j.id == id && test j.state

abbrev pub success_receipt : Job → ProviderResult → Outcome → Option String → Attempt
success_receipt j r outcome code = record {
  attempt = j.attempt_count;
  outcome = outcome;
  model_calls = or_default r.semantic_attempt_count 1;
  error_code = code;
  total_tokens = r.total_tokens;
  evidence = r.evidence;
}

-- `_safe_attempt`
abbrev pub safe_attempt : ProviderFailure → ℕ → Attempt
safe_attempt e attempt = record {
  attempt = attempt;
  outcome = Outcome.provider_error;
  model_calls = or_default e.semantic_attempt_count 1;
  error_code = some (code_name e.code);
  total_tokens = none;
  evidence = e.evidence;
}

-- The lane after an answer of the provider.
abbrev pub free_lane : ℕ → ℕ → Health → Lane → Lane
free_lane now cooldown health lane = record lane {
  active_job_id = none;
  lease_until = none;
  cooldown_until = cooldown;
  health = health;
  updated_at = now;
}

-- The row that a success writes, by whether the deadline has passed.
unfoldable pub settle_success : Job → ProviderResult → ℕ → Job → Job
settle_success j r now k =
    if leb j.deadline_at now
    then record k {
      state = State.failed;
      result = none;
      error_code = some "SEMANTIC_PROVIDER_RECOVERY_EXPIRED";
      attempts =
          j.attempts
          ++ success_receipt j r Outcome.provider_success_after_deadline
              (some "SEMANTIC_PROVIDER_RECOVERY_EXPIRED")
            ∷ [];
      completed_at = some now;
    }
    else record k {
      state = State.result_ready;
      result = some r.body;
      error_code = none;
      attempts = j.attempts ++ success_receipt j r Outcome.success none ∷ [];
    }

unfoldable pub provider_succeeded : ℕ → ProviderResult → ℕ → Store → Result (Bool × Store)
unfolding settle_success
provider_succeeded id r now s = do
  j ← require (find (λ k. k.id == id) s.jobs) "SEMANTIC_DISPATCH_STATE_CONFLICT"
  guard (is_running j.state) "SEMANTIC_DISPATCH_STATE_CONFLICT"
  ok (
    not (leb j.deadline_at now),
    record {
      jobs = update (λ k. k.id == id) (settle_success j r now) s.jobs;
      lane = free_lane now 0 Health.available s.lane;
    },
  )

-- `mark_consumed`
unfoldable pub mark_consumed : ℕ → ℕ → Store → Result Store
mark_consumed id now s = do
  guard (count (in_state id is_ready) s.jobs == 1) "SEMANTIC_DISPATCH_STATE_CONFLICT"
  ok (record s {
    jobs =
        update (in_state id is_ready)
          (λ j. record j { state = State.completed; completed_at = some now }) s.jobs;
  })

-- `mark_failure_consumed`
unfoldable pub mark_failure_consumed : ℕ → ℕ → Store → Result Store
mark_failure_consumed id now s = do
  guard (count (in_state id is_failed) s.jobs == 1) "SEMANTIC_DISPATCH_STATE_CONFLICT"
  ok (record s {
    jobs =
        update (in_state id is_failed)
          (λ j. record j { state = State.completed; completed_at = some now }) s.jobs;
  })

unfoldable pub start : ℕ → Job → Job
start attempt j = record j { state = State.provider_running; attempt_count = attempt }

module _ (policy : Policy) where
  -- The lane is taken, cools down, or made its last call too recently.
  unfoldable pub is_blocked : ℕ → Lane → Bool
  is_blocked now lane =
      elim lane.active_job_id [ none ↦ false | some _ ↦ true ]
      || ltb now lane.cooldown_until
      || elim lane.last_attempt_at [
        | none ↦ false
        | some last ↦ ltb now (last + policy.minimum_spacing)
      ]

  unfoldable pub take_lane : ℕ → ℕ → Lane → Lane
  take_lane id now lane = record lane {
    active_job_id = some id;
    lease_until = some (now + policy.lease);
    last_attempt_at = some now;
    health = Health.calling;
    updated_at = now;
  }

  -- The UPDATEs for the selected row; the claimed job is read back.
  unfoldable pub take_row : Option Job → ℕ → Store → Option Job × Store
  unfolding start take_lane
  take_row none now s = (none, s)
  take_row (some j) now s =
      let jobs = update (in_state j.id is_waiting) (start (j.attempt_count + 1)) s.jobs in
      if count (in_state j.id is_waiting) s.jobs == 1
      then (find (λ k. k.id == j.id) jobs, record { jobs = jobs; lane = take_lane j.id now s.lane })
      else (none, record s { jobs = jobs })

  -- `claim` after its two sweeps.
  unfoldable pub claim_swept : ℕ → Store → Option Job × Store
  unfolding take_row
  claim_swept now s =
      if is_blocked now s.lane then (none, s) else take_row (next_due now s.jobs) now s

  unfoldable pub sweep : ℕ → Store → Store
  sweep now s = expire_waiting now (release_expired policy now s)

  unfoldable pub claim : ℕ → Store → Option Job × Store
  claim now s = claim_swept now (sweep now s)

-- `jitter_seed` is the number that `provider_failed` reads from the SHA-256 of a job's id and attempt.
module _ (policy : Policy) (jitter_seed : ℕ → ℕ → ℕ) where
  -- `delay` of `provider_failed`
  unfoldable pub retry_delay : Job → ProviderFailure → ℕ
  retry_delay j e =
      let exponent = policy.base_backoff * 2 ^ (j.attempt_count - 1) in
      let jitter = jitter_seed j.id j.attempt_count % 1000 * min second (exponent / 4) / 1000 in
      let delay = min policy.maximum_backoff (exponent + jitter) in
      elim e.retry_after [ none ↦ delay | some r ↦ max delay (min r policy.maximum_backoff) ]

  abbrev pub is_exhausted : ℕ → Job → Bool
  is_exhausted now j = leb j.max_attempts j.attempt_count || leb j.deadline_at now

  abbrev pub will_retry : ℕ → Job → ProviderFailure → Bool
  will_retry now j e = is_transient e.code && not (is_exhausted now j)

  abbrev pub retry_at : ℕ → Job → ProviderFailure → ℕ
  retry_at now j e = if will_retry now j e then now + retry_delay j e else now

  -- The row that a failure writes.
  unfoldable pub settle_failure : Job → ProviderFailure → ℕ → Job → Job
  settle_failure j e now k = record k {
    state = if will_retry now j e then State.retry_wait else State.failed;
    next_attempt_at = retry_at now j e;
    error_code = some (code_name e.code);
    attempts = j.attempts ++ safe_attempt e j.attempt_count ∷ [];
    completed_at = if will_retry now j e then none else some now;
  }

  unfoldable pub provider_failed : ℕ → ProviderFailure → ℕ → Store → Result Store
  unfolding settle_failure
  provider_failed id e now s = do
    j ← require (find (λ k. k.id == id) s.jobs) "SEMANTIC_DISPATCH_STATE_CONFLICT"
    guard (is_running j.state) "SEMANTIC_DISPATCH_STATE_CONFLICT"
    let cooldown = if is_rate_limit e.code then retry_at now j e else 0
    ok (record {
      jobs = update (λ k. k.id == id) (settle_failure j e now) s.jobs;
      lane =
          free_lane now (max s.lane.cooldown_until cooldown)
            (if is_rate_limit e.code then Health.rate_limited else Health.degraded) s.lane;
    })
