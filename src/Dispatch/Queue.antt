-- ===== src/Dispatch/Queue.antt =====
-- `SemanticDispatchStore` of src/capy_outcome_runtime/semantic_dispatch.py, first part: `enqueue`,
-- the reads by id and consumer, and the two sweeps that `claim` begins with. Every operation takes
-- the clock's value `now`; `fresh` is the new `uuid4`.
use capy_outcome_runtime_pub.Dispatch.Types.{
  second, Policy, WorkKind, same_kind, is_known_kind, State, is_waiting, is_running, Outcome,
  Attempt, Job, Health, Lane, Store,
}
use capy_outcome_runtime_pub.Prelude.{
  ℕ, ◌+◌, ◌*◌, Bool, not, ◌&&◌, ◌||◌, Option, none, some, String, [], ◌∷◌, ◌++◌, leb, ◌==◌,
  if◌then◌else◌, or_default, Result, ok, err, ◌>>=◌, ◌>>◌, guard, require,
}
use capy_outcome_runtime_pub.Table.{find, update}

-- `_initialize` on a new database.
abbrev pub initial : ℕ → Store
initial now = record {
  jobs = [];
  lane = record {
    active_job_id = none;
    lease_until = none;
    cooldown_until = 0;
    last_attempt_at = none;
    health = Health.unknown;
    updated_at = now;
  };
}

-- `1 <= attempts <= 8 and 1 <= elapsed <= 3600`
abbrev pub is_in_bounds : ℕ → ℕ → Bool
is_in_bounds attempts elapsed =
    leb 1 attempts && leb attempts 8 && leb second elapsed && leb elapsed (3600 * second)

-- `digest` is the SHA-256 of the payload's canonical JSON.
module _ (policy : Policy) (digest : ℕ → ℕ) where
  unfoldable pub attempts_limit : Option ℕ → ℕ
  attempts_limit max_attempts = or_default max_attempts policy.max_attempts

  unfoldable pub elapsed_limit : Option ℕ → ℕ
  elapsed_limit max_elapsed = or_default max_elapsed policy.max_elapsed

  unfoldable pub new_job : WorkKind → ℕ → ℕ → ℕ → ℕ → ℕ → ℕ → Job
  new_job kind consumer payload attempts elapsed fresh now = record {
    id = fresh;
    consumer_key = consumer;
    work_kind = kind;
    payload = payload;
    request_sha256 = digest payload;
    state = State.queued;
    attempt_count = 0;
    max_attempts = attempts;
    created_at = now;
    deadline_at = now + elapsed;
    next_attempt_at = now;
    result = none;
    error_code = none;
    attempts = [];
    completed_at = none;
  }

  unfoldable pub enqueue_row : Option Job → Job → Store → Result (ℕ × Store)
  enqueue_row (some old) job s =
      if not (old.request_sha256 == job.request_sha256)
        || not (same_kind old.work_kind job.work_kind)
      then err "SEMANTIC_DISPATCH_IDEMPOTENCY_CONFLICT"
      else ok (old.id, s)
  enqueue_row none job s = ok (job.id, record s { jobs = s.jobs ++ job ∷ [] })

  unfoldable pub enqueue :
      WorkKind → ℕ → ℕ → Option ℕ → Option ℕ → ℕ → ℕ → Store → Result (ℕ × Store)
  unfolding attempts_limit elapsed_limit new_job enqueue_row
  enqueue kind consumer payload max_attempts max_elapsed fresh now s = do
    guard (is_known_kind kind) "SEMANTIC_DISPATCH_KIND_INVALID"
    let attempts = attempts_limit max_attempts
    let elapsed = elapsed_limit max_elapsed
    guard (is_in_bounds attempts elapsed) "SEMANTIC_DISPATCH_POLICY_INVALID"
    enqueue_row (find (λ j. j.consumer_key == consumer) s.jobs)
        (new_job kind consumer payload attempts elapsed fresh now) s

-- `job`
unfoldable pub job : ℕ → Store → Result Job
job id s = require (find (λ j. j.id == id) s.jobs) "SEMANTIC_DISPATCH_JOB_UNKNOWN"

-- `job_for_consumer`
unfoldable pub job_for_consumer : ℕ → Store → Result Job
unfolding job
job_for_consumer consumer s = do
  row ← require (find (λ j. j.consumer_key == consumer) s.jobs) "SEMANTIC_DISPATCH_JOB_UNKNOWN"
  job row.id s

unfoldable pub plain_attempt : Job → Outcome → ℕ → Option String → Attempt
plain_attempt j outcome calls code = record {
  attempt = j.attempt_count;
  outcome = outcome;
  model_calls = calls;
  error_code = code;
  total_tokens = none;
  evidence = 0;
}

unfoldable pub expire : ℕ → Job → Job
unfolding plain_attempt
expire now j = record j {
  state = State.failed;
  next_attempt_at = now;
  error_code = some "SEMANTIC_PROVIDER_RECOVERY_EXPIRED";
  attempts =
      j.attempts
      ++ plain_attempt j Outcome.recovery_expired 0 (some "SEMANTIC_PROVIDER_RECOVERY_EXPIRED")
        ∷ [];
  completed_at = some now;
}

-- `_expire_waiting`
unfoldable pub expire_waiting : ℕ → Store → Store
unfolding expire
expire_waiting now s = record s {
  jobs = update (λ j. is_waiting j.state && leb j.deadline_at now) (expire now) s.jobs;
}

-- `(lane["lease_until"] or 0) <= now`
unfoldable pub lease_expired : ℕ → Lane → Bool
lease_expired now lane = leb (or_default lane.lease_until 0) now

unfoldable pub release_lane : ℕ → Lane → Lane
release_lane now lane = record lane {
  active_job_id = none;
  lease_until = none;
  health = Health.recovering;
  updated_at = now;
}

module _ (policy : Policy) where
  -- What `_release_expired` writes into the running job whose lease has run out.
  unfoldable pub interrupt : ℕ → Job → Job
  unfolding plain_attempt
  interrupt now j =
      let receipts =
        j.attempts
        ++ plain_attempt j Outcome.interrupted 1 (some "SEMANTIC_PROVIDER_ATTEMPT_INTERRUPTED")
          ∷ [] in
      if leb j.deadline_at now
      then record j {
        state = State.failed;
        next_attempt_at = now;
        error_code = some "SEMANTIC_PROVIDER_RECOVERY_EXPIRED";
        attempts = receipts;
        completed_at = some now;
      }
      else record j {
        state = State.retry_wait;
        next_attempt_at = now + policy.base_backoff;
        attempts = receipts;
      }

  unfoldable pub release_row : Option ℕ → ℕ → Store → Store
  unfolding interrupt lease_expired release_lane
  release_row none now s = s
  release_row (some active) now s =
      if lease_expired now s.lane
      then record {
        jobs = update (λ j. j.id == active && is_running j.state) (interrupt now) s.jobs;
        lane = release_lane now s.lane;
      }
      else s

  -- `_release_expired`
  unfoldable pub release_expired : ℕ → Store → Store
  unfolding release_row
  release_expired now s = release_row s.lane.active_job_id now s
