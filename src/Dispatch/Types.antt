-- ===== src/Dispatch/Types.antt =====
-- The rows of src/capy_outcome_runtime/semantic_dispatch.py: jobs, the provider lane, the policy.
-- Times are microsecond ticks. Texts and identifiers that are only stored and compared are numbers.
use capy_outcome_runtime_pub.Prelude.{ℕ, Bool, true, false, Option, String, List}

abbrev pub second : ℕ
second = 1000000

-- `DispatchPolicy`
pub record Policy : Type 0 where
  pub max_attempts : ℕ
  pub max_elapsed : ℕ
  pub minimum_spacing : ℕ
  pub base_backoff : ℕ
  pub maximum_backoff : ℕ
  pub lease : ℕ

pub data WorkKind : Type 0 where
  chat_turn watcher_judgment unknown_kind : WorkKind

abbrev pub same_kind : WorkKind → WorkKind → Bool
same_kind WorkKind.chat_turn WorkKind.chat_turn = true
same_kind WorkKind.watcher_judgment WorkKind.watcher_judgment = true
same_kind WorkKind.unknown_kind WorkKind.unknown_kind = true
same_kind _ _ = false

abbrev pub is_known_kind : WorkKind → Bool
is_known_kind WorkKind.unknown_kind = false
is_known_kind _ = true

-- The column `state` of `semantic_dispatch_jobs`.
pub data State : Type 0 where
  queued retry_wait provider_running result_ready completed failed : State

abbrev pub is_waiting : State → Bool
is_waiting State.queued = true
is_waiting State.retry_wait = true
is_waiting _ = false

abbrev pub is_running : State → Bool
is_running State.provider_running = true
is_running _ = false

abbrev pub is_ready : State → Bool
is_ready State.result_ready = true
is_ready _ = false

abbrev pub is_failed : State → Bool
is_failed State.failed = true
is_failed _ = false

pub data Outcome : Type 0 where
  success provider_success_after_deadline provider_error interrupted recovery_expired : Outcome

-- An entry of `attempts_json`. `evidence` stands for the facts that are copied into the entry and
-- never read by the store (response digests, HTTP status, costs).
pub record Attempt : Type 0 where
  pub attempt : ℕ
  pub outcome : Outcome
  pub model_calls : ℕ
  pub error_code : Option String
  pub total_tokens : Option ℕ
  pub evidence : ℕ

pub record Job : Type 0 where
  pub id : ℕ
  pub consumer_key : ℕ
  pub work_kind : WorkKind
  pub payload : ℕ
  pub request_sha256 : ℕ
  pub state : State
  pub attempt_count : ℕ
  pub max_attempts : ℕ
  pub created_at : ℕ
  pub deadline_at : ℕ
  pub next_attempt_at : ℕ
  pub result : Option ℕ
  pub error_code : Option String
  pub attempts : List Attempt
  pub completed_at : Option ℕ

pub data Health : Type 0 where
  unknown recovering calling available rate_limited degraded : Health

-- The one row of `semantic_provider_lane`.
pub record Lane : Type 0 where
  pub active_job_id : Option ℕ
  pub lease_until : Option ℕ
  pub cooldown_until : ℕ
  pub last_attempt_at : Option ℕ
  pub health : Health
  pub updated_at : ℕ

pub record Store : Type 0 where
  pub jobs : List Job
  pub lane : Lane

-- The codes that `provider_failed` tells apart; `other` is any code that it does not name.
pub data FailureCode : Type 0 where
  rate_limit temporary provider_failure : FailureCode
  other : String → FailureCode

abbrev pub code_name : FailureCode → String
code_name FailureCode.rate_limit = "SEMANTIC_PROVIDER_RATE_LIMIT"
code_name FailureCode.temporary = "SEMANTIC_PROVIDER_TEMPORARY"
code_name FailureCode.provider_failure = "SEMANTIC_PROVIDER_ERROR"
code_name (FailureCode.other name) = name

-- `TRANSIENT_PROVIDER_CODES`
abbrev pub is_transient : FailureCode → Bool
is_transient (FailureCode.other _) = false
is_transient _ = true

abbrev pub is_rate_limit : FailureCode → Bool
is_rate_limit FailureCode.rate_limit = true
is_rate_limit _ = false

-- The `RuntimeFailure` of a provider with the `safe_facts` that the store reads.
pub record ProviderFailure : Type 0 where
  pub code : FailureCode
  pub semantic_attempt_count : Option ℕ
  pub retry_after : Option ℕ
  pub evidence : ℕ

-- A provider's result with the usage facts that the store reads.
pub record ProviderResult : Type 0 where
  pub body : ℕ
  pub semantic_attempt_count : Option ℕ
  pub total_tokens : Option ℕ
  pub evidence : ℕ
