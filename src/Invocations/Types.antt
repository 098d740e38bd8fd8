-- ===== src/Invocations/Types.antt =====
-- The rows of `invocations` and `invocation_executors` of src/capy_outcome_runtime/store.py. Texts
-- that are only stored and compared are numbers; an idempotency key is its code points.
use capy_outcome_runtime_pub.Prelude.{ℕ, Bool, true, false, Option, List}

-- The column `status`, by what the callers write.
pub data Status : Type 0 where
  running succeeded failed execution_unknown : Status

abbrev pub is_running : Status → Bool
is_running Status.running = true
is_running _ = false

abbrev pub is_succeeded : Status → Bool
is_succeeded Status.succeeded = true
is_succeeded _ = false

pub record Invocation : Type 0 where
  pub id : ℕ
  pub scope_id : ℕ
  pub capability_id : ℕ
  pub version_digest : ℕ
  pub status : Status
  pub request_digest : ℕ
  pub receipt : Option ℕ
  pub created_at : ℕ
  pub completed_at : Option ℕ
  pub idempotency_key : Option (List ℕ)
  pub result : Option ℕ
  pub artifacts : Option ℕ

-- The arguments of `begin_invocation` but the key.
pub record Request : Type 0 where
  pub scope_id : ℕ
  pub capability_id : ℕ
  pub version_digest : ℕ
  pub request_digest : ℕ

-- `allowed` of `update_executor`; `unlisted` is any other text.
pub data ExecutorState : Type 0 where
  prepared_state launched running_state terminal_receipt_available finalized execution_unknown_state
        unlisted :
      ExecutorState

abbrev pub is_allowed : ExecutorState → Bool
is_allowed ExecutorState.unlisted = false
is_allowed _ = true

abbrev pub is_finalized : ExecutorState → Bool
is_finalized ExecutorState.finalized = true
is_finalized _ = false

pub record Executor : Type 0 where
  pub invocation_id : ℕ
  pub executor_state : ExecutorState
  pub unit_name : ℕ
  pub machine_id_sha256 : ℕ
  pub boot_id : ℕ
  pub launch_nonce : ℕ
  pub journal_path : ℕ
  pub journal_digest : ℕ
  pub last_unit_state : Option ℕ
  pub terminal_receipt_digest : Option ℕ
  pub created_at : ℕ
  pub updated_at : ℕ

-- The dictionary that `record_executor` takes: a field is `none` where its key is missing or its
-- value is not a text or is empty.
pub record ExecutorValue : Type 0 where
  pub unit_name : Option ℕ
  pub machine_id_sha256 : Option ℕ
  pub boot_id : Option ℕ
  pub launch_nonce : Option ℕ
  pub journal_path : Option ℕ
  pub journal_digest : Option ℕ
  pub has_other_keys : Bool

pub record Store : Type 0 where
  pub invocations : List Invocation
  pub executors : List Executor
