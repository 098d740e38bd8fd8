-- ===== src/Invocations.antt =====
-- The invocations of src/capy_outcome_runtime/store.py and the executors that run them:
-- `begin_invocation` to `invocation`.
mod Types
pub mod Calls
pub mod Once
pub mod Settled
mod Tests
pub use Types.*
use capy_outcome_runtime_pub.Table.{find, update, count}
use capy_outcome_runtime_pub.Prelude.{
  ℕ, suc, ◌+◌, Bool, true, false, not, ◌&&◌, ◌||◌, Option, none, some, String, List, [], ◌∷◌, ◌++◌,
  leb, ◌==◌, if◌then◌else◌, is_none, length, Result, ok, err, ◌>>=◌, ◌>>◌, guard, require,
}

-- `[A-Za-z0-9:._-]`
abbrev pub is_key_char : ℕ → Bool
is_key_char c =
    leb 65 c && leb c 90
    || leb 97 c && leb c 122
    || leb 48 c && leb c 58
    || c == 46
    || c == 95
    || c == 45

abbrev pub are_key_chars : List ℕ → Bool
are_key_chars [] = true
are_key_chars (c ∷ cs) = is_key_char c && are_key_chars cs

-- `re.fullmatch(r"[A-Za-z0-9:._-]{1,255}", idempotency_key)`
abbrev pub is_key : List ℕ → Bool
is_key key = leb 1 (length key) && leb (length key) 255 && are_key_chars key

abbrev pub same_text : List ℕ → List ℕ → Bool
same_text [] [] = true
same_text (c ∷ cs) (d ∷ ds) = c == d && same_text cs ds
same_text _ _ = false

-- `WHERE scope_id=? AND idempotency_key=?`
abbrev pub holds_key : ℕ → List ℕ → Invocation → Bool
holds_key scope key i =
    i.scope_id == scope && elim i.idempotency_key [ none ↦ false | some k ↦ same_text k key ]

-- `WHERE id=? AND status='running'`
abbrev pub runs_as : ℕ → Invocation → Bool
runs_as id i = i.id == id && is_running i.status

unfoldable pub new_invocation : Request → Option (List ℕ) → ℕ → ℕ → Invocation
new_invocation r key fresh now = record {
  id = fresh;
  scope_id = r.scope_id;
  capability_id = r.capability_id;
  version_digest = r.version_digest;
  status = Status.running;
  request_digest = r.request_digest;
  receipt = none;
  created_at = now;
  completed_at = none;
  idempotency_key = key;
  result = none;
  artifacts = none;
}

-- The invocation that the key already names.
unfoldable pub replay : Request → Invocation → Store → Result ((ℕ × Option Invocation) × Store)
replay r i s = do
  guard
      (i.capability_id == r.capability_id
        && i.version_digest == r.version_digest
        && i.request_digest == r.request_digest)
      "INVOCATION_IDEMPOTENCY_CONFLICT"
  guard (is_succeeded i.status) "INVOCATION_IDEMPOTENCY_IN_PROGRESS"
  ok ((i.id, some i), s)

abbrev pub insert : Invocation → Store → Result ((ℕ × Option Invocation) × Store)
insert i s = ok ((i.id, none), record s { invocations = s.invocations ++ i ∷ [] })

-- `begin_invocation` after its test of the key, given the row that the key names.
unfoldable pub begin_row :
    Request → Option Invocation → Invocation → Store → Result ((ℕ × Option Invocation) × Store)
unfolding replay
begin_row r (some old) i s = replay r old s
begin_row r none i s = insert i s

-- `begin_invocation`: `fresh` is the new `uuid4`, `now` the value of `utc_now`. The scope is taken to
-- exist, as the foreign key of the table demands.
unfoldable pub begin_invocation :
    Request → Option (List ℕ) → ℕ → ℕ → Store → Result ((ℕ × Option Invocation) × Store)
unfolding new_invocation begin_row
begin_invocation r none fresh now s = insert (new_invocation r none fresh now) s
begin_invocation r (some key) fresh now s = do
  guard (is_key key) "INVOCATION_IDEMPOTENCY_KEY_INVALID"
  begin_row r (find (holds_key r.scope_id key) s.invocations)
      (new_invocation r (some key) fresh now) s

-- `finish_invocation`
unfoldable pub settle : Status → ℕ → Option ℕ → Option ℕ → ℕ → Invocation → Invocation
settle status receipt result artifacts now i = record i {
  status = status;
  receipt = some receipt;
  result = result;
  artifacts = artifacts;
  completed_at = some now;
}

abbrev pub finalize : ℕ → Executor → Executor
finalize now e = record e { executor_state = ExecutorState.finalized; updated_at = now }

unfoldable pub finish_invocation : ℕ → Status → ℕ → Option ℕ → Option ℕ → ℕ → Store → Result Store
unfolding settle
finish_invocation id status receipt result artifacts now s = do
  guard (count (runs_as id) s.invocations == 1) "INVOCATION_STATE_CONFLICT"
  ok (record {
    invocations = update (runs_as id) (settle status receipt result artifacts now) s.invocations;
    executors =
        update (λ e. e.invocation_id == id && not (is_finalized e.executor_state)) (finalize now)
          s.executors;
  })

-- The row of `record_executor`, where its value has the required fields and no other.
unfoldable pub prepared : ℕ → ExecutorValue → ℕ → Result Executor
prepared id v now = do
  guard (not v.has_other_keys) "EXECUTOR_RECORD_INVALID"
  unit ← require v.unit_name "EXECUTOR_RECORD_INVALID"
  machine ← require v.machine_id_sha256 "EXECUTOR_RECORD_INVALID"
  boot ← require v.boot_id "EXECUTOR_RECORD_INVALID"
  nonce ← require v.launch_nonce "EXECUTOR_RECORD_INVALID"
  path ← require v.journal_path "EXECUTOR_RECORD_INVALID"
  digest ← require v.journal_digest "EXECUTOR_RECORD_INVALID"
  ok (record {
    invocation_id = id;
    executor_state = ExecutorState.prepared_state;
    unit_name = unit;
    machine_id_sha256 = machine;
    boot_id = boot;
    launch_nonce = nonce;
    journal_path = path;
    journal_digest = digest;
    last_unit_state = none;
    terminal_receipt_digest = none;
    created_at = now;
    updated_at = now;
  })

-- `record_executor`: the primary key and the reference to the invocation are the table's.
unfoldable pub record_executor : ℕ → ExecutorValue → ℕ → Store → Result Store
unfolding prepared
record_executor id v now s = do
  row ← prepared id v now
  guard (is_none (find (λ e. e.invocation_id == id) s.executors)) "EXECUTOR_RECORD_CONFLICT"
  guard (not (is_none (find (λ i. i.id == id) s.invocations))) "EXECUTOR_RECORD_CONFLICT"
  ok (record s { executors = s.executors ++ row ∷ [] })

-- `COALESCE(?, column)`
abbrev pub coalesce : Option ℕ → Option ℕ → Option ℕ
coalesce none old = old
coalesce (some v) old = some v

-- `update_executor`
unfoldable pub update_executor : ℕ → ExecutorState → Option ℕ → Option ℕ → ℕ → Store → Result Store
update_executor id state unit receipt now s = do
  guard (is_allowed state) "EXECUTOR_STATE_INVALID"
  guard (count (λ e. e.invocation_id == id) s.executors == 1) "EXECUTOR_RECORD_UNKNOWN"
  ok (record s {
    executors =
        update (λ e. e.invocation_id == id)
          (λ e. record e {
            executor_state = state;
            last_unit_state = coalesce unit e.last_unit_state;
            terminal_receipt_digest = coalesce receipt e.terminal_receipt_digest;
            updated_at = now;
          })
          s.executors;
  })

-- `executor`
unfoldable pub executor : ℕ → Store → Result Executor
executor id s = require (find (λ e. e.invocation_id == id) s.executors) "EXECUTOR_RECORD_UNKNOWN"

abbrev pub lose : ℕ → ℕ → Invocation → Invocation
lose receipt now i = record i {
  status = Status.execution_unknown;
  receipt = some receipt;
  completed_at = some now;
}

-- `mark_execution_unknown`: `receipt` stands for the receipt that it builds from its arguments.
unfoldable pub mark_execution_unknown : ℕ → ℕ → ℕ → ℕ → Store → Result Store
mark_execution_unknown id detail receipt now s = do
  guard (count (runs_as id) s.invocations == 1) "INVOCATION_STATE_CONFLICT"
  ok (record {
    invocations = update (runs_as id) (lose receipt now) s.invocations;
    executors =
        update (λ e. e.invocation_id == id)
          (λ e. record e {
            executor_state = ExecutorState.execution_unknown_state;
            last_unit_state = some detail;
            updated_at = now;
          })
          s.executors;
  })

-- `invocation`
unfoldable pub invocation : ℕ → Store → Result Invocation
invocation id s = require (find (λ i. i.id == id) s.invocations) "INVOCATION_UNKNOWN"
