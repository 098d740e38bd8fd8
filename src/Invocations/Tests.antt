-- ===== src/Invocations/Tests.antt =====
-- An invocation begun, repeated, finished and repeated again.
use capy_outcome_runtime_pub.Prelude.{
  ℕ, ◌≤◌, ◌≡◌, refl, true, false, none, some, List, [], ◌∷◌, ◌==◌, if◌then◌else◌, ok, err,
}
use capy_outcome_runtime_pub.Table.{find, update, count, All}
use capy_outcome_runtime_pub.Invocations.{
  Status, Invocation, Request, Executor, ExecutorState, ExecutorValue, Store, is_running,
  is_succeeded, holds_key, new_invocation, begin_invocation, finish_invocation, record_executor,
}
use capy_outcome_runtime_pub.Invocations.Calls.{Reach, Step}
use capy_outcome_runtime_pub.Invocations.Once.{Reach-one_per_key, begin_once}
use capy_outcome_runtime_pub.Invocations.Settled.{settled_kept, finish_settles}

abbrev empty : Store
empty = record { invocations = []; executors = [] }

abbrev request : Request
request = record { scope_id = 3; capability_id = 4; version_digest = 5; request_digest = 6 }

-- `k:1`
abbrev key : List ℕ
key = 107 ∷ 58 ∷ 49 ∷ []

abbrev begun_row : Invocation
begun_row = record {
  id = 9;
  scope_id = 3;
  capability_id = 4;
  version_digest = 5;
  status = Status.running;
  request_digest = 6;
  receipt = none;
  created_at = 100;
  completed_at = none;
  idempotency_key = some key;
  result = none;
  artifacts = none;
}

abbrev one : Store
one = record { invocations = begun_row ∷ []; executors = [] }

abbrev value : ExecutorValue
value = record {
  unit_name = some 21;
  machine_id_sha256 = some 22;
  boot_id = some 23;
  launch_nonce = some 24;
  journal_path = some 25;
  journal_digest = some 26;
  has_other_keys = false;
}

abbrev row : Executor
row = record {
  invocation_id = 9;
  executor_state = ExecutorState.prepared_state;
  unit_name = 21;
  machine_id_sha256 = 22;
  boot_id = 23;
  launch_nonce = 24;
  journal_path = 25;
  journal_digest = 26;
  last_unit_state = none;
  terminal_receipt_digest = none;
  created_at = 110;
  updated_at = 110;
}

abbrev launched : Store
launched = record one { executors = row ∷ [] }

abbrev done_row : Invocation
done_row = record begun_row {
  status = Status.succeeded;
  receipt = some 31;
  result = some 32;
  completed_at = some 120;
}

abbrev done : Store
done = record {
  invocations = done_row ∷ [];
  executors = record row { executor_state = ExecutorState.finalized; updated_at = 120 } ∷ [];
}

begins : begin_invocation request (some key) 9 100 empty ≡ ok ((9, none), one)
unfolding begin_invocation find
begins = refl

records : record_executor 9 value 110 one ≡ ok launched
unfolding record_executor find
records = refl

finishes : finish_invocation 9 Status.succeeded 31 (some 32) none 120 launched ≡ ok done
unfolding finish_invocation count update
finishes = refl

in_progress :
    begin_invocation request (some key) 10 115 launched ≡ err "INVOCATION_IDEMPOTENCY_IN_PROGRESS"
unfolding begin_invocation find
in_progress = refl

replays : begin_invocation request (some key) 10 130 done ≡ ok ((9, some done_row), done)
unfolding begin_invocation find
replays = refl

conflicts :
    begin_invocation (record request { request_digest = 7 }) (some key) 10 130 done
    ≡ err "INVOCATION_IDEMPOTENCY_CONFLICT"
unfolding begin_invocation find
conflicts = refl

Reach-done : Reach one done
Reach-done =
    Reach.next (Reach.next Reach.here (Step.recorded 9 value 110 records))
      (Step.finished 9 Status.succeeded 31 (some 32) none 120 finishes)

Reach-launched : Reach empty launched
Reach-launched =
    Reach.next (Reach.next Reach.here (Step.begun request (some key) 9 100 (9, none) begins))
      (Step.recorded 9 value 110 records)

Reach-one_per_key_example : count (holds_key 3 key) launched.invocations ≤ 1
Reach-one_per_key_example = Reach-one_per_key launched 3 key Reach-launched

begin_once_example :
    (i : Invocation) × (i.id ≡ 9)
    × (find (holds_key 3 key) done.invocations ≡ some i)
    × (begin_invocation request (some key) 10 130 done ≡ (
        if is_succeeded i.status
        then ok ((i.id, some i), done)
        else err "INVOCATION_IDEMPOTENCY_IN_PROGRESS"))
begin_once_example = begin_once request key 9 10 100 130 empty one done (9, none) begins Reach-done

found_done : find (λ k. k.id == 9) done.invocations ≡ some done_row
unfolding find
found_done = refl

abbrev later : Store
later = record done {
  invocations =
      done_row ∷ record begun_row { id = 10; created_at = 130; idempotency_key = none } ∷ [];
}

begins_again : begin_invocation request none 10 130 done ≡ ok ((10, none), later)
unfolding begin_invocation new_invocation
begins_again = refl

settled_kept_example : find (λ k. k.id == 9) later.invocations ≡ some done_row
settled_kept_example =
    settled_kept done later done_row found_done refl
      (Reach.next Reach.here (Step.begun request none 10 130 (10, none) begins_again))

found_launched : find (λ k. k.id == 9) launched.invocations ≡ some begun_row
unfolding find
found_launched = refl

finish_settles_example :
    (is_running begun_row.status ≡ true
      → (s' : Store) × (finish_invocation 9 Status.succeeded 31 (some 32) none 120 launched ≡ ok s')
        × (find (λ k. k.id == 9) s'.invocations
            ≡ some (record begun_row {
              status = Status.succeeded;
              receipt = some 31;
              result = some 32;
              artifacts = none;
              completed_at = some 120;
            }))
        × All (λ e. e.invocation_id ≡ 9 → e.executor_state ≡ ExecutorState.finalized) s'.executors)
    × (is_running begun_row.status ≡ false
        → finish_invocation 9 Status.succeeded 31 (some 32) none 120 launched
          ≡ err "INVOCATION_STATE_CONFLICT")
finish_settles_example =
    finish_settles 9 Status.succeeded 31 (some 32) none 120 launched begun_row (tt, tt)
      found_launched
