-- ===== src/Dispatch/Valid.antt =====
-- What the tables of the lane always satisfy: the keys are keys, a running job holds the lane,
-- and a job's receipts account for its attempts.
use capy_outcome_runtime_pub.Prelude.{ℕ, suc, ◌≤◌, ◌≡◌, ◌≢◌, Bool, true, Option, none, some, length}
use capy_outcome_runtime_pub.Table.{update, All, IsKey}
use capy_outcome_runtime_pub.Table.Keys.{IsKey-update}
use capy_outcome_runtime_pub.Dispatch.Types.{State, is_running, Job, Lane, Store}

-- The receipts of a job against the attempts that were started for it. A job that expired while
-- it waited has one receipt more.
abbrev pub Books : State → Job → Type 0
Books State.queued j = (j.attempt_count ≡ 0) × (length j.attempts ≡ 0) × (j.result ≡ none)
Books State.retry_wait j = (length j.attempts ≡ j.attempt_count) × (j.result ≡ none)
Books State.provider_running j = (suc (length j.attempts) ≡ j.attempt_count) × (j.result ≡ none)
Books State.result_ready j =
    (length j.attempts ≡ j.attempt_count) × (1 ≤ j.attempt_count) × (j.result ≢ none)
Books State.failed j =
    (j.attempt_count ≤ length j.attempts)
    × (length j.attempts ≤ suc j.attempt_count)
    × (j.result ≡ none)
    × (j.completed_at ≢ none)
Books State.completed j =
    (j.attempt_count ≤ length j.attempts)
    × (length j.attempts ≤ suc j.attempt_count)
    × (j.completed_at ≢ none)

abbrev pub IsAccounted : Job → Type 0
IsAccounted j = Books j.state j

-- A running job holds the lane.
abbrev pub HoldsLane : Option ℕ → Job → Type 0
HoldsLane active j = is_running j.state ≡ true → active ≡ some j.id

pub record IsValid (s : Store) : Type 0 where
  pub ids : IsKey (λ j. j.id) s.jobs
  pub consumers : IsKey (λ j. j.consumer_key) s.jobs
  pub holds : All (HoldsLane s.lane.active_job_id) s.jobs
  pub books : All IsAccounted s.jobs

-- Rows are rewritten without their keys, and the lane changes.
pub rewrite-IsValid :
    (s : Store) (lane : Lane) (p : Job → Bool) (f : Job → Job)
    → ((j : Job) → (f j).id ≡ j.id)
    → ((j : Job) → (f j).consumer_key ≡ j.consumer_key)
    → All (HoldsLane lane.active_job_id) (update p f s.jobs)
    → All IsAccounted (update p f s.jobs)
    → IsValid s
    → IsValid (record { jobs = update p f s.jobs; lane = lane })
rewrite-IsValid s lane p f id consumer holds books v = record {
  ids = IsKey-update (λ j. j.id) p f s.jobs id v.ids;
  consumers = IsKey-update (λ j. j.consumer_key) p f s.jobs consumer v.consumers;
  holds = holds;
  books = books;
}
