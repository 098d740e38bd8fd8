-- ===== src/Dispatch/Tests.antt =====
-- Runs of the lane on small tables.
use mathlib.Core.Path.{subst}
use capy_outcome_runtime_pub.Prelude.{
  ℕ, suc, ◌+◌, ◌*◌, ◌^◌, min, length, ◌≤◌, ◌<◌, ◌≡◌, ◌≢◌, refl, sym, ap, true, false, Option, none,
  some, [], ◌∷◌, arith, ◌==◌, inl, ok, err,
}
use capy_outcome_runtime_pub.Table.{find, update, count, All, IsKey}
use capy_outcome_runtime_pub.Dispatch.Types.{
  second, Policy, WorkKind, State, is_waiting, is_ready, is_running, is_rate_limit, Job, Health,
  Store, FailureCode, ProviderFailure, ProviderResult,
}
use capy_outcome_runtime_pub.Dispatch.Queue.{
  initial, is_in_bounds, attempts_limit, elapsed_limit, enqueue, release_expired, expire_waiting,
}
use capy_outcome_runtime_pub.Dispatch.Provider.{
  claim, claim_swept, take_row, is_blocked, is_due, before, next_due, settle_success,
  settle_failure, provider_succeeded, provider_failed, sweep, retry_delay,
}
use capy_outcome_runtime_pub.Dispatch.Valid.{IsValid}
use capy_outcome_runtime_pub.Dispatch.Runs.{Reach, Step, Reach-IsValid, Reach-exclusive}
use capy_outcome_runtime_pub.Dispatch.Claims.{claim_selects, claim_paced}
use capy_outcome_runtime_pub.Dispatch.Dispatcher.{
  Answer, Party, Ran, older, oldest, run_once, serve,
}
use capy_outcome_runtime_pub.Dispatch.Rounds.{Submits, result_delivered, serve_delivers}
use capy_outcome_runtime_pub.Dispatch.Service.{claim_serves}
use capy_outcome_runtime_pub.Dispatch.Idempotency.{enqueue_idempotent}
use capy_outcome_runtime_pub.Dispatch.Backoff.{
  retry_delay_bounds, failure_backs_off, failure_ends, success_settles,
}

-- The defaults of `DispatchPolicy`.
abbrev policy : Policy
policy = record {
  max_attempts = 3;
  max_elapsed = 180 * second;
  minimum_spacing = 3 * second;
  base_backoff = 15 * second;
  maximum_backoff = 60 * second;
  lease = 90 * second;
}

abbrev digest : ℕ → ℕ
digest payload = payload + 1000

abbrev seed : ℕ → ℕ → ℕ
seed id attempt = id + attempt

-- Two submissions, the first one claimed.
abbrev job : ℕ → ℕ → ℕ → Job
job id consumer now = record {
  id = id;
  consumer_key = consumer;
  work_kind = WorkKind.chat_turn;
  payload = 7;
  request_sha256 = 1007;
  state = State.queued;
  attempt_count = 0;
  max_attempts = 3;
  created_at = now;
  deadline_at = now + 180 * second;
  next_attempt_at = now;
  result = none;
  error_code = none;
  attempts = [];
  completed_at = none;
}

abbrev one : Store
one = record (initial 0) { jobs = job 1 11 0 ∷ [] }

abbrev two : Store
two = record (initial 0) { jobs = job 1 11 0 ∷ job 2 12 5 ∷ [] }

abbrev at_claim : ℕ
at_claim = 3 * second

abbrev running : Job
running = record (job 1 11 0) { state = State.provider_running; attempt_count = 1 }

abbrev claimed : Store
claimed = record {
  jobs = running ∷ job 2 12 5 ∷ [];
  lane = record {
    active_job_id = some 1;
    lease_until = some (93 * second);
    cooldown_until = 0;
    last_attempt_at = some at_claim;
    health = Health.calling;
    updated_at = at_claim;
  };
}

enqueue-one : enqueue policy digest WorkKind.chat_turn 11 7 none none 1 0 (initial 0) ≡ ok (1, one)
unfolding enqueue find
enqueue-one = refl

enqueue-two : enqueue policy digest WorkKind.chat_turn 12 7 none none 2 5 one ≡ ok (2, two)
unfolding enqueue find
enqueue-two = refl

claim-two : claim policy at_claim two ≡ (some running, claimed)
unfolding claim sweep claim_swept release_expired expire_waiting take_row is_blocked next_due update
    count find
claim-two = refl

claim_taken : (claim policy (at_claim + 1) claimed).0 ≡ none
unfolding claim sweep claim_swept release_expired expire_waiting take_row is_blocked next_due update
    count find
claim_taken = refl

no_row : find (λ j. j.id == 1) (initial 0).jobs ≡ none
unfolding find
no_row = refl

no_second : find (λ j. j.id == 2) one.jobs ≡ none
unfolding find
no_second = refl

Reach-two : Reach policy digest seed (initial 0) two
Reach-two =
    Reach.next
      (Reach.next Reach.here
        (Step.enqueued WorkKind.chat_turn 11 7 none none 1 0 1 no_row enqueue-one))
      (Step.enqueued WorkKind.chat_turn 12 7 none none 2 5 2 no_second enqueue-two)

Reach-claimed : Reach policy digest seed (initial 0) claimed
Reach-claimed =
    Reach.next Reach-two (Step.claimed at_claim (ap (λ (r : Option Job × Store). r.1) claim-two))

two-IsValid : IsValid two
two-IsValid = Reach-IsValid 0 two Reach-two

Reach-IsValid_example : IsValid claimed
Reach-IsValid_example = Reach-IsValid 0 claimed Reach-claimed

Reach-exclusive_example : count (λ j. is_running j.state) claimed.jobs ≤ 1
Reach-exclusive_example = Reach-exclusive 0 claimed Reach-claimed

some_claimed : (claim policy at_claim two).0 ≡ some running
some_claimed = ap (λ (r : Option Job × Store). r.0) claim-two

claim_selects_example :
    (j : Job) × (running
      ≡ record j { state = State.provider_running; attempt_count = j.attempt_count + 1 })
    × (find (λ k. k.id == j.id) (sweep policy at_claim two).jobs ≡ some j)
    × (is_waiting j.state ≡ true)
    × (j.next_attempt_at ≤ at_claim)
    × (at_claim < j.deadline_at)
    × All (λ k. is_due at_claim k ≡ true → before k j ≡ false) (sweep policy at_claim two).jobs
claim_selects_example = claim_selects policy at_claim two running two-IsValid some_claimed

claim_paced_example :
    (two.lane.cooldown_until ≤ at_claim)
    × ((last : ℕ) → two.lane.last_attempt_at ≡ some last → last + policy.minimum_spacing ≤ at_claim)
    × ((claim policy at_claim two).1.lane.active_job_id ≡ some running.id)
    × ((claim policy at_claim two).1.lane.lease_until ≡ some (at_claim + policy.lease))
    × ((claim policy at_claim two).1.lane.last_attempt_at ≡ some at_claim)
claim_paced_example = claim_paced policy at_claim two running two-IsValid some_claimed

found_two : find (λ k. k.id == 2) two.jobs ≡ some (job 2 12 5)
unfolding find
found_two = refl

claim_serves_example : (claim policy at_claim two).0 ≢ none
claim_serves_example =
    claim_serves policy at_claim two (job 2 12 5) two-IsValid (inl refl) (omega arith)
      (λ last e. absurd (cc)) found_two refl (omega arith) (omega arith)

in_limits :
    is_in_bounds (attempts_limit policy digest (some 2)) (elapsed_limit policy digest none) ≡ true
unfolding attempts_limit elapsed_limit
in_limits = refl

enqueue_idempotent_example :
    enqueue policy digest WorkKind.chat_turn 11 7 (some 2) none 3 at_claim claimed ≡ ok (1, claimed)
enqueue_idempotent_example =
    enqueue_idempotent {policy = policy} {digest = digest} {seed = seed} WorkKind.chat_turn 11 7
      none (some 2) none none 1 3 0 at_claim 1 (initial 0) one claimed enqueue-one
      (Reach.next
        (Reach.next Reach.here
          (Step.enqueued WorkKind.chat_turn 12 7 none none 2 5 2 no_second enqueue-two))
        (Step.claimed at_claim (ap (λ (r : Option Job × Store). r.1) claim-two)))
      in_limits

abbrev limited : ProviderFailure
limited = record {
  code = FailureCode.rate_limit;
  semantic_attempt_count = none;
  retry_after = some (20 * second);
  evidence = 0;
}

abbrev denied : ProviderFailure
denied = record {
  code = FailureCode.other "SEMANTIC_PROVIDER_DENIED";
  semantic_attempt_count = none;
  retry_after = none;
  evidence = 0;
}

-- The lane after the first job's provider failed or answered at `at_answer`.
abbrev at_answer : ℕ
at_answer = 5 * second

found_running : find (λ k. k.id == 1) claimed.jobs ≡ some running
unfolding find
found_running = refl

retry_delay_bounds_example :
    (min (60 * second) (15 * second * 2 ^ 0) ≤ retry_delay policy seed running limited)
    × (retry_delay policy seed running limited ≤ policy.maximum_backoff)
    × ((r : ℕ)
        → limited.retry_after ≡ some r
        → min r (60 * second) ≤ retry_delay policy seed running limited)
retry_delay_bounds_example = retry_delay_bounds policy seed running limited

abbrev cooled : Store
cooled = record {
  jobs = settle_failure policy seed running limited at_answer running ∷ job 2 12 5 ∷ [];
  lane = record {
    active_job_id = none;
    lease_until = none;
    cooldown_until = 25 * second;
    last_attempt_at = some at_claim;
    health = Health.rate_limited;
    updated_at = at_answer;
  };
}

fail_limited : provider_failed policy seed 1 limited at_answer claimed ≡ ok cooled
unfolding provider_failed find update retry_delay
fail_limited = refl

failure_backs_off_example :
    (k : Job) × (find (λ k. k.id == 1) cooled.jobs ≡ some k)
    × (k.state ≡ State.retry_wait)
    × (at_answer + min (60 * second) (15 * second * 2 ^ 0) ≤ k.next_attempt_at)
    × (k.next_attempt_at ≤ at_answer + 60 * second)
    × (k.completed_at ≡ none)
    × (cooled.lane.active_job_id ≡ none)
    × (is_rate_limit limited.code ≡ true → k.next_attempt_at ≤ cooled.lane.cooldown_until)
failure_backs_off_example =
    failure_backs_off policy seed 1 limited at_answer claimed cooled running fail_limited
      found_running refl (omega arith) (omega arith)

abbrev ended : Store
ended = record {
  jobs = settle_failure policy seed running denied at_answer running ∷ job 2 12 5 ∷ [];
  lane = record {
    active_job_id = none;
    lease_until = none;
    cooldown_until = 0;
    last_attempt_at = some at_claim;
    health = Health.degraded;
    updated_at = at_answer;
  };
}

fail_denied : provider_failed policy seed 1 denied at_answer claimed ≡ ok ended
unfolding provider_failed find update
fail_denied = refl

failure_ends_example :
    (k : Job) × (find (λ k. k.id == 1) ended.jobs ≡ some k)
    × (k.state ≡ State.failed)
    × (k.completed_at ≡ some at_answer)
    × (length k.attempts ≡ suc (length running.attempts))
    × (ended.lane.active_job_id ≡ none)
failure_ends_example =
    failure_ends policy seed 1 denied at_answer claimed ended running fail_denied found_running
      (inl refl)

abbrev answer : ProviderResult
answer = record { body = 99; semantic_attempt_count = none; total_tokens = some 40; evidence = 0 }

abbrev answered : Store
answered = record {
  jobs = settle_success running answer at_answer running ∷ job 2 12 5 ∷ [];
  lane = record {
    active_job_id = none;
    lease_until = none;
    cooldown_until = 0;
    last_attempt_at = some at_claim;
    health = Health.available;
    updated_at = at_answer;
  };
}

succeed : provider_succeeded 1 answer at_answer claimed ≡ ok (true, answered)
unfolding provider_succeeded find update
succeed = refl

success_settles_example :
    (k : Job) × (find (λ k. k.id == 1) answered.jobs ≡ some k)
    × (at_answer < running.deadline_at
        → (true ≡ true) × (k.state ≡ State.result_ready) × (k.result ≡ some 99))
    × (running.deadline_at ≤ at_answer
        → (true ≡ false) × (k.state ≡ State.failed) × (k.result ≡ none))
    × (answered.lane.active_job_id ≡ none)
    × (answered.lane.cooldown_until ≡ 0)
success_settles_example =
    success_settles 1 answer at_answer claimed true answered running succeed found_running

-- The provider answers, and the consumer submits a job and returns, as the one of the chat does with
-- the second stage of a turn.
abbrev follow_up : Job → Store → Store
follow_up j s = elim (enqueue policy digest WorkKind.chat_turn 13 7 none none 3 6 s) [
  | ok r ↦ r.1
  | err e ↦ s
]

abbrev party : Party
party = record {
  consumes = λ j s. (true, follow_up j s);
  accepts_failure = λ j s. (true, s);
  provide = λ j s. (Answer.answers answer, s);
  claimed_at = at_claim;
  answered_at = 5 * second;
  consumed_at = 6 * second;
}

-- A consumer that raises at once, and one that returns at once.
abbrev raising : Party
raising = record party { consumes = λ j s. (false, s) }

abbrev returning : Party
returning = record party { consumes = λ j s. (true, s) }

abbrev ready : Job
ready = record running { state = State.result_ready; result = some 5 }

abbrev waiting : Store
waiting = record two { jobs = job 2 12 5 ∷ ready ∷ [] }

first_offered : oldest is_ready waiting.jobs ≡ some ready
unfolding oldest older
first_offered = refl

waiting_ids : IsKey (λ k. k.id) waiting.jobs
waiting_ids = ((λ e. cc, tt), (tt, tt))

-- The tables after the consumer has submitted a job.
abbrev submitted : Store
submitted = record waiting {
  jobs = job 2 12 5 ∷ ready ∷ record (job 3 13 6) { next_attempt_at = 6 } ∷ [];
}

submits_follow_up :
    enqueue policy digest WorkKind.chat_turn 13 7 none none 3 6 waiting ≡ ok (3, submitted)
unfolding enqueue find
submits_follow_up = refl

no_third : find (λ j. j.id == 3) waiting.jobs ≡ none
unfolding find
no_third = refl

consumes_ready : (party.consumes ready waiting).1 ≡ submitted
unfolding enqueue find
consumes_ready = refl

follows : Submits policy digest waiting (party.consumes ready waiting).1
follows = subst (Submits policy digest waiting) (sym consumes_ready) (
    Submits.submits WorkKind.chat_turn 13 7 none none 3 6 3 Submits.still no_third
      submits_follow_up)

result_delivered_example :
    (v : Store) × (run_once policy seed party waiting ≡ Ran.worked v)
    × (find (λ k. k.id == 1) v.jobs
        ≡ some (record ready { state = State.completed; completed_at = some (6 * second) }))
    × ((i : ℕ) (k : Job)
        → i ≢ 1
        → find (λ m. m.id == i) (party.consumes ready waiting).1.jobs ≡ some k
        → find (λ m. m.id == i) v.jobs ≡ some k)
result_delivered_example =
    (result_delivered policy digest seed party waiting ready waiting_ids follows first_offered).0
      refl

serve_delivers_example :
    find (λ k. k.id == 1) (serve policy seed (raising ∷ raising ∷ returning ∷ []) waiting).jobs
    ≡ some (record ready { state = State.completed; completed_at = some (6 * second) })
serve_delivers_example =
    serve_delivers policy digest seed (raising ∷ raising ∷ []) returning waiting ready waiting_ids
      first_offered ((λ j s. Submits.still, λ t. refl), ((λ j s. Submits.still, λ t. refl), tt))
      (λ j s. Submits.still) (λ t. refl)
