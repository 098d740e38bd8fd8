-- ===== src/Dispatch/Dispatcher.antt =====
-- `SemanticDispatcher.run_once` of src/capy_outcome_runtime/semantic_dispatch.py, with `ready` and
-- `terminal_failures` as far as it uses them.
use capy_outcome_runtime_pub.Dispatch.Types.{
  Policy, State, is_ready, is_failed, Job, Store, ProviderFailure, ProviderResult,
}
use capy_outcome_runtime_pub.Dispatch.Queue.{job}
use capy_outcome_runtime_pub.Dispatch.Provider.{
  claim, provider_succeeded, provider_failed, mark_consumed, mark_failure_consumed,
}
use capy_outcome_runtime_pub.Prelude.{
  ℕ, Bool, true, false, ◌&&◌, ◌||◌, Option, none, some, List, [], ◌∷◌, ltb, ◌==◌, if◌then◌else◌,
  Result, ok, err,
}

-- `ORDER BY created_at,id`
abbrev pub is_older : Job → Job → Bool
is_older a b = ltb a.created_at b.created_at || (a.created_at == b.created_at && ltb a.id b.id)

unfoldable pub older : Job → Option Job → Option Job
older a none = some a
older a (some b) = if is_older b a then some b else some a

-- The first row that `ready` and `terminal_failures` return.
unfoldable pub oldest : (State → Bool) → List Job → Option Job
unfolding older
oldest test [] = none
oldest test (j ∷ jobs) = let rest = oldest test jobs in if test j.state then older j rest else rest

-- A provider returns, raises a `RuntimeFailure`, or raises another exception.
pub data Answer : Type 0 where
  answers : ProviderResult → Answer
  fails : ProviderFailure → Answer
  crashes : Answer

-- The registered functions, as what they do with a job and the tables: whether the consumer returns,
-- whether the failure consumer returns or is missing, and the provider's answer, each with the
-- tables after the call, since a consumer may submit jobs itself and others submit meanwhile; and
-- the clock at the claim, at the answer and at the acknowledgement.
pub record Party : Type 0 where
  pub consumes : Job → Store → Bool × Store
  pub accepts_failure : Job → Store → Bool × Store
  pub provide : Job → Store → Answer × Store
  pub claimed_at : ℕ
  pub answered_at : ℕ
  pub consumed_at : ℕ

-- `run_once` returns whether it worked, or raises; either way the tables are as it left them.
pub data Ran : Type 0 where
  worked idle raised : Store → Ran

abbrev pub left_by : Ran → Store
left_by (Ran.worked s) = s
left_by (Ran.idle s) = s
left_by (Ran.raised s) = s

abbrev pub acknowledge : Store → Result Store → Ran
acknowledge s (ok t) = Ran.worked t
acknowledge s (err e) = Ran.raised s

module _ (policy : Policy) (seed : ℕ → ℕ → ℕ) (w : Party) where
  -- A consumer is called, and then the job is marked in the tables that it leaves.
  unfoldable pub deliver_result : Job → Store → Ran
  deliver_result j s =
      let (returned, t) = w.consumes j s in
      if returned then acknowledge t (mark_consumed j.id w.consumed_at t) else Ran.raised t

  unfoldable pub deliver_failure : Job → Store → Ran
  deliver_failure j s =
      let (returned, t) = w.accepts_failure j s in
      if returned then acknowledge t (mark_failure_consumed j.id w.consumed_at t) else Ran.raised t

  unfoldable pub refreshed : Result Job → Store → Ran
  unfolding deliver_result
  refreshed (ok k) s = deliver_result k s
  refreshed (err e) s = Ran.raised s

  unfoldable pub after_success : ℕ → Store → Result (Bool × Store) → Ran
  unfolding refreshed
  after_success id s (err e) = Ran.raised s
  after_success id s (ok (false, t)) = Ran.worked t
  after_success id s (ok (true, t)) = refreshed (job id t) t

  unfoldable pub take_answer : Job → Answer × Store → Ran
  unfolding after_success
  take_answer j (Answer.answers r, s) =
      after_success j.id s (provider_succeeded j.id r w.answered_at s)
  take_answer j (Answer.fails e, s) =
      acknowledge s (provider_failed policy seed j.id e w.answered_at s)
  take_answer j (Answer.crashes, s) = Ran.raised s

  unfoldable pub after_claim : Option Job × Store → Ran
  unfolding take_answer
  after_claim (none, s) = Ran.idle s
  after_claim (some j, s) = take_answer j (w.provide j s)

  unfoldable pub run_work : Option Job → Option Job → Store → Ran
  unfolding deliver_result deliver_failure after_claim
  run_work (some j) _ s = deliver_result j s
  run_work none (some j) s = deliver_failure j s
  run_work none none s = after_claim (claim policy w.claimed_at s)

  -- `run_once`
  unfoldable pub run_once : Store → Ran
  unfolding run_work oldest
  run_once s = run_work (oldest is_ready s.jobs) (oldest is_failed s.jobs) s

-- The rounds of `serve`: a round that raises counts as one without work.
unfoldable pub serve : Policy → (ℕ → ℕ → ℕ) → List Party → Store → Store
unfolding run_once
serve policy seed [] s = s
serve policy seed (w ∷ ws) s = serve policy seed ws (left_by (run_once policy seed w s))
