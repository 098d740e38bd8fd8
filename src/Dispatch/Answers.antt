-- ===== src/Dispatch/Answers.antt =====
-- The provider's answers and the consumers' acknowledgements keep the tables valid.
use capy_outcome_runtime_pub.Prelude.{
  ℕ, ◌≡◌, refl, Bool, true, false, Option, none, some, arith, ◌∙◌, ap, ==_sound, require-ok,
  guard-ok, ok-injective, length-snoc, ◌==◌, ok,
}
use mathlib.Core.Path.{subst}
use capy_outcome_runtime_pub.Table.{find, update}
use capy_outcome_runtime_pub.Table.Laws.{All-update, All-update_to, All-find, find_sound}
use capy_outcome_runtime_pub.Table.Keys.{All-update_row}
use capy_outcome_runtime_pub.Dispatch.Types.{
  Policy, State, is_running, is_ready, is_failed, Job, Lane, Health, Store, ProviderResult,
  ProviderFailure,
}
use capy_outcome_runtime_pub.Dispatch.Provider.{
  settle_success, settle_failure, free_lane, provider_succeeded, provider_failed, mark_consumed,
  mark_failure_consumed, in_state,
}
use capy_outcome_runtime_pub.Dispatch.Valid.{IsAccounted, HoldsLane, IsValid, rewrite-IsValid}

-- What a successful answer needs: the job is in the table and running.
answered :
    (id : ℕ) (s : Store) (j : Job)
    → find (λ k. k.id == id) s.jobs ≡ some j
    → is_running j.state ≡ true
    → IsValid s
    → s.lane.active_job_id ≡ some id
answered id s j h r v =
    All-find (HoldsLane s.lane.active_job_id) (λ k. k.id == id) s.jobs j v.holds h r
    ∙ ap some (==_sound _ _ (find_sound (λ k. k.id == id) s.jobs j h))

-- The answer of a running job: its row leaves `provider_running`, and the lane is freed.
answer-IsValid :
    (id : ℕ) (s : Store) (j : Job) (f : Job → Job) (lane : Lane)
    → find (λ k. k.id == id) s.jobs ≡ some j
    → is_running j.state ≡ true
    → lane.active_job_id ≡ none
    → ((k : Job) → (f k).id ≡ k.id)
    → ((k : Job) → (f k).consumer_key ≡ k.consumer_key)
    → ((k : Job) → is_running (f k).state ≡ false)
    → (IsAccounted j → IsAccounted (f j))
    → IsValid s
    → IsValid (record { jobs = update (λ k. k.id == id) f s.jobs; lane = lane })
answer-IsValid id s j f lane h r idle same_id same_consumer stopped books v =
    rewrite-IsValid s lane (λ k. k.id == id) f same_id same_consumer
      (All-update_to (HoldsLane s.lane.active_job_id) (HoldsLane lane.active_job_id)
        (λ k. k.id == id) f s.jobs (λ k p a q. absurd (false_true (stopped k) q))
        (λ k p a q. absurd (other_row (answered id s j h r v) (a q) p)) v.holds)
      (All-update_row (λ k. k.id) IsAccounted IsAccounted id (λ k. k.id == id) f s.jobs j
        (λ k p. ==_sound _ _ p) v.ids h (λ p b. books b) (λ k p b. b) v.books)
      v
  where
    false_true : {b : Bool} → b ≡ false → b ≡ true → ⊥
    false_true p q = cc

    other_row : {o : Option ℕ} {k : ℕ} → o ≡ some id → o ≡ some k → (k == id) ≡ false → ⊥
    other_row p q n = ground arith

pub provider_succeeded-IsValid :
    (id : ℕ) (r : ProviderResult) (now : ℕ) (s : Store) (b : Bool) (s' : Store)
    → provider_succeeded id r now s ≡ ok (b, s')
    → IsValid s
    → IsValid s'
unfolding provider_succeeded
provider_succeeded-IsValid id r now s b s' h v =
    let (j, found, h1) = require-ok _ _ _ _ h in
    let (running, h2) = guard-ok _ _ _ _ h1 in
    let done = ok-injective _ _ h2 in
    subst IsValid (ap (λ (t : Bool × Store). t.1) done) (
      answer-IsValid id s j (settle_success j r now) (free_lane now 0 Health.available s.lane) found
        running refl (λ k. ground arith) (λ k. ground arith) (λ k. ground arith)
        (λ a. succeeded_books j running a) v)
  where
    succeeded_books :
        (j : Job)
        → is_running j.state ≡ true
        → IsAccounted j
        → IsAccounted (settle_success j r now j)
    succeeded_books j running a = grind (arith, length-snoc)

pub provider_failed-IsValid :
    (policy : Policy) (seed : ℕ → ℕ → ℕ) (id : ℕ) (e : ProviderFailure) (now : ℕ) (s s' : Store)
    → provider_failed policy seed id e now s ≡ ok s'
    → IsValid s
    → IsValid s'
unfolding provider_failed
provider_failed-IsValid policy seed id e now s s' h v =
    let (j, found, h1) = require-ok _ _ _ _ h in
    let (running, h2) = guard-ok _ _ _ _ h1 in
    subst IsValid (ok-injective _ _ h2) (
      answer-IsValid id s j (settle_failure policy seed j e now) _ found running refl (λ k. refl)
        (λ k. refl) (λ k. ground arith) (λ a. failed_books j running a) v)
  where
    failed_books :
        (j : Job)
        → is_running j.state ≡ true
        → IsAccounted j
        → IsAccounted (settle_failure policy seed j e now j)
    failed_books j running a = grind (arith, length-snoc)

-- A consumer's acknowledgement: rows that do not run are rewritten, and the lane stays.
acknowledge-IsValid :
    (s : Store) (p : Job → Bool) (now : ℕ)
    → ((j : Job)
        → p j ≡ true
        → IsAccounted j
        → IsAccounted (record j { state = State.completed; completed_at = some now }))
    → IsValid s
    → IsValid (record s {
      jobs = update p (λ j. record j { state = State.completed; completed_at = some now }) s.jobs;
    })
acknowledge-IsValid s p now books v =
    rewrite-IsValid s s.lane p (λ j. record j { state = State.completed; completed_at = some now })
      (λ j. refl) (λ j. refl)
      (All-update (HoldsLane s.lane.active_job_id) p
        (λ j. record j { state = State.completed; completed_at = some now }) s.jobs (λ j e a r. cc)
        v.holds)
      (All-update IsAccounted p (λ j. record j { state = State.completed; completed_at = some now })
        s.jobs books v.books)
      v

pub mark_consumed-IsValid :
    (id now : ℕ) (s s' : Store) → mark_consumed id now s ≡ ok s' → IsValid s → IsValid s'
unfolding mark_consumed
mark_consumed-IsValid id now s s' h v =
    subst IsValid (ok-injective _ _ (guard-ok _ _ _ _ h).1)
      (acknowledge-IsValid s (in_state id is_ready) now (λ j p a. ground arith) v)

pub mark_failure_consumed-IsValid :
    (id now : ℕ) (s s' : Store) → mark_failure_consumed id now s ≡ ok s' → IsValid s → IsValid s'
unfolding mark_failure_consumed
mark_failure_consumed-IsValid id now s s' h v =
    subst IsValid (ok-injective _ _ (guard-ok _ _ _ _ h).1)
      (acknowledge-IsValid s (in_state id is_failed) now (λ j p a. ground arith) v)
