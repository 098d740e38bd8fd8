-- ===== src/Dispatch/Backoff.antt =====
-- What the lane does with a provider's answer: success before or after the deadline, failure with
-- without another attempt.
use mathlib.Core.Option.{some-injective}
use capy_outcome_runtime_pub.Prelude.{
  ℕ, suc, ◌+◌, ◌-◌, ◌*◌, ◌^◌, min, ◌≤◌, ◌<◌, ◌≡◌, refl, sym, Bool, true, false, not, none, some,
  List, arith, ◌∙◌, ap, leb, ◌==◌, if◌then◌else◌, Option-cases, ◌⊎◌, inl, inr, ok, length,
  length-snoc,
}
use capy_outcome_runtime_pub.Table.{find, update}
use capy_outcome_runtime_pub.Table.Laws.{find_sound}
use capy_outcome_runtime_pub.Table.Keys.{find-update}
use capy_outcome_runtime_pub.Dispatch.Types.{
  Policy, State, Job, Store, ProviderResult, ProviderFailure, is_transient, is_rate_limit,
}
use capy_outcome_runtime_pub.Dispatch.Provider.{
  retry_delay, settle_success, settle_failure, provider_succeeded, provider_failed, will_retry,
}
use capy_outcome_runtime_pub.Dispatch.Accepted.{provider_succeeded-ok, provider_failed-ok}

-- An UPDATE by id is read back.
read_back :
    (id : ℕ) (f : Job → Job) (jobs : List Job) (j : Job)
    → ((k : Job) → (f k).id ≡ k.id)
    → find (λ k. k.id == id) jobs ≡ some j
    → find (λ k. k.id == id) (update (λ k. k.id == id) f jobs) ≡ some (f j)
read_back id f jobs j same h =
    find-update (λ k. k.id) (λ k. k.id == id) f id jobs j same h
    ∙ hit (find_sound (λ k. k.id == id) jobs j h)
  where
    hit : (j.id == id) ≡ true → some (if j.id == id then f j else j) ≡ some (f j)
    hit e = rw e

module _ (policy : Policy) (seed : ℕ → ℕ → ℕ) where
  -- The delay before another attempt is exponential in the attempts made, capped by the policy's
  -- maximum, and at least what the provider asked for up to that maximum.
  pub retry_delay_bounds :
      (j : Job) (e : ProviderFailure)
      → (min policy.maximum_backoff (policy.base_backoff * 2 ^ (j.attempt_count - 1))
          ≤ retry_delay policy seed j e)
        × (retry_delay policy seed j e ≤ policy.maximum_backoff)
        × ((r : ℕ)
            → e.retry_after ≡ some r
            → min r policy.maximum_backoff ≤ retry_delay policy seed j e)
  unfolding retry_delay
  retry_delay_bounds j e = elim (Option-cases e.retry_after) [
    | inl q ↦ rw q (omega arith, omega arith, λ r f. absurd (cc))
    | inr (t, q) ↦
        rw q (omega arith, omega arith, λ r f. let same : t ≡ r = cc in rw same (omega arith))
  ]

  -- A transient failure with attempts left, before the deadline, sends the job back to wait: its
  -- next attempt is due after the backoff, at most the maximum away; after a rate limit the lane
  -- cools down until then. The lane is free.
  pub failure_backs_off :
      (id : ℕ) (e : ProviderFailure) (now : ℕ) (s s' : Store) (j : Job)
      → provider_failed policy seed id e now s ≡ ok s'
      → find (λ k. k.id == id) s.jobs ≡ some j
      → is_transient e.code ≡ true
      → j.attempt_count < j.max_attempts
      → now < j.deadline_at
      → (k : Job) × (find (λ k. k.id == id) s'.jobs ≡ some k)
        × (k.state ≡ State.retry_wait)
        × (now + min policy.maximum_backoff (policy.base_backoff * 2 ^ (j.attempt_count - 1))
            ≤ k.next_attempt_at)
        × (k.next_attempt_at ≤ now + policy.maximum_backoff)
        × (k.completed_at ≡ none)
        × (s'.lane.active_job_id ≡ none)
        × (is_rate_limit e.code ≡ true → k.next_attempt_at ≤ s'.lane.cooldown_until)
  failure_backs_off id e now s s' j h found transient left early =
      let (j', found', _, done) = provider_failed-ok policy seed id e now s s' h in
      let same : j' ≡ j = some-injective _ _ (sym found' ∙ found) in
      let retry : will_retry policy seed now j e ≡ true = ground arith in
      let (low, high, _) = retry_delay_bounds j e in
      rw (done, same)
        (
          settle_failure policy seed j e now j,
          read_back id (settle_failure policy seed j e now) s.jobs j
              (λ k. unfold settle_failure in refl) found,
          unfold settle_failure in rw retry,
          unfold settle_failure in rw retry (omega arith),
          unfold settle_failure in rw retry (omega arith),
          unfold settle_failure in rw retry,
          refl,
          λ limited. unfold settle_failure in rw limited (omega arith),
        )

  -- A failure that is not transient, or comes with no attempt left or past the deadline, ends the
  -- job: it is failed with the provider's code, it has no next attempt, and the lane is free.
  pub failure_ends :
      (id : ℕ) (e : ProviderFailure) (now : ℕ) (s s' : Store) (j : Job)
      → provider_failed policy seed id e now s ≡ ok s'
      → find (λ k. k.id == id) s.jobs ≡ some j
      → (is_transient e.code ≡ false) ⊎ (j.max_attempts ≤ j.attempt_count) ⊎ (j.deadline_at ≤ now)
      → (k : Job) × (find (λ k. k.id == id) s'.jobs ≡ some k)
        × (k.state ≡ State.failed)
        × (k.completed_at ≡ some now)
        × (length k.attempts ≡ suc (length j.attempts))
        × (s'.lane.active_job_id ≡ none)
  failure_ends id e now s s' j h found final =
      let (j', found', _, done) = provider_failed-ok policy seed id e now s s' h in
      let same : j' ≡ j = some-injective _ _ (sym found' ∙ found) in
      let ends : will_retry policy seed now j e ≡ false = ground arith in
      rw (done, same)
        (
          settle_failure policy seed j e now j,
          read_back id (settle_failure policy seed j e now) s.jobs j
              (λ k. unfold settle_failure in refl) found,
          unfold settle_failure in rw ends,
          unfold settle_failure in rw ends,
          unfold settle_failure in length-snoc j.attempts _,
          refl,
        )

-- A success is the job's result only before the deadline; after it the job has failed and the
-- result is dropped. Either way the lane is free and its cooldown is over.
pub success_settles :
    (id : ℕ) (r : ProviderResult) (now : ℕ) (s : Store) (ready : Bool) (s' : Store) (j : Job)
    → provider_succeeded id r now s ≡ ok (ready, s')
    → find (λ k. k.id == id) s.jobs ≡ some j
    → (k : Job) × (find (λ k. k.id == id) s'.jobs ≡ some k)
      × (now < j.deadline_at
          → (ready ≡ true) × (k.state ≡ State.result_ready) × (k.result ≡ some r.body))
      × (j.deadline_at ≤ now → (ready ≡ false) × (k.state ≡ State.failed) × (k.result ≡ none))
      × (s'.lane.active_job_id ≡ none)
      × (s'.lane.cooldown_until ≡ 0)
success_settles id r now s ready s' j h found =
    let (j', found', _, ready_eq, done) = provider_succeeded-ok id r now s ready s' h in
    let same : j' ≡ j = some-injective _ _ (sym found' ∙ found) in
    let ready_at : ready ≡ not (leb j.deadline_at now) =
      ready_eq ∙ ap (λ (t : Job). not (leb t.deadline_at now)) same in
    rw (done, same)
      (
        settle_success j r now j,
        read_back id (settle_success j r now) s.jobs j (same_id j) found,
        (λ early. unfold settle_success in ground arith),
        (λ late. unfold settle_success in ground arith),
        refl,
        refl,
      )
  where
    same_id : (j k : Job) → (settle_success j r now k).id ≡ k.id
    same_id j k = unfold settle_success in ground arith
