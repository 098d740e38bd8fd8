-- ===== src/Dispatch/Accepted.antt =====
-- What an accepted call of the lane's operations has tested, and the tables that it leaves.
use capy_outcome_runtime_pub.Prelude.{
  ℕ, ◌≡◌, sym, Bool, true, not, some, leb, ◌==◌, if◌then◌else◌, max, ok, ap, require-ok, guard-ok,
  ok-injective,
}
use capy_outcome_runtime_pub.Table.{find, update, count}
use capy_outcome_runtime_pub.Dispatch.Types.{
  Policy, State, is_running, is_ready, is_failed, Job, Health, Store, is_rate_limit, ProviderResult,
  ProviderFailure,
}
use capy_outcome_runtime_pub.Dispatch.Provider.{
  in_state, free_lane, retry_at, settle_success, settle_failure, provider_succeeded,
  provider_failed, mark_consumed, mark_failure_consumed,
}

-- A consumer's acknowledgement of a row.
abbrev pub close_row : ℕ → Job → Job
close_row now j = record j { state = State.completed; completed_at = some now }

pub provider_succeeded-ok :
    (id : ℕ) (r : ProviderResult) (now : ℕ) (s : Store) (b : Bool) (s' : Store)
    → provider_succeeded id r now s ≡ ok (b, s')
    → (j : Job) × (find (λ k. k.id == id) s.jobs ≡ some j)
      × (is_running j.state ≡ true)
      × (b ≡ not (leb j.deadline_at now))
      × (s' ≡ record {
        jobs = update (λ k. k.id == id) (settle_success j r now) s.jobs;
        lane = free_lane now 0 Health.available s.lane;
      })
unfolding provider_succeeded
provider_succeeded-ok id r now s b s' h =
    let (j, found, h1) = require-ok _ _ _ _ h in
    let (running, h2) = guard-ok _ _ _ _ h1 in
    let done = ok-injective _ _ h2 in
    (
      j,
      found,
      running,
      sym (ap (λ (t : Bool × Store). t.0) done),
      sym (ap (λ (t : Bool × Store). t.1) done),
    )

pub provider_failed-ok :
    (policy : Policy) (seed : ℕ → ℕ → ℕ) (id : ℕ) (e : ProviderFailure) (now : ℕ) (s s' : Store)
    → provider_failed policy seed id e now s ≡ ok s'
    → (j : Job) × (find (λ k. k.id == id) s.jobs ≡ some j)
      × (is_running j.state ≡ true)
      × (s' ≡ record {
        jobs = update (λ k. k.id == id) (settle_failure policy seed j e now) s.jobs;
        lane =
            free_lane now
              (max s.lane.cooldown_until
                (if is_rate_limit e.code then retry_at policy seed now j e else 0))
              (if is_rate_limit e.code then Health.rate_limited else Health.degraded)
              s.lane;
      })
unfolding provider_failed
provider_failed-ok policy seed id e now s s' h =
    let (j, found, h1) = require-ok _ _ _ _ h in
    let (running, h2) = guard-ok _ _ _ _ h1 in (j, found, running, sym (ok-injective _ _ h2))

pub mark_consumed-ok :
    (id now : ℕ) (s s' : Store)
    → mark_consumed id now s ≡ ok s'
    → (count (in_state id is_ready) s.jobs == 1 ≡ true)
      × (s' ≡ record s { jobs = update (in_state id is_ready) (close_row now) s.jobs })
unfolding mark_consumed
mark_consumed-ok id now s s' h =
    let (one, done) = guard-ok _ _ _ _ h in (one, sym (ok-injective _ _ done))

pub mark_failure_consumed-ok :
    (id now : ℕ) (s s' : Store)
    → mark_failure_consumed id now s ≡ ok s'
    → (count (in_state id is_failed) s.jobs == 1 ≡ true)
      × (s' ≡ record s { jobs = update (in_state id is_failed) (close_row now) s.jobs })
unfolding mark_failure_consumed
mark_failure_consumed-ok id now s s' h =
    let (one, done) = guard-ok _ _ _ _ h in (one, sym (ok-injective _ _ done))
