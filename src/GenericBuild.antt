-- ===== src/GenericBuild.antt =====
-- `GenericBuildOrchestrator` of src/capy_outcome_runtime/generic_build.py: one bounded build, with
-- the builder's authority removed before the independent review.
mod Types
mod Ends
mod Stages
mod Review
mod Delivery
pub mod Order
mod Tests
pub use Types.*
use capy_outcome_runtime_pub.Prelude.{
  ℕ, suc, ◌+◌, Bool, true, false, not, Option, none, some, String, List, [], ◌∷◌, ◌++◌, ◌==◌,
  if◌then◌else◌, ◌&&◌, is_none,
}

-- A step of `run`: it may raise, and what it assigned before stays assigned.
abbrev pub Action : Type 0 → Type 0
Action A = Run → Exit A × Run

infixl 5 ◌>>=◌ ◌>>◌
pub ◌>>=◌ : {A B : Type 0} → Action A → (A → Action B) → Action B
◌>>=◌ m f r =
    let (e, r') = m r in
    elim e [
      | done a ↦ f a r'
      | terminal ↦ (terminal, r')
      | cancelled_exit ↦ (cancelled_exit, r')
      | cleanup_failure fs ↦ (cleanup_failure fs, r')
      | fault n ↦ (fault n, r')
    ]

abbrev pub ◌>>◌ : {A B : Type 0} → Action A → Action B → Action B
m >> k = m >>= λ _. k

abbrev pub modify : (Run → Run) → Action (Unit {0})
modify f r = (done tt, f r)

-- Records a call of a party.
abbrev pub log : Event → Run → Run
log e r = record r { trace = e ∷ r.trace }

-- `classification = ...; detail = ...; raise _Terminal`
abbrev pub stop : {A : Type 0} → Classification → Option Detail → Action A
stop c d r = (terminal, record r { classification = c; detail = d })

abbrev pub stop_keeping : {A : Type 0} → Classification → Action A
stop_keeping c r = (terminal, record r { classification = c })

abbrev pub named : Fault → Option Detail
named f = some (Detail.text f.name)

-- `str(error) or type(error).__name__`
abbrev pub described : Fault → Option Detail
described f = elim f.text [ none ↦ named f | some t ↦ some (Detail.text t) ]

-- A call of a party: its answer is handled by the two continuations.
pub call : {A B : Type 0} → Event → Call A → (A → Action B) → (Fault → Action B) → Action B
call e (returns a) k h r = k a (log e r)
call e (raises f) k h r = h f (log e r)

-- An exception that only the outer `except Exception` catches.
abbrev pub escape : {A : Type 0} → Fault → Action A
escape f r = (fault f.name, r)

-- The initial variables of `run`.
pub start : Run
start = record {
  grant = none;
  candidate = none;
  publication = none;
  cleanup_complete = false;
  cleanup_attempted = false;
  classification = Classification.orchestration_failed;
  detail = none;
  retry_result = none;
  escaped = none;
  checks = 0;
  trace = [];
}

-- The `except` clauses of the builder's call.
pub build_fault : Fault → Action (Unit {0})
build_fault f =
    if f.is_timeout
    then stop_keeping Classification.builder_timeout
    else stop Classification.builder_failed (named f)

-- The tests on the collected candidate.
pub check_found : Grant → Option Candidate → Action Candidate
check_found grant none = stop_keeping Classification.no_push
check_found grant (some c) =
    if c.repository == grant.repository
    then (λ r. (done c, r))
    else stop Classification.candidate_identity_invalid (some (Detail.text "repository mismatch"))

abbrev pub keep_grant : Grant → Action Grant
keep_grant g r = (done g, record r { grant = some g })

abbrev pub keep_found : Option Candidate → Action (Option Candidate)
keep_found c r = (done c, record r { candidate = c })

abbrev pub pass : {A : Type 0} → A → Action A
pass a r = (done a, r)

abbrev pub keep_publication : ℕ → Action (Unit {0})
keep_publication p r = (done tt, record r { publication = some p })

abbrev pub keep_retry : ℕ → Action (Unit {0})
keep_retry v r = (done tt, record r { retry_result = some v })

abbrev pub accept_fault : Fault → Action Verdict
accept_fault f = stop Classification.oracle_failed (if f.is_oracle then described f else named f)

abbrev pub publish_fault : Fault → Action (Unit {0})
publish_fault f = stop Classification.publication_failed (named f)

abbrev pub retry_fault : Fault → Action (Unit {0})
retry_fault f = stop Classification.retry_failed (named f)

pub raise_failures : List Failure → Action (Unit {0})
raise_failures [] r = (done tt, r)
raise_failures (f ∷ fs) r = (cleanup_failure (f ∷ fs), r)

pub judge : Verdict → Action ℕ
judge foreign = stop Classification.oracle_failed (some (Detail.text "invalid acceptance decision"))
judge (decision d) =
    if not d.accepted
    then stop Classification.candidate_rejected
        (elim d.reason [ none ↦ none | some t ↦ some (Detail.text t) ])
    else elim d.receipt [
      | none ↦
          stop Classification.oracle_failed (some (Detail.text "accepted decision omitted receipt"))
      | some receipt ↦ (λ r. (done receipt, r))
    ]

-- The `except` clauses.
pub handle : Exit (Unit {0}) × Run → Run
handle (done _, r) = r
handle (terminal, r) = r
handle (cancelled_exit, r) = record r { classification = Classification.cancelled_run }
handle (cleanup_failure fs, r) = record r {
  classification = Classification.cleanup_failed;
  detail = some (failures fs);
}
handle (fault n, r) = record r {
  classification = Classification.orchestration_failed;
  detail = some (Detail.text n);
}

pub finish : Exit (Unit {0}) × Run → Run
finish (done _, r) = record r { cleanup_complete = true }
finish (cleanup_failure fs, r) = record r {
  classification = Classification.cleanup_failed;
  detail = some (failures fs);
}
finish (fault n, r) = record r { escaped = some n }
finish (_, r) = r

abbrev pub stop_if : Call Bool → Exit (Unit {0})
stop_if (returns b) = if b then cancelled_exit else done tt
stop_if (raises f) = fault f.name

-- The entries that the calls of `_cleanup` add to `failures`.
abbrev pub add : Failure → Action (List Failure)
add f = pass (f ∷ [])

abbrev pub add_if : Bool → Failure → Action (List Failure)
add_if b f = pass (if b then f ∷ [] else [])

module _ (w : Answers) where
  -- `_check_cancelled`
  pub check_cancelled : Action (Unit {0})
  check_cancelled r =
      (stop_if (w.cancelled r.checks), record (log Event.checked r) { checks = r.checks + 1 })

  -- The key file is unlinked if it exists.
  pub unlink_key : Bool → Action (List Failure)
  unlink_key left =
      if left
      then call Event.unlinked w.unlink (λ _. pass []) (λ f. add (key_failed f.name))
      else pass []

  -- `_cleanup`: an exception of `exists` escapes.
  pub cleanup : Action (Unit {0})
  unfolding unlink_key raise_failures
  cleanup = do
    a ← call Event.revoked w.revoke (λ _. pass []) (λ f. add (revoke_failed f.name))
    b ←
        call Event.confirmed w.denied (λ d. add_if (not d) denial_unconfirmed)
          (λ f. add (denial_failed f.name))
    call Event.key_removed w.remove_key pass (λ _. pass tt)
    c ← call Event.looked w.key_left unlink_key escape
    d ← call Event.looked w.key_still_left (λ left. add_if left key_present) escape
    raise_failures (a ++ b ++ c ++ d)

  -- The body of `try` up to the collected candidate.
  pub obtain : Action Candidate
  unfolding check_cancelled build_fault check_found
  obtain = do
    check_cancelled
    grant ← call Event.created w.create keep_grant escape
    check_cancelled
    call Event.built w.build pass build_fault
    check_cancelled
    found ← call Event.collected w.collect keep_found escape
    check_found grant found

  -- `cleanup_attempted = True; self._cleanup(grant); cleanup_complete = True`
  pub remove_authority : Action (Unit {0})
  unfolding cleanup
  remove_authority = do
    modify (λ r. record r { cleanup_attempted = true })
    cleanup
    modify (λ r. record r { cleanup_complete = true })

  -- The body of `try` from the acceptance on.
  pub deliver : Action (Unit {0})
  unfolding check_cancelled judge
  deliver = do
    check_cancelled
    verdict ← call Event.accepted w.accept pass accept_fault
    receipt ← judge verdict
    check_cancelled
    call Event.published w.publish keep_publication publish_fault
    check_cancelled
    call Event.retried w.retry keep_retry retry_fault
    modify (λ r. record r { classification = Classification.completed })

  pub attempt : Action (Unit {0})
  attempt = do obtain; remove_authority; deliver

  -- The `finally` clause.
  pub finally_clean : Run → Run
  unfolding finish
  finally_clean r =
      if not (is_none r.grant) && not r.cleanup_attempted
      then finish (cleanup (record r { cleanup_attempted = true }))
      else r

  -- `run`: the final variables make up the `GenericBuildOutcome`.
  pub run : Run
  unfolding attempt handle finally_clean start
  run = finally_clean (handle (attempt start))
