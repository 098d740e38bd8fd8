-- ===== src/Dispatch/Sweeps.antt =====
-- `claim` of src/capy_outcome_runtime/semantic_dispatch.py, with its two sweeps, keeps the tables
-- valid.
use capy_outcome_runtime_pub.Prelude.{
  ℕ, ◌+◌, ◌≡◌, refl, Bool, true, false, ◌&&◌, Option, none, some, arith, ◌∙◌, length-snoc, leb,
  ◌==◌, if◌then◌else◌, Bool-cases, inl, inr,
}
use capy_outcome_runtime_pub.Table.{count, IsKey}
use capy_outcome_runtime_pub.Table.Laws.{All-update, All-update_to}
use capy_outcome_runtime_pub.Table.Keys.{count-at_key, All-update_row}
use capy_outcome_runtime_pub.Dispatch.Due.{next_due-IsDue, find-next_due}
use capy_outcome_runtime_pub.Dispatch.Types.{Policy, is_waiting, is_running, Job, Lane, Store}
use capy_outcome_runtime_pub.Dispatch.Queue.{
  release_row, lease_expired, release_lane, release_expired, expire_waiting, interrupt, expire,
}
use capy_outcome_runtime_pub.Dispatch.Provider.{
  start, is_due, take_lane, is_blocked, take_row, next_due, claim_swept, sweep, claim, in_state,
}
use capy_outcome_runtime_pub.Dispatch.Valid.{IsAccounted, HoldsLane, IsValid, rewrite-IsValid}

expire-IsAccounted :
    (now : ℕ) (j : Job) → is_waiting j.state ≡ true → IsAccounted j → IsAccounted (expire now j)
unfolding expire
expire-IsAccounted now j w b = grind (arith, length-snoc)

interrupt-IsAccounted :
    (policy : Policy) (now : ℕ) (j : Job)
    → is_running j.state ≡ true
    → IsAccounted j
    → IsAccounted (interrupt policy now j)
unfolding interrupt
interrupt-IsAccounted policy now j w b = grind (arith, length-snoc)

pub expire_waiting-IsValid : (now : ℕ) (s : Store) → IsValid s → IsValid (expire_waiting now s)
unfolding expire_waiting expire
expire_waiting-IsValid now s v =
    rewrite-IsValid s s.lane waiting (expire now) (λ j. refl) (λ j. refl)
      (All-update (HoldsLane s.lane.active_job_id) waiting (expire now) s.jobs (λ j p h q. cc)
        v.holds)
      (All-update IsAccounted waiting (expire now) s.jobs
        (λ j p b. expire-IsAccounted now j (ground arith) b) v.books)
      v
  where
    waiting : Job → Bool
    waiting j = is_waiting j.state && leb j.deadline_at now

release_row-IsValid :
    (policy : Policy) (active : Option ℕ) (now : ℕ) (s : Store)
    → s.lane.active_job_id ≡ active
    → IsValid s
    → IsValid (release_row policy active now s)
unfolding release_row interrupt release_lane
release_row-IsValid policy none now s e v = v
release_row-IsValid policy (some a) now s e v = elim (Bool-cases (lease_expired now s.lane)) [
  | inr live ↦ rw live v
  | inl gone ↦ rw gone (
      rewrite-IsValid s (release_lane now s.lane) expired (interrupt policy now) (λ j. ground arith)
        (λ j. ground arith)
        (All-update_to (HoldsLane s.lane.active_job_id) (HoldsLane none) expired
          (interrupt policy now) s.jobs (λ j p h. ground arith) (λ j p h. ground arith) v.holds)
        (All-update IsAccounted expired (interrupt policy now) s.jobs
          (λ j p b. interrupt-IsAccounted policy now j (ground arith) b) v.books)
        v)
]
  where
    expired : Job → Bool
    expired j = j.id == a && is_running j.state

pub release_expired-IsValid :
    (policy : Policy) (now : ℕ) (s : Store) → IsValid s → IsValid (release_expired policy now s)
unfolding release_expired
release_expired-IsValid policy now s v =
    release_row-IsValid policy s.lane.active_job_id now s refl v

start-IsAccounted :
    (j : Job)
    → is_waiting j.state ≡ true
    → IsAccounted j
    → IsAccounted (start (j.attempt_count + 1) j)
unfolding start
start-IsAccounted j w b = ground arith

-- The claim's UPDATE writes the row that it selected.
pub claimed_once :
    (now : ℕ) (s : Store) (j : Job)
    → IsKey (λ k. k.id) s.jobs
    → next_due now s.jobs ≡ some j
    → count (in_state j.id is_waiting) s.jobs ≡ 1
claimed_once now s j u h =
    count-at_key (λ k. k.id) j.id (λ k. is_waiting k.state) s.jobs j u
      (find-next_due now s.jobs j u h)
    ∙ one (next_due-IsDue now s.jobs j h)
  where
    one : is_due now j ≡ true → ◌≡◌ {A = ℕ} (if is_waiting j.state then 1 else 0) 1
    one h = ground arith

module _ (policy : Policy) where
  taken-IsValid :
      (now : ℕ) (s : Store) (j : Job)
      → s.lane.active_job_id ≡ none
      → next_due now s.jobs ≡ some j
      → IsValid s
      → IsValid (take_row policy (some j) now s).1
  unfolding take_row
  taken-IsValid now s j idle h v = rw (claimed_once now s j v.ids h) (
      rewrite-IsValid s (take_lane policy j.id now s.lane) mine (start (j.attempt_count + 1))
        (λ k. refl) (λ k. refl)
        (All-update_to (HoldsLane s.lane.active_job_id) (HoldsLane (some j.id)) mine
          (start (j.attempt_count + 1)) s.jobs (λ k p a r. ground arith) (λ k p a r. cc (idle, a r))
          v.holds)
        (All-update_row (λ k. k.id) IsAccounted IsAccounted j.id mine (start (j.attempt_count + 1))
          s.jobs j (λ k p. ground arith) v.ids (find-next_due now s.jobs j v.ids h)
          (λ p b. start-IsAccounted j (ground arith) b) (λ k p b. b) v.books)
        v)
    where
      mine : Job → Bool
      mine = in_state j.id is_waiting

  not_blocked-idle :
      (now : ℕ) (lane : Lane) → is_blocked policy now lane ≡ false → lane.active_job_id ≡ none
  unfolding is_blocked
  not_blocked-idle now lane h = ground arith

  claim_swept-IsValid : (now : ℕ) (s : Store) → IsValid s → IsValid (claim_swept policy now s).1
  unfolding claim_swept
  claim_swept-IsValid now s v = elim (Bool-cases (is_blocked policy now s.lane)) [
    | inl e ↦ rw e v
    | inr e ↦ rw e (taken (not_blocked-idle now s.lane e) (next_due now s.jobs) refl)
  ]
    where
      taken :
          s.lane.active_job_id ≡ none
          → (o : Option Job) → next_due now s.jobs ≡ o
          → IsValid (take_row policy o now s).1
      taken idle none h = unfold take_row in v
      taken idle (some j) h = taken-IsValid now s j idle h v

  pub sweep-IsValid : (now : ℕ) (s : Store) → IsValid s → IsValid (sweep policy now s)
  unfolding sweep
  sweep-IsValid now s v = expire_waiting-IsValid now _ (release_expired-IsValid policy now s v)

  -- A claim, with its sweeps, keeps the tables valid.
  pub claim-IsValid : (now : ℕ) (s : Store) → IsValid s → IsValid (claim policy now s).1
  unfolding claim
  claim-IsValid now s v = claim_swept-IsValid now _ (sweep-IsValid now s v)
