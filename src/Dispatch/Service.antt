-- ===== src/Dispatch/Service.antt =====
-- When `claim` of src/capy_outcome_runtime/semantic_dispatch.py must hand out a job.
use capy_outcome_runtime_pub.Prelude.{
  ℕ, ◌+◌, ◌≤◌, ◌<◌, ◌≡◌, ◌≢◌, refl, sym, true, false, ◌&&◌, Option, none, some, arith, ◌∙◌, ap, leb,
  ◌==◌, if◌then◌else◌, Bool-cases, Option-cases, ◌⊎◌, inl, inr,
}
use capy_outcome_runtime_pub.Table.{find}
use capy_outcome_runtime_pub.Table.Laws.{All-find}
use capy_outcome_runtime_pub.Table.Keys.{find-update}
use capy_outcome_runtime_pub.Dispatch.Types.{Policy, is_waiting, is_running, Job, Lane, Store}
use capy_outcome_runtime_pub.Dispatch.Queue.{
  release_row, interrupt, lease_expired, release_lane, release_expired, expire_waiting, expire,
}
use capy_outcome_runtime_pub.Dispatch.Provider.{
  is_due, is_blocked, take_row, next_due, claim_swept, sweep, claim,
}
use capy_outcome_runtime_pub.Dispatch.Due.{next_due-none}
use capy_outcome_runtime_pub.Dispatch.Valid.{IsValid}
use capy_outcome_runtime_pub.Dispatch.Claims.{sweep-pace, take_row-read}
use capy_outcome_runtime_pub.Dispatch.Sweeps.{sweep-IsValid}

-- The lane names no job, or its lease has run out.
abbrev pub IsIdle : ℕ → Lane → Type 0
IsIdle now lane = (lane.active_job_id ≡ none) ⊎ (lease_expired now lane ≡ true)

module _ (policy : Policy) (now : ℕ) where
  -- A waiting row that is before its deadline passes both sweeps unchanged.
  release_row-waiting :
      (active : Option ℕ) (s : Store) (j : Job)
      → find (λ k. k.id == j.id) s.jobs ≡ some j
      → is_waiting j.state ≡ true
      → find (λ k. k.id == j.id) (release_row policy active now s).jobs ≡ some j
  unfolding release_row
  release_row-waiting none s j h w = h
  release_row-waiting (some a) s j h w = elim (Bool-cases (lease_expired now s.lane)) [
    | inr e ↦ rw e h
    | inl e ↦ rw e (
        find-update (λ k. k.id) (λ k. k.id == a && is_running k.state) (interrupt policy now) j.id
          s.jobs j (λ k. unfold interrupt in ground arith) h
        ∙ ap some (kept a j w))
  ]
    where
      kept :
          (a : ℕ) (j : Job)
          → is_waiting j.state ≡ true
          → (if j.id == a && is_running j.state then interrupt policy now j else j) ≡ j
      kept a j w = ground arith

  sweep-waiting :
      (s : Store) (j : Job)
      → find (λ k. k.id == j.id) s.jobs ≡ some j
      → is_waiting j.state ≡ true
      → now < j.deadline_at
      → find (λ k. k.id == j.id) (sweep policy now s).jobs ≡ some j
  unfolding sweep expire_waiting release_expired
  sweep-waiting s j h w d =
      find-update (λ k. k.id) (λ k. is_waiting k.state && leb k.deadline_at now) (expire now) j.id
        (release_expired policy now s).jobs j (λ k. unfold expire in refl)
        (release_row-waiting s.lane.active_job_id s j h w)
      ∙ ap some (kept j d)
    where
      kept :
          (j : Job)
          → now < j.deadline_at
          → (if is_waiting j.state && leb j.deadline_at now then expire now j else j) ≡ j
      kept j d = ground arith

  release_row-idle :
      (active : Option ℕ) (s : Store)
      → s.lane.active_job_id ≡ active
      → IsIdle now s.lane
      → (release_row policy active now s).lane.active_job_id ≡ none
  unfolding release_row release_lane
  release_row-idle none s e h = e
  release_row-idle (some a) s e (inl f) = cc
  release_row-idle (some a) s e (inr f) = rw f

  free :
      (s : Store)
      → IsIdle now s.lane
      → (s.lane.cooldown_until ≤ now)
      → ((last : ℕ) → s.lane.last_attempt_at ≡ some last → last + policy.minimum_spacing ≤ now)
      → is_blocked policy now (sweep policy now s).lane ≡ false
  free s i c l =
      let idle : (sweep policy now s).lane.active_job_id ≡ none =
        unfold sweep expire_waiting release_expired in
        release_row-idle s.lane.active_job_id s refl i in
      let (cool, last) = sweep-pace policy now s in
      open_at (sweep policy now s).lane idle (rw cool c) (λ t e. l t (sym last ∙ e))
    where
      open_at :
          (lane : Lane)
          → lane.active_job_id ≡ none
          → lane.cooldown_until ≤ now
          → ((last : ℕ) → lane.last_attempt_at ≡ some last → last + policy.minimum_spacing ≤ now)
          → is_blocked policy now lane ≡ false
      open_at lane idle cool spaced = elim (Option-cases lane.last_attempt_at) [
        | inl e ↦ unfold is_blocked in ground arith
        | inr (t, e) ↦ unfold is_blocked in ground (arith, spaced t e)
      ]

  -- A waiting job that is due and before its deadline makes `claim` hand out a job, once the lane
  -- is idle or its lease has run out, its cooldown is over and its spacing has passed.
  pub claim_serves :
      (s : Store) (j : Job)
      → IsValid s
      → IsIdle now s.lane
      → s.lane.cooldown_until ≤ now
      → ((last : ℕ) → s.lane.last_attempt_at ≡ some last → last + policy.minimum_spacing ≤ now)
      → find (λ k. k.id == j.id) s.jobs ≡ some j
      → is_waiting j.state ≡ true
      → j.next_attempt_at ≤ now
      → now < j.deadline_at
      → (claim policy now s).0 ≢ none
  unfolding claim claim_swept
  claim_serves s j v idle cool spaced found w due d nothing =
      let t : Store = sweep policy now s in
      served t (sweep-IsValid policy now s v) (next_due now t.jobs) refl
        (sweep-waiting s j found w d) (rw (free s idle cool spaced) at nothing)
    where
      served :
          (t : Store)
          → IsValid t
          → (o : Option Job) → next_due now t.jobs ≡ o
          → find (λ k. k.id == j.id) t.jobs ≡ some j
          → (take_row policy o now t).0 ≡ none
          → ⊥
      served t v none e f n =
          let missed : is_due now j ≡ false =
            All-find (λ k. is_due now k ≡ false) (λ k. k.id == j.id) t.jobs j
              (next_due-none now t.jobs e) f in
          ground arith
      served t v (some m) e f n = cc ((take_row-read policy now t m v e).0)
