-- ===== src/Dispatch/Claims.antt =====
-- What `claim` of src/capy_outcome_runtime/semantic_dispatch.py hands out: the pacing of the lane,
-- the choice among the due jobs, and when a job is handed out at all.
use mathlib.Core.Path.{subst}
use mathlib.Core.Option.{some-injective}
use capy_outcome_runtime_pub.Prelude.{
  ℕ, ◌+◌, ◌≤◌, ◌<◌, ◌≡◌, refl, sym, true, false, ◌&&◌, Option, none, some, arith, ◌∙◌, ap, leb,
  ◌==◌, if◌then◌else◌, Bool-cases, inl, inr,
}
use capy_outcome_runtime_pub.Table.{find, update, count, All}
use capy_outcome_runtime_pub.Table.Laws.{All-update_to, All-of}
use capy_outcome_runtime_pub.Table.Keys.{find-update}
use capy_outcome_runtime_pub.Dispatch.Types.{Policy, State, is_waiting, Job, Lane, Store}
use capy_outcome_runtime_pub.Dispatch.Queue.{
  release_row, release_lane, release_expired, expire_waiting, expire,
}
use capy_outcome_runtime_pub.Dispatch.Provider.{
  before, start, is_due, take_lane, is_blocked, take_row, next_due, claim_swept, sweep, claim,
  in_state,
}
use capy_outcome_runtime_pub.Dispatch.Due.{
  All-next_due, next_due-IsDue, find-next_due, next_due-first,
}
use capy_outcome_runtime_pub.Dispatch.Valid.{IsValid}
use capy_outcome_runtime_pub.Dispatch.Sweeps.{claimed_once, sweep-IsValid}

-- After the sweep no waiting job is past its deadline.
in_time :
    (now : ℕ) (s : Store)
    → All (λ j. is_waiting j.state ≡ true → now < j.deadline_at) (expire_waiting now s).jobs
unfolding expire_waiting expire
in_time now s =
    All-update_to (λ j. Unit {0}) (λ j. is_waiting j.state ≡ true → now < j.deadline_at)
      (λ j. is_waiting j.state && leb j.deadline_at now) (expire now) s.jobs (λ j p u w. cc)
      (λ j p u w. ground arith) (All-of (λ j. Unit {0}) s.jobs (λ j. tt))

module _ (policy : Policy) (now : ℕ) where
  took :
      (s : Store) (j' : Job)
      → (claim_swept policy now s).0 ≡ some j'
      → (is_blocked policy now s.lane ≡ false)
        × (claim_swept policy now s ≡ take_row policy (next_due now s.jobs) now s)
  unfolding claim_swept
  took s j' h = elim (Bool-cases (is_blocked policy now s.lane)) [
    | inl e ↦ absurd (nothing (rw e at h))
    | inr e ↦ (e, rw e)
  ]
    where
      nothing : ◌≡◌ {A = Option Job} none (some j') → ⊥
      nothing q = cc

  -- The claim reads back the selected row, started, and takes the lane.
  pub take_row-read :
      (s : Store) (j : Job)
      → IsValid s
      → next_due now s.jobs ≡ some j
      → ((take_row policy (some j) now s).0 ≡ some (start (j.attempt_count + 1) j))
        × ((take_row policy (some j) now s).1.lane ≡ take_lane policy j.id now s.lane)
  unfolding take_row
  take_row-read s j v e = (rw once (rw waits at row), rw once)
    where
      once : count (in_state j.id is_waiting) s.jobs ≡ 1
      once = claimed_once now s j v.ids e

      waits : in_state j.id is_waiting j ≡ true
      waits = let d : is_due now j ≡ true = next_due-IsDue now s.jobs j e in ground arith

      row :
          find
            (λ k. k.id == j.id)
            (update (in_state j.id is_waiting) (start (j.attempt_count + 1)) s.jobs)
          ≡ some (if in_state j.id is_waiting j then start (j.attempt_count + 1) j else j)
      row =
          find-update (λ k. k.id) (in_state j.id is_waiting) (start (j.attempt_count + 1)) j.id
            s.jobs j (λ k. unfold start in refl) (find-next_due now s.jobs j v.ids e)

  took_row :
      (s : Store) (o : Option Job) (j' : Job)
      → next_due now s.jobs ≡ o
      → (take_row policy o now s).0 ≡ some j'
      → IsValid s
      → (j : Job) × (o ≡ some j)
        × (j' ≡ start (j.attempt_count + 1) j)
        × ((take_row policy o now s).1.lane ≡ take_lane policy j.id now s.lane)
  unfolding take_row
  took_row s none j' e h v = absurd (nothing h)
    where
      nothing : ◌≡◌ {A = Option Job} none (some j') → ⊥
      nothing q = cc
  took_row s (some j) j' e h v =
      let (read, lane) = take_row-read s j v e in (j, refl, some-injective _ _ (sym h ∙ read), lane)

  release_row-pace :
      (active : Option ℕ) (s : Store)
      → ((release_row policy active now s).lane.cooldown_until ≡ s.lane.cooldown_until)
        × ((release_row policy active now s).lane.last_attempt_at ≡ s.lane.last_attempt_at)
  unfolding release_row release_lane
  release_row-pace none s = (refl, refl)
  release_row-pace (some a) s = ground arith

  -- The sweeps leave the lane's pace alone.
  pub sweep-pace :
      (s : Store)
      → ((sweep policy now s).lane.cooldown_until ≡ s.lane.cooldown_until)
        × ((sweep policy now s).lane.last_attempt_at ≡ s.lane.last_attempt_at)
  unfolding sweep release_expired expire_waiting
  sweep-pace s = release_row-pace s.lane.active_job_id s

  unblocked :
      (lane : Lane)
      → is_blocked policy now lane ≡ false
      → (lane.cooldown_until ≤ now)
        × ((last : ℕ) → lane.last_attempt_at ≡ some last → last + policy.minimum_spacing ≤ now)
  unfolding is_blocked
  unblocked lane h = (ground arith, λ last e. ground arith)

  -- A job that `claim` hands out was waiting in the swept table, due and before its deadline; no
  -- due job came before it by next attempt and creation; and it is handed out as running, with one
  -- attempt more and all else as it was.
  pub claim_selects :
      (s : Store) (j' : Job)
      → IsValid s
      → (claim policy now s).0 ≡ some j'
      → (j : Job) × (j'
          ≡ record j { state = State.provider_running; attempt_count = j.attempt_count + 1 })
        × (find (λ k. k.id == j.id) (sweep policy now s).jobs ≡ some j)
        × (is_waiting j.state ≡ true)
        × (j.next_attempt_at ≤ now)
        × (now < j.deadline_at)
        × All (λ k. is_due now k ≡ true → before k j ≡ false) (sweep policy now s).jobs
  unfolding claim start
  claim_selects s j' v h =
      let t : Store = sweep policy now s in
      let valid : IsValid t = sweep-IsValid policy now s v in
      let (open_lane, same) = took t j' h in
      let (j, e, started, lane) =
        took_row t (next_due now t.jobs) j' refl
          (ap (λ (r : Option Job × Store). r.0) (sym same) ∙ h) valid in
      let due : is_due now j ≡ true = next_due-IsDue now t.jobs j e in
      let early : is_waiting j.state ≡ true → now < j.deadline_at =
        All-next_due now (λ k. is_waiting k.state ≡ true → now < k.deadline_at) t.jobs j
          (unfold sweep in in_time now (release_expired policy now s)) e in
      (
        j,
        started,
        find-next_due now t.jobs j valid.ids e,
        waits_of j due,
        time_of j due,
        early (waits_of j due),
        next_due-first now t.jobs j e,
      )
    where
      waits_of : (j : Job) → is_due now j ≡ true → is_waiting j.state ≡ true
      waits_of j due = ground arith

      time_of : (j : Job) → is_due now j ≡ true → j.next_attempt_at ≤ now
      time_of j due = ground arith

  -- A call of the provider starts only after the lane's cooldown and its minimum spacing from the
  -- last call; the lane then names the job, its lease and the time of the call.
  pub claim_paced :
      (s : Store) (j' : Job)
      → IsValid s
      → (claim policy now s).0 ≡ some j'
      → (s.lane.cooldown_until ≤ now)
        × ((last : ℕ) → s.lane.last_attempt_at ≡ some last → last + policy.minimum_spacing ≤ now)
        × ((claim policy now s).1.lane.active_job_id ≡ some j'.id)
        × ((claim policy now s).1.lane.lease_until ≡ some (now + policy.lease))
        × ((claim policy now s).1.lane.last_attempt_at ≡ some now)
  unfolding claim
  claim_paced s j' v h =
      let t : Store = sweep policy now s in
      let valid : IsValid t = sweep-IsValid policy now s v in
      let (open_lane, same) = took t j' h in
      let (j, e, started, lane) =
        took_row t (next_due now t.jobs) j' refl
          (ap (λ (r : Option Job × Store). r.0) (sym same) ∙ h) valid in
      let taken : (claim_swept policy now t).1.lane ≡ take_lane policy j.id now t.lane =
        ap (λ (r : Option Job × Store). r.1.lane) same ∙ lane in
      let (cool, spaced) = unblocked t.lane open_lane in
      (
        subst (λ c. c ≤ now) (sweep-pace s).0 cool,
        λ last q. spaced last ((sweep-pace s).1 ∙ q),
        rw taken (unfold take_lane start in ap some (sym (ap (λ (k : Job). k.id) started))),
        rw taken (unfold take_lane in refl),
        rw taken (unfold take_lane in refl),
      )
