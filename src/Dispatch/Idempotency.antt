-- ===== src/Dispatch/Idempotency.antt =====
-- A consumer's submission is one job for as long as the database lives.
use mathlib.Core.Path.{subst}
use capy_outcome_runtime_pub.Prelude.{
  ℕ, ◌+◌, ◌≡◌, refl, sym, Bool, true, false, ◌&&◌, Option, none, some, List, [], ◌∷◌, ◌++◌, arith,
  ◌∙◌, ap, leb, ◌==◌, ==_refl, if◌then◌else◌, if-both, ok, ok-injective,
}
use capy_outcome_runtime_pub.Table.{find, update, count}
use capy_outcome_runtime_pub.Table.Keys.{find-update, find-append_some, find-append_none}
use capy_outcome_runtime_pub.Dispatch.Types.{
  Policy, WorkKind, same_kind, is_waiting, is_running, is_ready, is_failed, Job, Store,
  ProviderResult,
}
use capy_outcome_runtime_pub.Dispatch.Queue.{
  enqueue, enqueue_row, is_in_bounds, attempts_limit, elapsed_limit, release_row, lease_expired,
  interrupt, release_expired, expire_waiting, expire,
}
use capy_outcome_runtime_pub.Dispatch.Provider.{
  start, is_blocked, take_row, next_due, claim_swept, sweep, claim, in_state, settle_success,
  settle_failure,
}
use capy_outcome_runtime_pub.Dispatch.Accepted.{
  close_row, provider_succeeded-ok, provider_failed-ok, mark_consumed-ok, mark_failure_consumed-ok,
}
use capy_outcome_runtime_pub.Dispatch.Runs.{
  enqueue-ok, Step, enqueued, claimed, succeeded, failed_with, consumed, failure_consumed, Reach,
  here, next,
}

-- The row that a consumer's key finds stays, with its id, its request and its kind.
abbrev pub IsCarried : Job → Job → Type 0
IsCarried j k =
    (k.id ≡ j.id)
    × (k.consumer_key ≡ j.consumer_key)
    × (k.request_sha256 ≡ j.request_sha256)
    × (k.work_kind ≡ j.work_kind)

abbrev pub Carries : List Job → List Job → Type 0
Carries jobs jobs' =
    (c : ℕ) (j : Job)
    → find (λ k. k.consumer_key == c) jobs ≡ some j
    → (k : Job) × (find (λ k. k.consumer_key == c) jobs' ≡ some k) × IsCarried j k

Carries-refl : (jobs : List Job) → Carries jobs jobs
Carries-refl jobs c j h = (j, h, (refl, refl, refl, refl))

Carries-trans : (a b d : List Job) → Carries a b → Carries b d → Carries a d
Carries-trans a b d p q c j h =
    let (k, f, kept) = p c j h in
    let (m, g, kept') = q c k f in
    (m, g, (cc (kept.0, kept'.0), cc (kept.1, kept'.1), cc (kept.2, kept'.2), cc (kept.3, kept'.3)))

Carries-update :
    (p : Job → Bool) (f : Job → Job) (jobs : List Job)
    → ((j : Job) → IsCarried j (f j))
    → Carries jobs (update p f jobs)
Carries-update p f jobs kept c j h = (
  (if p j then f j else j),
  find-update (λ k. k.consumer_key) p f c jobs j (λ k. (kept k).1) h,
  by_test (p j) (kept j),
)
  where
    by_test : (b : Bool) → IsCarried j (f j) → IsCarried j (if b then f j else j)
    by_test true q = q
    by_test false q = (refl, refl, refl, refl)

Carries-append : (jobs new : List Job) → Carries jobs (jobs ++ new)
Carries-append jobs new c j h = (
  j,
  find-append_some (λ k. k.consumer_key) (λ k. k.consumer_key == c) jobs new j h,
  (refl, refl, refl, refl),
)

module _ (policy : Policy) (now : ℕ) where
  Carries-release_row :
      (active : Option ℕ) (s : Store) → Carries s.jobs (release_row policy active now s).jobs
  unfolding release_row
  Carries-release_row none s = Carries-refl s.jobs
  Carries-release_row (some a) s =
      if-both (λ (t : Store). Carries s.jobs t.jobs) (lease_expired now s.lane) _ s
        (Carries-update (λ j. j.id == a && is_running j.state) (interrupt policy now) s.jobs
          (λ j. unfold interrupt in ground arith))
        (Carries-refl s.jobs)

  Carries-take_row : (o : Option Job) (s : Store) → Carries s.jobs (take_row policy o now s).1.jobs
  unfolding take_row
  Carries-take_row none s = Carries-refl s.jobs
  Carries-take_row (some j) s =
      if-both (λ (r : Option Job × Store). Carries s.jobs r.1.jobs)
        (count (in_state j.id is_waiting) s.jobs == 1) _ _ written written
    where
      written :
          Carries s.jobs (update (in_state j.id is_waiting) (start (j.attempt_count + 1)) s.jobs)
      written =
          Carries-update (in_state j.id is_waiting) (start (j.attempt_count + 1)) s.jobs
            (λ k. unfold start in (refl, refl, refl, refl))

  Carries-claim : (s : Store) → Carries s.jobs (claim policy now s).1.jobs
  unfolding claim claim_swept sweep expire_waiting release_expired
  Carries-claim s =
      let t : Store = sweep policy now s in
      Carries-trans s.jobs t.jobs _
        (Carries-trans s.jobs (release_expired policy now s).jobs t.jobs
          (Carries-release_row s.lane.active_job_id s)
          (Carries-update (λ j. is_waiting j.state && leb j.deadline_at now) (expire now) _
            (λ j. unfold expire in (refl, refl, refl, refl))))
        (if-both (λ (r : Option Job × Store). Carries t.jobs r.1.jobs)
          (is_blocked policy now t.lane) _ _ (Carries-refl t.jobs)
          (Carries-take_row (next_due now t.jobs) t))

Carries-enqueue_row :
    (policy : Policy) (digest : ℕ → ℕ) (o : Option Job) (job : Job) (s : Store) (id : ℕ)
    (s' : Store)
    → enqueue_row policy digest o job s ≡ ok (id, s')
    → Carries s.jobs s'.jobs
unfolding enqueue_row
Carries-enqueue_row policy digest none job s id s' h =
    subst (λ (t : ℕ × Store). Carries s.jobs t.1.jobs) (ok-injective _ _ h)
      (Carries-append s.jobs (job ∷ []))
Carries-enqueue_row policy digest (some old) job s id s' h =
    subst (λ (t : Store). Carries s.jobs t.jobs) (kept old h) (Carries-refl s.jobs)
  where
    kept : (old : Job) → enqueue_row policy digest (some old) job s ≡ ok (id, s') → s ≡ s'
    kept old h = ground arith

settle_success-IsCarried :
    (j : Job) (r : ProviderResult) (now : ℕ) (k : Job) → IsCarried k (settle_success j r now k)
unfolding settle_success
settle_success-IsCarried j r now k = ground arith

module _ {policy : Policy} {digest : ℕ → ℕ} {seed : ℕ → ℕ → ℕ} where
  Carries-Step : (s s' : Store) → Step policy digest seed s s' → Carries s.jobs s'.jobs
  Carries-Step s s' (enqueued kind consumer payload attempts elapsed fresh now id new h) =
      Carries-enqueue_row policy digest _ _ s id s'
        (enqueue-ok policy digest kind consumer payload attempts elapsed fresh now s id s' h).2
  Carries-Step s s' (claimed now h) =
      subst (λ (t : Store). Carries s.jobs t.jobs) h (Carries-claim policy now s)
  Carries-Step s s' (succeeded id r now b h) =
      let (j, _, _, _, left) = provider_succeeded-ok id r now s b s' h in
      subst (λ (t : Store). Carries s.jobs t.jobs) (sym left)
        (Carries-update (λ k. k.id == id) (settle_success j r now) s.jobs
          (settle_success-IsCarried j r now))
  Carries-Step s s' (failed_with id e now h) =
      let (j, _, _, left) = provider_failed-ok policy seed id e now s s' h in
      subst (λ (t : Store). Carries s.jobs t.jobs) (sym left)
        (Carries-update (λ k. k.id == id) (settle_failure policy seed j e now) s.jobs
          (λ k. unfold settle_failure in (refl, refl, refl, refl)))
  Carries-Step s s' (consumed id now h) =
      subst (λ (t : Store). Carries s.jobs t.jobs) (sym (mark_consumed-ok id now s s' h).1)
        (Carries-update (in_state id is_ready) (close_row now) s.jobs
          (λ k. (refl, refl, refl, refl)))
  Carries-Step s s' (failure_consumed id now h) =
      subst (λ (t : Store). Carries s.jobs t.jobs) (sym (mark_failure_consumed-ok id now s s' h).1)
        (Carries-update (in_state id is_failed) (close_row now) s.jobs
          (λ k. (refl, refl, refl, refl)))

  Carries-Reach : (s s' : Store) → Reach policy digest seed s s' → Carries s.jobs s'.jobs
  Carries-Reach s s' here = Carries-refl s.jobs
  Carries-Reach s s' (next {t = t} r st) =
      Carries-trans s.jobs t.jobs s'.jobs (Carries-Reach s t r) (Carries-Step t s' st)

same_kind_refl : (k : WorkKind) → same_kind k k ≡ true
same_kind_refl k = ground arith

-- After a submission its consumer's key finds a row of that id, request and kind.
submitted :
    (policy : Policy) (digest : ℕ → ℕ) (o : Option Job) (job : Job) (s : Store) (id : ℕ)
    (s' : Store)
    → find (λ j. j.consumer_key == job.consumer_key) s.jobs ≡ o
    → enqueue_row policy digest o job s ≡ ok (id, s')
    → (j : Job) × (find (λ j. j.consumer_key == job.consumer_key) s'.jobs ≡ some j)
      × (j.id ≡ id)
      × (j.request_sha256 ≡ job.request_sha256)
      × (same_kind j.work_kind job.work_kind ≡ true)
unfolding enqueue_row
submitted policy digest none job s id s' f h =
    let done = ok-injective _ _ h in
    (
      job,
      subst (λ (t : ℕ × Store). find (λ j. j.consumer_key == job.consumer_key) t.1.jobs ≡ some job)
          done
          (find-append_none (λ k. k.consumer_key) (λ j. j.consumer_key == job.consumer_key) s.jobs
              (job ∷ []) f
            ∙ last),
      ap (λ (t : ℕ × Store). t.0) done,
      refl,
      same_kind_refl job.work_kind,
    )
  where
    last : find (λ j. j.consumer_key == job.consumer_key) (job ∷ []) ≡ some job
    last = unfold find in rw ==_refl
submitted policy digest (some old) job s id s' f h = (
  old,
  subst (λ (t : Store). find (λ j. j.consumer_key == job.consumer_key) t.jobs ≡ some old)
      (kept old h) f,
  ground arith,
  ground arith,
  ground arith,
)
  where
    kept : (old : Job) → enqueue_row policy digest (some old) job s ≡ ok (id, s') → s ≡ s'
    kept old h = ground arith

module _ {policy : Policy} {digest : ℕ → ℕ} {seed : ℕ → ℕ → ℕ} where
  -- Once a submission is accepted, the same consumer, kind and payload submitted again, after any
  -- operations of the lane and within the bounds, is answered by the same id and changes nothing.
  pub enqueue_idempotent :
      (kind : WorkKind) (consumer payload : ℕ) (attempts attempts' elapsed elapsed' : Option ℕ)
      (fresh fresh' now now' id : ℕ) (s s' s'' : Store)
      → enqueue policy digest kind consumer payload attempts elapsed fresh now s ≡ ok (id, s')
      → Reach policy digest seed s' s''
      → is_in_bounds (attempts_limit policy digest attempts') (elapsed_limit policy digest elapsed')
        ≡ true
      → enqueue policy digest kind consumer payload attempts' elapsed' fresh' now' s''
        ≡ ok (id, s'')
  unfolding enqueue enqueue_row
  enqueue_idempotent kind consumer payload attempts attempts' elapsed elapsed' fresh fresh' now now'
        id s s' s'' h r fits =
      let (known, _, accepted) =
        enqueue-ok policy digest kind consumer payload attempts elapsed fresh now s id s' h in
      let (j, found, same_id, same_request, kept) =
        submitted policy digest (find (λ j. j.consumer_key == consumer) s.jobs) _ s id s' refl
          accepted in
      let (k, found', carried) = Carries-Reach s' s'' r consumer j found in
      rw
        (known, fits, found', carried.2, carried.3, same_request, kept, ==_refl, carried.0, same_id)
