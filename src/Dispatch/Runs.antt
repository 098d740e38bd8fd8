-- ===== src/Dispatch/Runs.antt =====
-- Every table that the lane's operations reach is valid.
use capy_outcome_runtime_pub.Prelude.{
  ℕ, ◌≤◌, ◌≡◌, refl, sym, Bool, true, false, Option, none, some, List, [], ◌∷◌, arith, ◌∙◌, ap,
  guard-ok, ok-injective, ◌==◌, ok, Bool-cases, inl, inr,
}
use mathlib.Core.Path.{subst}
use mathlib.Core.Option.{some-injective}
use capy_outcome_runtime_pub.Table.{find, count, All, IsKey}
use capy_outcome_runtime_pub.Table.Laws.{count-zero, All-append}
use capy_outcome_runtime_pub.Table.Keys.{IsKey-insert}
use capy_outcome_runtime_pub.Dispatch.Types.{
  is_known_kind, Policy, is_running, Job, Store, ProviderResult, ProviderFailure, WorkKind,
}
use capy_outcome_runtime_pub.Dispatch.Queue.{
  is_in_bounds, new_job, attempts_limit, elapsed_limit, enqueue_row, initial, enqueue,
}
use capy_outcome_runtime_pub.Dispatch.Provider.{
  claim, provider_succeeded, provider_failed, mark_consumed, mark_failure_consumed,
}
use capy_outcome_runtime_pub.Dispatch.Valid.{IsAccounted, HoldsLane, IsValid}
use capy_outcome_runtime_pub.Dispatch.Sweeps.{claim-IsValid}
use capy_outcome_runtime_pub.Dispatch.Answers.{
  provider_succeeded-IsValid, provider_failed-IsValid, mark_consumed-IsValid,
  mark_failure_consumed-IsValid,
}

-- An accepted submission: the row of its consumer, or a new row.
pub enqueue-ok :
    (policy : Policy) (digest : ℕ → ℕ) (kind : WorkKind) (consumer payload : ℕ)
    (attempts elapsed : Option ℕ) (fresh now : ℕ) (s : Store) (id : ℕ) (s' : Store)
    → enqueue policy digest kind consumer payload attempts elapsed fresh now s ≡ ok (id, s')
    → (is_known_kind kind ≡ true)
      × (is_in_bounds (attempts_limit policy digest attempts) (elapsed_limit policy digest elapsed)
          ≡ true)
      × (enqueue_row policy digest
            (find (λ j. j.consumer_key == consumer) s.jobs)
            (new_job policy digest kind consumer payload
              (attempts_limit policy digest attempts)
              (elapsed_limit policy digest elapsed)
              fresh
              now)
            s
          ≡ ok (id, s'))
unfolding enqueue
enqueue-ok policy digest kind consumer payload attempts elapsed fresh now s id s' h =
    let (known, h1) = guard-ok (is_known_kind kind) "SEMANTIC_DISPATCH_KIND_INVALID" _ _ h in
    let (fits, h2) =
      guard-ok
        (is_in_bounds (attempts_limit policy digest attempts) (elapsed_limit policy digest elapsed))
        "SEMANTIC_DISPATCH_POLICY_INVALID" _ _ h1 in
    (known, fits, h2)

-- A new row takes an id and a consumer that are not in the table.
pub enqueue-IsValid :
    (policy : Policy) (digest : ℕ → ℕ) (kind : WorkKind) (consumer payload : ℕ)
    (attempts elapsed : Option ℕ) (fresh now : ℕ) (s : Store) (id : ℕ) (s' : Store)
    → enqueue policy digest kind consumer payload attempts elapsed fresh now s ≡ ok (id, s')
    → find (λ j. j.id == fresh) s.jobs ≡ none
    → IsValid s
    → IsValid s'
unfolding enqueue
enqueue-IsValid policy digest kind consumer payload attempts elapsed fresh now s id s' h new v =
    row (find (λ j. j.consumer_key == consumer) s.jobs) refl
      (enqueue-ok policy digest kind consumer payload attempts elapsed fresh now s id s' h).2
  where
    job : Job
    job =
        new_job policy digest kind consumer payload (attempts_limit policy digest attempts)
          (elapsed_limit policy digest elapsed) fresh now

    row :
        (o : Option Job)
        → find (λ j. j.consumer_key == consumer) s.jobs ≡ o
        → enqueue_row policy digest o job s ≡ ok (id, s')
        → IsValid s'
    row (some old) e h = subst IsValid (kept old h) v
      where
        kept : (old : Job) → enqueue_row policy digest (some old) job s ≡ ok (id, s') → s ≡ s'
        kept old h = ground arith
    row none e h = subst IsValid (ap (λ (t : ℕ × Store). t.1) (ok-injective _ _ h)) (record {
      ids = IsKey-insert (λ j. j.id) s.jobs job new v.ids;
      consumers = IsKey-insert (λ j. j.consumer_key) s.jobs job e v.consumers;
      holds = All-append (HoldsLane s.lane.active_job_id) s.jobs (job ∷ []) v.holds (λ r. cc, tt);
      books = All-append IsAccounted s.jobs (job ∷ []) v.books ((refl, refl, refl), tt);
    })

-- One operation of the lane, at a clock value, with the `uuid4` that it draws.
pub data Step (policy : Policy) (digest : ℕ → ℕ) (seed : ℕ → ℕ → ℕ) (s : Store) (s' : Store)
    : Type 0 where
  enqueued :
      (kind : WorkKind) (consumer payload : ℕ) (attempts elapsed : Option ℕ) (fresh now id : ℕ)
      → find (λ j. j.id == fresh) s.jobs ≡ none
      → enqueue policy digest kind consumer payload attempts elapsed fresh now s ≡ ok (id, s')
      → Step policy digest seed s s'
  claimed : (now : ℕ) → (claim policy now s).1 ≡ s' → Step policy digest seed s s'
  succeeded :
      (id : ℕ) (r : ProviderResult) (now : ℕ) (ready : Bool)
      → provider_succeeded id r now s ≡ ok (ready, s')
      → Step policy digest seed s s'
  failed_with :
      (id : ℕ) (e : ProviderFailure) (now : ℕ)
      → provider_failed policy seed id e now s ≡ ok s'
      → Step policy digest seed s s'
  consumed : (id now : ℕ) → mark_consumed id now s ≡ ok s' → Step policy digest seed s s'
  failure_consumed :
      (id now : ℕ) → mark_failure_consumed id now s ≡ ok s' → Step policy digest seed s s'

-- The tables that a sequence of operations leads to.
pub data Reach (policy : Policy) (digest : ℕ → ℕ) (seed : ℕ → ℕ → ℕ) (s : Store)
    : Store → Type 0 where
  here : Reach policy digest seed s s
  next :
      {t u : Store}
      → Reach policy digest seed s t
      → Step policy digest seed t u
      → Reach policy digest seed s u

initial-IsValid : (now : ℕ) → IsValid (initial now)
initial-IsValid now = record { ids = tt; consumers = tt; holds = tt; books = tt }

module _ {policy : Policy} {digest : ℕ → ℕ} {seed : ℕ → ℕ → ℕ} where
  pub Step-IsValid : (s s' : Store) → Step policy digest seed s s' → IsValid s → IsValid s'
  Step-IsValid s s' (enqueued kind consumer payload attempts elapsed fresh now id new h) v =
      enqueue-IsValid policy digest kind consumer payload attempts elapsed fresh now s id s' h new v
  Step-IsValid s s' (claimed now h) v = subst IsValid h (claim-IsValid policy now s v)
  Step-IsValid s s' (succeeded id r now b h) v = provider_succeeded-IsValid id r now s b s' h v
  Step-IsValid s s' (failed_with id e now h) v =
      provider_failed-IsValid policy seed id e now s s' h v
  Step-IsValid s s' (consumed id now h) v = mark_consumed-IsValid id now s s' h v
  Step-IsValid s s' (failure_consumed id now h) v = mark_failure_consumed-IsValid id now s s' h v

  -- Whatever sequence of operations runs on a new database, the tables stay valid: ids and consumer
  -- keys are keys, only the job that the lane names runs, and receipts account for the attempts.
  pub Reach-IsValid : (now : ℕ) (s : Store) → Reach policy digest seed (initial now) s → IsValid s
  Reach-IsValid now s here = initial-IsValid now
  Reach-IsValid now s (next {t = t} r st) = Step-IsValid t s st (Reach-IsValid now t r)

-- At most one job of a valid table runs.
one_running :
    (active : Option ℕ) (jobs : List Job)
    → All (HoldsLane active) jobs
    → IsKey (λ j. j.id) jobs
    → count (λ j. is_running j.state) jobs ≤ 1
unfolding count
one_running active [] h u = omega arith
one_running active (j ∷ jobs) h u = elim (Bool-cases (is_running j.state)) [
  | inr e ↦ rw e (one_running active jobs h.1 u.1)
  | inl e ↦
      let others : All (λ k. is_running k.state ≡ false) jobs =
        idle active j jobs (h.0 e) h.1 u.0 in
      rw (e, count-zero (λ k. is_running k.state) jobs others) (omega arith)
]
  where
    idle :
        (active : Option ℕ) (j : Job) (jobs : List Job)
        → active ≡ some j.id
        → All (HoldsLane active) jobs
        → All (λ k. k.id ≡ j.id → ⊥) jobs
        → All (λ k. is_running k.state ≡ false) jobs
    idle active j [] q a b = tt
    idle active j (k ∷ jobs) q a b = (
      elim (Bool-cases (is_running k.state)) [
        | inl r ↦ absurd (b.0 (some-injective _ _ (sym (a.0 r) ∙ q)))
        | inr r ↦ r
      ],
      idle active j jobs q a.1 b.1,
    )

module _ {policy : Policy} {digest : ℕ → ℕ} {seed : ℕ → ℕ → ℕ} where
  -- In every table that operations reach from a new database at most one job is with the provider.
  pub Reach-exclusive :
      (now : ℕ) (s : Store)
      → Reach policy digest seed (initial now) s
      → count (λ j. is_running j.state) s.jobs ≤ 1
  Reach-exclusive now s r =
      let v : IsValid s = Reach-IsValid now s r in
      one_running s.lane.active_job_id s.jobs v.holds v.ids
