-- ===== src/Dispatch/Rounds.antt =====
-- How `run_once` and `serve` of src/capy_outcome_runtime/semantic_dispatch.py deliver a result.
use mathlib.Core.Path.{subst}
use mathlib.Core.Option.{some-injective}
use capy_outcome_runtime_pub.Table.Laws.{All-map, All-of, find_sound}
use capy_outcome_runtime_pub.Table.{find, update, count, IsKey, All}
use capy_outcome_runtime_pub.Table.Keys.{
  find-update, count-at_key, All-found, IsKey-insert, find-append_some,
}
use capy_outcome_runtime_pub.Dispatch.Types.{Policy, State, is_ready, Job, Store, WorkKind}
use capy_outcome_runtime_pub.Dispatch.Queue.{
  enqueue, enqueue_row, new_job, attempts_limit, elapsed_limit,
}
use capy_outcome_runtime_pub.Dispatch.Provider.{in_state}
use capy_outcome_runtime_pub.Dispatch.Provider.{mark_consumed}
use capy_outcome_runtime_pub.Dispatch.Runs.{enqueue-ok}
use capy_outcome_runtime_pub.Dispatch.Dispatcher.{
  is_older, older, oldest, Party, Ran, left_by, serve, deliver_result, run_work, run_once,
}
use capy_outcome_runtime_pub.Prelude.{
  ℕ, ◌≡◌, ◌≢◌, refl, ◌∙◌, ap, sym, Bool, true, false, Option, none, some, List, [], ◌∷◌, ◌++◌, ◌==◌,
  if◌then◌else◌, Bool-cases, inl, inr, ok, arith, ok-injective, ==_sound,
}

-- What every row in the state has, the oldest of them has.
oldest-lem :
    (test : State → Bool) (Q : Job → Type 0) (jobs : List Job) (j : Job)
    → All (λ k. test k.state ≡ true → Q k) jobs
    → oldest test jobs ≡ some j
    → Q j
unfolding oldest older
oldest-lem test Q [] j a h = cc
oldest-lem test Q (k ∷ jobs) j a h = elim (Bool-cases (test k.state)) [
  | inr e ↦ oldest-lem test Q jobs j a.1 (rw e at h)
  | inl e ↦ chosen e (oldest-lem test Q jobs j a.1) (oldest test jobs) refl (rw e at h)
]
  where
    chosen :
        test k.state ≡ true
        → (oldest test jobs ≡ some j → Q j)
        → (o : Option Job) → oldest test jobs ≡ o
        → older k o ≡ some j
        → Q j
    chosen e rest none f g = subst Q (some-injective _ _ g) (a.0 e)
    chosen e rest (some m) f g = elim (Bool-cases (is_older m k)) [
      | inl q ↦ rest (f ∙ (rw q at g))
      | inr q ↦ subst Q (some-injective _ _ (rw q at g)) (a.0 e)
    ]

-- A new row that is in another state is not the oldest.
oldest-append :
    (test : State → Bool) (jobs : List Job) (j : Job)
    → test j.state ≡ false
    → oldest test (jobs ++ j ∷ []) ≡ oldest test jobs
unfolding oldest
oldest-append test [] j h = rw h refl
oldest-append test (k ∷ jobs) j h = rw (oldest-append test jobs j h) refl

module _ (policy : Policy) (digest : ℕ → ℕ) where
  -- The tables that submissions of fresh jobs lead to.
  pub data Submits (s : Store) : Store → Type 0 where
    still : Submits s s
    submits :
        {t u : Store} (kind : WorkKind) (consumer payload : ℕ) (attempts elapsed : Option ℕ)
        (fresh now id : ℕ)
        → Submits s t
        → find (λ j. j.id == fresh) t.jobs ≡ none
        → enqueue policy digest kind consumer payload attempts elapsed fresh now t ≡ ok (id, u)
        → Submits s u

  -- What a submission keeps: the key, the rows and the oldest result.
  abbrev Keeps : Store → Store → Type 0
  Keeps s t =
      (IsKey (λ k. k.id) s.jobs → IsKey (λ k. k.id) t.jobs)
      × ((id : ℕ) (k : Job)
          → find (λ m. m.id == id) s.jobs ≡ some k
          → find (λ m. m.id == id) t.jobs ≡ some k)
      × (oldest is_ready t.jobs ≡ oldest is_ready s.jobs)

  insert-Keeps :
      (s t : Store) (j : Job) (id : ℕ) (o : Option Job)
      → find (λ k. k.id == j.id) s.jobs ≡ none
      → is_ready j.state ≡ false
      → enqueue_row policy digest o j s ≡ ok (id, t)
      → Keeps s t
  unfolding enqueue_row
  insert-Keeps s t j id (some old) new idle h = subst (Keeps s) kept ((λ u. u), (λ i k e. e), refl)
    where
      kept : s ≡ t
      kept = ground arith
  insert-Keeps s t j id none new idle h =
      subst (Keeps s) (ap (λ (r : ℕ × Store). r.1) (ok-injective _ _ h)) (
        IsKey-insert (λ k. k.id) s.jobs j new,
        (λ i k e. find-append_some (λ m. m.id) (λ m. m.id == i) s.jobs (j ∷ []) k e),
        oldest-append is_ready s.jobs j idle,
      )

  submit-Keeps :
      (kind : WorkKind) (consumer payload : ℕ) (attempts elapsed : Option ℕ) (fresh now id : ℕ)
      (s t : Store)
      → find (λ j. j.id == fresh) s.jobs ≡ none
      → enqueue policy digest kind consumer payload attempts elapsed fresh now s ≡ ok (id, t)
      → Keeps s t
  unfolding new_job
  submit-Keeps kind consumer payload attempts elapsed fresh now id s t new h =
      insert-Keeps s t
        (new_job policy digest kind consumer payload (attempts_limit policy digest attempts)
          (elapsed_limit policy digest elapsed) fresh now)
        id _ new refl
        (enqueue-ok policy digest kind consumer payload attempts elapsed fresh now s id t h).2

  Submits-Keeps : (s t : Store) → Submits s t → Keeps s t
  Submits-Keeps s t still = ((λ u. u), (λ i k e. e), refl)
  Submits-Keeps s u (submits {t = t} kind consumer payload attempts elapsed fresh now id r new h) =
      let (keys, rows, first) = Submits-Keeps s t r in
      let (keys', rows', first') =
        submit-Keeps kind consumer payload attempts elapsed fresh now id t u new h in
      ((λ q. keys' (keys q)), (λ i k e. rows' i k (rows i k e)), first' ∙ first)

  -- A consumer that changes the tables by submissions only.
  abbrev pub IsSubmitter : Party → Type 0
  IsSubmitter w = (j : Job) (s : Store) → Submits s (w.consumes j s).1

oldest-found :
    (jobs : List Job) (j : Job)
    → IsKey (λ k. k.id) jobs
    → oldest is_ready jobs ≡ some j
    → (find (λ k. k.id == j.id) jobs ≡ some j) × (is_ready j.state ≡ true)
oldest-found jobs j u h = (
  oldest-lem is_ready (λ k. find (λ m. m.id == k.id) jobs ≡ some k) jobs j
      (All-map _ _ jobs (λ k f e. f) (All-found (λ k. k.id) jobs u)) h,
  oldest-lem is_ready (λ k. is_ready k.state ≡ true) jobs j (All-of _ jobs (λ k e. e)) h,
)

-- The acknowledgement of a job whose result waits.
consumed_lem :
    (id now : ℕ) (t : Store) (j : Job)
    → IsKey (λ k. k.id) t.jobs
    → find (λ k. k.id == id) t.jobs ≡ some j
    → is_ready j.state ≡ true
    → id ≡ j.id
    → (v : Store) × (mark_consumed id now t ≡ ok v)
      × (find (λ k. k.id == id) v.jobs
          ≡ some (record j { state = State.completed; completed_at = some now }))
      × ((i : ℕ) (k : Job)
          → i ≢ id
          → find (λ m. m.id == i) t.jobs ≡ some k
          → find (λ m. m.id == i) v.jobs ≡ some k)
unfolding mark_consumed
consumed_lem id now t j u found ready same =
    let rows : count (in_state id is_ready) t.jobs ≡ (if is_ready j.state then 1 else 0) =
      count-at_key (λ k. k.id) id (λ k. is_ready k.state) t.jobs j u found in
    (
      record t { jobs = update (in_state id is_ready) mark t.jobs },
      rw (rows, ready) refl,
      find-update (λ k. k.id) (in_state id is_ready) mark id t.jobs j (λ k. refl) found
          ∙ ap some written,
      λ i k other e.
          find-update (λ m. m.id) (in_state id is_ready) mark i t.jobs k (λ m. refl) e
          ∙ ap some (left i k other (find_sound (λ m. m.id == i) t.jobs k e)),
    )
  where
    mark : Job → Job
    mark k = record k { state = State.completed; completed_at = some now }

    written : (if in_state id is_ready j then mark j else j) ≡ mark j
    written = ground (arith, ready)

    left :
        (i : ℕ) (k : Job)
        → i ≢ id
        → (k.id == i) ≡ true
        → (if in_state id is_ready k then mark k else k) ≡ k
    left i k other e = elim (Bool-cases (k.id == id)) [
      | inl q ↦ absurd (other (sym (==_sound _ _ e) ∙ ==_sound _ _ q))
      | inr q ↦ rw q refl
    ]

-- Where ids are a key and the consumer changes the tables by submissions only, as others may do
-- meanwhile, a round with a result that waits calls its consumer, for the oldest of them. Where the
-- consumer returns, the job is completed and every other job is as the consumer left it; where it
-- raises, the tables are as it left them and the job is still the oldest result, so the next round
-- offers it again.
pub result_delivered :
    (policy : Policy) (digest : ℕ → ℕ) (seed : ℕ → ℕ → ℕ) (w : Party) (s : Store) (j : Job)
    → IsKey (λ k. k.id) s.jobs
    → Submits policy digest s (w.consumes j s).1
    → oldest is_ready s.jobs ≡ some j
    → ((w.consumes j s).0 ≡ true
        → (v : Store) × (run_once policy seed w s ≡ Ran.worked v)
          × (find (λ k. k.id == j.id) v.jobs
              ≡ some (record j { state = State.completed; completed_at = some w.consumed_at }))
          × ((i : ℕ) (k : Job)
              → i ≢ j.id
              → find (λ m. m.id == i) (w.consumes j s).1.jobs ≡ some k
              → find (λ m. m.id == i) v.jobs ≡ some k))
      × ((w.consumes j s).0 ≡ false
          → (run_once policy seed w s ≡ Ran.raised (w.consumes j s).1)
            × (oldest is_ready (w.consumes j s).1.jobs ≡ some j))
unfolding run_once run_work deliver_result
result_delivered policy digest seed w s j u quiet h =
    let (keys, rows, first) = Submits-Keeps policy digest s (w.consumes j s).1 quiet in
    let (found, ready) = oldest-found s.jobs j u h in
    let (v, marked, done, others) =
      consumed_lem j.id w.consumed_at (w.consumes j s).1 j (keys u) (rows j.id j found) ready
        refl in
    (λ e. (v, rw (h, e, marked) refl, done, others), λ e. (rw (h, e) refl, first ∙ h))

-- Where ids are a key, a result that is the oldest is delivered by `serve` after any number of rounds
-- whose consumers raise, in the first round whose consumer returns, if all these consumers change
-- the tables by submissions only.
pub serve_delivers :
    (policy : Policy) (digest : ℕ → ℕ) (seed : ℕ → ℕ → ℕ) (ws : List Party) (w : Party) (s : Store)
    (j : Job)
    → IsKey (λ k. k.id) s.jobs
    → oldest is_ready s.jobs ≡ some j
    → All (λ v. IsSubmitter policy digest v × ((t : Store) → (v.consumes j t).0 ≡ false)) ws
    → IsSubmitter policy digest w
    → ((t : Store) → (w.consumes j t).0 ≡ true)
    → find (λ k. k.id == j.id) (serve policy seed (ws ++ w ∷ []) s).jobs
      ≡ some (record j { state = State.completed; completed_at = some w.consumed_at })
unfolding serve
serve_delivers policy digest seed [] w s j u h a quiet returns =
    let (v, worked, done, others) =
      (result_delivered policy digest seed w s j u (quiet j s) h).0 (returns s) in
    rw (worked) done
serve_delivers policy digest seed (x ∷ ws) w s j u h a quiet returns =
    let (raised, again) = (result_delivered policy digest seed x s j u (a.0.0 j s) h).1 (a.0.1 s) in
    subst
      (λ (r : Ran).
        find (λ k. k.id == j.id) (serve policy seed (ws ++ w ∷ []) (left_by r)).jobs
        ≡ some (record j { state = State.completed; completed_at = some w.consumed_at }))
      (sym raised)
      (serve_delivers policy digest seed ws w (x.consumes j s).1 j
        ((Submits-Keeps policy digest s (x.consumes j s).1 (a.0.0 j s)).0 u) again a.1 quiet
        returns)
