-- ===== src/Dispatch/Due.antt =====
-- The SELECT of `claim`: it returns a row of the table that is due, and no due row comes before it.
use capy_outcome_runtime_pub.Prelude.{
  ℕ, ◌≡◌, true, false, Option, none, some, List, [], ◌∷◌, arith, ◌==◌, ==_refl, ==_sound,
  Bool-cases, Option-cases, ◌⊎◌, inl, inr, sym,
}
use mathlib.Core.Path.{subst, ap}
use mathlib.Core.Option.{some-injective}
use capy_outcome_runtime_pub.Table.{find, All, IsKey}
use capy_outcome_runtime_pub.Table.Laws.{All-map}
use capy_outcome_runtime_pub.Dispatch.Types.{Job}
use capy_outcome_runtime_pub.Dispatch.Provider.{before, earlier, is_due, next_due}

-- Which of two candidates `earlier` keeps.
earlier-cases :
    (k : Job) (o : Option Job) (j : Job)
    → earlier k o ≡ some j
    → ((k ≡ j) × ((m : Job) → o ≡ some m → before m k ≡ false))
      ⊎ ((o ≡ some j) × (before j k ≡ true))
unfolding earlier
earlier-cases k none j h = inl (ground arith, λ m q. cc)
earlier-cases k (some m) j h = elim (Bool-cases (before m k)) [
  | inl e ↦ let same : m ≡ j = ground arith in inr (ap some same, rw (← same) e)
  | inr e ↦ inl (ground arith, λ n q. rw (← some-injective m n q) e)
]

before_irrefl : (a : Job) → before a a ≡ false
before_irrefl a = ground arith

before_asymm : (a b : Job) → before a b ≡ true → before b a ≡ false
before_asymm a b h = ground arith

before_step : (a b c : Job) → before b a ≡ false → before c b ≡ false → before c a ≡ false
before_step a b c h g = ground arith

module _ (now : ℕ) where
  -- What holds of every row holds of the selected one.
  pub All-next_due :
      (P : Job → Type 0) (jobs : List Job) (j : Job) → All P jobs → next_due now jobs ≡ some j → P j
  unfolding next_due
  All-next_due P [] j a h = cc
  All-next_due P (k ∷ jobs) j a h = elim (Bool-cases (is_due now k)) [
    | inr e ↦ All-next_due P jobs j a.1 (rw e at h)
    | inl e ↦ elim (earlier-cases k (next_due now jobs) j (rw e at h)) [
      | inl q ↦ subst P q.0 a.0
      | inr q ↦ All-next_due P jobs j a.1 q.0
    ]
  ]

  pub next_due-IsDue :
      (jobs : List Job) (j : Job) → next_due now jobs ≡ some j → is_due now j ≡ true
  unfolding next_due
  next_due-IsDue [] j h = cc
  next_due-IsDue (k ∷ jobs) j h = elim (Bool-cases (is_due now k)) [
    | inr e ↦ next_due-IsDue jobs j (rw e at h)
    | inl e ↦ elim (earlier-cases k (next_due now jobs) j (rw e at h)) [
      | inl q ↦ rw (← q.0) e
      | inr q ↦ next_due-IsDue jobs j q.0
    ]
  ]

  -- The selected row is the one that its id finds.
  pub find-next_due :
      (jobs : List Job) (j : Job)
      → IsKey (λ k. k.id) jobs
      → next_due now jobs ≡ some j
      → find (λ k. k.id == j.id) jobs ≡ some j
  unfolding next_due find
  find-next_due [] j u h = cc
  find-next_due (k ∷ jobs) j u h = elim (Bool-cases (is_due now k)) [
    | inr e ↦ skip k jobs j u.0 (rw e at h) (find-next_due jobs j u.1 (rw e at h))
    | inl e ↦ elim (earlier-cases k (next_due now jobs) j (rw e at h)) [
      | inl q ↦ rw (q.0, ==_refl)
      | inr q ↦ skip k jobs j u.0 q.0 (find-next_due jobs j u.1 q.0)
    ]
  ]
    where
      skip :
          (k : Job) (jobs : List Job) (j : Job)
          → All (λ m. m.id ≡ k.id → ⊥) jobs
          → next_due now jobs ≡ some j
          → find (λ m. m.id == j.id) jobs ≡ some j
          → find (λ m. m.id == j.id) (k ∷ jobs) ≡ some j
      skip k jobs j u h f =
          let differs : j.id ≡ k.id → ⊥ = All-next_due (λ m. m.id ≡ k.id → ⊥) jobs j u h in
          elim (Bool-cases (k.id == j.id)) [
            | inl e ↦ absurd (differs (sym (==_sound _ _ e)))
            | inr e ↦ rw e f
          ]

  pub next_due-none :
      (jobs : List Job) → next_due now jobs ≡ none → All (λ k. is_due now k ≡ false) jobs
  unfolding next_due earlier
  next_due-none [] h = tt
  next_due-none (k ∷ jobs) h = elim (Bool-cases (is_due now k)) [
    | inr e ↦ (e, next_due-none jobs (rw e at h))
    | inl e ↦ absurd (kept k (next_due now jobs) (rw e at h))
  ]
    where
      kept : (k : Job) (o : Option Job) → earlier k o ≡ none → ⊥
      kept k none h = cc
      kept k (some m) h = ground arith

  -- No due row comes before the selected one.
  pub next_due-first :
      (jobs : List Job) (j : Job)
      → next_due now jobs ≡ some j
      → All (λ k. is_due now k ≡ true → before k j ≡ false) jobs
  unfolding next_due
  next_due-first [] j h = tt
  next_due-first (k ∷ jobs) j h = elim (Bool-cases (is_due now k)) [
    | inr e ↦ (λ d. cc, next_due-first jobs j (rw e at h))
    | inl e ↦ elim (earlier-cases k (next_due now jobs) j (rw e at h)) [
      | inr q ↦ (λ d. before_asymm j k q.1, next_due-first jobs j q.0)
      | inl q ↦
          subst (λ i. All (λ n. is_due now n ≡ true → before n i ≡ false) (k ∷ jobs)) q.0
            (
              λ d. before_irrefl k,
              elim (Option-cases (next_due now jobs)) [
                | inl stop ↦
                    All-map (λ n. is_due now n ≡ false)
                      (λ n. is_due now n ≡ true → before n k ≡ false) jobs (λ n a b. cc)
                      (next_due-none jobs stop)
                | inr (m, f) ↦
                    All-map (λ n. is_due now n ≡ true → before n m ≡ false)
                      (λ n. is_due now n ≡ true → before n k ≡ false) jobs
                      (λ n a b. before_step k m n (q.1 m f) (a b)) (next_due-first jobs m f)
              ],
            )
    ]
  ]
