-- ===== src/GenericBuild/Stages.antt =====
-- What each stage of `run` does to its variables, on every way out.
use capy_outcome_runtime_pub.Prelude.{
  ℕ, suc, ◌+◌, ◌≡◌, ◌≢◌, refl, Bool, true, false, Option, none, some, List, [], ◌∷◌, arith, ◌==◌,
  ==_sound, if◌then◌else◌, Bool-cases, inl, inr,
}
use capy_outcome_runtime_pub.GenericBuild.Ends.{Ends, Ends-bind, Ends-call}
use capy_outcome_runtime_pub.GenericBuild.{
  Answers, Run, Event, Classification, Candidate, Grant, obtain, check_cancelled, start, log,
  build_fault, check_found, keep_grant, keep_found, pass, escape, Fault, Call, returns, raises,
  stop_if,
}

-- How often a trace revokes the grant, asks for the denial of a push, and removes the key.
abbrev pub one_more : Event → ℕ × ℕ × ℕ → ℕ × ℕ × ℕ
one_more Event.revoked c = (suc c.0, c.1, c.2)
one_more Event.confirmed c = (c.0, suc c.1, c.2)
one_more Event.key_removed c = (c.0, c.1, suc c.2)
one_more _ c = c

abbrev pub cleanups : List Event → ℕ × ℕ × ℕ
cleanups [] = (0, 0, 0)
cleanups (e ∷ t) = one_more e (cleanups t)

-- A call that needs the cleanup done.
abbrev pub is_delivery : Event → Bool
is_delivery Event.accepted = true
is_delivery Event.published = true
is_delivery Event.retried = true
is_delivery _ = false

abbrev pub deliveries : List Event → ℕ
deliveries [] = 0
deliveries (e ∷ t) = if is_delivery e then suc (deliveries t) else deliveries t

-- Every delivery of a trace (latest call first) comes after one revocation, one confirmation and one
-- removal of the key.
abbrev pub IsOrdered : List Event → Type 0
IsOrdered [] = Unit
IsOrdered (e ∷ t) = (is_delivery e ≡ true → cleanups t ≡ (1, 1, 1)) × IsOrdered t

-- The variables before any cleanup.
pub record IsFresh (r : Run) : Type 0 where
  pub unattempted : r.cleanup_attempted ≡ false
  pub incomplete : r.cleanup_complete ≡ false
  pub unpublished : r.publication ≡ none
  pub untouched : cleanups r.trace ≡ (0, 0, 0)
  pub undelivered : deliveries r.trace ≡ 0
  pub unfinished : r.classification ≢ Classification.completed

-- After the candidate is collected.
abbrev pub IsObtained : Candidate → Run → Type 0
IsObtained c r =
    IsFresh r
    × (r.candidate ≡ some c)
    × ((g : Grant) × (r.grant ≡ some g) × (c.repository ≡ g.repository))

abbrev HasGrant : Grant → Run → Type 0
HasGrant g r = IsFresh r × (r.grant ≡ some g)

module _ (w : Answers) where
  -- The variables after a check that was not cancelled, or was.
  abbrev pub checked_once : Run → Run
  checked_once r = record (log Event.checked r) { checks = r.checks + 1 }

  pub Ends-check :
      (P N : Run → Type 0) (r : Run)
      → P (checked_once r)
      → N (checked_once r)
      → Ends (λ (_ : Unit {0}) t. P t) N (check_cancelled w r)
  unfolding check_cancelled
  Ends-check P N r p n = told (w.cancelled r.checks)
    where
      told : (c : Call Bool) → Ends (λ (_ : Unit {0}) t. P t) N (stop_if c, checked_once r)
      told (returns true) = n
      told (returns false) = p
      told (raises f) = n

  check_grant :
      (g : Grant) (r : Run)
      → HasGrant g r
      → Ends (λ (_ : Unit {0}) t. HasGrant g t) IsFresh (check_cancelled w r)
  check_grant g r h = Ends-check (HasGrant g) IsFresh r (ground arith) (ground arith)

  start-IsFresh : IsFresh (checked_once start)
  unfolding start
  start-IsFresh = record {
    unattempted = refl;
    incomplete = refl;
    unpublished = refl;
    untouched = refl;
    undelivered = refl;
    unfinished = λ e. cc;
  }

  compare :
      (found : Option Candidate) (g : Grant) (r : Run)
      → HasGrant g r
      → r.candidate ≡ found
      → Ends IsObtained IsFresh (check_found g found r)
  unfolding check_found
  compare none g r h e = ground arith
  compare (some c) g r h e = elim (Bool-cases (c.repository == g.repository)) [
    | inl q ↦ rw q (h.0, e, (g, h.1, ==_sound _ _ q))
    | inr q ↦ rw q (ground arith)
  ]

  build_ended :
      (g : Grant) (f : Fault) (r : Run)
      → HasGrant g r
      → Ends (λ (_ : Unit {0}) t. HasGrant g t) IsFresh (build_fault f r)
  unfolding build_fault
  build_ended g f r h = elim (Bool-cases f.is_timeout) [
    | inl e ↦ rw e (ground arith)
    | inr e ↦ rw e (ground arith)
  ]

  pub obtain_lem : Ends IsObtained IsFresh (obtain w start)
  unfolding obtain
  obtain_lem =
      Ends-bind (λ _. IsFresh) IsObtained IsFresh _ _ start
        (Ends-check IsFresh IsFresh start start-IsFresh start-IsFresh)
        λ _ r1 h1.
          Ends-bind HasGrant IsObtained IsFresh _ _ r1
            (Ends-call HasGrant IsFresh Event.created w.create keep_grant escape r1
              (λ g e. ground arith) (λ f q. ground arith))
            λ g r2 h2.
              Ends-bind (λ _. HasGrant g) IsObtained IsFresh _ _ r2 (check_grant g r2 h2)
                λ _ r3 h3.
                  Ends-bind (λ _. HasGrant g) IsObtained IsFresh _ _ r3
                    (Ends-call (λ _. HasGrant g) IsFresh Event.built w.build pass build_fault r3
                      (λ u e. ground arith)
                      (λ f q. build_ended g f (log Event.built r3) (ground arith)))
                    λ _ r4 h4.
                      Ends-bind (λ _. HasGrant g) IsObtained IsFresh _ _ r4 (check_grant g r4 h4)
                        λ _ r5 h5.
                          Ends-bind (λ c r. HasGrant g r × (r.candidate ≡ c)) IsObtained IsFresh _ _
                            r5
                            (Ends-call (λ c r. HasGrant g r × (r.candidate ≡ c)) IsFresh
                              Event.collected w.collect keep_found escape r5 (λ c e. ground arith)
                              (λ f q. ground arith))
                            λ c r6 h6. compare c g r6 h6.0 h6.1
