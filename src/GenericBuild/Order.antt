-- ===== src/GenericBuild/Order.antt =====
-- What every run of `GenericBuildOrchestrator` of src/capy_outcome_runtime/generic_build.py does:
-- the builder's authority is gone before the review, and a completed run was approved.
use mathlib.Core.Path.{subst}
use capy_outcome_runtime_pub.Prelude.{
  ℕ, ◌≡◌, ◌≢◌, refl, sym, true, false, not, none, some, arith, is_none, ◌&&◌, Option-cases, ◌⊎◌,
  inl, inr,
}
use capy_outcome_runtime_pub.GenericBuild.Ends.{Ends, Ends-bind}
use capy_outcome_runtime_pub.GenericBuild.Stages.{
  cleanups, deliveries, IsOrdered, IsFresh, IsObtained, obtain_lem,
}
use capy_outcome_runtime_pub.GenericBuild.Review.{
  HasSucceeded, IsTried, IsStopped, IsClean, removed, cleanup_lem, IsCleared, SameButTrace,
  completed_cleanup, IsOrdered-undelivered,
}
use capy_outcome_runtime_pub.GenericBuild.Delivery.{
  IsDelivered, IsApproved, IsTried-same, deliver_lem,
}
use capy_outcome_runtime_pub.GenericBuild.{
  Answers, Run, Exit, done, terminal, cancelled_exit, cleanup_failure, fault, Classification,
  Candidate, Grant, Verdict, returns, obtain, remove_authority, deliver, cleanup, finish,
  finally_clean, handle, run, start, attempt,
}

module _ (w : Answers) where
  -- A run that went through.
  abbrev IsThrough : Run → Type 0
  IsThrough t =
      ((c : Candidate) × IsDelivered w c t) × (t.classification ≡ Classification.completed)

  -- One that raised, before the cleanup or after it.
  abbrev IsRaised : Run → Type 0
  IsRaised t = IsFresh t ⊎ IsStopped w t

  weaken :
      {A : Type 0} (P : A → Run → Type 0) (N M : Run → Type 0) (x : Exit A × Run)
      → ((t : Run) → N t → M t)
      → Ends P N x
      → Ends P M x
  weaken P N M (done a, t) f h = h
  weaken P N M (terminal, t) f h = f t h
  weaken P N M (cancelled_exit, t) f h = f t h
  weaken P N M (cleanup_failure fs, t) f h = f t h
  weaken P N M (fault n, t) f h = f t h

  attempt_lem : Ends (λ (_ : Unit {0}). IsThrough) IsRaised (attempt w start)
  unfolding attempt
  attempt_lem =
      Ends-bind IsObtained (λ (_ : Unit {0}). IsThrough) IsRaised _ _ start
        (weaken IsObtained IsFresh IsRaised (obtain w start) (λ t. inl) (obtain_lem w))
        λ c r1 h1.
          Ends-bind (λ (_ : Unit {0}). IsClean w c) (λ (_ : Unit {0}). IsThrough) IsRaised _ _ r1
            (weaken (λ (_ : Unit {0}). IsClean w c) (IsStopped w) IsRaised (remove_authority w r1)
              (λ t. inr) (removed w c r1 h1))
            λ _ r2 h2. through c (deliver w r2) (
              deliver_lem w c r2 (record {
                tried = h2.0.0;
                unfinished = h2.0.1;
                complete = h2.1;
                candidate = h2.2;
                granted = h2.3;
              }))
    where
      through :
          (c : Candidate) (x : Exit (Unit {0}) × Run)
          → Ends
              (λ (_ : Unit {0}) t.
                IsDelivered w c t × (t.classification ≡ Classification.completed))
              (IsStopped w)
              x
          → Ends (λ (_ : Unit {0}). IsThrough) IsRaised x
      through c (done a, t) h = ((c, h.0), h.1)
      through c (terminal, t) h = inr h
      through c (cancelled_exit, t) h = inr h
      through c (cleanup_failure fs, t) h = inr h
      through c (fault n, t) h = inr h

  -- An `except` clause sets the classification and the detail alone.
  excepted :
      (r t : Run)
      → t ≡ record r { classification = t.classification; detail = t.detail }
      → t.classification ≢ Classification.completed
      → IsRaised r
      → IsRaised t
  excepted r t e n (inl h) = inl (
      subst IsFresh (sym e) (record {
        unattempted = h.unattempted;
        incomplete = h.incomplete;
        unpublished = h.unpublished;
        untouched = h.untouched;
        undelivered = h.undelivered;
        unfinished = n;
      }))
  excepted r t e n (inr h) = inr (
    subst (IsTried w) (sym e) (
        IsTried-same w r (record r { classification = t.classification; detail = t.detail }) refl
          refl refl h.0),
    n,
  )

  handled :
      (x : Exit (Unit {0}) × Run)
      → Ends (λ (_ : Unit {0}). IsThrough) IsRaised x
      → IsThrough (handle x) ⊎ IsRaised (handle x)
  unfolding handle
  handled (done a, t) h = inl h
  handled (terminal, t) h = inr h
  handled (cancelled_exit, t) h = inr (excepted t _ refl (λ q. cc) h)
  handled (cleanup_failure fs, t) h = inr (excepted t _ refl (λ q. cc) h)
  handled (fault n, t) h = inr (excepted t _ refl (λ q. cc) h)

  -- How a run ends: without a grant, stopped after the cleanup was tried, or delivered.
  abbrev IsEnded : Run → Type 0
  IsEnded t = IsThrough t ⊎ IsStopped w t ⊎ (IsFresh t × (t.grant ≡ none))

  finished :
      (r : Run) (x : Exit (Unit {0}) × Run)
      → r.classification ≢ Classification.completed
      → Ends (λ (_ : Unit {0}). IsCleared w r) (λ t. IsTried w t × SameButTrace w r t) x
      → IsStopped w (finish x)
  unfolding finish
  finished r (done a, t) n h = (completed_cleanup w r t h, rw h.same.2 n)
  finished r (terminal, t) n h = (h.0, rw h.1.2 n)
  finished r (cancelled_exit, t) n h = (h.0, rw h.1.2 n)
  finished r (cleanup_failure fs, t) n h = (IsTried-same w t _ refl refl refl h.0, λ q. cc)
  finished r (fault k, t) n h = (IsTried-same w t _ refl refl refl h.0, rw h.1.2 n)

  kept :
      (r : Run) → (not (is_none r.grant) && not r.cleanup_attempted) ≡ false → finally_clean w r ≡ r
  unfolding finally_clean
  kept r e = rw e refl

  late :
      (r : Run)
      → (not (is_none r.grant) && not r.cleanup_attempted) ≡ true
      → finally_clean w r ≡ finish (cleanup w (record r { cleanup_attempted = true }))
  unfolding finally_clean
  late r e = rw e refl

  cleaned : (r : Run) → IsThrough r ⊎ IsRaised r → IsEnded (finally_clean w r)
  cleaned r (inl h) =
      let done : r.cleanup_attempted ≡ true = h.0.1.tried.attempted in
      subst IsEnded (sym (kept r (ground arith))) (inl h)
  cleaned r (inr (inr h)) =
      let done : r.cleanup_attempted ≡ true = h.0.attempted in
      subst IsEnded (sym (kept r (ground arith))) (inr (inl h))
  cleaned r (inr (inl h)) = elim (Option-cases r.grant) [
    | inl e ↦ subst IsEnded (sym (kept r (rw e refl))) (inr (inr (h, e)))
    | inr (g, e) ↦
        let r1 : Run = record r { cleanup_attempted = true } in
        subst IsEnded (sym (late r (rw (e, h.unattempted) refl))) (
          inr (
            inl (
              finished r1 (cleanup w r1) h.unfinished (
                cleanup_lem w r1 (record {
                  started = refl;
                  incomplete = h.incomplete;
                  untouched = h.untouched;
                  undelivered = h.undelivered;
                })))))
  ]

  run-IsEnded : IsEnded (run w)
  unfolding run
  run-IsEnded = cleaned (handle (attempt w start)) (handled (attempt w start) attempt_lem)

  -- In every run, whatever the parties answer or raise: before each call of the review, the publication
  -- or the retry the grant was revoked once, the denial of a push was asked for once and the key's
  -- removal was asked for once, and the cleanup is complete.
  pub authority_removed_first :
      IsOrdered (run w).trace × (deliveries (run w).trace ≢ 0 → (run w).cleanup_complete ≡ true)
  authority_removed_first = ordered (run w) run-IsEnded
    where
      ordered :
          (t : Run)
          → IsEnded t
          → IsOrdered t.trace × (deliveries t.trace ≢ 0 → t.cleanup_complete ≡ true)
      ordered t (inl h) = (h.0.1.tried.ordered, h.0.1.tried.delivered)
      ordered t (inr (inl h)) = (h.0.ordered, h.0.delivered)
      ordered t (inr (inr h)) =
          (IsOrdered-undelivered t.trace h.0.undelivered, λ d. absurd (d h.0.undelivered))

  -- A run that obtained a grant revokes it once, asks once for the denial of a push and once for the
  -- removal of the key, and reports the cleanup complete if and only if the revocation returned, the
  -- denial was confirmed, the key file was gone or was unlinked, and it was gone at the end; an
  -- exception of the removal itself does not count.
  pub granted_cleaned :
      (g : Grant)
      → (run w).grant ≡ some g
      → (cleanups (run w).trace ≡ (1, 1, 1))
        × ((run w).cleanup_complete ≡ true
            → (w.revoke ≡ returns tt)
              × (w.denied ≡ returns true)
              × ((w.key_left ≡ returns false)
                  ⊎ ((w.key_left ≡ returns true) × (w.unlink ≡ returns tt)))
              × (w.key_still_left ≡ returns false))
        × ((w.revoke ≡ returns tt)
              × (w.denied ≡ returns true)
              × ((w.key_left ≡ returns false)
                  ⊎ ((w.key_left ≡ returns true) × (w.unlink ≡ returns tt)))
              × (w.key_still_left ≡ returns false)
            → (run w).cleanup_complete ≡ true)
  granted_cleaned g e = tried (run w) run-IsEnded e
    where
      tried :
          (t : Run)
          → IsEnded t
          → t.grant ≡ some g
          → (cleanups t.trace ≡ (1, 1, 1))
            × (t.cleanup_complete ≡ true → HasSucceeded w)
            × (HasSucceeded w → t.cleanup_complete ≡ true)
      tried t (inl h) e = (h.0.1.tried.tried, h.0.1.tried.complete_if, h.0.1.tried.complete_of)
      tried t (inr (inl h)) e = (h.0.tried, h.0.complete_if, h.0.complete_of)
      tried t (inr (inr h)) e = absurd (cc)

  -- A run is classified completed only if the revocation returned, the denial was confirmed, the key
  -- file was gone or was unlinked and was gone at the end, the candidate's repository is the granted
  -- one, the acceptor's decision accepts it with a receipt, and it was published.
  pub completed_earned :
      (run w).classification ≡ Classification.completed
      → HasSucceeded w
        × ((c : Candidate) × (g : Grant) × ((run w).candidate ≡ some c)
            × ((run w).grant ≡ some g)
            × (c.repository ≡ g.repository))
        × ((v : Verdict) × (n : ℕ) × (w.accept ≡ returns v) × IsApproved v n)
        × ((p : ℕ) × (w.publish ≡ returns p) × ((run w).publication ≡ some p))
  completed_earned e = approved (run w) run-IsEnded e
    where
      approved :
          (t : Run)
          → IsEnded t
          → t.classification ≡ Classification.completed
          → HasSucceeded w
            × ((c : Candidate) × (g : Grant) × (t.candidate ≡ some c)
                × (t.grant ≡ some g)
                × (c.repository ≡ g.repository))
            × ((v : Verdict) × (n : ℕ) × (w.accept ≡ returns v) × IsApproved v n)
            × ((p : ℕ) × (w.publish ≡ returns p) × (t.publication ≡ some p))
      approved t (inr (inl h)) e = absurd (h.1 e)
      approved t (inr (inr h)) e = absurd (h.0.unfinished e)
      approved t (inl ((c, h), _)) e =
          let (g, granted, same) = h.granted in
          let (v, accept, (n, ok)) = h.approved in
          (
            h.tried.complete_if h.complete,
            (c, g, h.candidate, granted, same),
            (v, n, accept, ok),
            h.published,
          )
