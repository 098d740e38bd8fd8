-- ===== src/GenericBuild/Review.antt =====
-- The order of `run`: the builder's authority is gone before the review, and a granted run ends
-- with the cleanup tried.
use capy_outcome_runtime_pub.Prelude.{
  ℕ, ◌≡◌, ◌≢◌, refl, sym, ◌∙◌, ap, Bool, true, false, not, some, List, [], ◌∷◌, ◌++◌, arith, ◌⊎◌,
  inl, inr,
}
use mathlib.Core.Path.{subst}
use capy_outcome_runtime_pub.GenericBuild.Ends.{Ends, Ends-bind, Ends-call}
use capy_outcome_runtime_pub.GenericBuild.Stages.{
  one_more, cleanups, is_delivery, deliveries, IsOrdered, IsObtained,
}
use capy_outcome_runtime_pub.GenericBuild.{
  Answers, Run, Exit, done, terminal, cancelled_exit, cleanup_failure, fault, Fault, Call, returns,
  raises, Failure, revoke_failed, denial_failed, key_failed, denial_unconfirmed, key_present, Event,
  Classification, Candidate, Grant, remove_authority, cleanup, unlink_key, raise_failures, call,
  pass, add, add_if, escape, log,
}

pub IsOrdered-undelivered : (t : List Event) → deliveries t ≡ 0 → IsOrdered t
IsOrdered-undelivered [] h = tt
IsOrdered-undelivered (e ∷ t) h =
    (λ d. absurd (ground arith), IsOrdered-undelivered t (ground arith))

-- What a party answered in the cleanup, and that nothing of it failed.
abbrev pub HasUnlinked : Answers → Type 0
HasUnlinked w = (w.key_left ≡ returns true) × (w.unlink ≡ returns tt)

abbrev pub HasSucceeded : Answers → Type 0
HasSucceeded w =
    (w.revoke ≡ returns tt)
    × (w.denied ≡ returns true)
    × ((w.key_left ≡ returns false) ⊎ HasUnlinked w)
    × (w.key_still_left ≡ returns false)

-- The entries of `failures` are none just if something holds.
abbrev Tells : List Failure → Type 0 → Type 0
Tells fs P = (fs ≡ [] → P) × (P → fs ≡ [])

no_entries : (a b : List Failure) → a ++ b ≡ [] → (a ≡ []) × (b ≡ [])
no_entries [] b h = (refl, h)
no_entries (f ∷ a) b h = cc

returned-raised : {A : Type 0} (c : Call A) (a : A) (f : Fault) → c ≡ returns a → c ≡ raises f → ⊥
returned-raised c a f p q = cc

module _ (w : Answers) where
  -- The cleanup has been tried, once; it is complete just if nothing failed; what was delivered
  -- came after a complete one.
  pub record IsTried (r : Run) : Type 0 where
    pub attempted : r.cleanup_attempted ≡ true
    pub tried : cleanups r.trace ≡ (1, 1, 1)
    pub ordered : IsOrdered r.trace
    pub complete_if : r.cleanup_complete ≡ true → HasSucceeded w
    pub complete_of : HasSucceeded w → r.cleanup_complete ≡ true
    pub delivered : deliveries r.trace ≢ 0 → r.cleanup_complete ≡ true

  -- The same, with the run not completed.
  abbrev pub IsStopped : Run → Type 0
  IsStopped r = IsTried r × (r.classification ≢ Classification.completed)

  abbrev pub IsClean : Candidate → Run → Type 0
  IsClean c r =
      IsStopped r
      × (r.cleanup_complete ≡ true)
      × (r.candidate ≡ some c)
      × ((g : Grant) × (r.grant ≡ some g) × (c.repository ≡ g.repository))

  -- The variables when a cleanup begins.
  pub record IsStarting (r : Run) : Type 0 where
    pub started : r.cleanup_attempted ≡ true
    pub incomplete : r.cleanup_complete ≡ false
    pub untouched : cleanups r.trace ≡ (0, 0, 0)
    pub undelivered : deliveries r.trace ≡ 0

  -- A failed cleanup changes the trace alone.
  abbrev pub SameButTrace : Run → Run → Type 0
  SameButTrace r t =
      (t.grant ≡ r.grant)
      × (t.candidate ≡ r.candidate)
      × (t.classification ≡ r.classification)
      × (t.publication ≡ r.publication)

  -- After the calls of a cleanup that has not failed.
  pub record IsCleared (r : Run) (t : Run) : Type 0 where
    pub nothing_failed : HasSucceeded w
    pub attempted : t.cleanup_attempted ≡ true
    pub calls : cleanups t.trace ≡ (1, 1, 1)
    pub undelivered : deliveries t.trace ≡ 0
    pub same : SameButTrace r t

  -- The variables after some calls of a cleanup: the trace alone has changed.
  record IsCalled (r : Run) (c : ℕ × ℕ × ℕ) (t : Run) : Type 0 where
    calls : cleanups t.trace ≡ c
    undelivered : deliveries t.trace ≡ 0
    kept : t ≡ record r { trace = t.trace }

  log-IsCalled :
      (e : Event) (r : Run) (c : ℕ × ℕ × ℕ) (t : Run)
      → is_delivery e ≡ false
      → IsCalled r c t
      → IsCalled r (one_more e c) (log e t)
  log-IsCalled e r c t d h = record {
    calls = ap (one_more e) h.calls;
    undelivered = rw d h.undelivered;
    kept = ap (λ (x : Run). record x { trace = e ∷ t.trace }) h.kept;
  }

  -- A way out of a cleanup that has not succeeded.
  failed_lem :
      (r t : Run)
      → r.cleanup_attempted ≡ true
      → r.cleanup_complete ≡ false
      → (HasSucceeded w → ⊥)
      → IsCalled r (1, 1, 1) t
      → IsTried t × SameButTrace r t
  failed_lem r t a n f h = (
    record {
      attempted = ap (λ (x : Run). x.cleanup_attempted) h.kept ∙ a;
      tried = h.calls;
      ordered = IsOrdered-undelivered t.trace h.undelivered;
      complete_if = λ q. absurd (clash n (sym (ap (λ (x : Run). x.cleanup_complete) h.kept) ∙ q));
      complete_of = λ q. absurd (f q);
      delivered = λ q. absurd (q h.undelivered);
    },
    same h,
  )
    where
      clash : {b : Bool} → b ≡ false → b ≡ true → ⊥
      clash p q = cc

      same : IsCalled r (1, 1, 1) t → SameButTrace r t
      same h = (
        ap (λ (x : Run). x.grant) h.kept,
        ap (λ (x : Run). x.candidate) h.kept,
        ap (λ (x : Run). x.classification) h.kept,
        ap (λ (x : Run). x.publication) h.kept,
      )

  raised :
      (fs : List Failure) (r t : Run)
      → r.cleanup_attempted ≡ true
      → r.cleanup_complete ≡ false
      → Tells fs (HasSucceeded w)
      → IsCalled r (1, 1, 1) t
      → Ends
          (λ (_ : Unit {0}). IsCleared r)
          (λ t. IsTried t × SameButTrace r t)
          (raise_failures fs t)
  unfolding raise_failures
  raised [] r t a n tells h = record {
    nothing_failed = tells.0 refl;
    attempted = ap (λ (x : Run). x.cleanup_attempted) h.kept ∙ a;
    calls = h.calls;
    undelivered = h.undelivered;
    same = (
      ap (λ (x : Run). x.grant) h.kept,
      ap (λ (x : Run). x.candidate) h.kept,
      ap (λ (x : Run). x.classification) h.kept,
      ap (λ (x : Run). x.publication) h.kept,
    );
  }
  raised (f ∷ fs) r t a n tells h = failed_lem r t a n (λ q. let e = tells.1 q in cc) h

  -- What each call adds to `failures`, and the calls so far.
  abbrev IsAdded : Run → ℕ × ℕ × ℕ → Type 0 → List Failure → Run → Type 0
  IsAdded r c P fs t = Tells fs P × IsCalled r c t

  revoke_lem :
      (r t : Run) (N : Run → Type 0)
      → IsCalled r (0, 0, 0) t
      → Ends
          (IsAdded r (1, 0, 0) (w.revoke ≡ returns tt))
          N
          (call Event.revoked w.revoke (λ _. pass []) (λ f. add (revoke_failed f.name)) t)
  revoke_lem r t N h =
      let g = log-IsCalled Event.revoked r (0, 0, 0) t refl h in
      Ends-call (IsAdded r (1, 0, 0) (w.revoke ≡ returns tt)) N Event.revoked w.revoke
        (λ _. pass []) (λ f. add (revoke_failed f.name)) t (λ u e. (((λ _. e), (λ _. refl)), g))
        (λ f e. (((λ q. cc), (λ q. absurd (returned-raised w.revoke tt f q e))), g))

  confirm_lem :
      (r t : Run) (N : Run → Type 0)
      → IsCalled r (1, 0, 0) t
      → Ends (IsAdded r (1, 1, 0) (w.denied ≡ returns true)) N (
          call Event.confirmed w.denied
            (λ d. add_if (not d) denial_unconfirmed)
            (λ f. add (denial_failed f.name))
            t)
  confirm_lem r t N h =
      let g = log-IsCalled Event.confirmed r (1, 0, 0) t refl h in
      Ends-call (IsAdded r (1, 1, 0) (w.denied ≡ returns true)) N Event.confirmed w.denied
        (λ d. add_if (not d) denial_unconfirmed) (λ f. add (denial_failed f.name)) t (answered g)
        (λ f e. (((λ q. cc), (λ q. absurd (returned-raised w.denied true f q e))), g))
    where
      answered :
          IsCalled r (1, 1, 0) (log Event.confirmed t)
          → (d : Bool) → w.denied ≡ returns d
          → Ends
              (IsAdded r (1, 1, 0) (w.denied ≡ returns true))
              N
              (add_if (not d) denial_unconfirmed (log Event.confirmed t))
      answered g true e = (((λ _. e), (λ _. refl)), g)
      answered g false e = (((λ q. cc), (λ q. cc)), g)

  remove_lem :
      (r t : Run) (N : Run → Type 0)
      → IsCalled r (1, 1, 0) t
      → Ends
          (λ (_ : Unit {0}). IsCalled r (1, 1, 1))
          N
          (call Event.key_removed w.remove_key pass (λ _. pass tt) t)
  remove_lem r t N h =
      let g = log-IsCalled Event.key_removed r (1, 1, 0) t refl h in
      Ends-call (λ (_ : Unit {0}). IsCalled r (1, 1, 1)) N Event.key_removed w.remove_key pass
        (λ _. pass tt) t (λ u e. g) (λ f e. g)

  abbrev IsKeyGone : Type 0
  IsKeyGone = (w.key_left ≡ returns false) ⊎ HasUnlinked w

  unlink_lem :
      (r t : Run) (N : Run → Type 0) (left : Bool)
      → w.key_left ≡ returns left
      → IsCalled r (1, 1, 1) t
      → Ends (IsAdded r (1, 1, 1) IsKeyGone) N (unlink_key w left t)
  unfolding unlink_key
  unlink_lem r t N false e h = (((λ _. inl e), (λ _. refl)), h)
  unlink_lem r t N true e h =
      let g = log-IsCalled Event.unlinked r (1, 1, 1) t refl h in
      Ends-call (IsAdded r (1, 1, 1) IsKeyGone) N Event.unlinked w.unlink (λ _. pass [])
        (λ f. add (key_failed f.name)) t (λ u q. (((λ _. inr (e, q)), (λ _. refl)), g))
        (λ f q. (((λ p. cc), absent f q), g))
    where
      absent : (f : Fault) → w.unlink ≡ raises f → IsKeyGone → key_failed f.name ∷ [] ≡ []
      absent f q (inl p) = cc
      absent f q (inr (_, p)) = absurd (returned-raised w.unlink tt f p q)

  -- `exists` may raise, which leaves the cleanup without success.
  looked_lem :
      (r t : Run)
      → r.cleanup_attempted ≡ true
      → r.cleanup_complete ≡ false
      → IsCalled r (1, 1, 1) t
      → Ends
          (IsAdded r (1, 1, 1) IsKeyGone)
          (λ t. IsTried t × SameButTrace r t)
          (call Event.looked w.key_left (unlink_key w) escape t)
  looked_lem r t a n h =
      let g = log-IsCalled Event.looked r (1, 1, 1) t refl h in
      Ends-call (IsAdded r (1, 1, 1) IsKeyGone) (λ t. IsTried t × SameButTrace r t) Event.looked
        w.key_left (unlink_key w) escape t (λ left e. unlink_lem r (log Event.looked t) _ left e g)
        (λ f e. failed_lem r (log Event.looked t) a n (λ q. no_answer f e q.2) g)
    where
      no_answer : (f : Fault) → w.key_left ≡ raises f → IsKeyGone → ⊥
      no_answer f e (inl p) = returned-raised w.key_left false f p e
      no_answer f e (inr (p, _)) = returned-raised w.key_left true f p e

  looked_again_lem :
      (r t : Run)
      → r.cleanup_attempted ≡ true
      → r.cleanup_complete ≡ false
      → IsCalled r (1, 1, 1) t
      → Ends
          (IsAdded r (1, 1, 1) (w.key_still_left ≡ returns false))
          (λ t. IsTried t × SameButTrace r t)
          (call Event.looked w.key_still_left (λ left. add_if left key_present) escape t)
  looked_again_lem r t a n h =
      let g = log-IsCalled Event.looked r (1, 1, 1) t refl h in
      Ends-call (IsAdded r (1, 1, 1) (w.key_still_left ≡ returns false))
        (λ t. IsTried t × SameButTrace r t) Event.looked w.key_still_left
        (λ left. add_if left key_present) escape t (answered g)
        (λ f e.
          failed_lem r (log Event.looked t) a n
            (λ q. returned-raised w.key_still_left false f q.3 e) g)
    where
      answered :
          IsCalled r (1, 1, 1) (log Event.looked t)
          → (left : Bool) → w.key_still_left ≡ returns left
          → Ends
              (IsAdded r (1, 1, 1) (w.key_still_left ≡ returns false))
              (λ t. IsTried t × SameButTrace r t)
              (add_if left key_present (log Event.looked t))
      answered g false e = (((λ _. e), (λ _. refl)), g)
      answered g true e = (((λ q. cc), (λ q. cc)), g)

  all_told :
      (a b c d : List Failure)
      → Tells a (w.revoke ≡ returns tt)
      → Tells b (w.denied ≡ returns true)
      → Tells c IsKeyGone
      → Tells d (w.key_still_left ≡ returns false)
      → Tells (a ++ b ++ c ++ d) (HasSucceeded w)
  all_told a b c d ta tb tc td = (
    λ h.
        let (h1, ed) = no_entries (a ++ b ++ c) d h in
        let (h2, ec) = no_entries (a ++ b) c h1 in
        let (ea, eb) = no_entries a b h2 in (ta.0 ea, tb.0 eb, tc.0 ec, td.0 ed),
    λ q. rw (ta.1 q.0, tb.1 q.1, tc.1 q.2, td.1 q.3) refl,
  )

  pub cleanup_lem :
      (r : Run)
      → IsStarting r
      → Ends (λ _. IsCleared r) (λ t. IsTried t × SameButTrace r t) (cleanup w r)
  unfolding cleanup
  cleanup_lem r h =
      Ends-bind (IsAdded r (1, 0, 0) (w.revoke ≡ returns tt)) Good Bad _ _ r
        (revoke_lem r r Bad
          (record { calls = h.untouched; undelivered = h.undelivered; kept = refl }))
        λ a r1 h1.
          Ends-bind (IsAdded r (1, 1, 0) (w.denied ≡ returns true)) Good Bad _ _ r1
            (confirm_lem r r1 Bad h1.1)
            λ b r2 h2.
              Ends-bind (λ (_ : Unit {0}). IsCalled r (1, 1, 1)) Good Bad _ _ r2
                (remove_lem r r2 Bad h2.1)
                λ _ r3 h3.
                  Ends-bind (IsAdded r (1, 1, 1) IsKeyGone) Good Bad _ _ r3
                    (looked_lem r r3 h.started h.incomplete h3)
                    λ c r4 h4.
                      Ends-bind (IsAdded r (1, 1, 1) (w.key_still_left ≡ returns false)) Good Bad _
                        _ r4 (looked_again_lem r r4 h.started h.incomplete h4.1)
                        λ d r5 h5.
                          raised (a ++ b ++ c ++ d) r r5 h.started h.incomplete
                            (all_told a b c d h1.0 h2.0 h4.0 h5.0) h5.1
    where
      Good : Unit {0} → Run → Type 0
      Good _ = IsCleared r

      Bad : Run → Type 0
      Bad t = IsTried t × SameButTrace r t

  -- The assignment after a cleanup that has not failed.
  pub completed_cleanup :
      (r t : Run) → IsCleared r t → IsTried (record t { cleanup_complete = true })
  completed_cleanup r t h = record {
    attempted = h.attempted;
    tried = h.calls;
    ordered = IsOrdered-undelivered t.trace h.undelivered;
    complete_if = λ _. h.nothing_failed;
    complete_of = λ _. refl;
    delivered = λ _. refl;
  }

  pub removed :
      (c : Candidate) (r : Run)
      → IsObtained c r
      → Ends (λ _. IsClean c) IsStopped (remove_authority w r)
  unfolding remove_authority
  removed c r h =
      let r1 : Run = record r { cleanup_attempted = true } in
      Ends-bind (λ (_ : Unit {0}) t. t ≡ r1) (λ _. IsClean c) IsStopped _ _ r refl
        λ _ r' e.
          Ends-bind (λ (_ : Unit {0}). IsCleared r1) (λ _. IsClean c) IsStopped _ _ r'
            (subst (λ t. Ends (λ (_ : Unit {0}). IsCleared r1) IsStopped (cleanup w t)) (sym e)
              (weaken (cleanup w r1) (
                cleanup_lem r1 (record {
                  started = refl;
                  incomplete = h.0.incomplete;
                  untouched = h.0.untouched;
                  undelivered = h.0.undelivered;
                }))))
            λ _ t g. (
              (completed_cleanup r1 t g, rw g.same.2 h.0.unfinished),
              refl,
              g.same.1 ∙ h.1,
              (h.2.0, g.same.0 ∙ h.2.1, h.2.2),
            )
    where
      weaken :
          (x : Exit (Unit {0}) × Run)
          → Ends
              (λ (_ : Unit {0}). IsCleared (record r { cleanup_attempted = true }))
              (λ t. IsTried t × SameButTrace (record r { cleanup_attempted = true }) t)
              x
          → Ends (λ (_ : Unit {0}). IsCleared (record r { cleanup_attempted = true })) IsStopped x
      weaken (done _, t) g = g
      weaken (terminal, t) g = (g.0, rw g.1.2 h.0.unfinished)
      weaken (cancelled_exit, t) g = (g.0, rw g.1.2 h.0.unfinished)
      weaken (cleanup_failure _, t) g = (g.0, rw g.1.2 h.0.unfinished)
      weaken (fault _, t) g = (g.0, rw g.1.2 h.0.unfinished)
