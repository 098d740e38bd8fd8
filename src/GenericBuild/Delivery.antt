-- ===== src/GenericBuild/Delivery.antt =====
-- The review, the publication and the retry of `run`, and the whole run.
use capy_outcome_runtime_pub.Prelude.{
  ℕ, ◌≡◌, ◌≢◌, refl, sym, ◌∙◌, true, some, Bool-cases, Option-cases, inl, inr,
}
use capy_outcome_runtime_pub.GenericBuild.Ends.{Ends, Ends-bind, Ends-call}
use capy_outcome_runtime_pub.GenericBuild.Stages.{one_more, cleanups, Ends-check, checked_once}
use capy_outcome_runtime_pub.GenericBuild.Review.{IsTried, IsStopped}
use capy_outcome_runtime_pub.GenericBuild.{
  Answers, Run, Event, Classification, Candidate, Grant, Verdict, decision, foreign, returns,
  deliver, judge, log, check_cancelled, pass, keep_publication, keep_retry, accept_fault,
  publish_fault, retry_fault,
}

-- The review approved: a decision that accepts, with a receipt.
pub IsApproved : Verdict → ℕ → Type 0
IsApproved foreign n = ⊥
IsApproved (decision d) n = (d.accepted ≡ true) × (d.receipt ≡ some n)

module _ (w : Answers) where
  -- A call after the cleanup keeps what the cleanup established.
  log-IsTried :
      (e : Event) (r : Run)
      → ((k : ℕ × ℕ × ℕ) → one_more e k ≡ k)
      → r.cleanup_complete ≡ true
      → IsTried w r
      → IsTried w (log e r)
  log-IsTried e r c k t = record {
    attempted = t.attempted;
    tried = c (cleanups r.trace) ∙ t.tried;
    ordered = (λ _. t.tried, t.ordered);
    complete_if = t.complete_if;
    complete_of = t.complete_of;
    delivered = λ _. k;
  }

  -- The variables between two steps of the delivery.
  pub record IsReviewing (c : Candidate) (r : Run) : Type 0 where
    pub tried : IsTried w r
    pub unfinished : r.classification ≢ Classification.completed
    pub complete : r.cleanup_complete ≡ true
    pub candidate : r.candidate ≡ some c
    pub granted : (g : Grant) × (r.grant ≡ some g) × (c.repository ≡ g.repository)

  log-IsReviewing :
      (e : Event) (c : Candidate) (r : Run)
      → ((k : ℕ × ℕ × ℕ) → one_more e k ≡ k)
      → IsReviewing c r
      → IsReviewing c (log e r)
  log-IsReviewing e c r n h = record {
    tried = log-IsTried e r n h.complete h.tried;
    unfinished = h.unfinished;
    complete = h.complete;
    candidate = h.candidate;
    granted = h.granted;
  }

  -- Other variables than those of the cleanup do not matter to it.
  pub IsTried-same :
      (r t : Run)
      → t.cleanup_attempted ≡ r.cleanup_attempted
      → t.cleanup_complete ≡ r.cleanup_complete
      → t.trace ≡ r.trace
      → IsTried w r
      → IsTried w t
  IsTried-same r t a b e h = record {
    attempted = a ∙ h.attempted;
    tried = rw e h.tried;
    ordered = rw e h.ordered;
    complete_if = λ q. h.complete_if (sym b ∙ q);
    complete_of = λ q. b ∙ h.complete_of q;
    delivered = λ q. b ∙ h.delivered (rw e at q);
  }

  checked_review : (c : Candidate) (r : Run) → IsReviewing c r → IsReviewing c (checked_once w r)
  checked_review c r h =
      let g = log-IsReviewing Event.checked c r (λ k. refl) h in
      record {
        tried = IsTried-same (log Event.checked r) (checked_once w r) refl refl refl g.tried;
        unfinished = h.unfinished;
        complete = h.complete;
        candidate = h.candidate;
        granted = h.granted;
      }

  IsStopped-check : (c : Candidate) (r : Run) → IsReviewing c r → IsStopped w (checked_once w r)
  IsStopped-check c r h = ((checked_review c r h).tried, h.unfinished)

  check_review :
      (c : Candidate) (r : Run)
      → IsReviewing c r
      → Ends (λ (_ : Unit {0}). IsReviewing c) (IsStopped w) (check_cancelled w r)
  check_review c r h =
      Ends-check w (IsReviewing c) (IsStopped w) r (checked_review c r h) (IsStopped-check c r h)

  -- A delivered run.
  pub record IsDelivered (c : Candidate) (r : Run) : Type 0 where
    pub tried : IsTried w r
    pub complete : r.cleanup_complete ≡ true
    pub candidate : r.candidate ≡ some c
    pub granted : (g : Grant) × (r.grant ≡ some g) × (c.repository ≡ g.repository)
    pub approved : (v : Verdict) × (w.accept ≡ returns v) × ((n : ℕ) × IsApproved v n)
    pub published : (p : ℕ) × (w.publish ≡ returns p) × (r.publication ≡ some p)

  -- Ways out that set the classification to another than COMPLETED.
  IsStopped-with :
      (c : Candidate) (r t : Run)
      → t.cleanup_attempted ≡ r.cleanup_attempted
      → t.cleanup_complete ≡ r.cleanup_complete
      → t.trace ≡ r.trace
      → t.classification ≢ Classification.completed
      → IsReviewing c r
      → IsStopped w t
  IsStopped-with c r t a b e n h = (IsTried-same r t a b e h.tried, n)

  judge_lem :
      (c : Candidate) (v : Verdict) (r : Run)
      → IsReviewing c r
      → Ends (λ n t. IsReviewing c t × IsApproved v n) (IsStopped w) (judge v r)
  unfolding judge IsApproved
  judge_lem c foreign r h = IsStopped-with c r _ refl refl refl (λ q. cc) h
  judge_lem c (decision d) r h = elim (Bool-cases d.accepted) [
    | inr e ↦ rw e (IsStopped-with c r _ refl refl refl (λ q. cc) h)
    | inl e ↦ elim (Option-cases d.receipt) [
      | inl q ↦ rw (e, q) (IsStopped-with c r _ refl refl refl (λ t. cc) h)
      | inr (n, q) ↦ rw (e, q) (h, (refl, q))
    ]
  ]

  with_publication :
      (c : Candidate) (p : ℕ) (r : Run)
      → IsReviewing c r
      → IsReviewing c (record r { publication = some p })
  with_publication c p r h = record {
    tried = IsTried-same r _ refl refl refl h.tried;
    unfinished = h.unfinished;
    complete = h.complete;
    candidate = h.candidate;
    granted = h.granted;
  }

  with_retry :
      (c : Candidate) (p : ℕ) (r : Run)
      → IsReviewing c r
      → IsReviewing c (record r { retry_result = some p })
  with_retry c p r h = record {
    tried = IsTried-same r _ refl refl refl h.tried;
    unfinished = h.unfinished;
    complete = h.complete;
    candidate = h.candidate;
    granted = h.granted;
  }

  pub deliver_lem :
      (c : Candidate) (r : Run)
      → IsReviewing c r
      → Ends
          (λ (_ : Unit {0}) t. IsDelivered c t × (t.classification ≡ Classification.completed))
          (IsStopped w)
          (deliver w r)
  unfolding deliver
  deliver_lem c r h =
      Ends-bind (λ (_ : Unit {0}). IsReviewing c) Done (IsStopped w) _ _ r (check_review c r h)
        λ _ r1 h1.
          Ends-bind (λ v t. IsReviewing c t × (w.accept ≡ returns v)) Done (IsStopped w) _ _ r1
            (Ends-call (λ v t. IsReviewing c t × (w.accept ≡ returns v)) (IsStopped w)
              Event.accepted w.accept pass accept_fault r1
              (λ v e. (log-IsReviewing Event.accepted c r1 (λ k. refl) h1, e))
              (λ f q.
                IsStopped-with c (log Event.accepted r1) _ refl refl refl (λ q. cc)
                  (log-IsReviewing Event.accepted c r1 (λ k. refl) h1)))
            λ v r2 h2.
              Ends-bind (λ n t. IsReviewing c t × IsApproved v n) Done (IsStopped w) _ _ r2
                (judge_lem c v r2 h2.0)
                λ n r3 h3.
                  Ends-bind (λ (_ : Unit {0}). IsReviewing c) Done (IsStopped w) _ _ r3
                    (check_review c r3 h3.0)
                    λ _ r4 h4.
                      Ends-bind (λ (_ : Unit {0}) t. IsReviewing c t × IsPublished t) Done
                        (IsStopped w) _ _ r4
                        (Ends-call (λ (_ : Unit {0}) t. IsReviewing c t × IsPublished t)
                          (IsStopped w) Event.published w.publish keep_publication publish_fault r4
                          (λ p e. (
                            with_publication c p _
                                (log-IsReviewing Event.published c r4 (λ k. refl) h4),
                            (p, e, refl),
                          ))
                          (λ f q.
                            IsStopped-with c (log Event.published r4) _ refl refl refl (λ q. cc)
                              (log-IsReviewing Event.published c r4 (λ k. refl) h4)))
                        λ _ r5 h5.
                          Ends-bind (λ (_ : Unit {0}) t. IsReviewing c t × IsPublished t) Done
                            (IsStopped w) _ _ r5
                            (Ends-check w (λ t. IsReviewing c t × IsPublished t) (IsStopped w) r5
                              (checked_review c r5 h5.0, h5.1) (IsStopped-check c r5 h5.0))
                            λ _ r6 h6.
                              Ends-bind (λ (_ : Unit {0}) t. IsReviewing c t × IsPublished t) Done
                                (IsStopped w) _ _ r6
                                (Ends-call (λ (_ : Unit {0}) t. IsReviewing c t × IsPublished t)
                                  (IsStopped w) Event.retried w.retry keep_retry retry_fault r6
                                  (λ p e. (
                                    with_retry c p _
                                        (log-IsReviewing Event.retried c r6 (λ k. refl) h6.0),
                                    h6.1,
                                  ))
                                  (λ f q.
                                    IsStopped-with c (log Event.retried r6) _ refl refl refl
                                      (λ q. cc)
                                      (log-IsReviewing Event.retried c r6 (λ k. refl) h6.0)))
                                λ _ r7 h7. (
                                  record {
                                    tried = IsTried-same r7 _ refl refl refl h7.0.tried;
                                    complete = h7.0.complete;
                                    candidate = h7.0.candidate;
                                    granted = h7.0.granted;
                                    approved = (v, h2.1, (n, h3.1));
                                    published = h7.1;
                                  },
                                  refl,
                                )
    where
      Done : Unit {0} → Run → Type 0
      Done _ t = IsDelivered c t × (t.classification ≡ Classification.completed)

      IsPublished : Run → Type 0
      IsPublished t = (p : ℕ) × (w.publish ≡ returns p) × (t.publication ≡ some p)
