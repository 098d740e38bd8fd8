-- ===== src/Chat/Recovery/Proposals.antt =====
-- No approval is left half done by a restart.
use capy_outcome_runtime_pub.Table.{find, update, count, All}
use capy_outcome_runtime_pub.Table.Laws.{All-update_to, All-of}
use capy_outcome_runtime_pub.Table.Keys.{find-update}
use capy_outcome_runtime_pub.Chat.{Proposal, ProposalStatus, is_approving, Build, Store}
use capy_outcome_runtime_pub.Chat.Proposals.{
  build_of, is_handed_over, hand_over, interrupt_approval,
  recover_interrupted_build_proposal_approvals,
}
use capy_outcome_runtime_pub.Prelude.{
  ℕ, ◌+◌, ◌≡◌, refl, ◌∙◌, ap, true, false, ◌==◌, none, some, List, [], ◌∷◌, arith, if◌then◌else◌,
}

-- The rows that the first UPDATE writes and those that the second one does.
counted_once :
    (bs : List Build) (now : ℕ) (ps : List Proposal)
    → count (is_handed_over bs) ps
        + count (λ p. is_approving p.status) (update (is_handed_over bs) (hand_over bs now) ps)
      ≡ count (λ p. is_approving p.status) ps
unfolding count update hand_over
counted_once bs now [] = refl
counted_once bs now (p ∷ ps) = ground (arith, counted_once bs now ps)

module _ (now : ℕ) (s : Store) (p : Proposal) where
  handed_row :
      (b : Build)
      → build_of s.builds p ≡ some b
      → is_approving p.status ≡ true
      → (if is_handed_over s.builds p then hand_over s.builds now p else p) ≡ record p {
        status = ProposalStatus.approved;
        approved_build_id = some b.id;
        terminal_error = none;
        updated_at = now;
      }
  unfolding hand_over
  handed_row b e a = rw (e, a) refl

  left_row :
      build_of s.builds p ≡ none
      → (if is_handed_over s.builds p then hand_over s.builds now p else p) ≡ p
  left_row e = ground (arith, e)

-- After `recover_interrupted_build_proposal_approvals` no proposal is approving; it counts those that
-- were: one whose gap has a build is approved with that build, any other has failed as
-- interrupted.
pub approvals_settled :
    (now : ℕ) (s : Store)
    → let (n, s') = recover_interrupted_build_proposal_approvals now s in
      (n ≡ count (λ p. is_approving p.status) s.proposals)
      × All (λ p. is_approving p.status ≡ false) s'.proposals
      × ((p : Proposal)
          → find (λ q. q.id == p.id) s.proposals ≡ some p
          → is_approving p.status ≡ true
          → ((b : Build)
              → build_of s.builds p ≡ some b
              → find (λ q. q.id == p.id) s'.proposals
                ≡ some (record p {
                  status = ProposalStatus.approved;
                  approved_build_id = some b.id;
                  terminal_error = none;
                  updated_at = now;
                }))
            × (build_of s.builds p ≡ none
                → find (λ q. q.id == p.id) s'.proposals
                  ≡ some (record p {
                    status = ProposalStatus.proposal_failed;
                    terminal_error = some "BUILD_APPROVAL_INTERRUPTED";
                    updated_at = now;
                  })))
unfolding recover_interrupted_build_proposal_approvals hand_over interrupt_approval
approvals_settled now s = (
  counted_once s.builds now s.proposals,
  All-update_to (λ _. Unit {0}) (λ p. is_approving p.status ≡ false) (λ p. is_approving p.status)
      (interrupt_approval now) _ (λ p a u. refl) (λ p a u. a) (All-of (λ _. Unit {0}) _ (λ _. tt)),
  λ p h a.
      let first =
        find-update (λ q. q.id) (is_handed_over s.builds) (hand_over s.builds now) p.id s.proposals
          p (λ q. refl) h in
      (
        λ b e.
            find-update (λ q. q.id) (λ q. is_approving q.status) (interrupt_approval now) p.id _ _
              (λ q. refl) (first ∙ ap some (handed_row now s p b e a)),
        λ e.
            find-update (λ q. q.id) (λ q. is_approving q.status) (interrupt_approval now) p.id _ _
              (λ q. refl) (first ∙ ap some (left_row now s p e))
            ∙ ap some (ended p a),
      ),
)
  where
    ended :
        (p : Proposal)
        → is_approving p.status ≡ true
        → (if is_approving p.status then interrupt_approval now p else p) ≡ record p {
          status = ProposalStatus.proposal_failed;
          terminal_error = some "BUILD_APPROVAL_INTERRUPTED";
          updated_at = now;
        }
    ended p a = rw a refl
