-- ===== src/Chat/Evolution/Proposals.antt =====
-- How the operations on gaps and proposals write their tables.
use capy_outcome_runtime_pub.Table.Evolves.{Evolves, same, added, updated, followed}
use capy_outcome_runtime_pub.Table.{find, update, count}
use capy_outcome_runtime_pub.Chat.{
  Authority, Gap, Proposal, ProposalStatus, is_approvable, is_approving, is_decided, Store,
  scope_of, conversation,
}
use capy_outcome_runtime_pub.Chat.Proposals.{
  Draft, gap, is_one_of, waits_as, approves_as, decide, is_handed_over, hand_over,
  interrupt_approval, insert_proposal, new_proposal, create_gap, create_build_proposal, approve,
  begin_build_proposal_approval, finish_build_proposal_approval,
  recover_interrupted_build_proposal_approvals,
}
use capy_outcome_runtime_pub.Chat.Evolution.{Evolution, work}
use capy_outcome_runtime_pub.Prelude.{
  ℕ, ◌≡◌, refl, Bool, true, false, not, ◌&&◌, ◌==◌, Option, String, List, Returns, whenever, at_end,
  past_test, past_row, past_value, arith, if◌then◌else◌, is_none, ◌++◌, [], ◌∷◌, ◌||◌,
}

pub create_gap-Evolution : (g : Gap) (s : Store) → Returns (λ r. Evolution s r.1) (create_gap g s)
unfolding create_gap
create_gap-Evolution g s =
    past_test (not (is_none (find (λ c. c.id == g.conversation_id) s.conversations)))
      "IntegrityError" _
      (λ _.
        past_test (not (is_none (find (λ t. t.id == g.turn_id) s.turns))) "IntegrityError" _
          (λ _. at_end _ (work (added _ _) (same _) (same _) (same _))))

-- A status that waits is no decision.
waits_undecided :
    (b : Bool) (t : ProposalStatus) → (b && is_approvable t) ≡ true → is_decided t ≡ false
waits_undecided b t h = ground arith

approves_undecided :
    (b : Bool) (t : ProposalStatus) → (b && is_approving t) ≡ true → is_decided t ≡ false
approves_undecided b t h = ground arith

hands_undecided :
    (b : Bool) (t : ProposalStatus) → (is_approving t && b) ≡ true → is_decided t ≡ false
hands_undecided b t h = ground arith

insert_proposal-Evolves :
    (seal : ℕ → Gap → Draft → ℕ) (p : Proposal) (ps : List Proposal)
    → Evolves (λ (q : Proposal). q.id) (λ q. is_decided q.status) ps (insert_proposal seal p ps)
unfolding insert_proposal
insert_proposal-Evolves seal p ps =
    by_test
      (is_none (find (λ q. q.gap_id == p.gap_id || q.proposal_digest == p.proposal_digest) ps))
  where
    by_test :
        (t : Bool)
        → Evolves
            (λ (q : Proposal). q.id)
            (λ q. is_decided q.status)
            ps
            (if t then ps ++ p ∷ [] else ps)
    by_test true = added _ _
    by_test false = same _

pub create_build_proposal-Evolution :
    (seal : ℕ → Gap → Draft → ℕ) (a : Authority) (id : ℕ) (d : Draft) (fresh now : ℕ) (s : Store)
    → Returns (λ r. Evolution s r.1) (create_build_proposal seal a id d fresh now s)
unfolding create_build_proposal
create_build_proposal-Evolution seal a id d fresh now s =
    past_value (gap (scope_of a) id s) _ (λ g _.
      past_value (conversation a g.conversation_id s) _ (λ c _.
        past_row
          (find (λ p. p.gap_id == id)
            (insert_proposal seal (new_proposal seal (scope_of a) g d fresh now) s.proposals))
          "TypeError" _
          (λ p _.
            past_test (p.proposal_digest == seal (scope_of a) g d) "BUILD_PROPOSAL_CONFLICT" _ (λ _.
              at_end _ (work (same _) (insert_proposal-Evolves seal _ _) (same _) (same _))))))

approve-Evolution :
    (t : ProposalStatus) (p : Proposal) (now : ℕ) (s : Store)
    → Returns (λ r. Evolution s r.1) (approve t p now s)
unfolding approve
approve-Evolution ProposalStatus.approved p now s =
    at_end _ (work (same _) (same _) (same _) (same _))
approve-Evolution ProposalStatus.approvable p now s =
    past_test (count (waits_as p.id) s.proposals == 1) "BUILD_PROPOSAL_STATE_CONFLICT" _ (λ _.
      past_row
        (find (λ q. q.id == p.id)
          (update (waits_as p.id)
            (λ q. record q { status = ProposalStatus.approving; updated_at = now }) s.proposals))
        "TypeError" _
        (λ q _. at_end _ (
          work (same _)
            (updated (waits_as p.id) _ s.proposals (λ q. waits_undecided (q.id == p.id) q.status)
              (λ q. refl))
            (same _) (same _))))
approve-Evolution ProposalStatus.approving p now s = whenever (λ b h. cc)
approve-Evolution ProposalStatus.blocked p now s = whenever (λ b h. cc)
approve-Evolution ProposalStatus.proposal_failed p now s = whenever (λ b h. cc)

pub begin_build_proposal_approval-Evolution :
    (a : Authority) (gap digest now : ℕ) (s : Store)
    → Returns (λ r. Evolution s r.1) (begin_build_proposal_approval a gap digest now s)
unfolding begin_build_proposal_approval
begin_build_proposal_approval-Evolution a gap digest now s =
    past_row (find (λ p. p.gap_id == gap && p.scope_id == scope_of a) s.proposals)
      "BUILD_PROPOSAL_REQUIRED" _
      (λ p _.
        past_test (p.proposal_digest == digest) "BUILD_PROPOSAL_DIGEST_MISMATCH" _
          (λ _. approve-Evolution p.status p now s))

pub finish_build_proposal_approval-Evolution :
    (id : ℕ) (build : Option ℕ) (code : Option String) (now : ℕ) (s : Store)
    → Returns (λ r. Evolution s r.1) (finish_build_proposal_approval id build code now s)
unfolding finish_build_proposal_approval decide
finish_build_proposal_approval-Evolution id build code now s =
    past_test (is_one_of build code) "BUILD_PROPOSAL_RESULT_INVALID" _ (λ _.
      past_test (count (approves_as id) s.proposals == 1) "BUILD_PROPOSAL_STATE_CONFLICT" _ (λ _.
        past_row
          (find (λ p. p.id == id) (update (approves_as id) (decide build code now) s.proposals))
          "TypeError" _
          (λ p _. at_end _ (
            work (same _)
              (updated (approves_as id) (decide build code now) s.proposals
                (λ q. approves_undecided (q.id == id) q.status) (λ q. refl))
              (same _) (same _)))))

pub recover_interrupted_build_proposal_approvals-Evolution :
    (now : ℕ) (s : Store) → Evolution s (recover_interrupted_build_proposal_approvals now s).1
unfolding recover_interrupted_build_proposal_approvals hand_over interrupt_approval
recover_interrupted_build_proposal_approvals-Evolution now s =
    work (same _)
      (followed
        (updated (is_handed_over s.builds) (hand_over s.builds now) s.proposals
          (λ p h. hands_undecided _ p.status h) (λ p. refl))
        (updated (λ p. is_approving p.status) (interrupt_approval now) _
          (λ p h. approves_undecided true p.status h) (λ p. refl)))
      (same _) (same _)
