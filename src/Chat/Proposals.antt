-- ===== src/Chat/Proposals.antt =====
-- Capability gaps and build proposals of src/capy_outcome_runtime/chat.py.
use capy_outcome_runtime_pub.Table.{find, update, count}
use capy_outcome_runtime_pub.Chat.{
  Authority, Gap, Proposal, ProposalStatus, is_approvable, is_approving, Build, Store, scope_of,
  conversation,
}
use capy_outcome_runtime_pub.Prelude.{
  ℕ, ◌+◌, Bool, true, false, not, ◌&&◌, ◌||◌, Option, none, some, String, List, [], ◌∷◌, ◌++◌, ◌==◌,
  if◌then◌else◌, is_none, Result, ok, err, ◌>>=◌, ◌>>◌, guard, require,
}

-- `create_gap`: `g` holds its arguments, its `uuid4` and its time. The foreign keys are the table's.
unfoldable pub create_gap : Gap → Store → Result (ℕ × Store)
create_gap g s = do
  guard (not (is_none (find (λ c. c.id == g.conversation_id) s.conversations))) "IntegrityError"
  guard (not (is_none (find (λ t. t.id == g.turn_id) s.turns))) "IntegrityError"
  ok (g.id, record s { gaps = s.gaps ++ g ∷ [] })

-- `gap`, without the owner's message that its JOIN adds.
unfoldable pub gap : ℕ → ℕ → Store → Result Gap
gap scope_id id s = do
  g ← require (find (λ g. g.id == id) s.gaps) "CAPABILITY_GAP_NOT_IN_SCOPE"
  c ←
      require (find (λ c. c.id == g.conversation_id && c.scope_id == scope_id) s.conversations)
        "CAPABILITY_GAP_NOT_IN_SCOPE"
  t ← require (find (λ t. t.id == g.turn_id) s.turns) "CAPABILITY_GAP_NOT_IN_SCOPE"
  ok g

-- The specification, the summary and the reason of a proposal that is blocked.
pub record Draft : Type 0 where
  pub specification : ℕ
  pub summary : ℕ
  pub blocked_reason : Option ℕ

-- `seal` is the SHA-256 of the canonical JSON of `bound`, which is made of the scope, the gap and
-- the draft.
module _ (seal : ℕ → Gap → Draft → ℕ) where
  unfoldable pub new_proposal : ℕ → Gap → Draft → ℕ → ℕ → Proposal
  new_proposal scope_id g d fresh now = record {
    id = fresh;
    gap_id = g.id;
    conversation_id = g.conversation_id;
    scope_id = scope_id;
    resources = g.resources;
    world_digest = g.world_digest;
    needed_ability = g.needed_ability;
    desired_result = g.desired_result;
    specification = d.specification;
    summary = d.summary;
    proposal_digest = seal scope_id g d;
    status = if is_none d.blocked_reason then ProposalStatus.approvable else ProposalStatus.blocked;
    blocked_reason = d.blocked_reason;
    approved_build_id = none;
    terminal_error = none;
    created_at = now;
    updated_at = now;
  }

  -- `INSERT OR IGNORE INTO build_proposals`: the gap and the digest are unique.
  unfoldable pub insert_proposal : Proposal → List Proposal → List Proposal
  insert_proposal p ps =
      if is_none (find (λ q. q.gap_id == p.gap_id || q.proposal_digest == p.proposal_digest) ps)
      then ps ++ p ∷ []
      else ps

  -- `create_build_proposal`; without a row of the gap Python's `dict(None)` raises.
  unfoldable pub create_build_proposal :
      Authority → ℕ → Draft → ℕ → ℕ → Store → Result (Proposal × Store)
  unfolding gap conversation new_proposal insert_proposal
  create_build_proposal authority gap_id d fresh now s = do
    g ← gap (scope_of authority) gap_id s
    c ← conversation authority g.conversation_id s
    let proposals = insert_proposal (new_proposal (scope_of authority) g d fresh now) s.proposals
    p ← require (find (λ p. p.gap_id == gap_id) proposals) "TypeError"
    guard (p.proposal_digest == seal (scope_of authority) g d) "BUILD_PROPOSAL_CONFLICT"
    ok (p, record s { proposals = proposals })

abbrev pub waits_as : ℕ → Proposal → Bool
waits_as id p = p.id == id && is_approvable p.status

-- The branches of `begin_build_proposal_approval` by the proposal's status.
unfoldable pub approve : ProposalStatus → Proposal → ℕ → Store → Result (Proposal × Store)
approve ProposalStatus.approved p now s = ok (p, s)
approve ProposalStatus.approvable p now s = do
  guard (count (waits_as p.id) s.proposals == 1) "BUILD_PROPOSAL_STATE_CONFLICT"
  let proposals =
      update (waits_as p.id) (λ q. record q { status = ProposalStatus.approving; updated_at = now })
        s.proposals
  q ← require (find (λ q. q.id == p.id) proposals) "TypeError"
  ok (q, record s { proposals = proposals })
approve _ p now s = err "BUILD_PROPOSAL_NOT_APPROVABLE"

-- `begin_build_proposal_approval`
unfoldable pub begin_build_proposal_approval :
    Authority → ℕ → ℕ → ℕ → Store → Result (Proposal × Store)
unfolding approve
begin_build_proposal_approval authority gap_id digest now s = do
  p ←
      require (find (λ p. p.gap_id == gap_id && p.scope_id == scope_of authority) s.proposals)
        "BUILD_PROPOSAL_REQUIRED"
  guard (p.proposal_digest == digest) "BUILD_PROPOSAL_DIGEST_MISMATCH"
  approve p.status p now s

-- `(build_id is None) == (error_code is None)`
abbrev pub is_one_of : Option ℕ → Option String → Bool
is_one_of none none = false
is_one_of (some _) none = true
is_one_of none (some _) = true
is_one_of (some _) (some _) = false

abbrev pub approves_as : ℕ → Proposal → Bool
approves_as id p = p.id == id && is_approving p.status

unfoldable pub decide : Option ℕ → Option String → ℕ → Proposal → Proposal
decide build_id error_code now p = record p {
  status = if is_none build_id then ProposalStatus.proposal_failed else ProposalStatus.approved;
  approved_build_id = build_id;
  terminal_error = error_code;
  updated_at = now;
}

-- `finish_build_proposal_approval`
unfoldable pub finish_build_proposal_approval :
    ℕ → Option ℕ → Option String → ℕ → Store → Result (Proposal × Store)
unfolding decide
finish_build_proposal_approval id build_id error_code now s = do
  guard (is_one_of build_id error_code) "BUILD_PROPOSAL_RESULT_INVALID"
  guard (count (approves_as id) s.proposals == 1) "BUILD_PROPOSAL_STATE_CONFLICT"
  let proposals = update (approves_as id) (decide build_id error_code now) s.proposals
  p ← require (find (λ p. p.id == id) proposals) "TypeError"
  ok (p, record s { proposals = proposals })

-- The build of a proposal's gap.
abbrev pub build_of : List Build → Proposal → Option Build
build_of builds p = find (λ b. b.gap_id == p.gap_id) builds

-- The first UPDATE of `recover_interrupted_build_proposal_approvals`.
abbrev pub is_handed_over : List Build → Proposal → Bool
is_handed_over builds p = is_approving p.status && not (is_none (build_of builds p))

unfoldable pub hand_over : List Build → ℕ → Proposal → Proposal
hand_over builds now p = record p {
  status = ProposalStatus.approved;
  approved_build_id = elim (build_of builds p) [ none ↦ none | some b ↦ some b.id ];
  terminal_error = none;
  updated_at = now;
}

-- Its second UPDATE.
unfoldable pub interrupt_approval : ℕ → Proposal → Proposal
interrupt_approval now p = record p {
  status = ProposalStatus.proposal_failed;
  terminal_error = some "BUILD_APPROVAL_INTERRUPTED";
  updated_at = now;
}

-- `recover_interrupted_build_proposal_approvals`
unfoldable pub recover_interrupted_build_proposal_approvals : ℕ → Store → ℕ × Store
unfolding hand_over interrupt_approval
recover_interrupted_build_proposal_approvals now s =
    let handed = update (is_handed_over s.builds) (hand_over s.builds now) s.proposals in
    (
      count (is_handed_over s.builds) s.proposals + count (λ p. is_approving p.status) handed,
      record s { proposals = update (λ p. is_approving p.status) (interrupt_approval now) handed },
    )
