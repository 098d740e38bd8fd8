-- ===== src/Chat/Kept.antt =====
-- What the operations of src/capy_outcome_runtime/chat.py never write again, in any order of calls.
use mathlib.Core.Path.{subst}
use capy_outcome_runtime_pub.Table.{find}
use capy_outcome_runtime_pub.Table.Evolves.{Evolves-kept}
use capy_outcome_runtime_pub.Chat.{
  Message, is_working, Turn, Gap, Proposal, is_decided, BuildEvent, Submission, is_claimed,
  Incident, BuildOutcome, Publication, BindingEntry, Store,
}
use capy_outcome_runtime_pub.Chat.Steps.{
  Step, Reach, here, next, conversation_created, owner_adopted, message_appended, turn_begun,
  turn_finished, incident_recorded, submission_claimed, submission_done, result_recorded,
  turns_recovered, gap_created, proposal_created, approval_begun, approval_finished,
  approvals_recovered, build_created, build_moved, retry_begun, leases_recovered, retries_recovered,
  outcome_recorded, publication_recorded, binding_recorded,
}
use capy_outcome_runtime_pub.Chat.Evolution.{Evolution}
use capy_outcome_runtime_pub.Chat.Evolution.Turns.{
  create_conversation-Evolution, adopt_legacy_owner-Evolution, append_message-Evolution,
  begin_turn-Evolution, finish_turn-Evolution, record_problem_incident-Evolution,
  claim_message_submission-Evolution, complete_message_submission-Evolution,
  record_result_and_finish_turn-Evolution, recover_interrupted_turns-Evolution,
}
use capy_outcome_runtime_pub.Chat.Evolution.Proposals.{
  create_gap-Evolution, create_build_proposal-Evolution, begin_build_proposal_approval-Evolution,
  finish_build_proposal_approval-Evolution, recover_interrupted_build_proposal_approvals-Evolution,
}
use capy_outcome_runtime_pub.Chat.Evolution.Builds.{
  create_build_request-Evolution, transition_build-Evolution, begin_build_retry-Evolution,
  recover_expired_build_leases-Evolution, recover_interrupted_build_retries-Evolution,
  record_generic_build_outcome-Evolution, record_publication-Evolution,
  record_binding_history-Evolution,
}
use capy_outcome_runtime_pub.Prelude.{◌≡◌, refl, ap, true, false, not, some, ◌==◌, returned}

Step-Evolution : {s s' : Store} → Step s s' → Evolution s s'
Step-Evolution {s = s} {s' = s'} (conversation_created a title kind fresh now id e) =
    returned (create_conversation-Evolution a title kind fresh now s) (id, s') e
Step-Evolution {s = s} {s' = s'} (owner_adopted a e) =
    subst (Evolution s) e (adopt_legacy_owner-Evolution a s)
Step-Evolution {s = s} {s' = s'}
      (message_appended strip a id role text kind state meta files fresh now m e) =
    returned (append_message-Evolution strip a id role text kind state meta files fresh now s)
      (m, s') e
Step-Evolution {s = s} {s' = s'} (turn_begun a id message world adapter model fresh now t e) =
    returned (begin_turn-Evolution a id message world adapter model fresh now s) (t, s') e
Step-Evolution {s = s} {s' = s'} (turn_finished id status end now e) =
    returned (finish_turn-Evolution id status end now s) s' e
Step-Evolution {s = s} {s' = s'} (incident_recorded turn within facts valid now e) =
    returned (record_problem_incident-Evolution turn within facts valid now s) s' e
Step-Evolution {s = s} {s' = s'} (submission_claimed a id submission hex now mine e) =
    returned (claim_message_submission-Evolution a id submission hex now s) (mine, s') e
Step-Evolution {s = s} {s' = s'} (submission_done id turn now e) =
    returned (complete_message_submission-Evolution id turn now s) s' e
Step-Evolution {s = s} {s' = s'}
      (result_recorded a id turn text meta files action invocation usage kind fresh now m e) =
    returned
      (record_result_and_finish_turn-Evolution a id turn text meta files action invocation usage
        kind fresh now s)
      (m, s') e
Step-Evolution {s = s} {s' = s'}
      (turns_recovered consumes incident apology kind fresh jobs now n e) =
    returned (recover_interrupted_turns-Evolution consumes incident apology kind fresh jobs now s)
      (n, s') e
Step-Evolution {s = s} {s' = s'} (gap_created g id e) =
    returned (create_gap-Evolution g s) (id, s') e
Step-Evolution {s = s} {s' = s'} (proposal_created seal a id d fresh now p e) =
    returned (create_build_proposal-Evolution seal a id d fresh now s) (p, s') e
Step-Evolution {s = s} {s' = s'} (approval_begun a id digest now p e) =
    returned (begin_build_proposal_approval-Evolution a id digest now s) (p, s') e
Step-Evolution {s = s} {s' = s'} (approval_finished id b code now p e) =
    returned (finish_build_proposal_approval-Evolution id b code now s) (p, s') e
Step-Evolution {s = s} {s' = s'} (approvals_recovered now e) =
    subst (Evolution s) e (recover_interrupted_build_proposal_approvals-Evolution now s)
Step-Evolution {s = s} {s' = s'} (build_created b row e) =
    returned (create_build_request-Evolution b s) (row, s') e
Step-Evolution {s = s} {s' = s'} (build_moved id expected status f fresh now b e) =
    returned (transition_build-Evolution id expected status f fresh now s) (b, s') e
Step-Evolution {s = s} {s' = s'}
      (retry_begun id a within message world adapter model fresh event now t e) =
    returned (begin_build_retry-Evolution id a within message world adapter model fresh event now s)
      (t, s') e
Step-Evolution {s = s} {s' = s'} (leases_recovered now e) =
    subst (Evolution s) e (recover_expired_build_leases-Evolution now s)
Step-Evolution {s = s} {s' = s'} (retries_recovered fresh now e) =
    subst (Evolution s) e (recover_interrupted_build_retries-Evolution fresh now s)
Step-Evolution {s = s} {s' = s'} (outcome_recorded id c prov detail now o e) =
    returned (record_generic_build_outcome-Evolution id c prov detail now s) (o, s') e
Step-Evolution {s = s} {s' = s'} (publication_recorded id receipt digest now e) =
    returned (record_publication-Evolution id receipt digest now s) s' e
Step-Evolution {s = s} {s' = s'} (binding_recorded b id e) =
    returned (record_binding_history-Evolution b s) (id, s') e

-- Turns that have ended, decided proposals and completed submissions keep their rows, whatever
-- transactions follow.
pub endings_kept :
    (s s' : Store)
    → Reach s s'
    → ((t : Turn)
        → is_working t.status ≡ false
        → find (λ u. u.id == t.id) s.turns ≡ some t
        → find (λ u. u.id == t.id) s'.turns ≡ some t)
      × ((p : Proposal)
          → is_decided p.status ≡ true
          → find (λ q. q.id == p.id) s.proposals ≡ some p
          → find (λ q. q.id == p.id) s'.proposals ≡ some p)
      × ((m : Submission)
          → is_claimed m.status ≡ false
          → find (λ n. n.submission_id == m.submission_id) s.submissions ≡ some m
          → find (λ n. n.submission_id == m.submission_id) s'.submissions ≡ some m)
endings_kept s s' here = (λ t e h. h, λ p e h. h, λ m e h. h)
endings_kept s s' (next {t = t} r st) =
    let (a, b, c) = endings_kept s t r in
    let ev = Step-Evolution st in
    (
      λ u e h. Evolves-kept _ _ u.id u ev.turns (ap not e) (a u e h),
      λ p e h. Evolves-kept _ _ p.id p ev.proposals e (b p e h),
      λ m e h. Evolves-kept _ _ m.submission_id m ev.submissions (ap not e) (c m e h),
    )

-- A message, a gap, an incident and the records of a build (its events, its outcome, its receipt
-- and the history of its bindings) keep their rows, whatever transactions follow.
pub records_kept :
    (s s' : Store)
    → Reach s s'
    → ((m : Message)
        → find (λ n. n.id == m.id) s.messages ≡ some m
        → find (λ n. n.id == m.id) s'.messages ≡ some m)
      × ((g : Gap)
          → find (λ n. n.id == g.id) s.gaps ≡ some g
          → find (λ n. n.id == g.id) s'.gaps ≡ some g)
      × ((i : Incident)
          → find (λ n. n.problem_reference == i.problem_reference) s.incidents ≡ some i
          → find (λ n. n.problem_reference == i.problem_reference) s'.incidents ≡ some i)
      × ((v : BuildEvent)
          → find (λ n. n.id == v.id) s.events ≡ some v
          → find (λ n. n.id == v.id) s'.events ≡ some v)
      × ((o : BuildOutcome)
          → find (λ n. n.build_id == o.build_id) s.outcomes ≡ some o
          → find (λ n. n.build_id == o.build_id) s'.outcomes ≡ some o)
      × ((p : Publication)
          → find (λ n. n.build_id == p.build_id) s.publications ≡ some p
          → find (λ n. n.build_id == p.build_id) s'.publications ≡ some p)
      × ((b : BindingEntry)
          → find (λ n. n.id == b.id) s.history ≡ some b
          → find (λ n. n.id == b.id) s'.history ≡ some b)
records_kept s s' here = (λ m h. h, λ g h. h, λ i h. h, λ v h. h, λ o h. h, λ p h. h, λ b h. h)
records_kept s s' (next {t = t} r st) =
    let (a, b, c, d, e, f, g) = records_kept s t r in
    let ev = Step-Evolution st in
    (
      λ m h. Evolves-kept _ _ m.id m ev.messages refl (a m h),
      λ x h. Evolves-kept _ _ x.id x ev.gaps refl (b x h),
      λ i h. Evolves-kept _ _ i.problem_reference i ev.incidents refl (c i h),
      λ v h. Evolves-kept _ _ v.id v ev.events refl (d v h),
      λ o h. Evolves-kept _ _ o.build_id o ev.outcomes refl (e o h),
      λ p h. Evolves-kept _ _ p.build_id p ev.publications refl (f p h),
      λ x h. Evolves-kept _ _ x.id x ev.history refl (g x h),
    )
