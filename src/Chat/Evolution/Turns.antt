-- ===== src/Chat/Evolution/Turns.antt =====
-- How the operations on conversations, messages, turns and submissions write their tables.
use capy_outcome_runtime_pub.Dispatch
use capy_outcome_runtime_pub.Table.Evolves.{same, added, updated}
use capy_outcome_runtime_pub.Chat.{
  Authority, Actor, Role, MessageState, Attachment, TurnStatus, is_working, Turn, Submission,
  is_claimed, Store, conversation, append_message, create_conversation, adopt_legacy_owner,
  is_known_role, is_known_state, are_distinct,
}
use capy_outcome_runtime_pub.Chat.Turns.{
  Ending, works_as, works_in, claimed_as, begin_turn, end_turn, finish_turn, is_interrupted, is_end,
  are_new, is_owner_message, record_problem_incident, claim_row, claim_message_submission,
  complete_message_submission, record_result_and_finish_turn, recover_interrupted_turns,
}
use capy_outcome_runtime_pub.Table.{find, count}
use capy_outcome_runtime_pub.Chat.Evolution.{Evolution, talk}
use capy_outcome_runtime_pub.Prelude.{
  ℕ, ◌≡◌, refl, Bool, true, false, not, ◌&&◌, ◌==◌, Option, none, some, List, Returns, at_end,
  past_test, past_row, past_value, is_none, leb, length, arith,
}

pub create_conversation-Evolution :
    (a : Authority) (title : Option (List ℕ)) (kind fresh now : ℕ) (s : Store)
    → Returns (λ r. Evolution s r.1) (create_conversation a title kind fresh now s)
unfolding create_conversation
create_conversation-Evolution a title kind fresh now s =
    at_end _ (talk (same _) (same _) (same _) (same _))

pub adopt_legacy_owner-Evolution : (a : Actor) (s : Store) → Evolution s (adopt_legacy_owner a s).1
unfolding adopt_legacy_owner
adopt_legacy_owner-Evolution a s = talk (same _) (same _) (same _) (same _)

pub append_message-Evolution :
    (strip : List ℕ → List ℕ) (a : Authority) (id : ℕ) (role : Role) (text : List ℕ) (kind : ℕ)
    (state : MessageState) (metadata : ℕ) (attachments : List Attachment) (fresh now : ℕ)
    (s : Store)
    → Returns
        (λ r. Evolution s r.1)
        (append_message strip a id role text kind state metadata attachments fresh now s)
unfolding append_message
append_message-Evolution strip a id role text kind state metadata attachments fresh now s =
    past_test (is_known_role role && is_known_state state) "CHAT_MESSAGE_INVALID" _ (λ _.
      past_test (leb (length text) 50000) "CHAT_MESSAGE_INVALID" _ (λ _.
        past_value (conversation a id s) _ (λ c _.
          past_test (are_distinct attachments) "IntegrityError" _
            (λ _. at_end _ (talk (added _ _) (same _) (same _) (same _))))))

pub begin_turn-Evolution :
    (a : Authority) (id message world adapter model fresh now : ℕ) (s : Store)
    → Returns (λ r. Evolution s r.1) (begin_turn a id message world adapter model fresh now s)
unfolding begin_turn
begin_turn-Evolution a id message world adapter model fresh now s =
    past_value (conversation a id s) _ (λ c _.
      past_row (find (is_owner_message message id) s.messages) "TURN_OWNER_MESSAGE_INVALID" _
        (λ m _. at_end _ (talk (same _) (added _ _) (same _) (same _))))

working_spares : (b c : Bool) → (b && c) ≡ true → not c ≡ false
working_spares b c h = ground arith

pub finish_turn-Evolution :
    (id : ℕ) (status : TurnStatus) (e : Ending) (now : ℕ) (s : Store)
    → Returns (Evolution s) (finish_turn id status e now s)
unfolding finish_turn end_turn
finish_turn-Evolution id status e now s = past_test (is_end status) "TURN_STATUS_INVALID" _ (λ _.
    past_test (count (works_as id) s.turns == 1) "TURN_STATE_CONFLICT" _ (λ _. at_end _ (
      talk (same _)
        (updated (works_as id) (end_turn status e now) s.turns
          (λ t. working_spares (t.id == id) (is_working t.status)) (λ t. refl))
        (same _) (same _))))

pub record_problem_incident-Evolution :
    (turn within facts : ℕ) (valid : Bool) (now : ℕ) (s : Store)
    → Returns (Evolution s) (record_problem_incident turn within facts valid now s)
unfolding record_problem_incident
record_problem_incident-Evolution turn within facts valid now s =
    past_test valid "PROBLEM_INCIDENT_INVALID" _ (λ _.
      past_row (find (λ t. t.id == turn && t.conversation_id == within) s.turns)
        "PROBLEM_INCIDENT_INVALID" _
        (λ t _.
          past_test (is_none (find (λ i. i.problem_reference == turn) s.incidents)) "IntegrityError"
            _ (λ _. at_end _ (talk (same _) (same _) (same _) (added _ _)))))

claim_row-Evolution :
    (o : Option Submission) (new : Submission) (s : Store) → Evolution s (claim_row o new s).1
claim_row-Evolution (some m) new s = talk (same _) (same _) (same _) (same _)
claim_row-Evolution none new s = talk (same _) (same _) (added _ _) (same _)

pub claim_message_submission-Evolution :
    (a : Actor) (id submission : ℕ) (hex : Bool) (now : ℕ) (s : Store)
    → Returns (λ r. Evolution s r.1) (claim_message_submission a id submission hex now s)
unfolding claim_message_submission
claim_message_submission-Evolution a id submission hex now s =
    past_test hex "CHAT_SUBMISSION_INVALID" _ (λ _.
      past_value (conversation (Authority.actor a) id s) _
        (λ c _. at_end _ (claim_row-Evolution _ _ s)))

pub complete_message_submission-Evolution :
    (id turn now : ℕ) (s : Store)
    → Returns (Evolution s) (complete_message_submission id turn now s)
unfolding complete_message_submission
complete_message_submission-Evolution id turn now s =
    past_test (count (claimed_as id) s.submissions == 1) "CHAT_SUBMISSION_STATE_CONFLICT" _ (λ _.
      past_test (not (is_none (find (λ t. t.id == turn) s.turns))) "IntegrityError" _ (λ _.
        at_end _ (
          talk (same _) (same _)
            (updated (claimed_as id) _ s.submissions
              (λ m. working_spares (m.submission_id == id) (is_claimed m.status)) (λ m. refl))
            (same _))))

works_in_spares : (a b c : Bool) → (a && (b && c)) ≡ true → not c ≡ false
works_in_spares a b c h = ground arith

pub record_result_and_finish_turn-Evolution :
    (a : Authority) (id turn : ℕ) (text : List ℕ) (metadata : ℕ) (attachments : List Attachment)
    (action invocation usage kind fresh now : ℕ) (s : Store)
    → Returns
        (λ r. Evolution s r.1)
        (record_result_and_finish_turn a id turn text metadata attachments action invocation usage
          kind fresh now s)
unfolding record_result_and_finish_turn
record_result_and_finish_turn-Evolution a id turn text metadata attachments action invocation usage
      kind fresh now s =
    past_value (conversation a id s) _ (λ c _.
      past_test (count (works_in turn id) s.turns == 1) "TURN_STATE_CONFLICT" _ (λ _.
        past_test (are_distinct attachments) "IntegrityError" _ (λ _. at_end _ (
          talk (added _ _)
            (updated (works_in turn id) _ s.turns
              (λ t. works_in_spares (t.id == turn) (t.conversation_id == id) (is_working t.status))
              (λ t. refl))
            (same _) (same _)))))

pub recover_interrupted_turns-Evolution :
    (consumes : ℕ → ℕ → Bool) (incident : Turn → ℕ) (apology : List ℕ) (kind : ℕ) (fresh : Turn → ℕ)
    (jobs : Option (List Dispatch.Types.Job)) (now : ℕ) (s : Store)
    → Returns
        (λ r. Evolution s r.1)
        (recover_interrupted_turns consumes incident apology kind fresh jobs now s)
unfolding recover_interrupted_turns
recover_interrupted_turns-Evolution consumes incident apology kind fresh jobs now s =
    past_test (are_new consumes incident apology kind fresh jobs s) "IntegrityError" _ (λ _.
      at_end _ (
        talk (added _ _)
          (updated (is_interrupted consumes incident apology kind fresh jobs) _ s.turns
            (λ t h. ground arith) (λ t. refl))
          (same _) (added _ _)))
