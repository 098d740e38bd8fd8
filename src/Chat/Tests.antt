-- ===== src/Chat/Tests.antt =====
-- A conversation with a turn, a proposal and a build, and what follows a restart.
use capy_outcome_runtime_pub.Table.{find, select, update, count}
use capy_outcome_runtime_pub.Chat.{
  Attachment, Authority, Actor, Conversation, Role, is_owner, MessageState, Message, TurnStatus,
  Turn, Proposal, ProposalStatus, Build, BuildStatus, BuildOutcome, Store, conversation,
}
use capy_outcome_runtime_pub.Chat.Turns.{
  Ending, new_turn, begin_turn, end_turn, finish_turn, record_result_and_finish_turn,
  record_problem_incident, are_new, recover_interrupted_turns,
}
use capy_outcome_runtime_pub.Chat.Proposals.{
  build_of, hand_over, recover_interrupted_build_proposal_approvals,
}
use capy_outcome_runtime_pub.Chat.Builds.{
  no_candidate, begin_build_retry, free_lease, recover_expired_build_leases, has_done_turn,
  recover_interrupted_build_retries,
}
use capy_outcome_runtime_pub.Chat.Steps.{Reach, Step}
use capy_outcome_runtime_pub.Chat.Kept.{endings_kept, records_kept}
use capy_outcome_runtime_pub.Chat.Recovery.Turns.{
  finish_once, result_ends_turn, turns_recovered, recovery_blocked,
}
use capy_outcome_runtime_pub.Chat.Recovery.Builds.{leases_freed, retries_settled, retry_linked}
use capy_outcome_runtime_pub.Chat.Recovery.Proposals.{approvals_settled}
use capy_outcome_runtime_pub.Chat.Recovery.Opening.{IsSettled, open_store, opened-IsSettled}
use capy_outcome_runtime_pub.Prelude.{
  ℕ, ◌≡◌, refl, Bool, true, false, ◌&&◌, none, some, List, [], ◌∷◌, ◌==◌, ok, err,
}

abbrev owner : Actor
owner = record {
  execution_scope_id = 3;
  principal_id = 4;
  membership_id = 5;
  team_id = 6;
  workspace_kind = 7;
}

abbrev talk_row : Conversation
talk_row = record {
  id = 1;
  scope_id = 3;
  title = none;
  created_at = 90;
  updated_at = 90;
  principal_id = some 4;
  membership_id = some 5;
  team_id = some 6;
  workspace_kind = 7;
}

abbrev message_row : Message
message_row = record {
  id = 10;
  conversation_id = 1;
  role = Role.owner;
  text = 104 ∷ [];
  kind = 0;
  state = MessageState.done_state;
  metadata = 0;
  created_at = 91;
}

abbrev turn_row : Turn
turn_row = record {
  id = 20;
  conversation_id = 1;
  owner_message_id = 10;
  world_digest = 21;
  adapter = 22;
  model = 23;
  status = TurnStatus.working;
  action = none;
  invocation_id = none;
  gap_id = none;
  error_code = none;
  usage = 0;
  created_at = 92;
  completed_at = none;
}

abbrev ending : Ending
ending = record {
  action = none;
  invocation_id = none;
  gap_id = some 30;
  error_code = none;
  usage = 0;
}

abbrev ended_row : Turn
ended_row = record turn_row {
  status = TurnStatus.software_missing;
  gap_id = some 30;
  completed_at = some 93;
}

abbrev proposal_row : Proposal
proposal_row = record {
  id = 40;
  gap_id = 30;
  conversation_id = 1;
  scope_id = 3;
  resources = 0;
  world_digest = 21;
  needed_ability = 31;
  desired_result = 32;
  specification = 33;
  summary = 34;
  proposal_digest = 41;
  status = ProposalStatus.approving;
  blocked_reason = none;
  approved_build_id = none;
  terminal_error = none;
  created_at = 94;
  updated_at = 95;
}

abbrev build_row : Build
build_row = record {
  id = 50;
  gap_id = 30;
  conversation_id = 1;
  scope_id = 3;
  original_owner_message_id = 10;
  original_turn_id = 20;
  contents = 54;
  packet_digest = 51;
  status = BuildStatus.building;
  builder_id = some 52;
  lease_id = some 53;
  lease_expires_at = some 99;
  candidate = no_candidate;
  retry_turn_id = none;
  terminal_error = none;
  created_at = 96;
  updated_at = 97;
}

abbrev published_row : Build
published_row = record build_row {
  status = BuildStatus.published;
  builder_id = none;
  lease_id = none;
  lease_expires_at = none;
}

abbrev outcome_row : BuildOutcome
outcome_row = record {
  build_id = 50;
  conversation_id = 1;
  scope_id = 3;
  classification = 60;
  detail = none;
  provenance = 61;
  created_at = 98;
}

abbrev before : Store
before = record {
  conversations = talk_row ∷ [];
  messages = message_row ∷ [];
  resources = [];
  turns = turn_row ∷ [];
  gaps = [];
  proposals = proposal_row ∷ [];
  builds = build_row ∷ [];
  events = [];
  submissions = [];
  incidents = [];
  outcomes = outcome_row ∷ [];
  publications = [];
  history = [];
}

abbrev ended : Store
ended = record before { turns = ended_row ∷ [] }

finishes : finish_turn 20 TurnStatus.software_missing ending 93 before ≡ ok ended
unfolding finish_turn end_turn count update
finishes = refl

finish_once_example :
    (finish_turn 20 TurnStatus.problem ending 99 ended ≡ err "TURN_STATE_CONFLICT")
    × ((a : Authority) (c : Conversation) (text : List ℕ) (metadata : ℕ) (files : List Attachment)
          (action invocation usage kind fresh : ℕ)
        → conversation a c.id ended ≡ ok c
        → record_result_and_finish_turn a c.id 20 text metadata files action invocation usage kind
            fresh 99 ended
          ≡ err "TURN_STATE_CONFLICT")
finish_once_example =
    finish_once 20 TurnStatus.software_missing TurnStatus.problem ending ending 93 99 before ended
      finishes refl

abbrev retold : Store
retold = record ended { turns = ended_row ∷ record turn_row { id = 21; created_at = 99 } ∷ [] }

begins : begin_turn (Authority.actor owner) 1 10 21 22 23 21 99 ended ≡ ok (21, retold)
unfolding begin_turn conversation new_turn find
begins = refl

Reach-retold : Reach ended retold
Reach-retold =
    Reach.next Reach.here (Step.turn_begun (Authority.actor owner) 1 10 21 22 23 21 99 21 begins)

found_ended : find (λ u. u.id == 20) ended.turns ≡ some ended_row
unfolding find
found_ended = refl

found_outcome : find (λ n. n.build_id == 50) ended.outcomes ≡ some outcome_row
unfolding find
found_outcome = refl

endings_kept_example : find (λ u. u.id == 20) retold.turns ≡ some ended_row
endings_kept_example = (endings_kept ended retold Reach-retold).0 ended_row refl found_ended

records_kept_example : find (λ n. n.build_id == 50) retold.outcomes ≡ some outcome_row
records_kept_example = (records_kept ended retold Reach-retold).4 outcome_row found_outcome

found_turn : find (λ u. u.id == 20) before.turns ≡ some turn_row
unfolding find
found_turn = refl

sees : conversation (Authority.actor owner) 1 before ≡ ok talk_row
unfolding conversation find
sees = refl

no_message : find (λ m. m.id == 11) before.messages ≡ none
unfolding find
no_message = refl

result_ends_turn_example :
    (s' : Store) × (record_result_and_finish_turn
        (Authority.actor owner)
        1
        20
        (104 ∷ [])
        0
        []
        70
        71
        72
        73
        11
        95
        before
      ≡ ok (11, s'))
    × (find (λ u. u.id == 20) s'.turns
        ≡ some (record turn_row {
          status = TurnStatus.done;
          action = some 70;
          invocation_id = some 71;
          error_code = none;
          usage = 72;
          completed_at = some 95;
        }))
    × (find (λ m. m.id == 11) s'.messages
        ≡ some (record {
          id = 11;
          conversation_id = 1;
          role = Role.assistant;
          text = 104 ∷ [];
          kind = 73;
          state = MessageState.done_state;
          metadata = 0;
          created_at = 95;
        }))
result_ends_turn_example =
    (result_ends_turn (Authority.actor owner) talk_row turn_row (104 ∷ []) 0 [] 70 71 72 73 11 95
        before (tt, tt) found_turn no_message sees refl).0
      refl

-- No consumer key is a turn's, and the incident of a turn is its number.
abbrev consumes : ℕ → ℕ → Bool
consumes key turn = false

abbrev incident : Turn → ℕ
incident t = t.id

abbrev message_of : Turn → ℕ
message_of t = 12

abbrev recovered : Store
recovered = record before {
  turns =
      record turn_row {
        status = TurnStatus.problem;
        error_code = some "TURN_INTERRUPTED";
        completed_at = some 100;
      }
      ∷ [];
  incidents =
      record { problem_reference = 20; conversation_id = 1; facts = 20; created_at = 100 } ∷ [];
  messages =
      message_row
      ∷ record {
        id = 12;
        conversation_id = 1;
        role = Role.assistant;
        text = 80 ∷ [];
        kind = 81;
        state = MessageState.problem_state;
        metadata = 0;
        created_at = 100;
      }
      ∷ [];
}

recovers :
    recover_interrupted_turns consumes incident (80 ∷ []) 81 message_of none 100 before
    ≡ ok (1, recovered)
unfolding recover_interrupted_turns find select update
recovers = refl

turns_recovered_example :
    find (λ u. u.id == 20) recovered.turns
    ≡ some (record turn_row {
      status = TurnStatus.problem;
      error_code = some "TURN_INTERRUPTED";
      completed_at = some 100;
    })
turns_recovered_example =
    ((turns_recovered consumes incident (80 ∷ []) 81 message_of none 100 before recovered 1
          recovers).2
        turn_row found_turn).0
      refl

abbrev reported : Store
reported = record before {
  incidents =
      record { problem_reference = 20; conversation_id = 1; facts = 82; created_at = 95 } ∷ [];
}

reports : record_problem_incident 20 1 82 true 95 before ≡ ok reported
unfolding record_problem_incident find
reports = refl

recovery_blocked_example :
    recover_interrupted_turns consumes incident (80 ∷ []) 81 message_of none 100 reported
    ≡ err "IntegrityError"
recovery_blocked_example =
    recovery_blocked consumes incident (80 ∷ []) 81 message_of none 100 20 1 82 true 95 before
      reported turn_row reports found_turn refl

found_build : find (λ c. c.id == 50) before.builds ≡ some build_row
unfolding find
found_build = refl

abbrev freed_row : Build
freed_row = record build_row {
  status = BuildStatus.approved_waiting_for_builder;
  builder_id = none;
  lease_id = none;
  lease_expires_at = none;
  updated_at = 100;
}

leases_freed_example :
    find (λ c. c.id == 50) (recover_expired_build_leases 100 before).1.builds ≡ some freed_row
leases_freed_example = ((leases_freed 100 before).2 build_row found_build).0 refl

abbrev published : Store
published = record ended { builds = published_row ∷ [] }

found_published : find (λ c. c.id == 50) published.builds ≡ some published_row
unfolding find
found_published = refl

sees_published : conversation (Authority.actor owner) 1 published ≡ ok talk_row
unfolding conversation find
sees_published = refl

asked :
    find (λ m. m.id == 10 && m.conversation_id == 1 && is_owner m.role) published.messages
    ≡ some message_row
unfolding find
asked = refl

no_turn : find (λ t. t.id == 24) published.turns ≡ none
unfolding find
no_turn = refl

retry_linked_example :
    (s' : Store) × (begin_build_retry 50 (Authority.actor owner) 1 10 21 22 23 24 25 99 published
      ≡ ok (24, s'))
    × (find (λ d. d.id == 50) s'.builds
        ≡ some (record published_row {
          status = BuildStatus.retrying;
          retry_turn_id = some 24;
          terminal_error = none;
          updated_at = 99;
        }))
    × (find (λ t. t.id == 24) s'.turns
        ≡ some (record {
          id = 24;
          conversation_id = 1;
          owner_message_id = 10;
          world_digest = 21;
          adapter = 22;
          model = 23;
          status = TurnStatus.working;
          action = none;
          invocation_id = none;
          gap_id = none;
          error_code = none;
          usage = 0;
          created_at = 99;
          completed_at = none;
        }))
retry_linked_example =
    (retry_linked published_row (Authority.actor owner) talk_row message_row 21 22 23 24 25 99
        published (tt, tt) found_published no_turn sees_published asked).0
      refl

abbrev retrying_row : Build
retrying_row = record published_row { status = BuildStatus.retrying; retry_turn_id = some 20 }

abbrev retrying_store : Store
retrying_store = record ended { builds = retrying_row ∷ [] }

found_retrying : find (λ c. c.id == 50) retrying_store.builds ≡ some retrying_row
unfolding find
found_retrying = refl

not_done : has_done_turn retrying_store.turns retrying_row ≡ false
unfolding find
not_done = refl

abbrev event_of : Build → ℕ
event_of b = 83

retries_settled_example :
    find (λ c. c.id == 50) (recover_interrupted_build_retries event_of 100 retrying_store).1.builds
    ≡ some (record retrying_row {
      status = BuildStatus.published;
      retry_turn_id = none;
      updated_at = 100;
    })
retries_settled_example =
    ((retries_settled event_of 100 retrying_store).2 retrying_row found_retrying).1 refl not_done

found_proposal : find (λ q. q.id == 40) before.proposals ≡ some proposal_row
unfolding find
found_proposal = refl

found_build_of : build_of before.builds proposal_row ≡ some build_row
unfolding find
found_build_of = refl

approvals_settled_example :
    find (λ q. q.id == 40) (recover_interrupted_build_proposal_approvals 100 before).1.proposals
    ≡ some (record proposal_row {
      status = ProposalStatus.approved;
      approved_build_id = some 50;
      terminal_error = none;
      updated_at = 100;
    })
approvals_settled_example =
    ((approvals_settled 100 before).2 proposal_row found_proposal refl).0 build_row found_build_of

abbrev opened : Store
opened = record recovered {
  builds = freed_row ∷ [];
  proposals =
      record proposal_row {
        status = ProposalStatus.approved;
        approved_build_id = some 50;
        updated_at = 100;
      }
      ∷ [];
}

opens :
    open_store consumes incident (80 ∷ []) 81 message_of event_of false none 100 before ≡ ok opened
unfolding open_store recover_interrupted_turns recover_interrupted_build_retries
    recover_interrupted_build_proposal_approvals recover_expired_build_leases find select update
    count free_lease hand_over
opens = refl

no_incident : are_new consumes incident (80 ∷ []) 81 message_of none before ≡ true
unfolding find select
no_incident = refl

opened-IsSettled_example :
    (s' : Store) × (open_store consumes incident
        (80 ∷ [])
        81
        message_of
        event_of
        false
        none
        100
        before
      ≡ ok s')
    × IsSettled consumes incident (80 ∷ []) 81 message_of none 100 s'
opened-IsSettled_example =
    (opened-IsSettled consumes incident (80 ∷ []) 81 message_of event_of none 100 before).0
      no_incident
