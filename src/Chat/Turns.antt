-- ===== src/Chat/Turns.antt =====
-- Turns, submissions and problem incidents of src/capy_outcome_runtime/chat.py.
use capy_outcome_runtime_pub.Dispatch
use capy_outcome_runtime_pub.Table.{find, select, update, count}
use capy_outcome_runtime_pub.Chat.{
  Authority, Actor, Role, is_owner, MessageState, Message, Attachment, TurnStatus, is_working, Turn,
  Submission, SubmissionStatus, is_claimed, Incident, Store, scope_of, conversation, attach,
  are_distinct,
}
use capy_outcome_runtime_pub.Dispatch.Types.{State}
use capy_outcome_runtime_pub.Prelude.{
  ℕ, Bool, true, false, not, ◌&&◌, Option, none, some, String, List, [], ◌∷◌, ◌++◌, map, ◌==◌,
  is_none, length, Result, ok, ◌>>=◌, ◌>>◌, guard, require,
}

abbrev pub is_owner_message : ℕ → ℕ → Message → Bool
is_owner_message message conversation m =
    m.id == message && m.conversation_id == conversation && is_owner m.role

unfoldable pub new_turn : ℕ → ℕ → ℕ → ℕ → ℕ → ℕ → ℕ → Turn
new_turn conversation message world adapter model fresh now = record {
  id = fresh;
  conversation_id = conversation;
  owner_message_id = message;
  world_digest = world;
  adapter = adapter;
  model = model;
  status = TurnStatus.working;
  action = none;
  invocation_id = none;
  gap_id = none;
  error_code = none;
  usage = 0;
  created_at = now;
  completed_at = none;
}

-- `begin_turn`
unfoldable pub begin_turn : Authority → ℕ → ℕ → ℕ → ℕ → ℕ → ℕ → ℕ → Store → Result (ℕ × Store)
unfolding conversation new_turn
begin_turn authority id message world adapter model fresh now s = do
  c ← conversation authority id s
  m ← require (find (is_owner_message message id) s.messages) "TURN_OWNER_MESSAGE_INVALID"
  ok (fresh, record s { turns = s.turns ++ new_turn id message world adapter model fresh now ∷ [] })

-- `status not in {"done", "needs_you", "software_missing", "problem"}`
abbrev pub is_end : TurnStatus → Bool
is_end TurnStatus.working = false
is_end TurnStatus.other_turn_status = false
is_end _ = true

-- The keyword arguments of `finish_turn`; `usage` is 0 for the empty dictionary.
pub record Ending : Type 0 where
  pub action : Option ℕ
  pub invocation_id : Option ℕ
  pub gap_id : Option ℕ
  pub error_code : Option String
  pub usage : ℕ

abbrev pub works_as : ℕ → Turn → Bool
works_as id t = t.id == id && is_working t.status

unfoldable pub end_turn : TurnStatus → Ending → ℕ → Turn → Turn
end_turn status e now t = record t {
  status = status;
  action = e.action;
  invocation_id = e.invocation_id;
  gap_id = e.gap_id;
  error_code = e.error_code;
  usage = e.usage;
  completed_at = some now;
}

-- `finish_turn`
unfoldable pub finish_turn : ℕ → TurnStatus → Ending → ℕ → Store → Result Store
unfolding end_turn
finish_turn id status e now s = do
  guard (is_end status) "TURN_STATUS_INVALID"
  guard (count (works_as id) s.turns == 1) "TURN_STATE_CONFLICT"
  ok (record s { turns = update (works_as id) (end_turn status e now) s.turns })

-- `turn`
unfoldable pub turn : ℕ → Store → Result Turn
turn id s = require (find (λ t. t.id == id) s.turns) "TURN_UNKNOWN"

-- `record_problem_incident`: `facts_valid` is the test of the facts' keys, schema, reference,
-- frames and size.
unfoldable pub record_problem_incident : ℕ → ℕ → ℕ → Bool → ℕ → Store → Result Store
record_problem_incident turn_id conversation facts facts_valid now s = do
  guard facts_valid "PROBLEM_INCIDENT_INVALID"
  t ←
      require (find (λ t. t.id == turn_id && t.conversation_id == conversation) s.turns)
        "PROBLEM_INCIDENT_INVALID"
  guard (is_none (find (λ i. i.problem_reference == turn_id) s.incidents)) "IntegrityError"
  ok (record s {
    incidents =
        s.incidents
        ++ record {
          problem_reference = turn_id;
          conversation_id = conversation;
          facts = facts;
          created_at = now;
        }
          ∷ [];
  })

-- `problem_incident`
unfoldable pub problem_incident : ℕ → Store → Result Incident
problem_incident reference s =
    require (find (λ i. i.problem_reference == reference) s.incidents) "PROBLEM_REFERENCE_UNKNOWN"

unfoldable pub new_submission : Actor → ℕ → ℕ → ℕ → Submission
new_submission a id submission now = record {
  submission_id = submission;
  conversation_id = id;
  scope_id = a.execution_scope_id;
  principal_id = a.principal_id;
  membership_id = a.membership_id;
  status = SubmissionStatus.claimed;
  turn_id = none;
  created_at = now;
  completed_at = none;
}

abbrev pub claim_row : Option Submission → Submission → Store → Bool × Store
claim_row (some _) new s = (false, s)
claim_row none new s = (true, record s { submissions = s.submissions ++ new ∷ [] })

-- `claim_message_submission`: `is_hex` is the match of the id's pattern.
unfoldable pub claim_message_submission : Actor → ℕ → ℕ → Bool → ℕ → Store → Result (Bool × Store)
unfolding conversation new_submission
claim_message_submission a id submission is_hex now s = do
  guard is_hex "CHAT_SUBMISSION_INVALID"
  c ← conversation (Authority.actor a) id s
  ok (
      claim_row (find (λ m. m.submission_id == submission) s.submissions)
        (new_submission a id submission now) s)

abbrev pub claimed_as : ℕ → Submission → Bool
claimed_as id m = m.submission_id == id && is_claimed m.status

-- `complete_message_submission`
unfoldable pub complete_message_submission : ℕ → ℕ → ℕ → Store → Result Store
complete_message_submission id turn_id now s = do
  guard (count (claimed_as id) s.submissions == 1) "CHAT_SUBMISSION_STATE_CONFLICT"
  guard (not (is_none (find (λ t. t.id == turn_id) s.turns))) "IntegrityError"
  ok (record s {
    submissions =
        update (claimed_as id)
          (λ m. record m {
            status = SubmissionStatus.submission_completed;
            turn_id = some turn_id;
            completed_at = some now;
          })
          s.submissions;
  })

abbrev pub result_message : ℕ → ℕ → List ℕ → ℕ → ℕ → ℕ → Message
result_message fresh id text kind metadata now = record {
  id = fresh;
  conversation_id = id;
  role = Role.assistant;
  text = text;
  kind = kind;
  state = MessageState.done_state;
  metadata = metadata;
  created_at = now;
}

abbrev pub works_in : ℕ → ℕ → Turn → Bool
works_in turn_id id t = t.id == turn_id && (t.conversation_id == id && is_working t.status)

abbrev pub with_result : ℕ → ℕ → ℕ → ℕ → Turn → Turn
with_result action invocation usage now t = record t {
  status = TurnStatus.done;
  action = some action;
  invocation_id = some invocation;
  error_code = none;
  usage = usage;
  completed_at = some now;
}

-- The four statements that write.
abbrev pub store_result :
    Authority → ℕ → ℕ → List ℕ → ℕ → List Attachment → ℕ → ℕ → ℕ → ℕ → ℕ → ℕ → Store → Store
store_result authority id turn_id text metadata attachments action invocation usage kind fresh now
      s =
    record s {
      turns = update (works_in turn_id id) (with_result action invocation usage now) s.turns;
      messages = s.messages ++ result_message fresh id text kind metadata now ∷ [];
      resources = s.resources ++ attach fresh (scope_of authority) attachments;
      conversations = update (λ c. c.id == id) (λ c. record c { updated_at = now }) s.conversations;
    }

-- `record_result_and_finish_turn`: `kind` is the text `result`.
unfoldable pub record_result_and_finish_turn :
    Authority
    → ℕ
    → ℕ
    → List ℕ
    → ℕ
    → List Attachment
    → ℕ
    → ℕ
    → ℕ
    → ℕ
    → ℕ
    → ℕ
    → Store
    → Result (ℕ × Store)
unfolding conversation
record_result_and_finish_turn authority id turn_id text metadata attachments action invocation usage
      kind fresh now s =
    do
      c ← conversation authority id s
      guard (count (works_in turn_id id) s.turns == 1) "TURN_STATE_CONFLICT"
      guard (are_distinct attachments) "IntegrityError"
      ok (
        fresh,
        store_result authority id turn_id text metadata attachments action invocation usage kind
            fresh now s,
      )

-- `state IN ('queued','retry_wait','provider_running','result_ready','failed')`
abbrev pub is_unconsumed : State → Bool
is_unconsumed State.completed = false
is_unconsumed _ = true

-- `recover_interrupted_turns`: `consumes key turn` tells whether a consumer key is `chat:` with the
-- turn's id, alone or before a colon; the jobs are there if the dispatch tables are. `incident` is
-- the JSON of the incident for a turn, `apology` and `kind` the texts of the message, `fresh` the
-- identifiers of the messages.
module _ (consumes : ℕ → ℕ → Bool) (incident : Turn → ℕ) (apology : List ℕ) (kind : ℕ)
    (fresh : Turn → ℕ) where
  abbrev pub has_job : Option (List Dispatch.Types.Job) → Turn → Bool
  has_job none t = false
  has_job (some jobs) t =
      not (is_none (find (λ j. consumes j.consumer_key t.id && is_unconsumed j.state) jobs))

  abbrev pub is_interrupted : Option (List Dispatch.Types.Job) → Turn → Bool
  is_interrupted jobs t = is_working t.status && not (has_job jobs t)

  abbrev pub interruption : ℕ → Turn → Incident
  interruption now t = record {
    problem_reference = t.id;
    conversation_id = t.conversation_id;
    facts = incident t;
    created_at = now;
  }

  abbrev pub apology_message : ℕ → Turn → Message
  apology_message now t = record {
    id = fresh t;
    conversation_id = t.conversation_id;
    role = Role.assistant;
    text = apology;
    kind = kind;
    state = MessageState.problem_state;
    metadata = 0;
    created_at = now;
  }

  abbrev pub interrupt_turn : ℕ → Turn → Turn
  interrupt_turn now t = record t {
    status = TurnStatus.problem;
    error_code = some "TURN_INTERRUPTED";
    completed_at = some now;
  }

  -- An interrupted turn that has an incident already makes the INSERT of another fail.
  abbrev pub are_new : Option (List Dispatch.Types.Job) → Store → Bool
  are_new jobs s = is_none (
      find
        (λ i. not (
          is_none (find (λ t. t.id == i.problem_reference) (select (is_interrupted jobs) s.turns))))
        s.incidents)

  unfoldable pub recover_interrupted_turns :
      Option (List Dispatch.Types.Job) → ℕ → Store → Result (ℕ × Store)
  recover_interrupted_turns jobs now s = do
    let rows = select (is_interrupted jobs) s.turns
    guard (are_new jobs s) "IntegrityError"
    ok (
      length rows,
      record s {
        incidents = s.incidents ++ map (interruption now) rows;
        turns = update (is_interrupted jobs) (interrupt_turn now) s.turns;
        messages = s.messages ++ map (apology_message now) rows;
      },
    )
