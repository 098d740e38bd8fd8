-- ===== src/Chat/Types.antt =====
-- The tables of `ChatStore` of src/capy_outcome_runtime/chat.py. JSON columns and texts that are only
-- stored and compared are numbers.
use capy_outcome_runtime_pub.Prelude.{ℕ, Bool, true, false, Option, String, List}

pub record Actor : Type 0 where
  pub execution_scope_id : ℕ
  pub principal_id : ℕ
  pub membership_id : ℕ
  pub team_id : ℕ
  pub workspace_kind : ℕ

-- `authority: str | ActorContext`
pub data Authority : Type 0 where
  scope : ℕ → Authority
  actor : Actor → Authority

-- `conversations`, without the status, which is always `active`.
pub record Conversation : Type 0 where
  pub id : ℕ
  pub scope_id : ℕ
  pub title : Option (List ℕ)
  pub created_at : ℕ
  pub updated_at : ℕ
  pub principal_id : Option ℕ
  pub membership_id : Option ℕ
  pub team_id : Option ℕ
  pub workspace_kind : ℕ

pub data Role : Type 0 where
  owner assistant system other_role : Role

abbrev pub is_owner : Role → Bool
is_owner Role.owner = true
is_owner _ = false

pub data MessageState : Type 0 where
  working_state needs_you_state done_state problem_state software_missing_state unsupported_state
        other_state :
      MessageState

pub record Message : Type 0 where
  pub id : ℕ
  pub conversation_id : ℕ
  pub role : Role
  pub text : List ℕ
  pub kind : ℕ
  pub state : MessageState
  pub metadata : ℕ
  pub created_at : ℕ

pub record Attachment : Type 0 where
  pub digest : ℕ
  pub filename : ℕ
  pub media_type : ℕ
  pub size_bytes : ℕ
  pub relation : ℕ

-- `message_resources`
pub record MessageResource : Type 0 where
  pub message_id : ℕ
  pub scope_id : ℕ
  pub attachment : Attachment

pub data TurnStatus : Type 0 where
  working done needs_you software_missing problem other_turn_status : TurnStatus

abbrev pub is_working : TurnStatus → Bool
is_working TurnStatus.working = true
is_working _ = false

abbrev pub is_done : TurnStatus → Bool
is_done TurnStatus.done = true
is_done _ = false

pub record Turn : Type 0 where
  pub id : ℕ
  pub conversation_id : ℕ
  pub owner_message_id : ℕ
  pub world_digest : ℕ
  pub adapter : ℕ
  pub model : ℕ
  pub status : TurnStatus
  pub action : Option ℕ
  pub invocation_id : Option ℕ
  pub gap_id : Option ℕ
  pub error_code : Option String
  pub usage : ℕ
  pub created_at : ℕ
  pub completed_at : Option ℕ

-- `capability_gaps`, without the status, which is always `open`.
pub record Gap : Type 0 where
  pub id : ℕ
  pub conversation_id : ℕ
  pub turn_id : ℕ
  pub original_message : ℕ
  pub resources : ℕ
  pub world_digest : ℕ
  pub needed_ability : ℕ
  pub desired_result : ℕ
  pub missing_information : ℕ
  pub created_at : ℕ

pub data ProposalStatus : Type 0 where
  approvable blocked approving approved proposal_failed : ProposalStatus

abbrev pub is_approvable : ProposalStatus → Bool
is_approvable ProposalStatus.approvable = true
is_approvable _ = false

abbrev pub is_approving : ProposalStatus → Bool
is_approving ProposalStatus.approving = true
is_approving _ = false

-- Neither waiting for the owner nor handed over.
abbrev pub is_decided : ProposalStatus → Bool
is_decided ProposalStatus.approvable = false
is_decided ProposalStatus.approving = false
is_decided _ = true

pub record Proposal : Type 0 where
  pub id : ℕ
  pub gap_id : ℕ
  pub conversation_id : ℕ
  pub scope_id : ℕ
  pub resources : ℕ
  pub world_digest : ℕ
  pub needed_ability : ℕ
  pub desired_result : ℕ
  pub specification : ℕ
  pub summary : ℕ
  pub proposal_digest : ℕ
  pub status : ProposalStatus
  pub blocked_reason : Option ℕ
  pub approved_build_id : Option ℕ
  pub terminal_error : Option String
  pub created_at : ℕ
  pub updated_at : ℕ

pub data BuildStatus : Type 0 where
  approved_waiting_for_builder building candidate_submitted accepting candidate_rejected published
        retrying completed blocked_build cancelled other_build_status :
      BuildStatus

abbrev pub is_building : BuildStatus → Bool
is_building BuildStatus.building = true
is_building _ = false

abbrev pub is_published : BuildStatus → Bool
is_published BuildStatus.published = true
is_published _ = false

abbrev pub is_retrying : BuildStatus → Bool
is_retrying BuildStatus.retrying = true
is_retrying _ = false

-- The columns of `build_requests` that only `transition_build` writes and that the store never reads.
pub record CandidateColumns : Type 0 where
  pub builder_session_id : Option ℕ
  pub candidate_repository : Option ℕ
  pub candidate_commit : Option ℕ
  pub candidate_tree : Option ℕ
  pub candidate_archive_digest : Option ℕ
  pub candidate_capability_id : Option ℕ
  pub candidate_version_digest : Option ℕ
  pub acceptance_digest : Option ℕ
  pub previous_binding : Option ℕ
  pub published_binding : Option ℕ

-- `build_requests`; `contents` stands for the columns of the request itself (its world, resources,
-- ability, result, missing information and ceiling), which are written once.
pub record Build : Type 0 where
  pub id : ℕ
  pub gap_id : ℕ
  pub conversation_id : ℕ
  pub scope_id : ℕ
  pub original_owner_message_id : ℕ
  pub original_turn_id : ℕ
  pub contents : ℕ
  pub packet_digest : ℕ
  pub status : BuildStatus
  pub builder_id : Option ℕ
  pub lease_id : Option ℕ
  pub lease_expires_at : Option ℕ
  pub candidate : CandidateColumns
  pub retry_turn_id : Option ℕ
  pub terminal_error : Option String
  pub created_at : ℕ
  pub updated_at : ℕ

pub record BuildEvent : Type 0 where
  pub id : ℕ
  pub build_id : ℕ
  pub status : BuildStatus
  pub recovered : Bool
  pub created_at : ℕ

pub data SubmissionStatus : Type 0 where
  claimed submission_completed : SubmissionStatus

abbrev pub is_claimed : SubmissionStatus → Bool
is_claimed SubmissionStatus.claimed = true
is_claimed SubmissionStatus.submission_completed = false

pub record Submission : Type 0 where
  pub submission_id : ℕ
  pub conversation_id : ℕ
  pub scope_id : ℕ
  pub principal_id : ℕ
  pub membership_id : ℕ
  pub status : SubmissionStatus
  pub turn_id : Option ℕ
  pub created_at : ℕ
  pub completed_at : Option ℕ

-- `problem_incidents`, keyed by the turn.
pub record Incident : Type 0 where
  pub problem_reference : ℕ
  pub conversation_id : ℕ
  pub facts : ℕ
  pub created_at : ℕ

-- `generic_build_outcomes`
pub record BuildOutcome : Type 0 where
  pub build_id : ℕ
  pub conversation_id : ℕ
  pub scope_id : ℕ
  pub classification : ℕ
  pub detail : Option ℕ
  pub provenance : ℕ
  pub created_at : ℕ

-- `publication_receipts`
pub record Publication : Type 0 where
  pub build_id : ℕ
  pub receipt : ℕ
  pub receipt_digest : ℕ
  pub created_at : ℕ

-- `binding_history`
pub record BindingEntry : Type 0 where
  pub id : ℕ
  pub build_id : ℕ
  pub scope_id : ℕ
  pub capability_id : ℕ
  pub operation : ℕ
  pub previous_binding : Option ℕ
  pub new_binding : Option ℕ
  pub receipt : ℕ
  pub created_at : ℕ

pub record Store : Type 0 where
  pub conversations : List Conversation
  pub messages : List Message
  pub resources : List MessageResource
  pub turns : List Turn
  pub gaps : List Gap
  pub proposals : List Proposal
  pub builds : List Build
  pub events : List BuildEvent
  pub submissions : List Submission
  pub incidents : List Incident
  pub outcomes : List BuildOutcome
  pub publications : List Publication
  pub history : List BindingEntry
