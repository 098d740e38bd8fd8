-- ===== src/Chat/Steps.antt =====
-- The operations of src/capy_outcome_runtime/chat.py that write, as one step relation.
use capy_outcome_runtime_pub.Dispatch
use capy_outcome_runtime_pub.Chat.{
  Authority, Actor, Role, MessageState, Attachment, TurnStatus, Turn, Gap, Proposal, Build,
  BuildStatus, BuildOutcome, BindingEntry, Store, create_conversation, adopt_legacy_owner,
  append_message,
}
use capy_outcome_runtime_pub.Chat.Turns.{
  Ending, begin_turn, finish_turn, record_problem_incident, claim_message_submission,
  complete_message_submission, record_result_and_finish_turn, recover_interrupted_turns,
}
use capy_outcome_runtime_pub.Chat.Proposals.{
  Draft, create_gap, create_build_proposal, begin_build_proposal_approval,
  finish_build_proposal_approval, recover_interrupted_build_proposal_approvals,
}
use capy_outcome_runtime_pub.Chat.Builds.{
  Fields, create_build_request, transition_build, begin_build_retry, recover_expired_build_leases,
  recover_interrupted_build_retries,
}
use capy_outcome_runtime_pub.Chat.Records.{
  record_generic_build_outcome, record_publication, record_binding_history,
}
use capy_outcome_runtime_pub.Prelude.{ℕ, Bool, ◌≡◌, Option, String, List, ok}

-- One transaction, with whatever identifiers and times it draws.
pub data Step (s s' : Store) : Type 0 where
  conversation_created :
      (a : Authority) (title : Option (List ℕ)) (kind fresh now id : ℕ)
      → create_conversation a title kind fresh now s ≡ ok (id, s')
      → Step s s'
  owner_adopted : (a : Actor) → (adopt_legacy_owner a s).1 ≡ s' → Step s s'
  message_appended :
      (strip : List ℕ → List ℕ) (a : Authority) (id : ℕ) (role : Role) (text : List ℕ) (kind : ℕ)
      (state : MessageState) (metadata : ℕ) (attachments : List Attachment) (fresh now message : ℕ)
      → append_message strip a id role text kind state metadata attachments fresh now s
        ≡ ok (message, s')
      → Step s s'
  turn_begun :
      (a : Authority) (id message world adapter model fresh now turn : ℕ)
      → begin_turn a id message world adapter model fresh now s ≡ ok (turn, s')
      → Step s s'
  turn_finished :
      (id : ℕ) (status : TurnStatus) (e : Ending) (now : ℕ)
      → finish_turn id status e now s ≡ ok s'
      → Step s s'
  incident_recorded :
      (turn conversation facts : ℕ) (valid : Bool) (now : ℕ)
      → record_problem_incident turn conversation facts valid now s ≡ ok s'
      → Step s s'
  submission_claimed :
      (a : Actor) (id submission : ℕ) (hex : Bool) (now : ℕ) (mine : Bool)
      → claim_message_submission a id submission hex now s ≡ ok (mine, s')
      → Step s s'
  submission_done :
      (id turn now : ℕ) → complete_message_submission id turn now s ≡ ok s' → Step s s'
  result_recorded :
      (a : Authority) (id turn : ℕ) (text : List ℕ) (metadata : ℕ) (attachments : List Attachment)
      (action invocation usage kind fresh now message : ℕ)
      → record_result_and_finish_turn a id turn text metadata attachments action invocation usage
          kind fresh now s
        ≡ ok (message, s')
      → Step s s'
  turns_recovered :
      (consumes : ℕ → ℕ → Bool) (incident : Turn → ℕ) (apology : List ℕ) (kind : ℕ)
      (fresh : Turn → ℕ) (jobs : Option (List Dispatch.Types.Job)) (now n : ℕ)
      → recover_interrupted_turns consumes incident apology kind fresh jobs now s ≡ ok (n, s')
      → Step s s'
  gap_created : (g : Gap) (id : ℕ) → create_gap g s ≡ ok (id, s') → Step s s'
  proposal_created :
      (seal : ℕ → Gap → Draft → ℕ) (a : Authority) (gap : ℕ) (d : Draft) (fresh now : ℕ)
      (p : Proposal)
      → create_build_proposal seal a gap d fresh now s ≡ ok (p, s')
      → Step s s'
  approval_begun :
      (a : Authority) (gap digest now : ℕ) (p : Proposal)
      → begin_build_proposal_approval a gap digest now s ≡ ok (p, s')
      → Step s s'
  approval_finished :
      (id : ℕ) (build : Option ℕ) (code : Option String) (now : ℕ) (p : Proposal)
      → finish_build_proposal_approval id build code now s ≡ ok (p, s')
      → Step s s'
  approvals_recovered :
      (now : ℕ) → (recover_interrupted_build_proposal_approvals now s).1 ≡ s' → Step s s'
  build_created : (b row : Build) → create_build_request b s ≡ ok (row, s') → Step s s'
  build_moved :
      (id : ℕ) (expected : List BuildStatus) (status : BuildStatus) (f : Fields) (fresh now : ℕ)
      (b : Build)
      → transition_build id expected status f fresh now s ≡ ok (b, s')
      → Step s s'
  retry_begun :
      (id : ℕ) (a : Authority) (conversation message world adapter model fresh event now turn : ℕ)
      → begin_build_retry id a conversation message world adapter model fresh event now s
        ≡ ok (turn, s')
      → Step s s'
  leases_recovered : (now : ℕ) → (recover_expired_build_leases now s).1 ≡ s' → Step s s'
  retries_recovered :
      (fresh : Build → ℕ) (now : ℕ)
      → (recover_interrupted_build_retries fresh now s).1 ≡ s'
      → Step s s'
  outcome_recorded :
      (id classification provenance : ℕ) (detail : Option ℕ) (now : ℕ) (o : BuildOutcome)
      → record_generic_build_outcome id classification provenance detail now s ≡ ok (o, s')
      → Step s s'
  publication_recorded :
      (id receipt digest now : ℕ) → record_publication id receipt digest now s ≡ ok s' → Step s s'
  binding_recorded :
      (e : BindingEntry) (id : ℕ) → record_binding_history e s ≡ ok (id, s') → Step s s'

pub data Reach (s : Store) : Store → Type 0 where
  here : Reach s s
  next : {t u : Store} → Reach s t → Step t u → Reach s u
