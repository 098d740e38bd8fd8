-- ===== src/Chat/Evolution.antt =====
-- What a transaction of src/capy_outcome_runtime/chat.py may do to the rows of its tables.
pub mod Turns
pub mod Proposals
pub mod Builds
use capy_outcome_runtime_pub.Table.Evolves.{Evolves, same}
use capy_outcome_runtime_pub.Chat.{
  Conversation, MessageResource, Build, Message, TurnStatus, is_working, Turn, Gap, Proposal,
  is_decided, BuildEvent, Submission, is_claimed, Incident, BuildOutcome, Publication, BindingEntry,
  Store,
}
use capy_outcome_runtime_pub.Prelude.{Bool, true, not, List}

-- What a transaction may do to the tables: a message, a gap, an event, an incident, and a record of
-- a build are never written again, and no more are a turn that has ended, a decided proposal and
-- a completed submission.
pub record Evolution (s s' : Store) : Type 0 where
  pub messages : Evolves (λ (m : Message). m.id) (λ _. true) s.messages s'.messages
  pub turns : Evolves (λ (t : Turn). t.id) (λ t. not (is_working t.status)) s.turns s'.turns
  pub gaps : Evolves (λ (g : Gap). g.id) (λ _. true) s.gaps s'.gaps
  pub proposals :
      Evolves (λ (p : Proposal). p.id) (λ p. is_decided p.status) s.proposals s'.proposals
  pub events : Evolves (λ (e : BuildEvent). e.id) (λ _. true) s.events s'.events
  pub submissions :
      Evolves
        (λ (m : Submission). m.submission_id)
        (λ m. not (is_claimed m.status))
        s.submissions
        s'.submissions
  pub incidents :
      Evolves (λ (i : Incident). i.problem_reference) (λ _. true) s.incidents s'.incidents
  pub outcomes : Evolves (λ (o : BuildOutcome). o.build_id) (λ _. true) s.outcomes s'.outcomes
  pub publications :
      Evolves (λ (p : Publication). p.build_id) (λ _. true) s.publications s'.publications
  pub history : Evolves (λ (h : BindingEntry). h.id) (λ _. true) s.history s'.history

-- Transactions that write the tables of the talk only, and those that write the tables of the work.
module _ {s : Store} {cs : List Conversation} {rs : List MessageResource} {ms : List Message}
    {ts : List Turn} {us : List Submission} {is : List Incident} where
  pub talk :
      Evolves (λ (m : Message). m.id) (λ _. true) s.messages ms
      → Evolves (λ (t : Turn). t.id) (λ t. not (is_working t.status)) s.turns ts
      → Evolves
          (λ (m : Submission). m.submission_id)
          (λ m. not (is_claimed m.status))
          s.submissions
          us
      → Evolves (λ (i : Incident). i.problem_reference) (λ _. true) s.incidents is
      → Evolution s (record s {
        conversations = cs;
        resources = rs;
        messages = ms;
        turns = ts;
        submissions = us;
        incidents = is;
      })
  talk m t u i = record {
    messages = m;
    turns = t;
    gaps = same _;
    proposals = same _;
    events = same _;
    submissions = u;
    incidents = i;
    outcomes = same _;
    publications = same _;
    history = same _;
  }

module _ {s : Store} {bs : List Build} {gs : List Gap} {ps : List Proposal} {ts : List Turn}
    {es : List BuildEvent} where
  pub work :
      Evolves (λ (g : Gap). g.id) (λ _. true) s.gaps gs
      → Evolves (λ (p : Proposal). p.id) (λ p. is_decided p.status) s.proposals ps
      → Evolves (λ (t : Turn). t.id) (λ t. not (is_working t.status)) s.turns ts
      → Evolves (λ (e : BuildEvent). e.id) (λ _. true) s.events es
      → Evolution s (record s { builds = bs; gaps = gs; proposals = ps; turns = ts; events = es })
  work g p t e = record {
    messages = same _;
    turns = t;
    gaps = g;
    proposals = p;
    events = e;
    submissions = same _;
    incidents = same _;
    outcomes = same _;
    publications = same _;
    history = same _;
  }

module _ {s : Store} {os : List BuildOutcome} {ps : List Publication} {hs : List BindingEntry} where
  pub records :
      Evolves (λ (o : BuildOutcome). o.build_id) (λ _. true) s.outcomes os
      → Evolves (λ (p : Publication). p.build_id) (λ _. true) s.publications ps
      → Evolves (λ (h : BindingEntry). h.id) (λ _. true) s.history hs
      → Evolution s (record s { outcomes = os; publications = ps; history = hs })
  records o p h = record {
    messages = same _;
    turns = same _;
    gaps = same _;
    proposals = same _;
    events = same _;
    submissions = same _;
    incidents = same _;
    outcomes = o;
    publications = p;
    history = h;
  }
