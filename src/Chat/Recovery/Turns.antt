-- ===== src/Chat/Recovery/Turns.antt =====
-- Turns end once, with their result, and no working turn is left behind by a restart.
use capy_outcome_runtime_pub.Dispatch
use capy_outcome_runtime_pub.Table.{find, select, count, All, IsKey}
use capy_outcome_runtime_pub.Table.Laws.{
  find-snoc_some, find-select, All-update_to, All-of, length-select, count-zero, All-map,
}
use capy_outcome_runtime_pub.Table.Keys.{count-at_key, find-update, find-append_none}
use capy_outcome_runtime_pub.Chat.{
  Authority, Attachment, Message, MessageState, Role, TurnStatus, is_working, Incident, Turn, Store,
  conversation, Conversation, are_distinct,
}
use capy_outcome_runtime_pub.Chat.Turns.{
  Ending, is_end, works_as, works_in, end_turn, finish_turn, with_result, store_result,
  record_result_and_finish_turn, has_job, is_interrupted, interrupt_turn, are_new,
  recover_interrupted_turns, record_problem_incident,
}
use capy_outcome_runtime_pub.Prelude.{
  ℕ, ◌≡◌, refl, ◌∙◌, ap, Bool, true, false, not, ◌&&◌, ◌==◌, Option, none, some, List, arith,
  if◌then◌else◌, is_none, ==_refl, ◌++◌, ok, err, returned, at_end, past_test, past_row, map,
}

ends_idle : (t : TurnStatus) → is_end t ≡ true → is_working t ≡ false
ends_idle t h = ground arith

-- After `finish_turn` no row with the id works.
finished_idle :
    (id : ℕ) (status : TurnStatus) (e : Ending) (now : ℕ) (s s' : Store)
    → finish_turn id status e now s ≡ ok s'
    → All (λ t. works_as id t ≡ false) s'.turns
unfolding finish_turn end_turn
finished_idle id status e now s = returned (
    past_test (is_end status) "TURN_STATUS_INVALID" _ (λ end.
      past_test (count (works_as id) s.turns == 1) "TURN_STATE_CONFLICT" _ (λ _. at_end _ (
        All-update_to (λ _. Unit {0}) (λ t. works_as id t ≡ false) (works_as id)
          (end_turn status e now) s.turns (λ t p u. ground (arith, ends_idle status end))
          (λ t p u. p) (All-of (λ _. Unit {0}) s.turns (λ _. tt))))))

unseen : (id : ℕ) (within : ℕ) (t : Turn) → works_as id t ≡ false → works_in id within t ≡ false
unseen id within t h = ground arith

-- A turn that `finish_turn` has finished is refused by another `finish_turn`, and by
-- `record_result_and_finish_turn` in every conversation that the authority sees.
pub finish_once :
    (id : ℕ) (status again : TurnStatus) (e f : Ending) (now later : ℕ) (s s' : Store)
    → finish_turn id status e now s ≡ ok s'
    → is_end again ≡ true
    → (finish_turn id again f later s' ≡ err "TURN_STATE_CONFLICT")
      × ((a : Authority) (c : Conversation) (text : List ℕ) (metadata : ℕ) (files : List Attachment)
            (action invocation usage kind fresh : ℕ)
          → conversation a c.id s' ≡ ok c
          → record_result_and_finish_turn a c.id id text metadata files action invocation usage kind
              fresh later s'
            ≡ err "TURN_STATE_CONFLICT")
unfolding finish_turn record_result_and_finish_turn
finish_once id status again e f now later s s' h ended =
    let idle = finished_idle id status e now s s' h in
    (
      rw (ended, count-zero (works_as id) s'.turns idle) refl,
      λ a c text metadata files action invocation usage kind fresh seen.
          rw
            (
              seen,
              count-zero (works_in id c.id) s'.turns (
                  All-map (λ t. works_as id t ≡ false) (λ t. works_in id c.id t ≡ false) s'.turns
                    (unseen id c.id) idle),
            )
            refl,
    )

-- Where turn ids are a key, `record_result_and_finish_turn` ends a working turn of the conversation as
-- done with its action, its invocation and no error, and stores the result's message with the same
-- commit; a turn that does not work there is a conflict.
pub result_ends_turn :
    (a : Authority) (c : Conversation) (t : Turn) (text : List ℕ) (metadata : ℕ)
    (files : List Attachment) (action invocation usage kind fresh now : ℕ) (s : Store)
    → IsKey (λ u. u.id) s.turns
    → find (λ u. u.id == t.id) s.turns ≡ some t
    → find (λ m. m.id == fresh) s.messages ≡ none
    → conversation a c.id s ≡ ok c
    → are_distinct files ≡ true
    → ((t.conversation_id == c.id && is_working t.status) ≡ true
        → (s' : Store) × (record_result_and_finish_turn a c.id t.id text metadata files action
              invocation usage kind fresh now s
            ≡ ok (fresh, s'))
          × (find (λ u. u.id == t.id) s'.turns
              ≡ some (record t {
                status = TurnStatus.done;
                action = some action;
                invocation_id = some invocation;
                error_code = none;
                usage = usage;
                completed_at = some now;
              }))
          × (find (λ m. m.id == fresh) s'.messages
              ≡ some (record {
                id = fresh;
                conversation_id = c.id;
                role = Role.assistant;
                text = text;
                kind = kind;
                state = MessageState.done_state;
                metadata = metadata;
                created_at = now;
              })))
      × ((t.conversation_id == c.id && is_working t.status) ≡ false
          → record_result_and_finish_turn a c.id t.id text metadata files action invocation usage
              kind fresh now s
            ≡ err "TURN_STATE_CONFLICT")
unfolding record_result_and_finish_turn find
result_ends_turn a c t text metadata files action invocation usage kind fresh now s u h new seen
      distinct =
    let rows : count (works_in t.id c.id) s.turns
        ≡ (if t.conversation_id == c.id && is_working t.status then 1 else 0) =
      count-at_key (λ u. u.id) t.id (λ u. u.conversation_id == c.id && is_working u.status) s.turns
        t u h in
    (
      λ works. (
        store_result a c.id t.id text metadata files action invocation usage kind fresh now s,
        rw (seen, rows, works, distinct) refl,
        find-update (λ u. u.id) (works_in t.id c.id) (with_result action invocation usage now) t.id
              s.turns t (λ u. refl) h
            ∙ ap some (written works),
        find-append_none (λ (k : Message). k.id) _ s.messages _ new ∙ rw (==_refl fresh) refl,
      ),
      λ idle. rw (seen, rows, idle) refl,
    )
  where
    written :
        (t.conversation_id == c.id && is_working t.status) ≡ true
        → (if works_in t.id c.id t then with_result action invocation usage now t else t)
          ≡ with_result action invocation usage now t
    written works = ground (arith, works)

module _ (consumes : ℕ → ℕ → Bool) (incident : Turn → ℕ) (apology : List ℕ) (kind : ℕ)
    (fresh : Turn → ℕ) (jobs : Option (List Dispatch.Types.Job)) (now : ℕ) where
  -- After `recover_interrupted_turns` every working turn has a job that is not consumed; each
  -- interrupted turn has ended as a problem with the code TURN_INTERRUPTED, the others are as they
  -- were; and for each interrupted turn, in the order of the table, an incident and a message of the
  -- assistant in its conversation are added.
  pub turns_recovered :
      (s s' : Store) (n : ℕ)
      → recover_interrupted_turns consumes incident apology kind fresh jobs now s ≡ ok (n, s')
      → (n ≡ count (is_interrupted consumes incident apology kind fresh jobs) s.turns)
        × All
            (λ t.
              is_working t.status ≡ true
              → has_job consumes incident apology kind fresh jobs t ≡ true)
            s'.turns
        × ((t : Turn)
            → find (λ u. u.id == t.id) s.turns ≡ some t
            → (is_interrupted consumes incident apology kind fresh jobs t ≡ true
                → find (λ u. u.id == t.id) s'.turns
                  ≡ some (record t {
                    status = TurnStatus.problem;
                    error_code = some "TURN_INTERRUPTED";
                    completed_at = some now;
                  }))
              × (is_interrupted consumes incident apology kind fresh jobs t ≡ false
                  → find (λ u. u.id == t.id) s'.turns ≡ some t))
        × (s'.incidents
            ≡ s.incidents
              ++ map
                  (λ t. record {
                    problem_reference = t.id;
                    conversation_id = t.conversation_id;
                    facts = incident t;
                    created_at = now;
                  })
                  (select (is_interrupted consumes incident apology kind fresh jobs) s.turns))
        × (s'.messages
            ≡ s.messages
              ++ map
                  (λ t. record {
                    id = fresh t;
                    conversation_id = t.conversation_id;
                    role = Role.assistant;
                    text = apology;
                    kind = kind;
                    state = MessageState.problem_state;
                    metadata = 0;
                    created_at = now;
                  })
                  (select (is_interrupted consumes incident apology kind fresh jobs) s.turns))
  unfolding recover_interrupted_turns
  turns_recovered s s' n h =
      returned
        {P = λ r.
          (r.0 ≡ count (is_interrupted consumes incident apology kind fresh jobs) s.turns)
          × All
              (λ t.
                is_working t.status ≡ true
                → has_job consumes incident apology kind fresh jobs t ≡ true)
              r.1.turns
          × ((t : Turn)
              → find (λ u. u.id == t.id) s.turns ≡ some t
              → (is_interrupted consumes incident apology kind fresh jobs t ≡ true
                  → find (λ u. u.id == t.id) r.1.turns
                    ≡ some (record t {
                      status = TurnStatus.problem;
                      error_code = some "TURN_INTERRUPTED";
                      completed_at = some now;
                    }))
                × (is_interrupted consumes incident apology kind fresh jobs t ≡ false
                    → find (λ u. u.id == t.id) r.1.turns ≡ some t))
          × (r.1.incidents
              ≡ s.incidents
                ++ map
                    (λ t. record {
                      problem_reference = t.id;
                      conversation_id = t.conversation_id;
                      facts = incident t;
                      created_at = now;
                    })
                    (select (is_interrupted consumes incident apology kind fresh jobs) s.turns))
          × (r.1.messages
              ≡ s.messages
                ++ map
                    (λ t. record {
                      id = fresh t;
                      conversation_id = t.conversation_id;
                      role = Role.assistant;
                      text = apology;
                      kind = kind;
                      state = MessageState.problem_state;
                      metadata = 0;
                      created_at = now;
                    })
                    (select (is_interrupted consumes incident apology kind fresh jobs) s.turns))}
        (past_test (are_new consumes incident apology kind fresh jobs s) "IntegrityError" _ (λ _.
          at_end _ (
            length-select _ s.turns,
            All-update_to (λ _. Unit {0}) _
                (is_interrupted consumes incident apology kind fresh jobs)
                (interrupt_turn consumes incident apology kind fresh now) s.turns (λ t p u w. cc)
                (λ t p u w. ground arith) (All-of (λ _. Unit {0}) s.turns (λ _. tt)),
            λ t e.
                let row =
                  find-update (λ u. u.id) (is_interrupted consumes incident apology kind fresh jobs)
                    (interrupt_turn consumes incident apology kind fresh now) t.id s.turns t
                    (λ u. refl) e in
                (λ i. row ∙ rw i refl, λ i. row ∙ rw i refl),
            refl,
            refl,
          )))
        (n, s') h

  -- A turn whose incident is recorded by itself, and that is interrupted before it is ended, makes
  -- every later `recover_interrupted_turns` fail.
  pub recovery_blocked :
      (id within facts : ℕ) (valid : Bool) (at_time : ℕ) (s s' : Store) (t : Turn)
      → record_problem_incident id within facts valid at_time s ≡ ok s'
      → find (λ u. u.id == id) s.turns ≡ some t
      → is_interrupted consumes incident apology kind fresh jobs t ≡ true
      → recover_interrupted_turns consumes incident apology kind fresh jobs now s'
        ≡ err "IntegrityError"
  unfolding recover_interrupted_turns record_problem_incident
  recovery_blocked id within facts valid at_time s s' t h found lost =
      returned
        {P = λ r.
          recover_interrupted_turns consumes incident apology kind fresh jobs now r
          ≡ err "IntegrityError"}
        (past_test valid "PROBLEM_INCIDENT_INVALID" _ (λ _.
          past_row (find (λ u. u.id == id && u.conversation_id == within) s.turns)
            "PROBLEM_INCIDENT_INVALID" _
            (λ u _.
              past_test (is_none (find (λ i. i.problem_reference == id) s.incidents))
                "IntegrityError" _
                (λ _.
                  at_end _ (
                    rw (find-snoc_some (is_incident_of s) s.incidents (row at_time) listed)
                      refl)))))
        s' h
    where
      is_incident_of : Store → Incident → Bool
      is_incident_of s i = not (
          is_none (
            find (λ u. u.id == i.problem_reference)
              (select (is_interrupted consumes incident apology kind fresh jobs) s.turns)))

      row : ℕ → Incident
      row n = record {
        problem_reference = id;
        conversation_id = within;
        facts = facts;
        created_at = n;
      }

      listed : is_incident_of s (row at_time) ≡ true
      listed =
          rw
            (find-select (λ u. u.id == id)
              (is_interrupted consumes incident apology kind fresh jobs) s.turns t found lost)
            refl
