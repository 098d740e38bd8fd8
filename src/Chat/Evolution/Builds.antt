-- ===== src/Chat/Evolution/Builds.antt =====
-- How the operations on build requests write their tables.
use capy_outcome_runtime_pub.Table.Evolves.{Evolves, same, added}
use capy_outcome_runtime_pub.Chat.{
  scope_of, conversation, Authority, Build, BuildStatus, BindingEntry, Store,
}
use capy_outcome_runtime_pub.Chat.Builds.{
  build, has_references, insert_build, fresh_build, moves_as, assign, retries_as, store_retry,
  Fields, create_build_request, transition_build, begin_build_retry, recover_expired_build_leases,
  recover_interrupted_build_retries,
}
use capy_outcome_runtime_pub.Chat.Records.{
  kept_row, new_outcome, is_same_outcome, same_receipt, same_binding, or_insert,
  record_generic_build_outcome, record_publication, record_binding_history,
}
use capy_outcome_runtime_pub.Chat.Turns.{is_owner_message}
use capy_outcome_runtime_pub.Table.{find, count, update}
use capy_outcome_runtime_pub.Chat.Evolution.{Evolution, work, records}
use capy_outcome_runtime_pub.Prelude.{
  ℕ, true, Option, none, some, List, Returns, at_end, past_test, past_row, past_value, not, ◌||◌,
  ◌&&◌, ◌==◌, is_none,
}

pub create_build_request-Evolution :
    (b : Build) (s : Store) → Returns (λ r. Evolution s r.1) (create_build_request b s)
unfolding create_build_request
create_build_request-Evolution b s =
    past_value (conversation (Authority.scope b.scope_id) b.conversation_id s) _ (λ c _.
      past_test
        (not (is_none (find (λ c. c.id == b.id || c.gap_id == b.gap_id) s.builds))
          || has_references b s)
        "IntegrityError" _
        (λ _.
          past_row (find (λ c. c.gap_id == b.gap_id) (insert_build (fresh_build b) s.builds))
            "TypeError" _ (λ row _. at_end _ (work (same _) (same _) (same _) (same _)))))

pub transition_build-Evolution :
    (id : ℕ) (expected : List BuildStatus) (status : BuildStatus) (f : Fields) (fresh now : ℕ)
    (s : Store)
    → Returns (λ r. Evolution s r.1) (transition_build id expected status f fresh now s)
unfolding transition_build
transition_build-Evolution id expected status f fresh now s =
    past_test (not f.unlisted) "BUILD_UPDATE_INVALID" _ (λ _.
      past_test (count (moves_as id expected) s.builds == 1) "BUILD_STATE_CONFLICT" _ (λ _.
        past_row
          (find (λ b. b.id == id) (update (moves_as id expected) (assign status f now) s.builds))
          "TypeError" _ (λ b _. at_end _ (work (same _) (same _) (same _) (added _ _)))))

pub begin_build_retry-Evolution :
    (id : ℕ) (a : Authority) (within message world adapter model fresh event now : ℕ) (s : Store)
    → Returns
        (λ r. Evolution s r.1)
        (begin_build_retry id a within message world adapter model fresh event now s)
unfolding begin_build_retry store_retry
begin_build_retry-Evolution id a within message world adapter model fresh event now s =
    past_value (conversation a within s) _ (λ c _.
      past_row (find (is_owner_message message within) s.messages) "TURN_OWNER_MESSAGE_INVALID" _
        (λ m _.
          past_test (count (retries_as id (scope_of a) within) s.builds == 1) "BUILD_STATE_CONFLICT"
            _ (λ _. at_end _ (work (same _) (same _) (added _ _) (added _ _)))))

pub recover_expired_build_leases-Evolution :
    (now : ℕ) (s : Store) → Evolution s (recover_expired_build_leases now s).1
unfolding recover_expired_build_leases
recover_expired_build_leases-Evolution now s = work (same _) (same _) (same _) (same _)

pub recover_interrupted_build_retries-Evolution :
    (fresh : Build → ℕ) (now : ℕ) (s : Store)
    → Evolution s (recover_interrupted_build_retries fresh now s).1
unfolding recover_interrupted_build_retries
recover_interrupted_build_retries-Evolution fresh now s =
    work (same _) (same _) (same _) (added _ _)

or_insert-Evolves :
    {A : Type 0} (key : A → ℕ) (old : Option A) (new : A) (rows : List A)
    → Evolves key (λ _. true) rows (or_insert old new rows)
or_insert-Evolves key none new rows = added _ _
or_insert-Evolves key (some old) new rows = same _

pub record_generic_build_outcome-Evolution :
    (id classification provenance : ℕ) (detail : Option ℕ) (now : ℕ) (s : Store)
    → Returns
        (λ r. Evolution s r.1)
        (record_generic_build_outcome id classification provenance detail now s)
unfolding record_generic_build_outcome
record_generic_build_outcome-Evolution id classification provenance detail now s =
    past_value (build id none s) _ (λ b _.
      past_test
        (is_same_outcome classification provenance detail (
          kept_row (find (λ o. o.build_id == id) s.outcomes)
            (new_outcome id classification provenance detail now b)))
        "GENERIC_BUILD_OUTCOME_CONFLICT" _
        (λ _. at_end _ (records (or_insert-Evolves _ _ _ _) (same _) (same _))))

pub record_publication-Evolution :
    (id receipt digest now : ℕ) (s : Store)
    → Returns (Evolution s) (record_publication id receipt digest now s)
unfolding record_publication
record_publication-Evolution id receipt digest now s =
    past_test (same_receipt digest (find (λ p. p.build_id == id) s.publications))
      "PUBLICATION_RECEIPT_CONFLICT" _
      (λ _.
        past_test
          (not (is_none (find (λ p. p.build_id == id) s.publications))
            || not (is_none (find (λ b. b.id == id) s.builds)))
          "IntegrityError" _
          (λ _. at_end _ (records (same _) (or_insert-Evolves _ _ _ _) (same _))))

pub record_binding_history-Evolution :
    (e : BindingEntry) (s : Store) → Returns (λ r. Evolution s r.1) (record_binding_history e s)
unfolding record_binding_history
record_binding_history-Evolution e s =
    past_test
      (same_binding e
        (find (λ h. h.build_id == e.build_id && h.operation == e.operation) s.history))
      "BINDING_HISTORY_CONFLICT" _
      (λ _.
        past_test
          (not (
              is_none
                (find (λ h. h.build_id == e.build_id && h.operation == e.operation) s.history))
            || not (is_none (find (λ b. b.id == e.build_id) s.builds)))
          "IntegrityError" _
          (λ _. at_end _ (records (same _) (same _) (or_insert-Evolves _ _ _ _))))
