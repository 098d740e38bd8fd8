-- ===== src/Chat/Records.antt =====
-- What is kept of a build in src/capy_outcome_runtime/chat.py: its outcome, its receipt and the history of
-- its bindings.
use capy_outcome_runtime_pub.Table.{find}
use capy_outcome_runtime_pub.Chat.{Build, BuildOutcome, Publication, BindingEntry, Store}
use capy_outcome_runtime_pub.Prelude.{
  ℕ, Bool, true, false, not, ◌&&◌, ◌||◌, Option, none, some, List, [], ◌∷◌, ◌++◌, ◌==◌, is_none,
  Result, ok, ◌>>=◌, ◌>>◌, guard,
}
use capy_outcome_runtime_pub.Chat.Builds.{build}

-- The row of a key, or the new row after it is inserted.
abbrev pub kept_row {ℓ} : {A : Type ℓ} → Option A → A → A
kept_row none new = new
kept_row (some old) new = old

abbrev pub or_insert {ℓ} : {A : Type ℓ} → Option A → A → List A → List A
or_insert none new rows = rows ++ new ∷ []
or_insert (some _) new rows = rows

abbrev pub same_detail : Option ℕ → Option ℕ → Bool
same_detail none none = true
same_detail (some a) (some b) = a == b
same_detail _ _ = false

-- The comparison of the stored row with the arguments in `record_generic_build_outcome`.
abbrev pub is_same_outcome : ℕ → ℕ → Option ℕ → BuildOutcome → Bool
is_same_outcome classification provenance detail row =
    row.classification == classification
    && same_detail row.detail detail
    && row.provenance == provenance

abbrev pub new_outcome : ℕ → ℕ → ℕ → Option ℕ → ℕ → Build → BuildOutcome
new_outcome id classification provenance detail now b = record {
  build_id = id;
  conversation_id = b.conversation_id;
  scope_id = b.scope_id;
  classification = classification;
  detail = detail;
  provenance = provenance;
  created_at = now;
}

-- `record_generic_build_outcome`
unfoldable pub record_generic_build_outcome :
    ℕ → ℕ → ℕ → Option ℕ → ℕ → Store → Result (BuildOutcome × Store)
unfolding build
record_generic_build_outcome id classification provenance detail now s = do
  b ← build id none s
  let old = find (λ o. o.build_id == id) s.outcomes
  let new = new_outcome id classification provenance detail now b
  let row = kept_row old new
  guard (is_same_outcome classification provenance detail row) "GENERIC_BUILD_OUTCOME_CONFLICT"
  ok (row, record s { outcomes = or_insert old new s.outcomes })

-- `row is None or row["receipt_digest"] == receipt_digest`
abbrev pub same_receipt : ℕ → Option Publication → Bool
same_receipt digest none = true
same_receipt digest (some p) = p.receipt_digest == digest

-- `record_publication`
unfoldable pub record_publication : ℕ → ℕ → ℕ → ℕ → Store → Result Store
record_publication id receipt digest now s = do
  let old = find (λ p. p.build_id == id) s.publications
  guard (same_receipt digest old) "PUBLICATION_RECEIPT_CONFLICT"
  guard (not (is_none old) || not (is_none (find (λ b. b.id == id) s.builds))) "IntegrityError"
  ok (record s {
    publications =
        or_insert old
          (record { build_id = id; receipt = receipt; receipt_digest = digest; created_at = now })
          s.publications;
  })

abbrev pub same_binding : BindingEntry → Option BindingEntry → Bool
same_binding e none = true
same_binding e (some h) = h.receipt == e.receipt

-- `record_binding_history`, where `e` holds its arguments, its `uuid4` and its time.
unfoldable pub record_binding_history : BindingEntry → Store → Result (ℕ × Store)
record_binding_history e s = do
  let old = find (λ h. h.build_id == e.build_id && h.operation == e.operation) s.history
  guard (same_binding e old) "BINDING_HISTORY_CONFLICT"
  guard (not (is_none old) || not (is_none (find (λ b. b.id == e.build_id) s.builds)))
      "IntegrityError"
  ok ((kept_row old e).id, record s { history = or_insert old e s.history })
