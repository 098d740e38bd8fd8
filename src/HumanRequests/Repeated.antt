-- ===== src/HumanRequests/Repeated.antt =====
-- Repetitions in src/capy_outcome_runtime/human_requests.py: a producer's key creates one request,
-- and a delivery whose invocation has succeeded is not executed again.
use mathlib.Core.Path.{subst}
use capy_outcome_runtime_pub.Table.{find}
use capy_outcome_runtime_pub.Table.Keys.{find-append_some, find-append_none}
use capy_outcome_runtime_pub.Table.Stable.{find-update_stable}
use capy_outcome_runtime_pub.Invocations
use capy_outcome_runtime_pub.Invocations.{Invocation, same_text, is_succeeded}
use capy_outcome_runtime_pub.Invocations.Once.{same_text_refl}
use capy_outcome_runtime_pub.HumanRequests.{
  Status, Disposition, Actor, Producer, same_producer, Value, Row, Store, World, commit, has_id,
  load, save, receipt, invocation_of,
}
use capy_outcome_runtime_pub.HumanRequests.Creation.{
  Question, HumanField, is_creation, missing_fields, small_question, new_value, creation_digest_of,
  create_row, create_rows, create,
}
use capy_outcome_runtime_pub.HumanRequests.Delivery.{Times, supersede_row, open_delivery, dispatch}
use capy_outcome_runtime_pub.HumanRequests.Changes.{Change, same, added, saved, triggered, followed}
use capy_outcome_runtime_pub.HumanRequests.Steps.{Reach, here, next, Step-Change}
use capy_outcome_runtime_pub.HumanRequests.Once.{commit-ok}
use capy_outcome_runtime_pub.Prelude.{
  ℕ, Bool, true, false, ◌&&◌, ◌≡◌, refl, sym, ◌∙◌, ap, arith, Option, none, some, String, List, [],
  ◌∷◌, ◌++◌, leb, length, ◌==◌, ==_refl, ==_sound, if◌then◌else◌, Result, ok, err, then-ok,
  require-ok, guard-ok, ok-injective, if-both, Bool-cases, inl, inr,
}

-- The row that a producer's key created stays that request, with its digest.
abbrev IsCreated : Row → Row → Type 0
IsCreated row row' = (row'.value.id ≡ row.value.id) × (row'.creation_digest ≡ row.creation_digest)

Change-IsCreated :
    (s s' : Store) (p : Producer) (key : List ℕ) (row : Row)
    → Change s s'
    → find (is_creation p key) s ≡ some row
    → (row' : Row) × (find (is_creation p key) s' ≡ some row') × IsCreated row row'
Change-IsCreated s s' p key row (same _) h = (row, h, (refl, refl))
Change-IsCreated s s' p key row (added _ new) h = (
  row,
  find-append_some (λ (r : Row). r.value.id) (is_creation p key) s (new ∷ []) row h,
  (refl, refl),
)
Change-IsCreated s s' p key row (saved _ old v found keeps) h = (
  (if has_id v.id row then record row { value = v } else row),
  unfold save in
      find-update_stable (is_creation p key) (has_id v.id) (λ r. record r { value = v }) s row
        (λ y e. refl) h,
  by_id (has_id v.id row) refl,
)
  where
    by_id :
        (b : Bool)
        → has_id v.id row ≡ b
        → IsCreated row (if b then record row { value = v } else row)
    by_id true e = (sym (==_sound _ _ e), refl)
    by_id false e = (refl, refl)
Change-IsCreated s s' p key row (triggered _ q code) h = (
  (if q row then supersede_row code row else row),
  find-update_stable (is_creation p key) q (supersede_row code) s row (λ y e. refl) h,
  if-both (λ (r : Row). IsCreated row r) (q row) (supersede_row code row) row (refl, refl)
      (refl, refl),
)
Change-IsCreated s s' p key row (followed {t = t} a b) h =
    let (r, f, (x, y)) = Change-IsCreated s t p key row a h in
    let (r', f', (x', y')) = Change-IsCreated t s' p key r b f in (r', f', (x' ∙ x, y' ∙ y))

same_producer_refl : (p : Producer) → same_producer p p ≡ true
same_producer_refl (Producer.core n) = ==_refl n
same_producer_refl (Producer.other n) = ==_refl n

module _ (human_key : ℕ → List ℕ) (starts_with : String → String → Bool)
    (digest : List (ℕ × ℕ) → ℕ → ℕ → ℕ) (names : ℕ → ℕ → Bool) where
  Reach-IsCreated :
      (s s' : Store) (p : Producer) (key : List ℕ) (row : Row)
      → Reach human_key starts_with digest names s s'
      → find (is_creation p key) s ≡ some row
      → (row' : Row) × (find (is_creation p key) s' ≡ some row') × IsCreated row row'
  Reach-IsCreated s s' p key row here h = (row, h, (refl, refl))
  Reach-IsCreated s s' p key row (next {t = t} r st) h =
      let (row1, f, (x, y)) = Reach-IsCreated s t p key row r h in
      let (row2, f', (x', y')) =
        Change-IsCreated t s' p key row1 (Step-Change human_key starts_with digest names t s' st)
          f in
      (row2, f', (x' ∙ x, y' ∙ y))

  -- After an accepted creation its key's row has the returned id and the question's digest.
  create_row-created :
      (o : Option Row) (v0 : Value) (q : Question) (s : Store) (v : Value) (t : Store)
      → find (is_creation q.producer q.key) s ≡ o
      → create_row digest o v0 q s ≡ ok (v, t)
      → (row : Row) × (find (is_creation q.producer q.key) t ≡ some row)
        × (row.value.id ≡ v.id)
        × (row.creation_digest ≡ creation_digest_of digest q)
  unfolding create_row
  create_row-created none v0 q s v t f h =
      let row : Row = record {
        producer = q.producer;
        creation_key = q.key;
        creation_digest = creation_digest_of digest q;
        value = v0;
      } in
      let done : ◌≡◌ {A = Value × Store} (v0, s ++ row ∷ []) (v, t) = ok-injective _ _ h in
      (
        row,
        subst (λ (p : Value × Store). find (is_creation q.producer q.key) p.1 ≡ some row) done
            (find-append_none (λ (r : Row). r.value.id) (is_creation q.producer q.key) s (row ∷ [])
                f
              ∙ unfold find in rw (same_producer_refl q.producer, same_text_refl q.key) refl),
        ap (λ (p : Value × Store). p.0.id) done,
        refl,
      )
  create_row-created (some old) v0 q s v t f h = kept h
    where
      kept :
          create_row digest (some old) v0 q s ≡ ok (v, t)
          → (row : Row) × (find (is_creation q.producer q.key) t ≡ some row)
            × (row.value.id ≡ v.id)
            × (row.creation_digest ≡ creation_digest_of digest q)
      kept h = elim (Bool-cases (old.creation_digest == creation_digest_of digest q)) [
        | inr e ↦ absurd (clash (rw e at h))
        | inl e ↦
            let done : ◌≡◌ {A = Value × Store} (old.value, s) (v, t) =
              ok-injective _ _ (rw e at h) in
            (
              old,
              subst (λ (p : Value × Store). find (is_creation q.producer q.key) p.1 ≡ some old) done
                  f,
              ap (λ (p : Value × Store). p.0.id) done,
              ==_sound _ _ e,
            )
      ]
        where
          clash : ◌≡◌ {A = Result (Value × Store)} (err "HUMAN_CREATION_CONFLICT") (ok (v, t)) → ⊥
          clash z = cc

  -- Once a question is accepted, the same question of its producer under its key, asked again after
  -- any operations, triggers and deliveries, creates nothing: it returns the request as it is then,
  -- if its inputs still pass the validation.
  pub create_once :
      (w w' : World) (actor actor' : Actor) (q : Question) (s : Store) (v : Value) (s' s'' : Store)
      → create digest w actor q s ≡ (ok v, s')
      → Reach human_key starts_with digest names s' s''
      → ((f : HumanField)
          → small_question (missing_fields q) ≡ some f
          → w'.validate actor' q.contract.descriptor q.inputs q.resources (some f.field_id) ≡ ok tt)
      → (row : Row) × (find (is_creation q.producer q.key) s'' ≡ some row)
        × (row.value.id ≡ v.id)
        × (create digest w' actor' q s'' ≡ (ok row.value, s''))
  unfolding create
  create_once w w' actor actor' q s v s' s'' h reach valid =
      let rows = commit-ok (create_rows digest w actor q s) s v s' h in
      let (fits, h1) =
        guard-ok (leb 1 (length q.key) && leb (length q.key) 128) "HUMAN_INPUT_INVALID" _ _ rows in
      let (f, small, h2) =
        require-ok (small_question (missing_fields q)) "HUMAN_SMALL_QUESTION_REQUIRED" _ _ h1 in
      let (_, h3) =
        then-ok (w.validate actor q.contract.descriptor q.inputs q.resources (some f.field_id)) _ _
          h2 in
      let (row, found, id, made) =
        create_row-created (find (is_creation q.producer q.key) s) (new_value w actor q f) q s v s'
          refl h3 in
      let (row', found', (id', made')) = Reach-IsCreated s' s'' q.producer q.key row reach found in
      (
        row',
        found',
        id' ∙ id,
        ap (λ (r : Result (Value × Store)). commit r s'')
            (again f small fits row' found' (made' ∙ made)),
      )
    where
      again :
          (f : HumanField)
          → small_question (missing_fields q) ≡ some f
          → (leb 1 (length q.key) && leb (length q.key) 128) ≡ true
          → (row : Row) → find (is_creation q.producer q.key) s'' ≡ some row
          → row.creation_digest ≡ creation_digest_of digest q
          → create_rows digest w' actor' q s'' ≡ ok (row.value, s'')
      again f small fits row found made =
          unfold create_rows create_row in
          rw (fits, small, valid f small, found, made, ==_refl) refl

  -- A delivery whose invocation has succeeded executes nothing: whatever its later transactions
  -- would find and whatever the execution would answer, it returns the request completed with that
  -- invocation's result.
  pub dispatch_replays :
      (t : Times) (id : ℕ) (s : Store) (row : Row) (i : Invocation)
      → find (has_id id) s ≡ some row
      → invocation_of human_key t.opened row.value ≡ some i
      → is_succeeded i.status ≡ true
      → (v : Value) × (dispatch human_key starts_with t id s ≡ (ok v, save v s))
        × (v.status ≡ Status.completed)
        × (v.invocation_id ≡ some i.id)
        × (v.outcome
            ≡ some (record { result = i.result; artifacts = i.artifacts; receipt = i.receipt }))
        × (v.response ≡ row.value.response)
  unfolding dispatch
  dispatch_replays t id s row i found named succeeded =
      let v : Value = record row.value {
        invocation_id = some i.id;
        status = Status.completed;
        application_disposition = some Disposition.accepted;
        error = none;
        outcome = some (record { result = i.result; artifacts = i.artifacts; receipt = i.receipt });
      } in
      let opened : open_delivery human_key starts_with t.opened id s ≡ (ok v, save v s) =
        unfold open_delivery load receipt in rw (found, named, status i succeeded) refl in
      (v, rw opened refl, refl, refl, refl, refl)
    where
      status :
          (i : Invocation) → is_succeeded i.status ≡ true → i.status ≡ Invocations.Status.succeeded
      status i h = ground arith
