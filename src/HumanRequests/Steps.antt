-- ===== src/HumanRequests/Steps.antt =====
-- The operations, triggers and transactions of src/capy_outcome_runtime/human_requests.py as one
-- step relation, and what each step does to the rows.
use mathlib.Core.Path.{subst}
use capy_outcome_runtime_pub.Table.{find}
use capy_outcome_runtime_pub.HumanRequests.{
  Status, is_waiting, is_terminal, Actor, Outcome, Value, Row, Store, World, load, save, owner,
  answered, write_answer, after_get, receipt, refresh, get, get_rows, respond, respond_as, cancel,
  cancel_rows, invocation_of,
}
use capy_outcome_runtime_pub.HumanRequests.Delivery.{
  Fault, begin_processing, after_fault, mark_allocated, mark_allocated_rows, mark_completed,
  mark_completed_rows, binding_trigger, membership_trigger, resource_trigger, open_delivery,
  open_delivery_rows, start_delivery, start_delivery_rows, fail_delivery, fail_delivery_rows,
}
use capy_outcome_runtime_pub.HumanRequests.Creation.{
  Question, create, create_rows, create_row, new_value, small_question, missing_fields, is_creation,
}
use capy_outcome_runtime_pub.HumanRequests.Changes.{
  Keeps, Keeps-refl, Keeps-trans, Keeps-receipt, Keeps-begin, Keeps-after_fault, refresh-Keeps,
  Change, same, added, triggered, followed, save-Change, commit-Change,
}
use capy_outcome_runtime_pub.Prelude.{
  ℕ, Bool, true, ◌&&◌, ◌≡◌, refl, ap, arith, Option, none, some, String, List, leb, length, ◌==◌,
  if◌then◌else◌, Result, ok, err, bind-ok, then-ok, require-ok, guard-ok, ok-injective, if-both,
}

module _ (human_key : ℕ → List ℕ) (starts_with : String → String → Bool)
    (digest : List (ℕ × ℕ) → ℕ → ℕ → ℕ) (names : ℕ → ℕ → Bool) where
  -- One operation, trigger, or transaction of a delivery, with whatever it finds around it.
  pub data Step (s : Store) (s' : Store) : Type 0 where
    created :
        (w : World) (actor : Actor) (q : Question) → (create digest w actor q s).1 ≡ s' → Step s s'
    got : (w : World) (actor : Actor) (id : ℕ) → (get human_key w actor id s).1 ≡ s' → Step s s'
    responded :
        (w : World) (actor : Actor) (id generation : ℕ) (inputs : Option (List (ℕ × ℕ)))
        (answer : ℕ) (resources : Option ℕ)
        → (respond human_key w actor id generation inputs answer resources s).1 ≡ s'
        → Step s s'
    cancelled_by :
        (w : World) (actor : Actor) (id generation : ℕ)
        → (cancel human_key w actor id generation s).1 ≡ s'
        → Step s s'
    opened : (w : World) (id : ℕ) → (open_delivery human_key starts_with w id s).1 ≡ s' → Step s s'
    started :
        (w : World) (actor : Actor) (id : ℕ)
        → (start_delivery human_key starts_with w actor id s).1 ≡ s'
        → Step s s'
    allocated : (id invocation : ℕ) → (mark_allocated id invocation s).1 ≡ s' → Step s s'
    finished :
        (id invocation : ℕ) (outcome : Outcome)
        → (mark_completed id invocation outcome s).1 ≡ s'
        → Step s s'
    faulted :
        (w : World) (fault : Fault) (id : ℕ)
        → (fail_delivery human_key starts_with w fault id s).1 ≡ s'
        → Step s s'
    binding_moved :
        (code : String) (scope capability : ℕ)
        → binding_trigger code scope capability s ≡ s'
        → Step s s'
    membership_ended : (membership : ℕ) → membership_trigger membership s ≡ s' → Step s s'
    resource_removed : (scope item : ℕ) → resource_trigger names scope item s ≡ s' → Step s s'

  pub data Reach (s : Store) : Store → Type 0 where
    here : Reach s s
    next : {t u : Store} → Reach s t → Step t u → Reach s u

  create_row-Change :
      (o : Option Row) (v : Value) (q : Question) (s : Store) (a : Value) (t : Store)
      → create_row digest o v q s ≡ ok (a, t)
      → Change s t
  unfolding create_row
  create_row-Change none v q s a t h =
      subst (Change s) (ap (λ (p : Value × Store). p.1) (ok-injective _ _ h)) (added s _)
  create_row-Change (some old) v q s a t h = subst (Change s) (kept h) (same s)
    where
      kept : create_row digest (some old) v q s ≡ ok (a, t) → s ≡ t
      kept h = ground arith

  create-Change :
      (w : World) (actor : Actor) (q : Question) (s : Store)
      → Change s (create digest w actor q s).1
  unfolding create
  create-Change w actor q s = commit-Change (create_rows digest w actor q s) s λ a t h.
      let (_, h1) =
        guard-ok (leb 1 (length q.key) && leb (length q.key) 128) "HUMAN_INPUT_INVALID" _ _ h in
      let (f, _, h2) =
        require-ok (small_question (missing_fields q)) "HUMAN_SMALL_QUESTION_REQUIRED" _ _ h1 in
      let (_, h3) =
        then-ok (w.validate actor q.contract.descriptor q.inputs q.resources (some f.field_id)) _ _
          h2 in
      create_row-Change (find (is_creation q.producer q.key) s) (new_value w actor q f) q s a t h3

  -- The end of a transaction that loads a row and writes a value of it back.
  pub written :
      (id : ℕ) (s : Store) (row : Row) (v a : Value) (t : Store)
      → load id s ≡ ok row
      → Keeps row.value v
      → ◌≡◌ {A = Result (Value × Store)} (ok (v, save v s)) (ok (a, t))
      → Change s t
  written id s row v a t l k h =
      subst (Change s) (ap (λ (p : Value × Store). p.1) (ok-injective _ _ h))
        (save-Change id s row v l k)

  pub get-Change :
      (w : World) (actor : Actor) (id : ℕ) (s : Store) → Change s (get human_key w actor id s).1
  unfolding get
  get-Change w actor id s = commit-Change (get_rows human_key w actor id s) s λ a t h.
      let (current, _, h1) = bind-ok (w.guarded_actor actor) _ _ h in
      let (row, l, h2) = bind-ok (load id s) _ _ h1 in
      let (v, r, h3) = bind-ok (refresh human_key w current row) _ _ h2 in
      written id s row v a t l (refresh-Keeps human_key w current row v r) h3

  -- A waiting request may be given any new value of it.
  waited : (v v' : Value) → is_waiting v.status ≡ true → v'.id ≡ v.id → Keeps v v'
  waited v v' w e = (e, λ h. absurd (cc))

  write_answer-Change :
      (w : World) (actor : Actor) (id generation : ℕ) (inputs : Option (List (ℕ × ℕ))) (answer : ℕ)
      (resources : Option ℕ) (s : Store) (a : Value) (t : Store)
      → write_answer human_key w actor id generation inputs answer resources s ≡ ok (a, t)
      → Change s t
  unfolding write_answer
  write_answer-Change w actor id generation inputs answer resources s a t h =
      let (row, l, h1) = bind-ok (load id s) _ _ h in
      let (_, h2) = then-ok (owner w row.producer actor row.value) _ _ h1 in
      let (waits, h3) =
        guard-ok (is_waiting row.value.status && row.value.generation == generation)
          "HUMAN_RESPONSE_STALE" _ _ h2 in
      let (c, _, h4) = bind-ok (w.contract actor row.value.app row.value.operation) _ _ h3 in
      let v : Value = answered human_key w actor row inputs answer resources in
      let (_, h5) = then-ok (w.validate actor c.descriptor v.inputs v.resources none) _ _ h4 in
      written id s row v a t l (waited row.value v (ground arith) (unfold answered in refl)) h5

  respond-Change :
      (w : World) (actor : Actor) (id generation : ℕ) (inputs : Option (List (ℕ × ℕ))) (answer : ℕ)
      (resources : Option ℕ) (s : Store)
      → Change s (respond human_key w actor id generation inputs answer resources s).1
  unfolding respond
  respond-Change w actor id generation inputs answer resources s = by_actor (w.guarded_actor actor)
    where
      after :
          (current : Actor) (g : Result Value × Store)
          → Change s g.1
          → Change s (after_get human_key w current id generation inputs answer resources g).1
      after current (err e, t) c = c
      after current (ok v, t) c = followed c (
          commit-Change (write_answer human_key w current id generation inputs answer resources t) t
            (write_answer-Change w current id generation inputs answer resources t))

      by_actor :
          (r : Result Actor)
          → Change s (respond_as human_key w r id generation inputs answer resources s).1
      by_actor (err e) = same s
      by_actor (ok current) =
          after current (get human_key w current id s) (get-Change w current id s)

  cancel-Change :
      (w : World) (actor : Actor) (id generation : ℕ) (s : Store)
      → Change s (cancel human_key w actor id generation s).1
  unfolding cancel
  cancel-Change w actor id generation s =
      commit-Change (cancel_rows human_key w actor id generation s) s λ a t h.
        let (current, _, h1) = bind-ok (w.guarded_actor actor) _ _ h in
        let (row, l, h2) = bind-ok (load id s) _ _ h1 in
        let (_, h3) = then-ok (owner w row.producer current row.value) _ _ h2 in
        let (waits, h4) =
          guard-ok (is_waiting row.value.status && row.value.generation == generation)
            "HUMAN_RESPONSE_STALE" _ _ h3 in
        let v : Value = record row.value { status = Status.cancelled } in
        written id s row v a t l (refl, λ _. (refl, refl, refl, refl)) h4

  open-Change :
      (w : World) (id : ℕ) (s : Store) → Change s (open_delivery human_key starts_with w id s).1
  unfolding open_delivery
  open-Change w id s = commit-Change (open_delivery_rows human_key starts_with w id s) s λ a t h.
      let (row, l, h1) = bind-ok (load id s) _ _ h in
      written id s row (receipt human_key w row.value) a t l (Keeps-receipt human_key w row.value)
        h1

  start-Change :
      (w : World) (actor : Actor) (id : ℕ) (s : Store)
      → Change s (start_delivery human_key starts_with w actor id s).1
  unfolding start_delivery
  start-Change w actor id s =
      commit-Change (start_delivery_rows human_key starts_with w actor id s) s λ a t h.
        let (current, _, h1) = bind-ok (w.guarded_actor actor) _ _ h in
        let (row, l, h2) = bind-ok (load id s) _ _ h1 in
        let (v, r, h3) = bind-ok (refresh human_key w current row) _ _ h2 in
        written id s row (begin_processing human_key starts_with v) a t l
          (Keeps-trans row.value v (begin_processing human_key starts_with v)
            (refresh-Keeps human_key w current row v r) (Keeps-begin human_key starts_with v))
          h3

  allocated-Change : (id invocation : ℕ) (s : Store) → Change s (mark_allocated id invocation s).1
  unfolding mark_allocated
  allocated-Change id invocation s = commit-Change (mark_allocated_rows id invocation s) s λ a t h.
      let (row, l, h1) = bind-ok (load id s) _ _ h in
      written id s row _ a t l (refl, λ n. (n, refl, refl, refl)) h1

  completed-Change :
      (id invocation : ℕ) (outcome : Outcome) (s : Store)
      → Change s (mark_completed id invocation outcome s).1
  unfolding mark_completed
  completed-Change id invocation outcome s =
      commit-Change (mark_completed_rows id invocation outcome s) s λ a t h.
        let (row, l, h1) = bind-ok (load id s) _ _ h in
        written id s row _ a t l (refl, λ n. (refl, refl, refl, refl)) h1

  fail-Change :
      (w : World) (fault : Fault) (id : ℕ) (s : Store)
      → Change s (fail_delivery human_key starts_with w fault id s).1
  unfolding fail_delivery
  fail-Change w fault id s =
      commit-Change (fail_delivery_rows human_key starts_with w fault id s) s λ a t h.
        let (row, l, h1) = bind-ok (load id s) _ _ h in
        let v : Value =
          after_fault human_key starts_with (invocation_of human_key w row.value) fault row.value in
        written id s row (if is_terminal row.value.status then row.value else v) a t l
          (if-both (Keeps row.value) (is_terminal row.value.status) row.value v
            (Keeps-refl row.value)
            (Keeps-after_fault human_key starts_with (invocation_of human_key w row.value) fault
              row.value))
          h1

  pub Step-Change : (s s' : Store) → Step s s' → Change s s'
  unfolding binding_trigger membership_trigger resource_trigger
  Step-Change s s' (created w actor q e) = subst (Change s) e (create-Change w actor q s)
  Step-Change s s' (got w actor id e) = subst (Change s) e (get-Change w actor id s)
  Step-Change s s' (responded w actor id g i a r e) =
      subst (Change s) e (respond-Change w actor id g i a r s)
  Step-Change s s' (cancelled_by w actor id g e) = subst (Change s) e (cancel-Change w actor id g s)
  Step-Change s s' (opened w id e) = subst (Change s) e (open-Change w id s)
  Step-Change s s' (started w actor id e) = subst (Change s) e (start-Change w actor id s)
  Step-Change s s' (allocated id i e) = subst (Change s) e (allocated-Change id i s)
  Step-Change s s' (finished id i o e) = subst (Change s) e (completed-Change id i o s)
  Step-Change s s' (faulted w f id e) = subst (Change s) e (fail-Change w f id s)
  Step-Change s s' (binding_moved code scope capability e) = subst (Change s) e (triggered s _ code)
  Step-Change s s' (membership_ended m e) = subst (Change s) e (triggered s _ _)
  Step-Change s s' (resource_removed scope item e) = subst (Change s) e (triggered s _ _)
