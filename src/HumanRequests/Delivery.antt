-- ===== src/HumanRequests/Delivery.antt =====
-- `_dispatch` of src/capy_outcome_runtime/human_requests.py, one function for each transaction,
-- and the triggers that supersede open requests.
use capy_outcome_runtime_pub.Table.{select, update}
use capy_outcome_runtime_pub.Invocations
use capy_outcome_runtime_pub.Invocations.{Invocation}
use capy_outcome_runtime_pub.HumanRequests.{
  Status, is_terminal, is_deliverable, is_open, Actor, Disposition, Outcome, Value, Row, Store,
  World, commit, load, save, invocation_of, receipt, refresh,
}
use capy_outcome_runtime_pub.Prelude.{
  map, ℕ, Bool, false, ◌&&◌, ◌||◌, Option, none, some, String, List, [], ◌∷◌, ◌==◌, if◌then◌else◌,
  Result, ok, err, ◌>>=◌,
}

-- The `RuntimeFailure` or `OSError` that a delivery ends with.
pub data Fault : Type 0 where
  failure : String → Fault
  os_error : Fault

-- What `runtime.invoke` returns, or raises.
pub data Invoked : Type 0 where
  returned : ℕ → Outcome → Invoked
  raised : Fault → Invoked

-- The callback `allocated`.
unfoldable pub mark_allocated_rows : ℕ → ℕ → Store → Result (Value × Store)
unfolding load save
mark_allocated_rows id invocation s = do
  row ← load id s
  let v = record row.value {
    invocation_id = some invocation;
    application_disposition = some Disposition.processing_disposition;
  }
  ok (v, save v s)

unfoldable pub mark_allocated : ℕ → ℕ → Store → Result Value × Store
unfolding mark_allocated_rows
mark_allocated id invocation s = commit (mark_allocated_rows id invocation s) s

-- The transaction after `runtime.invoke` has returned.
unfoldable pub mark_completed_rows : ℕ → ℕ → Outcome → Store → Result (Value × Store)
unfolding load save
mark_completed_rows id invocation outcome s = do
  row ← load id s
  let v = record row.value {
    status = Status.completed;
    application_disposition = some Disposition.accepted;
    error = none;
    invocation_id = some invocation;
    outcome = some outcome;
  }
  ok (v, save v s)

unfoldable pub mark_completed : ℕ → ℕ → Outcome → Store → Result Value × Store
unfolding mark_completed_rows
mark_completed id invocation outcome s = commit (mark_completed_rows id invocation outcome s) s

-- The SET of a trigger.
abbrev pub supersede_row : String → Row → Row
supersede_row code row = record row {
  value = record row.value { status = Status.superseded; error = some code };
}

-- `human_binding_changed_v0` and `human_binding_removed_v0`, by the error that they write.
unfoldable pub binding_trigger : String → ℕ → ℕ → Store → Store
binding_trigger code scope capability s =
    update
      (λ row.
        row.value.actor.execution_scope_id == scope
        && row.value.capability == capability
        && is_open row.value.status)
      (supersede_row code) s

-- `human_membership_revoked_v0`
unfoldable pub membership_trigger : ℕ → Store → Store
membership_trigger membership s =
    update (λ row. row.value.actor.membership_id == membership && is_open row.value.status)
      (supersede_row "HUMAN_MEMBERSHIP_REVOKED") s

-- `human_resource_revoked_v0`: `names` tells whether the column `resources` has the digest.
unfoldable pub resource_trigger : (ℕ → ℕ → Bool) → ℕ → ℕ → Store → Store
resource_trigger names scope digest s =
    update
      (λ row.
        row.value.actor.execution_scope_id == scope
        && is_open row.value.status
        && names row.value.resources digest)
      (supersede_row "HUMAN_RESOURCE_REVOKED") s

-- What one `_dispatch` finds: its transactions run at different times.
pub record Times : Type 0 where
  pub opened : World
  pub started : World
  pub allocated : Option ℕ
  pub invoked : Invoked
  pub failed_at : World

-- `starts_with prefix code` is Python's `code.startswith(prefix)`.
module _ (human_key : ℕ → List ℕ) (starts_with : String → String → Bool) where
  -- The first transaction of `_dispatch`.
  unfoldable pub open_delivery_rows : World → ℕ → Store → Result (Value × Store)
  unfolding load receipt save
  open_delivery_rows w id s = do
    row ← load id s
    let v = receipt human_key w row.value
    ok (v, save v s)

  unfoldable pub open_delivery : World → ℕ → Store → Result Value × Store
  unfolding open_delivery_rows
  open_delivery w id s = commit (open_delivery_rows w id s) s

  abbrev pub begin_processing : Value → Value
  begin_processing v =
      if is_deliverable v.status then record v { status = Status.processing } else v

  -- The transaction that starts the execution.
  unfoldable pub start_delivery_rows : World → Actor → ℕ → Store → Result (Value × Store)
  unfolding load refresh save
  start_delivery_rows w actor id s = do
    current ← w.guarded_actor actor
    row ← load id s
    v ← refresh human_key w current row
    let started = begin_processing v
    ok (started, save started s)

  unfoldable pub start_delivery : World → Actor → ℕ → Store → Result Value × Store
  unfolding start_delivery_rows
  start_delivery w actor id s = commit (start_delivery_rows w actor id s) s

  abbrev pub is_rejection : Fault → Bool
  is_rejection os_error = false
  is_rejection (failure code) =
      starts_with "ACCESS_" code
      || starts_with "HUMAN_" code
      || starts_with "INVOCATION_INPUT" code
      || starts_with "BINDING_" code
      || starts_with "RESOURCE_" code

  abbrev pub error_of : Fault → String
  error_of os_error = "APPLICATION_UNAVAILABLE"
  error_of (failure code) = code

  -- The new value of a delivery that raised, by the invocation of its key.
  unfoldable pub after_fault : Option Invocation → Fault → Value → Value
  after_fault (some i) fault v = record v {
    error = some (error_of fault);
    invocation_id = some i.id;
    status = elim i.status [ Invocations.Status.failed ↦ Status.failed | _ ↦ Status.uncertain ];
    application_disposition = some Disposition.not_confirmed;
  }
  after_fault none fault v =
      if is_rejection fault
      then record v {
        error = some (error_of fault);
        status = Status.failed;
        application_disposition = some Disposition.rejected;
      }
      else record v { error = some (error_of fault); status = Status.saved }

  -- The `except` clause.
  unfoldable pub fail_delivery_rows : World → Fault → ℕ → Store → Result (Value × Store)
  unfolding load save after_fault
  fail_delivery_rows w fault id s = do
    row ← load id s
    let v =
        if is_terminal row.value.status
        then row.value
        else after_fault (invocation_of human_key w row.value) fault row.value
    ok (v, save v s)

  unfoldable pub fail_delivery : World → Fault → ℕ → Store → Result Value × Store
  unfolding fail_delivery_rows
  fail_delivery w fault id s = commit (fail_delivery_rows w fault id s) s

  abbrev allocation : Option ℕ → ℕ → Store → Store
  allocation none id s = s
  allocation (some i) id s = (mark_allocated id i s).1

  -- `runtime.invoke`, and the transaction after it.
  unfoldable pub invoke : Times → ℕ → Store → Result Value × Store
  unfolding mark_allocated mark_completed fail_delivery
  invoke t id s =
      let allocated = allocation t.allocated id s in
      elim t.invoked [
        | returned i outcome ↦ mark_completed id i outcome allocated
        | raised fault ↦ fail_delivery t.failed_at fault id allocated
      ]

  abbrev after_start : Times → ℕ → Result Value × Store → Result Value × Store
  after_start t id (err code, s) = fail_delivery t.failed_at (failure code) id s
  after_start t id (ok v, s) = if is_deliverable v.status then invoke t id s else (ok v, s)

  abbrev after_open : Times → ℕ → Result Value × Store → Result Value × Store
  after_open t id (err code, s) = (err code, s)
  after_open t id (ok v, s) =
      if is_deliverable v.status
      then elim v.response [
        | none ↦ (err "TypeError", s)
        | some r ↦ after_start t id (start_delivery t.started r.actor id s)
      ]
      else (ok v, s)

  -- `_dispatch`; Python's own `TypeError` answers a deliverable request without a response.
  unfoldable pub dispatch : Times → ℕ → Store → Result Value × Store
  unfolding open_delivery start_delivery invoke
  dispatch t id s = after_open t id (open_delivery t.opened id s)

  -- The loop of `recover`: an error ends it.
  unfoldable pub deliver_all : (ℕ → Times) → List ℕ → Store → Result (List Value) × Store
  unfolding dispatch
  deliver_all times [] s = (ok [], s)
  deliver_all times (id ∷ ids) s =
      let (r, t) = dispatch (times id) id s in
      let (rest, u) = deliver_all times ids t in
      elim r [ err code ↦ (err code, t) | ok v ↦ (do vs ← rest; ok (v ∷ vs), u) ]

  -- `recover`: every request that is saved, processing or uncertain is delivered.
  unfoldable pub recover : (ℕ → Times) → Store → Result (List Value) × Store
  unfolding deliver_all
  recover times s =
      deliver_all times
        (map (λ row. row.value.id) (select (λ row. is_deliverable row.value.status) s)) s
