-- ===== src/HumanRequests.antt =====
-- `HumanRequests` of src/capy_outcome_runtime/human_requests.py: a question to a person, its
-- answer, and the delivery of the answer to an application invocation.
mod Types
pub mod Delivery
pub mod Creation
pub mod Changes
pub mod Steps
pub mod Answered
pub mod Once
pub mod Repeated
mod Tests
pub use Types.*
use capy_outcome_runtime_pub.Table.{find, update}
use capy_outcome_runtime_pub.Invocations.{holds_key, Invocation}
use capy_outcome_runtime_pub.Invocations
use capy_outcome_runtime_pub.Prelude.{
  ℕ, suc, ◌+◌, Bool, true, false, not, ◌&&◌, ◌||◌, Option, none, some, String, List, [], ◌∷◌, ◌++◌,
  leb, ◌==◌, min, max, if◌then◌else◌, is_none, Result, ok, err, ◌>>=◌, ◌>>◌, guard, require,
}

-- A transaction's end: a raised error rolls its writes back.
abbrev pub commit : {A : Type 0} → Result (A × Store) → Store → Result A × Store
commit (ok (a, s')) s = (ok a, s')
commit (err e) s = (err e, s)

abbrev pub has_id : ℕ → Row → Bool
has_id id row = row.value.id == id

-- `_load`, with the row's producer.
unfoldable pub load : ℕ → Store → Result Row
load id s = require (find (has_id id) s) "HUMAN_REQUEST_DENIED"

-- `_save`
unfoldable pub save : Value → Store → Store
save v s = update (has_id v.id) (λ row. record row { value = v }) s

abbrev pub authorize : World → Producer → Actor → Value → Result (Unit {0})
authorize w (Producer.other _) actor v = ok tt
authorize w (Producer.core id) actor v = elim w.delegation [
  | none ↦ err "HUMAN_DELEGATED_CLIENT_REQUIRED"
  | some authorizer ↦ authorizer id actor v
]

-- `_owner`
abbrev pub owner : World → Producer → Actor → Value → Result (Unit {0})
owner w producer actor v = do
  authorize w producer actor v
  guard (same_actor actor v.actor) "HUMAN_REQUEST_DENIED"

-- `human_key` is the code points of `"human:" + id`.
module _ (human_key : ℕ → List ℕ) where
  abbrev pub invocation_of : World → Value → Option Invocation
  invocation_of w v =
      find (holds_key v.actor.execution_scope_id (human_key v.id)) w.invocations.invocations

  -- The updates of `_receipt` by the invocation's status.
  abbrev pub with_receipt : Option Invocation → Value → Value
  with_receipt none v = v
  with_receipt (some i) v = elim i.status [
    | Invocations.Status.running ↦ record v { invocation_id = some i.id }
    | Invocations.Status.succeeded ↦ record v {
      invocation_id = some i.id;
      status = Status.completed;
      application_disposition = some Disposition.accepted;
      error = none;
      outcome = some (record { result = i.result; artifacts = i.artifacts; receipt = i.receipt });
    }
    | Invocations.Status.failed ↦ record v {
      invocation_id = some i.id;
      status = Status.failed;
      application_disposition = some Disposition.not_confirmed;
      error = some "APPLICATION_EXECUTION_FAILED";
    }
    | Invocations.Status.execution_unknown ↦ record v { invocation_id = some i.id }
  ]

  -- `_receipt`
  unfoldable pub receipt : World → Value → Value
  receipt w v = with_receipt (invocation_of w v) v

  -- The checks of `_refresh` on a request that is neither terminal nor expired.
  abbrev pub still_fits : World → Actor → Value → Result (Unit {0})
  still_fits w actor v = do
    c ← w.contract actor v.app v.operation
    guard (c.application_version == v.version && c.digest == v.contract) "HUMAN_REQUEST_STALE"
    w.validate actor c.descriptor v.inputs v.resources
        (if is_none v.response then some v.field else none)

  abbrev pub superseded_by : Result (Unit {0}) → Value → Value
  superseded_by (ok _) v = v
  superseded_by (err code) v = record v { status = Status.superseded; error = some code }

  -- `_refresh` after `_owner` and `_receipt`.
  unfoldable pub checked : World → Actor → Value → Value
  checked w actor v =
      if is_terminal v.status
      then v
      else (if leb v.expires w.now && is_none v.response
          then record v { status = Status.expired }
          else superseded_by (still_fits w actor v) v)

  -- A failed check whose exception was raised inside a nested connection: the transaction fails when
  -- it ends, although `_refresh` catches the exception.
  abbrev pub is_poisoned : World → Actor → Value → Bool
  is_poisoned w actor v =
      not (is_terminal v.status)
      && not (leb v.expires w.now && is_none v.response)
      && elim (still_fits w actor v) [ ok _ ↦ false | err _ ↦ w.is_nested actor v ]

  -- `_refresh`, with the end of the transaction: both transactions that call it and save end so.
  unfoldable pub refresh : World → Actor → Row → Result Value
  unfolding receipt checked
  refresh w actor row = do
    owner w row.producer actor row.value
    guard (not (is_poisoned w actor (receipt w row.value))) "TRANSACTION_ABORTED"
    ok (checked w actor (receipt w row.value))

  -- `get`
  unfoldable pub get_rows : World → Actor → ℕ → Store → Result (Value × Store)
  unfolding load refresh save
  get_rows w actor id s = do
    current ← w.guarded_actor actor
    row ← load id s
    v ← refresh w current row
    ok (v, save v s)

  unfoldable pub get : World → Actor → ℕ → Store → Result Value × Store
  unfolding get_rows
  get w actor id s = commit (get_rows w actor id s) s

  -- `{**value["inputs"], value["field"]: answer}`
  abbrev pub with_field : ℕ → ℕ → List (ℕ × ℕ) → List (ℕ × ℕ)
  with_field field answer [] = (field, answer) ∷ []
  with_field field answer ((k, x) ∷ inputs) =
      let rest = with_field field answer inputs in
      if k == field then (k, answer) ∷ inputs else (k, x) ∷ rest

  abbrev pub delegation_of : Producer → Option ℕ
  delegation_of (Producer.core id) = some id
  delegation_of (Producer.other _) = none

  -- The new value of `respond`.
  unfoldable pub answered : World → Actor → Row → Option (List (ℕ × ℕ)) → ℕ → Option ℕ → Value
  answered w actor row inputs answer resources =
      let v = row.value in
      record v {
        inputs = elim inputs [ none ↦ with_field v.field answer v.inputs | some new ↦ new ];
        resources = elim resources [ none ↦ v.resources | some new ↦ new ];
        status = Status.saved;
        generation = v.generation + elim inputs [ none ↦ 0 | some _ ↦ 1 ];
        response = some (record {
          id = w.fresh;
          actor = actor;
          saved_at = w.now;
          route = elim inputs [ none ↦ Route.quick | some _ ↦ Route.application ];
          delegation = delegation_of row.producer;
        });
      }

  -- The second transaction of `respond`.
  unfoldable pub write_answer :
      World → Actor → ℕ → ℕ → Option (List (ℕ × ℕ)) → ℕ → Option ℕ → Store → Result (Value × Store)
  unfolding load save answered
  write_answer w current id generation inputs answer resources s = do
    row ← load id s
    owner w row.producer current row.value
    guard (is_waiting row.value.status && row.value.generation == generation) "HUMAN_RESPONSE_STALE"
    c ← w.contract current row.value.app row.value.operation
    let v = answered w current row inputs answer resources
    w.validate current c.descriptor v.inputs v.resources none
    ok (v, save v s)

  abbrev pub after_get :
      World
      → Actor
      → ℕ
      → ℕ
      → Option (List (ℕ × ℕ))
      → ℕ
      → Option ℕ
      → Result Value × Store
      → Result Value × Store
  after_get w current id generation inputs answer resources (ok _, s) =
      commit (write_answer w current id generation inputs answer resources s) s
  after_get w current id generation inputs answer resources (err e, s) = (err e, s)

  -- `respond` with the current actor, where there is one.
  unfoldable pub respond_as :
      World
      → Result Actor
      → ℕ
      → ℕ
      → Option (List (ℕ × ℕ))
      → ℕ
      → Option ℕ
      → Store
      → Result Value × Store
  unfolding get write_answer
  respond_as w (err e) id generation inputs answer resources s = (err e, s)
  respond_as w (ok current) id generation inputs answer resources s =
      after_get w current id generation inputs answer resources (get w current id s)

  -- `respond`: what its first transaction finds stale stays, also where the answer is refused.
  unfoldable pub respond :
      World → Actor → ℕ → ℕ → Option (List (ℕ × ℕ)) → ℕ → Option ℕ → Store → Result Value × Store
  unfolding respond_as
  respond w actor id generation inputs answer resources s =
      respond_as w (w.guarded_actor actor) id generation inputs answer resources s

  -- `cancel`
  unfoldable pub cancel_rows : World → Actor → ℕ → ℕ → Store → Result (Value × Store)
  unfolding load save
  cancel_rows w actor id generation s = do
    current ← w.guarded_actor actor
    row ← load id s
    owner w row.producer current row.value
    guard (is_waiting row.value.status && row.value.generation == generation) "HUMAN_RESPONSE_STALE"
    let v = record row.value { status = Status.cancelled }
    ok (v, save v s)

  unfoldable pub cancel : World → Actor → ℕ → ℕ → Store → Result Value × Store
  unfolding cancel_rows
  cancel w actor id generation s = commit (cancel_rows w actor id generation s) s
