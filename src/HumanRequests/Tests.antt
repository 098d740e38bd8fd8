-- ===== src/HumanRequests/Tests.antt =====
-- A question asked, answered, delivered and asked again.
use capy_outcome_runtime_pub.Table.{find, update, select}
use capy_outcome_runtime_pub.Invocations
use capy_outcome_runtime_pub.Invocations.{Invocation, holds_key}
use capy_outcome_runtime_pub.Dispatch.Types.{second}
use capy_outcome_runtime_pub.HumanRequests.{
  Status, Actor, Producer, Value, Row, Route, Contract, Store, World, has_id, save, invocation_of,
  respond, cancel,
}
use capy_outcome_runtime_pub.HumanRequests.Creation.{
  Question, HumanField, InputKind, is_creation, create,
}
use capy_outcome_runtime_pub.HumanRequests.Delivery.{
  Times, raised, os_error, dispatch, membership_trigger,
}
use capy_outcome_runtime_pub.HumanRequests.Steps.{Step, Reach}
use capy_outcome_runtime_pub.HumanRequests.Answered.{HasAnswer}
use capy_outcome_runtime_pub.HumanRequests.Once.{answered_once}
use capy_outcome_runtime_pub.HumanRequests.Repeated.{create_once, dispatch_replays}
use capy_outcome_runtime_pub.Prelude.{
  ℕ, ◌+◌, ◌*◌, ◌≡◌, ◌≢◌, refl, ap, Bool, true, false, Option, none, some, String, List, [], ◌∷◌,
  ◌==◌, Result, ok,
}

abbrev human_key : ℕ → List ℕ
human_key id = 104 ∷ 58 ∷ id ∷ []

abbrev starts_with : String → String → Bool
starts_with prefix code = false

abbrev digest : List (ℕ × ℕ) → ℕ → ℕ → ℕ
digest inputs resources contract = resources + contract

abbrev names : ℕ → ℕ → Bool
names resources item = resources == item

abbrev contract : Contract
contract = record { application_version = 4; digest = 5; descriptor = 6 }

abbrev idle : Invocations.Store
idle = record { invocations = []; executors = [] }

abbrev world : World
world = record {
  now = 100;
  guarded_actor = λ a. ok a;
  contract = λ actor app operation. ok contract;
  validate = λ actor descriptor inputs resources missing. ok tt;
  is_nested = λ actor v. false;
  delegation = none;
  invocations = idle;
  fresh = 9;
}

abbrev actor : Actor
actor = record {
  authority_id = 1;
  principal_id = 2;
  membership_id = 3;
  team_id = 4;
  execution_scope_id = 5;
}

abbrev colour : HumanField
colour = record { field_id = 70; required = true; input_kind = InputKind.text }

abbrev question : Question
question = record {
  app = 11;
  operation = 12;
  capability = 13;
  contract = contract;
  human_fields = colour ∷ [];
  producer = Producer.other 8;
  key = 107 ∷ [];
  inputs = (71, 1) ∷ [];
  resources = 0;
  ttl = 60;
}

abbrev asked : Value
asked = record {
  id = 9;
  actor = actor;
  app = 11;
  operation = 12;
  capability = 13;
  version = 4;
  contract = 5;
  generation = 1;
  status = Status.waiting;
  field = 70;
  inputs = (71, 1) ∷ [];
  resources = 0;
  expires = 100 + 60 * second;
  response = none;
  application_disposition = none;
  invocation_id = none;
  outcome = none;
  created = 100;
  error = none;
}

abbrev row_of : Value → Row
row_of v = record {
  producer = Producer.other 8;
  creation_key = 107 ∷ [];
  creation_digest = 5;
  value = v;
}

creates : create digest world actor question [] ≡ (ok asked, row_of asked ∷ [])
unfolding create find select
creates = refl

abbrev replied : Value
replied = record asked {
  inputs = (71, 1) ∷ (70, 33) ∷ [];
  status = Status.saved;
  response =
      some
        (record { id = 9; actor = actor; saved_at = 100; route = Route.quick; delegation = none });
}

responds :
    respond human_key world actor 9 1 none 33 none (row_of asked ∷ [])
    ≡ (ok replied, row_of replied ∷ [])
unfolding respond find update
responds = refl

abbrev revoked : Store
revoked =
    row_of (record replied { status = Status.superseded; error = some "HUMAN_MEMBERSHIP_REVOKED" })
    ∷ []

revokes : membership_trigger 3 (row_of replied ∷ []) ≡ revoked
unfolding membership_trigger update
revokes = refl

Reach-revoked : Reach human_key starts_with digest names (row_of replied ∷ []) revoked
Reach-revoked = Reach.next Reach.here (Step.membership_ended 3 revokes)

found_replied : find (has_id 9) (row_of replied ∷ []) ≡ some (row_of replied)
unfolding find
found_replied = refl

answered_once_example :
    (row : Row) × (find (has_id 9) revoked ≡ some row)
    × HasAnswer replied row.value
    × (replied.response ≢ none)
    × ((w' : World) (actor' : Actor) (g' : ℕ) (inputs' : Option (List (ℕ × ℕ))) (answer' : ℕ)
          (resources' : Option ℕ) (v' : Value) (t : Store)
        → respond human_key w' actor' 9 g' inputs' answer' resources' revoked ≢ (ok v', t))
    × ((w' : World) (actor' : Actor) (g' : ℕ) (v' : Value) (t : Store)
        → cancel human_key w' actor' 9 g' revoked ≢ (ok v', t))
answered_once_example =
    answered_once human_key starts_with digest names world actor 9 1 none 33 none
      (row_of asked ∷ []) replied (row_of replied ∷ []) revoked responds Reach-revoked

Reach-replied : Reach human_key starts_with digest names (row_of asked ∷ []) (row_of replied ∷ [])
Reach-replied =
    Reach.next Reach.here (
      Step.responded world actor 9 1 none 33 none (ap (λ (p : Result Value × Store). p.1) responds))

create_once_example :
    (row : Row) × (find (is_creation (Producer.other 8) (107 ∷ [])) (row_of replied ∷ [])
      ≡ some row)
    × (row.value.id ≡ 9)
    × (create digest world actor question (row_of replied ∷ [])
        ≡ (ok row.value, row_of replied ∷ []))
create_once_example =
    create_once human_key starts_with digest names world world actor actor question [] asked
      (row_of asked ∷ []) (row_of replied ∷ []) creates Reach-replied (λ f e. refl)

-- The invocation of the request, finished by an earlier delivery.
abbrev finished : Invocation
finished = record {
  id = 77;
  scope_id = 5;
  capability_id = 13;
  version_digest = 4;
  status = Invocations.Status.succeeded;
  request_digest = 1;
  receipt = some 21;
  created_at = 101;
  completed_at = some 102;
  idempotency_key = some (human_key 9);
  result = some 22;
  artifacts = none;
}

abbrev later : World
later = record world { invocations = record { invocations = finished ∷ []; executors = [] } }

abbrev times : Times
times = record {
  opened = later;
  started = later;
  allocated = none;
  invoked = raised os_error;
  failed_at = later;
}

invocation_found : invocation_of human_key later replied ≡ some finished
unfolding find
invocation_found = refl

dispatch_replays_example :
    (v : Value) × (dispatch human_key starts_with times 9 (row_of replied ∷ [])
      ≡ (ok v, save v (row_of replied ∷ [])))
    × (v.status ≡ Status.completed)
    × (v.invocation_id ≡ some 77)
    × (v.outcome ≡ some (record { result = some 22; artifacts = none; receipt = some 21 }))
    × (v.response ≡ replied.response)
dispatch_replays_example =
    dispatch_replays human_key starts_with digest names times 9 (row_of replied ∷ [])
      (row_of replied) finished found_replied invocation_found refl

-- An outage before the invocation is allocated leaves the answer to be delivered again.
outage :
    (dispatch human_key starts_with
      (record times { opened = world; started = world; failed_at = world })
      9
      (row_of replied ∷ [])).0
    ≡ ok (record replied { error = some "APPLICATION_UNAVAILABLE" })
unfolding dispatch find update
outage = refl
