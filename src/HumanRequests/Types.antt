-- ===== src/HumanRequests/Types.antt =====
-- The rows of `human_requests_v0` of src/capy_outcome_runtime/human_requests.py, and what its
-- operations read from the other parts of the runtime. Texts that are only stored and compared are
-- numbers.
use capy_outcome_runtime_pub.Prelude.{
  ℕ, Bool, true, false, ◌&&◌, Option, String, List, ◌==◌, Result,
}
use capy_outcome_runtime_pub.Invocations

pub data Status : Type 0 where
  waiting saved processing uncertain completed failed cancelled expired superseded : Status

abbrev pub is_waiting : Status → Bool
is_waiting Status.waiting = true
is_waiting _ = false

-- `TERMINAL`
abbrev pub is_terminal : Status → Bool
is_terminal Status.waiting = false
is_terminal Status.saved = false
is_terminal Status.processing = false
is_terminal _ = true

-- `{"saved", "processing", "uncertain"}`
abbrev pub is_deliverable : Status → Bool
is_deliverable Status.saved = true
is_deliverable Status.processing = true
is_deliverable Status.uncertain = true
is_deliverable _ = false

-- `status IN ('waiting', 'saved', 'processing')` of the triggers.
abbrev pub is_open : Status → Bool
is_open Status.waiting = true
is_open Status.saved = true
is_open Status.processing = true
is_open _ = false

-- The fields of `ActorContext` that `_owner` compares.
pub record Actor : Type 0 where
  pub authority_id : ℕ
  pub principal_id : ℕ
  pub membership_id : ℕ
  pub team_id : ℕ
  pub execution_scope_id : ℕ

abbrev pub same_actor : Actor → Actor → Bool
same_actor a b =
    a.authority_id == b.authority_id
    && a.principal_id == b.principal_id
    && a.membership_id == b.membership_id
    && a.team_id == b.team_id
    && a.execution_scope_id == b.execution_scope_id

-- `'core:' + id`, or another producer.
pub data Producer : Type 0 where
  core other : ℕ → Producer

abbrev pub same_producer : Producer → Producer → Bool
same_producer (Producer.core a) (Producer.core b) = a == b
same_producer (Producer.other a) (Producer.other b) = a == b
same_producer _ _ = false

pub data Route : Type 0 where
  application quick : Route

pub record Response : Type 0 where
  pub id : ℕ
  pub actor : Actor
  pub saved_at : ℕ
  pub route : Route
  pub delegation : Option ℕ

pub data Disposition : Type 0 where
  accepted not_confirmed rejected processing_disposition : Disposition

pub record Outcome : Type 0 where
  pub result : Option ℕ
  pub artifacts : Option ℕ
  pub receipt : Option ℕ

-- The JSON column `value`; `generation` and `status` are columns too, always saved with it.
pub record Value : Type 0 where
  pub id : ℕ
  pub actor : Actor
  pub app : ℕ
  pub operation : ℕ
  pub capability : ℕ
  pub version : ℕ
  pub contract : ℕ
  pub generation : ℕ
  pub status : Status
  pub field : ℕ
  pub inputs : List (ℕ × ℕ)
  pub resources : ℕ
  pub expires : ℕ
  pub response : Option Response
  pub application_disposition : Option Disposition
  pub invocation_id : Option ℕ
  pub outcome : Option Outcome
  pub created : ℕ
  pub error : Option String

pub record Row : Type 0 where
  pub producer : Producer
  pub creation_key : List ℕ
  pub creation_digest : ℕ
  pub value : Value

abbrev pub Store : Type 0
Store = List Row

-- What `_contract` returns: the contract's version and digest, and the operation's descriptor.
pub record Contract : Type 0 where
  pub application_version : ℕ
  pub digest : ℕ
  pub descriptor : ℕ

-- What one operation finds around it: the clock, `access.guarded_actor`, `_contract`, `_validate`
-- (with the field that may be missing), whether a failure of these two is raised inside a nested
-- connection of the store, the delegation authorizer if one is installed, the
-- invocations of the store, and the new `uuid4`.
pub record World : Type 0 where
  pub now : ℕ
  pub guarded_actor : Actor → Result Actor
  pub contract : Actor → ℕ → ℕ → Result Contract
  pub validate : Actor → ℕ → List (ℕ × ℕ) → ℕ → Option ℕ → Result (Unit {0})
  pub is_nested : Actor → Value → Bool
  pub delegation : Option (ℕ → Actor → Value → Result (Unit {0}))
  pub invocations : Invocations.Store
  pub fresh : ℕ
