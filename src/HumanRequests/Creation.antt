-- ===== src/HumanRequests/Creation.antt =====
-- `_create` of src/capy_outcome_runtime/human_requests.py, and that a producer's key creates one
-- request.
use capy_outcome_runtime_pub.Dispatch.Types.{second}
use capy_outcome_runtime_pub.Invocations.{same_text}
use capy_outcome_runtime_pub.Table.{find, select}
use capy_outcome_runtime_pub.HumanRequests.{
  Status, Actor, Producer, same_producer, Contract, Value, Row, Store, World, commit,
}
use capy_outcome_runtime_pub.Prelude.{
  ℕ, ◌+◌, ◌*◌, Bool, true, false, not, ◌&&◌, ◌||◌, Option, none, some, List, [], ◌∷◌, ◌++◌, ◌==◌,
  leb, min, max, length, if◌then◌else◌, Result, ok, err, ◌>>=◌, ◌>>◌, guard, require,
}

pub data InputKind : Type 0 where
  text choice file other_kind : InputKind

abbrev pub is_file : InputKind → Bool
is_file InputKind.file = true
is_file _ = false

abbrev pub is_small : InputKind → Bool
is_small InputKind.text = true
is_small InputKind.choice = true
is_small _ = false

-- An entry of `human_fields`.
pub record HumanField : Type 0 where
  pub field_id : ℕ
  pub required : Bool
  pub input_kind : InputKind

-- The arguments of `_create`.
pub record Question : Type 0 where
  pub app : ℕ
  pub operation : ℕ
  pub capability : ℕ
  pub contract : Contract
  pub human_fields : List HumanField
  pub producer : Producer
  pub key : List ℕ
  pub inputs : List (ℕ × ℕ)
  pub resources : ℕ
  pub ttl : ℕ

abbrev pub has_field : ℕ → List (ℕ × ℕ) → Bool
has_field field [] = false
has_field field ((k, _) ∷ inputs) = k == field || has_field field inputs

-- `missing`
abbrev pub missing_fields : Question → List HumanField
missing_fields q =
    select (λ f. f.required && not (is_file f.input_kind) && not (has_field f.field_id q.inputs))
      q.human_fields

-- `missing[0]`, where it is the only one and small.
abbrev pub small_question : List HumanField → Option HumanField
small_question (f ∷ []) = if is_small f.input_kind then some f else none
small_question _ = none

-- `WHERE producer=? AND creation_key=?`
abbrev pub is_creation : Producer → List ℕ → Row → Bool
is_creation producer key row = same_producer row.producer producer && same_text row.creation_key key

unfoldable pub new_value : World → Actor → Question → HumanField → Value
new_value w actor q f = record {
  id = w.fresh;
  actor = actor;
  app = q.app;
  operation = q.operation;
  capability = q.capability;
  version = q.contract.application_version;
  contract = q.contract.digest;
  generation = 1;
  status = Status.waiting;
  field = f.field_id;
  inputs = q.inputs;
  resources = q.resources;
  expires = w.now + min (max q.ttl 1) 86400 * second;
  response = none;
  application_disposition = none;
  invocation_id = none;
  outcome = none;
  created = w.now;
  error = none;
}

-- `digest` is the SHA-256 of the canonical JSON of the inputs, the resources and the contract.
module _ (digest : List (ℕ × ℕ) → ℕ → ℕ → ℕ) where
  abbrev pub creation_digest_of : Question → ℕ
  creation_digest_of q = digest q.inputs q.resources q.contract.digest

  -- The transaction of `_create`.
  unfoldable pub create_row : Option Row → Value → Question → Store → Result (Value × Store)
  create_row (some old) v q s =
      if not (old.creation_digest == creation_digest_of q)
      then err "HUMAN_CREATION_CONFLICT"
      else ok (old.value, s)
  create_row none v q s = ok (
    v,
    s
        ++ record {
          producer = q.producer;
          creation_key = q.key;
          creation_digest = creation_digest_of q;
          value = v;
        }
          ∷ [],
  )

  -- `_create`
  unfoldable pub create_rows : World → Actor → Question → Store → Result (Value × Store)
  unfolding new_value create_row
  create_rows w actor q s = do
    guard (leb 1 (length q.key) && leb (length q.key) 128) "HUMAN_INPUT_INVALID"
    f ← require (small_question (missing_fields q)) "HUMAN_SMALL_QUESTION_REQUIRED"
    w.validate actor q.contract.descriptor q.inputs q.resources (some f.field_id)
    create_row (find (is_creation q.producer q.key) s) (new_value w actor q f) q s

  unfoldable pub create : World → Actor → Question → Store → Result Value × Store
  unfolding create_rows
  create w actor q s = commit (create_rows w actor q s) s
