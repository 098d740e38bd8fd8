-- ===== src/ContextSearch/Codec.antt =====
-- The object of a cursor of src/capy_outcome_runtime/context_search.py as JSON: what `decode_cursor` tests
-- of its keys, its schema and its types.
use capy_outcome_runtime_pub.ContextSearch.Rank.{same_text}
use capy_outcome_runtime_pub.Prelude.{
  ℕ, ◌≡◌, refl, Bool, true, false, ◌&&◌, Option, none, some, List, [], ◌∷◌, length, if◌then◌else◌,
  ◌==◌, is_none,
}

pub record Cursor : Type 0 where
  pub client : List ℕ
  pub catalog_digest : List ℕ
  pub query : List ℕ
  pub offset : ℕ
  pub page_size : ℕ

-- A key of a JSON object: one of a cursor's, or another text.
pub data Key : Type 0 where
  schema_key client_key digest_key query_key offset_key size_key : Key
  other_key : List ℕ → Key

-- A value: a text, a whole number that is not negative, or anything else.
pub data Json : Type 0 where
  text : List ℕ → Json
  number : ℕ → Json
  other_value : Json

abbrev pub same_key : Key → Key → Bool
same_key schema_key schema_key = true
same_key client_key client_key = true
same_key digest_key digest_key = true
same_key query_key query_key = true
same_key offset_key offset_key = true
same_key size_key size_key = true
same_key (other_key a) (other_key b) = same_text a b
same_key _ _ = false

abbrev pub value_of : Key → List (Key × Json) → Option Json
value_of k [] = none
value_of k ((l, v) ∷ pairs) = let rest = value_of k pairs in if same_key l k then some v else rest

-- `_closed_object` raises where a key is repeated.
abbrev pub is_closed : List (Key × Json) → Bool
is_closed [] = true
is_closed ((k, v) ∷ pairs) = is_none (value_of k pairs) && is_closed pairs

abbrev pub as_text : Option Json → Option (List ℕ)
as_text (some (Json.text t)) = some t
as_text _ = none

abbrev pub as_number : Option Json → Option ℕ
as_number (some (Json.number n)) = some n
as_number _ = none

-- `capy.context.cursor/v1`
abbrev pub schema_text : List ℕ
schema_text =
    99 ∷ 97 ∷ 112 ∷ 121 ∷ 46 ∷ 99 ∷ 111 ∷ 110 ∷ 116 ∷ 101 ∷ 120 ∷ 116 ∷ 46 ∷ 99 ∷ 117 ∷ 114 ∷ 115
    ∷ 111 ∷ 114 ∷ 47 ∷ 118 ∷ 49 ∷ []

abbrev pub read_fields :
    Option (List ℕ)
    → Option (List ℕ)
    → Option (List ℕ)
    → Option (List ℕ)
    → Option ℕ
    → Option ℕ
    → Option Cursor
read_fields (some schema) (some client) (some digest) (some query) (some offset) (some size) =
    if same_text schema schema_text
    then some (record {
      client = client;
      catalog_digest = digest;
      query = query;
      offset = offset;
      page_size = size;
    })
    else none
read_fields _ _ _ _ _ _ = none

-- The object has the six keys and no other, once each, with values of their types and the schema.
unfoldable pub read_object : List (Key × Json) → Option Cursor
read_object pairs =
    if is_closed pairs && length pairs == 6
    then read_fields (as_text (value_of schema_key pairs)) (as_text (value_of client_key pairs))
        (as_text (value_of digest_key pairs)) (as_text (value_of query_key pairs))
        (as_number (value_of offset_key pairs)) (as_number (value_of size_key pairs))
    else none

-- The object that `_cursor` writes.
abbrev pub object_of : Cursor → List (Key × Json)
object_of c =
    (schema_key, Json.text schema_text)
    ∷ (client_key, Json.text c.client)
    ∷ (digest_key, Json.text c.catalog_digest)
    ∷ (query_key, Json.text c.query)
    ∷ (offset_key, Json.number c.offset)
    ∷ (size_key, Json.number c.page_size)
    ∷ []

pub read_object-object_of : (c : Cursor) → read_object (object_of c) ≡ some c
unfolding read_object
read_object-object_of c = refl
