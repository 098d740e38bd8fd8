-- ===== src/ContextSearch/Tests.antt =====
-- A catalog of four operations, whose pages hold three results.
use capy_outcome_runtime_pub.ContextSearch.{
  Python, Key, Json, is_digest, page_size, object_of, read, Shown, Response, identity, cursor_page,
  project, make_cursor, decode_cursor, respond, first_fit, continue_at, fit, search_for, overview,
  context_page,
}
use capy_outcome_runtime_pub.ContextSearch.Codec.{
  schema_key, offset_key, size_key, other_key, value_of, read_object,
}
use capy_outcome_runtime_pub.ContextSearch.Text.{normalize}
use capy_outcome_runtime_pub.ContextSearch.Rank.{
  Operation, any, rank, sort, insert, comes_before, leb_identity, score_of,
}
use capy_outcome_runtime_pub.ContextSearch.Pages.{IsBounded, pages-IsBounded}
use capy_outcome_runtime_pub.ContextSearch.Walk.{
  Walk, Covers, follow, follow_all, cursor_of, is_spelled,
}
use capy_outcome_runtime_pub.ContextSearch.Decoding.{decoded_canonical}
use capy_outcome_runtime_pub.ContextSearch.Splits.{prepared_words}
use capy_outcome_runtime_pub.ContextSearch.Words.{flat, IsWord, normalize_words}
use capy_outcome_runtime_pub.Table.{select, All}
use capy_outcome_runtime_pub.Prelude.{
  ℕ, Bool, zero, suc, ◌*◌, ◌≤◌, ◌≡◌, refl, ap, true, false, not, ◌&&◌, ◌++◌, Option, none, some,
  List, [], ◌∷◌, map, take, drop, length, ◌==◌, leb, if◌then◌else◌, ok, arith,
}

abbrev repeated : ℕ → ℕ → List ℕ
repeated zero c = []
repeated (suc n) c = c ∷ repeated n c

-- Sixty-four times `a`, and `b`.
abbrev client : List ℕ
client = repeated 64 97

abbrev digest : List ℕ
digest = repeated 64 98

-- A cursor of the overview as its offset in unary: `A` for each match, and a `B`.
abbrev spell : ℕ → List ℕ
spell zero = 66 ∷ []
spell (suc n) = 65 ∷ spell n

abbrev count_marks : List ℕ → ℕ
count_marks [] = 0
count_marks (c ∷ cs) = let rest = count_marks cs in if c == 65 then suc rest else rest

abbrev offset_of : Option Json → ℕ
offset_of (some (Json.number n)) = n
offset_of _ = 0

abbrev python : Python
python = record {
  prepare = λ text. text;
  is_alnum = λ c. not (c == 32);
  is_numeric = λ c. leb 48 c && leb c 57;
  is_space = λ c. c == 32;
  is_control = λ c. false;
  digest = λ ops. digest;
  encode64 = λ raw. raw;
  decode64 = some;
  dumps = λ pairs. spell (offset_of (value_of offset_key pairs));
  loads = λ raw. some (object_of (cursor_of client digest [] (count_marks raw)));
  size = λ r. 5000 * length r.results;
}

abbrev named : ℕ → Operation
named n = record {
  app = 120 ∷ [];
  operation = n ∷ [];
  version = 49 ∷ [];
  effect = 0;
  readiness = 0;
  title = 84 ∷ n ∷ [];
  description = [];
  required = [];
  properties = [];
  resources = [];
  human_fields = [];
}

abbrev catalog : List Operation
catalog = named 100 ∷ named 97 ∷ named 99 ∷ named 98 ∷ []

marks : (k : ℕ) → count_marks (spell k) ≡ k
marks zero = refl
marks (suc k) = ap suc (marks k)

spelled : (k : ℕ) → is_spelled (spell k) ≡ true
spelled zero = refl
spelled (suc k) = ground (arith, spelled k)

decodes :
    (k : ℕ)
    → python.loads (python.dumps (object_of (cursor_of client digest [] k)))
      ≡ some (object_of (cursor_of client digest [] k))
decodes k = ap (λ n. some (object_of (cursor_of client digest [] n))) (marks k)

follow_all_example :
    Covers (map (λ r. identity r.op) (search_for python client catalog [] false 0).matches) (
      follow python client catalog
        (length (search_for python client catalog [] false 0).matches)
        (context_page python catalog client none none))
follow_all_example =
    follow_all python client catalog [] (λ raw. refl) decodes spelled refl refl refl

-- A cursor whose object lacks a key, repeats one, has another schema or another type.
abbrev fields : List (Key × Json)
fields = object_of (cursor_of client digest [] 3)

refused :
    (read_object (take 5 fields) ≡ none)
    × (read_object (take 5 fields ++ take 1 fields) ≡ none)
    × (read_object ((schema_key, Json.text []) ∷ drop 1 fields) ≡ none)
    × (read_object (take 5 fields ++ (size_key, Json.other_value) ∷ []) ≡ none)
    × (read_object (fields ++ (other_key [], Json.other_value) ∷ []) ≡ none)
unfolding read_object
refused = (refl, refl, refl, refl, refl)

made : make_cursor python client digest [] 3 ≡ ok (spell 3)
unfolding make_cursor
made = refl

normalize_words_example :
    (normalize python.prepare python.is_alnum python.is_numeric (97 ∷ 32 ∷ 98 ∷ 49 ∷ [])
      ≡ prepared_words python.is_alnum python.is_numeric (python.prepare (97 ∷ 32 ∷ 98 ∷ 49 ∷ [])))
    × (flat (
          prepared_words python.is_alnum python.is_numeric
            (python.prepare (97 ∷ 32 ∷ 98 ∷ 49 ∷ [])))
        ≡ select python.is_alnum (python.prepare (97 ∷ 32 ∷ 98 ∷ 49 ∷ [])))
    × All
        (IsWord python.is_numeric)
        (prepared_words python.is_alnum python.is_numeric (python.prepare (97 ∷ 32 ∷ 98 ∷ 49 ∷ [])))
    × ((a b : List ℕ) (c : ℕ)
        → python.is_alnum c ≡ false
        → prepared_words python.is_alnum python.is_numeric (a ++ c ∷ b)
          ≡ prepared_words python.is_alnum python.is_numeric a
            ++ prepared_words python.is_alnum python.is_numeric b)
    × ((a b : List ℕ) (c d : ℕ)
        → python.is_alnum c ≡ true
        → python.is_alnum d ≡ true
        → python.is_numeric d ≡ not (python.is_numeric c)
        → prepared_words python.is_alnum python.is_numeric (a ++ c ∷ d ∷ b)
          ≡ prepared_words python.is_alnum python.is_numeric (a ++ c ∷ [])
            ++ prepared_words python.is_alnum python.is_numeric (d ∷ b))
    × ((n : Bool) (c : ℕ) (run : List ℕ)
        → All (λ d. (python.is_alnum d ≡ true) × (python.is_numeric d ≡ n)) (c ∷ run)
        → prepared_words python.is_alnum python.is_numeric (c ∷ run) ≡ (c ∷ run) ∷ [])
normalize_words_example =
    normalize_words python.prepare python.is_alnum python.is_numeric (97 ∷ 32 ∷ 98 ∷ 49 ∷ [])

abbrev shown_first : Shown
shown_first = record {
  op = (120 ∷ [], 97 ∷ [], 49 ∷ []);
  effect = 0;
  readiness = 0;
  title = 84 ∷ 97 ∷ [];
  description = [];
  required_inputs = [];
  resources = [];
  score = 0;
  fields_compacted = false;
}

abbrev page : Response
page = record {
  is_query = false;
  query = none;
  query_compacted = false;
  catalog_digest = digest;
  total_authorized_operations = 4;
  total_matches = 4;
  returned = 3;
  results =
      shown_first
      ∷ record shown_first { op = (120 ∷ [], 98 ∷ [], 49 ∷ []); title = 84 ∷ 98 ∷ [] }
      ∷ record shown_first { op = (120 ∷ [], 99 ∷ [], 49 ∷ []); title = 84 ∷ 99 ∷ [] }
      ∷ [];
  next_cursor = some (65 ∷ 65 ∷ 65 ∷ 66 ∷ []);
}

first_page : context_page python catalog client none none ≡ ok page
unfolding context_page overview fit first_fit respond continue_at make_cursor project rank sort
    insert comes_before leb_identity score_of
first_page = refl

pages-IsBounded_example : IsBounded python page
pages-IsBounded_example = pages-IsBounded python catalog client none none page first_page

-- The walk of the example is complete after a second page.
whole_walk :
    (xs : List Shown) × (follow python client catalog 4
        (context_page python catalog client none none)
      ≡ Walk.complete xs)
unfolding follow cursor_page decode_cursor read read_object context_page overview fit first_fit
    respond continue_at make_cursor project rank sort insert comes_before leb_identity score_of
whole_walk = (_, refl)

accepts : decode_cursor python (spell 3) ≡ ok (cursor_of client digest [] 3)
unfolding decode_cursor read read_object
accepts = refl

decoded_canonical_example :
    ((raw : List ℕ) × (python.decode64 (spell 3) ≡ some raw) × (python.encode64 raw ≡ spell 3))
    × (length (spell 3) ≤ 16384)
    × (1 ≤ 3)
    × (page_size ≡ 8)
    × (0 ≤ 2048)
    × (any python.is_control [] ≡ false)
    × ((is_digest client && is_digest digest) ≡ true)
decoded_canonical_example =
    decoded_canonical python (spell 3) (cursor_of client digest [] 3) accepts
