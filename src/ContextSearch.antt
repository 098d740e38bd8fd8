-- ===== src/ContextSearch.antt =====
-- src/capy_outcome_runtime/context_search.py: the pages of a search over the authorized operations.
pub mod Text
pub mod Rank
mod Codec
pub mod Pages
pub mod Walk
mod Decoding
mod Splits
pub mod Words
mod Tests
pub use Codec.{Cursor, Key, Json, object_of}
use Codec.{read_object}
use capy_outcome_runtime_pub.ContextSearch.Text.{is_empty, normalize}
use capy_outcome_runtime_pub.ContextSearch.Rank.{
  Field, same_text, Operation, Ranked, any, join, rank,
}
use capy_outcome_runtime_pub.Prelude.{
  ℕ, zero, suc, ◌+◌, ◌-◌, min, Bool, true, false, not, ◌&&◌, ◌||◌, Option, none, some, String, List,
  [], ◌∷◌, ◌++◌, map, take, drop, length, if◌then◌else◌, is_none, ◌==◌, ltb, leb, Result, ok, err,
  ◌>>=◌, ◌>>◌, guard, require,
}

-- One element of `results`.
pub record Shown : Type 0 where
  pub op : List ℕ × List ℕ × List ℕ
  pub effect : ℕ
  pub readiness : ℕ
  pub title : List ℕ
  pub description : List ℕ
  pub required_inputs : List (List ℕ)
  pub resources : List (List ℕ)
  pub score : ℕ
  pub fields_compacted : Bool

pub record Response : Type 0 where
  pub is_query : Bool
  pub query : Option (List ℕ)
  pub query_compacted : Bool
  pub catalog_digest : List ℕ
  pub total_authorized_operations : ℕ
  pub total_matches : ℕ
  pub returned : ℕ
  pub results : List Shown
  pub next_cursor : Option (List ℕ)

abbrev pub page_size : ℕ
page_size = 8

abbrev pub max_response_bytes : ℕ
max_response_bytes = 16384

abbrev pub max_query : ℕ
max_query = 2048

abbrev pub max_cursor : ℕ
max_cursor = 16384

abbrev pub identity : Operation → List ℕ × List ℕ × List ℕ
identity op = (op.app, op.operation, op.version)

abbrev pub all {ℓ} : {A : Type ℓ} → (A → Bool) → List A → Bool
all p [] = true
all p (x ∷ xs) = p x && all p xs

-- `[A-Za-z0-9_-]`
abbrev pub is_cursor_char : ℕ → Bool
is_cursor_char c =
    leb 65 c && leb c 90 || leb 97 c && leb c 122 || leb 48 c && leb c 57 || c == 95 || c == 45

-- `[a-f0-9]{64}`
abbrev pub is_digest : List ℕ → Bool
is_digest text = length text == 64 && all (λ c. leb 97 c && leb c 102 || leb 48 c && leb c 57) text

-- `text` and `names` of `_projection`, and whether they shorten.
abbrev pub is_long {ℓ} : {A : Type ℓ} → ℕ → List A → Bool
is_long limit text = ltb limit (length text)

abbrev pub any_long : ℕ → List (List ℕ) → Bool
any_long limit [] = false
any_long limit (t ∷ ts) = is_long limit t || any_long limit ts

abbrev pub names : ℕ → List (List ℕ) → List (List ℕ)
names limit values = map (take limit) (take 8 values)

-- `_projection`
unfoldable pub project : ℕ → Ranked → Shown
project limit r = record {
  op = identity r.op;
  effect = r.op.effect;
  readiness = r.op.readiness;
  title = take limit r.op.title;
  description = take limit r.op.description;
  required_inputs = names limit r.op.required;
  resources = names limit (map (λ f. f.name) r.op.resources);
  score = r.score;
  fields_compacted =
      is_long limit r.op.title
      || is_long limit r.op.description
      || is_long 8 r.op.required
      || any_long limit (take 8 r.op.required)
      || is_long 8 r.op.resources
      || any_long limit (take 8 (map (λ f. f.name) r.op.resources));
}

abbrev pub limits : List ℕ
limits = 240 ∷ 120 ∷ 60 ∷ 24 ∷ 0 ∷ []

-- The state of a request once its arguments are read.
pub record Search : Type 0 where
  pub client : List ℕ
  pub catalog_digest : List ℕ
  pub authorized : ℕ
  pub query : List ℕ
  pub is_query : Bool
  pub tokens : List (List ℕ)
  pub offset : ℕ
  pub matches : List Ranked

-- What the module takes from Python: the text functions of `normalize`, the tests `str.isspace` and
-- of a control category, the catalog's SHA-256, URL-safe base64 without its padding, JSON as bytes
-- (`loads` has the pairs of an object, and nothing where the bytes are no object or one inside it
-- repeats a key), and the length in bytes of a response's JSON.
pub record Python : Type 0 where
  pub prepare : List ℕ → List ℕ
  pub is_alnum : ℕ → Bool
  pub is_numeric : ℕ → Bool
  pub is_space : ℕ → Bool
  pub is_control : ℕ → Bool
  pub digest : List Operation → List ℕ
  pub encode64 : List ℕ → List ℕ
  pub decode64 : List ℕ → Option (List ℕ)
  pub dumps : List (Key × Json) → List ℕ
  pub loads : List ℕ → Option (List (Key × Json))
  pub size : Response → ℕ

abbrev pub or_shorter {ℓ} : {A : Type ℓ} → Option A → Result A → Result A
or_shorter (some r) shorter = ok r
or_shorter none shorter = shorter

module _ (py : Python) where
  abbrev pub read_json : Option (List (Key × Json)) → Option Cursor
  read_json none = none
  read_json (some pairs) = read_object pairs

  -- The text of a cursor is canonical: its bytes are encoded as it again.
  abbrev pub read_bytes : List ℕ → Option (List ℕ) → Option Cursor
  read_bytes cursor none = none
  read_bytes cursor (some raw) =
      if same_text (py.encode64 raw) cursor then read_json (py.loads raw) else none

  unfoldable pub read : List ℕ → Option Cursor
  unfolding read_object
  read cursor = read_bytes cursor (py.decode64 cursor)

  abbrev pub encode : Cursor → List ℕ
  encode c = py.encode64 (py.dumps (object_of c))

  -- `decode_cursor`
  unfoldable pub decode_cursor : List ℕ → Result Cursor
  decode_cursor cursor = do
    guard (leb 1 (length cursor) && leb (length cursor) max_cursor && all is_cursor_char cursor)
        "CORE_CONTEXT_CURSOR_INVALID"
    c ← require (read cursor) "CORE_CONTEXT_CURSOR_INVALID"
    guard (leb 1 c.offset && c.page_size == page_size && leb (length c.query) max_query)
        "CORE_CONTEXT_CURSOR_INVALID"
    guard (is_digest c.client && is_digest c.catalog_digest && not (any py.is_control c.query))
        "CORE_CONTEXT_CURSOR_INVALID"
    ok c

  -- `_cursor`
  unfoldable pub make_cursor : List ℕ → List ℕ → List ℕ → ℕ → Result (List ℕ)
  make_cursor client digest query offset = do
    let text = encode (record {
      client = client;
      catalog_digest = digest;
      query = query;
      offset = offset;
      page_size = page_size;
    })
    guard (leb (length text) max_cursor) "CORE_CONTEXT_CURSOR_TOO_LARGE"
    ok text

  -- `response.update(...)` on `dict(envelope, ...)`
  unfoldable pub respond : Search → ℕ → Option (List ℕ) → ℕ → Response
  unfolding project
  respond q count continuation limit = record {
    is_query = q.is_query;
    query = if q.is_query then some (take 240 (join q.tokens)) else none;
    query_compacted = ltb 240 (length (join q.tokens));
    catalog_digest = q.catalog_digest;
    total_authorized_operations = q.authorized;
    total_matches = length q.matches;
    returned = count;
    results = map (project limit) (take count (drop q.offset q.matches));
    next_cursor = continuation;
  }

  -- The loop over the limits.
  unfoldable pub first_fit : List ℕ → (ℕ → Response) → Option Response
  first_fit [] at_limit = none
  first_fit (l ∷ ls) at_limit =
      let rest = first_fit ls at_limit in
      if leb (py.size (at_limit l)) max_response_bytes then some (at_limit l) else rest

  -- The cursor behind the page, if a match is left.
  unfoldable pub continue_at : Search → ℕ → Result (Option (List ℕ))
  unfolding make_cursor
  continue_at q end =
      if ltb end (length q.matches)
      then (make_cursor q.client q.catalog_digest q.query end >>= λ text. ok (some text))
      else ok none

  -- The loop over `count`; the loop breaks at 0 if there are matches.
  unfoldable pub fit : Search → ℕ → Result Response
  unfolding continue_at first_fit respond
  fit q zero = do
    guard (is_empty q.matches) "CORE_CONTEXT_RESPONSE_TOO_LARGE"
    next ← continue_at q (q.offset + 0)
    require (first_fit limits (respond q 0 next)) "CORE_CONTEXT_RESPONSE_TOO_LARGE" >>= ok
  fit q (suc n) = do
    next ← continue_at q (q.offset + suc n)
    let shorter = fit q n
    or_shorter (first_fit limits (respond q (suc n) next)) shorter

  -- `matches`, from the words of the query.
  abbrev pub matches_of : List Operation → Bool → List (List ℕ) → List Ranked
  matches_of ops is_query tokens =
      if not (is_empty tokens) || not is_query
      then rank py.prepare py.is_alnum py.is_numeric ops tokens
      else []

  abbrev pub search_for : List ℕ → List Operation → List ℕ → Bool → ℕ → Search
  search_for client ops query is_query offset =
      let tokens =
        if is_empty query then [] else normalize py.prepare py.is_alnum py.is_numeric query in
      record {
        client = client;
        catalog_digest = py.digest ops;
        authorized = length ops;
        query = query;
        is_query = is_query;
        tokens = tokens;
        offset = offset;
        matches = matches_of ops is_query tokens;
      }

  -- `context_page`, by its three kinds of request.
  unfoldable pub overview : List ℕ → List Operation → Result Response
  unfolding fit
  overview client ops =
      let q = search_for client ops [] false 0 in fit q (min page_size (length q.matches))

  unfoldable pub query_page : List ℕ → List Operation → List ℕ → Result Response
  unfolding fit
  query_page client ops query = do
    guard (leb 1 (length query) && leb (length query) max_query) "CORE_CONTEXT_QUERY_INVALID"
    guard (any (λ c. not (py.is_space c)) query && not (any py.is_control query))
        "CORE_CONTEXT_QUERY_INVALID"
    let q = search_for client ops query true 0
    fit q (min page_size (length q.matches))

  unfoldable pub cursor_page : List ℕ → List Operation → List ℕ → Result Response
  unfolding decode_cursor fit
  cursor_page client ops cursor = do
    c ← decode_cursor cursor
    guard (same_text c.client client && same_text c.catalog_digest (py.digest ops))
        "CORE_CONTEXT_STALE"
    let q = search_for client ops c.query (not (is_empty c.query)) c.offset
    guard (ltb c.offset (length q.matches)) "CORE_CONTEXT_CURSOR_INVALID"
    fit q (min page_size (length q.matches - c.offset))

  unfoldable pub context_page :
      List Operation → List ℕ → Option (List ℕ) → Option (List ℕ) → Result Response
  unfolding overview query_page cursor_page
  context_page ops client (some query) (some cursor) = err "CORE_CONTEXT_REQUEST_INVALID"
  context_page ops client (some query) none = query_page client ops query
  context_page ops client none (some cursor) = cursor_page client ops cursor
  context_page ops client none none = overview client ops
