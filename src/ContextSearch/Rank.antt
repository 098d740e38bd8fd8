-- ===== src/ContextSearch/Rank.antt =====
-- `rank` of src/capy_outcome_runtime/context_search.py. Scores are counted in halves.
use capy_outcome_runtime_pub.ContextSearch.Text.{is_empty, normalize}
use capy_outcome_runtime_pub.Prelude.{
  ℕ, ◌+◌, ◌*◌, Bool, true, false, not, ◌&&◌, ◌||◌, List, [], ◌∷◌, ◌++◌, take, length, if◌then◌else◌,
  ◌==◌, ltb, leb,
}

-- A missing key is the empty text, as the `get` calls have it.
pub record Field : Type 0 where
  pub name : List ℕ
  pub field : List ℕ
  pub label : List ℕ

pub record Property : Type 0 where
  pub name : List ℕ
  pub description : List ℕ

pub record Operation : Type 0 where
  pub app : List ℕ
  pub operation : List ℕ
  pub version : List ℕ
  pub effect : ℕ
  pub readiness : ℕ
  pub title : List ℕ
  pub description : List ℕ
  pub required : List (List ℕ)
  pub properties : List Property
  pub resources : List Field
  pub human_fields : List Field

abbrev pub same_text : List ℕ → List ℕ → Bool
same_text [] [] = true
same_text (a ∷ xs) (b ∷ ys) = a == b && same_text xs ys
same_text _ _ = false

-- Python's order on `str`, and on the tuple `identity(op)`.
abbrev pub leb_text : List ℕ → List ℕ → Bool
leb_text [] bs = true
leb_text (a ∷ xs) [] = false
leb_text (a ∷ xs) (b ∷ ys) = ltb a b || a == b && leb_text xs ys

unfoldable pub leb_identity : Operation → Operation → Bool
leb_identity o p =
    if same_text o.app p.app
    then if same_text o.operation p.operation
      then leb_text o.version p.version
      else leb_text o.operation p.operation
    else leb_text o.app p.app

abbrev pub starts_with : List ℕ → List ℕ → Bool
starts_with [] word = true
starts_with (c ∷ cs) [] = false
starts_with (c ∷ cs) (d ∷ ds) = c == d && starts_with cs ds

abbrev pub any {ℓ} : {A : Type ℓ} → (A → Bool) → List A → Bool
any p [] = false
any p (x ∷ xs) = p x || any p xs

-- `set(tokens)`
abbrev pub distinct : List (List ℕ) → List (List ℕ)
distinct [] = []
distinct (t ∷ ts) = let rest = distinct ts in if any (same_text t) ts then rest else t ∷ rest

-- `' '.join(values)`
abbrev pub join : List (List ℕ) → List ℕ
join [] = []
join (t ∷ []) = t
join (t ∷ u ∷ us) = t ++ 32 ∷ join (u ∷ us)

-- What a token of the query adds for one group.
abbrev pub gain : ℕ → List (List ℕ) → List ℕ → ℕ
gain weight words token =
    if any (same_text token) words
    then 2 * weight
    else if leb 3 (length token) && any (starts_with token) words
    then weight
    else 0

abbrev pub sum_gains : ℕ → List (List ℕ) → List (List ℕ) → ℕ
sum_gains weight words [] = 0
sum_gains weight words (t ∷ ts) = gain weight words t + sum_gains weight words ts

-- `any(title[i:i+len(tokens)] == tokens for i in range(len(title)))`
abbrev pub same_texts : List (List ℕ) → List (List ℕ) → Bool
same_texts [] [] = true
same_texts (a ∷ xs) (b ∷ ys) = same_text a b && same_texts xs ys
same_texts _ _ = false

abbrev pub has_run : List (List ℕ) → List (List ℕ) → Bool
has_run tokens [] = false
has_run tokens (w ∷ ws) = same_texts (take (length tokens) (w ∷ ws)) tokens || has_run tokens ws

abbrev pub property_texts : List Property → List (List ℕ)
property_texts [] = []
property_texts (p ∷ ps) = p.name ∷ p.description ∷ property_texts ps

abbrev pub field_texts : List Field → List (List ℕ)
field_texts [] = []
field_texts (f ∷ fs) = f.name ∷ f.field ∷ f.label ∷ field_texts fs

pub record Ranked : Type 0 where
  pub op : Operation
  pub score : ℕ

-- `(-item[1], identity(item[0]))`
unfoldable pub comes_before : Ranked → Ranked → Bool
comes_before a b = if a.score == b.score then leb_identity a.op b.op else ltb b.score a.score

-- `sorted`, which is stable.
unfoldable pub insert : Ranked → List Ranked → List Ranked
insert r [] = r ∷ []
insert r (s ∷ ss) = let rest = insert r ss in if comes_before r s then r ∷ s ∷ ss else s ∷ rest

unfoldable pub sort : List Ranked → List Ranked
sort [] = []
sort (r ∷ rs) = insert r (sort rs)

module _ (prepare : List ℕ → List ℕ) (is_alnum is_numeric : ℕ → Bool) where
  abbrev pub words_of : List (List ℕ) → List (List ℕ)
  words_of values = normalize prepare is_alnum is_numeric (join values)

  unfoldable pub score_of : List (List ℕ) → Operation → ℕ
  score_of tokens op =
      let asked = distinct tokens in
      sum_gains 8 (words_of (op.title ∷ [])) asked
      + sum_gains 6 (words_of (op.app ∷ op.operation ∷ [])) asked
      + sum_gains 4 (words_of (op.description ∷ [])) asked
      + sum_gains 3 (words_of (op.required ++ property_texts op.properties)) asked
      + sum_gains 2 (words_of (field_texts (op.resources ++ op.human_fields))) asked
      + (if not (is_empty tokens) && has_run tokens (normalize prepare is_alnum is_numeric op.title)
          then 32
          else 0)

  abbrev pub scored : List (List ℕ) → List Operation → List Ranked
  scored tokens [] = []
  scored tokens (op ∷ ops) =
      let rest = scored tokens ops in
      let score = score_of tokens op in
      if is_empty tokens || ltb 0 score then record { op = op; score = score } ∷ rest else rest

  unfoldable pub rank : List Operation → List (List ℕ) → List Ranked
  unfolding sort
  rank ops tokens = sort (scored tokens ops)
