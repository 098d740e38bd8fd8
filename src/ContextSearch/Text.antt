-- ===== src/ContextSearch/Text.antt =====
-- `normalize` of src/capy_outcome_runtime/context_search.py: the words of a text. A text is the list of
-- its characters' code points.
use capy_outcome_runtime_pub.Prelude.{
  ℕ, Bool, true, false, not, ◌||◌, List, [], ◌∷◌, ◌++◌, if◌then◌else◌,
}

-- The local variables of the loop: `numeric` matters only beside a current token.
pub record Reader : Type 0 where
  pub tokens : List (List ℕ)
  pub current : List ℕ
  pub numeric : Bool

abbrev pub is_empty {ℓ} : {A : Type ℓ} → List A → Bool
is_empty [] = true
is_empty (_ ∷ _) = false

abbrev pub same_bool : Bool → Bool → Bool
same_bool true b = b
same_bool false b = not b

-- `if current: tokens.append(current)`
abbrev pub flush : List (List ℕ) → List ℕ → List (List ℕ)
flush tokens [] = tokens
flush tokens (c ∷ cs) = tokens ++ (c ∷ cs) ∷ []

-- `prepare` is the NFKC normalization, the two `re.sub` and `casefold`.
module _ (prepare : List ℕ → List ℕ) (is_alnum is_numeric : ℕ → Bool) where
  -- One turn of the loop.
  unfoldable pub read_char : Reader → ℕ → Reader
  read_char r c =
      if is_alnum c
      then if is_empty r.current || same_bool (is_numeric c) r.numeric
        then record r { current = r.current ++ c ∷ []; numeric = is_numeric c }
        else record {
          tokens = r.tokens ++ r.current ∷ [];
          current = c ∷ [];
          numeric = is_numeric c;
        }
      else record r { tokens = flush r.tokens r.current; current = [] }

  unfoldable pub read_all : Reader → List ℕ → Reader
  read_all r [] = r
  read_all r (c ∷ cs) = read_all (read_char r c) cs

  unfoldable pub normalize : List ℕ → List (List ℕ)
  normalize text =
      let r = read_all (record { tokens = []; current = []; numeric = false }) (prepare text) in
      flush r.tokens r.current
