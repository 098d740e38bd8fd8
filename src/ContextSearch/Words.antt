-- ===== src/ContextSearch/Words.antt =====
-- What the words of `normalize` of src/capy_outcome_runtime/context_search.py are.
use mathlib.Core.Path.{subst}
use mathlib.Core.List.{append-nil, append_assoc}
use capy_outcome_runtime_pub.ContextSearch.Text.{
  Reader, is_empty, same_bool, flush, read_char, read_all, normalize,
}
use capy_outcome_runtime_pub.ContextSearch.Splits.{
  prepared_words, split_separator, split_kinds, keep_run,
}
use capy_outcome_runtime_pub.Table.{select, All}
use capy_outcome_runtime_pub.Table.Laws.{All-append}
use capy_outcome_runtime_pub.Prelude.{
  ℕ, ◌≡◌, refl, sym, ◌∙◌, ap, Bool, true, false, not, ◌||◌, List, [], ◌∷◌, ◌++◌, if◌then◌else◌,
  Bool-cases, inl, inr, arith,
}

-- The texts one behind the other.
abbrev pub flat : List (List ℕ) → List ℕ
flat [] = []
flat (t ∷ ts) = t ++ flat ts

module _ (is_numeric : ℕ → Bool) where
  abbrev pub IsRun : Bool → List ℕ → Type 0
  IsRun b t = All (λ d. is_numeric d ≡ b) t

  -- A word has a character, and all of them are numeric or none is.
  abbrev pub IsWord : List ℕ → Type 0
  IsWord t = (is_empty t ≡ false) × ((b : Bool) × IsRun b t)

flat-snoc : (ts : List (List ℕ)) (t : List ℕ) → flat (ts ++ t ∷ []) ≡ flat ts ++ t
flat-snoc [] t = append-nil t
flat-snoc (u ∷ ts) t =
    ap (λ (x : List ℕ). u ++ x) (flat-snoc ts t) ∙ sym (append_assoc u (flat ts) t)

flat-flush : (ts : List (List ℕ)) (t : List ℕ) → flat (flush ts t) ≡ flat ts ++ t
flat-flush ts [] = sym (append-nil (flat ts))
flat-flush ts (c ∷ cs) = flat-snoc ts (c ∷ cs)

front : (a b : Bool) → (a || b) ≡ false → a ≡ false
front a b h = ground arith

kept_char :
    (xs : List ℕ) (c : ℕ) (t : Bool) (rest : List ℕ)
    → xs ++ (if t then c ∷ [] else []) ++ rest ≡ xs ++ (if t then c ∷ rest else rest)
kept_char xs c true rest = append_assoc xs (c ∷ []) rest
kept_char xs c false rest = ap (λ (t : List ℕ). t ++ rest) (append-nil xs)

module _ (prepare : List ℕ → List ℕ) (is_alnum is_numeric : ℕ → Bool) where
  abbrev pub so_far : Reader → List ℕ
  so_far r = flat r.tokens ++ r.current

  abbrev pub IsRead : Reader → Type 0
  IsRead r = All (IsWord is_numeric) r.tokens × IsRun is_numeric r.numeric r.current

  flush-words :
      (ts : List (List ℕ)) (b : Bool) (t : List ℕ)
      → All (IsWord is_numeric) ts
      → IsRun is_numeric b t
      → All (IsWord is_numeric) (flush ts t)
  flush-words ts b [] a run = a
  flush-words ts b (c ∷ cs) a run =
      All-append (IsWord is_numeric) ts ((c ∷ cs) ∷ []) a ((refl, (b, run)), tt)

  -- One character more.
  read_char-so_far :
      (r : Reader) (c : ℕ)
      → so_far (read_char prepare is_alnum is_numeric r c)
        ≡ so_far r ++ (if is_alnum c then c ∷ [] else [])
  unfolding read_char
  read_char-so_far r c = elim (Bool-cases (is_alnum c)) [
    | inl e ↦ elim (Bool-cases (is_empty r.current || same_bool (is_numeric c) r.numeric)) [
      | inl f ↦ rw (e, f) (sym (append_assoc (flat r.tokens) r.current (c ∷ [])))
      | inr f ↦ rw (e, f) (ap (λ (t : List ℕ). t ++ c ∷ []) (flat-snoc r.tokens r.current))
    ]
    | inr e ↦ rw e (
        append-nil (flat (flush r.tokens r.current))
        ∙ flat-flush r.tokens r.current
        ∙ sym (append-nil (so_far r)))
  ]

  same_kind : (b c : Bool) → same_bool b c ≡ true → c ≡ b
  same_kind true c h = h
  same_kind false true h = cc
  same_kind false false h = refl

  grow-IsRun :
      (b n : Bool) (t : List ℕ) (c : ℕ)
      → IsRun is_numeric b t
      → (is_empty t || same_bool n b) ≡ true
      → is_numeric c ≡ n
      → IsRun is_numeric n (t ++ c ∷ [])
  grow-IsRun b n [] c run h e = (e, tt)
  grow-IsRun b n (d ∷ t) c run h e =
      All-append (λ x. is_numeric x ≡ n) (d ∷ t) (c ∷ [])
        (subst (λ x. IsRun is_numeric x (d ∷ t)) (same_kind n b h) run) (e, tt)

  read_char-IsRead :
      (r : Reader) (c : ℕ) → IsRead r → IsRead (read_char prepare is_alnum is_numeric r c)
  unfolding read_char
  read_char-IsRead r c (a, run) = elim (Bool-cases (is_alnum c)) [
    | inl e ↦ elim (Bool-cases (is_empty r.current || same_bool (is_numeric c) r.numeric)) [
      | inl f ↦ rw (e, f) (a, grow-IsRun r.numeric (is_numeric c) r.current c run f refl)
      | inr f ↦
          rw (e, f)
            (
              All-append (IsWord is_numeric) r.tokens (r.current ∷ []) a
                  ((front (is_empty r.current) _ f, (r.numeric, run)), tt),
              (refl, tt),
            )
    ]
    | inr e ↦ rw e (flush-words r.tokens r.numeric r.current a run, tt)
  ]

  read_all-lem :
      (cs : List ℕ) (r : Reader)
      → IsRead r
      → IsRead (read_all prepare is_alnum is_numeric r cs)
        × (so_far (read_all prepare is_alnum is_numeric r cs) ≡ so_far r ++ select is_alnum cs)
  unfolding read_all select
  read_all-lem [] r h = (h, sym (append-nil (so_far r)))
  read_all-lem (c ∷ cs) r h =
      let (a, b) =
        read_all-lem cs (read_char prepare is_alnum is_numeric r c) (read_char-IsRead r c h) in
      (
        a,
        b
            ∙ ap (λ (t : List ℕ). t ++ select is_alnum cs) (read_char-so_far r c)
            ∙ kept_char (so_far r) c (is_alnum c) (select is_alnum cs),
      )

  same_reading :
      (r : Reader) (cs : List ℕ)
      → read_all prepare is_alnum is_numeric r cs ≡ read_all (λ t. t) is_alnum is_numeric r cs
  unfolding read_all read_char
  same_reading r [] = refl
  same_reading r (c ∷ cs) = same_reading (read_char prepare is_alnum is_numeric r c) cs

  same_words :
      (text : List ℕ)
      → normalize prepare is_alnum is_numeric text
        ≡ prepared_words is_alnum is_numeric (prepare text)
  unfolding normalize
  same_words text =
      ap (λ (r : Reader). flush r.tokens r.current)
        (same_reading (record { tokens = []; current = []; numeric = false }) (prepare text))

  words_lem :
      (text : List ℕ)
      → (flat (normalize prepare is_alnum is_numeric text) ≡ select is_alnum (prepare text))
        × All (IsWord is_numeric) (normalize prepare is_alnum is_numeric text)
  unfolding normalize
  words_lem text =
      let r =
        read_all prepare is_alnum is_numeric (record { tokens = []; current = []; numeric = false })
          (prepare text) in
      let (a, b) =
        read_all-lem (prepare text) (record { tokens = []; current = []; numeric = false })
          (tt, tt) in
      (flat-flush r.tokens r.current ∙ b, flush-words r.tokens r.numeric r.current a.0 a.1)

  other_kind : (n m : Bool) → n ≡ not m → same_bool n m ≡ false
  other_kind n m h = ground arith

  -- The words of a text are those of its prepared form: one behind the other they are its alphanumeric
  -- characters in their order; every word has a character, and all its characters are numeric or
  -- none is; a word ends where a character is not alphanumeric and where a numeric and another
  -- character stand beside each other, and nowhere else: alphanumeric characters of one kind are
  -- one word.
  pub normalize_words :
      (text : List ℕ)
      → (normalize prepare is_alnum is_numeric text
          ≡ prepared_words is_alnum is_numeric (prepare text))
        × (flat (prepared_words is_alnum is_numeric (prepare text))
            ≡ select is_alnum (prepare text))
        × All (IsWord is_numeric) (prepared_words is_alnum is_numeric (prepare text))
        × ((a b : List ℕ) (c : ℕ)
            → is_alnum c ≡ false
            → prepared_words is_alnum is_numeric (a ++ c ∷ b)
              ≡ prepared_words is_alnum is_numeric a ++ prepared_words is_alnum is_numeric b)
        × ((a b : List ℕ) (c d : ℕ)
            → is_alnum c ≡ true
            → is_alnum d ≡ true
            → is_numeric d ≡ not (is_numeric c)
            → prepared_words is_alnum is_numeric (a ++ c ∷ d ∷ b)
              ≡ prepared_words is_alnum is_numeric (a ++ c ∷ [])
                ++ prepared_words is_alnum is_numeric (d ∷ b))
        × ((n : Bool) (c : ℕ) (run : List ℕ)
            → All (λ d. (is_alnum d ≡ true) × (is_numeric d ≡ n)) (c ∷ run)
            → prepared_words is_alnum is_numeric (c ∷ run) ≡ (c ∷ run) ∷ [])
  normalize_words text = (
    same_words text,
    ap flat (sym (same_words text)) ∙ (words_lem text).0,
    subst (All (IsWord is_numeric)) (same_words text) (words_lem text).1,
    split_separator is_alnum is_numeric,
    λ a b c d e f g.
        split_kinds is_alnum is_numeric a b c d e f (other_kind (is_numeric d) (is_numeric c) g),
    keep_run is_alnum is_numeric,
  )
