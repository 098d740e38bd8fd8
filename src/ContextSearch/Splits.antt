-- ===== src/ContextSearch/Splits.antt =====
-- Where `normalize` of src/capy_outcome_runtime/context_search.py ends a word and where it does not.
use mathlib.Core.List.{append-nil, append_assoc}
use capy_outcome_runtime_pub.ContextSearch.Text.{
  Reader, is_empty, same_bool, flush, read_char, read_all, normalize,
}
use capy_outcome_runtime_pub.Table.{All}
use capy_outcome_runtime_pub.Prelude.{
  ℕ, ◌≡◌, refl, sym, ◌∙◌, ap, Bool, true, false, ◌||◌, List, [], ◌∷◌, ◌++◌, Bool-cases, inl, inr,
  arith,
}

flush-append : (xs ys : List (List ℕ)) (t : List ℕ) → flush (xs ++ ys) t ≡ xs ++ flush ys t
flush-append xs ys [] = refl
flush-append xs ys (c ∷ cs) = append_assoc xs ys ((c ∷ cs) ∷ [])

module _ (is_alnum is_numeric : ℕ → Bool) where
  -- The reader of `normalize`, on a text that is prepared already.
  abbrev read : Reader → List ℕ → Reader
  read = read_all (λ t. t) is_alnum is_numeric

  abbrev read_one : Reader → ℕ → Reader
  read_one = read_char (λ t. t) is_alnum is_numeric

  abbrev ended : Reader → List (List ℕ)
  ended r = flush r.tokens r.current

  -- The words of a prepared text.
  abbrev pub prepared_words : List ℕ → List (List ℕ)
  prepared_words = normalize (λ t. t) is_alnum is_numeric

  read-append : (r : Reader) (a b : List ℕ) → read r (a ++ b) ≡ read (read r a) b
  unfolding read_all
  read-append r [] b = refl
  read-append r (c ∷ a) b = read-append (read_one r c) a b

  -- The words so far stay in front.
  after_tokens :
      (ts : List (List ℕ)) (r : Reader) (c : ℕ)
      → read_one (record r { tokens = ts ++ r.tokens }) c
        ≡ record (read_one r c) { tokens = ts ++ (read_one r c).tokens }
  unfolding read_char
  after_tokens ts r c = elim (Bool-cases (is_alnum c)) [
    | inl e ↦ elim (Bool-cases (is_empty r.current || same_bool (is_numeric c) r.numeric)) [
      | inl f ↦ rw (e, f) refl
      | inr f ↦
          rw (e, f)
            (ap
              (λ (x : List (List ℕ)). record {
                tokens = x;
                current = c ∷ [];
                numeric = is_numeric c;
              })
              (append_assoc ts r.tokens (r.current ∷ [])))
    ]
    | inr e ↦ rw e (
        ap (λ (x : List (List ℕ)). record { tokens = x; current = []; numeric = r.numeric })
          (flush-append ts r.tokens r.current))
  ]

  ended-tokens :
      (ts : List (List ℕ)) (r : Reader) (b : List ℕ)
      → ended (read (record r { tokens = ts ++ r.tokens }) b) ≡ ts ++ ended (read r b)
  unfolding read_all
  ended-tokens ts r [] = flush-append ts r.tokens r.current
  ended-tokens ts r (c ∷ b) =
      ap (λ (x : Reader). ended (read x b)) (after_tokens ts r c) ∙ ended-tokens ts (read_one r c) b

  abbrev fresh : Bool → Reader
  fresh n = record { tokens = []; current = []; numeric = n }

  -- One character, by its kind.
  one_first :
      (n : Bool) (c : ℕ)
      → is_alnum c ≡ true
      → read_one (fresh n) c ≡ record { tokens = []; current = c ∷ []; numeric = is_numeric c }
  unfolding read_char
  one_first n c e = rw e refl

  one_separator :
      (r : Reader) (c : ℕ)
      → is_alnum c ≡ false
      → read_one r c ≡ record r { tokens = ended r; current = [] }
  unfolding read_char
  one_separator r c e = rw e refl

  -- Between words the kind of the last one does not matter.
  fresh-prepared_words : (n : Bool) (b : List ℕ) → ended (read (fresh n) b) ≡ prepared_words b
  unfolding read_all normalize
  fresh-prepared_words n [] = refl
  fresh-prepared_words n (c ∷ b) = elim (Bool-cases (is_alnum c)) [
    | inl e ↦
        ap (λ (x : Reader). ended (read x b)) (one_first n c e)
        ∙ sym (ap (λ (x : Reader). ended (read x b)) (one_first false c e))
    | inr e ↦
        ap (λ (x : Reader). ended (read x b)) (one_separator (fresh n) c e)
        ∙ fresh-prepared_words n b
        ∙ sym (fresh-prepared_words false b)
        ∙ sym (ap (λ (x : Reader). ended (read x b)) (one_separator (fresh false) c e))
  ]

  -- Reading on after a word.
  resumed :
      (ts : List (List ℕ)) (n : Bool) (b : List ℕ)
      → ended (read (record { tokens = ts; current = []; numeric = n }) b) ≡ ts ++ prepared_words b
  resumed ts n b =
      ap (λ (x : List (List ℕ)). ended (read (record { tokens = x; current = []; numeric = n }) b))
        (sym (append-nil ts))
      ∙ ended-tokens ts (fresh n) b
      ∙ ap (λ (x : List (List ℕ)). ts ++ x) (fresh-prepared_words n b)

  -- A character that is not alphanumeric ends a word and is in none.
  pub split_separator :
      (a b : List ℕ) (c : ℕ)
      → is_alnum c ≡ false
      → prepared_words (a ++ c ∷ b) ≡ prepared_words a ++ prepared_words b
  unfolding normalize read_all
  split_separator a b c e =
      let r = read (fresh false) a in
      ap ended (read-append (fresh false) a (c ∷ b))
      ∙ ap (λ (x : Reader). ended (read x b)) (one_separator r c e)
      ∙ resumed (ended r) r.numeric b

  -- A reader inside a word of one kind.
  abbrev IsInside : Bool → Reader → Type 0
  IsInside n r = (is_empty r.current ≡ false) × (r.numeric ≡ n)

  not_empty : (t : List ℕ) (c : ℕ) → is_empty (t ++ c ∷ []) ≡ false
  not_empty [] c = refl
  not_empty (d ∷ t) c = refl

  one-IsInside : (r : Reader) (c : ℕ) → is_alnum c ≡ true → IsInside (is_numeric c) (read_one r c)
  unfolding read_char
  one-IsInside r c e =
      elim (Bool-cases (is_empty r.current || same_bool (is_numeric c) r.numeric)) [
        | inl f ↦ rw (e, f) (not_empty r.current c, refl)
        | inr f ↦ rw (e, f) (refl, refl)
      ]

  flush_full : (ts : List (List ℕ)) (t : List ℕ) → is_empty t ≡ false → flush ts t ≡ ts ++ t ∷ []
  flush_full ts [] e = cc
  flush_full ts (c ∷ t) e = refl

  -- The other kind inside a word begins another.
  one_other :
      (n : Bool) (r : Reader) (c : ℕ)
      → is_alnum c ≡ true
      → same_bool (is_numeric c) n ≡ false
      → IsInside n r
      → read_one r c ≡ record { tokens = ended r; current = c ∷ []; numeric = is_numeric c }
  unfolding read_char
  one_other n r c e f h = rw (e, h.0, h.1, f, flush_full r.tokens r.current h.0) refl

  -- Two alphanumeric characters beside each other, one of them numeric, are in two words.
  pub split_kinds :
      (a b : List ℕ) (c d : ℕ)
      → is_alnum c ≡ true
      → is_alnum d ≡ true
      → same_bool (is_numeric d) (is_numeric c) ≡ false
      → prepared_words (a ++ c ∷ d ∷ b) ≡ prepared_words (a ++ c ∷ []) ++ prepared_words (d ∷ b)
  unfolding normalize read_all
  split_kinds a b c d e f g =
      let r = read_one (read (fresh false) a) c in
      let first : Reader = record { tokens = []; current = d ∷ []; numeric = is_numeric d } in
      ap ended (read-append (fresh false) a (c ∷ d ∷ b))
      ∙ ap (λ (x : Reader). ended (read x b))
          (one_other (is_numeric c) r d f g (one-IsInside (read (fresh false) a) c e))
      ∙ ap
          (λ (x : List (List ℕ)).
            ended (read (record { tokens = x; current = d ∷ []; numeric = is_numeric d }) b))
          (sym (append-nil (ended r)))
      ∙ ended-tokens (ended r) first b
      ∙ ap (λ (x : List (List ℕ)). x ++ ended (read first b))
          (sym (ap ended (read-append (fresh false) a (c ∷ []))))
      ∙ ap (λ (x : Reader). prepared_words (a ++ c ∷ []) ++ ended (read x b))
          (sym (one_first false d f))

  one_more_of_kind :
      (t : List ℕ) (n : Bool) (c : ℕ)
      → is_alnum c ≡ true
      → is_numeric c ≡ n
      → read_one (record { tokens = []; current = t; numeric = n }) c
        ≡ record { tokens = []; current = t ++ c ∷ []; numeric = n }
  unfolding read_char
  one_more_of_kind t true c e f = rw (e, f) (ground arith)
  one_more_of_kind t false c e f = rw (e, f) (ground arith)

  run_read :
      (n : Bool) (t run : List ℕ)
      → All (λ c. (is_alnum c ≡ true) × (is_numeric c ≡ n)) run
      → read (record { tokens = []; current = t; numeric = n }) run
        ≡ record { tokens = []; current = t ++ run; numeric = n }
  unfolding read_all
  run_read n t [] a =
      ap (λ (x : List ℕ). record { tokens = []; current = x; numeric = n }) (sym (append-nil t))
  run_read n t (c ∷ run) a =
      ap (λ (x : Reader). read x run) (one_more_of_kind t n c a.0.0 a.0.1)
      ∙ run_read n (t ++ c ∷ []) run a.1
      ∙ ap (λ (x : List ℕ). record { tokens = []; current = x; numeric = n })
          (append_assoc t (c ∷ []) run)

  -- Alphanumeric characters of one kind are one word.
  pub keep_run :
      (n : Bool) (c : ℕ) (run : List ℕ)
      → All (λ d. (is_alnum d ≡ true) × (is_numeric d ≡ n)) (c ∷ run)
      → prepared_words (c ∷ run) ≡ (c ∷ run) ∷ []
  keep_run n c run a = sym (fresh-prepared_words n (c ∷ run)) ∙ ap ended (run_read n [] (c ∷ run) a)
