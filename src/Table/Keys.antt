-- ===== src/Table/Keys.antt =====
-- Tables with a key column: a row is found again after an UPDATE, and an UPDATE by key writes one
-- row.
use capy_outcome_runtime_pub.Prelude.{
  ℕ, ◌≡◌, refl, sym, Bool, true, false, none, some, List, [], ◌∷◌, ◌++◌, arith, if◌then◌else◌,
  Bool-cases, inl, inr, ◌&&◌, ◌==◌, ==_refl, ==_sound,
}
use capy_outcome_runtime_pub.Table.{find, update, count, remove, All, IsKey}
use mathlib.Core.Path.{subst}
use capy_outcome_runtime_pub.Table.Laws.{
  All-update_to, All-find, All-append, All-update, All-map, All-remove, count-zero,
}

module _ {ℓ} {A : Type ℓ} (key : A → ℕ) where
  -- The row with a key.
  abbrev pub at_key : ℕ → A → Bool
  at_key k x = key x == k

  -- An UPDATE that leaves the column alone keeps it a key.
  pub IsKey-update :
      (p : A → Bool) (f : A → A) (xs : List A)
      → ((x : A) → key (f x) ≡ key x)
      → IsKey key xs
      → IsKey key (update p f xs)
  unfolding update
  IsKey-update p f [] same u = tt
  IsKey-update p f (x ∷ xs) same u = elim (Bool-cases (p x)) [
    | inl e ↦ rw e (
      rw (same x) (others (λ y. key y ≡ key x → ⊥) (λ y h. rw (same y) h) u.0),
      IsKey-update p f xs same u.1,
    )
    | inr e ↦
        rw e
          (others (λ y. key y ≡ key x → ⊥) (λ y h. rw (same y) h) u.0, IsKey-update p f xs same u.1)
  ]
    where
      others : (P : A → Type 0) → ((y : A) → P y → P (f y)) → All P xs → All P (update p f xs)
      others P h = All-update P p f xs (λ y _. h y)

  -- An INSERT of a row whose key is not there keeps the column a key.
  pub IsKey-insert :
      (xs : List A) (x : A)
      → find (at_key (key x)) xs ≡ none
      → IsKey key xs
      → IsKey key (xs ++ x ∷ [])
  unfolding find
  IsKey-insert [] x h u = (tt, tt)
  IsKey-insert (y ∷ xs) x h u = elim (Bool-cases (key y == key x)) [
    | inl e ↦ absurd (ground arith)
    | inr e ↦ (
      All-append (λ z. key z ≡ key y → ⊥) xs (x ∷ []) u.0 (λ q. ground arith, tt),
      IsKey-insert xs x (ground arith) u.1,
    )
  ]

  pub IsKey-remove : (p : A → Bool) (xs : List A) → IsKey key xs → IsKey key (remove p xs)
  unfolding remove
  IsKey-remove p [] u = tt
  IsKey-remove p (x ∷ xs) u = elim (Bool-cases (p x)) [
    | inl e ↦ rw e (IsKey-remove p xs u.1)
    | inr e ↦ rw e (All-remove (λ y. key y ≡ key x → ⊥) p xs u.0, IsKey-remove p xs u.1)
  ]

  -- Reading by key after an UPDATE gives the written row, or the old one.
  pub find-update :
      (p : A → Bool) (f : A → A) (k : ℕ) (xs : List A) (x : A)
      → ((y : A) → key (f y) ≡ key y)
      → find (at_key k) xs ≡ some x
      → find (at_key k) (update p f xs) ≡ some (if p x then f x else x)
  unfolding find update
  find-update p f k [] x same h = cc
  find-update p f k (y ∷ xs) x same h = elim (Bool-cases (p y)) [
    | inl e ↦ rw e (ground (arith, same y, find-update p f k xs x same))
    | inr e ↦ rw e (ground (arith, find-update p f k xs x same))
  ]

  -- Nothing is found by key after an UPDATE where nothing was before.
  pub find-update-none :
      (p : A → Bool) (f : A → A) (k : ℕ) (xs : List A)
      → ((y : A) → key (f y) ≡ key y)
      → find (at_key k) xs ≡ none
      → find (at_key k) (update p f xs) ≡ none
  unfolding find update
  find-update-none p f k [] same h = refl
  find-update-none p f k (y ∷ xs) same h = elim (Bool-cases (p y)) [
    | inl e ↦ rw e (ground (arith, same y, find-update-none p f k xs same))
    | inr e ↦ rw e (ground (arith, find-update-none p f k xs same))
  ]

  pub find-append_none :
      (p : A → Bool) (xs ys : List A) → find p xs ≡ none → find p (xs ++ ys) ≡ find p ys
  unfolding find
  find-append_none p [] ys h = refl
  find-append_none p (x ∷ xs) ys h = ground (arith, find-append_none p xs ys)

  pub find-append_some :
      (p : A → Bool) (xs ys : List A) (x : A) → find p xs ≡ some x → find p (xs ++ ys) ≡ some x
  unfolding find
  find-append_some p [] ys x h = cc
  find-append_some p (y ∷ xs) ys x h = ground (arith, find-append_some p xs ys x)

  no_other_row :
      (k : ℕ) (q : A → Bool) (xs : List A)
      → All (λ y. key y ≡ k → ⊥) xs
      → All (λ y. at_key k y && q y ≡ false) xs
  no_other_row k q xs h =
      All-map (λ y. key y ≡ k → ⊥) (λ y. at_key k y && q y ≡ false) xs
        (λ y g. elim (Bool-cases (key y == k)) [
          | inl e ↦ absurd (g (==_sound _ _ e))
          | inr e ↦ rw e
        ])
        h

  -- An UPDATE by key and condition has the row count 1 or 0 by the row's condition.
  pub count-at_key :
      (k : ℕ) (q : A → Bool) (xs : List A) (x : A)
      → IsKey key xs
      → find (at_key k) xs ≡ some x
      → count (λ y. at_key k y && q y) xs ≡ (if q x then 1 else 0)
  unfolding find count
  count-at_key k q [] x u h = cc
  count-at_key k q (y ∷ xs) x u h = elim (Bool-cases (key y == k)) [
    | inl e ↦
        let rest : count (λ z. at_key k z && q z) xs ≡ 0 =
          count-zero (λ z. at_key k z && q z) xs
            (no_other_row k q xs (rw (==_sound _ _ e) at u.0)) in
        ground arith
    | inr e ↦ ground (arith, count-at_key k q xs x u.1)
  ]

  pub count-at_key-none :
      (k : ℕ) (q : A → Bool) (xs : List A)
      → find (at_key k) xs ≡ none
      → count (λ y. at_key k y && q y) xs ≡ 0
  unfolding find count
  count-at_key-none k q [] h = refl
  count-at_key-none k q (y ∷ xs) h = ground (arith, count-at_key-none k q xs)

  -- The row that a condition on the key finds is the row that its key finds.
  pub find-by_key :
      (p : A → Bool) (xs : List A) (x : A)
      → IsKey key xs
      → find p xs ≡ some x
      → find (at_key (key x)) xs ≡ some x
  unfolding find
  find-by_key p [] x u h = cc
  find-by_key p (y ∷ xs) x u h = elim (Bool-cases (p y)) [
    | inl e ↦ let same : y ≡ x = ground arith in rw (same, ==_refl)
    | inr e ↦
        let later : find p xs ≡ some x = rw e at h in
        let differs : key x ≡ key y → ⊥ = All-find (λ z. key z ≡ key y → ⊥) p xs x u.0 later in
        elim (Bool-cases (key y == key x)) [
          | inl f ↦ absurd (differs (sym (==_sound _ _ f)))
          | inr f ↦ rw f (find-by_key p xs x u.1 later)
        ]
  ]

  -- Every row is the one that its key finds.
  behind :
      (x : A) (xs ys : List A)
      → All (λ y. key y ≡ key x → ⊥) ys
      → All (λ y. find (at_key (key y)) xs ≡ some y) ys
      → All (λ y. find (at_key (key y)) (x ∷ xs) ≡ some y) ys
  unfolding find
  behind x xs [] a b = tt
  behind x xs (y ∷ ys) a b = (
    elim (Bool-cases (key x == key y)) [
      | inl e ↦ absurd (a.0 (sym (==_sound _ _ e)))
      | inr e ↦ rw e b.0
    ],
    behind x xs ys a.1 b.1,
  )

  pub All-found : (xs : List A) → IsKey key xs → All (λ x. find (at_key (key x)) xs ≡ some x) xs
  unfolding find
  All-found [] u = tt
  All-found (x ∷ xs) u = (rw (==_refl (key x)) refl, behind x xs xs u.0 (All-found xs u.1))

  -- Only one row has the key.
  pub All-same_row :
      (k : ℕ) (xs : List A) (x : A)
      → IsKey key xs
      → find (at_key k) xs ≡ some x
      → All (λ y. key y ≡ k → y ≡ x) xs
  unfolding find
  All-same_row k [] x u h = tt
  All-same_row k (y ∷ xs) x u h = elim (Bool-cases (key y == k)) [
    | inl e ↦ (
      λ _. ground arith,
      All-map (λ z. key z ≡ key y → ⊥) (λ z. key z ≡ k → z ≡ x) xs
          (λ z g q. absurd (g (ground arith))) u.0,
    )
    | inr e ↦ (λ q. absurd (ground arith), All-same_row k xs x u.1 (rw e at h))
  ]

-- An UPDATE that writes at most the row `x` that the key `k` finds.
module _ {ℓ κ μ} {A : Type ℓ} (key : A → ℕ) (P : A → Type κ) (Q : A → Type μ) where
  pub All-update_row :
      (k : ℕ) (p : A → Bool) (f : A → A) (xs : List A) (x : A)
      → ((y : A) → p y ≡ true → key y ≡ k)
      → IsKey key xs
      → find (λ y. key y == k) xs ≡ some x
      → (p x ≡ true → P x → Q (f x))
      → ((y : A) → p y ≡ false → P y → Q y)
      → All P xs
      → All Q (update p f xs)
  All-update_row k p f xs x only u h hit miss a =
      All-update_to (λ y. P y × (key y ≡ k → y ≡ x)) Q p f xs
        (λ y e b. written y e b.0 (b.1 (only y e))) (λ y e b. miss y e b.0)
        (both xs a (All-same_row key k xs x u h))
    where
      written : (y : A) → p y ≡ true → P y → y ≡ x → Q (f y)
      written y e b q = subst (λ z. p z ≡ true → P z → Q (f z)) (sym q) hit e b

      both :
          (ys : List A)
          → All P ys
          → All (λ y. key y ≡ k → y ≡ x) ys
          → All (λ y. P y × (key y ≡ k → y ≡ x)) ys
      both [] a b = tt
      both (y ∷ ys) a b = ((a.0, b.0), both ys a.1 b.1)
