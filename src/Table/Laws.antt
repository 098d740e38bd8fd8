-- ===== src/Table/Laws.antt =====
-- What a SELECT, an UPDATE and an INSERT do to a property of every row, and to one another.
use capy_outcome_runtime_pub.Prelude.{
  ◌<◌, ◌≡◌, refl, Bool, true, false, none, some, List, [], ◌∷◌, ◌++◌, arith, Bool-cases, inl, inr,
  ap, is_none, suc, length,
}
use capy_outcome_runtime_pub.Table.{find, select, update, count, remove, All}

module _ {ℓ} {A : Type ℓ} (p : A → Bool) where
  pub find_sound : (xs : List A) (x : A) → find p xs ≡ some x → p x ≡ true
  unfolding find
  find_sound [] x h = cc
  find_sound (y ∷ xs) x h = elim (Bool-cases (p y)) [
    | inl e ↦ ground arith
    | inr e ↦ find_sound xs x (rw e at h)
  ]

  pub find-none : (xs : List A) → find p xs ≡ none → All (λ x. p x ≡ false) xs
  unfolding find
  find-none [] h = tt
  find-none (y ∷ xs) h = elim (Bool-cases (p y)) [
    | inl e ↦ absurd (ground arith)
    | inr e ↦ (e, find-none xs (ground arith))
  ]

  pub find-none_of : (xs : List A) → All (λ x. p x ≡ false) xs → find p xs ≡ none
  unfolding find
  find-none_of [] h = refl
  find-none_of (y ∷ xs) h = rw h.0 (find-none_of xs h.1)

  pub count-pos : (xs : List A) (x : A) → find p xs ≡ some x → 0 < count p xs
  unfolding find count
  count-pos [] x h = cc
  count-pos (y ∷ xs) x h = ground (arith, count-pos xs x)

  -- The rows that a SELECT returns are as many as the same UPDATE counts.
  pub length-select : (xs : List A) → length (select p xs) ≡ count p xs
  unfolding select count
  length-select [] = refl
  length-select (x ∷ xs) = elim (Bool-cases (p x)) [
    | inl e ↦ rw e (ap suc (length-select xs))
    | inr e ↦ rw e (length-select xs)
  ]

  -- A row stays to be found among the selected rows, and behind other rows.
  pub find-select :
      (q : A → Bool) (xs : List A) (x : A)
      → find p xs ≡ some x
      → q x ≡ true
      → is_none (find p (select q xs)) ≡ false
  unfolding find select
  find-select q [] x h e = cc
  find-select q (y ∷ xs) x h e = ground (arith, find-select q xs x)

  pub find-snoc_some : (xs : List A) (x : A) → p x ≡ true → is_none (find p (xs ++ x ∷ [])) ≡ false
  unfolding find
  find-snoc_some [] x e = rw e refl
  find-snoc_some (y ∷ xs) x e = ground (arith, find-snoc_some xs x)

  pub count-zero : (xs : List A) → All (λ x. p x ≡ false) xs → count p xs ≡ 0
  unfolding count
  count-zero [] h = refl
  count-zero (y ∷ xs) h = rw h.0 (count-zero xs h.1)

  pub count-eq-zero : (xs : List A) → count p xs ≡ 0 → All (λ x. p x ≡ false) xs
  unfolding count
  count-eq-zero [] h = tt
  count-eq-zero (y ∷ xs) h = elim (Bool-cases (p y)) [
    | inl e ↦ absurd (ground arith)
    | inr e ↦ (e, count-eq-zero xs (ground arith))
  ]

  -- Nothing matches: the UPDATE writes nothing.
  pub update-none : (f : A → A) (xs : List A) → All (λ x. p x ≡ false) xs → update p f xs ≡ xs
  unfolding update
  update-none f [] h = refl
  update-none f (y ∷ xs) h = rw h.0 (ap (λ (t : List A). y ∷ t) (update-none f xs h.1))

module _ {ℓ κ} {A : Type ℓ} (P : A → Type κ) where
  pub All-find : (p : A → Bool) (xs : List A) (x : A) → All P xs → find p xs ≡ some x → P x
  unfolding find
  All-find p [] x a h = cc
  All-find p (y ∷ xs) x a h = elim (Bool-cases (p y)) [
    | inl e ↦ rw (← found e) a.0
    | inr e ↦ All-find p xs x a.1 (rw e at h)
  ]
    where
      found : p y ≡ true → y ≡ x
      found e = ground arith

  pub All-append : (xs ys : List A) → All P xs → All P ys → All P (xs ++ ys)
  All-append [] ys a b = b
  All-append (x ∷ xs) ys a b = (a.0, All-append xs ys a.1 b)

  pub All-update :
      (p : A → Bool) (f : A → A) (xs : List A)
      → ((x : A) → p x ≡ true → P x → P (f x))
      → All P xs
      → All P (update p f xs)
  unfolding update
  All-update p f [] step a = tt
  All-update p f (x ∷ xs) step a = elim (Bool-cases (p x)) [
    | inl e ↦ (rw e (step x e a.0), All-update p f xs step a.1)
    | inr e ↦ (rw e a.0, All-update p f xs step a.1)
  ]

  pub All-select : (p : A → Bool) (xs : List A) → All P xs → All P (select p xs)
  unfolding select
  All-select p [] a = tt
  All-select p (x ∷ xs) a = elim (Bool-cases (p x)) [
    | inl e ↦ rw e (a.0, All-select p xs a.1)
    | inr e ↦ rw e (All-select p xs a.1)
  ]

  pub All-remove : (p : A → Bool) (xs : List A) → All P xs → All P (remove p xs)
  unfolding remove
  All-remove p [] a = tt
  All-remove p (x ∷ xs) a = elim (Bool-cases (p x)) [
    | inl e ↦ rw e (All-remove p xs a.1)
    | inr e ↦ rw e (a.0, All-remove p xs a.1)
  ]

  pub All-of : (xs : List A) → ((x : A) → P x) → All P xs
  All-of [] h = tt
  All-of (x ∷ xs) h = (h x, All-of xs h)

module _ {ℓ κ μ} {A : Type ℓ} (P : A → Type κ) (Q : A → Type μ) where
  pub All-map : (xs : List A) → ((x : A) → P x → Q x) → All P xs → All Q xs
  All-map [] h a = tt
  All-map (x ∷ xs) h a = (h x a.0, All-map xs h a.1)

  -- An UPDATE that takes `P` to `Q` on the rows that it writes, where the others have `Q` already.
  pub All-update_to :
      (p : A → Bool) (f : A → A) (xs : List A)
      → ((x : A) → p x ≡ true → P x → Q (f x))
      → ((x : A) → p x ≡ false → P x → Q x)
      → All P xs
      → All Q (update p f xs)
  unfolding update
  All-update_to p f [] hit miss a = tt
  All-update_to p f (x ∷ xs) hit miss a = elim (Bool-cases (p x)) [
    | inl e ↦ (rw e (hit x e a.0), All-update_to p f xs hit miss a.1)
    | inr e ↦ (rw e (miss x e a.0), All-update_to p f xs hit miss a.1)
  ]
