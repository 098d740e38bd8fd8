-- ===== src/Table/Stable.antt =====
-- UPDATEs that leave a condition on the rows as it was.
use capy_outcome_runtime_pub.Prelude.{
  ◌+◌, ◌≡◌, refl, Bool, true, some, List, [], ◌∷◌, ◌++◌, arith, if◌then◌else◌, Bool-cases, inl, inr,
}
use capy_outcome_runtime_pub.Table.{find, update, count}

module _ {ℓ} {A : Type ℓ} (q : A → Bool) where
  pub find-update_stable :
      (p : A → Bool) (f : A → A) (xs : List A) (x : A)
      → ((y : A) → p y ≡ true → q (f y) ≡ q y)
      → find q xs ≡ some x
      → find q (update p f xs) ≡ some (if p x then f x else x)
  unfolding find update
  find-update_stable p f [] x same h = cc
  find-update_stable p f (y ∷ xs) x same h = elim (Bool-cases (p y)) [
    | inl e ↦ rw e (ground (arith, same y e, find-update_stable p f xs x same))
    | inr e ↦ rw e (ground (arith, find-update_stable p f xs x same))
  ]

  pub count-update_stable :
      (p : A → Bool) (f : A → A) (xs : List A)
      → ((y : A) → q (f y) ≡ q y)
      → count q (update p f xs) ≡ count q xs
  unfolding count update
  count-update_stable p f [] same = refl
  count-update_stable p f (y ∷ xs) same = elim (Bool-cases (p y)) [
    | inl e ↦ rw (e, same y, count-update_stable p f xs same) refl
    | inr e ↦ rw (e, count-update_stable p f xs same) refl
  ]

  pub count-append : (xs ys : List A) → count q (xs ++ ys) ≡ count q xs + count q ys
  unfolding count
  count-append [] ys = omega arith
  count-append (x ∷ xs) ys = elim (Bool-cases (q x)) [
    | inl e ↦ rw (e, count-append xs ys) (omega arith)
    | inr e ↦ rw (e, count-append xs ys) (omega arith)
  ]
