-- ===== src/Table/Evolves.antt =====
-- Tables that grow by INSERTs and change by UPDATEs which spare some rows.
use capy_outcome_runtime_pub.Table.{find, update}
use capy_outcome_runtime_pub.Table.Keys.{find-append_some}
use capy_outcome_runtime_pub.Table.Stable.{find-update_stable}
use capy_outcome_runtime_pub.Prelude.{
  ℕ, ◌≡◌, refl, ◌∙◌, ap, Bool, true, false, some, List, ◌++◌, ◌==◌, if◌then◌else◌, Bool-cases, inl,
  inr, ◌⊎◌,
}

-- From one state of a table to another, with a key column: no row for which `fixed` holds is written.
pub data Evolves {A : Type 0} (key : A → ℕ) (fixed : A → Bool) : List A → List A → Type 0 where
  same : (xs : List A) → Evolves key fixed xs xs
  added : (xs new : List A) → Evolves key fixed xs (xs ++ new)
  updated :
      (p : A → Bool) (f : A → A) (xs : List A)
      → ((x : A) → p x ≡ true → fixed x ≡ false)
      → ((x : A) → key (f x) ≡ key x)
      → Evolves key fixed xs (update p f xs)
  followed :
      {xs ys zs : List A}
      → Evolves key fixed xs ys
      → Evolves key fixed ys zs
      → Evolves key fixed xs zs

module _ {A : Type 0} (key : A → ℕ) (fixed : A → Bool) where
  -- A row that is fixed stays, as it is.
  pub Evolves-kept :
      (k : ℕ) (x : A) {xs ys : List A}
      → Evolves key fixed xs ys
      → fixed x ≡ true
      → find (λ y. key y == k) xs ≡ some x
      → find (λ y. key y == k) ys ≡ some x
  Evolves-kept k x (same xs) e h = h
  Evolves-kept k x (added xs new) e h = find-append_some key (λ y. key y == k) xs new x h
  Evolves-kept k x (updated p f xs spares keys) e h =
      find-update_stable (λ y. key y == k) p f xs x (λ y _. ap (λ n. n == k) (keys y)) h
      ∙ ap some (left (Bool-cases (p x)))
    where
      left : (p x ≡ true) ⊎ (p x ≡ false) → (if p x then f x else x) ≡ x
      left (inl q) = absurd (clash (spares x q) e)
        where
          clash : fixed x ≡ false → fixed x ≡ true → ⊥
          clash a b = cc
      left (inr q) = rw q refl
  Evolves-kept k x (followed a b) e h = Evolves-kept k x b e (Evolves-kept k x a e h)
