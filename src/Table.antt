-- ===== src/Table.antt =====
-- A database table as the list of its rows in rowid order, and the statements that the stores
-- run on it: SELECT, UPDATE with its row count, and INSERT.
pub mod Laws
pub mod Keys
pub mod Stable
pub mod Evolves
use capy_outcome_runtime_pub.Prelude.{
  ℕ, suc, ◌≡◌, Bool, true, Option, none, some, List, [], ◌∷◌, if◌then◌else◌,
}

module _ {ℓ} {A : Type ℓ} where
  -- SELECT ... WHERE p, fetchone
  unfoldable pub find : (A → Bool) → List A → Option A
  find p [] = none
  find p (x ∷ xs) = let rest = find p xs in if p x then some x else rest

  -- SELECT ... WHERE p, fetchall
  unfoldable pub select : (A → Bool) → List A → List A
  select p [] = []
  select p (x ∷ xs) = let rest = select p xs in if p x then x ∷ rest else rest

  -- UPDATE ... SET f WHERE p
  unfoldable pub update : (A → Bool) → (A → A) → List A → List A
  update p f [] = []
  update p f (x ∷ xs) = (if p x then f x else x) ∷ update p f xs

  -- The `rowcount` of that UPDATE.
  unfoldable pub count : (A → Bool) → List A → ℕ
  count p [] = 0
  count p (x ∷ xs) = let rest = count p xs in if p x then suc rest else rest

  -- DELETE ... WHERE p
  unfoldable pub remove : (A → Bool) → List A → List A
  remove p [] = []
  remove p (x ∷ xs) = let rest = remove p xs in if p x then rest else x ∷ rest

  -- A property of every row.
  abbrev pub All {κ} : (A → Type κ) → List A → Type κ
  All P [] = Unit
  All P (x ∷ xs) = P x × All P xs

  -- The column is a key: no two rows have the same value.
  abbrev pub IsKey : (A → ℕ) → List A → Type 0
  IsKey key [] = Unit
  IsKey key (x ∷ xs) = All (λ y. key y ≡ key x → ⊥) xs × IsKey key xs
