-- ===== src/Prelude/Outcome.antt =====
-- A fallible operation: a value, or the code of a `RuntimeFailure`. An operation on a database
-- returns the new tables with its value; an error leaves the caller with the old ones, as the
-- rollback in `connect` does.
use Prim.Native.String.{String}
use mathlib.Core.Bool.{Bool, true, false}
use mathlib.Core.Path.{◌≡◌, refl, subst}
use mathlib.Core.Option.{Option, none, some}

pub data Result {ℓ} (A : Type ℓ) : Type ℓ where
  ok : A → Result A
  err : String → Result A

-- `if not test: raise RuntimeFailure(code)`
abbrev pub guard : Bool → String → Result (Unit {0})
guard true e = ok tt
guard false e = err e

-- `if row is None: raise RuntimeFailure(code)`
abbrev pub require {ℓ} : {A : Type ℓ} → Option A → String → Result A
require none e = err e
require (some a) e = ok a

infixl 5 ◌>>=◌ ◌>>◌
abbrev pub ◌>>=◌ {ℓ κ} : {A : Type ℓ} {B : Type κ} → Result A → (A → Result B) → Result B
ok a >>= f = f a
err e >>= f = err e

abbrev pub ◌>>◌ {ℓ} : {B : Type ℓ} → Result (Unit {0}) → Result B → Result B
ok _ >> next = next
err code >> next = err code

-- What a block that returns has passed through.
module _ {ℓ κ} {A : Type ℓ} {B : Type κ} where
  pub require-ok :
      (o : Option A) (e : String) (f : A → Result B) (b : B)
      → (require o e >>= f) ≡ ok b
      → (a : A) × (o ≡ some a) × (f a ≡ ok b)
  require-ok none e f b h = cc
  require-ok (some a) e f b h = (a, refl, h)

  pub bind-ok :
      (m : Result A) (f : A → Result B) (b : B)
      → (m >>= f) ≡ ok b
      → (a : A) × (m ≡ ok a) × (f a ≡ ok b)
  bind-ok (ok a) f b h = (a, refl, h)
  bind-ok (err e) f b h = cc

module _ {ℓ} {B : Type ℓ} where
  pub guard-ok :
      (t : Bool) (e : String) (k : Result B) (b : B)
      → (guard t e >> k) ≡ ok b
      → (t ≡ true) × (k ≡ ok b)
  guard-ok true e k b h = (refl, h)
  guard-ok false e k b h = cc

  pub then-ok :
      (m : Result (Unit {0})) (k : Result B) (b : B) → (m >> k) ≡ ok b → (m ≡ ok tt) × (k ≡ ok b)
  then-ok (ok _) k b h = (refl, h)
  then-ok (err e) k b h = cc

  pub passes : (t : Bool) (e : String) (b : B) → t ≡ true → (guard t e >> ok b) ≡ ok b
  passes true e b h = refl
  passes false e b h = cc

  pub ok-injective : (a b : B) → ◌≡◌ {A = Result B} (ok a) (ok b) → a ≡ b
  ok-injective a b h = cc

-- What holds of the value of a block, if it returns one.
pub data Returns {ℓ κ} {B : Type ℓ} (P : B → Type κ) (r : Result B) : Type (ℓ ⊔ κ) where
  whenever : ((b : B) → r ≡ ok b → P b) → Returns P r

module _ {ℓ κ} {B : Type ℓ} {P : B → Type κ} where
  pub returned : {r : Result B} → Returns P r → (b : B) → r ≡ ok b → P b
  returned (whenever f) = f

  pub at_end : (b : B) → P b → Returns P (ok b)
  at_end b p = whenever (λ c h. subst P (ok-injective b c h) p)

  pub past_test :
      (t : Bool) (e : String) (k : Result B) → (t ≡ true → Returns P k) → Returns P (guard t e >> k)
  past_test true e k next = next refl
  past_test false e k next = whenever (λ b h. cc)

module _ {ℓ κ μ} {A : Type μ} {B : Type ℓ} {P : B → Type κ} where
  pub past_row :
      (o : Option A) (e : String) (f : A → Result B)
      → ((a : A) → o ≡ some a → Returns P (f a))
      → Returns P (require o e >>= f)
  past_row none e f next = whenever (λ b h. cc)
  past_row (some a) e f next = next a refl

  pub past_value :
      (m : Result A) (f : A → Result B)
      → ((a : A) → m ≡ ok a → Returns P (f a))
      → Returns P (m >>= f)
  past_value (ok a) f next = next a refl
  past_value (err e) f next = whenever (λ b h. cc)
