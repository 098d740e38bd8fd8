-- ===== src/GenericBuild/Ends.antt =====
-- Postconditions of the steps of `run`: one for a step that returns, one for a step that raises.
use capy_outcome_runtime_pub.Prelude.{◌≡◌, refl}
use capy_outcome_runtime_pub.GenericBuild.{
  Action, ◌>>=◌, call, log, Run, Exit, done, terminal, cancelled_exit, cleanup_failure, fault,
  Fault, Call, returns, raises, Event,
}

abbrev pub Ends : {A : Type 0} → (A → Run → Type 0) → (Run → Type 0) → Exit A × Run → Type 0
Ends P N (done a, r) = P a r
Ends P N (terminal, r) = N r
Ends P N (cancelled_exit, r) = N r
Ends P N (cleanup_failure _, r) = N r
Ends P N (fault _, r) = N r

module _ {A B : Type 0} (P : A → Run → Type 0) (Q : B → Run → Type 0) (N : Run → Type 0) where
  pub Ends-bind :
      (m : Action A) (f : A → Action B) (r : Run)
      → Ends P N (m r)
      → ((a : A) (r' : Run) → P a r' → Ends Q N (f a r'))
      → Ends Q N ((m >>= f) r)
  unfolding ◌>>=◌
  Ends-bind m f r h k = go (m r) h
    where
      go :
          (x : Exit A × Run)
          → Ends P N x
          → Ends Q N (elim x.0 [
            | done a ↦ f a x.1
            | terminal ↦ (terminal, x.1)
            | cancelled_exit ↦ (cancelled_exit, x.1)
            | cleanup_failure fs ↦ (cleanup_failure fs, x.1)
            | fault n ↦ (fault n, x.1)
          ])
      go (done a, r') h = k a r' h
      go (terminal, r') h = h
      go (cancelled_exit, r') h = h
      go (cleanup_failure fs, r') h = h
      go (fault n, r') h = h

module _ {A B : Type 0} (Q : B → Run → Type 0) (N : Run → Type 0) where
  pub Ends-call :
      (e : Event) (c : Call A) (k : A → Action B) (h : Fault → Action B) (r : Run)
      → ((a : A) → c ≡ returns a → Ends Q N (k a (log e r)))
      → ((f : Fault) → c ≡ raises f → Ends Q N (h f (log e r)))
      → Ends Q N (call e c k h r)
  unfolding call
  Ends-call e (returns a) k h r p q = p a refl
  Ends-call e (raises f) k h r p q = q f refl
