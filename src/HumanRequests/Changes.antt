-- ===== src/HumanRequests/Changes.antt =====
-- What the operations of src/capy_outcome_runtime/human_requests.py do to a request: a request that
-- is not waiting keeps its answer.
use mathlib.Core.Path.{subst}
use capy_outcome_runtime_pub.Table.{find, update}
use capy_outcome_runtime_pub.Table.Laws.{find_sound}
use capy_outcome_runtime_pub.Invocations
use capy_outcome_runtime_pub.Invocations.{Invocation}
use capy_outcome_runtime_pub.HumanRequests.{
  Status, is_waiting, is_terminal, is_deliverable, Actor, Value, Row, Store, World, commit, has_id,
  load, save, owner, with_receipt, invocation_of, receipt, superseded_by, still_fits, checked,
  refresh, is_poisoned,
}
use capy_outcome_runtime_pub.HumanRequests.Delivery.{
  supersede_row, begin_processing, after_fault, Fault, is_rejection,
}
use capy_outcome_runtime_pub.Prelude.{
  ℕ, Bool, false, ◌&&◌, ◌≡◌, refl, sym, ◌∙◌, ap, Option, none, some, String, List, [], ◌∷◌, ◌++◌,
  leb, ==_sound, is_none, Result, ok, err, require, then-ok, guard-ok, not, ok-injective, if-both,
}

-- A new value of a request: of the same request, and with the same answer unless it was waiting.
abbrev pub Keeps : Value → Value → Type 0
Keeps v v' =
    (v'.id ≡ v.id)
    × (is_waiting v.status ≡ false
        → (is_waiting v'.status ≡ false)
          × (v'.response ≡ v.response)
          × (v'.inputs ≡ v.inputs)
          × (v'.resources ≡ v.resources))

pub data Change : Store → Store → Type 0 where
  same : (s : Store) → Change s s
  added : (s : Store) (row : Row) → Change s (s ++ row ∷ [])
  saved :
      (s : Store) (row : Row) (v : Value)
      → find (has_id v.id) s ≡ some row
      → Keeps row.value v
      → Change s (save v s)
  triggered :
      (s : Store) (p : Row → Bool) (code : String) → Change s (update p (supersede_row code) s)
  followed : {s t u : Store} → Change s t → Change t u → Change s u

pub Keeps-refl : (v : Value) → Keeps v v
Keeps-refl v = (refl, λ h. (h, refl, refl, refl))

pub Keeps-trans : (u v w : Value) → Keeps u v → Keeps v w → Keeps u w
Keeps-trans u v w a b = (
  b.0 ∙ a.0,
  λ h. let (n, r, i, e) = a.1 h in let (n', r', i', e') = b.1 n in (n', r' ∙ r, i' ∙ i, e' ∙ e),
)

module _ (human_key : ℕ → List ℕ) where
  Keeps-status :
      (i : Invocation) (v : Value) (t : Invocations.Status)
      → i.status ≡ t
      → Keeps v (with_receipt human_key (some i) v)
  Keeps-status i v Invocations.Status.running e = rw e (refl, λ h. (h, refl, refl, refl))
  Keeps-status i v Invocations.Status.succeeded e = rw e (refl, λ h. (refl, refl, refl, refl))
  Keeps-status i v Invocations.Status.failed e = rw e (refl, λ h. (refl, refl, refl, refl))
  Keeps-status i v Invocations.Status.execution_unknown e = rw e (refl, λ h. (h, refl, refl, refl))

  Keeps-with_receipt : (o : Option Invocation) (v : Value) → Keeps v (with_receipt human_key o v)
  Keeps-with_receipt none v = Keeps-refl v
  Keeps-with_receipt (some i) v = Keeps-status i v i.status refl

  Keeps-superseded_by : (r : Result (Unit {0})) (v : Value) → Keeps v (superseded_by human_key r v)
  Keeps-superseded_by (ok a) v = Keeps-refl v
  Keeps-superseded_by (err e) v = (refl, λ h. (refl, refl, refl, refl))

  pub Keeps-receipt : (w : World) (v : Value) → Keeps v (receipt human_key w v)
  unfolding receipt
  Keeps-receipt w v = Keeps-with_receipt (invocation_of human_key w v) v

  pub Keeps-checked :
      (w : World) (actor : Actor) (v : Value) → Keeps v (checked human_key w actor v)
  unfolding checked
  Keeps-checked w actor v = if-both (Keeps v) (is_terminal v.status) v _ (Keeps-refl v) (
      if-both (Keeps v) (leb v.expires w.now && is_none v.response)
        (record v { status = Status.expired }) _ (refl, λ h. (refl, refl, refl, refl))
        (Keeps-superseded_by (still_fits human_key w actor v) v))

  pub refresh-Keeps :
      (w : World) (actor : Actor) (row : Row) (v : Value)
      → refresh human_key w actor row ≡ ok v
      → Keeps row.value v
  unfolding refresh
  refresh-Keeps w actor row v h =
      let (_, h1) = then-ok (owner w row.producer actor row.value) _ _ h in
      let (_, h2) =
        guard-ok (not (is_poisoned human_key w actor (receipt human_key w row.value)))
          "TRANSACTION_ABORTED" _ _ h1 in
      subst (Keeps row.value) (ok-injective _ _ h2) (
        Keeps-trans row.value (receipt human_key w row.value)
          (checked human_key w actor (receipt human_key w row.value)) (Keeps-receipt w row.value)
          (Keeps-checked w actor (receipt human_key w row.value)))

  module _ (starts_with : String → String → Bool) where
    pub Keeps-begin : (v : Value) → Keeps v (begin_processing human_key starts_with v)
    Keeps-begin v =
        if-both (Keeps v) (is_deliverable v.status) (record v { status = Status.processing }) v
          (refl, λ h. (refl, refl, refl, refl)) (Keeps-refl v)

    pub Keeps-after_fault :
        (o : Option Invocation) (fault : Fault) (v : Value)
        → Keeps v (after_fault human_key starts_with o fault v)
    unfolding after_fault
    Keeps-after_fault none fault v =
        if-both (Keeps v) (is_rejection human_key starts_with fault) _ _
          (refl, λ h. (refl, refl, refl, refl)) (refl, λ h. (refl, refl, refl, refl))
    Keeps-after_fault (some i) fault v = by_status i.status refl
      where
        by_status :
            (t : Invocations.Status)
            → i.status ≡ t
            → Keeps v (after_fault human_key starts_with (some i) fault v)
        by_status Invocations.Status.running e =
            unfold after_fault in rw e (refl, λ h. (refl, refl, refl, refl))
        by_status Invocations.Status.succeeded e =
            unfold after_fault in rw e (refl, λ h. (refl, refl, refl, refl))
        by_status Invocations.Status.failed e =
            unfold after_fault in rw e (refl, λ h. (refl, refl, refl, refl))
        by_status Invocations.Status.execution_unknown e =
            unfold after_fault in rw e (refl, λ h. (refl, refl, refl, refl))

-- A value written back over the row that was loaded.
pub save-Change :
    (id : ℕ) (s : Store) (row : Row) (v : Value)
    → load id s ≡ ok row
    → Keeps row.value v
    → Change s (save v s)
unfolding load
save-Change id s row v h k =
    let (found_row, found, e) = required (find (has_id id) s) row h in
    saved s row v
      (subst (λ n. find (has_id n) s ≡ some row)
        (sym (==_sound _ _ (find_sound (has_id id) s row found)) ∙ sym k.0) found)
      k
  where
    required :
        (o : Option Row) (row : Row)
        → require o "HUMAN_REQUEST_DENIED" ≡ ok row
        → (r : Row) × (o ≡ some row) × (r ≡ row)
    required none row h = cc
    required (some r) row h = (r, ap some (ok-injective _ _ h), ok-injective _ _ h)

-- A transaction that raises changes nothing.
pub commit-Change :
    {A : Type 0} (c : Result (A × Store)) (s : Store)
    → ((a : A) (t : Store) → c ≡ ok (a, t) → Change s t)
    → Change s (commit c s).1
commit-Change (ok (a, t)) s f = f a t refl
commit-Change (err e) s f = same s
