-- ===== src/HumanRequests/Answered.antt =====
-- A human request is answered once: every operation, trigger and transaction of a delivery, in any
-- order, leaves a committed answer as it is.
use mathlib.Core.Path.{subst}
use mathlib.Core.Option.{some-injective}
use capy_outcome_runtime_pub.Table.{find}
use capy_outcome_runtime_pub.Table.Laws.{find_sound}
use capy_outcome_runtime_pub.Table.Keys.{find-append_some}
use capy_outcome_runtime_pub.Table.Stable.{find-update_stable}
use capy_outcome_runtime_pub.HumanRequests.{
  is_waiting, Actor, Value, Row, Store, World, has_id, load, save, owner, answered, write_answer,
}
use capy_outcome_runtime_pub.HumanRequests.Delivery.{supersede_row}
use capy_outcome_runtime_pub.HumanRequests.Changes.{
  Keeps, Change, same, added, saved, triggered, followed,
}
use capy_outcome_runtime_pub.Prelude.{
  ℕ, Bool, true, false, ◌&&◌, ◌≡◌, refl, sym, ◌∙◌, ap, arith, Option, none, some, String, List, [],
  ◌∷◌, ◌==◌, ==_refl, ==_sound, if◌then◌else◌, ok, bind-ok, then-ok, require-ok, guard-ok,
  ok-injective, if-both,
}
use capy_outcome_runtime_pub.HumanRequests.Steps.{Reach, here, next, Step-Change}

-- The same request, no longer waiting, with the same answer.
abbrev pub HasAnswer : Value → Value → Type 0
HasAnswer v v' =
    (is_waiting v'.status ≡ false)
    × (v'.response ≡ v.response)
    × (v'.inputs ≡ v.inputs)
    × (v'.resources ≡ v.resources)

abbrev IsCarried : ℕ → Row → Store → Type 0
IsCarried id row s =
    (row' : Row) × (find (has_id id) s ≡ some row') × HasAnswer row.value row'.value

pub Change-IsCarried :
    (s s' : Store) (id : ℕ) (row : Row)
    → Change s s'
    → find (has_id id) s ≡ some row
    → is_waiting row.value.status ≡ false
    → IsCarried id row s'
Change-IsCarried s s' id row (same _) h n = (row, h, (n, refl, refl, refl))
Change-IsCarried s s' id row (added _ new) h n = (
  row,
  find-append_some (λ (r : Row). r.value.id) (has_id id) s (new ∷ []) row h,
  (n, refl, refl, refl),
)
Change-IsCarried s s' id row (saved _ old v found keeps) h n = (
  (if has_id v.id row then record row { value = v } else row),
  unfold save in
      find-update_stable (has_id id) (has_id v.id) (λ r. record r { value = v }) s row
        (λ y e. rw (==_sound _ _ e) refl) h,
  by_id (has_id v.id row) refl,
)
  where
    this : has_id v.id row ≡ true → old.value ≡ row.value
    this e =
        let here : row.value.id ≡ v.id = ==_sound _ _ e in
        let there : row.value.id ≡ id = ==_sound _ _ (find_sound (has_id id) s row h) in
        ap (λ (r : Row). r.value)
          (some-injective _ _
            (sym found ∙ subst (λ k. find (has_id k) s ≡ some row) (sym there ∙ here) h))

    by_id :
        (b : Bool)
        → has_id v.id row ≡ b
        → HasAnswer row.value (if b then record row { value = v } else row).value
    by_id true e = (subst (λ u. Keeps u v) (this e) keeps).1 n
    by_id false e = (n, refl, refl, refl)
Change-IsCarried s s' id row (triggered _ p code) h n = (
  (if p row then supersede_row code row else row),
  find-update_stable (has_id id) p (supersede_row code) s row (λ y e. refl) h,
  if-both (λ (r : Row). HasAnswer row.value r.value) (p row) (supersede_row code row) row
      (refl, refl, refl, refl) (n, refl, refl, refl),
)
Change-IsCarried s s' id row (followed {t = t} a b) h n =
    let (r, f, (m, x, y, z)) = Change-IsCarried s t id row a h n in
    let (r', f', (m', x', y', z')) = Change-IsCarried t s' id r b f m in
    (r', f', (m', x' ∙ x, y' ∙ y, z' ∙ z))

module _ {human_key : ℕ → List ℕ} {starts_with : String → String → Bool}
    {digest : List (ℕ × ℕ) → ℕ → ℕ → ℕ} {names : ℕ → ℕ → Bool} where
  -- A request that is not waiting never waits again and keeps its response, its inputs and its
  -- resources, whatever operations, triggers and transactions of deliveries follow, in any order.
  pub answer_kept :
      (s s' : Store) (id : ℕ) (row : Row)
      → find (has_id id) s ≡ some row
      → is_waiting row.value.status ≡ false
      → Reach human_key starts_with digest names s s'
      → (row' : Row) × (find (has_id id) s' ≡ some row') × HasAnswer row.value row'.value
  answer_kept s s' id row h n here = (row, h, (n, refl, refl, refl))
  answer_kept s s' id row h n (next {t = t} r st) =
      let (row1, f, (m, x, y, z)) = answer_kept s t id row h n r in
      let (row2, f', (m', x', y', z')) =
        Change-IsCarried t s' id row1 (Step-Change human_key starts_with digest names t s' st) f
          m in
      (row2, f', (m', x' ∙ x, y' ∙ y, z' ∙ z))

-- A committed answer: the request waited, and the new value is read back.
pub write_answer-ok :
    (human_key : ℕ → List ℕ) (w : World) (actor : Actor) (id generation : ℕ)
    (inputs : Option (List (ℕ × ℕ))) (answer : ℕ) (resources : Option ℕ) (s : Store) (v : Value)
    (t : Store)
    → write_answer human_key w actor id generation inputs answer resources s ≡ ok (v, t)
    → (row : Row) × (find (has_id id) s ≡ some row)
      × (is_waiting row.value.status ≡ true)
      × (row.value.generation ≡ generation)
      × (v ≡ answered human_key w actor row inputs answer resources)
      × (find (has_id id) t ≡ some (record row { value = v }))
unfolding write_answer load
write_answer-ok human_key w actor id generation inputs answer resources s v t h =
    let (row, l, h1) = require-ok (find (has_id id) s) "HUMAN_REQUEST_DENIED" _ _ h in
    let (_, h2) = then-ok (owner w row.producer actor row.value) _ _ h1 in
    let (waits, h3) =
      guard-ok (is_waiting row.value.status && row.value.generation == generation)
        "HUMAN_RESPONSE_STALE" _ _ h2 in
    let (c, _, h4) = bind-ok (w.contract actor row.value.app row.value.operation) _ _ h3 in
    let v1 : Value = answered human_key w actor row inputs answer resources in
    let (_, h5) = then-ok (w.validate actor c.descriptor v1.inputs v1.resources none) _ _ h4 in
    let done : ◌≡◌ {A = Value × Store} (v1, save v1 s) (v, t) = ok-injective _ _ h5 in
    let same : v1 ≡ v = ap (λ (p : Value × Store). p.0) done in
    let this : row.value.id ≡ id = ==_sound _ _ (find_sound (has_id id) s row l) in
    (
      row,
      l,
      ground arith,
      ==_sound _ _ (ground arith),
      sym same,
      subst (λ (p : Value × Store). find (has_id id) p.1 ≡ some (record row { value = p.0 })) done
          (saved_back id s row v1 l (this_id row) this),
    )
  where
    this_id :
        (row : Row) → (answered human_key w actor row inputs answer resources).id ≡ row.value.id
    this_id row = unfold answered in refl

    saved_back :
        (id : ℕ) (s : Store) (row : Row) (u : Value)
        → find (has_id id) s ≡ some row
        → u.id ≡ row.value.id
        → row.value.id ≡ id
        → find (has_id id) (save u s) ≡ some (record row { value = u })
    saved_back id s row u l e q =
        unfold save in
        (find-update_stable (has_id id) (has_id u.id) (λ r. record r { value = u }) s row
            (λ y p. rw (==_sound _ _ p) refl) l
          ∙ rw (e, ==_refl) refl)
