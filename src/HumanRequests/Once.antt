-- ===== src/HumanRequests/Once.antt =====
-- An accepted answer of src/capy_outcome_runtime/human_requests.py is the only one.
use mathlib.Core.Option.{some-injective}
use capy_outcome_runtime_pub.Table.{find}
use capy_outcome_runtime_pub.HumanRequests.{
  is_waiting, Actor, Value, Row, Store, World, commit, has_id, load, owner, answered, write_answer,
  after_get, get, respond, respond_as, cancel, cancel_rows,
}
use capy_outcome_runtime_pub.HumanRequests.Steps.{Reach, get-Change}
use capy_outcome_runtime_pub.HumanRequests.Answered.{
  HasAnswer, answer_kept, Change-IsCarried, write_answer-ok,
}
use capy_outcome_runtime_pub.Prelude.{
  ℕ, Bool, false, ◌&&◌, ◌≡◌, ◌≢◌, refl, sym, ◌∙◌, ap, arith, Option, none, some, String, List, ◌==◌,
  Result, ok, err, bind-ok, then-ok, require-ok, guard-ok, ok-injective,
}

-- A transaction that returns has returned its own value and rows.
pub commit-ok :
    {A : Type 0} (c : Result (A × Store)) (s : Store) (a : A) (t : Store)
    → commit c s ≡ (ok a, t)
    → c ≡ ok (a, t)
commit-ok {A} (ok (b, u)) s a t h =
    let first : ◌≡◌ {A = Result A} (ok b) (ok a) = ap (λ (p : Result A × Store). p.0) h in
    let second : u ≡ t = ap (λ (p : Result A × Store). p.1) h in cc (ok-injective _ _ first)
commit-ok {A} (err e) s a t h = absurd (clash (ap (λ (p : Result A × Store). p.0) h))
  where
    clash : ◌≡◌ {A = Result A} (err e) (ok a) → ⊥
    clash q = cc

module _ (human_key : ℕ → List ℕ) (starts_with : String → String → Bool)
    (digest : List (ℕ × ℕ) → ℕ → ℕ → ℕ) (names : ℕ → ℕ → Bool) where
  -- An accepted answer was written after the first transaction of `respond`.
  respond_as-ok :
      (w : World) (r : Result Actor) (id g : ℕ) (inputs : Option (List (ℕ × ℕ))) (answer : ℕ)
      (resources : Option ℕ) (s : Store) (v : Value) (t : Store)
      → respond_as human_key w r id g inputs answer resources s ≡ (ok v, t)
      → (current : Actor) × (write_answer human_key w current id g inputs answer resources
            (get human_key w current id s).1
          ≡ ok (v, t))
  unfolding respond_as
  respond_as-ok w (err e) id g inputs answer resources s v t h =
      absurd (clash (ap (λ (p : Result Value × Store). p.0) h))
    where
      clash : ◌≡◌ {A = Result Value} (err e) (ok v) → ⊥
      clash q = cc
  respond_as-ok w (ok current) id g inputs answer resources s v t h =
      (current, after (get human_key w current id s) h)
    where
      after :
          (p : Result Value × Store)
          → after_get human_key w current id g inputs answer resources p ≡ (ok v, t)
          → write_answer human_key w current id g inputs answer resources p.1 ≡ ok (v, t)
      after (ok a, u) q =
          commit-ok (write_answer human_key w current id g inputs answer resources u) u v t q
      after (err e, u) q = absurd (clash (ap (λ (p : Result Value × Store). p.0) q))
        where
          clash : ◌≡◌ {A = Result Value} (err e) (ok v) → ⊥
          clash z = cc

  -- A request that is not waiting takes no answer and is not cancelled.
  respond_refuses :
      (w : World) (actor : Actor) (id g : ℕ) (inputs : Option (List (ℕ × ℕ))) (answer : ℕ)
      (resources : Option ℕ) (s : Store) (row : Row) (v : Value) (t : Store)
      → find (has_id id) s ≡ some row
      → is_waiting row.value.status ≡ false
      → respond human_key w actor id g inputs answer resources s ≢ (ok v, t)
  unfolding respond
  respond_refuses w actor id g inputs answer resources s row v t f n h =
      let (current, q) =
        respond_as-ok w (w.guarded_actor actor) id g inputs answer resources s v t h in
      let (now, found, waits, _, _, _) =
        write_answer-ok human_key w current id g inputs answer resources
          (get human_key w current id s).1 v t q in
      let (row', f', (m, _, _, _)) =
        Change-IsCarried s (get human_key w current id s).1 id row
          (get-Change human_key starts_with digest names w current id s) f n in
      let same : row' ≡ now = some-injective _ _ (sym f' ∙ found) in cc

  cancel_refuses :
      (w : World) (actor : Actor) (id g : ℕ) (s : Store) (row : Row) (v : Value) (t : Store)
      → find (has_id id) s ≡ some row
      → is_waiting row.value.status ≡ false
      → cancel human_key w actor id g s ≢ (ok v, t)
  unfolding cancel load
  cancel_refuses w actor id g s row v t f n h =
      let q = commit-ok (cancel_rows human_key w actor id g s) s v t h in
      let (current, _, h1) = bind-ok (w.guarded_actor actor) _ _ q in
      let (now, found, h2) = require-ok (find (has_id id) s) "HUMAN_REQUEST_DENIED" _ _ h1 in
      let (_, h3) = then-ok (owner w now.producer current now.value) _ _ h2 in
      let (waits, _) =
        guard-ok (is_waiting now.value.status && now.value.generation == g) "HUMAN_RESPONSE_STALE" _
          _ h3 in
      let same : row ≡ now = some-injective _ _ (sym f ∙ found) in ground arith

  -- Once an answer is accepted, whatever operations, triggers and deliveries follow in any order, the
  -- request keeps that response with its inputs and resources, and every later answer or
  -- cancellation of it is refused.
  pub answered_once :
      (w : World) (actor : Actor) (id g : ℕ) (inputs : Option (List (ℕ × ℕ))) (answer : ℕ)
      (resources : Option ℕ) (s : Store) (v : Value) (s' s'' : Store)
      → respond human_key w actor id g inputs answer resources s ≡ (ok v, s')
      → Reach human_key starts_with digest names s' s''
      → (row : Row) × (find (has_id id) s'' ≡ some row)
        × HasAnswer v row.value
        × (v.response ≢ none)
        × ((w' : World) (actor' : Actor) (g' : ℕ) (inputs' : Option (List (ℕ × ℕ))) (answer' : ℕ)
              (resources' : Option ℕ) (v' : Value) (t : Store)
            → respond human_key w' actor' id g' inputs' answer' resources' s'' ≢ (ok v', t))
        × ((w' : World) (actor' : Actor) (g' : ℕ) (v' : Value) (t : Store)
            → cancel human_key w' actor' id g' s'' ≢ (ok v', t))
  unfolding respond
  answered_once w actor id g inputs answer resources s v s' s'' h reach =
      let (current, q) =
        respond_as-ok w (w.guarded_actor actor) id g inputs answer resources s v s' h in
      let (row, found, waits, gen, same, read) =
        write_answer-ok human_key w current id g inputs answer resources
          (get human_key w current id s).1 v s' q in
      let left : is_waiting v.status ≡ false = rw same (unfold answered in refl) in
      let (row', f', kept) = answer_kept s' s'' id (record row { value = v }) read left reach in
      (
        row',
        f',
        kept,
        rw same (unfold answered in λ e. cc),
        (λ w' actor' g' inputs' answer' resources' v' t.
            respond_refuses w' actor' id g' inputs' answer' resources' s'' row' v' t f' kept.0),
        λ w' actor' g' v' t. cancel_refuses w' actor' id g' s'' row' v' t f' kept.0,
      )
