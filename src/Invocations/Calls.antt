-- ===== src/Invocations/Calls.antt =====
-- Sequences of calls on the invocations and executors, and what each call leaves of the rows.
use mathlib.Core.Path.{subst}
use capy_outcome_runtime_pub.Prelude.{
  ℕ, ◌≡◌, refl, sym, ap, true, not, ◌&&◌, Option, none, some, List, [], ◌∷◌, ◌++◌, ◌==◌, is_none,
  ok, bind-ok, guard-ok, ok-injective,
}
use capy_outcome_runtime_pub.Table.{find, update, count}
use capy_outcome_runtime_pub.Invocations.{
  Status, Invocation, Request, ExecutorState, ExecutorValue, Store, is_key, holds_key, runs_as,
  is_succeeded, is_allowed, is_finalized, finalize, new_invocation, replay, insert, begin_row,
  begin_invocation, settle, finish_invocation, record_executor, prepared, update_executor, lose,
  mark_execution_unknown,
}

-- One call, at the value `now` of the clock.
pub data Step (s : Store) (s' : Store) : Type 0 where
  begun :
      (r : Request) (key : Option (List ℕ)) (fresh now : ℕ) (a : ℕ × Option Invocation)
      → begin_invocation r key fresh now s ≡ ok (a, s')
      → Step s s'
  finished :
      (id : ℕ) (status : Status) (receipt : ℕ) (result artifacts : Option ℕ) (now : ℕ)
      → finish_invocation id status receipt result artifacts now s ≡ ok s'
      → Step s s'
  recorded : (id : ℕ) (v : ExecutorValue) (now : ℕ) → record_executor id v now s ≡ ok s' → Step s s'
  updated :
      (id : ℕ) (state : ExecutorState) (unit receipt : Option ℕ) (now : ℕ)
      → update_executor id state unit receipt now s ≡ ok s'
      → Step s s'
  lost :
      (id detail receipt now : ℕ)
      → mark_execution_unknown id detail receipt now s ≡ ok s'
      → Step s s'

pub data Reach (s : Store) : Store → Type 0 where
  here : Reach s s
  next : {t u : Store} → Reach s t → Step t u → Reach s u

-- What a call does to the invocations: nothing, a new row, or an UPDATE of one running row that
-- leaves its identity alone.
pub data Change (s : Store) (s' : Store) : Type 0 where
  unchanged : s'.invocations ≡ s.invocations → Change s s'
  inserted :
      (i : Invocation)
      → ((key : List ℕ)
          → i.idempotency_key ≡ some key
          → find (holds_key i.scope_id key) s.invocations ≡ none)
      → s'.invocations ≡ s.invocations ++ i ∷ []
      → Change s s'
  rewritten :
      (id : ℕ) (f : Invocation → Invocation)
      → ((i : Invocation)
          → ((f i).id ≡ i.id)
            × ((f i).scope_id ≡ i.scope_id)
            × ((f i).capability_id ≡ i.capability_id)
            × ((f i).version_digest ≡ i.version_digest)
            × ((f i).request_digest ≡ i.request_digest)
            × ((f i).idempotency_key ≡ i.idempotency_key))
      → s'.invocations ≡ update (runs_as id) f s.invocations
      → Change s s'

replay-ok :
    (r : Request) (i : Invocation) (s : Store) (a : ℕ × Option Invocation) (s' : Store)
    → replay r i s ≡ ok (a, s')
    → (s ≡ s') × (is_succeeded i.status ≡ true)
unfolding replay
replay-ok r i s a s' h =
    let (_, h1) = guard-ok _ _ _ _ h in
    let (done, h2) = guard-ok _ _ _ _ h1 in
    (ap (λ (t : (ℕ × Option Invocation) × Store). t.1) (ok-injective _ _ h2), done)

insert-Change :
    (i : Invocation) (s : Store) (a : ℕ × Option Invocation) (s' : Store)
    → ((key : List ℕ)
        → i.idempotency_key ≡ some key
        → find (holds_key i.scope_id key) s.invocations ≡ none)
    → insert i s ≡ ok (a, s')
    → Change s s'
insert-Change i s a s' new h =
    inserted i new
      (sym (ap (λ (t : (ℕ × Option Invocation) × Store). t.1.invocations) (ok-injective _ _ h)))

begin_row-Change :
    (r : Request) (o : Option Invocation) (i : Invocation) (s : Store) (a : ℕ × Option Invocation)
    (s' : Store)
    → (o ≡ none
        → (key : List ℕ) → i.idempotency_key ≡ some key
        → find (holds_key i.scope_id key) s.invocations ≡ none)
    → begin_row r o i s ≡ ok (a, s')
    → Change s s'
unfolding begin_row
begin_row-Change r none i s a s' new h = insert-Change i s a s' (new refl) h
begin_row-Change r (some old) i s a s' new h =
    unchanged (ap (λ (t : Store). t.invocations) (sym (replay-ok r old s a s' h).0))

begin-Change :
    (r : Request) (key : Option (List ℕ)) (fresh now : ℕ) (s : Store) (a : ℕ × Option Invocation)
    (s' : Store)
    → begin_invocation r key fresh now s ≡ ok (a, s')
    → Change s s'
unfolding begin_invocation new_invocation
begin-Change r none fresh now s a s' h =
    insert-Change (new_invocation r none fresh now) s a s' (λ key e. cc) h
begin-Change r (some key) fresh now s a s' h =
    begin_row-Change r (find (holds_key r.scope_id key) s.invocations)
      (new_invocation r (some key) fresh now) s a s'
      (λ e k q. subst (λ t. find (holds_key r.scope_id t) s.invocations ≡ none) (cc) e)
      (guard-ok (is_key key) "INVOCATION_IDEMPOTENCY_KEY_INVALID" _ _ h).1

record_executor-keeps :
    (id : ℕ) (v : ExecutorValue) (now : ℕ) (s s' : Store)
    → record_executor id v now s ≡ ok s'
    → s'.invocations ≡ s.invocations
unfolding record_executor
record_executor-keeps id v now s s' h =
    let (row, _, h1) = bind-ok (prepared id v now) _ _ h in
    let (_, h2) =
      guard-ok (is_none (find (λ e. e.invocation_id == id) s.executors)) "EXECUTOR_RECORD_CONFLICT"
        _ _ h1 in
    let (_, h3) =
      guard-ok (not (is_none (find (λ i. i.id == id) s.invocations))) "EXECUTOR_RECORD_CONFLICT" _ _
        h2 in
    ap (λ (t : Store). t.invocations) (sym (ok-injective _ _ h3))

update_executor-keeps :
    (id : ℕ) (state : ExecutorState) (unit receipt : Option ℕ) (now : ℕ) (s s' : Store)
    → update_executor id state unit receipt now s ≡ ok s'
    → s'.invocations ≡ s.invocations
unfolding update_executor
update_executor-keeps id state unit receipt now s s' h =
    let (_, h1) = guard-ok (is_allowed state) "EXECUTOR_STATE_INVALID" _ _ h in
    let (_, h2) =
      guard-ok (count (λ e. e.invocation_id == id) s.executors == 1) "EXECUTOR_RECORD_UNKNOWN" _ _
        h1 in
    ap (λ (t : Store). t.invocations) (sym (ok-injective _ _ h2))

pub finish_invocation-ok :
    (id : ℕ) (status : Status) (receipt : ℕ) (result artifacts : Option ℕ) (now : ℕ) (s s' : Store)
    → finish_invocation id status receipt result artifacts now s ≡ ok s'
    → (count (runs_as id) s.invocations == 1 ≡ true)
      × (s'.invocations
          ≡ update (runs_as id) (settle status receipt result artifacts now) s.invocations)
      × (s'.executors
          ≡ update
              (λ e. e.invocation_id == id && not (is_finalized e.executor_state))
              (finalize now)
              s.executors)
unfolding finish_invocation
finish_invocation-ok id status receipt result artifacts now s s' h =
    let (one, h1) =
      guard-ok (count (runs_as id) s.invocations == 1) "INVOCATION_STATE_CONFLICT" _ _ h in
    let done = sym (ok-injective _ _ h1) in
    (one, ap (λ (t : Store). t.invocations) done, ap (λ (t : Store). t.executors) done)

mark_execution_unknown-writes :
    (id detail receipt now : ℕ) (s s' : Store)
    → mark_execution_unknown id detail receipt now s ≡ ok s'
    → s'.invocations ≡ update (runs_as id) (lose receipt now) s.invocations
unfolding mark_execution_unknown
mark_execution_unknown-writes id detail receipt now s s' h =
    let (_, h1) =
      guard-ok (count (runs_as id) s.invocations == 1) "INVOCATION_STATE_CONFLICT" _ _ h in
    ap (λ (t : Store). t.invocations) (sym (ok-injective _ _ h1))

pub Step-Change : (s s' : Store) → Step s s' → Change s s'
unfolding settle
Step-Change s s' (begun r key fresh now a h) = begin-Change r key fresh now s a s' h
Step-Change s s' (finished id status receipt result artifacts now h) =
    rewritten id (settle status receipt result artifacts now)
      (λ i. (refl, refl, refl, refl, refl, refl))
      (finish_invocation-ok id status receipt result artifacts now s s' h).1
Step-Change s s' (recorded id v now h) = unchanged (record_executor-keeps id v now s s' h)
Step-Change s s' (updated id state unit receipt now h) =
    unchanged (update_executor-keeps id state unit receipt now s s' h)
Step-Change s s' (lost id detail receipt now h) =
    rewritten id (lose receipt now) (λ i. (refl, refl, refl, refl, refl, refl))
      (mark_execution_unknown-writes id detail receipt now s s' h)
