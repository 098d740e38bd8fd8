-- ===== src/Invocations/Settled.antt =====
-- How an invocation ends: `finish_invocation` ends a running one, and an ended one never changes.
use capy_outcome_runtime_pub.Prelude.{
  ℕ, ◌≡◌, refl, ◌∙◌, ap, true, false, not, ◌&&◌, Option, some, List, [], ◌∷◌, arith, ◌==◌,
  if◌then◌else◌, ok, err,
}
use capy_outcome_runtime_pub.Table.{find, update, count, All, IsKey}
use capy_outcome_runtime_pub.Table.Laws.{All-update_to, All-of, find_sound}
use capy_outcome_runtime_pub.Table.Keys.{find-update, find-append_some, count-at_key}
use capy_outcome_runtime_pub.Invocations.{
  Status, Invocation, Executor, ExecutorState, Store, runs_as, is_running, is_finalized, finalize,
  settle, finish_invocation,
}
use capy_outcome_runtime_pub.Invocations.Calls.{
  Reach, here, next, Change, unchanged, inserted, rewritten, Step-Change,
}

Change-settled :
    (s s' : Store) (i : Invocation)
    → Change s s'
    → is_running i.status ≡ false
    → find (λ k. k.id == i.id) s.invocations ≡ some i
    → find (λ k. k.id == i.id) s'.invocations ≡ some i
Change-settled s s' i (unchanged e) ended h = rw e h
Change-settled s s' i (inserted new fresh e) ended h =
    rw e (find-append_some (λ k. k.id) (λ k. k.id == i.id) s.invocations (new ∷ []) i h)
Change-settled s s' i (rewritten id f same e) ended h =
    rw e (
      find-update (λ k. k.id) (runs_as id) f i.id s.invocations i (λ k. (same k).0) h
      ∙ ap some idle)
  where
    idle : (if runs_as id i then f i else i) ≡ i
    idle = ground (arith, ended)

-- An invocation that no longer runs keeps its row, with its status, receipt and result, whatever
-- calls follow.
pub settled_kept :
    (s s' : Store) (i : Invocation)
    → find (λ k. k.id == i.id) s.invocations ≡ some i
    → is_running i.status ≡ false
    → Reach s s'
    → find (λ k. k.id == i.id) s'.invocations ≡ some i
settled_kept s s' i h ended here = h
settled_kept s s' i h ended (next {t = t} r st) =
    Change-settled t s' i (Step-Change t s' st) ended (settled_kept s t i h ended r)

module _ (id : ℕ) (status : Status) (receipt : ℕ) (result artifacts : Option ℕ) (now : ℕ) where
  -- The executors of the invocation after its end.
  finalized :
      (es : List Executor)
      → All
          (λ e. e.invocation_id ≡ id → e.executor_state ≡ ExecutorState.finalized)
          (update
            (λ e. e.invocation_id == id && not (is_finalized e.executor_state))
            (finalize now)
            es)
  finalized es =
      All-update_to (λ _. Unit {0})
        (λ e. e.invocation_id ≡ id → e.executor_state ≡ ExecutorState.finalized)
        (λ e. e.invocation_id == id && not (is_finalized e.executor_state)) (finalize now) es
        (λ e p u q. refl) (λ e p u q. already e p q) (All-of (λ _. Unit {0}) es (λ _. tt))
    where
      by_state : (t : ExecutorState) → is_finalized t ≡ true → t ≡ ExecutorState.finalized
      by_state t h = ground arith

      already :
          (e : Executor)
          → (e.invocation_id == id && not (is_finalized e.executor_state)) ≡ false
          → e.invocation_id ≡ id
          → e.executor_state ≡ ExecutorState.finalized
      already e p q = by_state e.executor_state (ground arith)

  -- Where ids are a key, ending a running invocation writes its status, receipt, result,
  -- artifacts and time of completion and finalizes its executors; ending one that does not run is a conflict.
  pub finish_settles :
      (s : Store) (i : Invocation)
      → IsKey (λ k. k.id) s.invocations
      → find (λ k. k.id == id) s.invocations ≡ some i
      → (is_running i.status ≡ true
          → (s' : Store) × (finish_invocation id status receipt result artifacts now s ≡ ok s')
            × (find (λ k. k.id == id) s'.invocations
                ≡ some (record i {
                  status = status;
                  receipt = some receipt;
                  result = result;
                  artifacts = artifacts;
                  completed_at = some now;
                }))
            × All
                (λ e. e.invocation_id ≡ id → e.executor_state ≡ ExecutorState.finalized)
                s'.executors)
        × (is_running i.status ≡ false
            → finish_invocation id status receipt result artifacts now s
              ≡ err "INVOCATION_STATE_CONFLICT")
  unfolding finish_invocation settle
  finish_settles s i u h =
      let rows : count (runs_as id) s.invocations ≡ (if is_running i.status then 1 else 0) =
        count-at_key (λ k. k.id) id (λ k. is_running k.status) s.invocations i u h in
      (
        (λ runs. (
          record {
            invocations =
                update (runs_as id) (settle status receipt result artifacts now) s.invocations;
            executors =
                update (λ e. e.invocation_id == id && not (is_finalized e.executor_state))
                  (finalize now) s.executors;
          },
          rw (rows, runs) refl,
          find-update (λ k. k.id) (runs_as id) (settle status receipt result artifacts now) id
                s.invocations i (λ k. refl) h
              ∙ rw (find_sound (λ k. k.id == id) s.invocations i h, runs) refl,
          finalized s.executors,
        )),
        λ ended. rw (rows, ended) refl,
      )
