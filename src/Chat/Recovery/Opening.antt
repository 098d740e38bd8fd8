-- ===== src/Chat/Recovery/Opening.antt =====
-- `ChatStore.__init__` of src/capy_outcome_runtime/chat.py: the recoveries, one after the other.
use capy_outcome_runtime_pub.Dispatch
use capy_outcome_runtime_pub.Table.{All}
use capy_outcome_runtime_pub.Table.Laws.{All-update}
use capy_outcome_runtime_pub.Chat.{is_working, Turn, is_approving, is_retrying, Build, Store}
use capy_outcome_runtime_pub.Chat.Turns.{has_job, are_new, recover_interrupted_turns}
use capy_outcome_runtime_pub.Chat.Proposals.{recover_interrupted_build_proposal_approvals}
use capy_outcome_runtime_pub.Chat.Builds.{
  is_expired, free_lease, recover_expired_build_leases, recover_interrupted_build_retries,
}
use capy_outcome_runtime_pub.Chat.Recovery.Turns.{turns_recovered}
use capy_outcome_runtime_pub.Chat.Recovery.Proposals.{approvals_settled}
use capy_outcome_runtime_pub.Chat.Recovery.Builds.{retries_settled, leases_freed}
use capy_outcome_runtime_pub.Prelude.{
  ℕ, Bool, ◌≡◌, refl, true, false, not, Option, List, Result, ok, err, passes, guard, ◌>>=◌, ◌>>◌,
}

module _ (consumes : ℕ → ℕ → Bool) (incident : Turn → ℕ) (apology : List ℕ) (kind : ℕ)
    (fresh : Turn → ℕ) where
  -- What follows the recovery of the turns.
  abbrev pub settle_work : (Build → ℕ) → ℕ → Store → Store
  settle_work event now s =
      let retried = (recover_interrupted_build_retries event now s).1 in
      let approved = (recover_interrupted_build_proposal_approvals now retried).1 in
      (recover_expired_build_leases now approved).1

  -- What a restart leaves.
  abbrev pub IsSettled : Option (List Dispatch.Types.Job) → ℕ → Store → Type 0
  IsSettled jobs now s =
      All
        (λ t.
          is_working t.status ≡ true → has_job consumes incident apology kind fresh jobs t ≡ true)
        s.turns
      × All (λ b. is_retrying b.status ≡ false) s.builds
      × All (λ b. is_expired now b ≡ false) s.builds
      × All (λ p. is_approving p.status ≡ false) s.proposals

  -- `has_conflict` is the last SELECT of `_initialize`, on a column that only older databases have.
  unfoldable pub open_store :
      (Build → ℕ) → Bool → Option (List Dispatch.Types.Job) → ℕ → Store → Result Store
  open_store event has_conflict jobs now s = do
    guard (not has_conflict) "CONVERSATION_SCOPE_MIGRATION_CONFLICT"
    r ← recover_interrupted_turns consumes incident apology kind fresh jobs now s
    ok (settle_work event now r.1)

  settle_work-IsSettled :
      (event : Build → ℕ) (jobs : Option (List Dispatch.Types.Job)) (now : ℕ) (s : Store)
      (r : ℕ × Store)
      → recover_interrupted_turns consumes incident apology kind fresh jobs now s ≡ ok r
      → IsSettled jobs now (settle_work event now r.1)
  unfolding recover_interrupted_build_retries recover_interrupted_build_proposal_approvals
      recover_expired_build_leases free_lease
  settle_work-IsSettled event jobs now s r e =
      let retried = (recover_interrupted_build_retries event now r.1).1 in
      let approved = (recover_interrupted_build_proposal_approvals now retried).1 in
      (
        (turns_recovered consumes incident apology kind fresh jobs now s r.1 r.0 e).1,
        All-update (λ b. is_retrying b.status ≡ false) (is_expired now) (free_lease now)
            retried.builds (λ b p q. refl) (retries_settled event now r.1).1,
        (leases_freed now approved).1,
        (approvals_settled now retried).1,
      )

  recovers :
      (jobs : Option (List Dispatch.Types.Job)) (now : ℕ) (s : Store)
      → are_new consumes incident apology kind fresh jobs s ≡ true
      → (r : ℕ × Store) × (recover_interrupted_turns consumes incident apology kind fresh jobs now s
          ≡ ok r)
  unfolding recover_interrupted_turns
  recovers jobs now s new =
      (_, passes (are_new consumes incident apology kind fresh jobs s) "IntegrityError" _ new)

  -- A chat store whose scopes do not conflict and whose interrupted turns have no incident yet opens,
  -- and then has no working turn without a job, no build that is retrying or whose lease is expired,
  -- and no proposal that is approving; one with such an incident or such a conflict does not open.
  pub opened-IsSettled :
      (event : Build → ℕ) (jobs : Option (List Dispatch.Types.Job)) (now : ℕ) (s : Store)
      → (are_new consumes incident apology kind fresh jobs s ≡ true
          → (s' : Store) × (open_store event false jobs now s ≡ ok s') × IsSettled jobs now s')
        × (are_new consumes incident apology kind fresh jobs s ≡ false
            → open_store event false jobs now s ≡ err "IntegrityError")
        × (open_store event true jobs now s ≡ err "CONVERSATION_SCOPE_MIGRATION_CONFLICT")
  unfolding open_store recover_interrupted_turns
  opened-IsSettled event jobs now s = (
    λ new.
        let (r, e) = recovers jobs now s new in
        (settle_work event now r.1, rw e refl, settle_work-IsSettled event jobs now s r e),
    λ old. rw old refl,
    refl,
  )
