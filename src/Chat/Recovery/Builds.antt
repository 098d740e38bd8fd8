-- ===== src/Chat/Recovery/Builds.antt =====
-- The recoveries of build leases and retries, and the start of a retry.
use capy_outcome_runtime_pub.Table.{find, count, All, IsKey}
use capy_outcome_runtime_pub.Table.Laws.{All-update_to, All-of, length-select}
use capy_outcome_runtime_pub.Table.Keys.{count-at_key, find-update, find-append_none}
use capy_outcome_runtime_pub.Chat.{
  Authority, Conversation, Message, is_done, Turn, TurnStatus, Build, BuildStatus, is_published,
  is_retrying, Store, conversation, scope_of,
}
use capy_outcome_runtime_pub.Chat.Builds.{
  retries_as, start_retry, store_retry, begin_build_retry, is_expired, free_lease,
  recover_expired_build_leases, has_done_turn, settle_retry, recover_interrupted_build_retries,
}
use capy_outcome_runtime_pub.Chat.Turns.{is_owner_message, new_turn}
use capy_outcome_runtime_pub.Prelude.{
  ℕ, ◌≡◌, refl, ◌∙◌, ap, true, false, ◌&&◌, ◌==◌, none, some, List, arith, if◌then◌else◌, ==_refl,
  ok, err,
}

-- After `recover_expired_build_leases` no lease is expired; it counts the builds whose lease was,
-- makes each of them wait for a builder again without builder and lease, and leaves every other
-- build as it was.
pub leases_freed :
    (now : ℕ) (s : Store)
    → let (n, s') = recover_expired_build_leases now s in
      (n ≡ count (is_expired now) s.builds)
      × All (λ b. is_expired now b ≡ false) s'.builds
      × ((b : Build)
          → find (λ c. c.id == b.id) s.builds ≡ some b
          → (is_expired now b ≡ true
              → find (λ c. c.id == b.id) s'.builds
                ≡ some (record b {
                  status = BuildStatus.approved_waiting_for_builder;
                  builder_id = none;
                  lease_id = none;
                  lease_expires_at = none;
                  updated_at = now;
                }))
            × (is_expired now b ≡ false → find (λ c. c.id == b.id) s'.builds ≡ some b))
unfolding recover_expired_build_leases free_lease
leases_freed now s = (
  length-select (is_expired now) s.builds,
  All-update_to (λ _. Unit {0}) (λ b. is_expired now b ≡ false) (is_expired now) (free_lease now)
      s.builds (λ b p u. refl) (λ b p u. p) (All-of (λ _. Unit {0}) s.builds (λ _. tt)),
  λ b h.
      let row =
        find-update (λ c. c.id) (is_expired now) (free_lease now) b.id s.builds b (λ c. refl) h in
      (λ e. row ∙ rw e refl, λ e. row ∙ rw e refl),
)

settled_status :
    (turns : List Turn) (now : ℕ) (b : Build)
    → is_retrying (settle_retry turns now b).status ≡ false
unfolding settle_retry
settled_status turns now b = ground arith

settle_retry-id : (turns : List Turn) (now : ℕ) (b : Build) → (settle_retry turns now b).id ≡ b.id
unfolding settle_retry
settle_retry-id turns now b = ground arith

-- After `recover_interrupted_build_retries` no build is retrying: a build whose retry turn is done is
-- completed, and every other one is published again without a retry turn.
pub retries_settled :
    (fresh : Build → ℕ) (now : ℕ) (s : Store)
    → let (n, s') = recover_interrupted_build_retries fresh now s in
      (n ≡ count (λ b. is_retrying b.status) s.builds)
      × All (λ b. is_retrying b.status ≡ false) s'.builds
      × ((b : Build)
          → find (λ c. c.id == b.id) s.builds ≡ some b
          → (is_retrying b.status ≡ true
              → has_done_turn s.turns b ≡ true
              → find (λ c. c.id == b.id) s'.builds
                ≡ some (record b { status = BuildStatus.completed; updated_at = now }))
            × (is_retrying b.status ≡ true
                → has_done_turn s.turns b ≡ false
                → find (λ c. c.id == b.id) s'.builds
                  ≡ some (record b {
                    status = BuildStatus.published;
                    retry_turn_id = none;
                    updated_at = now;
                  }))
            × (is_retrying b.status ≡ false → find (λ c. c.id == b.id) s'.builds ≡ some b))
unfolding recover_interrupted_build_retries settle_retry
retries_settled fresh now s = (
  length-select (λ b. is_retrying b.status) s.builds,
  All-update_to (λ _. Unit {0}) (λ b. is_retrying b.status ≡ false) (λ b. is_retrying b.status)
      (settle_retry s.turns now) s.builds (λ b p u. settled_status s.turns now b) (λ b p u. p)
      (All-of (λ _. Unit {0}) s.builds (λ _. tt)),
  λ b h.
      let row =
        find-update (λ c. c.id) (λ c. is_retrying c.status) (settle_retry s.turns now) b.id s.builds
          b (settle_retry-id s.turns now) h in
      (
        λ r d. row ∙ ap some (chosen b r d),
        λ r d. row ∙ ap some (rejected b r d),
        λ r. row ∙ ap some (left b r),
      ),
)
  where
    chosen :
        (b : Build)
        → is_retrying b.status ≡ true
        → has_done_turn s.turns b ≡ true
        → (if is_retrying b.status then settle_retry s.turns now b else b)
          ≡ record b { status = BuildStatus.completed; updated_at = now }
    chosen b r d = rw (r, d) refl

    rejected :
        (b : Build)
        → is_retrying b.status ≡ true
        → has_done_turn s.turns b ≡ false
        → (if is_retrying b.status then settle_retry s.turns now b else b)
          ≡ record b { status = BuildStatus.published; retry_turn_id = none; updated_at = now }
    rejected b r d = rw (r, d) refl

    left :
        (b : Build)
        → is_retrying b.status ≡ false
        → (if is_retrying b.status then settle_retry s.turns now b else b) ≡ b
    left b r = rw r refl

-- Where build ids are a key, `begin_build_retry` in a conversation that the authority sees and for a
-- message of its owner starts the retry of a published build of that conversation and scope: the
-- build names the new turn, the new turn works, and both are stored with one commit. A build that
-- is not published there is a conflict.
pub retry_linked :
    (b : Build) (a : Authority) (c : Conversation) (m : Message)
    (world adapter model fresh event now : ℕ) (s : Store)
    → IsKey (λ d. d.id) s.builds
    → find (λ d. d.id == b.id) s.builds ≡ some b
    → find (λ t. t.id == fresh) s.turns ≡ none
    → conversation a c.id s ≡ ok c
    → find (is_owner_message m.id c.id) s.messages ≡ some m
    → ((b.scope_id == scope_of a && b.conversation_id == c.id && is_published b.status) ≡ true
        → (s' : Store) × (begin_build_retry b.id a c.id m.id world adapter model fresh event now s
            ≡ ok (fresh, s'))
          × (find (λ d. d.id == b.id) s'.builds
              ≡ some (record b {
                status = BuildStatus.retrying;
                retry_turn_id = some fresh;
                terminal_error = none;
                updated_at = now;
              }))
          × (find (λ t. t.id == fresh) s'.turns
              ≡ some (record {
                id = fresh;
                conversation_id = c.id;
                owner_message_id = m.id;
                world_digest = world;
                adapter = adapter;
                model = model;
                status = TurnStatus.working;
                action = none;
                invocation_id = none;
                gap_id = none;
                error_code = none;
                usage = 0;
                created_at = now;
                completed_at = none;
              })))
      × ((b.scope_id == scope_of a && b.conversation_id == c.id && is_published b.status) ≡ false
          → begin_build_retry b.id a c.id m.id world adapter model fresh event now s
            ≡ err "BUILD_STATE_CONFLICT")
unfolding begin_build_retry store_retry start_retry new_turn find
retry_linked b a c m world adapter model fresh event now s u h new seen asked =
    let rows : count (retries_as b.id (scope_of a) c.id) s.builds ≡ (
        if b.scope_id == scope_of a && b.conversation_id == c.id && is_published b.status
        then 1
        else 0) =
      count-at_key (λ d. d.id) b.id
        (λ d. d.scope_id == scope_of a && d.conversation_id == c.id && is_published d.status)
        s.builds b u h in
    (
      λ free. (
        store_retry b.id (scope_of a) c.id m.id world adapter model fresh event now s,
        rw (seen, asked, rows, free) refl,
        find-update (λ d. d.id) (retries_as b.id (scope_of a) c.id) (start_retry fresh now) b.id
              s.builds b (λ d. refl) h
            ∙ ap some (written free),
        find-append_none (λ (k : Turn). k.id) _ s.turns _ new ∙ rw (==_refl fresh) refl,
      ),
      λ other. rw (seen, asked, rows, other) refl,
    )
  where
    written :
        (b.scope_id == scope_of a && b.conversation_id == c.id && is_published b.status) ≡ true
        → (if retries_as b.id (scope_of a) c.id b then start_retry fresh now b else b)
          ≡ start_retry fresh now b
    written free = ground (arith, free)

-- A retry that a restart interrupts while its turn has not ended is published again, and one whose
-- turn has ended as done is completed.
retried_turn :
    (turns : List Turn) (fresh now : ℕ) (b : Build) (t : Turn)
    → find (λ u. u.id == fresh) turns ≡ some t
    → has_done_turn turns (start_retry fresh now b) ≡ is_done t.status
unfolding start_retry
retried_turn turns fresh now b t h = rw (has_done_turn, h) refl
