-- ===== src/Chat/Builds.antt =====
-- Build requests of src/capy_outcome_runtime/chat.py: their transitions, leases and retries.
use capy_outcome_runtime_pub.Table.{find, select, update, count}
use capy_outcome_runtime_pub.Chat.{
  Authority, Turn, is_done, Build, BuildStatus, is_building, is_published, is_retrying,
  CandidateColumns, BuildEvent, Store, scope_of, conversation,
}
use capy_outcome_runtime_pub.Chat.Turns.{is_owner_message, new_turn}
use capy_outcome_runtime_pub.Prelude.{
  ℕ, Bool, true, false, not, ◌&&◌, ◌||◌, Option, none, some, String, List, [], ◌∷◌, ◌++◌, map, leb,
  ◌==◌, if◌then◌else◌, is_none, length, Result, ok, ◌>>=◌, ◌>>◌, guard, require,
}

-- The rows that `INSERT INTO build_requests` refers to.
abbrev pub has_references : Build → Store → Bool
has_references b s =
    not (is_none (find (λ g. g.id == b.gap_id) s.gaps))
    && not (is_none (find (λ m. m.id == b.original_owner_message_id) s.messages))
    && not (is_none (find (λ t. t.id == b.original_turn_id) s.turns))

-- `INSERT OR IGNORE INTO build_requests`: the id and the gap are unique.
unfoldable pub insert_build : Build → List Build → List Build
insert_build b bs =
    if is_none (find (λ c. c.id == b.id || c.gap_id == b.gap_id) bs) then bs ++ b ∷ [] else bs

abbrev pub no_candidate : CandidateColumns
no_candidate = record {
  builder_session_id = none;
  candidate_repository = none;
  candidate_commit = none;
  candidate_tree = none;
  candidate_archive_digest = none;
  candidate_capability_id = none;
  candidate_version_digest = none;
  acceptance_digest = none;
  previous_binding = none;
  published_binding = none;
}

-- The row that the INSERT writes: the columns that it does not name are NULL.
unfoldable pub fresh_build : Build → Build
fresh_build b = record b {
  builder_id = none;
  lease_id = none;
  lease_expires_at = none;
  candidate = no_candidate;
  retry_turn_id = none;
  terminal_error = none;
}

-- `create_build_request`
unfoldable pub create_build_request : Build → Store → Result (Build × Store)
unfolding conversation insert_build fresh_build
create_build_request b s = do
  c ← conversation (Authority.scope b.scope_id) b.conversation_id s
  let builds = insert_build (fresh_build b) s.builds
  guard
      (not (is_none (find (λ c. c.id == b.id || c.gap_id == b.gap_id) s.builds))
        || has_references b s)
      "IntegrityError"
  row ← require (find (λ c. c.gap_id == b.gap_id) builds) "TypeError"
  ok (row, record s { builds = builds })

-- `build`
unfoldable pub build : ℕ → Option ℕ → Store → Result Build
build id scope_id s =
    require
      (find (λ b. b.id == id && elim scope_id [ none ↦ true | some x ↦ b.scope_id == x ]) s.builds)
      "BUILD_REQUEST_UNKNOWN"

abbrev pub same_status : BuildStatus → BuildStatus → Bool
same_status BuildStatus.approved_waiting_for_builder BuildStatus.approved_waiting_for_builder = true
same_status BuildStatus.building BuildStatus.building = true
same_status BuildStatus.candidate_submitted BuildStatus.candidate_submitted = true
same_status BuildStatus.accepting BuildStatus.accepting = true
same_status BuildStatus.candidate_rejected BuildStatus.candidate_rejected = true
same_status BuildStatus.published BuildStatus.published = true
same_status BuildStatus.retrying BuildStatus.retrying = true
same_status BuildStatus.completed BuildStatus.completed = true
same_status BuildStatus.blocked_build BuildStatus.blocked_build = true
same_status BuildStatus.cancelled BuildStatus.cancelled = true
same_status BuildStatus.other_build_status BuildStatus.other_build_status = true
same_status _ _ = false

abbrev pub is_expected : List BuildStatus → BuildStatus → Bool
is_expected [] status = false
is_expected (x ∷ xs) status = same_status x status || is_expected xs status

-- The keyword arguments of `transition_build`: a field that is not given is `none`. `unlisted` tells
-- whether there is a field that is not allowed.
pub record Fields : Type 0 where
  pub builder_id : Option (Option ℕ)
  pub lease_id : Option (Option ℕ)
  pub lease_expires_at : Option (Option ℕ)
  pub builder_session_id : Option (Option ℕ)
  pub candidate_repository : Option (Option ℕ)
  pub candidate_commit : Option (Option ℕ)
  pub candidate_tree : Option (Option ℕ)
  pub candidate_archive_digest : Option (Option ℕ)
  pub candidate_capability_id : Option (Option ℕ)
  pub candidate_version_digest : Option (Option ℕ)
  pub acceptance_digest : Option (Option ℕ)
  pub previous_binding : Option (Option ℕ)
  pub published_binding : Option (Option ℕ)
  pub retry_turn_id : Option (Option ℕ)
  pub terminal_error : Option (Option String)
  pub unlisted : Bool

abbrev pub given {ℓ} : {A : Type ℓ} → Option A → A → A
given none old = old
given (some new) old = new

unfoldable pub assign : BuildStatus → Fields → ℕ → Build → Build
assign status f now b = record b {
  status = status;
  builder_id = given f.builder_id b.builder_id;
  lease_id = given f.lease_id b.lease_id;
  lease_expires_at = given f.lease_expires_at b.lease_expires_at;
  candidate = record {
    builder_session_id = given f.builder_session_id b.candidate.builder_session_id;
    candidate_repository = given f.candidate_repository b.candidate.candidate_repository;
    candidate_commit = given f.candidate_commit b.candidate.candidate_commit;
    candidate_tree = given f.candidate_tree b.candidate.candidate_tree;
    candidate_archive_digest =
        given f.candidate_archive_digest b.candidate.candidate_archive_digest;
    candidate_capability_id = given f.candidate_capability_id b.candidate.candidate_capability_id;
    candidate_version_digest =
        given f.candidate_version_digest b.candidate.candidate_version_digest;
    acceptance_digest = given f.acceptance_digest b.candidate.acceptance_digest;
    previous_binding = given f.previous_binding b.candidate.previous_binding;
    published_binding = given f.published_binding b.candidate.published_binding;
  };
  retry_turn_id = given f.retry_turn_id b.retry_turn_id;
  terminal_error = given f.terminal_error b.terminal_error;
  updated_at = now;
}

abbrev pub moves_as : ℕ → List BuildStatus → Build → Bool
moves_as id expected b = b.id == id && is_expected expected b.status

abbrev pub new_event : ℕ → ℕ → BuildStatus → Bool → ℕ → BuildEvent
new_event fresh id status recovered now = record {
  id = fresh;
  build_id = id;
  status = status;
  recovered = recovered;
  created_at = now;
}

-- `transition_build`
unfoldable pub transition_build :
    ℕ → List BuildStatus → BuildStatus → Fields → ℕ → ℕ → Store → Result (Build × Store)
unfolding assign
transition_build id expected status f fresh now s = do
  guard (not f.unlisted) "BUILD_UPDATE_INVALID"
  guard (count (moves_as id expected) s.builds == 1) "BUILD_STATE_CONFLICT"
  let builds = update (moves_as id expected) (assign status f now) s.builds
  b ← require (find (λ b. b.id == id) builds) "TypeError"
  ok (
    b,
    record s { builds = builds; events = s.events ++ new_event fresh id status false now ∷ [] },
  )

abbrev pub retries_as : ℕ → ℕ → ℕ → Build → Bool
retries_as id scope_id conversation b =
    b.id == id
    && (b.scope_id == scope_id && b.conversation_id == conversation && is_published b.status)

unfoldable pub start_retry : ℕ → ℕ → Build → Build
start_retry turn now b = record b {
  status = BuildStatus.retrying;
  retry_turn_id = some turn;
  terminal_error = none;
  updated_at = now;
}

-- The three statements of `begin_build_retry` that write.
unfoldable pub store_retry : ℕ → ℕ → ℕ → ℕ → ℕ → ℕ → ℕ → ℕ → ℕ → ℕ → Store → Store
unfolding start_retry new_turn
store_retry id scope_id conversation_id message world adapter model fresh event now s = record s {
  builds = update (retries_as id scope_id conversation_id) (start_retry fresh now) s.builds;
  turns = s.turns ++ new_turn conversation_id message world adapter model fresh now ∷ [];
  events = s.events ++ new_event event id BuildStatus.retrying false now ∷ [];
}

-- `begin_build_retry`
unfoldable pub begin_build_retry :
    ℕ → Authority → ℕ → ℕ → ℕ → ℕ → ℕ → ℕ → ℕ → ℕ → Store → Result (ℕ × Store)
unfolding conversation store_retry
begin_build_retry id authority conversation_id message world adapter model fresh event now s = do
  c ← conversation authority conversation_id s
  m ←
      require (find (is_owner_message message conversation_id) s.messages)
        "TURN_OWNER_MESSAGE_INVALID"
  guard (count (retries_as id (scope_of authority) conversation_id) s.builds == 1)
      "BUILD_STATE_CONFLICT"
  ok (
    fresh,
    store_retry id (scope_of authority) conversation_id message world adapter model fresh event now
        s,
  )

-- `lease_expires_at <= ?`, which holds of no NULL.
abbrev pub is_expired : ℕ → Build → Bool
is_expired now b =
    is_building b.status && elim b.lease_expires_at [ none ↦ false | some t ↦ leb t now ]

unfoldable pub free_lease : ℕ → Build → Build
free_lease now b = record b {
  status = BuildStatus.approved_waiting_for_builder;
  builder_id = none;
  lease_id = none;
  lease_expires_at = none;
  updated_at = now;
}

-- `recover_expired_build_leases`
unfoldable pub recover_expired_build_leases : ℕ → Store → ℕ × Store
unfolding free_lease
recover_expired_build_leases now s = (
  length (select (is_expired now) s.builds),
  record s { builds = update (is_expired now) (free_lease now) s.builds },
)

-- The turn that a build's `LEFT JOIN` finds done.
abbrev pub has_done_turn : List Turn → Build → Bool
has_done_turn turns b = elim b.retry_turn_id [
  | none ↦ false
  | some id ↦ elim (find (λ t. t.id == id) turns) [ none ↦ false | some t ↦ is_done t.status ]
]

unfoldable pub settle_retry : List Turn → ℕ → Build → Build
settle_retry turns now b =
    if has_done_turn turns b
    then record b { status = BuildStatus.completed; updated_at = now }
    else record b { status = BuildStatus.published; retry_turn_id = none; updated_at = now }

-- `recover_interrupted_build_retries`: `fresh` are the identifiers of the events.
unfoldable pub recover_interrupted_build_retries : (Build → ℕ) → ℕ → Store → ℕ × Store
unfolding settle_retry
recover_interrupted_build_retries fresh now s =
    let rows = select (λ b. is_retrying b.status) s.builds in
    (
      length rows,
      record s {
        builds = update (λ b. is_retrying b.status) (settle_retry s.turns now) s.builds;
        events =
            s.events
            ++ map (λ b. new_event (fresh b) b.id (settle_retry s.turns now b).status true now)
                rows;
      },
    )
