-- ===== src/Chat.antt =====
-- `ChatStore` of src/capy_outcome_runtime/chat.py: conversations and messages. Each operation is one
-- transaction; `fresh` is its new `uuid4`, `now` the value of `utc_now`.
mod Types
pub mod Turns
pub mod Proposals
pub mod Builds
pub mod Records
pub mod Steps
pub mod Evolution
pub mod Kept
pub mod Recovery
mod Tests
pub use Types.*
use capy_outcome_runtime_pub.Table.{find, select, update, count}
use capy_outcome_runtime_pub.Prelude.{
  ℕ, zero, suc, ◌+◌, Bool, true, false, not, ◌&&◌, ◌||◌, Option, none, some, String, List, [], ◌∷◌,
  ◌++◌, map, take, leb, ltb, ◌==◌, if◌then◌else◌, is_none, length, Result, ok, err, ◌>>=◌, ◌>>◌,
  guard, require,
}

abbrev pub is_some_of : Option ℕ → ℕ → Bool
is_some_of none n = false
is_some_of (some m) n = m == n

-- `_scope`
abbrev pub scope_of : Authority → ℕ
scope_of (Authority.scope s) = s
scope_of (Authority.actor a) = a.execution_scope_id

-- `create_conversation`
unfoldable pub new_conversation : Authority → Option (List ℕ) → ℕ → ℕ → ℕ → Conversation
new_conversation authority title team_kind fresh now = record {
  id = fresh;
  scope_id = scope_of authority;
  title = title;
  created_at = now;
  updated_at = now;
  principal_id = elim authority [ scope _ ↦ none | actor a ↦ some a.principal_id ];
  membership_id = elim authority [ scope _ ↦ none | actor a ↦ some a.membership_id ];
  team_id = elim authority [ scope _ ↦ none | actor a ↦ some a.team_id ];
  workspace_kind = elim authority [ scope _ ↦ team_kind | actor a ↦ a.workspace_kind ];
}

-- `team_kind` is the text `team`.
unfoldable pub create_conversation :
    Authority → Option (List ℕ) → ℕ → ℕ → ℕ → Store → Result (ℕ × Store)
unfolding new_conversation
create_conversation authority title team_kind fresh now s = ok (
  fresh,
  record s {
    conversations = s.conversations ++ new_conversation authority title team_kind fresh now ∷ [];
  },
)

-- The WHERE clauses of `_conversation`.
abbrev pub is_visible : Authority → ℕ → Conversation → Bool
is_visible (Authority.scope s) id c = c.id == id && c.scope_id == s
is_visible (Authority.actor a) id c =
    c.id == id
    && c.scope_id == a.execution_scope_id
    && is_some_of c.principal_id a.principal_id
    && is_some_of c.membership_id a.membership_id
    && is_some_of c.team_id a.team_id

-- `_conversation`
unfoldable pub conversation : Authority → ℕ → Store → Result Conversation
conversation authority id s =
    require (find (is_visible authority id) s.conversations) "CONVERSATION_NOT_IN_SCOPE"

-- `conversation_authority`
unfoldable pub conversation_authority : ℕ → Store → Result Conversation
conversation_authority id s =
    require
      (find
        (λ c.
          c.id == id
          && not (is_none c.principal_id)
          && not (is_none c.membership_id)
          && not (is_none c.team_id))
        s.conversations)
      "CONVERSATION_NOT_IN_SCOPE"

abbrev pub is_unowned : ℕ → Conversation → Bool
is_unowned scope_id c =
    c.scope_id == scope_id && is_none c.principal_id && is_none c.membership_id && is_none c.team_id

-- `adopt_legacy_owner`
unfoldable pub adopt_legacy_owner : Actor → Store → ℕ × Store
adopt_legacy_owner a s = (
  count (is_unowned a.execution_scope_id) s.conversations,
  record s {
    conversations =
        update (is_unowned a.execution_scope_id)
          (λ c. record c {
            principal_id = some a.principal_id;
            membership_id = some a.membership_id;
            team_id = some a.team_id;
          })
          s.conversations;
  },
)

-- The rows of `message_resources` of one message.
abbrev pub attach : ℕ → ℕ → List Attachment → List MessageResource
attach message scope_id =
    map (λ a. record { message_id = message; scope_id = scope_id; attachment = a })

abbrev pub is_attached : Attachment → List Attachment → Bool
is_attached a [] = false
is_attached a (b ∷ bs) = b.digest == a.digest && b.relation == a.relation || is_attached a bs

-- The primary key of `message_resources`, for the rows of one new message.
abbrev pub are_distinct : List Attachment → Bool
are_distinct [] = true
are_distinct (a ∷ rest) = not (is_attached a rest) && are_distinct rest

abbrev pub is_known_role : Role → Bool
is_known_role Role.other_role = false
is_known_role _ = true

abbrev pub is_known_state : MessageState → Bool
is_known_state MessageState.other_state = false
is_known_state _ = true

abbrev pub coalesce {ℓ} : {A : Type ℓ} → Option A → Option A → Option A
coalesce none new = new
coalesce (some old) new = some old

-- `text.strip()[:80] or None`, where `strip` is Python's.
abbrev pub title_of : (List ℕ → List ℕ) → List ℕ → Option (List ℕ)
title_of strip text = elim (take 80 (strip text)) [ [] ↦ none | c ∷ cs ↦ some (c ∷ cs) ]

-- The rows that a conversation's UPDATE touches it with.
abbrev pub touch : ℕ → ℕ → Option (List ℕ) → List Conversation → List Conversation
touch id now title =
    update (λ c. c.id == id) (λ c. record c { updated_at = now; title = coalesce c.title title })

-- `append_message`
unfoldable pub append_message :
    (List ℕ → List ℕ)
    → Authority
    → ℕ
    → Role
    → List ℕ
    → ℕ
    → MessageState
    → ℕ
    → List Attachment
    → ℕ
    → ℕ
    → Store
    → Result (ℕ × Store)
unfolding conversation
append_message strip authority id role text kind state metadata attachments fresh now s = do
  guard (is_known_role role && is_known_state state) "CHAT_MESSAGE_INVALID"
  guard (leb (length text) 50000) "CHAT_MESSAGE_INVALID"
  c ← conversation authority id s
  guard (are_distinct attachments) "IntegrityError"
  let message : Message = record {
    id = fresh;
    conversation_id = id;
    role = role;
    text = text;
    kind = kind;
    state = state;
    metadata = metadata;
    created_at = now;
  }
  ok (
    fresh,
    record s {
      messages = s.messages ++ message ∷ [];
      resources = s.resources ++ attach fresh (scope_of authority) attachments;
      conversations = touch id now (title_of strip text) s.conversations;
    },
  )
