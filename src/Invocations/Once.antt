-- ===== src/Invocations/Once.antt =====
-- An idempotency key names at most one invocation of its scope, and repeated requests under it
-- never start another.
use mathlib.Core.Path.{subst}
use capy_outcome_runtime_pub.Prelude.{
  ℕ, ◌≤◌, ◌≡◌, refl, ◌∙◌, ap, Bool, true, false, ◌&&◌, Option, none, some, List, [], ◌∷◌, ◌++◌,
  arith, ◌==◌, ==_sound, ==_refl, if◌then◌else◌, ok, err, guard-ok, ok-injective, Bool-cases,
  Option-cases, inl, inr,
}
use capy_outcome_runtime_pub.Table.{find, count}
use capy_outcome_runtime_pub.Table.Laws.{find-none, count-zero}
use capy_outcome_runtime_pub.Table.Keys.{find-append_some, find-append_none}
use capy_outcome_runtime_pub.Table.Stable.{find-update_stable, count-update_stable, count-append}
use capy_outcome_runtime_pub.Invocations.{
  Invocation, Request, Store, is_key, holds_key, same_text, runs_as, is_succeeded, new_invocation,
  begin_row, replay, begin_invocation,
}
use capy_outcome_runtime_pub.Invocations.Calls.{
  Reach, here, next, Change, unchanged, inserted, rewritten, Step-Change,
}

pub same_text_refl : (t : List ℕ) → same_text t t ≡ true
same_text_refl [] = refl
same_text_refl (c ∷ cs) = rw (==_refl, same_text_refl cs)

same_text_sound : (t u : List ℕ) → same_text t u ≡ true → t ≡ u
same_text_sound [] [] h = refl
same_text_sound [] (d ∷ ds) h = cc
same_text_sound (c ∷ cs) [] h = cc
same_text_sound (c ∷ cs) (d ∷ ds) h =
    cc (==_sound c d (ground arith), same_text_sound cs ds (ground arith))

-- Whether a row holds a key depends on its scope and its key.
holds_key_lem :
    (scope : ℕ) (key : List ℕ) (i j : Invocation)
    → j.scope_id ≡ i.scope_id
    → j.idempotency_key ≡ i.idempotency_key
    → holds_key scope key j ≡ holds_key scope key i
holds_key_lem scope key i j a b = rw (a, b) refl

holds_key_sound :
    (scope : ℕ) (key : List ℕ) (i : Invocation)
    → holds_key scope key i ≡ true
    → (i.scope_id ≡ scope) × (i.idempotency_key ≡ some key)
holds_key_sound scope key i h = elim (Option-cases i.idempotency_key) [
  | inl e ↦ absurd (ground (arith, e))
  | inr (k, e) ↦
      let same : same_text k key ≡ true = ground (arith, e) in
      (==_sound _ _ (ground (arith, e)), e ∙ ap some (same_text_sound k key same))
]

-- A row holds its own key.
holds_own_key :
    (key : List ℕ) (i : Invocation)
    → i.idempotency_key ≡ some key
    → holds_key i.scope_id key i ≡ true
holds_own_key key i e = rw (e, ==_refl, same_text_refl key) refl

abbrev IsOne : Store → Type 0
IsOne s = (scope : ℕ) (key : List ℕ) → count (holds_key scope key) s.invocations ≤ 1

one_more :
    (scope : ℕ) (key : List ℕ) (i : Invocation) (s : Store)
    → ((k : List ℕ)
        → i.idempotency_key ≡ some k
        → find (holds_key i.scope_id k) s.invocations ≡ none)
    → count (holds_key scope key) s.invocations ≤ 1
    → count (holds_key scope key) (s.invocations ++ i ∷ []) ≤ 1
unfolding count
one_more scope key i s new h = elim (Bool-cases (holds_key scope key i)) [
  | inr e ↦ rw (count-append (holds_key scope key) s.invocations (i ∷ []), e) (omega arith)
  | inl e ↦
      let (scoped, keyed) = holds_key_sound scope key i e in
      let unheld : count (holds_key scope key) s.invocations ≡ 0 =
        count-zero (holds_key scope key) s.invocations
          (find-none (holds_key scope key) s.invocations (rw scoped at new key keyed)) in
      rw (count-append (holds_key scope key) s.invocations (i ∷ []), unheld, e) (omega arith)
]

Change-IsOne : (s s' : Store) → Change s s' → IsOne s → IsOne s'
Change-IsOne s s' (unchanged e) h scope key = rw e (h scope key)
Change-IsOne s s' (inserted i new e) h scope key = rw e (one_more scope key i s new (h scope key))
Change-IsOne s s' (rewritten id f same e) h scope key =
    rw
      (
        e,
        count-update_stable (holds_key scope key) (runs_as id) f s.invocations
            (λ i. holds_key_lem scope key i (f i) (same i).1 (same i).5),
      )
      (h scope key)

empty-IsOne : IsOne (record { invocations = []; executors = [] })
unfolding count
empty-IsOne scope key = omega arith

-- Whatever calls are made on a new database, a key names at most one invocation of a scope.
pub Reach-one_per_key :
    (s : Store) (scope : ℕ) (key : List ℕ)
    → Reach (record { invocations = []; executors = [] }) s
    → count (holds_key scope key) s.invocations ≤ 1
Reach-one_per_key s scope key r = kept s r scope key
  where
    kept : (t : Store) → Reach (record { invocations = []; executors = [] }) t → IsOne t
    kept t here = empty-IsOne
    kept t (next {t = u} r st) = Change-IsOne u t (Step-Change u t st) (kept u r)

-- What a row keeps of the request that began it.
abbrev pub IsFor : Request → Invocation → Type 0
IsFor r i =
    (i.capability_id ≡ r.capability_id)
    × (i.version_digest ≡ r.version_digest)
    × (i.request_digest ≡ r.request_digest)

Change-held :
    (s s' : Store) (scope : ℕ) (key : List ℕ) (r : Request) (i : Invocation)
    → Change s s'
    → IsFor r i
    → find (holds_key scope key) s.invocations ≡ some i
    → (k : Invocation) × (find (holds_key scope key) s'.invocations ≡ some k)
      × (k.id ≡ i.id)
      × IsFor r k
Change-held s s' scope key r i (unchanged e) for h = (i, rw e h, refl, for)
Change-held s s' scope key r i (inserted new fresh e) for h = (
  i,
  rw e (find-append_some (λ k. k.id) (holds_key scope key) s.invocations (new ∷ []) i h),
  refl,
  for,
)
Change-held s s' scope key r i (rewritten id f same e) for h = (
  (if runs_as id i then f i else i),
  rw e (
      find-update_stable (holds_key scope key) (runs_as id) f s.invocations i
        (λ k _. holds_key_lem scope key k (f k) (same k).1 (same k).5) h),
  (by_test (runs_as id i)).0,
  (by_test (runs_as id i)).1,
)
  where
    by_test : (b : Bool) → ((if b then f i else i).id ≡ i.id) × IsFor r (if b then f i else i)
    by_test true = ((same i).0, ((same i).2 ∙ for.0, (same i).3 ∙ for.1, (same i).4 ∙ for.2))
    by_test false = (refl, for)

Reach-held :
    (s s' : Store) (scope : ℕ) (key : List ℕ) (r : Request) (i : Invocation)
    → Reach s s'
    → IsFor r i
    → find (holds_key scope key) s.invocations ≡ some i
    → (k : Invocation) × (find (holds_key scope key) s'.invocations ≡ some k)
      × (k.id ≡ i.id)
      × IsFor r k
Reach-held s s' scope key r i here for h = (i, h, refl, for)
Reach-held s s' scope key r i (next {t = t} q st) for h =
    let (k, found, same, kept) = Reach-held s t scope key r i q for h in
    let (m, found', same', kept') =
      Change-held t s' scope key r k (Step-Change t s' st) kept found in
    (m, found', same' ∙ same, kept')

-- After an accepted request its key's row is of that request, and has the returned id.
begin_row-held :
    (r : Request) (key : List ℕ) (o : Option Invocation) (fresh now : ℕ) (s : Store)
    (a : ℕ × Option Invocation) (s' : Store)
    → find (holds_key r.scope_id key) s.invocations ≡ o
    → begin_row r o (new_invocation r (some key) fresh now) s ≡ ok (a, s')
    → (i : Invocation) × (find (holds_key r.scope_id key) s'.invocations ≡ some i)
      × (i.id ≡ a.0)
      × IsFor r i
unfolding begin_row new_invocation
begin_row-held r key none fresh now s a s' e h =
    let i : Invocation = new_invocation r (some key) fresh now in
    let done = ok-injective _ _ h in
    (
      i,
      subst
          (λ (t : (ℕ × Option Invocation) × Store).
            find (holds_key r.scope_id key) t.1.invocations ≡ some i)
          done
          (find-append_none (λ k. k.id) (holds_key r.scope_id key) s.invocations (i ∷ []) e ∙ last),
      ap (λ (t : (ℕ × Option Invocation) × Store). t.0.0) done,
      (refl, refl, refl),
    )
  where
    last :
        find (holds_key r.scope_id key) (new_invocation r (some key) fresh now ∷ [])
        ≡ some (new_invocation r (some key) fresh now)
    last = unfold find new_invocation in rw (==_refl, same_text_refl key) refl
begin_row-held r key (some old) fresh now s a s' e h = replayed old e h
  where
    replayed :
        (old : Invocation)
        → find (holds_key r.scope_id key) s.invocations ≡ some old
        → replay r old s ≡ ok (a, s')
        → (i : Invocation) × (find (holds_key r.scope_id key) s'.invocations ≡ some i)
          × (i.id ≡ a.0)
          × IsFor r i
    replayed old e h =
        let (for, h1) =
          guard-ok
            (old.capability_id == r.capability_id
              && old.version_digest == r.version_digest
              && old.request_digest == r.request_digest)
            "INVOCATION_IDEMPOTENCY_CONFLICT" _ _ (unfold replay in h) in
        let (_, h2) =
          guard-ok (is_succeeded old.status) "INVOCATION_IDEMPOTENCY_IN_PROGRESS" _ _ h1 in
        let done = ok-injective _ _ h2 in
        (
          old,
          subst
              (λ (t : (ℕ × Option Invocation) × Store).
                find (holds_key r.scope_id key) t.1.invocations ≡ some old)
              done e,
          ap (λ (t : (ℕ × Option Invocation) × Store). t.0.0) done,
          (==_sound _ _ (ground arith), ==_sound _ _ (ground arith), ==_sound _ _ (ground arith)),
        )

-- The same request again, where its key's row is.
replay_lem :
    (r : Request) (i : Invocation) (s : Store)
    → IsFor r i
    → replay r i s ≡ (
        if is_succeeded i.status
        then ok ((i.id, some i), s)
        else err "INVOCATION_IDEMPOTENCY_IN_PROGRESS")
unfolding replay
replay_lem r i s for = elim (Bool-cases (is_succeeded i.status)) [
  | inl e ↦ rw (fits, e) refl
  | inr e ↦ rw (fits, e) refl
]
  where
    fits :
        (i.capability_id == r.capability_id
          && i.version_digest == r.version_digest
          && i.request_digest == r.request_digest)
        ≡ true
    fits = rw (for.0, for.1, for.2, ==_refl, ==_refl, ==_refl) refl

-- Once a request under a key is accepted, the same request under the key never starts another
-- invocation, whatever calls are in between: it is refused while the invocation has not succeeded,
-- and returns the invocation's row once it has.
pub begin_once :
    (r : Request) (key : List ℕ) (fresh fresh' now now' : ℕ) (s s' s'' : Store)
    (a : ℕ × Option Invocation)
    → begin_invocation r (some key) fresh now s ≡ ok (a, s')
    → Reach s' s''
    → (i : Invocation) × (i.id ≡ a.0)
      × (find (holds_key r.scope_id key) s''.invocations ≡ some i)
      × (begin_invocation r (some key) fresh' now' s'' ≡ (
          if is_succeeded i.status
          then ok ((i.id, some i), s'')
          else err "INVOCATION_IDEMPOTENCY_IN_PROGRESS"))
unfolding begin_invocation begin_row
begin_once r key fresh fresh' now now' s s' s'' a h reach =
    let (valid, h1) = guard-ok (is_key key) "INVOCATION_IDEMPOTENCY_KEY_INVALID" _ _ h in
    let (i, found, same, for) =
      begin_row-held r key (find (holds_key r.scope_id key) s.invocations) fresh now s a s' refl
        h1 in
    let (k, found', same', for') = Reach-held s' s'' r.scope_id key r i reach for found in
    (k, same' ∙ same, found', rw (valid, found') (replay_lem r k s'' for'))
