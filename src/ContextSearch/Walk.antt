-- ===== src/ContextSearch/Walk.antt =====
-- A client that follows the cursors of src/capy_outcome_runtime/context_search.py.
use mathlib.Core.Path.{subst}
use capy_outcome_runtime_pub.ContextSearch.{
  Python, Cursor, object_of, read, read_bytes, read_json, encode, Shown, Response, Search,
  page_size, max_query, max_cursor, identity, all, is_cursor_char, is_digest, project,
  decode_cursor, make_cursor, respond, continue_at, fit, search_for, cursor_page, overview,
  query_page, context_page,
}
use capy_outcome_runtime_pub.ContextSearch.Text.{is_empty}
use capy_outcome_runtime_pub.ContextSearch.Rank.{any, same_text, Ranked, Operation}
use capy_outcome_runtime_pub.ContextSearch.Pages.{IsTooLarge, Fits, fit-Fits, text_at}
use capy_outcome_runtime_pub.ContextSearch.Codec.{read_object-object_of}
use capy_outcome_runtime_pub.Prelude.{
  ℕ, zero, suc, ◌+◌, ◌-◌, ◌≤◌, ◌<◌, min, ◌≡◌, refl, sym, ◌∙◌, ap, Bool, true, false, not, ◌&&◌,
  Option, none, some, String, List, [], ◌∷◌, ◌++◌, map, take, drop, length, take-drop, drop-drop,
  take_all, length-drop, map-append, arith, ==_refl, leb, ltb, ◌⊎◌, inl, inr, Bool-cases, Result,
  ok, err,
}

-- How it ends: with all results, with an error, or with a cursor that is left.
pub data Walk : Type 0 where
  complete : List Shown → Walk
  failed : String → Walk
  unfinished : Walk

abbrev pub prepend : List Shown → Walk → Walk
prepend xs (Walk.complete ys) = Walk.complete (xs ++ ys)
prepend xs (Walk.failed e) = Walk.failed e
prepend xs Walk.unfinished = Walk.unfinished

abbrev pub after : List Shown → Option (List ℕ) → (List ℕ → Walk) → Walk
after xs none go_on = Walk.complete xs
after xs (some cursor) go_on = prepend xs (go_on cursor)

abbrev pub take_page : Result Response → (List ℕ → Walk) → Walk
take_page (err e) go_on = Walk.failed e
take_page (ok r) go_on = after r.results r.next_cursor go_on

unfoldable pub follow : Python → List ℕ → List Operation → ℕ → Result Response → Walk
follow py client ops zero page = take_page page (λ _. Walk.unfinished)
follow py client ops (suc n) page =
    take_page page (λ cursor. follow py client ops n (cursor_page py client ops cursor))

-- All of `target`, or an error of size.
abbrev pub Covers : List (List ℕ × List ℕ × List ℕ) → Walk → Type 0
Covers target w =
    ((e : String) × (w ≡ Walk.failed e) × IsTooLarge e)
    ⊎ ((xs : List Shown) × (w ≡ Walk.complete xs) × (map (λ x. x.op) xs ≡ target))

same_text_refl : (t : List ℕ) → same_text t t ≡ true
same_text_refl [] = refl
same_text_refl (c ∷ cs) = rw (==_refl c, same_text_refl cs) refl

abbrev pub ident : Ranked → List ℕ × List ℕ × List ℕ
ident r = identity r.op

not_less : (a b : ℕ) → ltb a b ≡ false → b ≤ a
not_less a b h = ground arith

less : (a b : ℕ) → ltb a b ≡ true → a < b
less a b h = ground arith

drop_zero : (rs : List Ranked) → drop 0 rs ≡ rs
drop_zero [] = refl
drop_zero (r ∷ rs) = refl

minus_zero : (n : ℕ) → n - 0 ≡ n
minus_zero n = omega arith

one_long : (n : ℕ) → leb 1 (suc n) ≡ true
one_long n = ground arith

-- The object of a cursor, and the characters of its text.
abbrev pub cursor_of : List ℕ → List ℕ → List ℕ → ℕ → Cursor
cursor_of client digest query k = record {
  client = client;
  catalog_digest = digest;
  query = query;
  offset = k;
  page_size = page_size;
}

abbrev pub is_spelled : List ℕ → Bool
is_spelled text = leb 1 (length text) && all is_cursor_char text

map-project :
    (limit : ℕ) (rs : List Ranked) → map (λ x. x.op) (map (project limit) rs) ≡ map ident rs
unfolding project
map-project limit [] = refl
map-project limit (r ∷ rs) =
    ap (λ (ts : List (List ℕ × List ℕ × List ℕ)). identity r.op ∷ ts) (map-project limit rs)

both_true : (a b : Bool) → (a && b) ≡ true → (a ≡ true) × (b ≡ true)
both_true true true h = (refl, refl)
both_true true false h = cc
both_true false b h = cc

-- What is encoded is read back, where base64 and JSON are.
read-encode :
    (py : Python) (c : Cursor)
    → ((raw : List ℕ) → py.decode64 (py.encode64 raw) ≡ some raw)
    → py.loads (py.dumps (object_of c)) ≡ some (object_of c)
    → read py (encode py c) ≡ some c
unfolding read
read-encode py c bytes json =
    ap (read_bytes py (encode py c)) (bytes (py.dumps (object_of c)))
    ∙ rw (same_text_refl (encode py c)) (ap (read_json py) json ∙ read_object-object_of c)

module _ (py : Python) (client : List ℕ) (ops : List Operation) (query : List ℕ)
    (decodes : (k : ℕ)
      → read py (encode py (cursor_of client (py.digest ops) query k))
        ≡ some (cursor_of client (py.digest ops) query k))
    (spells : (k : ℕ) → is_spelled (encode py (cursor_of client (py.digest ops) query k)) ≡ true)
    (hex : (is_digest client && is_digest (py.digest ops)) ≡ true)
    (allowed : (leb (length query) max_query && not (any py.is_control query)) ≡ true) where
  abbrev pub search : ℕ → Search
  search k = search_for py client ops query (not (is_empty query)) k

  abbrev pub found : List Ranked
  found = (search 0).matches

  -- The cursor behind a page gives the search again, from there.
  resumes :
      (k : ℕ)
      → leb 1 k ≡ true
      → ltb k (length found) ≡ true
      → leb (length (text_at py (search k) k)) max_cursor ≡ true
      → cursor_page py client ops (text_at py (search k) k)
        ≡ fit py (search k) (min page_size (length found - k))
  unfolding cursor_page decode_cursor
  resumes k positive inside small =
      let text = text_at py (search k) k in
      let (long, chars) = both_true (leb 1 (length text)) (all is_cursor_char text) (spells k) in
      let (hex_client, hex_digest) = both_true (is_digest client) (is_digest (py.digest ops)) hex in
      let (short, clean) =
        both_true (leb (length query) max_query) (not (any py.is_control query)) allowed in
      rw
        (
          long,
          small,
          chars,
          decodes k,
          positive,
          short,
          hex_client,
          hex_digest,
          clean,
          same_text_refl client,
          same_text_refl (py.digest ops),
          inside,
        )
        refl

  -- What is shown of the matches from an offset on.
  abbrev pub target : ℕ → List (List ℕ × List ℕ × List ℕ)
  target k = map ident (drop k found)

  continue_at-some :
      (k end : ℕ) (text : List ℕ)
      → continue_at py (search k) end ≡ ok (some text)
      → (ltb end (length found) ≡ true)
        × (text ≡ text_at py (search k) end)
        × (leb (length (text_at py (search k) end)) max_cursor ≡ true)
  unfolding continue_at make_cursor
  continue_at-some k end text h = elim (Bool-cases (ltb end (length found))) [
    | inl e ↦ elim (Bool-cases (leb (length (text_at py (search k) end)) max_cursor)) [
      | inl f ↦
          let g : ok (some (text_at py (search k) end)) ≡ ok (some text) = rw (e, f) at h in
          (e, cc, f)
      | inr f ↦ let g : err "CORE_CONTEXT_CURSOR_TOO_LARGE" ≡ ok (some text) = rw (e, f) at h in cc
    ]
    | inr e ↦ let g : ok none ≡ ok (some text) = rw e at h in cc
  ]

  continue_at-none :
      (k end : ℕ) → continue_at py (search k) end ≡ ok none → ltb end (length found) ≡ false
  unfolding continue_at make_cursor
  continue_at-none k end h = elim (Bool-cases (ltb end (length found))) [
    | inl e ↦ elim (Bool-cases (leb (length (text_at py (search k) end)) max_cursor)) [
      | inl f ↦ let g : ok (some (text_at py (search k) end)) ≡ ok none = rw (e, f) at h in cc
      | inr f ↦ let g : err "CORE_CONTEXT_CURSOR_TOO_LARGE" ≡ ok none = rw (e, f) at h in cc
    ]
    | inr e ↦ e
  ]

  abbrev pub shown : (k count limit : ℕ) → List Shown
  shown k count limit = map (project limit) (take count (drop k found))

  prepend-Covers :
      (k count limit : ℕ) (w : Walk)
      → Covers (target (k + count)) w
      → Covers (target k) (prepend (shown k count limit) w)
  prepend-Covers k count limit w (inl (e, h, t)) = inl (e, rw h refl, t)
  prepend-Covers k count limit w (inr (ys, h, t)) = inr (
    shown k count limit ++ ys,
    rw h refl,
    map-append (λ x. x.op) (shown k count limit) ys ∙ joined t,
  )
    where
      joined :
          map (λ (x : Shown). x.op) ys ≡ target (k + count)
          → map (λ (x : Shown). x.op) (shown k count limit) ++ map (λ (x : Shown). x.op) ys
            ≡ target k
      joined e =
          ap
            (λ (zs : List (List ℕ × List ℕ × List ℕ)).
              map (λ (x : Shown). x.op) (shown k count limit) ++ zs)
            e
          ∙ ap (λ (zs : List (List ℕ × List ℕ × List ℕ)). zs ++ target (k + count))
              (map-project limit (take count (drop k found)))
          ∙ ap (λ (rs : List Ranked). map ident (take count (drop k found)) ++ map ident rs)
              (sym (drop-drop count k found))
          ∙ sym (map-append ident (take count (drop k found)) (drop count (drop k found)))
          ∙ ap (map ident) (take-drop count (drop k found))

  after-Covers :
      (k count limit : ℕ) (next : Option (List ℕ)) (go_on : List ℕ → Walk)
      → continue_at py (search k) (k + count) ≡ ok next
      → ((text : List ℕ) → next ≡ some text → Covers (target (k + count)) (go_on text))
      → Covers (target k) (after (shown k count limit) next go_on)
  after-Covers k count limit none go_on h more = inr (
    shown k count limit,
    refl,
    map-project limit (take count (drop k found))
        ∙ ap (map ident) (
            take_all count (drop k found) (
              omega (
                arith,
                length-drop k found,
                not_less (k + count) (length found) (continue_at-none k (k + count) h),
              ))),
  )
  after-Covers k count limit (some text) go_on h more =
      prepend-Covers k count limit (go_on text) (more text refl)

  page-Covers :
      (k n : ℕ) (m : Result Response) (go_on : List ℕ → Walk)
      → Fits py (search k) n m
      → ((count : ℕ) (text : List ℕ)
          → (count ≡ 0 → is_empty found ≡ true)
          → continue_at py (search k) (k + count) ≡ ok (some text)
          → Covers (target (k + count)) (go_on text))
      → Covers (target k) (take_page m go_on)
  unfolding respond
  page-Covers k n m go_on (inl (e, h, t)) more = inl (e, rw h refl, t)
  page-Covers k n m go_on (inr (r, h, p)) more =
      rw (h, p.is_response)
        (after-Covers k p.count p.limit p.next go_on p.continues
          (λ text e. more p.count text p.is_full (p.continues ∙ ap ok e)))

  some_match : (k : ℕ) → ltb k (length found) ≡ true → is_empty found ≡ true → ⊥
  some_match k h e = nothing found h e
    where
      nothing : (rs : List Ranked) → ltb k (length rs) ≡ true → is_empty rs ≡ true → ⊥
      nothing [] a b = absurd (no_less k a)
        where
          no_less : (j : ℕ) → ltb j 0 ≡ true → ⊥
          no_less j h = ground arith
      nothing (r ∷ rs) a b = cc

  positive : (k count : ℕ) → (count ≡ 0 → ⊥) → leb 1 (k + count) ≡ true
  positive k count h = ground arith

  -- Enough fuel is as many pages as matches are left.
  covers :
      (f k : ℕ)
      → length found - k ≤ f
      → Covers
          (target k)
          (follow py client ops f (fit py (search k) (min page_size (length found - k))))
  unfolding follow
  covers zero k h =
      page-Covers k _ _ _ (fit-Fits py (search k) (min page_size (length found - k)))
        (λ count text full c.
          let (inside, same, small) = continue_at-some k (k + count) text c in
          absurd (omega (arith, less (k + count) (length found) inside)))
  covers (suc f) k h =
      page-Covers k _ _ _ (fit-Fits py (search k) (min page_size (length found - k)))
        (λ count text full c.
          let (inside, same, small) = continue_at-some k (k + count) text c in
          let moved : count ≡ 0 → ⊥ = λ z. some_match (k + count) inside (full z) in
          rw (same, resumes (k + count) (positive k count moved) inside small)
            (covers f (k + count) (omega (arith, moved))))

  from_start :
      Covers
        (map (λ r. identity r.op) found)
        (follow py client ops (length found) (fit py (search 0) (min page_size (length found))))
  from_start =
      subst
        (λ n.
          Covers (map (λ r. identity r.op) found)
            (follow py client ops (length found) (fit py (search 0) (min page_size n))))
        (minus_zero (length found))
        (subst
          (λ rs. Covers (map ident rs) (
            follow py client ops (length found)
              (fit py (search 0) (min page_size (length found - 0)))))
          (drop_zero found) (covers (length found) 0 (omega arith)))

-- A request without a cursor: an overview if the query is the empty text.
abbrev pub request : List ℕ → Option (List ℕ)
request [] = none
request (c ∷ cs) = some (c ∷ cs)

abbrev pub has_mark : Python → List ℕ → Bool
has_mark py [] = true
has_mark py (c ∷ cs) = any (λ d. not (py.is_space d)) (c ∷ cs)

-- Where base64 and the JSON of the search's cursors are read back as they were written, the cursors are
-- spelled in their characters, and the client and the catalog's digest are digests: a client that
-- follows the cursors of an overview, or of a query that is allowed, needs no more requests than
-- there are matches, and gets every match once, in their order, unless a page or a cursor is too
-- large.
pub follow_all :
    (py : Python) (client : List ℕ) (ops : List Operation) (query : List ℕ)
    → ((raw : List ℕ) → py.decode64 (py.encode64 raw) ≡ some raw)
    → ((k : ℕ)
        → py.loads (py.dumps (object_of (cursor_of client (py.digest ops) query k)))
          ≡ some (object_of (cursor_of client (py.digest ops) query k)))
    → ((k : ℕ) → is_spelled (encode py (cursor_of client (py.digest ops) query k)) ≡ true)
    → (is_digest client && is_digest (py.digest ops)) ≡ true
    → (leb (length query) max_query && not (any py.is_control query)) ≡ true
    → has_mark py query ≡ true
    → let matches = (search_for py client ops query (not (is_empty query)) 0).matches in
      Covers
        (map (λ r. identity r.op) matches)
        (follow py client ops (length matches) (context_page py ops client (request query) none))
unfolding context_page overview query_page
follow_all py client ops [] bytes json spells hex allowed mark =
    from_start py client ops []
      (λ k. read-encode py (cursor_of client (py.digest ops) [] k) bytes (json k)) spells hex
      allowed
follow_all py client ops (c ∷ cs) bytes json spells hex allowed mark =
    let (short, clean) =
      both_true (leb (length (c ∷ cs)) max_query) (not (any py.is_control (c ∷ cs))) allowed in
    rw (one_long (length cs), short, mark, clean)
      (from_start py client ops (c ∷ cs)
        (λ k. read-encode py (cursor_of client (py.digest ops) (c ∷ cs) k) bytes (json k)) spells
        hex allowed)
