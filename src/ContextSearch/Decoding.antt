-- ===== src/ContextSearch/Decoding.antt =====
-- What `decode_cursor` of src/capy_outcome_runtime/context_search.py accepts.
use capy_outcome_runtime_pub.ContextSearch.{
  Python, Cursor, page_size, max_cursor, max_query, is_digest, is_cursor_char, all, decode_cursor,
  read, read_bytes,
}
use capy_outcome_runtime_pub.ContextSearch.Rank.{same_text, any}
use capy_outcome_runtime_pub.Prelude.{
  ℕ, ◌≤◌, ◌≡◌, refl, ap, true, false, not, ◌&&◌, Option, none, some, List, [], ◌∷◌, length, ◌==◌,
  ==_sound, leb, Bool-cases, inl, inr, ok, require, bind-ok, guard-ok, ok-injective, arith,
}

same_text_sound : (a b : List ℕ) → same_text a b ≡ true → a ≡ b
same_text_sound [] [] h = refl
same_text_sound [] (y ∷ b) h = cc
same_text_sound (x ∷ a) [] h = cc
same_text_sound (x ∷ a) (y ∷ b) h =
    let e : x ≡ y = ==_sound x y (ground arith) in
    let f : a ≡ b = same_text_sound a b (ground arith) in cc

module _ (py : Python) where
  read_bytes-canonical :
      (text : List ℕ) (o : Option (List ℕ)) (c : Cursor)
      → read_bytes py text o ≡ some c
      → (raw : List ℕ) × (o ≡ some raw) × (py.encode64 raw ≡ text)
  read_bytes-canonical text none c h = cc
  read_bytes-canonical text (some raw) c h = elim (Bool-cases (same_text (py.encode64 raw) text)) [
    | inl e ↦ (raw, refl, same_text_sound (py.encode64 raw) text e)
    | inr e ↦ let g : none ≡ some c = rw e at h in cc
  ]

  required : {A : Type 0} (o : Option A) (e : _) (a : A) → require o e ≡ ok a → o ≡ some a
  required none e a h = cc
  required (some b) e a h = ap some (ok-injective _ _ h)

  -- A cursor that is accepted is the one text of its bytes, has at most 16384 characters, and names a
  -- positive offset, the page size, a query of at most 2048 characters without a control character,
  -- and digests.
  pub decoded_canonical :
      (text : List ℕ) (c : Cursor)
      → decode_cursor py text ≡ ok c
      → ((raw : List ℕ) × (py.decode64 text ≡ some raw) × (py.encode64 raw ≡ text))
        × (length text ≤ 16384)
        × (1 ≤ c.offset)
        × (c.page_size ≡ 8)
        × (length c.query ≤ 2048)
        × (any py.is_control c.query ≡ false)
        × ((is_digest c.client && is_digest c.catalog_digest) ≡ true)
  unfolding decode_cursor read
  decoded_canonical text c h =
      let (spelled, h1) =
        guard-ok (leb 1 (length text) && leb (length text) max_cursor && all is_cursor_char text)
          "CORE_CONTEXT_CURSOR_INVALID" _ _ h in
      let (d, found, h2) = bind-ok (require (read py text) "CORE_CONTEXT_CURSOR_INVALID") _ _ h1 in
      let (sized, h3) =
        guard-ok (leb 1 d.offset && d.page_size == page_size && leb (length d.query) max_query)
          "CORE_CONTEXT_CURSOR_INVALID" _ _ h2 in
      let (hex, h4) =
        guard-ok
          (is_digest d.client && is_digest d.catalog_digest && not (any py.is_control d.query))
          "CORE_CONTEXT_CURSOR_INVALID" _ _ h3 in
      let same : d ≡ c = ok-injective _ _ h4 in
      rw (← same) (
        read_bytes-canonical text (py.decode64 text) d
            (required (read py text) "CORE_CONTEXT_CURSOR_INVALID" d found),
        ground arith,
        ground arith,
        ground arith,
        ground arith,
        ground arith,
        ground arith,
      )
