-- ===== src/ContextSearch/Pages.antt =====
-- The pages of src/capy_outcome_runtime/context_search.py and their cursors.
use mathlib.Core.Path.{subst}
use mathlib.Core.Option.{some-injective}
use capy_outcome_runtime_pub.ContextSearch.{
  Python, Cursor, Response, Search, page_size, max_response_bytes, max_query, max_cursor, project,
  limits, encode, decode_cursor, make_cursor, respond, first_fit, continue_at, fit, search_for,
  cursor_page, overview, query_page, context_page,
}
use capy_outcome_runtime_pub.ContextSearch.Text.{is_empty}
use capy_outcome_runtime_pub.ContextSearch.Rank.{any, same_text, Operation}
use capy_outcome_runtime_pub.Prelude.{
  ℕ, zero, suc, ◌+◌, ◌-◌, ◌≤◌, min, ◌≡◌, refl, sym, ◌∙◌, true, false, not, ◌&&◌, Option, none, some,
  String, List, [], ◌∷◌, map, take, drop, length, length-take_le, length-map, arith, leb, ltb, ◌⊎◌,
  inl, inr, Bool-cases, Option-cases, Result, ok, err, Returns, whenever, past_test, past_value,
  returned, ok-injective,
}

-- The two errors of a request that is in order.
abbrev pub IsTooLarge : String → Type 0
IsTooLarge e = (e ≡ "CORE_CONTEXT_RESPONSE_TOO_LARGE") ⊎ (e ≡ "CORE_CONTEXT_CURSOR_TOO_LARGE")

module _ (py : Python) where
  -- A response of the loop over `count` from `n` on.
  pub record IsPage (q : Search) (n : ℕ) (r : Response) : Type 0 where
    pub count : ℕ
    pub limit : ℕ
    pub next : Option (List ℕ)
    pub is_response : r ≡ respond py q count next limit
    pub is_short : count ≤ n
    pub is_full : count ≡ 0 → is_empty q.matches ≡ true
    pub continues : continue_at py q (q.offset + count) ≡ ok next
    pub is_small : py.size r ≤ max_response_bytes

  first_fit-fits :
      (ls : List ℕ) (at_limit : ℕ → Response) (r : Response)
      → first_fit py ls at_limit ≡ some r
      → (l : ℕ) × (r ≡ at_limit l) × (py.size r ≤ max_response_bytes)
  unfolding first_fit
  first_fit-fits [] at_limit r h = cc
  first_fit-fits (l ∷ ls) at_limit r h =
      elim (Bool-cases (leb (py.size (at_limit l)) max_response_bytes)) [
        | inl e ↦
            let k : some (at_limit l) ≡ some r = rw e at h in
            let same : r ≡ at_limit l = sym (some-injective _ _ k) in
            (l, same, rw same (ground (arith, e)))
        | inr e ↦ first_fit-fits ls at_limit r (rw e at h)
      ]

  abbrev pub Fits : Search → ℕ → Result Response → Type 0
  Fits q n m =
      ((e : String) × (m ≡ err e) × IsTooLarge e) ⊎ ((r : Response) × (m ≡ ok r) × IsPage q n r)

  -- The cursor of a search at an offset, before its length is tested.
  abbrev pub cursor_at : Search → ℕ → Cursor
  cursor_at q end = record {
    client = q.client;
    catalog_digest = q.catalog_digest;
    query = q.query;
    offset = end;
    page_size = page_size;
  }

  abbrev pub text_at : Search → ℕ → List ℕ
  text_at q end = encode py (cursor_at q end)

  continue_at-cases :
      (q : Search) (end : ℕ)
      → ((next : Option (List ℕ)) × (continue_at py q end ≡ ok next))
        ⊎ (continue_at py q end ≡ err "CORE_CONTEXT_CURSOR_TOO_LARGE")
  unfolding continue_at make_cursor
  continue_at-cases q end = elim (Bool-cases (ltb end (length q.matches))) [
    | inl e ↦ elim (Bool-cases (leb (length (text_at q end)) max_cursor)) [
      | inl f ↦ inl (some (text_at q end), rw (e, f) refl)
      | inr f ↦ inr (rw (e, f) refl)
    ]
    | inr e ↦ inl (none, rw e refl)
  ]

  fits_first :
      (q : Search) (count : ℕ) (next : Option (List ℕ)) (n : ℕ) (r : Response)
      → first_fit py limits (respond py q count next) ≡ some r
      → continue_at py q (q.offset + count) ≡ ok next
      → (count ≡ 0 → is_empty q.matches ≡ true)
      → count ≤ n
      → IsPage q n r
  fits_first q count next n r h c full short =
      let (l, same, small) = first_fit-fits limits (respond py q count next) r h in
      record {
        count = count;
        limit = l;
        next = next;
        is_response = same;
        is_short = short;
        is_full = full;
        continues = c;
        is_small = small;
      }

  widen : (q : Search) (n : ℕ) (r : Response) → IsPage q n r → IsPage q (suc n) r
  widen q n r h = record {
    count = h.count;
    limit = h.limit;
    next = h.next;
    is_response = h.is_response;
    is_short = omega (arith, h.is_short);
    is_full = h.is_full;
    continues = h.continues;
    is_small = h.is_small;
  }

  Fits-widen : (q : Search) (n : ℕ) (m : Result Response) → Fits q n m → Fits q (suc n) m
  Fits-widen q n m (inl h) = inl h
  Fits-widen q n m (inr (r, e, p)) = inr (r, e, widen q n r p)

  -- The loop over `count` gives a page of at most that many matches or is too large.
  pub fit-Fits : (q : Search) (n : ℕ) → Fits q n (fit py q n)
  unfolding fit
  fit-Fits q zero = elim (Bool-cases (is_empty q.matches)) [
    | inl full ↦ elim (continue_at-cases q (q.offset + 0)) [
      | inl (next, c) ↦ elim (Option-cases (first_fit py limits (respond py q 0 next))) [
        | inl e ↦ inl ("CORE_CONTEXT_RESPONSE_TOO_LARGE", rw (full, c, e) refl, inl refl)
        | inr (r, e) ↦
            inr (r, rw (full, c, e) refl, fits_first q 0 next 0 r e c (λ _. full) (omega arith))
      ]
      | inr c ↦ inl ("CORE_CONTEXT_CURSOR_TOO_LARGE", rw (full, c) refl, inr refl)
    ]
    | inr some_left ↦ inl ("CORE_CONTEXT_RESPONSE_TOO_LARGE", rw some_left refl, inl refl)
  ]
  fit-Fits q (suc n) = elim (continue_at-cases q (q.offset + suc n)) [
    | inl (next, c) ↦ elim (Option-cases (first_fit py limits (respond py q (suc n) next))) [
      | inl e ↦ rw (c, e) (Fits-widen q n (fit py q n) (fit-Fits q n))
      | inr (r, e) ↦ inr (
        r,
        rw (c, e) refl,
        fits_first q (suc n) next (suc n) r e c (λ z. absurd (omega arith)) (omega arith),
      )
    ]
    | inr c ↦ inl ("CORE_CONTEXT_CURSOR_TOO_LARGE", rw c refl, inr refl)
  ]

  -- What a page has to keep to.
  pub record IsBounded (r : Response) : Type 0 where
    pub few : r.returned ≤ page_size
    pub listed : length r.results ≤ r.returned
    pub small : py.size r ≤ max_response_bytes

  listed_of :
      (q : Search) (count limit : ℕ)
      → length (map (project limit) (take count (drop q.offset q.matches))) ≤ count
  listed_of q count limit =
      rw (length-map (project limit) (take count (drop q.offset q.matches)))
        (length-take_le count (drop q.offset q.matches))

  IsBounded-of :
      (q : Search) (n : ℕ) (m : Result Response) → n ≤ page_size → Fits q n m → Returns IsBounded m
  unfolding respond
  IsBounded-of q n m h (inl (e, f, t)) = whenever (λ r g. clash r (sym f ∙ g))
    where
      clash : (r : Response) → err e ≡ ok r → IsBounded r
      clash r k = cc
  IsBounded-of q n m h (inr (r, f, p)) =
      whenever (λ s g. subst IsBounded (ok-injective _ _ (sym f ∙ g)) (page_of r p))
    where
      page_of : (r : Response) → IsPage q n r → IsBounded r
      page_of r p = record {
        few = rw p.is_response (omega (arith, p.is_short, h));
        listed = rw p.is_response (listed_of q p.count p.limit);
        small = p.is_small;
      }

  short_page : (k : ℕ) → min page_size k ≤ page_size
  short_page k = omega arith

  fit-IsBounded : (q : Search) (k : ℕ) → Returns IsBounded (fit py q (min page_size k))
  fit-IsBounded q k =
      IsBounded-of q (min page_size k) (fit py q (min page_size k)) (short_page k)
        (fit-Fits q (min page_size k))

  -- Every page has at most eight results, and its JSON at most 16384 bytes, whatever the request.
  pub pages-IsBounded :
      (ops : List Operation) (client : List ℕ) (query cursor : Option (List ℕ)) (r : Response)
      → context_page py ops client query cursor ≡ ok r
      → IsBounded r
  unfolding context_page overview query_page cursor_page decode_cursor
  pages-IsBounded ops client none none = returned (
      fit-IsBounded (search_for py client ops [] false 0)
        (length (search_for py client ops [] false 0).matches))
  pages-IsBounded ops client (some query) none = returned (
      past_test (leb 1 (length query) && leb (length query) max_query) "CORE_CONTEXT_QUERY_INVALID"
        _
        (λ _.
          past_test (any (λ c. not (py.is_space c)) query && not (any py.is_control query))
            "CORE_CONTEXT_QUERY_INVALID" _
            (λ _.
              fit-IsBounded (search_for py client ops query true 0)
                (length (search_for py client ops query true 0).matches))))
  pages-IsBounded ops client none (some cursor) = returned (
      past_value (decode_cursor py cursor) _ (λ c _.
        past_test (same_text c.client client && same_text c.catalog_digest (py.digest ops))
          "CORE_CONTEXT_STALE" _
          (λ _.
            past_test
              (ltb c.offset (
                length
                  (search_for py client ops c.query (not (is_empty c.query)) c.offset).matches))
              "CORE_CONTEXT_CURSOR_INVALID" _
              (λ _.
                let q = search_for py client ops c.query (not (is_empty c.query)) c.offset in
                fit-IsBounded q (length q.matches - c.offset)))))
  pages-IsBounded ops client (some query) (some cursor) = λ r h. cc
