-- ===== src/Handlers/Search/Paged.antt =====
-- internal/server/handlers/search.go: the page of results that is shown, and where its links lead.
use blogflow.Base.{
  ℕ, zero, ◌+◌, ◌*◌, ◌-◌, ◌≤◌, ◌<◌, ◌≡◌, Bool, true, false, List, length, if◌then◌else◌, Option,
  none, some, inl, inr, Bool-cases, arith, refl, ap, subst, sym,
}
use blogflow.Base.Int.{ℤ, pos, ltb_ℤ}
use blogflow.Base.Text.{Text, is_empty}
use blogflow.Search.Index.{Field, Post, SearchIndex, SearchConfig}
use blogflow.Search.Query.{normalize_query, parse_query_terms}
use blogflow.Search.Pages.{
  SearchError, index_unavailable, query_too_complex, SearchResponse, Searched, found, refused,
  search, page_limit, rank,
}
use blogflow.Handlers.Search.{
  parse_search_page, search_limit, search_page_url, SearchData, rendered, landing, prev_page,
  populate_search_results, render_search, answer_search, run_search, handle_search,
}
use blogflow.Handlers.Search.Numbers.{
  chosen_first, chosen_second, parse_search_page-bounds, search_limit-positive,
  total_pages-positive, page_number,
}

module _ {F : Type 0} (zero_score : F) (add : F → F → F) (contribution : ℕ → ℕ → Field → ℕ → F)
    (quantize : F → F) (above differs : F → F → Bool) where
  abbrev Response : Type 0
  Response = SearchResponse zero_score add contribution quantize above differs

  abbrev Found : Response → Searched zero_score add contribution quantize above differs
  Found resp = found resp

  found_unique : (a b : Response) → Found a ≡ Found b → a ≡ b
  found_unique a b h = cc

  no_answer : (e : SearchError) (a : Response) → refused e ≡ Found a → ⊥
  no_answer e a h = cc

  not_refused :
      (b : Bool) (r a : Response) (e : SearchError)
      → b ≡ false
      → (if b then refused e else Found r) ≡ Found a
      → r ≡ a
  not_refused true r a e h g = absurd (cc)
  not_refused false r a e h g = found_unique r a g

  -- What is used of a response.
  abbrev IsPage : Text → ℕ → Response → Type 0
  IsPage raw page resp = (resp.query ≡ raw) × (resp.page ≡ page) × (1 ≤ resp.total_pages)

  module _ (is_letter is_digit : ℕ → Bool) (nfc to_lower : Text → Text) where
    search-IsPage :
        (si : SearchIndex) (src : Option (List (Text × Post))) (raw : Text) (page limit : ℕ)
        → 1 ≤ page
        → zero < limit
        → (resp : Response)
        → search zero_score add contribution quantize above differs is_letter is_digit nfc to_lower
            (some si)
            src
            raw
            (record { limit = pos limit; offset = pos ((page - 1) * limit) })
          ≡ found resp
        → IsPage raw page resp
    unfolding search
    search-IsPage si src raw page limit first positive resp h =
        let terms = parse_query_terms is_letter is_digit nfc to_lower raw in
        elim (Bool-cases (ltb_ℤ si.cfg.max_query_terms (pos (length terms)))) [
          | inl many ↦ absurd (no_answer query_too_complex resp (ground (arith, many, h)))
          | inr few ↦
              subst (IsPage raw page)
                (not_refused (ltb_ℤ si.cfg.max_query_terms (pos (length terms))) _ resp
                  query_too_complex few h)
                (
                  refl,
                  page_number page limit si.cfg.max_results first positive,
                  total_pages-positive
                      (length (rank zero_score add contribution quantize above differs si terms))
                      (page_limit (pos limit) si.cfg.max_results),
                )
        ]

  module _ (query_escape : Text → Text) (itoa : ℕ → Text) where
    -- A page of results whose links lead to pages that there are, the previous one to an earlier page.
    pub record Linked (raw : Text) (page : ℕ)
        (shown : SearchData zero_score add contribution quantize above differs) : Type 0 where
      pub at_page : shown.page ≡ page
      pub prev :
          shown.has_prev ≡ true
          → (q : ℕ) × (shown.prev_url ≡ search_page_url query_escape itoa raw q)
            × (1 ≤ q)
            × (q ≤ shown.total_pages)
            × (q < page)
      pub next :
          shown.has_next ≡ true
          → (shown.next_url ≡ search_page_url query_escape itoa raw (page + 1))
            × (page + 1 ≤ shown.total_pages)

    populate_search_results-Linked :
        (raw : Text) (page : ℕ)
        (shown : SearchData zero_score add contribution quantize above differs) (resp : Response)
        → IsPage raw page resp
        → Linked raw page (
            populate_search_results zero_score add contribution quantize above differs query_escape
              itoa shown resp)
    unfolding populate_search_results
    populate_search_results-Linked raw page shown resp (same, at, some_page) = record {
      at_page = at;
      prev = λ h. (
        prev_page zero_score add contribution quantize above differs query_escape itoa resp,
        rw (h, same) refl,
        ground arith,
        ground arith,
        ground arith,
      );
      next = λ h. (rw (h, same, at) refl, ground arith);
    }

    abbrev Shown : Type 0
    Shown = SearchData zero_score add contribution quantize above differs

    -- A page with results is a 200, and it is the page that was asked for.
    abbrev IsLinkedAnswer : Text → ℕ → ℕ → Shown → Type 0
    IsLinkedAnswer raw page status shown = (status ≡ 200) × Linked raw page shown

    render_search-rendered :
        (renders : Shown → Bool) (s status : ℕ) (d shown : Shown)
        → render_search zero_score add contribution quantize above differs query_escape itoa renders
            s d
          ≡ rendered status shown
        → (s ≡ status) × (d ≡ shown)
    unfolding render_search
    render_search-rendered renders s status d shown h = elim (Bool-cases (renders d)) [
      | inl fine ↦ (ground (arith, fine, h), ground (arith, fine, h))
      | inr broken ↦ absurd (ground (arith, broken, h))
    ]

    -- A page without results is not one that was searched for.
    not_executed :
        {A : Type 0} (renders : Shown → Bool) (s status : ℕ) (d shown : Shown)
        → d.executed ≡ false
        → render_search zero_score add contribution quantize above differs query_escape itoa renders
            s d
          ≡ rendered status shown
        → shown.executed ≡ true
        → A
    not_executed renders s status d shown off h on =
        let (_, same) = render_search-rendered renders s status d shown h in
        absurd (cc (off, on, ap (λ x. x.executed) same))

    answer_search-Linked :
        (renders : Shown → Bool) (raw : Text) (page status : ℕ) (shown : Shown)
        (r : Searched zero_score add contribution quantize above differs)
        → ((resp : Response) → r ≡ found resp → IsPage raw page resp)
        → answer_search zero_score add contribution quantize above differs query_escape itoa renders
            (landing zero_score add contribution quantize above differs raw)
            r
          ≡ rendered status shown
        → shown.executed ≡ true
        → IsLinkedAnswer raw page status shown
    unfolding answer_search
    answer_search-Linked renders raw page status shown (found resp) paged h on =
        let (ok, same) = render_search-rendered renders 200 status _ shown h in
        (
          sym ok,
          subst (Linked raw page) same (
              populate_search_results-Linked raw page
                (landing zero_score add contribution quantize above differs raw) resp
                (paged resp refl)),
        )
    answer_search-Linked renders raw page status shown (refused query_too_complex) paged h on =
        not_executed renders 400 status _ shown refl h on
    answer_search-Linked renders raw page status shown (refused index_unavailable) paged h on =
        not_executed renders 503 status _ shown refl h on

    module _ (is_letter is_digit : ℕ → Bool) (nfc to_lower : Text → Text)
        (atoi : Text → Option ℤ) where
      run_search-Linked :
          (sc : SearchConfig) (renders : Shown → Bool) (raw p : Text)
          (snapshot : Option (Option SearchIndex × Option (List (Text × Post)))) (status : ℕ)
          (shown : Shown)
          → run_search zero_score add contribution quantize above differs query_escape itoa
              is_letter is_digit nfc to_lower atoi sc renders raw p snapshot
            ≡ rendered status shown
          → shown.executed ≡ true
          → IsLinkedAnswer raw (parse_search_page atoi p) status shown
      unfolding run_search
      run_search-Linked sc renders raw p none status shown h on =
          not_executed renders 503 status _ shown refl h on
      run_search-Linked sc renders raw p (some (none, src)) status shown h on =
          not_executed renders 503 status _ shown refl h on
      run_search-Linked sc renders raw p (some (some si, src)) status shown h on =
          answer_search-Linked renders raw (parse_search_page atoi p) status shown
            (search zero_score add contribution quantize above differs is_letter is_digit nfc
              to_lower (some si) src raw
              (record {
                limit = pos (search_limit sc.max_results);
                offset = pos ((parse_search_page atoi p - 1) * search_limit sc.max_results);
              }))
            (search-IsPage is_letter is_digit nfc to_lower si src raw (parse_search_page atoi p)
              (search_limit sc.max_results) (parse_search_page-bounds atoi p).0
              (search_limit-positive sc.max_results))
            h on

      -- When the search handler answers with results, the status is 200 and the page is the one that the
      -- page parameter asks for. Its next link, if it has one, leads to the page after it, and its previous
      -- link to an earlier one, for the same query; both are among the pages that the search has.
      pub handle_search-Linked :
          (sc : SearchConfig) (renders : Shown → Bool) (raw p : Text)
          (snapshot : Option (Option SearchIndex × Option (List (Text × Post)))) (status : ℕ)
          (shown : Shown)
          → handle_search zero_score add contribution quantize above differs query_escape itoa
              is_letter is_digit nfc to_lower atoi sc renders raw p snapshot
            ≡ rendered status shown
          → shown.executed ≡ true
          → (status ≡ 200) × Linked raw (parse_search_page atoi p) shown
      unfolding handle_search
      handle_search-Linked sc renders raw p snapshot status shown h on =
          let normalized = normalize_query is_letter is_digit nfc to_lower raw in
          elim (Bool-cases (is_empty normalized)) [
            | inl blank ↦
                not_executed renders 200 status
                  (landing zero_score add contribution quantize above differs raw) shown refl
                  (chosen_first _ _ _ _ blank h) on
            | inr worded ↦ elim (Bool-cases (ltb_ℤ sc.max_query_length (pos (length normalized)))) [
              | inl long ↦
                  not_executed renders 400 status _ shown refl
                    (chosen_first _ _ _ _ long (chosen_second _ _ _ _ worded h)) on
              | inr fits ↦ elim (Bool-cases (ltb_ℤ (pos (length normalized)) sc.min_query_length)) [
                | inl short ↦
                    not_executed renders 200 status _ shown refl
                      (chosen_first _ _ _ _ short
                        (chosen_second _ _ _ _ fits (chosen_second _ _ _ _ worded h)))
                      on
                | inr enough ↦
                    run_search-Linked sc renders raw p snapshot status shown
                      (chosen_second _ _ _ _ enough
                        (chosen_second _ _ _ _ fits (chosen_second _ _ _ _ worded h)))
                      on
              ]
            ]
          ]
