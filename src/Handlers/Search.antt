-- ===== src/Handlers/Search.antt =====
-- `SearchHandler` (internal/server/handlers/search.go) on the search of internal/search. `url.QueryEscape`,
-- `strconv` and the template are arguments; metrics and spans are left out.
pub mod Numbers
pub mod Paged
mod Tests
use blogflow.Base.{
  ℕ, zero, suc, ◌+◌, ◌*◌, ◌-◌, Bool, true, false, List, [], ◌∷◌, ◌++◌, length, ltb, if◌then◌else◌,
  Option, none, some,
}
use blogflow.Base.Int.{ℤ, pos, negsuc, ltb_ℤ}
use blogflow.Base.Text.{Text, codes, is_empty}
use blogflow.Search.Index.{Field, Post, SearchIndex, SearchConfig}
use blogflow.Search.Query.{normalize_query}
use blogflow.Search.Pages.{
  SearchError, index_unavailable, query_too_complex, SearchResult, SearchResponse, Searched, found,
  refused, search,
}

abbrev pub max_search_page : ℕ
max_search_page = 1_000_000

-- `parseSearchPage`, after the parameter is looked up.
unfoldable pub parse_search_page : (Text → Option ℤ) → Text → ℕ
parse_search_page atoi p = if is_empty p then 1 else elim (atoi p) [
  | none ↦ 1
  | some (pos (suc n)) ↦ if ltb max_search_page (suc n) then max_search_page else suc n
  | some (pos zero) ↦ 1
  | some (negsuc _) ↦ 1
]

-- `limit`, with its default.
unfoldable pub search_limit : ℤ → ℕ
search_limit (pos (suc n)) = suc n
search_limit (pos zero) = 20
search_limit (negsuc _) = 20

-- `searchPageURL`
unfoldable pub search_page_url : (Text → Text) → (ℕ → Text) → Text → ℕ → Text
search_page_url query_escape itoa query page =
    let u = codes "/search?q=" ++ query_escape query in
    if ltb 1 page then u ++ (codes "&page=" ++ itoa page) else u

pub data SearchMessage : Type 0 where
  no_message too_long unavailable too_complex : SearchMessage
  too_short : ℤ → SearchMessage

module _ {F : Type 0} (zero_score : F) (add : F → F → F) (contribution : ℕ → ℕ → Field → ℕ → F)
    (quantize : F → F) (above differs : F → F → Bool) where
  pub record SearchData : Type 0 where
    pub enabled : Bool
    pub query : Text
    pub executed : Bool
    pub results : List (SearchResult zero_score add contribution quantize above differs)
    pub total : ℕ
    pub page : ℕ
    pub total_pages : ℕ
    pub has_prev : Bool
    pub has_next : Bool
    pub prev_url : Text
    pub next_url : Text
    pub message : SearchMessage
    pub truncated : Bool

  -- The page with its status, or the end of a failed template: a plain 500, or nothing where the client is gone.
  pub data SearchAnswer : Type 0 where
    rendered : ℕ → SearchData → SearchAnswer
    internal_error : SearchAnswer

  abbrev pub landing : Text → SearchData
  landing raw = record {
    enabled = true;
    query = raw;
    executed = false;
    results = [];
    total = 0;
    page = 1;
    total_pages = 0;
    has_prev = false;
    has_next = false;
    prev_url = [];
    next_url = [];
    message = no_message;
    truncated = false;
  }

  module _ (query_escape : Text → Text) (itoa : ℕ → Text) where
    -- The page that the previous link leads to: past the end, the last one.
    abbrev pub prev_page : SearchResponse zero_score add contribution quantize above differs → ℕ
    prev_page resp =
        let prev = resp.page - 1 in if ltb resp.total_pages prev then resp.total_pages else prev

    -- `populateSearchResults`
    unfoldable pub populate_search_results :
        SearchData → SearchResponse zero_score add contribution quantize above differs → SearchData
    unfolding search_page_url
    populate_search_results shown resp = record shown {
      executed = true;
      results = resp.results;
      total = resp.total;
      page = resp.page;
      total_pages = resp.total_pages;
      truncated = resp.truncated;
      has_prev = ltb 1 resp.page;
      has_next = ltb resp.page resp.total_pages;
      prev_url =
          if ltb 1 resp.page
          then search_page_url query_escape itoa resp.query (prev_page resp)
          else shown.prev_url;
      next_url =
          if ltb resp.page resp.total_pages
          then search_page_url query_escape itoa resp.query (resp.page + 1)
          else shown.next_url;
    }

    -- `renderSearch`, whose template fails or not.
    unfoldable pub render_search : (SearchData → Bool) → ℕ → SearchData → SearchAnswer
    render_search renders status shown =
        if renders shown then rendered status shown else internal_error

    -- The answer to what `Search` returns.
    unfoldable pub answer_search :
        (SearchData → Bool)
        → SearchData
        → Searched zero_score add contribution quantize above differs
        → SearchAnswer
    unfolding populate_search_results render_search
    answer_search renders shown (found resp) =
        render_search renders 200 (populate_search_results shown resp)
    answer_search renders shown (refused query_too_complex) =
        render_search renders 400 (record shown { message = too_complex })
    answer_search renders shown (refused index_unavailable) =
        render_search renders 503 (record shown { message = unavailable })

    module _ (is_letter is_digit : ℕ → Bool) (nfc to_lower : Text → Text)
        (atoi : Text → Option ℤ) where
      -- What is done with a query whose length is allowed; the snapshot is the site's at that moment.
      unfoldable pub run_search :
          SearchConfig
          → (SearchData → Bool)
          → Text
          → Text
          → Option (Option SearchIndex × Option (List (Text × Post)))
          → SearchAnswer
      unfolding parse_search_page search_limit answer_search
      run_search sc renders raw page_param snapshot =
          let limit = search_limit sc.max_results in
          let page = parse_search_page atoi page_param in
          let shown = landing raw in
          elim snapshot [
            | none ↦ render_search renders 503 (record shown { message = unavailable })
            | some (none, src) ↦ render_search renders 503 (record shown { message = unavailable })
            | some (some si, src) ↦ answer_search renders shown (
                search zero_score add contribution quantize above differs is_letter is_digit nfc
                  to_lower (some si) src raw
                  (record { limit = pos limit; offset = pos ((page - 1) * limit) }))
          ]

      -- The function that `SearchHandler` returns.
      unfoldable pub handle_search :
          SearchConfig
          → (SearchData → Bool)
          → Text
          → Text
          → Option (Option SearchIndex × Option (List (Text × Post)))
          → SearchAnswer
      unfolding run_search render_search normalize_query
      handle_search sc renders raw page_param snapshot =
          let normalized = normalize_query is_letter is_digit nfc to_lower raw in
          let shown = landing raw in
          if is_empty normalized
          then render_search renders 200 shown
          else if ltb_ℤ sc.max_query_length (pos (length normalized))
          then render_search renders 400 (record shown { message = too_long })
          else if ltb_ℤ (pos (length normalized)) sc.min_query_length
          then render_search renders 200 (record shown { message = too_short sc.min_query_length })
          else run_search sc renders raw page_param snapshot
