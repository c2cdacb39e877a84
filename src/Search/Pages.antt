-- ===== src/Search/Pages.antt =====
-- Ranking and pages of results (internal/search/search.go). Go's float64 is an argument, with the
-- operations that the ranking uses; the clock readings are left out.
pub mod Cover
pub mod Ranked
use blogflow.Base.{
  ℕ, zero, suc, ◌+◌, ◌*◌, ◌-◌, ◌/◌, Bool, true, false, not, List, [], ◌∷◌, ◌++◌, map, length, take,
  drop, ltb, leb, if◌then◌else◌, list_eq, nat_eq, ◌==◌, Option, none, some, get_elem?,
}
use blogflow.Base.Text.{Text, codes, is_empty, text_lt}
use blogflow.Base.Int.{ℤ, pos, negsuc, ltb_ℤ}
use blogflow.Base.Assoc.{lookup, insert}
use blogflow.Search.Query.{parse_query_terms}
use blogflow.Search.Excerpt.{make_excerpt}
use blogflow.Search.Index.{
  Field, Posting, Post, SearchDoc, SearchIndex, SearchConfig, postings_of, count_of,
}

pub data SearchError : Type 0 where
  index_unavailable query_too_complex : SearchError

pub record SearchOptions : Type 0 where
  pub limit : ℤ
  pub offset : ℤ

-- `limit`, with its defaults.
unfoldable pub page_limit : ℤ → ℤ → ℕ
page_limit (pos (suc n)) max_results = suc n
page_limit (pos zero) (pos (suc n)) = suc n
page_limit (pos zero) (pos zero) = 20
page_limit (pos zero) (negsuc _) = 20
page_limit (negsuc _) (pos (suc n)) = suc n
page_limit (negsuc _) (pos zero) = 20
page_limit (negsuc _) (negsuc _) = 20

-- `offset`, which is zero where it is negative.
abbrev pub page_offset : ℤ → ℕ
page_offset (pos n) = n
page_offset (negsuc _) = 0

-- `totalPages`, of a limit that is not negative.
unfoldable pub total_pages : ℕ → ℕ → ℕ
total_pages total zero = 1
total_pages total (suc n) =
    let pages = (total + suc n - 1) / suc n in if ltb pages 1 then 1 else pages

-- `ranked[offset:end]`, or nothing where the offset is past the end.
unfoldable pub page_of {ℓ} : {A : Type ℓ} → ℕ → ℕ → List A → List A
page_of offset limit ranked =
    let total = length ranked in
    let end : ℕ = if ltb total (offset + limit) then total else offset + limit in
    if ltb offset total then take (end - offset) (drop offset ranked) else []

pub record Scored (F : Type 0) : Type 0 where
  pub doc_id : ℕ
  pub quantized : F

module _ {F : Type 0} (zero_score : F) (add : F → F → F) (contribution : ℕ → ℕ → Field → ℕ → F)
    (quantize : F → F) (above differs : F → F → Bool) where
  abbrev pub score_of : ℕ → List (ℕ × F) → F
  score_of id scores = elim (lookup id scores) [ none ↦ zero_score | some s ↦ s ]

  -- The loop over the postings of a term; `contribution` is the product of the term's idf, the
  -- field's weight and the frequency.
  unfoldable pub add_scores : ℕ → ℕ → List Posting → List (ℕ × F) → List (ℕ × F)
  add_scores n df [] scores = scores
  add_scores n df (p ∷ ps) scores =
      add_scores n df ps
        (insert p.doc_id (add (score_of p.doc_id scores) (contribution n df p.field p.tf)) scores)

  -- The loop over the terms.
  unfoldable pub score_terms : SearchIndex → List Text → List (ℕ × F) → List (ℕ × F)
  unfolding add_scores
  score_terms si [] scores = scores
  score_terms si (t ∷ terms) scores =
      score_terms si terms
        (add_scores (length si.docs) (count_of t si.doc_freq) (postings_of t si.postings) scores)

  -- The order of the results. An id that has no document, where Go panics, compares as not before.
  unfoldable pub before : SearchIndex → Scored F → Scored F → Bool
  before si a b =
      if differs a.quantized b.quantized
      then above a.quantized b.quantized
      else elim (get_elem? si.docs a.doc_id) [
        | none ↦ false
        | some da ↦ elim (get_elem? si.docs b.doc_id) [
          | none ↦ false
          | some db ↦
              if not (da.date == db.date) then ltb db.date da.date else text_lt da.slug db.slug
        ]
      ]

  -- `sort.Slice` by that order.
  unfoldable pub insert_scored : SearchIndex → Scored F → List (Scored F) → List (Scored F)
  insert_scored si a [] = a ∷ []
  insert_scored si a (b ∷ l) = if before si b a then b ∷ insert_scored si a l else a ∷ b ∷ l

  unfoldable pub sort_scores : SearchIndex → List (ℕ × F) → List (Scored F)
  unfolding insert_scored
  sort_scores si [] = []
  sort_scores si ((id, score) ∷ scores) =
      insert_scored si (record { doc_id = id; quantized = quantize score }) (sort_scores si scores)

  unfoldable pub rank : SearchIndex → List Text → List (Scored F)
  unfolding score_terms sort_scores
  rank si terms = if is_empty terms then [] else sort_scores si (score_terms si terms [])

  pub record SearchResult : Type 0 where
    pub title : Text
    pub slug : Text
    pub url : Text
    pub date : ℕ
    pub excerpt : Text
    pub score : F
    pub tags : List Text

  pub record SearchResponse : Type 0 where
    pub query : Text
    pub results : List SearchResult
    pub total : ℕ
    pub page : ℕ
    pub total_pages : ℕ
    pub truncated : Bool

  pub data Searched : Type 0 where
    found : SearchResponse → Searched
    refused : SearchError → Searched

  module _ (is_letter is_digit : ℕ → Bool) (nfc to_lower : Text → Text) where
    -- `buildResult`; `src` is the map from slugs to the posts of the same generation.
    unfoldable pub build_result :
        SearchConfig → SearchDoc → F → Option (List (Text × Post)) → List Text → SearchResult
    build_result cfg doc score src term_set = record {
      title = doc.title;
      slug = doc.slug;
      url = codes "/posts/" ++ doc.slug;
      date = doc.date;
      excerpt = elim src [
        | none ↦ []
        | some by_slug ↦ elim (lookup doc.slug by_slug) [
          | none ↦ []
          | some post ↦
              make_excerpt is_letter is_digit nfc to_lower post.plain_text term_set
                cfg.excerpt_length
        ]
      ];
      score = score;
      tags = doc.tags;
    }

    -- The loop over the page. An id that has no document, where Go panics, has no result.
    unfoldable pub build_results :
        SearchIndex → Option (List (Text × Post)) → List Text → List (Scored F) → List SearchResult
    unfolding build_result
    build_results si src term_set [] = []
    build_results si src term_set (s ∷ page) =
        let rest = build_results si src term_set page in
        elim (get_elem? si.docs s.doc_id) [
          | none ↦ rest
          | some doc ↦ build_result si.cfg doc s.quantized src term_set ∷ rest
        ]

    -- `Search`; a nil index is `none`.
    unfoldable pub search :
        Option SearchIndex → Option (List (Text × Post)) → Text → SearchOptions → Searched
    unfolding rank build_results page_of total_pages page_limit
    search none src query opts = refused index_unavailable
    search (some si) src query opts =
        let limit = page_limit opts.limit si.cfg.max_results in
        let offset = page_offset opts.offset in
        let terms = parse_query_terms is_letter is_digit nfc to_lower query in
        let ranked = rank si terms in
        if ltb_ℤ si.cfg.max_query_terms (pos (length terms))
        then refused query_too_complex
        else found (record {
          query = query;
          results = build_results si src terms (page_of offset limit ranked);
          total = length ranked;
          page = offset / limit + 1;
          total_pages = total_pages (length ranked) limit;
          truncated = si.truncated;
        })
