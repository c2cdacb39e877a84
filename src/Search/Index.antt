-- ===== src/Search/Index.antt =====
-- The inverted index (internal/search/index.go). Sizes in bytes are of UTF-8; the sums of `int64` are
-- taken to fit. The tracing span is left out.
pub mod Caps
pub mod Ends
pub mod Postings
use blogflow.Base.{
  ℕ, zero, suc, ◌+◌, ◌*◌, Bool, true, false, ◌&&◌, not, List, [], ◌∷◌, ◌++◌, map, length, ltb, leb,
  if◌then◌else◌, list_eq, nat_eq, Option, none, some,
}
use blogflow.Base.Text.{Text, byte_len}
use blogflow.Base.Int.{ℤ, pos, ltb_ℤ, leb_ℤ}
use blogflow.Base.Assoc.{lookup, insert}
use blogflow.Search.Query.{has, sort_texts, tokenize}

pub data Field : Type 0 where
  title tag body : Field

pub record Posting : Type 0 where
  pub doc_id : ℕ
  pub tf : ℕ
  pub field : Field

-- The fields of `content.Post` that the index reads; `plain_text` is what `PlainText` returns.
pub record Post : Type 0 where
  pub slug : Text
  pub title : Text
  pub tags : List Text
  pub date : ℕ
  pub plain_text : Text

pub record SearchDoc : Type 0 where
  pub id : ℕ
  pub slug : Text
  pub title : Text
  pub tags : List Text
  pub date : ℕ

pub data TruncationReason : Type 0 where
  complete max_docs max_tokens max_index_bytes : TruncationReason

pub record SearchConfig : Type 0 where
  pub enabled : Bool
  pub max_query_length : ℤ
  pub min_query_length : ℤ
  pub max_docs : ℤ
  pub max_tokens : ℤ
  pub max_index_bytes : ℤ
  pub max_query_terms : ℤ
  pub max_results : ℤ
  pub excerpt_length : ℤ

pub record SearchIndex : Type 0 where
  pub docs : List SearchDoc
  pub postings : List (Text × List Posting)
  pub doc_freq : List (Text × ℕ)
  pub logical_bytes : ℕ
  pub token_count : ℕ
  pub truncated : Bool
  pub reason : TruncationReason
  pub generation : ℕ
  pub cfg : SearchConfig

-- `m[k]` of a map to numbers and to slices: what is missing reads as zero, or as nil.
abbrev pub count_of : Text → List (Text × ℕ) → ℕ
count_of t m = elim (lookup t m) [ none ↦ 0 | some n ↦ n ]

abbrev pub postings_of : Text → List (Text × List Posting) → List Posting
postings_of t m = elim (lookup t m) [ none ↦ [] | some ps ↦ ps ]

-- `docBuild`; `terms` is the set of terms of all fields.
pub record DocBuild : Type 0 where
  pub title_tf : List (Text × ℕ)
  pub tag_tf : List (Text × ℕ)
  pub body_tf : List (Text × ℕ)
  pub terms : List Text

-- `terms[t] = struct{}{}`
abbrev pub add_term : Text → List Text → List Text
add_term t terms = if has t terms then terms else t ∷ terms

-- `addField`: term frequencies are capped at 255.
unfoldable pub add_field : List (Text × ℕ) → List Text → List Text → List (Text × ℕ) × List Text
add_field tf terms [] = (tf, terms)
add_field tf terms (t ∷ tokens) =
    let n = count_of t tf in
    add_field (if ltb n 255 then insert t (n + 1) tf else tf) (add_term t terms) tokens

unfoldable pub add_tags :
    (Text → List Text) → List (Text × ℕ) → List Text → List Text → List (Text × ℕ) × List Text
unfolding add_field
add_tags tokens tf terms [] = (tf, terms)
add_tags tokens tf terms (t ∷ tags) =
    let (tf', terms') = add_field tf terms (tokens t) in add_tags tokens tf' terms' tags

-- `tokens` is `tokenize`.
unfoldable pub build_doc : (Text → List Text) → Post → DocBuild
unfolding add_field add_tags
build_doc tokens post =
    let (title_tf, terms1) = add_field [] [] (tokens post.title) in
    let (tag_tf, terms2) = add_tags tokens [] terms1 post.tags in
    let (body_tf, terms3) = add_field [] terms2 (tokens post.plain_text) in
    record { title_tf = title_tf; tag_tf = tag_tf; body_tf = body_tf; terms = terms3 }

abbrev pub posting_count : DocBuild → ℕ
posting_count cand = length cand.title_tf + length cand.tag_tf + length cand.body_tf

abbrev pub sum_bytes : List Text → ℕ
sum_bytes [] = 0
sum_bytes (t ∷ ts) = byte_len t + sum_bytes ts

-- The bytes of the terms that the index does not have yet.
unfoldable pub new_term_bytes : List (Text × List Posting) → List Text → ℕ
new_term_bytes postings [] = 0
new_term_bytes postings (t ∷ terms) =
    let rest = new_term_bytes postings terms in
    elim (lookup t postings) [ some _ ↦ rest | none ↦ byte_len t + 48 + rest ]

unfoldable pub candidate_bytes : SearchIndex → Post → DocBuild → ℕ
unfolding new_term_bytes
candidate_bytes si post cand =
    byte_len post.slug
    + byte_len post.title
    + 16
    + sum_bytes post.tags
    + posting_count cand * 8
    + new_term_bytes si.postings cand.terms

-- The loop of `addPostings`, over the sorted terms.
unfoldable pub append_postings : ℕ → List (Text × ℕ) → Field → List Text → SearchIndex → SearchIndex
append_postings id tf field [] si = si
append_postings id tf field (t ∷ terms) si =
    let p : Posting = record { doc_id = id; tf = count_of t tf; field = field } in
    append_postings id tf field terms (record si {
      postings = insert t (postings_of t si.postings ++ p ∷ []) si.postings;
      token_count = si.token_count + 1;
    })

unfoldable pub add_postings : ℕ → List (Text × ℕ) → Field → SearchIndex → SearchIndex
unfolding append_postings
add_postings id tf field si = append_postings id tf field (sort_texts (map (λ e. e.0) tf)) si

-- `si.docFreq[term]++` for every term.
unfoldable pub count_terms : List Text → List (Text × ℕ) → List (Text × ℕ)
count_terms [] freq = freq
count_terms (t ∷ terms) freq = count_terms terms (insert t (count_of t freq + 1) freq)

unfoldable pub admit : Post → DocBuild → ℕ → SearchIndex → SearchIndex
unfolding add_postings count_terms
admit post cand delta si =
    let id = length si.docs in
    let doc : SearchDoc = record {
      id = id;
      slug = post.slug;
      title = post.title;
      tags = post.tags;
      date = post.date;
    } in
    let with_doc = record si { docs = si.docs ++ doc ∷ [] } in
    let with_titles = add_postings id cand.title_tf Field.title with_doc in
    let with_tags = add_postings id cand.tag_tf Field.tag with_titles in
    let with_body = add_postings id cand.body_tf Field.body with_tags in
    record with_body {
      doc_freq = count_terms cand.terms with_body.doc_freq;
      logical_bytes = with_body.logical_bytes + delta;
    }

unfoldable pub mark_truncated : TruncationReason → SearchIndex → SearchIndex
mark_truncated reason si = record si {
  truncated = true;
  reason = elim si.reason [ complete ↦ reason | r ↦ r ];
}

abbrev pub is_positive : ℤ → Bool
is_positive cap = ltb_ℤ (pos 0) cap

-- The loop of `build`. `cancelled` tells whether `ctx.Err()` is set before the post of an index; nil
-- posts are `none`.
unfoldable pub build_from :
    (Text → List Text) → (ℕ → Bool) → ℕ → List (Option Post) → SearchIndex → SearchIndex
unfolding build_doc candidate_bytes mark_truncated
build_from tokens cancelled i [] si = si
build_from tokens cancelled i (none ∷ posts) si =
    let rest = build_from tokens cancelled (suc i) posts si in if cancelled i then si else rest
build_from tokens cancelled i (some post ∷ posts) si =
    let cand = build_doc tokens post in
    let delta = candidate_bytes si post cand in
    let rest = build_from tokens cancelled (suc i) posts (admit post cand delta si) in
    if cancelled i
    then si
    else if is_positive si.cfg.max_docs && leb_ℤ si.cfg.max_docs (pos (length si.docs))
    then mark_truncated max_docs si
    else if is_positive si.cfg.max_tokens
        && ltb_ℤ si.cfg.max_tokens (pos (si.token_count + posting_count cand))
    then mark_truncated max_tokens si
    else if is_positive si.cfg.max_index_bytes
        && ltb_ℤ si.cfg.max_index_bytes (pos (si.logical_bytes + delta))
    then mark_truncated max_index_bytes si
    else rest

abbrev pub empty_index : SearchConfig → ℕ → SearchIndex
empty_index cfg generation = record {
  docs = [];
  postings = [];
  doc_freq = [];
  logical_bytes = 0;
  token_count = 0;
  truncated = false;
  reason = complete;
  generation = generation;
  cfg = cfg;
}

-- `Build`; a nil content index is `none`.
unfoldable pub build :
    (Text → List Text) → (ℕ → Bool) → Option (List (Option Post)) → SearchConfig → ℕ → SearchIndex
unfolding build_from
build tokens cancelled idx cfg generation = elim idx [
  | none ↦ empty_index cfg generation
  | some posts ↦ build_from tokens cancelled 0 posts (empty_index cfg generation)
]
