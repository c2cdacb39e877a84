-- ===== src/Search/Tests.antt =====
-- Runs of the search model, and its theorems at a small site; letters are ASCII and lower case.
use blogflow.Base.Assoc.{insert, lookup}
use blogflow.Base.{
  list_beq, ℕ, suc, ◌+◌, ◌≡◌, refl, Bool, true, false, ◌&&◌, List, [], ◌∷◌, ◌++◌, leb, length,
  Option, none, some, arith, list_eq, nat_eq,
}
use blogflow.Base.Text.{is_space, text_lt, Text, codes}
use blogflow.Base.Int.{pos}
use blogflow.Search.Tokens.{is_token_rune, tokenize_into, Splits, tokenize_into-Splits}
use blogflow.Search.Query.{
  sort_texts, has, IsRising, tokenize, parse_query_terms, parse_query_terms-IsRising,
}
use blogflow.Search.Excerpt.{collapse_whitespace, make_excerpt, IsExcerpt, make_excerpt-IsExcerpt}
use blogflow.Search.Index.{admit, Post, SearchConfig, SearchIndex, Field, build}
use blogflow.Search.Pages.{Scored, rank, total_pages}
use blogflow.Search.Pages.Cover.{pages, pages_cover}
use blogflow.Search.Pages.Ranked.{UniqueIds, is_ranked, matches, rank-UniqueIds}

abbrev letter : ℕ → Bool
letter r = leb b'a' r && leb r b'z'

abbrev digit : ℕ → Bool
digit r = leb b'0' r && leb r b'9'

abbrev same : Text → Text
same s = s

abbrev tokens : Text → List Text
tokens = tokenize letter digit same same

tokenize_into-Splits_example :
    (ts : List Text) × (tokenize_into letter digit [] (codes "go, go 1") ≡ [] ++ ts)
    × Splits letter digit (codes "go, go 1") ts
tokenize_into-Splits_example = tokenize_into-Splits letter digit [] (codes "go, go 1")

terms_sorted :
    parse_query_terms letter digit same same (codes "go a go") ≡ codes "a" ∷ codes "go" ∷ []
unfolding parse_query_terms tokenize_into is_token_rune list_beq text_lt
terms_sorted = refl

go_in_order :
    IsRising (parse_query_terms letter digit same same (codes "go a go"))
    × ((t : Text)
        → has t (parse_query_terms letter digit same same (codes "go a go"))
          ≡ has t (tokens (codes "go a go")))
go_in_order = parse_query_terms-IsRising letter digit same same (codes "go a go")

abbrev story : Text
story = codes "once upon  a time"

excerpt_of_story :
    make_excerpt letter digit same same story (codes "a" ∷ []) (pos 4)
    ≡ 8230 ∷ codes "n a " ++ 8230 ∷ []
unfolding make_excerpt is_space is_token_rune list_beq
excerpt_of_story = refl

make_excerpt-IsExcerpt_example :
    IsExcerpt letter digit same same 4
      (collapse_whitespace story)
      (codes "a" ∷ [])
      (make_excerpt letter digit same same story (codes "a" ∷ []) (pos 4))
unfolding is_space
make_excerpt-IsExcerpt_example =
    make_excerpt-IsExcerpt letter digit same same 3 story (codes "a" ∷ [])
      (unfold collapse_whitespace in refl)

abbrev post : Text → Text → Post
post slug text = record { slug = slug; title = slug; tags = []; date = 1; plain_text = text }

abbrev posts : List (Option Post)
posts =
    some (post (codes "one") (codes "go a")) ∷ none ∷ some (post (codes "two") (codes "go")) ∷ []

abbrev cfg : SearchConfig
cfg = record {
  enabled = true;
  max_query_length = pos 128;
  min_query_length = pos 2;
  max_docs = pos 1;
  max_tokens = pos 0;
  max_index_bytes = pos 0;
  max_query_terms = pos 8;
  max_results = pos 10;
  excerpt_length = pos 20;
}

abbrev never : ℕ → Bool
never i = false

build_truncated : (build tokens never (some posts) cfg 1).truncated ≡ true
unfolding build admit sort_texts tokenize tokenize_into is_token_rune lookup insert list_beq text_lt
build_truncated = refl

abbrev hits : List ℕ
hits = 5 ∷ 6 ∷ 7 ∷ []

pages_cover_example : pages (total_pages (length hits) 2) 0 2 hits ≡ hits
pages_cover_example = pages_cover 2 hits (omega arith)

abbrev weigh : ℕ → ℕ → Field → ℕ → ℕ
weigh n df field tf = tf

abbrev site_index : SearchIndex
site_index = build tokens never (some posts) cfg 1

abbrev same_score : ℕ → ℕ
same_score s = s

abbrev never_differs : ℕ → ℕ → Bool
never_differs a b = false

abbrev ranked : List (Scored ℕ)
ranked =
    rank 0 (λ a b. a + b) weigh same_score (λ a b. leb (suc b) a) never_differs site_index
      (codes "go" ∷ [])

rank-UniqueIds_example :
    UniqueIds ranked × ((id : ℕ) → is_ranked id ranked ≡ matches site_index id (codes "go" ∷ []))
rank-UniqueIds_example =
    rank-UniqueIds 0 (λ a b. a + b) weigh same_score (λ a b. leb (suc b) a) never_differs site_index
      (codes "go" ∷ [])
