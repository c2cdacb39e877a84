-- ===== src/Handlers/Search/Tests.antt =====
-- A run of the search handler (internal/server/handlers/search.go), and its theorem there.
use blogflow.Base.Assoc.{insert, lookup}
use blogflow.Base.{
  list_beq, ℕ, suc, ◌+◌, ◌≡◌, refl, Bool, true, false, ◌&&◌, List, [], ◌∷◌, leb, Option, none, some,
  list_eq, nat_eq,
}
use blogflow.Base.Text.{is_space, trim_space, text_lt, Text, codes}
use blogflow.Base.Int.{ℤ, pos}
use blogflow.Search.Tokens.{is_token_rune, tokenize_into}
use blogflow.Search.Query.{sort_texts, tokenize, parse_query_terms}
use blogflow.Search.Index.{admit, Post, SearchConfig, SearchIndex, Field, build}
use blogflow.Search.Pages.{before, search, rank}
use blogflow.Handlers.Search.{
  SearchData, SearchAnswer, rendered, no_message, parse_search_page, handle_search,
}
use blogflow.Handlers.Search.Paged.{Linked, handle_search-Linked}

abbrev letter : ℕ → Bool
letter r = leb b'a' r && leb r b'z'

abbrev same : Text → Text
same s = s

abbrev never : ℕ → Bool
never i = false

abbrev post : Text → Post
post slug = record { slug = slug; title = slug; tags = []; date = 1; plain_text = codes "go" }

abbrev cfg : SearchConfig
cfg = record {
  enabled = true;
  max_query_length = pos 128;
  min_query_length = pos 2;
  max_docs = pos 5;
  max_tokens = pos 0;
  max_index_bytes = pos 0;
  max_query_terms = pos 8;
  max_results = pos 1;
  excerpt_length = pos 20;
}

abbrev site_index : SearchIndex
site_index =
    build (tokenize letter never same same) never
      (some (some (post (codes "two")) ∷ some (post (codes "one")) ∷ [])) cfg 1

abbrev weigh : ℕ → ℕ → Field → ℕ → ℕ
weigh n df field tf = tf

abbrev same_score : ℕ → ℕ
same_score s = s

abbrev plus : ℕ → ℕ → ℕ
plus a b = a + b

abbrev above : ℕ → ℕ → Bool
above a b = leb (suc b) a

abbrev never_differs : ℕ → ℕ → Bool
never_differs a b = false

abbrev Data : Type 0
Data = SearchData 0 plus weigh same_score above never_differs

abbrev digits : ℕ → Text
digits n = (b'0' + n) ∷ []

abbrev two : Text → Option ℤ
two s = some (pos 2)

abbrev renders : Data → Bool
renders d = true

abbrev second_page : Data
second_page = record {
  enabled = true;
  query = codes "go";
  executed = true;
  results =
      record {
        title = codes "two";
        slug = codes "two";
        url = codes "/posts/two";
        date = 1;
        excerpt = [];
        score = 1;
        tags = [];
      }
      ∷ [];
  total = 2;
  page = 2;
  total_pages = 2;
  has_prev = true;
  has_next = false;
  prev_url = codes "/search?q=go";
  next_url = [];
  message = no_message;
  truncated = false;
}

abbrev asked :
    Option (Option SearchIndex × Option (List (Text × Post)))
    → SearchAnswer 0 plus weigh same_score above never_differs
asked =
    handle_search 0 plus weigh same_score above never_differs same digits letter never same same two
      cfg renders (codes "go") (codes "2")

shows_second : asked (some (some site_index, none)) ≡ rendered 200 second_page
unfolding handle_search search rank build admit sort_texts tokenize parse_query_terms tokenize_into
    is_token_rune lookup insert list_beq text_lt trim_space is_space before
shows_second = refl

handle_search-Linked_example :
    (◌≡◌ {A = ℕ} 200 200)
    × Linked 0 plus weigh same_score above never_differs same digits
        (codes "go")
        (parse_search_page two (codes "2"))
        second_page
handle_search-Linked_example =
    handle_search-Linked 0 plus weigh same_score above never_differs same digits letter never same
      same two cfg renders (codes "go") (codes "2") (some (some site_index, none)) 200 second_page
      shows_second refl
