-- ===== src/Handlers/Paginate.antt =====
-- Pagination (`paginate`, `validPage`, `parsePage`, `queryInt`, the page URLs and `setPageURLs` of
-- internal/server/handlers/handlers.go). The quotient of two lengths as float64, rounded up, is exact
-- below 2^53, and is the whole division here.
pub mod Reach
use blogflow.Base.{
  ℕ, zero, suc, ◌+◌, ◌-◌, ◌*◌, ◌/◌, Bool, true, false, ◌&&◌, List, [], ◌∷◌, ◌++◌, length, take,
  drop, ltb, if◌then◌else◌, Option, none, some,
}
use blogflow.Base.Text.{Text, codes, is_empty}
use blogflow.Base.Int.{ℤ, pos, negsuc, ltb_ℤ, leb_ℤ}

pub record Pagination : Type 0 where
  pub current_page : ℕ
  pub total_pages : ℕ
  pub has_prev : Bool
  pub has_next : Bool
  pub prev_page : ℕ
  pub next_page : ℕ
  pub prev_url : Text
  pub next_url : Text

-- `int(math.Ceil(float64(total) / float64(perPage)))`, at least one, for `perPage = n + 1`.
unfoldable pub page_count : ℕ → ℕ → ℕ
page_count total n = let pages = (total + n) / suc n in if ltb pages 1 then 1 else pages

-- `page` between one and the number of pages.
unfoldable pub clamp : ℤ → ℕ → ℕ
clamp (pos zero) total_pages = 1
clamp (negsuc _) total_pages = 1
clamp (pos (suc k)) total_pages = if ltb total_pages (suc k) then total_pages else suc k

-- The page of `perPage = n + 1` posts.
unfoldable pub paginate_by {ℓ} : {A : Type ℓ} → ℕ → List A → ℤ → List A × Pagination
unfolding page_count clamp
paginate_by n posts page =
    let total = length posts in
    let total_pages = page_count total n in
    let current = clamp page total_pages in
    let start = (current - 1) * suc n in
    let end : ℕ = if ltb total (start + suc n) then total else start + suc n in
    (
      take (end - start) (drop start posts),
      record {
        current_page = current;
        total_pages = total_pages;
        has_prev = ltb 1 current;
        has_next = ltb current total_pages;
        prev_page = current - 1;
        next_page = current + 1;
        prev_url = [];
        next_url = [];
      },
    )

abbrev pub single_page : Pagination
single_page = record {
  current_page = 1;
  total_pages = 1;
  has_prev = false;
  has_next = false;
  prev_page = 0;
  next_page = 0;
  prev_url = [];
  next_url = [];
}

unfoldable pub paginate {ℓ} : {A : Type ℓ} → List A → ℤ → ℤ → List A × Pagination
unfolding paginate_by
paginate posts page per_page = elim per_page [
  | pos zero ↦ (posts, single_page)
  | pos (suc n) ↦ paginate_by n posts page
  | negsuc _ ↦ paginate_by 9 posts page
]

-- `validPage`
unfoldable pub valid_page : ℕ → ℤ → ℤ → Bool
unfolding page_count
valid_page total_posts page per_page = elim per_page [
  | pos zero ↦ is_one page
  | negsuc _ ↦ is_one page
  | pos (suc n) ↦ leb_ℤ (pos 1) page && leb_ℤ page (pos (page_count total_posts n))
]
  where
    is_one : ℤ → Bool
    is_one p = leb_ℤ (pos 1) p && leb_ℤ p (pos 1)

-- `strconv.Atoi` (`none` is its error), `strconv.Itoa` and `url.PathEscape`.
module _ (atoi : Text → Option ℤ) (itoa : ℕ → Text) (path_escape : Text → Text) where
  -- `queryInt`, of the value of the key.
  unfoldable pub query_int : Text → ℤ → ℤ
  query_int s default =
      if is_empty s then default else elim (atoi s) [ none ↦ default | some v ↦ v ]

  -- `parsePage`, of the path value and of the query's value; with whether the path gave the page.
  unfoldable pub parse_page : Text → Text → ℤ × Bool
  unfolding query_int
  parse_page path query =
      if is_empty path then (query_int query (pos 1), false) else elim (atoi path) [
        | none ↦ (negsuc 0, true)
        | some v ↦ if ltb_ℤ v (pos 1) then (negsuc 0, true) else (v, true)
      ]

  unfoldable pub list_page_url : ℕ → Text
  list_page_url page = if ltb 1 page then codes "/page/" ++ itoa page else codes "/"

  unfoldable pub posts_page_url : ℕ → Text
  posts_page_url page = if ltb 1 page then codes "/posts?page=" ++ itoa page else codes "/posts"

  unfoldable pub tag_page_url : Text → ℕ → Text
  tag_page_url tag page =
      let escaped = path_escape tag in
      if ltb 1 page
      then codes "/tags/" ++ escaped ++ codes "?page=" ++ itoa page
      else codes "/tags/" ++ escaped

  -- `setPageURLs`
  unfoldable pub set_page_urls : (ℕ → Text) → Pagination → Pagination
  set_page_urls url_of pag = record pag {
    prev_url = if pag.has_prev then url_of pag.prev_page else pag.prev_url;
    next_url = if pag.has_next then url_of pag.next_page else pag.next_url;
  }
