-- ===== src/Content/Tests.antt =====
-- Runs of the content models, and their theorems at small inputs.
use blogflow.Base.{
  ◌+◌, ◌≤◌, ◌≡◌, refl, true, false, List, [], ◌∷◌, ◌++◌, length, ltb, if◌then◌else◌, Option, none,
  some, arith, ◌⊎◌, list_eq, nat_eq, list_beq,
}
use blogflow.Base.Text.{Text, codes}
use blogflow.Base.Int.{pos}
use blogflow.Base.Assoc.{insert, lookup}
use blogflow.Content.Cache.{Cache, CacheEntry, new_cache, get, store}
use blogflow.Content.Cache.Laws.{IsVisit, length-store, get-store}
use blogflow.Content.FrontMatter.{
  FrontMatter, parsed, delimiter, opens, check_fields, parse_front_matter, find_closing_delimiter,
}
use blogflow.Content.FrontMatter.Parse.{
  IsSafe, parse_front_matter-delimited, parse_front_matter-IsSafe,
}

abbrev no_hash : Text → Text
no_hash s = []

abbrev in_order : List (Text × CacheEntry) → List (Text × CacheEntry)
in_order m = m

abbrev one_page : Cache
one_page = store no_hash in_order (codes "a") (codes "A") 5 (new_cache (pos 1) (pos 10))

one_page-IsVisit : IsVisit in_order one_page.entries
unfolding store lookup new_cache insert
one_page-IsVisit = record { met = (unfold lookup list_beq in refl, tt); complete = refl }

one_page_positive : 1 ≤ one_page.max_entries
unfolding store lookup new_cache
one_page_positive = omega arith

one_page_full : length one_page.entries ≤ one_page.max_entries
unfolding store lookup new_cache insert
one_page_full = omega arith

length-store_example :
    length (store no_hash in_order (codes "b") (codes "B") 6 one_page).entries
    ≤ one_page.max_entries
length-store_example =
    length-store no_hash in_order (codes "b") (codes "B") 6 one_page one_page-IsVisit
      one_page_positive one_page_full

get-store_example :
    (get (codes "b") 7 (store no_hash in_order (codes "b") (codes "B") 6 one_page)
      ≡ (if ltb (6 + one_page.ttl) 7 then none else some (codes "B")))
    × ((codes "b" ≡ codes "a")
        ⊎ ((get (codes "a") 7 (store no_hash in_order (codes "b") (codes "B") 6 one_page)
              ≡ get (codes "a") 7 one_page)
            ⊎ (get (codes "a") 7 (store no_hash in_order (codes "b") (codes "B") 6 one_page)
                ≡ none)))
get-store_example = get-store no_hash in_order (codes "b") (codes "a") (codes "B") 6 7 one_page

abbrev with_slug : Text → FrontMatter
with_slug slug = record {
  title = [];
  slug = slug;
  date = 0;
  updated = 0;
  draft = false;
  tags = [];
  categories = [];
  author = [];
  description = [];
  template = [];
  image = [];
  reading_time = pos 0;
  weight = pos 0;
}

-- A YAML that takes the whole text for the slug.
abbrev yaml : Text → Option FrontMatter
yaml s = some (with_slug s)

abbrev source : Text
source = codes "---" ++ 10 ∷ (codes "x" ++ (delimiter ++ 10 ∷ codes "hi"))

open_ended : find_closing_delimiter (codes "x" ++ 10 ∷ []) ≡ none
unfolding find_closing_delimiter
open_ended = refl

parse_front_matter-delimited_example :
    parse_front_matter yaml source ≡ check_fields yaml (with_slug (codes "x")) (codes "hi")
parse_front_matter-delimited_example =
    parse_front_matter-delimited yaml (codes "x") (codes "hi") (with_slug (codes "x")) open_ended
      (omega arith) refl

source_parsed : parse_front_matter yaml source ≡ parsed (some (with_slug (codes "x"))) (codes "hi")
unfolding parse_front_matter
source_parsed = refl

parse_front_matter-IsSafe_example : (opens source ≡ true) × IsSafe (with_slug (codes "x"))
parse_front_matter-IsSafe_example =
    parse_front_matter-IsSafe yaml source (codes "hi") (with_slug (codes "x")) source_parsed
