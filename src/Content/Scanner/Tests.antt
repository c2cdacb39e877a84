-- ===== src/Content/Scanner/Tests.antt =====
-- Runs of the scanner's model, and its theorem at a small site.
use blogflow.Base.{
  ◌≡◌, refl, ◌++◌, false, List, [], ◌∷◌, ℕ, map, Option, none, some, list_eq, nat_eq,
}
use blogflow.Base.Int.{pos}
use blogflow.Base.Text.{is_space, Text, codes, to_lower_ascii}
use blogflow.Content.FrontMatter.{FrontMatter}
use blogflow.Content.Scanner.{new_scanner, Post, Scanner, slug_from_path, truncate_text, strip_tags}
use blogflow.Content.Scanner.Scan.{Index, Visit, directory, file}

abbrev dated : ℕ → List Text → FrontMatter
dated date tags = record {
  title = codes "T";
  slug = [];
  date = date;
  updated = 0;
  draft = false;
  tags = tags;
  categories = [];
  author = [];
  description = [];
  template = [];
  image = [];
  reading_time = pos 0;
  weight = pos 0;
}

-- A front matter of one letter is the age of the post.
abbrev unmarshal : Text → Option FrontMatter
unmarshal [] = none
unmarshal (c ∷ s) = some (dated c (codes "Go" ∷ codes " go" ∷ []))

abbrev scanner : Scanner
unfolding new_scanner
scanner = new_scanner unmarshal (λ s. some s) (λ s. s) [] [] (pos 0)

abbrev page_source : Text → Text
page_source s = codes "---\n" ++ s ++ codes "\n---\nhello"

abbrev visits : List Visit
visits =
    directory (codes "posts")
    ∷ file (codes "posts/a.md") (some (page_source (codes "a")))
    ∷ file (codes "posts/b.md") (some (page_source (codes "b")))
    ∷ file (codes "posts/c.txt") (some [])
    ∷ []

slug_found : slug_from_path (codes "posts/a.b.md") ≡ codes "a.b"
unfolding slug_from_path
slug_found = refl

truncated : truncate_text (codes "one  two three") 9 ≡ codes "one two" ++ 8230 ∷ []
unfolding truncate_text is_space
truncated = refl

stripped : strip_tags false (codes "<p>a &lt; b</p>") ≡ codes "a &lt; b"
unfolding strip_tags
stripped = refl

abbrev made : Text → ℕ → Post
made s date = record {
  front = dated date (codes "Go" ∷ codes " go" ∷ []);
  slug = s;
  content = codes "hello";
  summary = codes "hello";
  reading_time = pos 1;
  path = codes "posts/" ++ s ++ codes ".md";
}

abbrev lower : Text → Text
lower = map to_lower_ascii

abbrev no_year : ℕ → ℕ
no_year d = 0

abbrev both : List Post
both = made (codes "b") b'b' ∷ made (codes "a") b'a' ∷ []

abbrev built : Index
built = record {
  posts = both;
  by_slug = (codes "a", made (codes "a") b'a') ∷ (codes "b", made (codes "b") b'b') ∷ [];
  by_tag =
      (
        codes "go",
        made (codes "b") b'b'
            ∷ made (codes "b") b'b'
            ∷ made (codes "a") b'a'
            ∷ made (codes "a") b'a'
            ∷ [],
      )
      ∷ [];
  by_year = (0, both) ∷ [];
  pages = [];
  page_by_slug = [];
  scan_errors = [];
}
