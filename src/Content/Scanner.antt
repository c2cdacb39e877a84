-- ===== src/Content/Scanner.antt =====
-- internal/content/scanner.go: what the scanner makes of one file. Text is code points. The YAML decoder,
-- the Markdown renderer and `html.UnescapeString` are arguments.
pub mod Scan
pub mod Build
pub mod Ready
pub mod Walked
pub mod Complete
pub mod Gains
pub mod Given
pub mod Whole
pub mod Grouped
pub mod Sorted
pub mod Indexed
mod Tests
use blogflow.Base.{
  ℕ, zero, suc, ◌+◌, ◌-◌, ◌/◌, ◌≡◌, Bool, true, false, ◌&&◌, ◌||◌, not, List, [], ◌∷◌, ◌++◌, length,
  take, leb, ltb, if◌then◌else◌, ◌==◌, list_eq, nat_eq, any, Option, none, some,
}
use blogflow.Base.Int.{ℤ, pos, ◌=ℤ◌}
use blogflow.Base.Text.{Text, codes, is_empty, contains}
use blogflow.Base.FilePath.{base, ext}
use blogflow.Search.Excerpt.{fields_from, collapse_whitespace}
use blogflow.Content.Cache.{or_default}
use blogflow.Content.FrontMatter.{FrontMatter, Parsed, parsed, refused, parse_front_matter}

pub record Post : Type 0 where
  pub front : FrontMatter
  pub slug : Text
  pub content : Text
  pub summary : Text
  pub reading_time : ℤ
  pub path : Text

-- `ReadingTimeMinutes`
unfoldable pub reading_time_minutes : Text → ℕ
unfolding fields_from
reading_time_minutes text =
    let minutes = length (fields_from [] text) / 200 in if ltb minutes 1 then 1 else minutes

-- `slugFromPath`: an extension is a suffix of its name.
unfoldable pub slug_from_path : Text → Text
unfolding base ext
slug_from_path p = let name = base p in take (length name - length (ext name)) name

-- The test on a slug that is made from a path.
unfoldable pub is_bad_slug : Text → Bool
unfolding contains
is_bad_slug s =
    contains s (codes "/")
    || contains s (codes "\\")
    || contains s (codes "..")
    || contains s (0 ∷ [])
    || any (λ c. c == b' ' || c == 9) s

-- The state machine of `stripHTML`.
unfoldable pub strip_tags : Bool → Text → Text
strip_tags in_tag [] = []
strip_tags in_tag (r ∷ s) =
    let next = (if r == b'<' then true else if r == b'>' then false else in_tag) in
    let rest = strip_tags next s in if r == b'<' || r == b'>' || in_tag then rest else r ∷ rest

-- The text in front of its last space, if there is one that is not the first character.
unfoldable pub cut_last_space : Text → Option Text
cut_last_space [] = none
cut_last_space (c ∷ s) = elim (cut_last_space s) [
  | some front ↦ some (c ∷ front)
  | none ↦ if c == b' ' then some [] else none
]

-- `truncateText`
unfoldable pub truncate_text : Text → ℕ → Text
unfolding collapse_whitespace cut_last_space
truncate_text text n =
    let s = collapse_whitespace text in
    if leb (length s) n then s else elim (cut_last_space (take n s)) [
      | some (c ∷ front) ↦ c ∷ (front ++ 8230 ∷ [])
      | some [] ↦ take n s ++ 8230 ∷ []
      | none ↦ take n s ++ 8230 ∷ []
    ]

-- What becomes of a file: nothing, a warning that counts, or a post.
pub data Prepared : Type 0 where
  ignored : Prepared
  rejected : Prepared
  ready : Post → Prepared

pub record Scanner : Type 0 where
  pub posts_dir : Text
  pub pages_dir : Text
  pub summary_len : ℕ
  pub unmarshal : Text → Option FrontMatter
  pub render : Text → Option Text
  pub unescape : Text → Text

-- `NewScanner`: what is not given takes its default.
unfoldable pub new_scanner :
    (Text → Option FrontMatter) → (Text → Option Text) → (Text → Text) → Text → Text → ℤ → Scanner
new_scanner unmarshal render unescape posts_dir pages_dir summary_len = record {
  posts_dir = if is_empty posts_dir then codes "posts" else posts_dir;
  pages_dir = if is_empty pages_dir then codes "pages" else pages_dir;
  summary_len = or_default 200 summary_len;
  unmarshal = unmarshal;
  render = render;
  unescape = unescape;
}

module _ (sc : Scanner) where
  -- `stripHTML`, and with it `PlainText`.
  unfoldable pub strip_html : Text → Text
  unfolding strip_tags
  strip_html s = sc.unescape (strip_tags false s)

  -- The slug of the front matter, or one from the path that passes the test.
  unfoldable pub slug_of : FrontMatter → Text → Option Text
  slug_of fm path =
      if not (is_empty fm.slug)
      then some fm.slug
      else if is_bad_slug (slug_from_path path)
      then none
      else some (slug_from_path path)

  unfoldable pub make_post : FrontMatter → Text → Text → Text → Text → Post
  make_post fm slug rendered body path = record {
    front = fm;
    slug = slug;
    content = rendered;
    summary = truncate_text (strip_html rendered) sc.summary_len;
    reading_time =
        if fm.reading_time =ℤ pos 0 then pos (reading_time_minutes body) else fm.reading_time;
    path = path;
  }

  -- The part behind the front matter: drafts are left out, and posts without a date.
  unfoldable pub prepare_parsed : Bool → Text → FrontMatter → Text → Prepared
  prepare_parsed is_page path fm body =
      if fm.draft
      then ignored
      else if not is_page && fm.date == 0
      then rejected
      else elim (sc.render body) [
        | none ↦ rejected
        | some rendered ↦ elim (slug_of fm path) [
          | none ↦ rejected
          | some slug ↦ ready (make_post fm slug rendered body path)
        ]
      ]

  -- The callback of the walk on a .md file; `none` is a read error.
  unfoldable pub prepare : Bool → Text → Option Text → Prepared
  prepare is_page path none = rejected
  prepare is_page path (some source) = elim (parse_front_matter sc.unmarshal source) [
    | refused e ↦ rejected
    | parsed none body ↦ ignored
    | parsed (some fm) body ↦ prepare_parsed is_page path fm body
  ]
