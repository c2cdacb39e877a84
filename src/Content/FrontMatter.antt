-- ===== src/Content/FrontMatter.antt =====
-- Front matter (`ParseFrontMatter`, `findClosingDelimiter` of internal/content/frontmatter.go, and
-- `isSafeURL` of internal/content/sanitize.go). Text is the code points of the
-- file, whose bytes are valid UTF-8.
pub mod Delimiter
pub mod Plain
pub mod Parse
use blogflow.Base.{
  ℕ, zero, suc, ◌+◌, ◌*◌, Bool, true, false, ◌&&◌, ◌||◌, not, List, [], ◌∷◌, length, take, drop,
  map, ltb, if◌then◌else◌, list_eq, nat_eq, ◌==◌, Option, none, some,
}
use blogflow.Base.Text.{
  byte_len, Text, codes, is_empty, has_prefix, index, contains, to_lower_name, trim_space,
}
use blogflow.Base.Int.{ℤ}
use mathlib.Core.Option

pub record FrontMatter : Type 0 where
  pub title : Text
  pub slug : Text
  pub date : ℕ
  pub updated : ℕ
  pub draft : Bool
  pub tags : List Text
  pub categories : List Text
  pub author : Text
  pub description : Text
  pub template : Text
  pub image : Text
  pub reading_time : ℤ
  pub weight : ℤ

abbrev pub max_front_matter_size : ℕ
max_front_matter_size = 64 * 1024

-- What may follow the delimiter: a newline, CR and newline, or the end.
abbrev pub starts_with : ℕ → Text → Bool
starts_with c [] = false
starts_with c (d ∷ _) = d == c

abbrev pub closes : Text → Bool
closes [] = true
closes (c ∷ s) = c == 10 || (c == 13 && starts_with 10 s)

abbrev pub delimiter : Text
delimiter = 10 ∷ codes "---"

-- `findClosingDelimiter`: the loop goes from one occurrence of the delimiter to the next, each found
-- by `bytes.Index` from the position after the last, so it tries the positions in order; `none` is -1.
unfoldable pub find_closing_delimiter : Text → Option ℕ
unfolding has_prefix
find_closing_delimiter [] = none
find_closing_delimiter (c ∷ s) =
    let next = find_closing_delimiter s in
    if has_prefix (c ∷ s) delimiter && closes (drop 4 (c ∷ s)) then some 0 else Option.map suc next

-- The newline, or CR and newline, at the start of a text, taken off.
abbrev pub skip_newline : Text → Text
skip_newline [] = []
skip_newline (c ∷ s) =
    if c == 10 then s else if c == 13 && starts_with 10 s then drop 1 s else c ∷ s

-- Whether the text begins with the fence of a front matter.
abbrev pub opens : Text → Bool
opens s =
    has_prefix s (codes "---")
    && (is_empty (drop 3 s) || starts_with 10 (drop 3 s) || starts_with 13 (drop 3 s))

-- The values of `allowedSchemes`.
abbrev pub allowed_scheme : Text → Bool
allowed_scheme scheme =
    scheme == codes "http" || scheme == codes "https" || scheme == codes "mailto"

-- `isSafeURL`, after the spaces are trimmed.
unfoldable pub is_safe_trimmed : Text → Bool
unfolding index
is_safe_trimmed [] = true
is_safe_trimmed (c ∷ s) =
    if c == b'#'
    then true
    else if c == b'/' && not (has_prefix s (codes "/"))
    then true
    else if c == b'/'
    then false
    else elim (index (c ∷ s) (codes ":")) [
      | none ↦ true
      | some i ↦ allowed_scheme (map to_lower_name (take i (c ∷ s)))
    ]

unfoldable pub is_safe_url : Text → Bool
unfolding is_safe_trimmed trim_space
is_safe_url dest = is_safe_trimmed (trim_space dest)

-- The test on the template and on the slug.
unfoldable pub is_plain : Text → Bool
unfolding contains
is_plain s = not (
    contains s (codes "/")
    || contains s (codes "\\")
    || contains s (codes "..")
    || contains s (0 ∷ []))

pub data FrontMatterError : Type 0 where
  missing_closing too_large bad_yaml bad_image bad_template bad_slug : FrontMatterError

-- The front matter, if there is one, and the body.
pub data Parsed : Type 0 where
  parsed : Option FrontMatter → Text → Parsed
  refused : FrontMatterError → Parsed

-- `yaml.Unmarshal` into a `FrontMatter`.
module _ (unmarshal : Text → Option FrontMatter) where
  unfoldable pub check_fields : FrontMatter → Text → Parsed
  unfolding is_safe_url is_plain
  check_fields fm body =
      if not (is_empty fm.image) && not (is_safe_url fm.image)
      then refused bad_image
      else if not (is_empty fm.template) && not (is_plain fm.template)
      then refused bad_template
      else if not (is_empty fm.slug) && not (is_plain fm.slug)
      then refused bad_slug
      else parsed (some fm) body

  -- The part behind the opening fence.
  unfoldable pub parse_rest : Text → Parsed
  unfolding find_closing_delimiter check_fields
  parse_rest rest = elim (find_closing_delimiter rest) [
    | none ↦ refused missing_closing
    | some end ↦
        if ltb max_front_matter_size (byte_len (take end rest))
        then refused too_large
        else elim (unmarshal (take end rest)) [
          | none ↦ refused bad_yaml
          | some fm ↦ check_fields fm (skip_newline (drop (end + 4) rest))
        ]
  ]

  unfoldable pub parse_front_matter : Text → Parsed
  unfolding parse_rest
  parse_front_matter data_read =
      if not (opens data_read)
      then parsed none data_read
      else parse_rest (skip_newline (drop 3 data_read))
