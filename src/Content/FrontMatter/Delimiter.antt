-- ===== src/Content/FrontMatter/Delimiter.antt =====
-- Where a front matter ends (`findClosingDelimiter` of internal/content/frontmatter.go).
use blogflow.Base.{
  ℕ, suc, ◌≡◌, refl, Bool, false, ◌&&◌, [], ◌∷◌, ◌++◌, length, drop, Option, none, some, arith,
  Bool-cases, inl, inr,
}
use blogflow.Base.Text.{Text, has_prefix, cut_prefix}
use blogflow.Content.FrontMatter.{closes, delimiter, find_closing_delimiter}
use mathlib.Core.Option

-- Whether the delimiter stands at the start of a text and is closed.
abbrev ends_here : Text → Bool
ends_here s = has_prefix s delimiter && closes (drop 4 s)

ends_here-append :
    (c : ℕ) (fm body : Text)
    → ends_here (c ∷ fm ++ 10 ∷ []) ≡ false
    → ends_here (c ∷ fm ++ (delimiter ++ 10 ∷ body)) ≡ false
unfolding cut_prefix has_prefix
ends_here-append c [] body h = ground arith
ends_here-append c (d ∷ []) body h = ground arith
ends_here-append c (d ∷ e ∷ []) body h = ground arith
ends_here-append c (d ∷ e ∷ f ∷ []) body h = ground arith
ends_here-append c (d ∷ e ∷ f ∷ g ∷ []) body h = ground arith
ends_here-append c (d ∷ e ∷ f ∷ g ∷ i ∷ fm) body h = ground arith

map-none : (o : Option ℕ) → Option.map suc o ≡ none → o ≡ none
map-none none e = refl
map-none (some n) e = absurd (cc)

-- A text in which no delimiter is closed before its last line feed keeps its own end when a closing
-- line and a body are put behind it.
pub find_closing_delimiter-append :
    (fm body : Text)
    → find_closing_delimiter (fm ++ 10 ∷ []) ≡ none
    → find_closing_delimiter (fm ++ (delimiter ++ 10 ∷ body)) ≡ some (length fm)
unfolding find_closing_delimiter cut_prefix has_prefix
find_closing_delimiter-append [] body h = refl
find_closing_delimiter-append (c ∷ fm) body h = elim (Bool-cases (ends_here (c ∷ fm ++ 10 ∷ []))) [
  | inl here ↦ absurd (cc (rw (here, find_closing_delimiter) at h))
  | inr not_here ↦
      let rest : find_closing_delimiter (fm ++ 10 ∷ []) ≡ none =
        map-none (find_closing_delimiter (fm ++ 10 ∷ []))
          (rw (not_here, find_closing_delimiter) at h) in
      rw (ends_here-append c fm body not_here, find_closing_delimiter-append fm body rest) refl
]
