-- ===== src/Content/FrontMatter/Plain.antt =====
-- What the tests of `ParseFrontMatter` on names and links admit (internal/content/frontmatter.go, and
-- `isSafeURL` of sanitize.go).
use blogflow.Base.{
  ℕ, suc, ◌≡◌, refl, ◌∙◌, ap, true, false, [], ◌∷◌, ◌++◌, take, map, ◌==◌, nat_eq, list_eq,
  list_beq_iff, none, some, arith, All, Bool-cases, inl, inr, ◌⊎◌, subst,
}
use blogflow.Base.Text.{
  Text, codes, has_prefix, cut_prefix, cut_prefix_iff, index, contains, to_lower_name,
}
use blogflow.Content.FrontMatter.{is_plain, is_safe_trimmed, allowed_scheme}

-- The text has no such part.
abbrev pub Lacks : Text → Text → Type 0
Lacks p s = (before after : Text) → s ≡ before ++ (p ++ after) → ⊥

has_prefix-append : (p after : Text) → has_prefix (p ++ after) p ≡ true
unfolding has_prefix
has_prefix-append p after = rw ((cut_prefix_iff (p ++ after) p after).1 refl, has_prefix) refl

contains-part :
    (c : ℕ) (p before after : Text) → contains (before ++ (c ∷ p ++ after)) (c ∷ p) ≡ true
unfolding contains index
contains-part c p [] after = rw (has_prefix-append (c ∷ p) after, index) refl
contains-part c p (b ∷ before) after =
    elim (Bool-cases (has_prefix (b ∷ (before ++ (c ∷ p ++ after))) (c ∷ p))) [
      | inl here ↦ rw (here, index) refl
      | inr later ↦ ground (arith, later, contains-part c p before after)
    ]

contains-Lacks : (c : ℕ) (p s : Text) → contains s (c ∷ p) ≡ false → Lacks (c ∷ p) s
contains-Lacks c p s h before after e =
    absurd (ground (arith, h, ap (λ t. contains t (c ∷ p)) e ∙ contains-part c p before after))

-- A name without slash, backslash, double dot and NUL.
pub record IsPlain (s : Text) : Type 0 where
  pub slash : Lacks (codes "/") s
  pub backslash : Lacks (codes "\\") s
  pub dots : Lacks (codes "..") s
  pub nul : Lacks (0 ∷ []) s

pub is_plain-IsPlain : (s : Text) → is_plain s ≡ true → IsPlain s
unfolding is_plain
is_plain-IsPlain s h = record {
  slash = contains-Lacks b'/' [] s (ground arith);
  backslash = contains-Lacks 92 [] s (ground arith);
  dots = contains-Lacks b'.' (codes ".") s (ground arith);
  nul = contains-Lacks 0 [] s (ground arith);
}

abbrev pub NoColon : Text → Type 0
NoColon s = All (λ c. (c == b':') ≡ false) s

-- The part before the first colon, or no colon.
index-colon :
    (s : Text)
    → ((index s (codes ":") ≡ none) × NoColon s)
      ⊎ ((i : ℕ) × (rest : Text) × (index s (codes ":") ≡ some i)
          × (s ≡ take i s ++ b':' ∷ rest)
          × NoColon (take i s))
unfolding index has_prefix cut_prefix
index-colon [] = inl (refl, tt)
index-colon (c ∷ s) = elim (Bool-cases (c == b':')) [
  | inl colon ↦ inr (0, s, rw (colon, index) refl, ap (λ d. d ∷ s) (ground (arith, colon)), tt)
  | inr other ↦ elim (index-colon s) [
    | inl (e, plain) ↦ inl (rw (other, e, index) refl, (other, plain))
    | inr (i, rest, e, split, plain) ↦
        inr (suc i, rest, rw (other, e, index) refl, ap (◌∷◌ c) split, (other, plain))
  ]
]

-- A destination that stays on the site, or has one of three schemes.
pub data SafeTarget : Text → Type 0 where
  empty : SafeTarget []
  fragment : {s : Text} → SafeTarget (b'#' ∷ s)
  rooted : {s : Text} → ((rest : Text) → s ≡ b'/' ∷ rest → ⊥) → SafeTarget (b'/' ∷ s)
  relative : {s : Text} → NoColon s → ((rest : Text) → s ≡ b'/' ∷ rest → ⊥) → SafeTarget s
  with_scheme :
      {s : Text} (scheme rest : Text)
      → s ≡ scheme ++ b':' ∷ rest
      → NoColon scheme
      → (map to_lower_name scheme ≡ codes "http")
        ⊎ (map to_lower_name scheme ≡ codes "https")
        ⊎ (map to_lower_name scheme ≡ codes "mailto")
      → SafeTarget s

slash_first : (s rest : Text) → has_prefix s (codes "/") ≡ false → s ≡ b'/' ∷ rest → ⊥
slash_first s rest h e =
    absurd (cc (h, ap (λ t. has_prefix t (codes "/")) e ∙ has_prefix-append (codes "/") rest))

pub is_safe_trimmed-SafeTarget : (s : Text) → is_safe_trimmed s ≡ true → SafeTarget s
unfolding is_safe_trimmed
is_safe_trimmed-SafeTarget [] h = empty
is_safe_trimmed-SafeTarget (c ∷ s) h = elim (Bool-cases (c == b'#')) [
  | inl hash ↦ subst (λ d. SafeTarget (d ∷ s)) (ground (arith, hash)) fragment
  | inr no_hash ↦ elim (Bool-cases (c == b'/')) [
    | inl slash ↦ elim (Bool-cases (has_prefix s (codes "/"))) [
      | inl double ↦ absurd (ground arith)
      | inr single ↦
          subst (λ d. SafeTarget (d ∷ s)) (ground (arith, slash))
            (rooted (λ rest e. slash_first s rest single e))
    ]
    | inr no_slash ↦ elim (index-colon (c ∷ s)) [
      | inl (e, plain) ↦ relative plain (λ rest e. absurd (ground arith))
      | inr (i, rest, e, split, plain) ↦
          with_scheme (take i (c ∷ s)) rest split plain
            (schemes (take i (c ∷ s)) (rw (no_hash, no_slash, e, is_safe_trimmed) at h))
    ]
  ]
]
  where
    schemes :
        (scheme : Text)
        → allowed_scheme (map to_lower_name scheme) ≡ true
        → (map to_lower_name scheme ≡ codes "http")
          ⊎ (map to_lower_name scheme ≡ codes "https")
          ⊎ (map to_lower_name scheme ≡ codes "mailto")
    schemes scheme h =
        let low = map to_lower_name scheme in
        ground (
          arith,
          h,
          list_beq_iff low (codes "http"),
          list_beq_iff low (codes "https"),
          list_beq_iff low (codes "mailto"),
        )
