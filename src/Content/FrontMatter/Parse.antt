-- ===== src/Content/FrontMatter/Parse.antt =====
-- What `ParseFrontMatter` of internal/content/frontmatter.go returns.
use blogflow.Base.{
  subst, ℕ, ◌+◌, ◌≤◌, ◌≡◌, refl, Bool, true, false, ◌&&◌, not, [], ◌∷◌, ◌++◌, take, drop, ltb,
  take-append, drop-append, if◌then◌else◌, Option, none, some, arith, Bool-cases, Option-cases, inl,
  inr, ◌⊎◌,
}
use blogflow.Base.Text.{byte_len, Text, codes, is_empty, has_prefix, cut_prefix}
use blogflow.Content.FrontMatter.{
  FrontMatter, max_front_matter_size, delimiter, find_closing_delimiter, opens, skip_newline,
  is_safe_url, is_plain, Parsed, parsed, refused, FrontMatterError, check_fields,
  parse_front_matter, parse_rest,
}
use blogflow.Content.FrontMatter.Plain.{
  IsPlain, is_plain-IsPlain, SafeTarget, empty, is_safe_trimmed-SafeTarget,
}
use blogflow.Base.Text.{trim_space, contains, index}
use blogflow.Content.FrontMatter.Delimiter.{find_closing_delimiter-append}

-- The names that a front matter gives to files and links do no harm.
pub record IsSafe (fm : FrontMatter) : Type 0 where
  pub image : SafeTarget (trim_space fm.image)
  pub template : IsPlain fm.template
  pub slug : IsPlain fm.slug

IsPlain-unless_empty : (s : Text) → (is_empty s ≡ true) ⊎ (is_plain s ≡ true) → IsPlain s
unfolding is_plain contains index
IsPlain-unless_empty s (inr h) = is_plain-IsPlain s h
IsPlain-unless_empty [] (inl e) = is_plain-IsPlain [] refl
IsPlain-unless_empty (c ∷ s) (inl e) = absurd (cc)

safe_unless_empty :
    (s : Text) → (is_empty s ≡ true) ⊎ (is_safe_url s ≡ true) → SafeTarget (trim_space s)
unfolding is_safe_url trim_space
safe_unless_empty s (inr h) = is_safe_trimmed-SafeTarget (trim_space s) h
safe_unless_empty [] (inl e) = empty
safe_unless_empty (c ∷ s) (inl e) = absurd (cc)

guard-parsed :
    (b : Bool) (x : FrontMatterError) (rest : Parsed) (o : Option FrontMatter) (body : Text)
    → (if b then refused x else rest) ≡ parsed o body
    → (b ≡ false) × (rest ≡ parsed o body)
guard-parsed true x rest o body e = absurd (cc)
guard-parsed false x rest o body e = (refl, e)

parsed-injective :
    (fm fm' : FrontMatter) (body body' : Text)
    → parsed (some fm) body ≡ parsed (some fm') body'
    → fm ≡ fm'
parsed-injective fm fm' body body' e = cc

one_of : (a b : Bool) → (not a && not b) ≡ false → (a ≡ true) ⊎ (b ≡ true)
one_of a b h = ground arith

ltb_of_le : (a b : ℕ) → b ≤ a → ltb a b ≡ false
ltb_of_le a b h = ground arith

module _ (unmarshal : Text → Option FrontMatter) where
  parse_rest-delimited :
      (text body : Text) (fm : FrontMatter)
      → find_closing_delimiter (text ++ 10 ∷ []) ≡ none
      → byte_len text ≤ max_front_matter_size
      → unmarshal text ≡ some fm
      → parse_rest unmarshal (text ++ (delimiter ++ 10 ∷ body)) ≡ check_fields unmarshal fm body
  unfolding parse_rest
  parse_rest-delimited text body fm open_ended fits reads =
      let small : ltb max_front_matter_size (byte_len text) ≡ false =
        ltb_of_le max_front_matter_size (byte_len text) fits in
      rw
        (
          find_closing_delimiter-append text body open_ended,
          parse_rest,
          take-append text (delimiter ++ 10 ∷ body),
          small,
          reads,
          drop-append 4 text (delimiter ++ 10 ∷ body),
        )
        refl

  -- A file that is written as the fence, a front matter, the fence and a body is read back: if no
  -- delimiter is closed within the front matter and its line feed, and the front matter is no longer
  -- than the limit and is read by YAML, then the outcome is that of the checks on the fields, with
  -- that body.
  pub parse_front_matter-delimited :
      (text body : Text) (fm : FrontMatter)
      → find_closing_delimiter (text ++ 10 ∷ []) ≡ none
      → byte_len text ≤ max_front_matter_size
      → unmarshal text ≡ some fm
      → parse_front_matter unmarshal (codes "---" ++ 10 ∷ (text ++ (delimiter ++ 10 ∷ body)))
        ≡ check_fields unmarshal fm body
  unfolding parse_front_matter cut_prefix has_prefix
  parse_front_matter-delimited text body fm open_ended fits reads =
      parse_rest-delimited text body fm open_ended fits reads

  check_fields-IsSafe :
      (fm fm' : FrontMatter) (body body' : Text)
      → check_fields unmarshal fm body ≡ parsed (some fm') body'
      → IsSafe fm'
  unfolding check_fields
  check_fields-IsSafe fm fm' body body' e =
      let (image, e1) =
        guard-parsed (not (is_empty fm.image) && not (is_safe_url fm.image)) _ _ _ _ e in
      let (template, e2) =
        guard-parsed (not (is_empty fm.template) && not (is_plain fm.template)) _ _ _ _ e1 in
      let (slug, e3) = guard-parsed (not (is_empty fm.slug) && not (is_plain fm.slug)) _ _ _ _ e2 in
      subst IsSafe (parsed-injective fm fm' body body' e3) (record {
        image =
            safe_unless_empty fm.image (one_of (is_empty fm.image) (is_safe_url fm.image) image);
        template =
            IsPlain-unless_empty fm.template
              (one_of (is_empty fm.template) (is_plain fm.template) template);
        slug = IsPlain-unless_empty fm.slug (one_of (is_empty fm.slug) (is_plain fm.slug) slug);
      })

  parse_rest-IsSafe :
      (rest : Text) (fm : FrontMatter) (body : Text)
      → parse_rest unmarshal rest ≡ parsed (some fm) body
      → IsSafe fm
  unfolding parse_rest
  parse_rest-IsSafe rest fm body e = elim (Option-cases (find_closing_delimiter rest)) [
    | inl none_found ↦ absurd (cc (rw (none_found, parse_rest) at e))
    | inr (end, at_end) ↦
        let (small, e1) =
          guard-parsed (ltb max_front_matter_size (byte_len (take end rest))) _ _ _ _
            (rw (at_end, parse_rest) at e) in
        elim (Option-cases (unmarshal (take end rest))) [
          | inl bad ↦ absurd (cc (rw bad at e1))
          | inr (read, reads) ↦
              check_fields-IsSafe read fm (skip_newline (drop (end + 4) rest)) body (rw reads at e1)
        ]
  ]

  -- A front matter that is returned was fenced and is safe. Its slug and its template have no part that is
  -- a slash, a backslash, a double dot or a NUL. Its image, without the spaces around it, is empty, or a
  -- fragment, or a path from one slash, or has no colon and does not begin with two slashes, or the part before
  -- its first colon is http, https or mailto in any case of its letters.
  pub parse_front_matter-IsSafe :
      (data_read body : Text) (fm : FrontMatter)
      → parse_front_matter unmarshal data_read ≡ parsed (some fm) body
      → (opens data_read ≡ true) × IsSafe fm
  unfolding parse_front_matter
  parse_front_matter-IsSafe data_read body fm e = elim (Bool-cases (opens data_read)) [
    | inr plain ↦
        let whole : parsed none data_read ≡ parsed (some fm) body =
          rw (plain, parse_front_matter) at e in
        absurd (cc whole)
    | inl fenced ↦ (
      fenced,
      parse_rest-IsSafe (skip_newline (drop 3 data_read)) fm body
          (rw (fenced, parse_front_matter) at e),
    )
  ]
