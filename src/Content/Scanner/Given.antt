-- ===== src/Content/Scanner/Given.antt =====
-- internal/content/scanner.go: which posts the files that a walk visits give.
use blogflow.Base.{
  ◌≡◌, ◌⊎◌, ◌∙◌, inl, inr, refl, sym, ap, Bool, true, false, ◌&&◌, not, List, [], ◌∷◌, Option, none,
  some, Bool-cases, Option-cases, list_eq, nat_eq, ◌==◌, if◌then◌else◌, arith,
}
use blogflow.Base.Text.{Text, has_suffix, codes}
use blogflow.Content.FrontMatter.{FrontMatter, parsed, parse_front_matter}
use blogflow.Content.Scanner.{Post, Scanner, ready, slug_of, make_post, prepare, prepare_parsed}
use blogflow.Content.Scanner.Scan.{Visit, failed, directory, file}
use blogflow.Content.Scanner.Walked.{In, Prepared-cases}
use blogflow.Content.Scanner.Gains.{post_of, visited, In-append, In-append_right}
use blogflow.Content.Scanner.Ready.{Parsed-cases}

-- The source of a file gives this post: it is read and parses with a front matter that is no draft and, for
-- a post, has a date; its body renders; and it has a slug.
pub record IsSource (sc : Scanner) (is_page : Bool) (path : Text) (source : Option Text) (p : Post)
    : Type 0 where
  pub text : Text
  pub front : FrontMatter
  pub body : Text
  pub rendered : Text
  pub slug : Text
  pub read : source ≡ some text
  pub parses : parse_front_matter sc.unmarshal text ≡ parsed (some front) body
  pub published : front.draft ≡ false
  pub dated : (is_page ≡ true) ⊎ ((front.date == 0) ≡ false)
  pub renders : sc.render body ≡ some rendered
  pub named : slug_of sc front path ≡ some slug
  pub post : make_post sc front slug rendered body path ≡ p

module _ (sc : Scanner) (is_page : Bool) where
  -- A visited file gives this post. A file that does not exist ends the walk.
  abbrev pub Given : List Visit → Post → Type 0
  Given [] p = ⊥
  Given (failed path true ∷ vs) p = ⊥
  Given (failed path false ∷ vs) p = Given vs p
  Given (directory path ∷ vs) p = Given vs p
  Given (file path source ∷ vs) p =
      ((has_suffix path (codes ".md") ≡ true) × IsSource sc is_page path source p) ⊎ Given vs p

  IsSource-prepare :
      (path : Text) (source : Option Text) (p : Post)
      → IsSource sc is_page path source p
      → prepare sc is_page path source ≡ ready p
  unfolding prepare prepare_parsed
  IsSource-prepare path source p h =
      let undated : (not is_page && h.front.date == 0) ≡ false = elim h.dated [
        | inl e ↦ rw e refl
        | inr e ↦ ground (arith, e)
      ] in
      ap (prepare sc is_page path) h.read
      ∙ rw (h.parses, prepare)
          (rw (h.published, undated, h.renders, h.named, prepare_parsed) (ap ready h.post))

  prepare_parsed-IsSource :
      (path text body : Text) (fm : FrontMatter) (p : Post)
      → parse_front_matter sc.unmarshal text ≡ parsed (some fm) body
      → prepare_parsed sc is_page path fm body ≡ ready p
      → IsSource sc is_page path (some text) p
  unfolding prepare_parsed
  prepare_parsed-IsSource path text body fm p e h = elim (Bool-cases fm.draft) [
    | inl draft ↦ absurd (cc (rw (draft, prepare_parsed) at h))
    | inr final ↦ elim (Bool-cases (not is_page && fm.date == 0)) [
      | inl undated ↦ absurd (cc (rw (final, undated, prepare_parsed) at h))
      | inr dated ↦ elim (Option-cases (sc.render body)) [
        | inl d ↦ absurd (cc (rw (final, dated, d, prepare_parsed) at h))
        | inr (rendered, d) ↦ elim (Option-cases (slug_of sc fm path)) [
          | inl n ↦ absurd (cc (rw (final, dated, d, n, prepare_parsed) at h))
          | inr (slug, n) ↦ record {
            text = text;
            front = fm;
            body = body;
            rendered = rendered;
            slug = slug;
            read = refl;
            parses = e;
            published = final;
            dated = elim (Bool-cases is_page) [
              | inl b ↦ inl b
              | inr b ↦ inr (ground (arith, b, dated))
            ];
            renders = d;
            named = n;
            post = cc (rw (final, dated, d, n, prepare_parsed) at h);
          }
        ]
      ]
    ]
  ]

  prepare-IsSource :
      (path : Text) (source : Option Text) (p : Post)
      → prepare sc is_page path source ≡ ready p
      → IsSource sc is_page path source p
  unfolding prepare
  prepare-IsSource path none p h = absurd (cc)
  prepare-IsSource path (some text) p h =
      elim (Parsed-cases (parse_front_matter sc.unmarshal text)) [
        | inl (fm, body, e) ↦ prepare_parsed-IsSource path text body fm p e (rw (e, prepare) at h)
        | inr (inl (b, e)) ↦ absurd (cc (rw (e, prepare) at h))
        | inr (inr (f, e)) ↦ absurd (cc (rw (e, prepare) at h))
      ]

  post_of-IsSource :
      (path : Text) (source : Option Text) (p : Post)
      → In p (post_of sc is_page (prepare sc is_page path source))
      → IsSource sc is_page path source p
  post_of-IsSource path source p h = elim (Prepared-cases (prepare sc is_page path source)) [
    | inl d ↦ elim (rw d at h) [ ]
    | inr (inl d) ↦ elim (rw d at h) [ ]
    | inr (inr (q, d)) ↦ elim (rw d at h) [
      | inl same ↦ prepare-IsSource path source p (d ∙ ap ready (sym same))
      | inr none_left ↦ elim none_left [ ]
    ]
  ]

  pub Given-visited : (vs : List Visit) (p : Post) → Given vs p → In p (visited sc is_page vs)
  Given-visited [] p h = h
  Given-visited (failed path true ∷ vs) p h = h
  Given-visited (failed path false ∷ vs) p h = Given-visited vs p h
  Given-visited (directory path ∷ vs) p h = Given-visited vs p h
  Given-visited (file path source ∷ vs) p (inl (md, h)) =
      rw (md, IsSource-prepare path source p h) (inl refl)
  Given-visited (file path source ∷ vs) p (inr h) =
      In-append_right p
        (if has_suffix path (codes ".md")
          then post_of sc is_page (prepare sc is_page path source)
          else [])
        (visited sc is_page vs) (Given-visited vs p h)

  pub visited-Given : (vs : List Visit) (p : Post) → In p (visited sc is_page vs) → Given vs p
  visited-Given [] p h = h
  visited-Given (failed path true ∷ vs) p h = h
  visited-Given (failed path false ∷ vs) p h = visited-Given vs p h
  visited-Given (directory path ∷ vs) p h = visited-Given vs p h
  visited-Given (file path source ∷ vs) p h = elim (Bool-cases (has_suffix path (codes ".md"))) [
    | inr other ↦ inr (visited-Given vs p (rw other at h))
    | inl md ↦
        elim (In-append p (post_of sc is_page (prepare sc is_page path source))
          (visited sc is_page vs) (rw md at h)) [
            | inl now ↦ inl (md, post_of-IsSource path source p now)
            | inr later ↦ inr (visited-Given vs p later)
          ]
  ]
