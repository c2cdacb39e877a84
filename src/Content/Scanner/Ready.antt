-- ===== src/Content/Scanner/Ready.antt =====
-- internal/content/scanner.go: what holds of each post that the scanner takes.
use blogflow.Base.{
  ◌≡◌, ◌⊎◌, ◌≢◌, inl, inr, refl, Bool, true, false, ◌&&◌, not, Option, none, some, arith,
  Bool-cases, Option-cases, subst, nat_eq, ◌==◌,
}
use blogflow.Base.Text.{Text, is_empty}
use blogflow.Content.FrontMatter.{
  FrontMatterError, FrontMatter, Parsed, parsed, refused, parse_front_matter, is_plain,
}
use blogflow.Content.FrontMatter.Plain.{IsPlain, is_plain-IsPlain}
use blogflow.Content.FrontMatter.Parse.{IsSafe, parse_front_matter-IsSafe}
use blogflow.Content.Scanner.{
  Post, Scanner, ready, prepare, prepare_parsed, slug_of, slug_from_path, is_bad_slug, make_post,
}

-- A post or page that may be served.
pub record IsReady (is_page : Bool) (p : Post) : Type 0 where
  pub published : p.front.draft ≡ false
  pub dated : (is_page ≡ true) ⊎ (p.front.date ≢ 0)
  pub plain : IsPlain p.slug

bad_slug-is_plain : (s : Text) → is_bad_slug s ≡ false → is_plain s ≡ true
unfolding is_bad_slug is_plain
bad_slug-is_plain s h = ground arith

slug_of-IsPlain :
    (sc : Scanner) (fm : FrontMatter) (path s : Text)
    → IsSafe fm
    → slug_of sc fm path ≡ some s
    → IsPlain s
unfolding slug_of
slug_of-IsPlain sc fm path s safe h = elim (Bool-cases (is_empty fm.slug)) [
  | inr given ↦ subst IsPlain (some_same fm.slug s (rw (given, slug_of) at h)) safe.slug
  | inl none_given ↦ elim (Bool-cases (is_bad_slug (slug_from_path path))) [
    | inl bad ↦ absurd (cc (rw (none_given, bad, slug_of) at h))
    | inr good ↦
        subst IsPlain (some_same (slug_from_path path) s (rw (none_given, good, slug_of) at h))
          (is_plain-IsPlain (slug_from_path path) (bad_slug-is_plain (slug_from_path path) good))
  ]
]
  where
    some_same : (x y : Text) → some x ≡ some y → x ≡ y
    some_same x y e = cc

pub Parsed-cases :
    (r : Parsed)
    → ((fm : FrontMatter) × (body : Text) × (r ≡ parsed (some fm) body))
      ⊎ ((body : Text) × (r ≡ parsed none body))
      ⊎ ((e : FrontMatterError) × (r ≡ refused e))
Parsed-cases (refused e) = inr (inr (e, refl))
Parsed-cases (parsed none b) = inr (inl (b, refl))
Parsed-cases (parsed (some fm) b) = inl (fm, b, refl)

prepare_parsed-IsReady :
    (sc : Scanner) (is_page : Bool) (path : Text) (fm : FrontMatter) (body : Text) (p : Post)
    → IsSafe fm
    → prepare_parsed sc is_page path fm body ≡ ready p
    → IsReady is_page p
unfolding prepare_parsed make_post
prepare_parsed-IsReady sc is_page path fm body p safe h = elim (Bool-cases fm.draft) [
  | inl draft ↦ absurd (cc (rw (draft, prepare_parsed) at h))
  | inr final ↦ elim (Bool-cases (not is_page && fm.date == 0)) [
    | inl undated ↦ absurd (cc (rw (final, undated, prepare_parsed) at h))
    | inr dated ↦ elim (Option-cases (sc.render body)) [
      | inl e ↦ absurd (cc (rw (final, dated, e, prepare_parsed) at h))
      | inr (rendered, e) ↦ elim (Option-cases (slug_of sc fm path)) [
        | inl d ↦ absurd (cc (rw (final, dated, e, d, prepare_parsed) at h))
        | inr (slug, d) ↦
            let made : make_post sc fm slug rendered body path ≡ p =
              cc (rw (final, dated, e, d, prepare_parsed) at h) in
            subst (IsReady is_page) made record {
              published = final;
              dated = ground arith;
              plain = slug_of-IsPlain sc fm path slug safe d;
            }
      ]
    ]
  ]
]

pub prepare-IsReady :
    (sc : Scanner) (is_page : Bool) (path : Text) (source : Option Text) (p : Post)
    → prepare sc is_page path source ≡ ready p
    → IsReady is_page p
unfolding prepare
prepare-IsReady sc is_page path none p h = absurd (cc)
prepare-IsReady sc is_page path (some s) p h =
    elim (Parsed-cases (parse_front_matter sc.unmarshal s)) [
      | inl (fm, body, e) ↦
          prepare_parsed-IsReady sc is_page path fm body p
            (parse_front_matter-IsSafe sc.unmarshal s body fm e).1 (rw (e, prepare) at h)
      | inr (inl (b, e)) ↦ absurd (cc (rw (e, prepare) at h))
      | inr (inr (f, e)) ↦ absurd (cc (rw (e, prepare) at h))
    ]
