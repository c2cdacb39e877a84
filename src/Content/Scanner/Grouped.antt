-- ===== src/Content/Scanner/Grouped.antt =====
-- internal/content/scanner.go: the lists of the posts by year and by tag.
use blogflow.Base.{
  ℕ, ◌≡◌, ◌∙◌, inl, inr, refl, sym, ap, subst, false, ◌&&◌, not, List, [], ◌∷◌, ◌++◌, append-nil,
  append_assoc, none, some, arith, Bool-cases, Option-cases, All, All-append, list_beq_iff, ◌↔◌,
  ◌⊎◌, Eq, filter, list_eq, nat_eq, ◌==◌, if◌then◌else◌,
}
use blogflow.Base.Text.{Text, is_empty}
use blogflow.Base.Assoc.{lookup, lookup-insert}
use blogflow.Base.Sort.{IsOrdered}
use blogflow.Content.Scanner.{Post}
use blogflow.Content.Scanner.Build.{is_newer, append_to, tag_key, index_tags, by_tag_of, by_year_of}
use blogflow.Content.Scanner.Walked.{In, In-append_left}
use blogflow.Content.Scanner.Gains.{In-append, In-append_right}

-- The list that a map has for a key.
abbrev pub at {ℓ} : {K : Type ℓ} ⦃e : Eq K⦄ → K → List (K × List Post) → List Post
at k m = elim (lookup k m) [ none ↦ [] | some ps ↦ ps ]

at-append_to {ℓ} :
    {K : Type ℓ} ⦃e : Eq K⦄ (k j : K) (p : Post) (m : List (K × List Post))
    → at j (append_to k p m) ≡ (if k == j then at j m ++ p ∷ [] else at j m)
unfolding append_to
at-append_to ⦃e⦄ k j p m = elim (Option-cases (lookup k m)) [
  | inl a ↦ rw (a, append_to) (ground (arith, lookup-insert k j (p ∷ []) m, e.beq_iff k j))
  | inr (ps, a) ↦
      rw (a, append_to) (ground (arith, lookup-insert k j (ps ++ p ∷ []) m, e.beq_iff k j))
]

pub by_year_of-filter :
    (year : ℕ → ℕ) (y : ℕ) (ps : List Post) (m : List (ℕ × List Post))
    → at y (by_year_of year ps m) ≡ at y m ++ filter (λ p. year p.front.date == y) ps
unfolding by_year_of
by_year_of-filter year y [] m = sym (append-nil (at y m))
by_year_of-filter year y (p ∷ ps) m = elim (Bool-cases (year p.front.date == y)) [
  | inl e ↦
      by_year_of-filter year y ps (append_to (year p.front.date) p m)
      ∙ ap (λ l. l ++ filter (λ q. year q.front.date == y) ps)
          (at-append_to (year p.front.date) y p m)
      ∙ rw e (append_assoc (at y m) (p ∷ []) _)
  | inr e ↦
      by_year_of-filter year y ps (append_to (year p.front.date) p m)
      ∙ ap (λ l. l ++ filter (λ q. year q.front.date == y) ps)
          (at-append_to (year p.front.date) y p m)
      ∙ rw e refl
]

module _ (to_lower : Text → Text) where
  -- A post, once for each of its tags that comes to this one.
  abbrev hits : Text → Post → List Text → List Post
  hits t p [] = []
  hits t p (tag ∷ tags) =
      if not (is_empty (tag_key to_lower tag)) && tag_key to_lower tag == t
      then p ∷ hits t p tags
      else hits t p tags

  -- The posts with a tag, in order.
  abbrev tagged : Text → List Post → List Post
  tagged t [] = []
  tagged t (p ∷ ps) = hits t p p.front.tags ++ tagged t ps

  index_tags-hits :
      (t : Text) (p : Post) (tags : List Text) (m : List (Text × List Post))
      → at t (index_tags to_lower p tags m) ≡ at t m ++ hits t p tags
  unfolding index_tags
  index_tags-hits t p [] m = sym (append-nil (at t m))
  index_tags-hits t p (tag ∷ tags) m = elim (Bool-cases (is_empty (tag_key to_lower tag))) [
    | inl e ↦ rw e (index_tags-hits t p tags m)
    | inr e ↦
        let k = tag_key to_lower tag in
        rw e (
          index_tags-hits t p tags (append_to k p m)
          ∙ ap (λ l. l ++ hits t p tags) (at-append_to k t p m)
          ∙ appended k)
  ]
    where
      appended :
          (k : Text)
          → (if k == t then at t m ++ p ∷ [] else at t m) ++ hits t p tags
            ≡ at t m ++ (if k == t then p ∷ hits t p tags else hits t p tags)
      appended k = elim (Bool-cases (k == t)) [
        | inl d ↦ rw d (append_assoc (at t m) (p ∷ []) (hits t p tags))
        | inr d ↦ rw d refl
      ]

  by_tag_of-tagged :
      (t : Text) (ps : List Post) (m : List (Text × List Post))
      → at t (by_tag_of to_lower ps m) ≡ at t m ++ tagged t ps
  unfolding by_tag_of
  by_tag_of-tagged t [] m = sym (append-nil (at t m))
  by_tag_of-tagged t (p ∷ ps) m =
      by_tag_of-tagged t ps (index_tags to_lower p p.front.tags m)
      ∙ ap (λ l. l ++ tagged t ps) (index_tags-hits t p p.front.tags m)
      ∙ append_assoc (at t m) (hits t p p.front.tags) (tagged t ps)

-- One of these tags comes to the tag `t` of the index, which is not empty.
abbrev pub IsTagged : (Text → Text) → Text → List Text → Type 0
IsTagged to_lower t [] = ⊥
IsTagged to_lower t (tag ∷ tags) =
    ((is_empty (tag_key to_lower tag) ≡ false) × (tag_key to_lower tag ≡ t))
    ⊎ IsTagged to_lower t tags

module _ (to_lower : Text → Text) (t : Text) where
  hits-IsTagged :
      (q p : Post) (tags : List Text)
      → In q (hits to_lower t p tags)
      → (q ≡ p) × IsTagged to_lower t tags
  hits-IsTagged q p [] h = elim h [ ]
  hits-IsTagged q p (tag ∷ tags) h = elim (Bool-cases (is_empty (tag_key to_lower tag))) [
    | inl e ↦ let (same, more) = hits-IsTagged q p tags (rw e at h) in (same, inr more)
    | inr e ↦ elim (Bool-cases (tag_key to_lower tag == t)) [
      | inr d ↦ let (same, more) = hits-IsTagged q p tags (rw (e, d) at h) in (same, inr more)
      | inl d ↦
          let here = (list_beq_iff (tag_key to_lower tag) t).0 d in
          elim (rw (e, d) at h) [
            | inl same ↦ (same, inl (e, here))
            | inr later ↦ ((hits-IsTagged q p tags later).0, inl (e, here))
          ]
    ]
  ]

  IsTagged-hits :
      (p : Post) (tags : List Text) → IsTagged to_lower t tags → In p (hits to_lower t p tags)
  IsTagged-hits p [] h = elim h [ ]
  IsTagged-hits p (tag ∷ tags) (inl (full, here)) =
      let same = (list_beq_iff (tag_key to_lower tag) t).1 here in rw (full, same) (inl refl)
  IsTagged-hits p (tag ∷ tags) (inr more) =
      elim (Bool-cases (not (is_empty (tag_key to_lower tag)) && tag_key to_lower tag == t)) [
        | inl e ↦ rw e (inr (IsTagged-hits p tags more))
        | inr e ↦ rw e (IsTagged-hits p tags more)
      ]

  tagged-In :
      (q : Post) (ps : List Post)
      → In q (tagged to_lower t ps)
      → In q ps × IsTagged to_lower t q.front.tags
  tagged-In q [] h = elim h [ ]
  tagged-In q (p ∷ ps) h =
      elim (In-append q (hits to_lower t p p.front.tags) (tagged to_lower t ps) h) [
        | inl now ↦
            let (same, has) = hits-IsTagged q p p.front.tags now in
            (inl same, subst (λ x. IsTagged to_lower t x.front.tags) (sym same) has)
        | inr later ↦ let (there, has) = tagged-In q ps later in (inr there, has)
      ]

  In-tagged :
      (q : Post) (ps : List Post)
      → In q ps
      → IsTagged to_lower t q.front.tags
      → In q (tagged to_lower t ps)
  In-tagged q [] h has = elim h [ ]
  In-tagged q (p ∷ ps) (inl same) has =
      In-append_left q (hits to_lower t p p.front.tags) (tagged to_lower t ps) (
        subst (λ x. In x (hits to_lower t p p.front.tags)) (sym same)
          (IsTagged-hits p p.front.tags (subst (λ x. IsTagged to_lower t x.front.tags) same has)))
  In-tagged q (p ∷ ps) (inr later) has =
      In-append_right q (hits to_lower t p p.front.tags) (tagged to_lower t ps)
        (In-tagged q ps later has)

  hits-All :
      (P : Post → Type 0) (p : Post) (tags : List Text) → P p → All P (hits to_lower t p tags)
  hits-All P p [] h = tt
  hits-All P p (tag ∷ tags) h =
      elim (Bool-cases (not (is_empty (tag_key to_lower tag)) && tag_key to_lower tag == t)) [
        | inl e ↦ rw e (h, hits-All P p tags h)
        | inr e ↦ rw e (hits-All P p tags h)
      ]

  tagged-All : (P : Post → Type 0) (ps : List Post) → All P ps → All P (tagged to_lower t ps)
  tagged-All P [] h = tt
  tagged-All P (p ∷ ps) (h, hs) =
      All-append P (hits to_lower t p p.front.tags) (tagged to_lower t ps)
        (hits-All P p p.front.tags h) (tagged-All P ps hs)

  hits-IsOrdered :
      (p : Post) (tags : List Text) (rest : List Post)
      → All (λ q. is_newer q p ≡ false) rest
      → IsOrdered is_newer rest
      → IsOrdered is_newer (hits to_lower t p tags ++ rest)
  hits-IsOrdered p [] rest above h = h
  hits-IsOrdered p (tag ∷ tags) rest above h =
      let older = λ (q : Post). is_newer q p ≡ false in
      let more = hits-IsOrdered p tags rest above h in
      elim (Bool-cases (not (is_empty (tag_key to_lower tag)) && tag_key to_lower tag == t)) [
        | inr e ↦ rw e more
        | inl e ↦ rw e (
          All-append older (hits to_lower t p tags) rest (hits-All older p tags (ground arith))
              above,
          more,
        )
      ]

  tagged-IsOrdered :
      (ps : List Post) → IsOrdered is_newer ps → IsOrdered is_newer (tagged to_lower t ps)
  tagged-IsOrdered [] h = tt
  tagged-IsOrdered (p ∷ ps) (above, h) =
      hits-IsOrdered p p.front.tags (tagged to_lower t ps)
        (tagged-All (λ q. is_newer q p ≡ false) ps above) (tagged-IsOrdered ps h)

  -- The list of the index for a tag: the posts that have it, newest first.
  pub by_tag_of-IsTagged :
      (ps : List Post)
      → IsOrdered is_newer ps
      → ((q : Post)
          → In q (at t (by_tag_of to_lower ps [])) ↔ (In q ps × IsTagged to_lower t q.front.tags))
        × IsOrdered is_newer (at t (by_tag_of to_lower ps []))
  unfolding lookup
  by_tag_of-IsTagged ps ordered =
      let same : at t (by_tag_of to_lower ps []) ≡ tagged to_lower t ps =
        by_tag_of-tagged to_lower t ps [] in
      (
        λ q. (
          λ h. tagged-In q ps (subst (In q) same h),
          λ (there, has). subst (In q) (sym same) (In-tagged q ps there has),
        ),
        subst (IsOrdered is_newer) (sym same) (tagged-IsOrdered ps ordered),
      )
