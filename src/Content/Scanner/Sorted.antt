-- ===== src/Content/Scanner/Sorted.antt =====
-- internal/content/scanner.go: the two sorts of `Scan`.
use blogflow.Base.{
  ◌≤◌, All, ◌≡◌, ◌⊎◌, ◌∙◌, inl, inr, refl, ◌+◌, Bool, true, false, List, [], ◌∷◌, length, arith,
  Bool-cases, All-map, list_eq, nat_eq,
}
use blogflow.Base.Text.{Text, text_lt_asymmetric, text_lt_transitive}
use blogflow.Base.Sort.{
  insert_stable, sort_stable, sort_stable-All, IsOrdered, sort_stable-IsOrdered,
}
use blogflow.Content.Scanner.{Post}
use blogflow.Content.Scanner.Build.{is_newer, page_before}
use blogflow.Content.Scanner.Walked.{In, Filed}

module _ (less : Post → Post → Bool) where
  insert_stable-In :
      (x a : Post) (xs : List Post) → (a ≡ x) ⊎ In a xs → In a (insert_stable less x xs)
  unfolding insert_stable
  insert_stable-In x a [] h = h
  insert_stable-In x a (y ∷ ys) h = elim (Bool-cases (less y x)) [
    | inr e ↦ rw e h
    | inl e ↦ elim h [
      | inl first ↦ rw e (inr (insert_stable-In x a ys (inl first)))
      | inr (inl here) ↦ rw e (inl here)
      | inr (inr later) ↦ rw e (inr (insert_stable-In x a ys (inr later)))
    ]
  ]

  sort_stable-In : (a : Post) (xs : List Post) → In a xs → In a (sort_stable less xs)
  unfolding sort_stable
  sort_stable-In a [] h = elim h [ ]
  sort_stable-In a (x ∷ xs) (inl e) = insert_stable-In x a (sort_stable less xs) (inl e)
  sort_stable-In a (x ∷ xs) (inr h) =
      insert_stable-In x a (sort_stable less xs) (inr (sort_stable-In a xs h))

  length-insert_stable :
      (x : Post) (xs : List Post) → length (insert_stable less x xs) ≡ length xs + 1
  unfolding insert_stable
  length-insert_stable x [] = omega arith
  length-insert_stable x (y ∷ ys) = ground (arith, length-insert_stable x ys)

  length-sort_stable : (xs : List Post) → length (sort_stable less xs) ≡ length xs
  unfolding sort_stable
  length-sort_stable [] = refl
  length-sort_stable (x ∷ xs) =
      omega (arith, length-insert_stable x (sort_stable less xs), length-sort_stable xs)

  pub sort_stable-Filed :
      (ps : List Post) (m : List (Text × Post)) → Filed ps m → Filed (sort_stable less ps) m
  sort_stable-Filed ps m f = record {
    found = sort_stable-All less _ ps f.found;
    listed =
        All-map
          (λ (e : Text × Post) (h : (e.1.slug ≡ e.0) × In e.1 ps). (h.0, sort_stable-In e.1 ps h.1))
          m f.listed;
    counted = length-sort_stable ps ∙ f.counted;
  }

-- No post is newer than one before it.
abbrev pub IsNewestFirst : List Post → Type 0
IsNewestFirst [] = Unit
IsNewestFirst (p ∷ ps) = All (λ q. q.front.date ≤ p.front.date) ps × IsNewestFirst ps

pub IsOrdered-IsNewestFirst : (ps : List Post) → IsOrdered is_newer ps → IsNewestFirst ps
IsOrdered-IsNewestFirst [] h = tt
IsOrdered-IsNewestFirst (p ∷ ps) (above, h) = (
  All-map (λ q (older : is_newer q p ≡ false). not_newer p q older) ps above,
  IsOrdered-IsNewestFirst ps h,
)
  where
    not_newer : (p q : Post) → is_newer q p ≡ false → q.front.date ≤ p.front.date
    not_newer p q h = ground arith

pub newest_first : (ps : List Post) → IsOrdered is_newer (sort_stable is_newer ps)
newest_first =
    sort_stable-IsOrdered is_newer (λ x y h. newer_asymmetric x y h)
      (λ x y z h k. newer_transitive x y z h k)
  where
    newer_asymmetric : (x y : Post) → is_newer x y ≡ true → is_newer y x ≡ false
    newer_asymmetric x y h = ground arith

    newer_transitive :
        (x y z : Post) → is_newer y x ≡ false → is_newer z y ≡ false → is_newer z x ≡ false
    newer_transitive x y z h k = ground arith

module _ (to_lower : Text → Text) where
  page_asymmetric :
      (x y : Post) → page_before to_lower x y ≡ true → page_before to_lower y x ≡ false
  unfolding page_before
  page_asymmetric x y h =
      ground (arith, text_lt_asymmetric (to_lower x.front.title) (to_lower y.front.title))

  page_transitive :
      (x y z : Post)
      → page_before to_lower y x ≡ false
      → page_before to_lower z y ≡ false
      → page_before to_lower z x ≡ false
  unfolding page_before
  page_transitive x y z h k = ground (
    arith,
    text_lt_transitive (to_lower x.front.title) (to_lower y.front.title) (to_lower z.front.title),
  )

  pub pages_in_order :
      (ps : List Post) → IsOrdered (page_before to_lower) (sort_stable (page_before to_lower) ps)
  pages_in_order = sort_stable-IsOrdered (page_before to_lower) page_asymmetric page_transitive
