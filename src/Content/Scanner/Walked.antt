-- ===== src/Content/Scanner/Walked.antt =====
-- internal/content/scanner.go: what holds of the index after any part of a walk.
use blogflow.Base.{
  ◌≡◌, ◌⊎◌, inl, inr, refl, Bool, true, false, ◌&&◌, not, List, [], ◌∷◌, ◌++◌, length,
  length-append, none, some, arith, Bool-cases, Option-cases, All, All-append, All-map, list_eq,
  nat_eq, list_beq_iff,
}
use blogflow.Base.Text.{Text, has_suffix, codes}
use blogflow.Base.Assoc.{lookup, insert, lookup-insert, length-insert_new, All-insert}
use blogflow.Content.Scanner.{Post, Scanner, Prepared, ignored, rejected, ready, prepare}
use blogflow.Content.Scanner.Scan.{
  ScanError, collect, Index, DirWalk, Visit, failed, directory, file, slugs, add, place, visit,
  scan_dir,
}
use blogflow.Content.Scanner.Ready.{IsReady, prepare-IsReady}

abbrev pub In : Post → List Post → Type 0
In a [] = ⊥
In a (x ∷ xs) = (a ≡ x) ⊎ In a xs

pub In-append_left : (a : Post) (xs ys : List Post) → In a xs → In a (xs ++ ys)
In-append_left a [] ys h = elim h [ ]
In-append_left a (x ∷ xs) ys (inl e) = inl e
In-append_left a (x ∷ xs) ys (inr h) = inr (In-append_left a xs ys h)

In-append_last : (a : Post) (xs : List Post) → In a (xs ++ a ∷ [])
In-append_last a [] = inl refl
In-append_last a (x ∷ xs) = inr (In-append_last a xs)

-- A map holds each post of a list by its slug, and nothing else.
pub record Filed (ps : List Post) (m : List (Text × Post)) : Type 0 where
  pub found : All (λ p. lookup p.slug m ≡ some p) ps
  pub listed : All (λ (e : Text × Post). (e.1.slug ≡ e.0) × In e.1 ps) m
  pub counted : length ps ≡ length m

Filed-insert :
    (p : Post) (ps : List Post) (m : List (Text × Post))
    → lookup p.slug m ≡ none
    → Filed ps m
    → Filed (ps ++ p ∷ []) (insert p.slug p m)
Filed-insert p ps m fresh f = record {
  found = All-append _ ps (p ∷ []) (All-map kept ps f.found) (new, tt);
  listed = All-insert _ p.slug p m (All-map longer m f.listed) (refl, In-append_last p ps);
  counted = omega (arith, f.counted, length-append ps (p ∷ []), length-insert_new p.slug p m fresh);
}
  where
    kept : (q : Post) → lookup q.slug m ≡ some q → lookup q.slug (insert p.slug p m) ≡ some q
    kept q h = ground (arith, lookup-insert p.slug q.slug p m, list_beq_iff p.slug q.slug)

    new : lookup p.slug (insert p.slug p m) ≡ some p
    new = ground (arith, lookup-insert p.slug p.slug p m, list_beq_iff p.slug p.slug)

    longer :
        (e : Text × Post) → (e.1.slug ≡ e.0) × In e.1 ps → (e.1.slug ≡ e.0) × In e.1 (ps ++ p ∷ [])
    longer e (same, h) = (same, In-append_left e.1 ps (p ∷ []) h)

-- The posts and the pages are ready, and filed by slug.
pub record Walked (idx : Index) : Type 0 where
  pub posts_ready : All (IsReady false) idx.posts
  pub pages_ready : All (IsReady true) idx.pages
  pub posts_filed : Filed idx.posts idx.by_slug
  pub pages_filed : Filed idx.pages idx.page_by_slug

add-Walked :
    (is_page : Bool) (p : Post) (idx : Index)
    → IsReady is_page p
    → lookup p.slug (slugs is_page idx) ≡ none
    → Walked idx
    → Walked (add is_page p idx)
add-Walked true p idx r fresh w = record {
  posts_ready = w.posts_ready;
  pages_ready = All-append _ idx.pages (p ∷ []) w.pages_ready (r, tt);
  posts_filed = w.posts_filed;
  pages_filed = Filed-insert p idx.pages idx.page_by_slug fresh w.pages_filed;
}
add-Walked false p idx r fresh w = record {
  posts_ready = All-append _ idx.posts (p ∷ []) w.posts_ready (r, tt);
  pages_ready = w.pages_ready;
  posts_filed = Filed-insert p idx.posts idx.by_slug fresh w.posts_filed;
  pages_filed = w.pages_filed;
}

pub collect-Walked : (e : ScanError) (idx : Index) → Walked idx → Walked (collect e idx)
collect-Walked e idx w = record {
  posts_ready = w.posts_ready;
  pages_ready = w.pages_ready;
  posts_filed = w.posts_filed;
  pages_filed = w.pages_filed;
}

pub Prepared-cases : (r : Prepared) → (r ≡ ignored) ⊎ (r ≡ rejected) ⊎ ((p : Post) × (r ≡ ready p))
Prepared-cases ignored = inl refl
Prepared-cases rejected = inr (inl refl)
Prepared-cases (ready p) = inr (inr (p, refl))

module _ (sc : Scanner) (is_page best_effort : Bool) where
  place-Walked :
      (p : Post) (w : DirWalk)
      → IsReady is_page p
      → Walked w.index
      → Walked (place sc is_page best_effort p w).index
  unfolding place
  place-Walked p w r h = elim (Option-cases (lookup p.slug (slugs is_page w.index))) [
    | inl fresh ↦ rw (fresh, place) (add-Walked is_page p w.index r fresh h)
    | inr (q, taken) ↦ elim (Bool-cases best_effort) [
      | inl e ↦ rw (taken, e, place) (collect-Walked _ w.index h)
      | inr e ↦ rw (taken, e, place) h
    ]
  ]

  visit-Walked :
      (v : Visit) (w : DirWalk) → Walked w.index → Walked (visit sc is_page best_effort v w).index
  unfolding visit
  visit-Walked (failed path missing) w h = elim (Bool-cases (best_effort && not missing)) [
    | inl e ↦ rw e (collect-Walked _ w.index h)
    | inr e ↦ rw e h
  ]
  visit-Walked (directory path) w h = h
  visit-Walked (file path source) w h = elim (Bool-cases (has_suffix path (codes ".md"))) [
    | inr e ↦ rw (e, visit) h
    | inl e ↦ elim (Prepared-cases (prepare sc is_page path source)) [
      | inl d ↦ rw (e, d, visit) h
      | inr (inl d) ↦ rw (e, d, visit) h
      | inr (inr (p, d)) ↦
          rw (e, d, visit) (place-Walked p w (prepare-IsReady sc is_page path source p d) h)
    ]
  ]

  pub scan_dir-Walked :
      (vs : List Visit) (w : DirWalk)
      → Walked w.index
      → Walked (scan_dir sc is_page best_effort vs w).index
  unfolding scan_dir
  scan_dir-Walked [] w h = h
  scan_dir-Walked (v ∷ vs) w h = elim (Option-cases w.stopped) [
    | inl e ↦
        rw (e, scan_dir)
          (scan_dir-Walked vs (visit sc is_page best_effort v w) (visit-Walked v w h))
    | inr (e, s) ↦ rw (s, scan_dir) h
  ]
