-- ===== src/Content/Scanner/Whole.antt =====
-- internal/content/scanner.go: what `Scan` keeps of its two walks.
use blogflow.Base.{
  ℕ, ◌≡◌, ◌∙◌, inl, inr, refl, sym, subst, Bool, true, false, ◌&&◌, not, List, [], ◌∷◌, none,
  Bool-cases, Option-cases, All, list_eq, nat_eq,
}
use blogflow.Base.Text.{Text, has_suffix, codes}
use blogflow.Base.Assoc.{lookup}
use blogflow.Base.Sort.{sort_stable-All}
use blogflow.Content.Scanner.{Post, Scanner, prepare}
use blogflow.Content.Scanner.Scan.{
  ScanError, Index, collect, DirWalk, Visit, failed, directory, file, slugs, add, place, visit,
  scan_dir, scanning, slug_conflict,
}
use blogflow.Content.Scanner.Build.{
  done, end_walk, find_conflicts, walk_part, is_newer, page_before, finish,
}
use blogflow.Content.Scanner.Walked.{In, Prepared-cases}
use blogflow.Content.Scanner.Gains.{listed, visited, IsKept, slugs-collect, listed-collect}
use blogflow.Content.Scanner.Given.{Given, Given-visited, visited-Given}
use blogflow.Content.Scanner.Complete.{Breaks, scan_dir-Visits}

-- The posts, or the pages, are the same in two indexes.
abbrev pub Keeps : Bool → Index → Index → Type 0
Keeps side a b = (slugs side b ≡ slugs side a) × (listed side b ≡ listed side a)

Keeps-then : (side : Bool) (a b c : Index) → Keeps side a b → Keeps side b c → Keeps side a c
Keeps-then side a b c h k = (k.0 ∙ h.0, k.1 ∙ h.1)

Keeps-collect : (side : Bool) (e : ScanError) (a : Index) → Keeps side a (collect e a)
Keeps-collect side e a = (slugs-collect side e a, listed-collect side e a)

Keeps-add : (is_page : Bool) (p : Post) (a : Index) → Keeps (not is_page) a (add is_page p a)
Keeps-add true p a = (refl, refl)
Keeps-add false p a = (refl, refl)

module _ (sc : Scanner) (is_page best_effort : Bool) where
  place-Keeps :
      (p : Post) (w : DirWalk)
      → Keeps (not is_page) w.index (place sc is_page best_effort p w).index
  unfolding place
  place-Keeps p w = elim (Option-cases (lookup p.slug (slugs is_page w.index))) [
    | inl fresh ↦ rw (fresh, place) (Keeps-add is_page p w.index)
    | inr (q, taken) ↦ elim (Bool-cases best_effort) [
      | inl b ↦ rw (taken, b, place) (Keeps-collect (not is_page) _ w.index)
      | inr b ↦ rw (taken, b, place) (refl, refl)
    ]
  ]

  visit-Keeps :
      (v : Visit) (w : DirWalk)
      → Keeps (not is_page) w.index (visit sc is_page best_effort v w).index
  unfolding visit
  visit-Keeps (failed path missing) w = elim (Bool-cases (best_effort && not missing)) [
    | inl b ↦ rw (b, visit) (Keeps-collect (not is_page) _ w.index)
    | inr b ↦ rw (b, visit) (refl, refl)
  ]
  visit-Keeps (directory path) w = (refl, refl)
  visit-Keeps (file path source) w = elim (Bool-cases (has_suffix path (codes ".md"))) [
    | inr e ↦ rw (e, visit) (refl, refl)
    | inl e ↦ elim (Prepared-cases (prepare sc is_page path source)) [
      | inl d ↦ rw (e, d, visit) (refl, refl)
      | inr (inl d) ↦ rw (e, d, visit) (refl, refl)
      | inr (inr (p, d)) ↦ rw (e, d, visit) (place-Keeps p w)
    ]
  ]

  scan_dir-Keeps :
      (vs : List Visit) (w : DirWalk)
      → Keeps (not is_page) w.index (scan_dir sc is_page best_effort vs w).index
  unfolding scan_dir
  scan_dir-Keeps [] w = (refl, refl)
  scan_dir-Keeps (v ∷ vs) w = elim (Option-cases w.stopped) [
    | inr (e, s) ↦ rw (s, scan_dir) (refl, refl)
    | inl s ↦
        let now = visit sc is_page best_effort v w in
        rw (s, scan_dir)
          (Keeps-then (not is_page) w.index now.index (scan_dir sc is_page best_effort vs now).index
            (visit-Keeps v w) (scan_dir-Keeps vs now))
  ]

  end_walk-Keeps :
      (side : Bool) (w : DirWalk) (idx : Index)
      → end_walk best_effort w ≡ done idx
      → Keeps side w.index idx × (Breaks best_effort w → ⊥)
  unfolding end_walk
  end_walk-Keeps side w idx e = elim (Option-cases w.stopped) [
    | inl s ↦
        let same : w.index ≡ idx = cc (rw (s, end_walk) at e) in
        (subst (Keeps side w.index) same (refl, refl), λ b. absurd (cc (s, b.2)))
    | inr ((x, true), s) ↦
        let same : w.index ≡ idx = cc (rw (s, end_walk) at e) in
        (subst (Keeps side w.index) same (refl, refl), λ b. absurd (cc b.2))
    | inr ((x, false), s) ↦ elim (Bool-cases best_effort) [
      | inl b ↦
          let same : collect (scanning x) w.index ≡ idx = cc (rw (s, b, end_walk) at e) in
          (
            subst (Keeps side w.index) same (Keeps-collect side _ w.index),
            λ c. absurd (cc (b, c.0)),
          )
      | inr b ↦ absurd (cc (rw (s, b, end_walk) at e))
    ]
  ]

-- The maps and the lists of an index hold what the files that its walk visits give, and nothing else.
pub record Holds (sc : Scanner) (is_page best_effort : Bool) (vs : List Visit) (idx : Index)
    : Type 0 where
  pub kept : (p : Post) → Given sc is_page vs p → IsKept best_effort (slugs is_page idx) p
  pub only : All (Given sc is_page vs) (listed is_page idx)

All-at : (P : Post → Type 0) (l : List Post) (q : Post) → All P l → In q l → P q
All-at P [] q h m = elim m [ ]
All-at P (x ∷ xs) q (h, hs) (inl e) = subst P (sym e) h
All-at P (x ∷ xs) q (h, hs) (inr m) = All-at P xs q hs m

All-given : (P : Post → Type 0) (l : List Post) → ((q : Post) → In q l → P q) → All P l
All-given P [] h = tt
All-given P (x ∷ xs) h = (h x (inl refl), All-given P xs (λ q m. h q (inr m)))

Holds-Keeps :
    (sc : Scanner) (is_page best_effort : Bool) (vs : List Visit) (a b : Index)
    → Keeps is_page a b
    → Holds sc is_page best_effort vs a
    → Holds sc is_page best_effort vs b
Holds-Keeps sc is_page best_effort vs a b (same_slugs, same_list) h = record {
  kept = λ p g. subst (λ m. IsKept best_effort m p) (sym same_slugs) (h.kept p g);
  only = subst (λ l. All (Given sc is_page vs) l) (sym same_list) h.only;
}

-- The walk of one part files what it visits, and leaves the other part alone.
pub walk_part-Holds :
    (sc : Scanner) (is_page best_effort : Bool) (vs : List Visit) (idx j : Index)
    → listed is_page idx ≡ []
    → walk_part sc is_page best_effort vs idx ≡ done j
    → Holds sc is_page best_effort vs j × Keeps (not is_page) idx j
unfolding walk_part
walk_part-Holds sc is_page best_effort vs idx j empty h =
    let start : DirWalk = record { index = idx; skipped = 0; stopped = none } in
    let w = scan_dir sc is_page best_effort vs start in
    let (mine, unbroken) = end_walk-Keeps sc is_page best_effort is_page w j h in
    let (others, again) = end_walk-Keeps sc is_page best_effort (not is_page) w j h in
    (
      elim (scan_dir-Visits sc is_page best_effort vs start refl) [
        | inr broken ↦ elim (unbroken broken) [ ]
        | inl g ↦ Holds-Keeps sc is_page best_effort vs w.index j mine (record {
          kept = λ p given.
              All-at _ (visited sc is_page vs) p g.kept (Given-visited sc is_page vs p given);
          only = All-given _ (listed is_page w.index) (λ q m. elim (g.only q m) [
            | inr new ↦ visited-Given sc is_page vs q new
            | inl old ↦ elim (subst (In q) empty old) [ ]
          ]);
        })
      ],
      Keeps-then (not is_page) idx w.index j (scan_dir-Keeps sc is_page best_effort vs start)
          others,
    )

pub find_conflicts-Keeps :
    (side best_effort : Bool) (l : List (Text × Post)) (a b : Index)
    → find_conflicts best_effort l a ≡ done b
    → Keeps side a b
unfolding find_conflicts
find_conflicts-Keeps side best_effort [] a b e =
    let same : a ≡ b = cc in subst (Keeps side a) same (refl, refl)
find_conflicts-Keeps side best_effort ((slug, page) ∷ l) a b e =
    elim (Option-cases (lookup slug a.by_slug)) [
      | inl f ↦ find_conflicts-Keeps side best_effort l a b (rw (f, find_conflicts) at e)
      | inr (post, f) ↦ elim (Bool-cases best_effort) [
        | inr c ↦ absurd (cc (rw (f, c, find_conflicts) at e))
        | inl c ↦
            let next = collect (slug_conflict slug page.path post.path) a in
            Keeps-then side a next b (Keeps-collect side _ a)
              (find_conflicts-Keeps side best_effort l next b (rw (f, c, find_conflicts) at e))
      ]
    ]

pub finish-Holds :
    (to_lower : Text → Text) (year : ℕ → ℕ) (sc : Scanner) (is_page best_effort : Bool)
    (vs : List Visit) (idx : Index)
    → Holds sc is_page best_effort vs idx
    → Holds sc is_page best_effort vs (finish to_lower year idx)
unfolding finish
finish-Holds to_lower year sc true best_effort vs idx h = record {
  kept = h.kept;
  only = sort_stable-All (page_before to_lower) _ idx.pages h.only;
}
finish-Holds to_lower year sc false best_effort vs idx h = record {
  kept = h.kept;
  only = sort_stable-All is_newer _ idx.posts h.only;
}

pub scan-Holds :
    (sc : Scanner) (best_effort : Bool) (posts pages : List Visit) (l : List (Text × Post))
    (a i j k : Index)
    → a.posts ≡ []
    → a.pages ≡ []
    → walk_part sc false best_effort posts a ≡ done i
    → walk_part sc true best_effort pages i ≡ done j
    → find_conflicts best_effort l j ≡ done k
    → Holds sc false best_effort posts k × Holds sc true best_effort pages k
scan-Holds sc best_effort posts pages l a i j k no_posts no_pages first second third =
    let (of_posts, still) = walk_part-Holds sc false best_effort posts a i no_posts first in
    let (of_pages, left) =
      walk_part-Holds sc true best_effort pages i j (still.1 ∙ no_pages) second in
    (
      Holds-Keeps sc false best_effort posts j k
          (find_conflicts-Keeps false best_effort l j k third)
          (Holds-Keeps sc false best_effort posts i j left of_posts),
      Holds-Keeps sc true best_effort pages j k (find_conflicts-Keeps true best_effort l j k third)
          of_pages,
    )
