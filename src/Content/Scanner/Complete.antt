-- ===== src/Content/Scanner/Complete.antt =====
-- internal/content/scanner.go: a walk files what it visits, and nothing else.
use blogflow.Base.{
  ◌≡◌, ◌⊎◌, ◌∙◌, inl, inr, refl, sym, ap, subst, Bool, true, false, List, [], ◌∷◌, ◌++◌, Option,
  none, some, Bool-cases, Option-cases, list_eq, nat_eq, if◌then◌else◌,
}
use blogflow.Base.Text.{Text, has_suffix, codes}
use blogflow.Base.Assoc.{lookup}
use blogflow.Content.Scanner.{Post, Scanner, prepare}
use blogflow.Content.Scanner.Scan.{
  ScanError, DirWalk, Visit, failed, directory, file, slugs, place, visit, scan_dir, walk_failed,
  duplicate_slug,
}
use blogflow.Content.Scanner.Walked.{Prepared-cases}
use blogflow.Content.Scanner.Gains.{
  listed, post_of, visited, Gains, Gains-nothing, Gains-then, Gains-add, Gains-collect,
  slugs-collect,
}

-- A walk without best effort that ended at an error.
abbrev pub Breaks : Bool → DirWalk → Type 0
Breaks best_effort w = (best_effort ≡ false) × (e : ScanError) × (w.stopped ≡ some (e, false))

module _ (sc : Scanner) (is_page best_effort : Bool) where
  -- The walk goes on from here and gains these posts, or breaks.
  abbrev Goes : List Post → DirWalk → DirWalk → Type 0
  Goes ps w r =
      ((r.stopped ≡ none) × Gains is_page best_effort ps w.index r.index) ⊎ Breaks best_effort r

  place-Goes :
      (p : Post) (w : DirWalk)
      → w.stopped ≡ none
      → Goes (p ∷ []) w (place sc is_page best_effort p w)
  unfolding place
  place-Goes p w go = elim (Option-cases (lookup p.slug (slugs is_page w.index))) [
    | inl fresh ↦ rw (fresh, place) (inl (go, Gains-add is_page best_effort p w.index fresh))
    | inr (q, taken) ↦ elim (Bool-cases best_effort) [
      | inl b ↦
          let e = duplicate_slug p.slug p.path q.path in
          let same = slugs-collect is_page e w.index in
          let g = Gains-collect is_page best_effort e w.index in
          rw (taken, b, place)
            (inl (
              go,
              record {
                grows = g.grows;
                kept = (inr (refl, q, ap (lookup p.slug) same ∙ taken), tt);
                only = λ x h. elim (g.only x h) [ inl old ↦ inl old | inr new ↦ elim new [ ] ];
              },
            ))
      | inr b ↦ rw (taken, b, place) (inr (refl, duplicate_slug p.slug p.path q.path, refl))
    ]
  ]

  visit_file-Goes :
      (path : Text) (source : Option Text) (w : DirWalk)
      → w.stopped ≡ none
      → Goes
          (if has_suffix path (codes ".md")
            then post_of sc is_page (prepare sc is_page path source)
            else [])
          w
          (visit sc is_page best_effort (file path source) w)
  unfolding visit
  visit_file-Goes path source w go = elim (Bool-cases (has_suffix path (codes ".md"))) [
    | inr e ↦ rw (e, visit) (inl (go, Gains-nothing is_page best_effort w.index w.index refl refl))
    | inl e ↦ elim (Prepared-cases (prepare sc is_page path source)) [
      | inl d ↦
          rw (e, d, visit) (inl (go, Gains-nothing is_page best_effort w.index w.index refl refl))
      | inr (inl d) ↦
          rw (e, d, visit) (inl (go, Gains-nothing is_page best_effort w.index w.index refl refl))
      | inr (inr (p, d)) ↦ rw (e, d, visit) (place-Goes p w go)
    ]
  ]

  visit_failed-Goes :
      (path : Text) (w : DirWalk)
      → w.stopped ≡ none
      → Goes [] w (visit sc is_page best_effort (failed path false) w)
  unfolding visit
  visit_failed-Goes path w go = elim (Bool-cases best_effort) [
    | inl b ↦ rw (b, visit) (inl (go, Gains-collect is_page true (walk_failed path) w.index))
    | inr b ↦ rw (b, visit) (inr (refl, walk_failed path, refl))
  ]

  scan_dir_stopped :
      (vs : List Visit) (w : DirWalk) (e : ScanError) (missing : Bool)
      → w.stopped ≡ some (e, missing)
      → scan_dir sc is_page best_effort vs w ≡ w
  unfolding scan_dir
  scan_dir_stopped [] w e missing h = refl
  scan_dir_stopped (v ∷ vs) w e missing h =
      ap
        (λ s. elim s [
          | none ↦ scan_dir sc is_page best_effort vs (visit sc is_page best_effort v w)
          | some x ↦ w
        ])
        h

  -- What a walk gains is what it visits, or it breaks.
  abbrev pub Visits : List Visit → DirWalk → Type 0
  Visits vs w =
      Gains is_page best_effort (visited sc is_page vs) w.index
        (scan_dir sc is_page best_effort vs w).index
      ⊎ Breaks best_effort (scan_dir sc is_page best_effort vs w)

  after_visit :
      (v : Visit) (ps : List Post) (vs : List Visit) (w : DirWalk)
      → w.stopped ≡ none
      → visited sc is_page (v ∷ vs) ≡ ps ++ visited sc is_page vs
      → Goes ps w (visit sc is_page best_effort v w)
      → ((visit sc is_page best_effort v w).stopped ≡ none
          → Visits vs (visit sc is_page best_effort v w))
      → Visits (v ∷ vs) w
  unfolding scan_dir
  after_visit v ps vs w go given (inr (b, e, stop)) rest =
      rw (go, scan_dir)
        (inr (
          b,
          e,
          subst (λ r. r.stopped ≡ some (e, false))
              (sym (scan_dir_stopped vs (visit sc is_page best_effort v w) e false stop)) stop,
        ))
  after_visit v ps vs w go given (inl (on, g)) rest = elim (rest on) [
    | inr broken ↦ rw (go, scan_dir) (inr broken)
    | inl h ↦
        rw (go, scan_dir)
          (inl (
            subst
              (λ l.
                Gains is_page best_effort l w.index
                  (scan_dir sc is_page best_effort vs (visit sc is_page best_effort v w)).index)
              (sym given)
              (Gains-then is_page best_effort ps (visited sc is_page vs) w.index
                (visit sc is_page best_effort v w).index
                (scan_dir sc is_page best_effort vs (visit sc is_page best_effort v w)).index g h)))
  ]

  missing_ends :
      (path : Text) (vs : List Visit) (w : DirWalk)
      → w.stopped ≡ none
      → scan_dir sc is_page best_effort (failed path true ∷ vs) w
        ≡ record w { stopped = some (walk_failed path, true) }
  unfolding scan_dir visit
  missing_ends path vs w go =
      let ended : DirWalk = record w { stopped = some (walk_failed path, true) } in
      rw (go, scan_dir)
        (ap (scan_dir sc is_page best_effort vs) (now path w)
          ∙ scan_dir_stopped vs ended (walk_failed path) true refl)
    where
      now :
          (path : Text) (w : DirWalk)
          → visit sc is_page best_effort (failed path true) w
            ≡ record w { stopped = some (walk_failed path, true) }
      now path w = elim (Bool-cases best_effort) [
        | inl b ↦ rw (b, visit) refl
        | inr b ↦ rw (b, visit) refl
      ]

  pub scan_dir-Visits : (vs : List Visit) (w : DirWalk) → w.stopped ≡ none → Visits vs w
  unfolding scan_dir visit
  scan_dir-Visits [] w go = inl (Gains-nothing is_page best_effort w.index w.index refl refl)
  scan_dir-Visits (failed path true ∷ vs) w go = inl (
      Gains-nothing is_page best_effort w.index
        (scan_dir sc is_page best_effort (failed path true ∷ vs) w).index
        (ap (λ r. slugs is_page r.index) (missing_ends path vs w go))
        (ap (λ r. listed is_page r.index) (missing_ends path vs w go)))
  scan_dir-Visits (failed path false ∷ vs) w go =
      after_visit (failed path false) [] vs w go refl (visit_failed-Goes path w go)
        (λ on. scan_dir-Visits vs (visit sc is_page best_effort (failed path false) w) on)
  scan_dir-Visits (directory path ∷ vs) w go =
      after_visit (directory path) [] vs w go refl
        (inl (go, Gains-nothing is_page best_effort w.index w.index refl refl))
        (λ on. scan_dir-Visits vs (visit sc is_page best_effort (directory path) w) on)
  scan_dir-Visits (file path source ∷ vs) w go =
      after_visit (file path source)
        (if has_suffix path (codes ".md")
          then post_of sc is_page (prepare sc is_page path source)
          else [])
        vs w go refl (visit_file-Goes path source w go)
        (λ on. scan_dir-Visits vs (visit sc is_page best_effort (file path source) w) on)
