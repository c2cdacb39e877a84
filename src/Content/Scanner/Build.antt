-- ===== src/Content/Scanner/Build.antt =====
-- internal/content/scanner.go: `Scan`. The visits of the two walks, `strings.ToLower`, the year of a time
-- and the order in which Go ranges over a map are arguments.
use blogflow.Base.{
  ℕ, Bool, true, false, not, List, [], ◌∷◌, ◌++◌, Eq, ltb, if◌then◌else◌, list_eq, nat_eq, none,
  some,
}
use blogflow.Base.Int.{◌=ℤ◌, ltb_ℤ}
use blogflow.Base.Text.{Text, is_empty, trim_space, text_lt}
use blogflow.Base.Assoc.{lookup, insert}
use blogflow.Base.Sort.{sort_stable}
use blogflow.Content.Scanner.{Post, Scanner}
use blogflow.Content.Scanner.Scan.{
  ScanError, slug_conflict, scanning, Index, Visit, DirWalk, fresh_index, collect, scan_dir,
}

pub data Scanned : Type 0 where
  done : Index → Scanned
  aborted : ScanError → Scanned

unfoldable pub and_then : Scanned → (Index → Scanned) → Scanned
and_then (done idx) k = k idx
and_then (aborted e) k = aborted e

-- What `Scan` does with the end of a walk: a directory that does not exist is no error.
unfoldable pub end_walk : Bool → DirWalk → Scanned
end_walk best_effort w = elim w.stopped [
  | none ↦ done w.index
  | some (e, missing) ↦
      if missing
      then done w.index
      else if best_effort
      then done (collect (scanning e) w.index)
      else aborted (scanning e)
]

-- The walk of one directory, with its end.
unfoldable pub walk_part : Scanner → Bool → Bool → List Visit → Index → Scanned
walk_part sc is_page best_effort visits idx =
    end_walk best_effort
      (scan_dir sc is_page best_effort visits (record { index = idx; skipped = 0; stopped = none }))

-- The loop that looks for a slug that both a page and a post have.
unfoldable pub find_conflicts : Bool → List (Text × Post) → Index → Scanned
unfolding lookup
find_conflicts best_effort [] idx = done idx
find_conflicts best_effort ((slug, page) ∷ l) idx = elim (lookup slug idx.by_slug) [
  | none ↦ find_conflicts best_effort l idx
  | some post ↦
      if best_effort
      then find_conflicts best_effort l (collect (slug_conflict slug page.path post.path) idx)
      else aborted (slug_conflict slug page.path post.path)
]

-- `Date.After`
abbrev pub is_newer : Post → Post → Bool
is_newer p q = ltb q.front.date p.front.date

-- `append` to the list that a key has.
unfoldable pub append_to {ℓ} :
    {K : Type ℓ} ⦃e : Eq K⦄ → K → Post → List (K × List Post) → List (K × List Post)
unfolding lookup insert
append_to k p m = elim (lookup k m) [
  | none ↦ insert k (p ∷ []) m
  | some ps ↦ insert k (ps ++ p ∷ []) m
]

module _ (to_lower : Text → Text) where
  -- The order of the pages: by weight, then by title.
  unfoldable pub page_before : Post → Post → Bool
  page_before p q =
      if not (p.front.weight =ℤ q.front.weight)
      then ltb_ℤ p.front.weight q.front.weight
      else text_lt (to_lower p.front.title) (to_lower q.front.title)

  unfoldable pub tag_key : Text → Text
  tag_key tag = to_lower (trim_space tag)

  -- The loop over the tags of a post.
  unfoldable pub index_tags : Post → List Text → List (Text × List Post) → List (Text × List Post)
  index_tags p [] m = m
  index_tags p (tag ∷ tags) m =
      index_tags p tags (if is_empty (tag_key tag) then m else append_to (tag_key tag) p m)

  unfoldable pub by_tag_of : List Post → List (Text × List Post) → List (Text × List Post)
  by_tag_of [] m = m
  by_tag_of (p ∷ ps) m = by_tag_of ps (index_tags p p.front.tags m)

-- The loop over the years.
unfoldable pub by_year_of : (ℕ → ℕ) → List Post → List (ℕ × List Post) → List (ℕ × List Post)
by_year_of year [] m = m
by_year_of year (p ∷ ps) m = by_year_of year ps (append_to (year p.front.date) p m)

module _ (to_lower : Text → Text) (year : ℕ → ℕ) where
  -- The end of `Scan`: the two sorts and the indexes that follow from them.
  unfoldable pub finish : Index → Index
  unfolding sort_stable page_before by_tag_of by_year_of
  finish idx =
      let posts = sort_stable is_newer idx.posts in
      record idx {
        posts = posts;
        pages = sort_stable (page_before to_lower) idx.pages;
        by_tag = by_tag_of to_lower posts [];
        by_year = by_year_of year posts [];
      }

  -- `Scan`
  unfoldable pub scan :
      (List (Text × Post) → List (Text × Post)) → Scanner → Bool → List Visit → List Visit → Scanned
  scan range sc best_effort posts pages =
      and_then (walk_part sc false best_effort posts fresh_index) λ i.
        and_then (walk_part sc true best_effort pages i)
          λ j. and_then (find_conflicts best_effort (range j.page_by_slug) j) λ k. done (finish k)
