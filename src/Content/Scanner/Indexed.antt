-- ===== src/Content/Scanner/Indexed.antt =====
-- internal/content/scanner.go: what holds of the index that `Scan` returns.
use blogflow.Base.{ℕ, ◌↔◌, ◌≡◌, Bool, true, false, List, none, All, filter, list_eq, nat_eq, ◌==◌}
use blogflow.Base.Text.{Text}
use blogflow.Base.Assoc.{lookup}
use blogflow.Base.Sort.{IsOrdered}
use blogflow.Content.Scanner.{Post, Scanner}
use blogflow.Content.Scanner.Scan.{Index, Visit}
use blogflow.Content.Scanner.Build.{page_before}
use blogflow.Content.Scanner.Walked.{In, Walked}
use blogflow.Content.Scanner.Grouped.{at, IsTagged}
use blogflow.Content.Scanner.Whole.{Holds}
use blogflow.Content.Scanner.Sorted.{IsNewestFirst}

-- What `Scan` promises of the order and the maps of its index.
pub record Indexed (to_lower : Text → Text) (year : ℕ → ℕ) (idx : Index) : Type 0 where
  pub newest : IsNewestFirst idx.posts
  pub weighed : IsOrdered (page_before to_lower) idx.pages
  pub walked : Walked idx
  pub tags :
      (t : Text)
      → ((q : Post) → In q (at t idx.by_tag) ↔ (In q idx.posts × IsTagged to_lower t q.front.tags))
        × IsNewestFirst (at t idx.by_tag)
  pub years : (y : ℕ) → at y idx.by_year ≡ filter (λ p. year p.front.date == y) idx.posts

-- What `Scan` promises of its index and the files that its two walks visit.
pub record Complete (to_lower : Text → Text) (year : ℕ → ℕ) (sc : Scanner) (best_effort : Bool)
    (posts pages : List Visit) (idx : Index) : Type 0 where
  pub indexed : Indexed to_lower year idx
  pub all_posts : Holds sc false best_effort posts idx
  pub all_pages : Holds sc true best_effort pages idx
  pub apart : best_effort ≡ false → All (λ e. lookup e.0 idx.by_slug ≡ none) idx.page_by_slug
