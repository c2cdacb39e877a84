-- ===== src/Content/Scanner/Scan.antt =====
-- internal/content/scanner.go: the walk of a directory and the index that `Scan` builds. The order of the
-- walk and what it meets are arguments, as are `strings.ToLower` and the year of a time.
use blogflow.Base.{
  ℕ, ◌+◌, Bool, true, false, ◌&&◌, not, List, [], ◌∷◌, ◌++◌, if◌then◌else◌, list_eq, nat_eq, Option,
  none, some,
}
use blogflow.Base.Text.{Text, codes, has_suffix}
use blogflow.Base.Assoc.{lookup, insert}
use blogflow.Content.Scanner.{Post, Scanner, ignored, rejected, ready, prepare}

pub data ScanError : Type 0 where
  walk_failed : Text → ScanError
  duplicate_slug : Text → Text → Text → ScanError
  slug_conflict : Text → Text → Text → ScanError
  scanning : ScanError → ScanError

pub record Index : Type 0 where
  pub posts : List Post
  pub by_slug : List (Text × Post)
  pub by_tag : List (Text × List Post)
  pub by_year : List (ℕ × List Post)
  pub pages : List Post
  pub page_by_slug : List (Text × Post)
  pub scan_errors : List ScanError

-- What the walk hands to its callback: an error (that the file does not exist, or another), a directory,
-- or a file with what reading it gives.
pub data Visit : Type 0 where
  failed : Text → Bool → Visit
  directory : Text → Visit
  file : Text → Option Text → Visit

-- How a walk ends: with the index and the files skipped, or with an error that says whether it is
-- `fs.ErrNotExist`, and with what the index holds by then.
pub record DirWalk : Type 0 where
  pub index : Index
  pub skipped : ℕ
  pub stopped : Option (ScanError × Bool)

abbrev pub fresh_index : Index
fresh_index = record {
  posts = [];
  by_slug = [];
  by_tag = [];
  by_year = [];
  pages = [];
  page_by_slug = [];
  scan_errors = [];
}

abbrev pub collect : ScanError → Index → Index
collect e idx = record idx { scan_errors = idx.scan_errors ++ e ∷ [] }

-- The map of the slugs that a post or a page goes by.
abbrev pub slugs : Bool → Index → List (Text × Post)
slugs true idx = idx.page_by_slug
slugs false idx = idx.by_slug

abbrev pub add : Bool → Post → Index → Index
add true p idx = record idx {
  pages = idx.pages ++ p ∷ [];
  page_by_slug = insert p.slug p idx.page_by_slug;
}
add false p idx = record idx { posts = idx.posts ++ p ∷ []; by_slug = insert p.slug p idx.by_slug }

module _ (sc : Scanner) (is_page best_effort : Bool) where
  -- The end of the callback: a slug that is taken is an error.
  unfoldable pub place : Post → DirWalk → DirWalk
  place p w = elim (lookup p.slug (slugs is_page w.index)) [
    | some existing ↦
        let e = duplicate_slug p.slug p.path existing.path in
        if best_effort
        then record w { index = collect e w.index; skipped = w.skipped + 1 }
        else record w { stopped = some (e, false) }
    | none ↦ record w { index = add is_page p w.index }
  ]

  -- The callback.
  unfoldable pub visit : Visit → DirWalk → DirWalk
  visit (failed path missing) w =
      if best_effort && not missing
      then record w { index = collect (walk_failed path) w.index }
      else record w { stopped = some (walk_failed path, missing) }
  visit (directory path) w = w
  visit (file path source) w =
      if not (has_suffix path (codes ".md")) then w else elim (prepare sc is_page path source) [
        | ignored ↦ w
        | rejected ↦ record w { skipped = w.skipped + 1 }
        | ready p ↦ place p w
      ]

  -- `scanDir`: the walk goes on as long as the callback returns no error.
  unfoldable pub scan_dir : List Visit → DirWalk → DirWalk
  scan_dir [] w = w
  scan_dir (v ∷ vs) w = elim w.stopped [ none ↦ scan_dir vs (visit v w) | some e ↦ w ]
