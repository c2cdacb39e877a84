-- ===== src/Overlay/Dir.antt =====
-- Directory listings of internal/overlayfs: `ReadDir`, the union of the layers, and the handle that
-- hides .git (gitHidingDir).
pub mod Union
pub mod Hidden
use blogflow.Base.{
  ℕ, zero, suc, ◌+◌, ◌-◌, Bool, true, false, not, List, [], ◌∷◌, ltb, if◌then◌else◌, nat_eq, ◌==◌,
  Option, none, some, length, take, drop, map, list_eq, ◌||◌,
}
use blogflow.Base.Text.{Text, is_empty, text_lt}
use blogflow.Base.Assoc.{insert}
use blogflow.Base.Int.{ℤ, pos, negsuc}
use blogflow.Overlay.Paths.{valid_path, has_git_component, is_git}
use blogflow.Overlay.Layers.{
  FsError, invalid, permission, not_exist, end_of_file, Result, ok, err, is_not_exist, DirEntry,
  Layer, LayerMeta, check_layer,
}
use blogflow.Overlay.Cache.{Overlay}

-- `merged[e.Name()] = e` for every entry but .git.
unfoldable pub add_entries : List DirEntry → List (Text × DirEntry) → List (Text × DirEntry)
add_entries [] merged = merged
add_entries (e ∷ es) merged =
    add_entries es (if is_git e.name then merged else insert e.name e merged)

-- `found`, and the entries by name.
pub record Merge : Type 0 where
  pub found : Bool
  pub merged : List (Text × DirEntry)

module _ (eval_symlinks : Text → Result Text) where
  -- One round of the loop.
  unfoldable pub merge_layer : List LayerMeta → Text → ℕ → Layer → Merge → Result Merge
  unfolding add_entries
  merge_layer metas name i l m = elim (check_layer eval_symlinks metas i name) [
    | some e ↦ err e
    | none ↦ elim (l.read_dir name) [
      | err e ↦ if is_not_exist e then ok m else err e
      | ok entries ↦ ok (record { found = true; merged = add_entries entries m.merged })
    ]
  ]

  -- The loop runs from the last layer to the first, so that a layer overwrites those below it.
  unfoldable pub merge_layers : List LayerMeta → Text → ℕ → List Layer → Result Merge
  unfolding merge_layer
  merge_layers metas name i [] = ok (record { found = false; merged = [] })
  merge_layers metas name i (l ∷ ls) = elim (merge_layers metas name (suc i) ls) [
    | err e ↦ err e
    | ok m ↦ merge_layer metas name i l m
  ]

-- `sort.Slice` by name. Names are distinct, so every sorting gives the same list.
unfoldable pub insert_sorted : DirEntry → List DirEntry → List DirEntry
unfolding text_lt
insert_sorted e [] = e ∷ []
insert_sorted e (f ∷ l) = if text_lt e.name f.name then e ∷ f ∷ l else f ∷ insert_sorted e l

unfoldable pub sort_entries : List (Text × DirEntry) → List DirEntry
unfolding insert_sorted
sort_entries [] = []
sort_entries ((_, e) ∷ m) = insert_sorted e (sort_entries m)

-- `ReadDir`. It does not use the negative cache.
unfoldable pub read_dir : (Text → Result Text) → Text → Overlay → Result (List DirEntry)
unfolding merge_layers sort_entries
read_dir eval_symlinks name o =
    if not (valid_path name)
    then err invalid
    else if has_git_component name
    then err permission
    else elim (merge_layers eval_symlinks o.metas name 0 o.layers) [
      | err e ↦ err e
      | ok m ↦ if m.found then ok (sort_entries m.merged) else err not_exist
    ]

-- `ReadDir(n)` of the wrapped file: the entries still to be read, then the end. The bound `n <= 0`
-- reads them all.
unfoldable pub raw_read_dir : ℤ → List DirEntry → List DirEntry × Option FsError × List DirEntry
raw_read_dir (negsuc n) es = (es, none, [])
raw_read_dir (pos zero) es = (es, none, [])
raw_read_dir (pos (suc n)) [] = ([], some end_of_file, [])
raw_read_dir (pos (suc n)) (e ∷ es) = (take (suc n) (e ∷ es), none, drop (suc n) (e ∷ es))

-- `kept`
unfoldable pub without_git : List DirEntry → List DirEntry
without_git [] = []
without_git (e ∷ es) = if is_git e.name then without_git es else e ∷ without_git es

abbrev pub positive : ℤ → Bool
positive (pos (suc _)) = true
positive _ = false

-- `gitHidingDir.ReadDir`. Each round but the last reads an entry, so the number of entries and one
-- more round are enough (`hiding_read_dir-IsBatch` in Hidden).
unfoldable pub hiding_rounds :
    ℕ → ℤ → List DirEntry → Option (List DirEntry × Option FsError × List DirEntry)
unfolding raw_read_dir without_git
hiding_rounds zero n es = none
hiding_rounds (suc fuel) n es =
    let (entries, e, rest) = raw_read_dir n es in
    let kept = without_git entries in
    let again = hiding_rounds fuel n rest in
    if not (positive n) || not (is_empty kept)
    then some (kept, e, rest)
    else elim e [ some x ↦ some (kept, some x, rest) | none ↦ again ]

unfoldable pub hiding_read_dir :
    ℤ → List DirEntry → Option (List DirEntry × Option FsError × List DirEntry)
unfolding hiding_rounds
hiding_read_dir n es = hiding_rounds (length es + 1) n es
