-- ===== src/Gitops/Watch.antt =====
-- internal/gitops/watch.go and sidecar.go: the two strategies that watch the file system. What a walk
-- meets and whether fsnotify takes a directory are arguments.
pub mod Quiet
use blogflow.Base.{
  ℕ, Bool, true, false, ◌||◌, List, [], ◌∷◌, ◌++◌, if◌then◌else◌, Option, none, some,
}
use blogflow.Base.Text.{Text, is_empty, codes}
use blogflow.Base.FilePath.{base}
use blogflow.Gitops.Paths.{is_ignored_dir, is_watched_file}
use blogflow.Gitops.Debounce
use blogflow.Gitops.Debounce.{Event, event, Input, Loop, step}

-- A directory as `filepath.WalkDir` meets it, with the directories in it.
mutual
  pub data Dir : Type 0 where
    dir : Text → Dirs → Dir

  pub data Dirs : Type 0 where
    no_dirs : Dirs
    then_dir : Dir → Dirs → Dirs

-- The directories that a walk added, and whether it went through.
pub record Added : Type 0 where
  pub added : List Text
  pub complete : Bool

abbrev pub after_added : Added → Added → Added
after_added a b =
    if a.complete then record { added = a.added ++ b.added; complete = b.complete } else a

unfoldable mutual
  -- `addRecursive`
  pub add_recursive : (Text → Bool) → Dir → Added
  add_recursive add (dir path dirs) =
      if is_ignored_dir (base path)
      then record { added = []; complete = true }
      else if add path
      then after_added (record { added = path ∷ []; complete = true }) (add_dirs add dirs)
      else record { added = []; complete = false }

  pub add_dirs : (Text → Bool) → Dirs → Added
  add_dirs add no_dirs = record { added = []; complete = true }
  add_dirs add (then_dir d dirs) = after_added (add_recursive add d) (add_dirs add dirs)

pub record WatchStrategy : Type 0 where
  pub dirs : List Text
  pub started : Bool
  pub watched : List Text
  pub loop : Loop

pub data StartError : Type 0 where
  no_directories : StartError
  not_watched : Text → StartError

abbrev pub concerns : Event → Bool
concerns e = is_watched_file e.name

-- The file system: a directory by its path, if it is one.
module _ (tree : Text → Option Dir) (add : Text → Bool) where
  -- The loop of `Start` over its directories.
  unfoldable pub add_all : List Text → List Text → (List Text × Option StartError)
  unfolding add_recursive
  add_all found [] = (found, none)
  add_all found (d ∷ l) = elim (tree d) [
    | none ↦ (found, some (not_watched d))
    | some t ↦
        let a = add_recursive add t in
        let rest = add_all (found ++ a.added) l in
        if a.complete then rest else (found, some (not_watched d))
  ]

  -- `Start`, which closes the watcher when a directory cannot be watched.
  unfoldable pub start : WatchStrategy → WatchStrategy × Option StartError
  unfolding add_all
  start w =
      if w.started
      then (w, none)
      else if is_empty w.dirs
      then (w, some no_directories)
      else let (found, failure) = add_all [] w.dirs in
        elim failure [
          | some e ↦ (w, some e)
          | none ↦ (record w { started = true; watched = found; loop = Debounce.started }, none)
        ]

  -- `tryWatchDir`, which keeps what it has added when it fails.
  unfoldable pub try_watch_dir : Text → List Text
  unfolding add_recursive
  try_watch_dir path = elim (tree path) [
    | none ↦ []
    | some t ↦ if is_ignored_dir (base path) then [] else (add_recursive add t).added
  ]

  -- The case for an event watches directories that appear; all else is the loop.
  abbrev pub watch_new : Input → List Text → List Text
  watch_new (event now e) watched = if e.creates then watched ++ try_watch_dir e.name else watched
  watch_new i watched = watched

  unfoldable pub watch_run : List Input → WatchStrategy → WatchStrategy
  unfolding step
  watch_run [] w = w
  watch_run (i ∷ is) w = elim w.loop.running [
    | true ↦
        watch_run is (record w { watched = watch_new i w.watched; loop = step concerns i w.loop })
    | false ↦ w
  ]

-- `isSymlinkEvent`
abbrev pub is_symlink_event : Event → Bool
is_symlink_event e = e.creates || e.removes || e.renames
