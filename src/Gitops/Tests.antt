-- ===== src/Gitops/Tests.antt =====
-- Runs of the model of internal/gitops, and its theorems at small inputs.
use blogflow.Base.{list_beq, ◌≡◌, refl, ◌+◌, true, false, [], ◌∷◌, Option, none, ◌++◌, List, arith}
use blogflow.Base.Text.{Text, codes}
use blogflow.Base.FilePath.{base}
use blogflow.Gitops.Paths.{is_ignored_dir, is_watched_file}
use blogflow.Gitops.Debounce
use blogflow.Gitops.Debounce.{Event, event, tick, tick, failure, Input, debounce}
use blogflow.Gitops.Watch.{Dir, dir, no_dirs, then_dir, WatchStrategy, watch_run, add_recursive}
use blogflow.Gitops.Watch.Quiet.{watched_change-reloads}

abbrev change : Text → Event
change name = record { name = name; creates = false; removes = false; renames = false }

swap_file : is_watched_file (codes "/posts/a.md.swp") ≡ false
unfolding is_watched_file list_beq
swap_file = refl

upper_case : is_watched_file (codes "/posts/a.MD") ≡ true
unfolding is_watched_file list_beq
upper_case = refl

git_file : is_watched_file (codes "/x/.git/a.md") ≡ false
unfolding is_watched_file list_beq
git_file = refl

pruned :
    (add_recursive
      (λ d. true)
      (dir (codes "/a") (
        then_dir
          (dir (codes "/a/.git") no_dirs)
          (then_dir (dir (codes "/a/b") no_dirs) no_dirs)))).added
    ≡ codes "/a" ∷ codes "/a/b" ∷ []
unfolding add_recursive base is_ignored_dir list_beq
pruned = refl

abbrev no_tree : Text → Option Dir
no_tree path = none

abbrev running_watch : WatchStrategy
running_watch = record {
  dirs = codes "/a" ∷ [];
  started = true;
  watched = codes "/a" ∷ [];
  loop = Debounce.started;
}

abbrev between : List Input
between = event 7 (change (codes "/a/x.swp")) ∷ failure ∷ tick 9 ∷ []

page_watched : is_watched_file (codes "/a/p.md") ≡ true
unfolding is_watched_file list_beq
page_watched = refl

swap_unwatched : is_watched_file (codes "/a/x.swp") ≡ false
unfolding is_watched_file list_beq
swap_unwatched = refl

watched_change-reloads_example :
    (watch_run no_tree
      (λ d. true)
      (event 5 (change (codes "/a/p.md")) ∷ (between ++ tick (5 + debounce) ∷ []))
      running_watch).loop
    ≡ record { deadline = none; reloads = (5 + debounce) ∷ []; running = true }
watched_change-reloads_example =
    watched_change-reloads no_tree (λ d. true) 5 (5 + debounce) (change (codes "/a/p.md")) between
      running_watch refl page_watched (swap_unwatched, (tt, (omega arith, tt))) (omega arith)
