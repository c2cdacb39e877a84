-- ===== src/Gitops/Paths.antt =====
-- internal/gitops/watch.go: which files and directories are watched. A path is code points.
use blogflow.Base.{Bool, ◌&&◌, ◌||◌, not, List, [], ◌∷◌, ◌==◌, list_eq, nat_eq, any, map}
use blogflow.Base.FilePath.{base, ext, ends_with}
use blogflow.Base.Text.{Text, codes, split, to_lower_name}

abbrev pub listed_in : List Text → Text → Bool
listed_in l s = any (λ t. t == s) l

-- `containsDotGit`
unfoldable pub contains_dot_git : Text → Bool
unfolding split
contains_dot_git path = any (λ part. part == codes ".git") (split path b'/')

-- `isIgnoredFile`
unfoldable pub is_ignored_file : Text → Bool
unfolding ends_with ext contains_dot_git base
is_ignored_file name =
    ends_with b'~' (base name)
    || listed_in (codes ".swp" ∷ codes ".tmp" ∷ []) (ext (base name))
    || contains_dot_git name

-- `isWatchedFile`
unfoldable pub is_watched_file : Text → Bool
unfolding is_ignored_file ext
is_watched_file name =
    not (is_ignored_file name)
    && listed_in (codes ".md" ∷ codes ".html" ∷ codes ".css" ∷ codes ".yaml" ∷ [])
        (map to_lower_name (ext name))

-- `isIgnoredDir`
unfoldable pub is_ignored_dir : Text → Bool
is_ignored_dir = listed_in (
    codes ".git"
    ∷ codes "node_modules"
    ∷ codes "vendor"
    ∷ codes "__pycache__"
    ∷ codes ".cache"
    ∷ codes ".idea"
    ∷ codes ".vscode"
    ∷ codes "dist"
    ∷ codes "_site"
    ∷ [])
