-- ===== src/Gitops/Pull.antt =====
-- internal/gitops/pull.go and poll.go: how a checkout follows its remote, and when the server reloads. The
-- git library is an argument; a revision is a number.
pub mod Arrives
pub mod Converge
mod Tests
use blogflow.Base.{
  ℕ, Bool, true, false, ◌&&◌, ◌||◌, not, List, [], ◌∷◌, ◌++◌, if◌then◌else◌, ◌==◌, list_eq, nat_eq,
  any, filter, map, Option, none, some,
}
use blogflow.Gitops.Url.{ParsedUrl, check_repo_url}
use blogflow.Gitops.Sparse.{validate_sparse_dirs, validated, rejected}
use blogflow.Base.Text.{Text, codes, is_empty, has_prefix, contains, split}

-- A directory with a clone in it, or without: HEAD, and the remote's branch as it was last fetched.
pub record Checkout : Type 0 where
  pub present : Bool
  pub head : ℕ
  pub tracking : ℕ
  pub top_level : List Text

pub data Fetched : Type 0 where
  updated already_up_to_date fetch_failed : Fetched

pub data PullError : Type 0 where
  bad_url bad_sparse_dir open_failed head_failed clear_failed clone_failed checkout_failed :
      PullError
  ref_failed worktree_failed reset_failed head_after_failed cleanup_failed : PullError

-- The calls of the git library and of the file system, each with its effect and whether it succeeds.
pub record Git : Type 0 where
  pub plain_clone : Checkout → Checkout × Bool
  pub sparse_checkout : List Text → Checkout → Checkout × Bool
  pub opens : Checkout → Bool
  pub has_head : Checkout → Bool
  pub fetch : Checkout → Checkout × Fetched
  pub remove_all : Checkout → Checkout × Bool
  pub remote_ref : Checkout → Option ℕ
  pub has_worktree : Checkout → Bool
  pub reset : ℕ → Checkout → Checkout × Bool
  pub lists : Checkout → Bool
  pub remove_entry : Text → Bool

pub data Pulled : Type 0 where
  pulled : Bool → Pulled
  failed : PullError → Pulled

-- The body of the loop of `cleanNonSparsePaths`, over the entries of the directory.
unfoldable pub clean_entries : (Text → Bool) → List Text → List Text → List Text × Bool
clean_entries remove allowed [] = ([], true)
clean_entries remove allowed (name ∷ l) =
    let (left, done) = clean_entries remove allowed l in
    if name == codes ".git" || any (λ a. a == name) allowed
    then (name ∷ left, done)
    else if remove name
    then (left, done)
    else (name ∷ l, false)

-- The first component of a path.
unfoldable pub top_component : Text → Text
top_component [] = []
top_component (c ∷ s) = if c == b'/' then [] else c ∷ top_component s

module _ (git : Git) (sparse_dirs : List Text) where
  -- `cleanNonSparsePaths`
  unfoldable pub clean_non_sparse_paths : Checkout → Checkout × Bool
  unfolding clean_entries top_component
  clean_non_sparse_paths c =
      if not (git.lists c)
      then (c, false)
      else let (left, done) =
          clean_entries git.remove_entry (map top_component sparse_dirs) c.top_level in
        (record c { top_level = left }, done)

  -- The end of `clone`, which checks the sparse directories out.
  unfoldable pub finish_clone : Checkout → Checkout × Pulled
  finish_clone c =
      if is_empty sparse_dirs
      then (c, pulled true)
      else if not (git.has_worktree c)
      then (c, failed worktree_failed)
      else let (c', done) = git.sparse_checkout sparse_dirs c in
        (c', if done then pulled true else failed checkout_failed)

  -- `clone`, whose `plain_clone` has the URL and the credentials of `resolveRemote`.
  unfoldable pub clone : Checkout → Checkout × Pulled
  clone c =
      let (c', cloned) = git.plain_clone c in
      if cloned then finish_clone c' else (c', failed clone_failed)

  -- The end of `pull`: what the reset changed.
  unfoldable pub finish_pull : ℕ → Checkout → Checkout × Pulled
  finish_pull before c =
      if not (git.has_head c)
      then (c, failed head_after_failed)
      else if before == c.head
      then (c, pulled false)
      else if is_empty sparse_dirs
      then (c, pulled true)
      else let (c', cleaned) = clean_non_sparse_paths c in
        (c', if cleaned then pulled true else failed cleanup_failed)

  -- The hard reset to the remote's branch, after a fetch that brought something.
  unfoldable pub reset_to_remote : ℕ → Checkout → Checkout × Pulled
  reset_to_remote before c = elim (git.remote_ref c) [
    | none ↦ (c, failed ref_failed)
    | some target ↦
        if not (git.has_worktree c)
        then (c, failed worktree_failed)
        else let (c', done) = git.reset target c in
          if done then finish_pull before c' else (c', failed reset_failed)
  ]

  -- The fallback when a fetch fails: delete and clone again.
  unfoldable pub clone_again : Checkout → Checkout × Pulled
  clone_again c =
      let (c', removed) = git.remove_all c in
      if removed then clone c' else (c', failed clear_failed)

  -- `pull`. What it does to the credentials in the remote's URL, which stops it nowhere, is left to Url.
  unfoldable pub pull : Checkout → Checkout × Pulled
  pull c =
      if not (git.opens c)
      then (c, failed open_failed)
      else if not (git.has_head c)
      then (c, failed head_failed)
      else let (c', result) = git.fetch c in
        elim result [
          | updated ↦ reset_to_remote c.head c'
          | already_up_to_date ↦ (c', pulled false)
          | fetch_failed ↦ clone_again c'
        ]

  -- The end of `CloneOrPull`.
  unfoldable pub pull_or_clone : Checkout → Checkout × Pulled
  pull_or_clone c = if c.present then pull c else clone c

-- A server that polls: its checkout, the sparse directories of its puller, and the revision that it serves.
pub record Server : Type 0 where
  pub checkout : Checkout
  pub sparse_dirs : List Text
  pub served : ℕ

-- The end of `tick`: the reloader either serves what is checked out or fails.
unfoldable pub after_pull : Bool → Server × Pulled → Server
after_pull reloads (s, failed e) = s
after_pull reloads (s, pulled changed) =
    if changed && reloads then record s { served = s.checkout.head } else s

module _ (parse : Text → Option ParsedUrl) (git : Git) (repo_url : Text) where
  -- `CloneOrPull`, which keeps the directories as it has cleaned them.
  unfoldable pub clone_or_pull : Server → Server × Pulled
  clone_or_pull s =
      if not (check_repo_url parse repo_url)
      then (s, failed bad_url)
      else elim (validate_sparse_dirs s.sparse_dirs) [
        | rejected e ↦ (s, failed bad_sparse_dir)
        | validated dirs ↦
            let (c, result) = pull_or_clone git dirs s.checkout in
            (record s { checkout = c; sparse_dirs = dirs }, result)
      ]

  -- `tick`
  unfoldable pub tick : Bool → Server → Server
  tick reloads s = after_pull reloads (clone_or_pull s)
