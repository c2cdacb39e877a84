-- ===== src/Overlay/Limits.antt =====
-- What the overlay never does: it serves no VCS metadata and no file outside a layer's root, and reads no
-- file without bound.
use blogflow.Base.{
  Option-cases, List, [], ◌∷◌, Option, ℕ, ◌+◌, ◌≤◌, ◌≡◌, refl, ◌∙◌, sym, ap, true, false, ◌++◌,
  if◌then◌else◌, none, some, arith, length, inl, inr, Bool-cases, get_elem?, ◌⊎◌, nat_eq, list_eq,
  list_beq_iff, list_beq, ◌==◌, any, All, length-take, length-append, drop-append, append_assoc,
}
use blogflow.Base.Text.{Text, codes, is_empty, has_prefix, split, cut_prefix, cut_prefix_iff}
use blogflow.Overlay.Paths.{valid_path, has_git_component, is_git}
use blogflow.Overlay.Layers.{
  check_layer, FsError, invalid, permission, not_exist, Result, ok, err, read_up_to, Result-cases,
  check_symlink_safe, join, rel, LayerMeta, Layer, Handle, File, read_all, max_read_size,
}
use blogflow.Overlay.Cache.{Overlay}
use blogflow.Overlay.Cache.Invariant.{IsConsistent}
use blogflow.Overlay.Cache.Sound.{IsSound}
use blogflow.Overlay.Resolve.{open_path, read_file, stat, guarded, handle_of}
use blogflow.Overlay.Resolve.Serves.{Serves, open_path-Serves, accepted}
use blogflow.Overlay.Dir.{read_dir}

-- The names that stand for .git: four letters, each in either case.
abbrev pub IsGitName : Text → Type 0
IsGitName e =
    (g : ℕ) × (i : ℕ) × (t : ℕ) × (e ≡ b'.' ∷ g ∷ i ∷ t ∷ [])
    × ((g ≡ b'g') ⊎ (g ≡ b'G'))
    × ((i ≡ b'i') ⊎ (i ≡ b'I'))
    × ((t ≡ b't') ⊎ (t ≡ b'T'))

is_git-IsGitName : (e : Text) → IsGitName e → is_git e ≡ true
unfolding is_git list_beq
is_git-IsGitName e (g, i, t, d, a, b, c) = rw d (ground arith)

any-is_git :
    (pre post : List Text) (e : Text) → is_git e ≡ true → any is_git (pre ++ e ∷ post) ≡ true
any-is_git [] post e h = rw h refl
any-is_git (p ∷ pre) post e h = ground (arith, any-is_git pre post e h)

-- No element of the path stands for .git.
abbrev pub HasNoGit : Text → Type 0
HasNoGit p = All (λ e. IsGitName e → ⊥) (split p b'/')

no_git-All : (es : List Text) → any is_git es ≡ false → All (λ e. IsGitName e → ⊥) es
no_git-All [] h = tt
no_git-All (e ∷ es) h =
    (λ g. absurd (ground (arith, h, is_git-IsGitName e g)), no_git-All es (ground (arith, h)))

has_git_component-parts :
    (name : Text) (pre post : List Text) (e : Text)
    → split name b'/' ≡ pre ++ e ∷ post
    → IsGitName e
    → has_git_component name ≡ true
unfolding has_git_component
has_git_component-parts name pre post e parts named =
    ap (any is_git) parts ∙ any-is_git pre post e (is_git-IsGitName e named)

module _ (eval_symlinks : Text → Result Text) (name : Text) (o : Overlay) where
  -- A path one of whose elements is .git, whatever the case of its letters, is refused by Open,
  -- ReadFile, Stat and ReadDir with the permission error (with the invalid error if the path is not
  -- valid), and the overlay is left as it is.
  pub git_refused :
      (pre post : List Text) (e : Text)
      → split name b'/' ≡ pre ++ e ∷ post
      → IsGitName e
      → (x : FsError) × (x ≡ (if valid_path name then permission else invalid))
        × (open_path eval_symlinks name o ≡ (err x, o))
        × (read_file eval_symlinks name o ≡ (err x, o))
        × (stat eval_symlinks name o ≡ (err x, o))
        × (read_dir eval_symlinks name o ≡ err x)
  unfolding open_path read_file stat guarded read_dir
  git_refused pre post e parts named =
      let git = has_git_component-parts name pre post e parts named in
      elim (Bool-cases (valid_path name)) [
        | inl valid ↦ (
          permission,
          rw valid,
          rw (valid, git),
          rw (valid, git),
          rw (valid, git),
          rw (valid, git),
        )
        | inr bad ↦ (invalid, rw bad, rw bad, rw bad, rw bad, rw bad)
      ]

-- What lies below the root: the rest of the path, behind the root and a slash.
below_root :
    (root resolved : Text)
    → has_prefix resolved (root ++ codes "/") ≡ true
    → (below : Text) × (resolved ≡ root ++ b'/' ∷ below)
unfolding has_prefix
below_root root resolved h = elim (Option-cases (cut_prefix resolved (root ++ codes "/"))) [
  | inl none_found ↦ absurd (ground arith)
  | inr (below, e) ↦ (
    below,
    (cut_prefix_iff resolved (root ++ codes "/") below).0 e ∙ append_assoc root (codes "/") below,
  )
]

longer_path : (root below : Text) → (root ++ b'/' ∷ below == root) ≡ false
longer_path root below = elim (Bool-cases (root ++ b'/' ∷ below == root)) [
  | inl same ↦ absurd (
      omega (
        arith,
        ap length ((list_beq_iff (root ++ b'/' ∷ below) root).0 same),
        length-append root (b'/' ∷ below),
      ))
  | inr other ↦ other
]

rel-below : (root below : Text) → rel root (root ++ b'/' ∷ below) ≡ below
unfolding rel
rel-below root below = rw (longer_path root below, rel) (drop-append 1 root (b'/' ∷ below))

-- Where a path of a layer on disk leads.
module _ (eval_symlinks : Text → Result Text) (root name : Text) where
  -- The path leads to the root, or below it by elements none of which is .git.
  abbrev pub Confined : Type 0
  Confined =
      (resolved : Text) × (eval_symlinks (join root name) ≡ ok resolved)
      × ((resolved ≡ root) ⊎ ((below : Text) × (resolved ≡ root ++ b'/' ∷ below) × HasNoGit below))

  inside :
      (resolved : Text)
      → (has_prefix resolved (root ++ codes "/") ≡ true) ⊎ (resolved ≡ root)
      → has_git_component (rel root resolved) ≡ false
      → (resolved ≡ root) ⊎ ((below : Text) × (resolved ≡ root ++ b'/' ∷ below) × HasNoGit below)
  unfolding has_git_component
  inside resolved (inr same) plain = inl same
  inside resolved (inl h) plain =
      let (below, e) = below_root root resolved h in
      let rest : rel root resolved ≡ below = ap (rel root) e ∙ rel-below root below in
      inr (below, e, no_git-All (split below b'/') (ap has_git_component (sym rest) ∙ plain))

  check_symlink_safe-Confined :
      is_empty root ≡ false
      → (eval_symlinks (join root name) ≡ err not_exist → ⊥)
      → check_symlink_safe eval_symlinks root name ≡ none
      → Confined
  unfolding check_symlink_safe
  check_symlink_safe-Confined rooted there h =
      elim (Result-cases (eval_symlinks (join root name))) [
        | inr (e, broken) ↦ absurd (there (ground arith))
        | inl (resolved, e) ↦ (resolved, e, inside resolved (under resolved e) (ground arith))
      ]
    where
      under :
          (resolved : Text)
          → eval_symlinks (join root name) ≡ ok resolved
          → (has_prefix resolved (root ++ codes "/") ≡ true) ⊎ (resolved ≡ root)
      under resolved e = elim (Bool-cases (has_prefix resolved (root ++ codes "/"))) [
        | inl below ↦ inl below
        | inr beside ↦ inr (ground (arith, list_beq_iff resolved root))
      ]

read_up_to_whole :
    (limit : ℕ) (f : File) (bytes : Text)
    → read_up_to limit f ≡ ok bytes
    → (bytes ≡ f.bytes) × (f.fault ≡ none) × (length bytes ≤ limit)
unfolding read_up_to
read_up_to_whole limit f bytes h = ground (arith, length-take (limit + 1) f.bytes)

-- The bytes that `readAll` returns are the whole content of the file, whose reading met no fault, and
-- are no more than the limit.
pub read_all_whole :
    (f : File) (data_read : Text)
    → read_all f ≡ ok data_read
    → (data_read ≡ f.bytes) × (f.fault ≡ none) × (length data_read ≤ max_read_size)
unfolding read_all
read_all_whole f data_read h = read_up_to_whole max_read_size f data_read h

-- What holds of a path in a layer with this metadata: it is confined to the root, unless the layer is
-- not on disk or has no root.
abbrev pub ConfinedTo : (Text → Result Text) → Text → Option LayerMeta → Type 0
ConfinedTo eval_symlinks name none = Unit
ConfinedTo eval_symlinks name (some m) =
    (m.is_disk ≡ false) ⊎ (is_empty m.root_path ≡ true) ⊎ Confined eval_symlinks m.root_path name

-- The layers read the directories that their metadata names: a path that a layer on disk opens exists
-- below its root.
abbrev pub IsBacked : (Text → Result Text) → Text → Overlay → Type 0
IsBacked eval_symlinks name o =
    (i : ℕ) (m : LayerMeta) (l : Layer) (f : File)
    → get_elem? o.metas i ≡ some m
    → m.is_disk ≡ true
    → get_elem? o.layers i ≡ some l
    → l.open_file name ≡ ok f
    → eval_symlinks (join m.root_path name) ≡ err not_exist
    → ⊥

check_layer-ConfinedTo :
    (eval_symlinks : Text → Result Text) (name : Text) (o : Overlay) (i : ℕ) (l : Layer) (f : File)
    → IsBacked eval_symlinks name o
    → get_elem? o.layers i ≡ some l
    → l.open_file name ≡ ok f
    → check_layer eval_symlinks o.metas i name ≡ none
    → ConfinedTo eval_symlinks name (get_elem? o.metas i)
check_layer-ConfinedTo eval_symlinks name o i l f backed at opened h =
    elim (Option-cases (get_elem? o.metas i)) [
      | inl e ↦ rw e tt
      | inr (m, e) ↦ rw e (elim (Bool-cases m.is_disk) [
        | inr memory ↦ inl memory
        | inl disk ↦ elim (Bool-cases (is_empty m.root_path)) [
          | inl bare ↦ inr (inl bare)
          | inr rooted ↦ inr (
              inr (
                check_symlink_safe-Confined eval_symlinks m.root_path name rooted
                  (backed i m l f e disk at opened) (ground arith)))
        ]
      ])
    ]

-- A handle that Open returns, in an overlay whose cache is consistent and sound, is the file of the
-- first layer that has the path. If that layer is on disk and has a root, then the path resolves to the
-- root or to a path below it that has no .git in it. The layers are taken to read the directories that
-- their metadata names, which ReplaceLayer can break.
pub open_path-Confined :
    (eval_symlinks : Text → Result Text) (name : Text) (o : Overlay) (a : Handle)
    → IsConsistent o
    → IsSound o
    → IsBacked eval_symlinks name o
    → (open_path eval_symlinks name o).0 ≡ ok a
    → (s : Serves eval_symlinks (handle_of o.metas) o.metas name o.layers a) × ConfinedTo
        eval_symlinks name
        (get_elem? o.metas s.layer)
open_path-Confined eval_symlinks name o a c h backed e =
    let (valid, plain) = accepted eval_symlinks name o a e in
    let s = (open_path-Serves eval_symlinks name o c h valid plain a).0 e in
    (
      s,
      check_layer-ConfinedTo eval_symlinks name o s.layer s.fs s.file backed s.at s.opened
          s.checked,
    )
