-- ===== src/Overlay/Layers.antt =====
-- The file systems that an overlay is made of (io/fs), and the checks of internal/overlayfs on what
-- a layer returns. What the operating system answers is an argument.
use blogflow.Base.{
  refl, inr, inl, ◌⊎◌, ◌≡◌, ℕ, ◌+◌, ◌*◌, Bool, true, false, ◌&&◌, not, List, ◌∷◌, ◌++◌, leb, ltb,
  if◌then◌else◌, nat_eq, list_eq, ◌==◌, Option, none, some, length, take, drop, get_elem?,
}
use blogflow.Base.Text.{Text, codes, is_empty, has_prefix}
use blogflow.Overlay.Paths.{has_git_component}

-- The classes that `errors.Is` tells apart: `fs.ErrInvalid`, `fs.ErrPermission`, `fs.ErrNotExist`,
-- the end of a directory, and any other error.
pub data FsError : Type 0 where
  invalid permission not_exist end_of_file too_large : FsError
  other : ℕ → FsError

pub data Result {ℓ} (A : Type ℓ) : Type ℓ where
  ok : A → Result A
  err : FsError → Result A

pub Result-cases {ℓ} :
    {A : Type ℓ} (r : Result A) → ((a : A) × (r ≡ ok a)) ⊎ ((e : FsError) × (r ≡ err e))
Result-cases (ok a) = inl (a, refl)
Result-cases (err e) = inr (e, refl)

abbrev pub is_not_exist : FsError → Bool
is_not_exist FsError.not_exist = true
is_not_exist _ = false

pub record DirEntry : Type 0 where
  pub name : Text
  pub is_dir : Bool

pub record FileInfo : Type 0 where
  pub size : ℕ
  pub is_dir : Bool

-- An open file: the bytes that reads deliver and the fault that ends them, if any; for a directory
-- that can be listed, its entries.
pub record File : Type 0 where
  pub bytes : Text
  pub fault : Option FsError
  pub info : Result FileInfo
  pub entries : Option (List DirEntry)

-- A value of type `fs.FS`. `stat` is there if the value implements `fs.StatFS`.
pub record Layer : Type 0 where
  pub open_file : Text → Result File
  pub read_dir : Text → Result (List DirEntry)
  pub stat : Option (Text → Result FileInfo)

pub record LayerMeta : Type 0 where
  pub root_path : Text
  pub is_disk : Bool

-- `filepath.Join(root, name)` for a root that `filepath.EvalSymlinks` returned and a valid name.
pub join : Text → Text → Text
join root name =
    if name == codes "."
    then root
    else if root == codes "/"
    then root ++ name
    else root ++ b'/' ∷ name

-- `filepath.Rel(root, resolved)` for a path that lies under the root.
unfoldable pub rel : Text → Text → Text
rel root resolved = if resolved == root then codes "." else drop (length root + 1) resolved

-- `filepath.EvalSymlinks`, of the operating system.
module _ (eval_symlinks : Text → Result Text) where
  -- `none` is the nil error.
  unfoldable pub check_symlink_safe : Text → Text → Option FsError
  unfolding join rel has_prefix
  check_symlink_safe root name =
      if is_empty root
      then none
      else if has_git_component name
      then some permission
      else elim (eval_symlinks (join root name)) [
        | err e ↦ if is_not_exist e then none else some e
        | ok resolved ↦
            if not (has_prefix resolved (root ++ codes "/")) && not (resolved == root)
            then some invalid
            else if has_git_component (rel root resolved)
            then some permission
            else none
      ]

  abbrev pub check_layer : List LayerMeta → ℕ → Text → Option FsError
  check_layer metas i name = elim (get_elem? metas i) [
    | none ↦ none
    | some m ↦ if m.is_disk then check_symlink_safe m.root_path name else none
  ]

abbrev pub max_read_size : ℕ
max_read_size = 64 * 1024 * 1024

-- `io.ReadAll(io.LimitReader(f, n))`
read_limited : ℕ → File → Result Text
read_limited n f =
    if leb n (length f.bytes)
    then ok (take n f.bytes)
    else elim f.fault [ none ↦ ok f.bytes | some e ↦ err e ]

-- The body of `readAll`, for any limit.
unfoldable pub read_up_to : ℕ → File → Result Text
unfolding read_limited
read_up_to limit f = elim (read_limited (limit + 1) f) [
  | err e ↦ err e
  | ok bytes ↦ if ltb limit (length bytes) then err too_large else ok bytes
]

unfoldable pub read_all : File → Result Text
read_all f = read_up_to max_read_size f

-- What `Open` hands out: the file, and whether it is wrapped in `gitHidingDir`.
pub record Handle : Type 0 where
  pub file : File
  pub hides_git : Bool

unfoldable pub hide_git_in_dir : File → Handle
hide_git_in_dir f = elim f.entries [
  | none ↦ record { file = f; hides_git = false }
  | some _ ↦ elim f.info [
    | err _ ↦ record { file = f; hides_git = false }
    | ok info ↦ record { file = f; hides_git = info.is_dir }
  ]
]
