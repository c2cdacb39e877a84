-- ===== src/Overlay/Resolve.antt =====
-- Resolution of a path over the layers (internal/overlayfs/overlayfs.go): `Open`, `ReadFile`, `Stat`
-- and `Resolve`. A resolver takes a snapshot of the layers and of the cache generation, asks the
-- cache where to start, goes down the layers, and stores where the path was found.
pub mod Transparent
pub mod Keeps
pub mod Race
pub mod Serves
use blogflow.Base.{
  ℕ, zero, suc, ◌+◌, Bool, true, false, ◌&&◌, ◌||◌, not, List, [], ◌∷◌, ltb, if◌then◌else◌, nat_eq,
  ◌==◌, Option, none, some, length, drop, get_elem?,
}
use blogflow.Base.Text.{Text}
use blogflow.Overlay.Paths.{valid_path, has_git_component}
use blogflow.Overlay.Layers.{
  FsError, invalid, permission, not_exist, Result, ok, err, is_not_exist, File, FileInfo, Layer,
  LayerMeta, Handle, check_layer, hide_git_in_dir, read_all,
}
use blogflow.Overlay.Cache.{Overlay, neg_cache_lookup, neg_cache_store}

-- What a resolver sees under the read lock.
pub record Snapshot : Type 0 where
  pub layers : List Layer
  pub gen : ℕ

abbrev pub snapshot : Overlay → Snapshot
snapshot o = record { layers = o.layers; gen = o.gen }

-- One round of a resolver's loop: the path is here, it is not in this layer, or the round returns
-- with an error.
pub data Attempt {ℓ} (A : Type ℓ) : Type ℓ where
  found : A → Attempt A
  missing : Attempt A
  failed : FsError → Attempt A

-- How the loop ends, with the layer where the path was found.
pub data Outcome {ℓ} (A : Type ℓ) : Type ℓ where
  hit : ℕ → A → Outcome A
  fault : FsError → Outcome A

-- `for i := startLayer; i < len(layers); i++`
unfoldable pub scan {ℓ} : {A : Type ℓ} → (ℕ → Layer → Attempt A) → ℕ → List Layer → Outcome A
scan attempt i [] = fault not_exist
scan attempt i (l ∷ ls) = elim (attempt i l) [
  | found a ↦ hit i a
  | missing ↦ scan attempt (suc i) ls
  | failed e ↦ fault e
]

-- `startLayer`, from what the cache answered.
unfoldable pub start_layer : Option ℕ → ℕ → ℕ
start_layer none count = 0
start_layer (some first) count = if ltb first count then first else 0

-- `!negCacheHit || i != cachedFirstCandidateLayer`
unfoldable pub is_news : Option ℕ → ℕ → Bool
is_news none i = true
is_news (some first) i = not (i == first)

abbrev pub outcome {ℓ} : {A : Type ℓ} → Outcome A → Result A
outcome (hit _ a) = ok a
outcome (fault e) = err e

-- What the resolver stores when the path was found in layer `i`.
unfoldable pub record_hit {ℓ} : {A : Type ℓ} → Text → Option ℕ → ℕ → Outcome A → Overlay → Overlay
unfolding is_news
record_hit name entry gen (fault e) o = o
record_hit name entry gen (hit i a) o =
    if ltb 0 i && is_news entry i then neg_cache_store name i gen o else o

-- The part that `Open`, `ReadFile` and `Stat` share, from the snapshot on.
unfoldable pub resolve_from {ℓ} :
    {A : Type ℓ} → (ℕ → Layer → Attempt A) → Text → Snapshot → Overlay → Result A × Overlay
unfolding scan start_layer record_hit
resolve_from attempt name snap o =
    let (entry, o1) = neg_cache_lookup name o in
    let start = start_layer entry (length snap.layers) in
    let end = scan attempt start (drop start snap.layers) in
    (outcome end, record_hit name entry snap.gen end o1)

-- The tests on the name with which every operation begins.
unfoldable pub guarded {ℓ} : {A : Type ℓ} → Text → Result A × Overlay → Overlay → Result A × Overlay
guarded name rest o =
    if not (valid_path name)
    then (err invalid, o)
    else if has_git_component name
    then (err permission, o)
    else rest

abbrev is_disk : List LayerMeta → ℕ → Bool
is_disk metas i = elim (get_elem? metas i) [ none ↦ false | some m ↦ m.is_disk ]

-- `Open` (`open` is a reserved word): a handle of a disk layer hides .git.
unfoldable pub handle_of : List LayerMeta → ℕ → File → Result Handle
handle_of metas i f =
    ok (if is_disk metas i then hide_git_in_dir f else record { file = f; hides_git = false })

module _ (eval_symlinks : Text → Result Text) where
  -- `layers[i].Open(name)` and the symlink check, which every operation but `Stat` on an `fs.StatFS`
  -- makes; `use` is what the operation does with the file.
  unfoldable pub open_attempt {ℓ} :
      {A : Type ℓ} → (ℕ → File → Result A) → List LayerMeta → Text → ℕ → Layer → Attempt A
  open_attempt use_file metas name i l = elim (l.open_file name) [
    | err e ↦ if is_not_exist e then missing else failed e
    | ok f ↦ elim (check_layer eval_symlinks metas i name) [
      | some e ↦ failed e
      | none ↦ elim (use_file i f) [ err e ↦ failed e | ok a ↦ found a ]
    ]
  ]

  unfoldable pub open_path : Text → Overlay → Result Handle × Overlay
  unfolding resolve_from guarded open_attempt handle_of
  open_path name o =
      guarded name
        (resolve_from (open_attempt (handle_of o.metas) o.metas name) name (snapshot o) o) o

  unfoldable pub read_file : Text → Overlay → Result Text × Overlay
  unfolding resolve_from guarded open_attempt
  read_file name o =
      guarded name
        (resolve_from (open_attempt (λ _ f. read_all f) o.metas name) name (snapshot o) o) o

  -- A layer that implements `fs.StatFS` is asked after the symlink check; any other is opened.
  unfoldable pub stat_attempt : List LayerMeta → Text → ℕ → Layer → Attempt FileInfo
  unfolding open_attempt
  stat_attempt metas name i l = elim l.stat [
    | none ↦ open_attempt (λ _ f. f.info) metas name i l
    | some stat ↦ elim (check_layer eval_symlinks metas i name) [
      | some e ↦ failed e
      | none ↦ elim (stat name) [
        | ok info ↦ found info
        | err e ↦ if is_not_exist e then missing else failed e
      ]
    ]
  ]

  unfoldable pub stat : Text → Overlay → Result FileInfo × Overlay
  unfolding resolve_from guarded stat_attempt
  stat name o = guarded name (resolve_from (stat_attempt o.metas name) name (snapshot o) o) o
