-- ===== src/Overlay/New/Assembled.antt =====
-- What `NewFromPaths` of internal/overlayfs/overlayfs.go makes.
use blogflow.Base.{
  inr, subst, inl, ◌≡◌, ℕ, suc, refl, ap, true, false, List, [], ◌∷◌, ◌++◌, Option, none, some, map,
  arith, Bool-cases,
}
use blogflow.Base.Text.{Text, codes, is_empty}
use blogflow.Base.Assoc.{lookup}
use blogflow.Overlay.Layers.{Result, ok, Result-cases, FileInfo, Layer, LayerMeta}
use blogflow.Overlay.Cache.{Overlay, neg_cache_len}
use blogflow.Overlay.Cache.Invariant.{IsConsistent}
use blogflow.Overlay.Cache.Invalidate.{empty_count}
use blogflow.Overlay.Cache.Sound.{IsSound}
use blogflow.Overlay.New.{
  memory_meta, present, overwrite, DiskLayer, find_dirs, assemble, new_from_paths,
  new_overlay-IsConsistent,
}

same_dirs : (a b : List DiskLayer) → ok a ≡ ok b → a ≡ b
same_dirs a b e = cc

-- The directories of the paths that are set, in order: each resolves and is a directory.
module _ (eval_symlinks : Text → Result Text) (os_stat : Text → Result FileInfo) where
  pub data Found : List (Text × Text) → List DiskLayer → Type 0 where
    no_more : Found [] []
    unset :
        {name : Text} {paths : List (Text × Text)} {dirs : List DiskLayer}
        → Found paths dirs
        → Found (([], name) ∷ paths) dirs
    set_to :
        {path name resolved : Text} {info : FileInfo} {paths : List (Text × Text)}
        {dirs : List DiskLayer}
        → is_empty path ≡ false
        → eval_symlinks path ≡ ok resolved
        → os_stat resolved ≡ ok info
        → info.is_dir ≡ true
        → Found paths dirs
        → Found ((path, name) ∷ paths) (record { name = name; resolved = resolved } ∷ dirs)

  find_dirs-Found :
      (dir_fs : Text → Layer) (paths : List (Text × Text)) (dirs : List DiskLayer)
      → find_dirs eval_symlinks os_stat dir_fs paths ≡ ok dirs
      → Found paths dirs
  unfolding find_dirs
  find_dirs-Found dir_fs [] dirs h = subst (Found []) (same_dirs [] dirs h) no_more
  find_dirs-Found dir_fs (([], name) ∷ paths) dirs h = unset (find_dirs-Found dir_fs paths dirs h)
  find_dirs-Found dir_fs ((c ∷ path, name) ∷ paths) dirs h =
      elim (Result-cases (eval_symlinks (c ∷ path))) [
        | inr (x, e) ↦ absurd (cc (rw (e, find_dirs) at h))
        | inl (resolved, e) ↦ elim (Result-cases (os_stat resolved)) [
          | inr (x, d) ↦ absurd (cc (rw (e, d, find_dirs) at h))
          | inl (info, d) ↦ elim (Bool-cases info.is_dir) [
            | inr plain ↦ absurd (cc (rw (e, d, plain, find_dirs) at h))
            | inl is_dir ↦ elim (Result-cases (find_dirs eval_symlinks os_stat dir_fs paths)) [
              | inr (x, r) ↦ absurd (cc (rw (e, d, is_dir, r, find_dirs) at h))
              | inl (rest, r) ↦
                  subst (Found ((c ∷ path, name) ∷ paths))
                    (same_dirs (record { name = name; resolved = resolved } ∷ rest) dirs
                      (rw (e, d, is_dir, r, find_dirs) at h))
                    (set_to refl e d is_dir (find_dirs-Found dir_fs paths rest r))
            ]
          ]
        ]
      ]

abbrev disk_meta : DiskLayer → LayerMeta
disk_meta d = record { root_path = d.resolved; is_disk = true }

-- The embedded defaults at the bottom, if there are any, and what is recorded for them.
abbrev defaults_list {ℓ} : {A : Type ℓ} → A → Option Layer → List A
defaults_list a none = []
defaults_list a (some l) = a ∷ []

abbrev bottom : Option Layer → List Layer
bottom none = []
bottom (some l) = l ∷ []

-- The loop of `NewOverlayFS` over the layers on disk and the defaults.
module _ (dir_fs : Text → Layer) (decimal : ℕ → Text) where
  abbrev all_layers : List DiskLayer → Option Layer → List (Option Layer)
  all_layers dirs none = map (λ d. some (dir_fs d.resolved)) dirs ++ []
  all_layers dirs (some l) = map (λ d. some (dir_fs d.resolved)) dirs ++ some l ∷ []

  present-layers :
      (i : ℕ) (dirs : List DiskLayer) (defaults : Option Layer)
      → map (λ p. p.0) (present decimal i (all_layers dirs defaults))
        ≡ map (λ d. dir_fs d.resolved) dirs ++ bottom defaults
  unfolding present
  present-layers i [] none = refl
  present-layers i [] (some l) = refl
  present-layers i (d ∷ dirs) none = ap (◌∷◌ (dir_fs d.resolved)) (present-layers (suc i) dirs none)
  present-layers i (d ∷ dirs) (some l) =
      ap (◌∷◌ (dir_fs d.resolved)) (present-layers (suc i) dirs (some l))

  present-names :
      (i : ℕ) (dirs : List DiskLayer) (defaults : Option Layer)
      → overwrite
          (map (λ d. d.name) dirs ++ defaults_list (codes "defaults") defaults)
          (map (λ p. p.1) (present decimal i (all_layers dirs defaults)))
        ≡ map (λ d. d.name) dirs ++ defaults_list (codes "defaults") defaults
  unfolding present overwrite
  present-names i [] none = refl
  present-names i [] (some l) = refl
  present-names i (d ∷ dirs) none = ap (◌∷◌ d.name) (present-names (suc i) dirs none)
  present-names i (d ∷ dirs) (some l) = ap (◌∷◌ d.name) (present-names (suc i) dirs (some l))

  present-metas :
      (i : ℕ) (dirs : List DiskLayer) (defaults : Option Layer)
      → overwrite
          (map disk_meta dirs)
          (map (λ _. memory_meta) (present decimal i (all_layers dirs defaults)))
        ≡ map disk_meta dirs ++ defaults_list memory_meta defaults
  unfolding present overwrite
  present-metas i [] none = refl
  present-metas i [] (some l) = refl
  present-metas i (d ∷ dirs) none = ap (◌∷◌ (disk_meta d)) (present-metas (suc i) dirs none)
  present-metas i (d ∷ dirs) (some l) = ap (◌∷◌ (disk_meta d)) (present-metas (suc i) dirs (some l))

-- An overlay of these directories above the defaults, with an empty cache.
pub record IsMade (dir_fs : Text → Layer) (dirs : List DiskLayer) (defaults : Option Layer)
    (o : Overlay) : Type 0 where
  pub layers : o.layers ≡ map (λ d. dir_fs d.resolved) dirs ++ bottom defaults
  pub names : o.layer_names ≡ map (λ d. d.name) dirs ++ defaults_list (codes "defaults") defaults
  pub metas : o.metas ≡ map disk_meta dirs ++ defaults_list memory_meta defaults
  pub empty : neg_cache_len o ≡ 0
  pub consistent : IsConsistent o
  pub sound : IsSound o

module _ (eval_symlinks : Text → Result Text) (os_stat : Text → Result FileInfo)
    (dir_fs : Text → Layer) (decimal : ℕ → Text) where
  assemble-IsMade :
      (dirs : List DiskLayer) (defaults : Option Layer)
      → IsMade dir_fs dirs defaults (assemble eval_symlinks os_stat dir_fs decimal dirs defaults)
  unfolding assemble neg_cache_len lookup
  assemble-IsMade dirs none =
      let c = new_overlay-IsConsistent decimal [] in
      record {
        layers = present-layers dir_fs decimal 0 dirs none;
        names = present-names dir_fs decimal 0 dirs none;
        metas = present-metas dir_fs decimal 0 dirs none;
        empty = empty_count 16;
        consistent = record { valid = c.valid; fits = c.fits; total = c.total };
        sound = record { sound = λ q first e. absurd (cc) };
      }
  assemble-IsMade dirs (some l) =
      let c = new_overlay-IsConsistent decimal [] in
      record {
        layers = present-layers dir_fs decimal 0 dirs (some l);
        names = present-names dir_fs decimal 0 dirs (some l);
        metas = present-metas dir_fs decimal 0 dirs (some l);
        empty = empty_count 16;
        consistent = record { valid = c.valid; fits = c.fits; total = c.total };
        sound = record { sound = λ q first e. absurd (cc) };
      }

  -- The paths of the configuration, as NewFromPaths goes through them.
  abbrev configured : Text → Text → Text → List (Text × Text)
  configured t c g = (t, codes "theme") ∷ (c, codes "content") ∷ (g, codes "config") ∷ []

  -- An overlay that NewFromPaths returns has one layer for each path that is set, in the order theme,
  -- content and configuration: the directory that the path resolves to, under the name of its kind, and
  -- marked as on disk with that root. The embedded defaults, if there are any, are below them, not on
  -- disk. The cache is empty, consistent and sound.
  pub new_from_paths-IsMade :
      (theme_path content_path config_path : Text) (defaults : Option Layer) (o : Overlay)
      → new_from_paths eval_symlinks os_stat dir_fs decimal theme_path content_path config_path
          defaults
        ≡ ok o
      → (dirs : List DiskLayer) × Found eval_symlinks os_stat
          ((theme_path, codes "theme")
            ∷ (content_path, codes "content")
            ∷ (config_path, codes "config")
            ∷ [])
          dirs
        × IsMade dir_fs dirs defaults o
  unfolding new_from_paths
  new_from_paths-IsMade t c g defaults o h =
      elim (Result-cases (find_dirs eval_symlinks os_stat dir_fs (configured t c g))) [
        | inl (dirs, e) ↦
            let made : assemble eval_symlinks os_stat dir_fs decimal dirs defaults ≡ o =
              ground arith in
            (
              dirs,
              find_dirs-Found eval_symlinks os_stat dir_fs (configured t c g) dirs e,
              subst (IsMade dir_fs dirs defaults) made (assemble-IsMade dirs defaults),
            )
        | inr (x, e) ↦ absurd (ground arith)
      ]
