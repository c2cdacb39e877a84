-- ===== src/Overlay/New.antt =====
-- How an overlay is made: `NewOverlayFS`, `WithLayerNames` and `NewFromPaths` of
-- internal/overlayfs/overlayfs.go. `NewFromPaths` runs after its test of the Go version.
pub mod Assembled
use blogflow.Base.{
  inr, subst, inl, ◌≡◌, ℕ, suc, refl, sym, ap, true, false, List, [], ◌∷◌, ◌++◌, if◌then◌else◌,
  Option, none, some, map, arith,
}
use blogflow.Base.Text.{Text, codes, is_empty}
use blogflow.Base.Int.{pos}
use blogflow.Base.Assoc.{lookup}
use blogflow.Overlay.Layers.{other, Result, ok, err, Result-cases, FileInfo, Layer, LayerMeta}
use blogflow.Overlay.Shard.{empty_shard}
use blogflow.Overlay.Cache.{Overlay, neg_cache_len}
use blogflow.Overlay.Cache.Invariant.{IsConsistent}
use blogflow.Overlay.Cache.Invalidate.{empty_count}
use blogflow.Overlay.Cache.Sound.{IsSound}

abbrev memory_meta : LayerMeta
memory_meta = record { root_path = []; is_disk = false }

module _ (decimal : ℕ → Text) where
  -- The loop over the layers that skips the nil ones; a name keeps the index of the argument.
  unfoldable pub present : ℕ → List (Option Layer) → List (Layer × Text)
  present i [] = []
  present i (none ∷ ls) = present (suc i) ls
  present i (some l ∷ ls) = (l, codes "layer-" ++ decimal i) ∷ present (suc i) ls

  unfoldable pub new_overlay : List (Option Layer) → Overlay
  unfolding present
  new_overlay layers =
      let filtered = present 0 layers in
      record {
        layers = map (λ p. p.0) filtered;
        layer_names = map (λ p. p.1) filtered;
        metas = map (λ _. memory_meta) filtered;
        shards = λ _. empty_shard;
        gen = 0;
        size = pos 0;
        max_entries = 100_000;
      }

-- `o.layerNames[i] = n` for the names that have a layer.
unfoldable pub overwrite {ℓ} : {A : Type ℓ} → List A → List A → List A
overwrite [] old = old
overwrite (n ∷ ns) [] = []
overwrite (n ∷ ns) (_ ∷ old) = n ∷ overwrite ns old

unfoldable pub with_layer_names : List Text → Overlay → Overlay
unfolding overwrite
with_layer_names names o = record o { layer_names = overwrite names o.layer_names }

-- A directory of the configuration that was found, with its resolved path.
pub record DiskLayer : Type 0 where
  pub name : Text
  pub resolved : Text

-- `filepath.EvalSymlinks`, `os.Stat` and `os.DirFS`.
module _ (eval_symlinks : Text → Result Text) (os_stat : Text → Result FileInfo)
    (dir_fs : Text → Layer) where
  -- The loop over the configured paths; an empty path has no layer.
  unfoldable pub find_dirs : List (Text × Text) → Result (List DiskLayer)
  find_dirs [] = ok []
  find_dirs ((path, name) ∷ paths) =
      let rest = find_dirs paths in
      if is_empty path then rest else elim (eval_symlinks path) [
        | err e ↦ err e
        | ok resolved ↦ elim (os_stat resolved) [
          | err e ↦ err e
          | ok info ↦
              if info.is_dir
              then elim rest [
                | err e ↦ err e
                | ok dirs ↦ ok (record { name = name; resolved = resolved } ∷ dirs)
              ]
              else err (other 0)
        ]
      ]

  -- The layers on disk, above the embedded defaults, if there are any.
  unfoldable pub assemble : (ℕ → Text) → List DiskLayer → Option Layer → Overlay
  unfolding new_overlay with_layer_names
  assemble decimal dirs defaults =
      let disk = map (λ d. some (dir_fs d.resolved)) dirs in
      let names = map (λ d. d.name) dirs in
      let below : List (Option Layer) = elim defaults [ none ↦ [] | some l ↦ some l ∷ [] ] in
      let below_names : List Text = elim defaults [ none ↦ [] | some _ ↦ codes "defaults" ∷ [] ] in
      let made = with_layer_names (names ++ below_names) (new_overlay decimal (disk ++ below)) in
      record made {
        metas =
            overwrite (map (λ d. record { root_path = d.resolved; is_disk = true }) dirs)
              made.metas;
      }

  unfoldable pub new_from_paths : (ℕ → Text) → Text → Text → Text → Option Layer → Result Overlay
  unfolding find_dirs assemble
  new_from_paths decimal theme_path content_path config_path defaults =
      elim (find_dirs (
        (theme_path, codes "theme")
        ∷ (content_path, codes "content")
        ∷ (config_path, codes "config")
        ∷ [])) [ err e ↦ err e | ok dirs ↦ ok (assemble decimal dirs defaults) ]

-- A new overlay starts with an empty cache, which is consistent and sound.
pub new_overlay-IsConsistent :
    (decimal : ℕ → Text) (ls : List (Option Layer)) → IsConsistent (new_overlay decimal ls)
unfolding new_overlay neg_cache_len
new_overlay-IsConsistent decimal ls = record {
  valid = λ i. record {
    map_distinct = tt;
    list_distinct = tt;
    same_length = refl;
    same_keys = λ k. unfold lookup in refl;
  };
  fits = λ i. omega arith;
  total = ap pos (sym (empty_count 16));
}

pub new_overlay-IsSound :
    (decimal : ℕ → Text) (ls : List (Option Layer)) → IsSound (new_overlay decimal ls)
unfolding new_overlay lookup
new_overlay-IsSound decimal ls = record { sound = λ q first e. absurd (cc) }
