-- ===== src/Overlay/Info.antt =====
-- `Resolve` of internal/overlayfs/overlayfs.go: which layer serves a path. It asks every layer from
-- the top, without the cache.
use blogflow.Base.{ℕ, ◌≡◌, not, List, if◌then◌else◌, none, some, get_elem?, arith, refl, ◌++◌}
use blogflow.Base.Text.{Text, codes}
use blogflow.Overlay.Paths.{valid_path, has_git_component}
use blogflow.Overlay.Layers.{invalid, permission, Result, ok, err, Handle}
use blogflow.Overlay.Cache.{Overlay}
use blogflow.Overlay.Cache.Invariant.{IsConsistent}
use blogflow.Overlay.Cache.Sound.{IsSound}
use blogflow.Overlay.Resolve.{Outcome, hit, fault, scan, open_attempt, open_path, handle_of}
use blogflow.Overlay.Resolve.Serves.{
  Serves, open_attempt-Faithful, open_path-Serves, Finds-scan, found-open_attempt, accepted,
}

pub record Resolution : Type 0 where
  pub path : Text
  pub layer_index : ℕ
  pub layer_name : Text

-- `fmt.Sprintf("layer-%d", i)`, for the decimal digits of the index, is used where the overlay has
-- no name for a layer.
module _ (decimal : ℕ → Text) (eval_symlinks : Text → Result Text) where
  unfoldable pub layer_name : List Text → ℕ → Text
  layer_name names i = elim (get_elem? names i) [ none ↦ codes "layer-" ++ decimal i | some n ↦ n ]

  -- The loop of `resolveInfo`, which closes each file that it opens.
  unfoldable pub probe : Text → Overlay → Outcome (Unit {0})
  unfolding scan open_attempt
  probe name o = scan (open_attempt eval_symlinks (λ _ _. ok tt) o.metas name) 0 o.layers

  unfoldable pub resolve_info : Text → Overlay → Result Resolution
  unfolding layer_name probe
  resolve_info name o =
      if not (valid_path name)
      then err invalid
      else if has_git_component name
      then err permission
      else elim (probe name o) [
        | fault e ↦ err e
        | hit i _ ↦
            ok (record { path = name; layer_index = i; layer_name = layer_name o.layer_names i })
      ]

  probe-Serves :
      (name : Text) (o : Overlay) (a : Handle)
      (s : Serves eval_symlinks (handle_of o.metas) o.metas name o.layers a)
      → probe name o ≡ hit s.layer tt
  unfolding probe
  probe-Serves name o a s =
      Finds-scan (open_attempt eval_symlinks (λ _ _. ok tt) o.metas name) name 0 s.layer s.layer tt
        s.fs o.layers (open_attempt-Faithful eval_symlinks (λ _ _. ok tt) o.metas name 0 o.layers)
        (omega arith) s.at s.above
        (found-open_attempt eval_symlinks (λ _ _. ok tt) o.metas name s.layer s.fs tt s.file
          s.opened s.checked refl)

  -- Where `Open` returns a handle, in an overlay whose cache is consistent and sound, `Resolve` names
  -- the layer that serves it.
  pub resolve_info-open_path :
      (name : Text) (o : Overlay) (a : Handle)
      → IsConsistent o
      → IsSound o
      → (open_path eval_symlinks name o).0 ≡ ok a
      → (s : Serves eval_symlinks (handle_of o.metas) o.metas name o.layers a) × (resolve_info name
            o
          ≡ ok (record {
            path = name;
            layer_index = s.layer;
            layer_name = layer_name o.layer_names s.layer;
          }))
  unfolding resolve_info
  resolve_info-open_path name o a c h e =
      let (valid, plain) = accepted eval_symlinks name o a e in
      let s = (open_path-Serves eval_symlinks name o c h valid plain a).0 e in
      (s, rw (valid, plain, probe-Serves name o a s))
