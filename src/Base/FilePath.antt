-- ===== src/Base/FilePath.antt =====
-- The functions on file paths that the program calls. A path is code points.
use Prim.Native.Nat.{ℕ}
use mathlib.Core.Bool.{Bool, false}
use mathlib.Core.List.{List, [], ◌∷◌}
use blogflow.Base.Tests.{if◌then◌else◌, ◌==◌, nat_eq}
use blogflow.Base.Text.{Text, codes, is_empty, split}

-- `path.Base`, and `filepath.Base` on Unix: the last element, with the slashes behind it left out.
base_from : Text → List Text → Text
base_from found [] = found
base_from found (e ∷ l) = base_from (if is_empty e then found else e) l

unfoldable pub base : Text → Text
unfolding base_from split
base [] = codes "."
base (c ∷ s) = base_from (codes "/") (split (c ∷ s) b'/')

-- `path.Ext` and `filepath.Ext`: from the last dot of the last element.
ext_from : Text → Text → Text
ext_from found [] = found
ext_from found (c ∷ s) = ext_from (if c == b'/' then [] else if c == b'.' then c ∷ s else found) s

unfoldable pub ext : Text → Text
unfolding ext_from
ext s = ext_from [] s

-- `strings.HasSuffix` with one character.
unfoldable pub ends_with : ℕ → Text → Bool
ends_with c [] = false
ends_with c (d ∷ []) = d == c
ends_with c (d ∷ e ∷ s) = ends_with c (e ∷ s)
