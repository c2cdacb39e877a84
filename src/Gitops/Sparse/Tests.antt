-- ===== src/Gitops/Sparse/Tests.antt =====
-- Runs of `path.Clean` and `validateSparseDirs` (internal/gitops/pull.go), and its theorem at a small input.
use blogflow.Base.{◌≡◌, refl, List, [], ◌∷◌, list_beq, All}
use blogflow.Base.Text.{Text, codes}
use blogflow.Gitops.Sparse.{clean, validate_sparse_dirs, validated, rejected, traverses}
use blogflow.Gitops.Sparse.Inside.{IsInside, validate_sparse_dirs-IsInside}

cleaned : clean (codes "a//b/./../c/") ≡ codes "a/c"
unfolding clean list_beq
cleaned = refl

climbs : clean (codes "../../a/../..") ≡ codes "../../.."
unfolding clean list_beq
climbs = refl

from_the_root : clean (codes "/../a") ≡ codes "/a"
unfolding clean list_beq
from_the_root = refl

abbrev some_dirs : List Text
some_dirs = codes "posts//drafts/" ∷ codes "./" ∷ codes "a/../pages" ∷ []

abbrev clean_dirs : List Text
clean_dirs = codes "posts/drafts" ∷ codes "pages" ∷ []

accepts : validate_sparse_dirs some_dirs ≡ validated clean_dirs
unfolding validate_sparse_dirs list_beq
accepts = refl

refuses :
    validate_sparse_dirs (codes "posts" ∷ codes "a/../../etc" ∷ [])
    ≡ rejected (traverses (codes "../etc"))
unfolding validate_sparse_dirs list_beq
refuses = refl

validate_sparse_dirs-IsInside_example : All IsInside clean_dirs
validate_sparse_dirs-IsInside_example = validate_sparse_dirs-IsInside some_dirs clean_dirs accepts
