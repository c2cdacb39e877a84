-- ===== src/Gitops/Sparse.antt =====
-- internal/gitops/pull.go: `validateSparseDirs`, with Go's `path.Clean`.
pub mod Elements
pub mod Inside
mod Tests
use blogflow.Base.{
  refl, ◌≡◌, list_beq, Bool, true, false, List, [], ◌∷◌, ◌++◌, ◌||◌, not, if◌then◌else◌, ◌==◌,
  list_eq, nat_eq,
}
use blogflow.Base.Text.{Text, codes, is_empty, split, has_prefix, contains}

-- What `path.Clean` does with one element. `out` is what it has kept, the last element first.
unfoldable pub clean_element : Bool → List Text → Text → List Text
clean_element rooted [] e =
    if is_empty e || e == codes "."
    then []
    else if e == codes ".."
    then (if rooted then [] else e ∷ [])
    else e ∷ []
clean_element rooted (d ∷ out) e =
    if is_empty e || e == codes "."
    then d ∷ out
    else if e == codes ".."
    then (if d == codes ".." then e ∷ d ∷ out else out)
    else e ∷ d ∷ out

unfoldable pub clean_elements : Bool → List Text → List Text → List Text
unfolding clean_element
clean_elements rooted out [] = out
clean_elements rooted out (e ∷ l) = clean_elements rooted (clean_element rooted out e) l

-- The elements, last first, before some text.
unfoldable pub join_onto : List Text → Text → Text
join_onto [] s = s
join_onto (e ∷ out) s = join_onto out (e ++ b'/' ∷ s)

unfoldable pub join : List Text → Text
unfolding join_onto
join [] = []
join (e ∷ out) = join_onto out e

-- `path.Clean`
unfoldable pub clean : Text → Text
unfolding clean_elements join has_prefix split
clean s =
    let rooted = has_prefix s (codes "/") in
    let out = clean_elements rooted [] (split s b'/') in
    if rooted then b'/' ∷ join out else if is_empty out then codes "." else join out

pub data SparseError : Type 0 where
  not_relative traverses : Text → SparseError

pub data Validated : Type 0 where
  validated : List Text → Validated
  rejected : SparseError → Validated

abbrev pub and_keep : Text → Validated → Validated
and_keep d (validated l) = validated (d ∷ l)
and_keep d (rejected e) = rejected e

-- The loop of `validateSparseDirs`
unfoldable pub validate_sparse_dirs : List Text → Validated
unfolding clean has_prefix contains
validate_sparse_dirs [] = validated []
validate_sparse_dirs (d ∷ dirs) =
    let rest = validate_sparse_dirs dirs in
    let d' = clean d in
    if d' == codes "." || is_empty d'
    then rest
    else if has_prefix d' (codes "/")
    then rejected (not_relative d')
    else if d' == codes ".." || has_prefix d' (codes "../") || contains d' (codes "/../")
    then rejected (traverses d')
    else and_keep d' rest
