-- ===== src/Gitops/Sparse/Inside.antt =====
-- internal/gitops/pull.go: the directories that `validateSparseDirs` lets through.
use blogflow.Base.{
  ◌||◌, if◌then◌else◌, subst, refl, true, list_beq, append-nil, false, List, [], ◌∷◌, ◌++◌, ◌==◌,
  list_eq, nat_eq, ◌≡◌, ◌⊎◌, inl, inr, All, Bool-cases, arith, ap, sym, ◌∙◌,
}
use blogflow.Base.Text.{contains, split, has_prefix, Text, codes, is_empty, split_from}
use blogflow.Gitops.Sparse.{
  rejected, and_keep, Validated, validated, validate_sparse_dirs, join, clean, join_onto,
  clean_elements,
}
use blogflow.Gitops.Sparse.Elements.{
  IsName, IsElement, split_from-IsElement, split_from-element, Rises, IsKept,
  clean_elements-IsElement, clean_elements-IsKept,
}

-- A path all of whose elements are names.
abbrev pub IsInside : Text → Type 0
IsInside d = All IsName (split d b'/')

join_onto-IsInside :
    (out : List Text) (s : Text)
    → All IsElement out
    → All IsName out
    → IsInside s
    → IsInside (join_onto out s)
unfolding join_onto split split_from
join_onto-IsInside [] s es names h = h
join_onto-IsInside (e ∷ out) s (he, es) (name, names) h =
    join_onto-IsInside out (e ++ b'/' ∷ s) es names
      (subst (All IsName) (sym (split_from-element [] e (b'/' ∷ s) he)) (name, h))

join-IsInside :
    (out : List Text)
    → is_empty out ≡ false
    → All IsElement out
    → All IsName out
    → IsInside (join out)
unfolding join split split_from
join-IsInside [] some_left es names = absurd (cc some_left)
join-IsInside (e ∷ out) some_left (he, es) (name, names) = join_onto-IsInside out e es names (
    subst (All IsName)
      (sym (ap (split_from b'/' []) (sym (append-nil e)) ∙ split_from-element [] e [] he))
      (name, tt))

-- What the tests of `validateSparseDirs` look for in a path that leaves the directory.
abbrev Leaves : Text → Type 0
Leaves d = ((d == codes "..") ≡ true) ⊎ (has_prefix d (codes "../") ≡ true)

join_onto-Leaves :
    (rest : List Text) (s : Text)
    → has_prefix (join_onto (rest ++ codes ".." ∷ []) s) (codes "../") ≡ true
unfolding join_onto has_prefix
join_onto-Leaves [] s = refl
join_onto-Leaves (e ∷ rest) s = join_onto-Leaves rest (e ++ b'/' ∷ s)

join-Leaves : (out : List Text) → Rises out → Leaves (join out)
unfolding join list_beq
join-Leaves out ([], e) = subst (λ o. Leaves (join o)) (sym e) (inl refl)
join-Leaves out (r ∷ rest, e) = subst (λ o. Leaves (join o)) (sym e) (inr (join_onto-Leaves rest r))

-- What `path.Clean` comes to.
data Cleaned (d : Text) : Type 0 where
  absolute : has_prefix d (codes "/") ≡ true → Cleaned d
  here : (d == codes ".") ≡ true → Cleaned d
  leaving : Leaves d → Cleaned d
  inside : IsInside d → Cleaned d

join-Cleaned :
    (out : List Text)
    → All IsElement out
    → IsKept out
    → Cleaned (if is_empty out then codes "." else join out)
unfolding list_beq
join-Cleaned [] es kept = here refl
join-Cleaned (e ∷ out) es (inl names) = inside (join-IsInside (e ∷ out) refl es names)
join-Cleaned (e ∷ out) es (inr rises) = leaving (join-Leaves (e ∷ out) rises)

clean-Cleaned : (s : Text) → Cleaned (clean s)
unfolding clean
clean-Cleaned s = elim (Bool-cases (has_prefix s (codes "/"))) [
  | inl rooted ↦ rw rooted (absolute refl)
  | inr relative ↦ rw relative (
      join-Cleaned (clean_elements false [] (split s b'/'))
        (clean_elements-IsElement false [] (split s b'/') tt (split_from-IsElement [] s tt))
        (clean_elements-IsKept [] (split s b'/') (inl tt)))
]

validated_unique : (l m : List Text) → validated l ≡ validated m → l ≡ m
validated_unique l m h = cc

and_keep-validated :
    (d : Text) (v : Validated) (l : List Text)
    → and_keep d v ≡ validated l
    → (m : List Text) × (v ≡ validated m) × (d ∷ m ≡ l)
and_keep-validated d (validated m) l h = (m, refl, validated_unique (d ∷ m) l h)
and_keep-validated d (rejected e) l h = absurd (cc)

passed-IsInside :
    (d : Text)
    → Cleaned d
    → (d == codes "." || is_empty d) ≡ false
    → has_prefix d (codes "/") ≡ false
    → (d == codes ".." || has_prefix d (codes "../") || contains d (codes "/../")) ≡ false
    → IsInside d
passed-IsInside d (absolute e) kept relative below = absurd (cc)
passed-IsInside d (here e) kept relative below = absurd (ground arith)
passed-IsInside d (leaving (inl e)) kept relative below = absurd (ground arith)
passed-IsInside d (leaving (inr e)) kept relative below = absurd (ground arith)
passed-IsInside d (inside h) kept relative below = h

-- When validateSparseDirs accepts a list of directories, each of those that it returns is a path whose
-- elements are names: none of them is empty, "." or "..".
pub validate_sparse_dirs-IsInside :
    (dirs l : List Text) → validate_sparse_dirs dirs ≡ validated l → All IsInside l
unfolding validate_sparse_dirs
validate_sparse_dirs-IsInside [] l h = subst (All IsInside) (validated_unique [] l h) tt
validate_sparse_dirs-IsInside (d ∷ dirs) l h =
    elim (Bool-cases (clean d == codes "." || is_empty (clean d))) [
      | inl skipped ↦ validate_sparse_dirs-IsInside dirs l (ground (arith, h))
      | inr kept ↦ elim (Bool-cases (has_prefix (clean d) (codes "/"))) [
        | inl rooted ↦ absurd (ground (arith, h))
        | inr relative ↦
            elim (Bool-cases (
              clean d == codes ".."
              || has_prefix (clean d) (codes "../")
              || contains (clean d) (codes "/../"))) [
                | inl up ↦ absurd (ground (arith, h))
                | inr below ↦
                    let (m, valid, e) =
                      and_keep-validated (clean d) (validate_sparse_dirs dirs) l
                        (ground (arith, h)) in
                    subst (All IsInside) e (
                      passed-IsInside (clean d) (clean-Cleaned d) kept relative below,
                      validate_sparse_dirs-IsInside dirs m valid,
                    )
              ]
      ]
    ]
