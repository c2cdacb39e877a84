-- ===== src/Gitops/Sparse/Elements.antt =====
-- internal/gitops/pull.go: the elements that `path.Clean` keeps.
use blogflow.Base.{
  ◌||◌, list_beq_iff, true, list_beq, append-nil, Bool, false, List, [], ◌∷◌, ◌++◌, ◌==◌, list_eq,
  nat_eq, ◌≡◌, ◌⊎◌, inl, inr, All, All-append, Bool-cases, arith, ap, sym, ◌∙◌, append_assoc,
}
use blogflow.Base.Text.{Text, codes, is_empty, split_from}
use blogflow.Gitops.Sparse.{clean_element, clean_elements}

-- An element that names something below the directory it is resolved in.
abbrev pub IsName : Text → Type 0
IsName e = (is_empty e ≡ false) × ((e == codes ".") ≡ false) × ((e == codes "..") ≡ false)

-- No slash in it.
abbrev pub IsElement : Text → Type 0
IsElement e = All (λ c. (c == b'/') ≡ false) e

pub split_from-IsElement : (cur s : Text) → IsElement cur → All IsElement (split_from b'/' cur s)
unfolding split_from
split_from-IsElement cur [] h = (h, tt)
split_from-IsElement cur (c ∷ s) h = elim (Bool-cases (c == b'/')) [
  | inl slash ↦ rw slash (h, split_from-IsElement [] s tt)
  | inr other ↦ rw other (
      split_from-IsElement (cur ++ c ∷ []) s
        (All-append (λ x. (x == b'/') ≡ false) cur (c ∷ []) h (other, tt)))
]

-- An element before the rest of a text goes to the part that is being read.
pub split_from-element :
    (cur e s : Text) → IsElement e → split_from b'/' cur (e ++ s) ≡ split_from b'/' (cur ++ e) s
unfolding split_from
split_from-element cur [] s h = ap (λ t. split_from b'/' t s) (sym (append-nil cur))
split_from-element cur (c ∷ e) s (other, h) = rw other (
    split_from-element (cur ++ c ∷ []) e s h
    ∙ ap (λ t. split_from b'/' t s) (append_assoc cur (c ∷ []) e))

-- What is kept: names, or names above two dots.
abbrev pub Rises : List Text → Type 0
Rises out = (rest : List Text) × (out ≡ rest ++ codes ".." ∷ [])

abbrev pub IsKept : List Text → Type 0
IsKept out = All IsName out ⊎ Rises out

clean_element-IsElement :
    (rooted : Bool) (out : List Text) (e : Text)
    → All IsElement out
    → IsElement e
    → All IsElement (clean_element rooted out e)
unfolding clean_element
clean_element-IsElement rooted [] e hs h = ground arith
clean_element-IsElement rooted (d ∷ out) e (hd, hs) h = ground arith

pub clean_elements-IsElement :
    (rooted : Bool) (out l : List Text)
    → All IsElement out
    → All IsElement l
    → All IsElement (clean_elements rooted out l)
unfolding clean_elements
clean_elements-IsElement rooted out [] hs h = hs
clean_elements-IsElement rooted out (e ∷ l) hs (he, h) =
    clean_elements-IsElement rooted (clean_element rooted out e) l
      (clean_element-IsElement rooted out e hs he) h

is_dots : (e : Text) → (e == codes "..") ≡ true → e ≡ codes ".."
is_dots e h = (list_beq_iff e (codes "..")).0 h

not_names-Rises : (rest : List Text) → All IsName (rest ++ codes ".." ∷ []) → ⊥
unfolding list_beq
not_names-Rises [] ((_, _, dots), _) = absurd (cc)
not_names-Rises (e ∷ rest) (_, h) = not_names-Rises rest h

dots_first : (d : Text) (out : List Text) → d ∷ out ≡ codes ".." ∷ [] → (d == codes "..") ≡ true
dots_first d out e = (list_beq_iff d (codes "..")).1 (ground (arith, e))

rest_of : (d r : Text) (out rest : List Text) → d ∷ out ≡ r ∷ rest → out ≡ rest
rest_of d r out rest e = ground (arith, e)

IsKept-above :
    (e d : Text) (out : List Text)
    → (d == codes "..") ≡ true
    → IsKept (d ∷ out)
    → IsKept (e ∷ d ∷ out)
IsKept-above e d out above (inl ((_, _, below), _)) = absurd (cc)
IsKept-above e d out above (inr (rest, h)) = inr (e ∷ rest, ap (◌∷◌ e) h)

IsKept-tail :
    (d : Text) (out : List Text) → (d == codes "..") ≡ false → IsKept (d ∷ out) → IsKept out
IsKept-tail d out below (inl (_, names)) = inl names
IsKept-tail d out below (inr ([], e)) = absurd (cc (below, dots_first d out e))
IsKept-tail d out below (inr (r ∷ rest, e)) =
    inr (rest, rest_of d r out (rest ++ codes ".." ∷ []) e)

IsKept-push : (e : Text) (out : List Text) → IsName e → IsKept out → IsKept (e ∷ out)
IsKept-push e out name (inl names) = inl (name, names)
IsKept-push e out name (inr (rest, h)) = inr (e ∷ rest, ap (◌∷◌ e) h)

clean_element-IsKept :
    (out : List Text) (e : Text) → IsKept out → IsKept (clean_element false out e)
unfolding clean_element
clean_element-IsKept [] e kept = elim (Bool-cases (is_empty e || e == codes ".")) [
  | inl nothing ↦ rw nothing kept
  | inr something ↦ elim (Bool-cases (e == codes "..")) [
    | inl up ↦ rw (something, up) (inr ([], ap (λ x. x ∷ []) (is_dots e up)))
    | inr down ↦ rw (something, down) (IsKept-push e [] (ground arith, ground arith, down) kept)
  ]
]
clean_element-IsKept (d ∷ out) e kept = elim (Bool-cases (is_empty e || e == codes ".")) [
  | inl nothing ↦ rw nothing kept
  | inr something ↦ elim (Bool-cases (e == codes "..")) [
    | inl up ↦ elim (Bool-cases (d == codes "..")) [
      | inl above ↦ rw (something, up, above) (IsKept-above e d out above kept)
      | inr below ↦ rw (something, up, below) (IsKept-tail d out below kept)
    ]
    | inr down ↦
        rw (something, down) (IsKept-push e (d ∷ out) (ground arith, ground arith, down) kept)
  ]
]

pub clean_elements-IsKept : (out l : List Text) → IsKept out → IsKept (clean_elements false out l)
unfolding clean_elements
clean_elements-IsKept out [] kept = kept
clean_elements-IsKept out (e ∷ l) kept =
    clean_elements-IsKept (clean_element false out e) l (clean_element-IsKept out e kept)
