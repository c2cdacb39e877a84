-- ===== src/Overlay/Resolve/Transparent.antt =====
-- The negative cache is transparent: a resolver answers what a search of all the layers from the top
-- answers, and that is the file of the first layer that has the path.
use blogflow.Base.{
  ◌⊎◌, ℕ, zero, suc, ◌+◌, ◌≡◌, refl, ◌∙◌, sym, ap, ltb, some, none, Option, length, arith, List, [],
  ◌∷◌, drop, Bool-cases, inl, inr, ◌↔◌,
}
use blogflow.Base.Text.{Text}
use blogflow.Overlay.Layers.{FsError, not_exist, err, Layer}
use blogflow.Overlay.Cache.{Overlay, neg_cache_lookup}
use blogflow.Overlay.Cache.Invariant.{IsConsistent}
use blogflow.Overlay.Cache.Steps.{neg_cache_lookup-remembers}
use blogflow.Overlay.Cache.Sound.{Lacks, IsSound}
use blogflow.Overlay.Resolve.{
  Attempt, found, missing, failed, hit, scan, start_layer, resolve_from, snapshot, outcome,
}

-- A round misses a layer exactly when the layer does not have the path.
abbrev pub Faithful {ℓ} : {A : Type ℓ} → (ℕ → Layer → Attempt A) → Text → ℕ → List Layer → Type ℓ
Faithful attempt name i [] = Unit
Faithful attempt name i (l ∷ ls) =
    ((attempt i l ≡ missing) ↔ (l.open_file name ≡ err not_exist))
    × Faithful attempt name (suc i) ls

pub Attempt-cases {ℓ} :
    {A : Type ℓ} (t : Attempt A)
    → ((a : A) × (t ≡ found a)) ⊎ (t ≡ missing) ⊎ ((e : FsError) × (t ≡ failed e))
Attempt-cases (found a) = inl (a, refl)
Attempt-cases missing = inr (inl refl)
Attempt-cases (failed e) = inr (inr (e, refl))

start_layer-Lacks :
    (name : Text) (entry : Option ℕ) (count : ℕ) (ls : List Layer)
    → ((first : ℕ) → entry ≡ some first → Lacks name first ls)
    → Lacks name (start_layer entry count) ls
unfolding start_layer
start_layer-Lacks name none count ls h = tt
start_layer-Lacks name (some first) count ls h = elim (Bool-cases (ltb first count)) [
  | inl inside ↦ rw (inside, start_layer) (h first refl)
  | inr outside ↦ rw (outside, start_layer) tt
]

module _ {ℓ} {A : Type ℓ} (attempt : ℕ → Layer → Attempt A) (name : Text) where
  -- Layers that lack the path can be skipped.
  pub scan-drop :
      (n i : ℕ) (ls : List Layer)
      → Faithful attempt name i ls
      → Lacks name n ls
      → scan attempt (i + n) (drop n ls) ≡ scan attempt i ls
  unfolding scan
  scan-drop zero i ls f h = ap (λ k. scan attempt k ls) (omega arith)
  scan-drop (suc n) i [] f h = refl
  scan-drop (suc n) i (l ∷ ls) (here, f) (absent, h) =
      rw (here.1 absent, scan)
        (ap (λ k. scan attempt k (drop n ls)) (omega arith) ∙ scan-drop n (suc i) ls f h)

  -- What was found below layers that lack the path.
  pub scan-Lacks :
      (i k : ℕ) (a : A) (ls : List Layer)
      → Faithful attempt name i ls
      → scan attempt i ls ≡ hit k a
      → (n : ℕ) × (k ≡ i + n) × Lacks name n ls
  unfolding scan
  scan-Lacks i k a [] f h = absurd (cc)
  scan-Lacks i k a (l ∷ ls) (here, f) h = elim (Attempt-cases (attempt i l)) [
    | inl (b, e) ↦ (0, ground arith, tt)
    | inr (inl e) ↦
        let (n, at, lacks) = scan-Lacks (suc i) k a ls f (rw (e, scan) at h) in
        (suc n, omega arith, (here.0 e, lacks))
    | inr (inr (b, e)) ↦ absurd (cc (rw (e, scan) at h))
  ]

  pub start-Lacks :
      (o : Overlay)
      → IsConsistent o
      → IsSound o
      → Lacks name (start_layer (neg_cache_lookup name o).0 (length o.layers)) o.layers
  start-Lacks o c h =
      start_layer-Lacks name _ (length o.layers) o.layers
        λ first e. h.sound name first (sym (neg_cache_lookup-remembers name o c) ∙ e)

  pub resolve_from-scan :
      (o : Overlay)
      → IsConsistent o
      → IsSound o
      → Faithful attempt name 0 o.layers
      → (resolve_from attempt name (snapshot o) o).0 ≡ outcome (scan attempt 0 o.layers)
  unfolding resolve_from
  resolve_from-scan o c h f =
      let start = start_layer (neg_cache_lookup name o).0 (length o.layers) in
      ap outcome (
        ap (λ k. scan attempt k (drop start o.layers)) (omega arith)
        ∙ scan-drop start 0 o.layers f (start-Lacks o c h))
