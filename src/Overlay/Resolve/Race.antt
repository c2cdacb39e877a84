-- ===== src/Overlay/Resolve/Race.antt =====
-- Resolvers and changes of the layers interleave: whatever steps come between a resolver's snapshot
-- and its end, the cache stays sound.
use blogflow.Base.{
  ℕ, suc, ◌+◌, ◌%◌, ◌^◌, ◌≤◌, ◌<◌, ◌≡◌, refl, ◌∙◌, true, nat_eq, ◌==◌, eq_of_beq, some, arith, set,
  ◌⊎◌, inl, inr,
}
use blogflow.Base.Text.{Text}
use blogflow.Base.Int.{ℤ, pos}
use blogflow.Overlay.Layers.{Layer}
use blogflow.Overlay.Cache.{
  Overlay, neg_cache_lookup, neg_cache_store, invalidate_layer, invalidate_all, replace_layer,
}
use blogflow.Overlay.Cache.Invariant.{IsConsistent, set_layers-IsConsistent}
use blogflow.Overlay.Cache.Steps.{
  neg_cache_lookup-IsConsistent, neg_cache_store-IsConsistent, neg_cache_store-gen,
}
use blogflow.Overlay.Cache.Invalidate.{
  invalidate_layer-IsConsistent, invalidate_all-IsConsistent, replace_layer-IsConsistent,
  invalidate_layer-gen, replace_layer-gen, invalidate_all-gen,
}
use blogflow.Overlay.Cache.Sound.{
  Lacks, IsSound, neg_cache_lookup-IsSound, neg_cache_store-IsSound, invalidate_layer-IsSound,
  invalidate_all-IsSound, replace_layer-IsSound, neg_cache_store-layers,
}
use blogflow.Overlay.Resolve.{Attempt, snapshot, resolve_from}
use blogflow.Overlay.Resolve.Transparent.{Faithful}
use blogflow.Overlay.Resolve.Keeps.{resolve_from-IsConsistent, resolve_from-IsSound}

-- One step of another goroutine. A change of a layer's files on disk is one step with the
-- invalidation that reports it.
pub data Step (o : Overlay) (o' : Overlay) : Type 0 where
  look : (name : Text) → o' ≡ (neg_cache_lookup name o).1 → Step o o'
  store :
      (name : Text) (first gen : ℕ)
      → ((o.gen == gen) ≡ true → Lacks name first o.layers)
      → o' ≡ neg_cache_store name first gen o
      → Step o o'
  change :
      (i : ℕ) (l : Layer)
      → o' ≡ invalidate_layer (pos i) (record o { layers = set o.layers i l })
      → Step o o'
  replace : (i : ℤ) (l : Layer) → replace_layer i l o ≡ some o' → Step o o'
  clear : o' ≡ invalidate_all o → Step o o'

pub data Steps (o : Overlay) : ℕ → Overlay → Type 0 where
  here : Steps o 0 o
  next : {n : ℕ} {o' o'' : Overlay} → Steps o n o' → Step o' o'' → Steps o (suc n) o''

abbrev pub Holds : Overlay → Type 0
Holds o = IsConsistent o × IsSound o

pub Step-Holds : (o o' : Overlay) → Step o o' → Holds o → Holds o'
Step-Holds o o' (look name e) (c, h) =
    rw e (neg_cache_lookup-IsConsistent name o c, neg_cache_lookup-IsSound name o h)
Step-Holds o o' (store name first gen truth e) (c, h) = rw e (
  neg_cache_store-IsConsistent name first gen o c,
  neg_cache_store-IsSound name first gen o c truth h,
)
Step-Holds o o' (change i l e) (c, h) = rw e (
  invalidate_layer-IsConsistent (pos i) _ (set_layers-IsConsistent o (set o.layers i l) c),
  invalidate_layer-IsSound i l o c h,
)
Step-Holds o o' (replace i l e) (c, h) =
    (replace_layer-IsConsistent i l o o' e c, replace_layer-IsSound i l o o' e c h)
Step-Holds o o' (clear e) _ = rw e (invalidate_all-IsConsistent o, invalidate_all-IsSound o)

-- A step keeps the layers and the generation, or makes a new generation.
Step-gen :
    (o o' : Overlay)
    → Step o o'
    → ((o'.gen ≡ o.gen) × (o'.layers ≡ o.layers)) ⊎ (o'.gen ≡ (o.gen + 1) % 2 ^ 64)
unfolding neg_cache_lookup invalidate_all
Step-gen o o' (look name e) = inl (rw e refl, rw e refl)
Step-gen o o' (store name first gen truth e) =
    inl
      (rw e (neg_cache_store-gen name first gen o), rw e (neg_cache_store-layers name first gen o))
Step-gen o o' (change i l e) = inr (rw e (invalidate_layer-gen (pos i) _))
Step-gen o o' (replace i l e) = inr (replace_layer-gen i l o o' e)
Step-gen o o' (clear e) = inr (rw e (invalidate_all-gen o))

-- How many generations passed, and what that says of the layers.
record Drift (o o' : Overlay) (n : ℕ) : Type 0 where
  bumps : ℕ
  few : bumps ≤ n
  drifted : o'.gen ≡ (o.gen + bumps) % 2 ^ 64
  kept : bumps ≡ 0 → o'.layers ≡ o.layers

module _ (o : Overlay) (word : o.gen < 2 ^ 64) where
  Drift-Step : {n : ℕ} (o' o'' : Overlay) → Drift o o' n → Step o' o'' → Drift o o'' (suc n)
  Drift-Step o' o'' d st = elim (Step-gen o' o'' st) [
    | inl (same_gen, same_layers) ↦ record {
      bumps = d.bumps;
      few = omega (arith, d.few);
      drifted = same_gen ∙ d.drifted;
      kept = λ z. same_layers ∙ d.kept z;
    }
    | inr bumped ↦ record {
      bumps = suc d.bumps;
      few = omega (arith, d.few);
      drifted = omega (arith, bumped, d.drifted);
      kept = λ z. absurd (omega arith);
    }
  ]

  Steps-Drift : {n : ℕ} (o' : Overlay) → Steps o n o' → Drift o o' n
  Steps-Drift o' here = record {
    bumps = 0;
    few = omega arith;
    drifted = omega arith;
    kept = λ _. refl;
  }
  Steps-Drift o'' (next {o' = o'} before st) = Drift-Step o' o'' (Steps-Drift o' before) st

  current-layers :
      (n : ℕ) (o' : Overlay)
      → n < 2 ^ 64
      → Steps o n o'
      → (o'.gen == o.gen) ≡ true
      → o'.layers ≡ o.layers
  current-layers n o' few steps same =
      let d = Steps-Drift o' steps in
      let gens = eq_of_beq o'.gen o.gen same in d.kept (omega (arith, d.few, d.drifted, gens))

Steps-Holds : (o : Overlay) {n : ℕ} (o' : Overlay) → Steps o n o' → Holds o → Holds o'
Steps-Holds o o' here h = h
Steps-Holds o o'' (next {o' = o'} before st) h = Step-Holds o' o'' st (Steps-Holds o o' before h)

-- A resolver took its snapshot of `o`, whose cache is consistent and sound and whose generation fits
-- 64 bits. Fewer than 2^64 steps of other goroutines later, in `o'`, it looks the path up, scans its
-- snapshot and stores what it found; a round of its scan misses the path exactly where the layer
-- lacks it. The cache is then consistent and sound for the layers of `o'`, also where they are no
-- longer the ones that were scanned.
pub resolve_from-IsSound_after-Steps {ℓ} :
    {A : Type ℓ} (attempt : ℕ → Layer → Attempt A) (name : Text) (o o' : Overlay) (n : ℕ)
    → o.gen < 2 ^ 64
    → n < 2 ^ 64
    → Steps o n o'
    → Faithful attempt name 0 o.layers
    → IsConsistent o
    → IsSound o
    → IsConsistent (resolve_from attempt name (snapshot o) o').1
      × IsSound (resolve_from attempt name (snapshot o) o').1
resolve_from-IsSound_after-Steps attempt name o o' n word few steps f c h =
    let (c', h') = Steps-Holds o o' steps (c, h) in
    (
      resolve_from-IsConsistent attempt name (snapshot o) o' c',
      resolve_from-IsSound attempt name (snapshot o) o' c' h' f
          (current-layers o word n o' few steps),
    )
