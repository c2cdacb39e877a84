-- ===== src/Overlay/Cache/Sound.antt =====
-- Soundness of the negative cache: an entry for a path says that no layer above the first candidate
-- has the path. Every operation keeps it, and a store of a resolver that was overtaken by a change of
-- a layer is dropped.
use blogflow.Base.{
  subst, ℕ, zero, suc, ◌≤◌, ◌≡◌, ◌∙◌, sym, true, false, nat_eq, list_eq, ◌==◌, eq_of_beq, some,
  none, Option, arith, List, [], ◌∷◌, set, Bool-cases, inl, inr,
}
use blogflow.Base.Text.{Text}
use blogflow.Base.Int.{ℤ, pos, pos_part, leb_ℤ}
use blogflow.Overlay.Layers.{Layer, err, not_exist}
use blogflow.Overlay.Shard.Prune.{survive}
use blogflow.Overlay.Cache.{
  with_shard, Overlay, neg_cache_lookup, neg_cache_store, invalidate_layer, invalidate_all,
  replace_layer,
}
use blogflow.Overlay.Cache.Invariant.{IsConsistent, set_layers-IsConsistent}
use blogflow.Overlay.Cache.Steps.{
  remembers, remembers-neg_cache_lookup, remembers-store_self, remembers-store_other,
}
use blogflow.Overlay.Cache.Invalidate.{
  remembers-invalidate_layer, invalidate_layer-layers, remembers-replace_layer,
  replace_layer-layers, remembers-invalidate_all,
}

-- The first `n` layers do not have the path.
abbrev pub Lacks : Text → ℕ → List Layer → Type 0
Lacks name zero ls = Unit
Lacks name (suc n) [] = Unit
Lacks name (suc n) (l ∷ ls) = (l.open_file name ≡ err not_exist) × Lacks name n ls

pub record IsSound (o : Overlay) : Type 0 where
  pub sound : (name : Text) (first : ℕ) → remembers name o ≡ some first → Lacks name first o.layers

pub neg_cache_lookup-IsSound :
    (name : Text) (o : Overlay) → IsSound o → IsSound (neg_cache_lookup name o).1
unfolding neg_cache_lookup
neg_cache_lookup-IsSound name o h = record {
  sound = λ q first e. h.sound q first (sym (remembers-neg_cache_lookup name q o) ∙ e);
}

pub neg_cache_store-layers :
    (name : Text) (first gen : ℕ) (o : Overlay)
    → (neg_cache_store name first gen o).layers ≡ o.layers
unfolding neg_cache_store with_shard
neg_cache_store-layers name first gen o = ground arith

-- What a path is remembered by after it was stored.
store_self :
    (name : Text) (first gen n : ℕ) (o : Overlay)
    → IsConsistent o
    → ((o.gen == gen) ≡ true → Lacks name first o.layers)
    → IsSound o
    → remembers name (neg_cache_store name first gen o) ≡ some n
    → Lacks name n o.layers
store_self name first gen n o c truth h e =
    let e' = sym (remembers-store_self name first gen o c) ∙ e in
    elim (Bool-cases (o.max_entries == 0)) [
      | inl off ↦ h.sound name n (ground arith)
      | inr on ↦ elim (Bool-cases (o.gen == gen)) [
        | inr stale ↦ h.sound name n (ground arith)
        | inl current ↦ subst (λ k. Lacks name k o.layers) (ground arith) (truth current)
      ]
    ]

-- A store is sound if it tells the truth about the layers that are current, or is out of date.
pub neg_cache_store-IsSound :
    (name : Text) (first gen : ℕ) (o : Overlay)
    → IsConsistent o
    → ((o.gen == gen) ≡ true → Lacks name first o.layers)
    → IsSound o
    → IsSound (neg_cache_store name first gen o)
neg_cache_store-IsSound name first gen o c truth h = record {
  sound = λ q n e. rw (neg_cache_store-layers name first gen o) (elim (Bool-cases (name == q)) [
    | inr differ ↦ elim (remembers-store_other name q first gen o c differ) [
      | inl gone ↦ absurd (cc)
      | inr same ↦ h.sound q n (sym same ∙ e)
    ]
    | inl same ↦
        subst (λ k. remembers k (neg_cache_store name first gen o) ≡ some n → Lacks k n o.layers)
          (eq_of_beq name q same) (store_self name first gen n o c truth h) e
  ]);
}

Lacks-set :
    (name : Text) (i n : ℕ) (l : Layer) (ls : List Layer)
    → n ≤ i
    → Lacks name n ls
    → Lacks name n (set ls i l)
Lacks-set name i zero l ls h k = tt
Lacks-set name i (suc n) l [] h k = tt
Lacks-set name zero (suc n) l (x ∷ ls) h k = absurd (omega arith)
Lacks-set name (suc i) (suc n) l (x ∷ ls) h (here, k) =
    (here, Lacks-set name i n l ls (omega arith) k)

-- What survives the invalidation of a layer is an entry that says nothing of that layer.
survive-some :
    (layer : ℤ) (o : Option ℕ) (first : ℕ)
    → survive layer o ≡ some first
    → (o ≡ some first) × (leb_ℤ layer (pos first) ≡ false)
survive-some layer none first h = absurd (cc)
survive-some layer (some n) first h = ground arith

first_below : (layer : ℤ) (first : ℕ) → leb_ℤ layer (pos first) ≡ false → first ≤ pos_part layer
first_below layer first h = ground arith

pub invalidate_all-IsSound : (o : Overlay) → IsSound (invalidate_all o)
invalidate_all-IsSound o = record {
  sound = λ q first e. absurd (cc (remembers-invalidate_all q o));
}

-- The files of one layer may change in any way on disk: if the cache was consistent and sound before
-- the change, then it is sound after the layer is invalidated.
pub invalidate_layer-IsSound :
    (i : ℕ) (l : Layer) (o : Overlay)
    → IsConsistent o
    → IsSound o
    → IsSound (invalidate_layer (pos i) (record o { layers = set o.layers i l }))
invalidate_layer-IsSound i l o c h = record {
  sound = λ q first e.
      let (was, below) =
        survive-some (pos i) _ first (sym (remembers-invalidate_layer (pos i) q changed c') ∙ e) in
      rw (invalidate_layer-layers (pos i) changed)
        (Lacks-set q i first l o.layers (first_below (pos i) first below) (h.sound q first was));
}
  where
    changed : Overlay
    changed = record o { layers = set o.layers i l }

    c' : IsConsistent changed
    c' = set_layers-IsConsistent o (set o.layers i l) c

-- Where `ReplaceLayer` succeeds on an overlay with a consistent and sound cache, the cache is sound
-- for the new layers.
pub replace_layer-IsSound :
    (layer : ℤ) (l : Layer) (o o' : Overlay)
    → replace_layer layer l o ≡ some o'
    → IsConsistent o
    → IsSound o
    → IsSound o'
replace_layer-IsSound layer l o o' done c h = record {
  sound = λ q first e.
      let (was, below) =
        survive-some layer _ first (sym (remembers-replace_layer layer l o o' done q c) ∙ e) in
      rw (replace_layer-layers layer l o o' done) (
        Lacks-set q (pos_part layer) first l o.layers (first_below layer first below)
          (h.sound q first was));
}
