-- ===== src/Overlay/Cache/Invalidate.antt =====
-- Invalidation: it keeps the cache's invariant and forgets exactly the entries that a change of the
-- layer can make wrong, or all of them.
use blogflow.Base.{
  sym, none, ◌∙◌, ℕ, zero, suc, ◌+◌, ◌%◌, ◌^◌, ◌≡◌, refl, ap, false, nat_eq, list_eq, some, length,
  arith, set,
}
use blogflow.Base.Text.{Text}
use blogflow.Base.Int.{ℤ, pos, pos_part, ltb_ℤ, leb_ℤ}
use blogflow.Overlay.Layers.{Layer}
use blogflow.Base.Assoc.{lookup}
use blogflow.Overlay.Shard.{empty_shard, prune_shard}
use blogflow.Overlay.Shard.Prune.{survive}
use blogflow.Overlay.Cache.{
  invalidate_all, count_entries, shard_count, Overlay, with_shard, prune_shards, bump,
  invalidate_layer, replace_layer, neg_cache_len,
}
use blogflow.Overlay.Cache.Invariant.{IsConsistent, set_layers-IsConsistent}
use blogflow.Overlay.Cache.Steps.{remembers, prune_shards-IsConsistent, remembers-prune_shards}

bump-IsConsistent : (o : Overlay) → IsConsistent o → IsConsistent (bump o)
unfolding bump neg_cache_len
bump-IsConsistent o h = record { valid = h.valid; fits = h.fits; total = h.total }

module _ (layer : ℤ) where
  prune_shards_fields :
      (n : ℕ) (o : Overlay)
      → ((prune_shards layer n o).layers ≡ o.layers)
        × ((prune_shards layer n o).metas ≡ o.metas)
        × ((prune_shards layer n o).layer_names ≡ o.layer_names)
        × ((prune_shards layer n o).gen ≡ o.gen)
        × ((prune_shards layer n o).max_entries ≡ o.max_entries)
  unfolding prune_shards with_shard
  prune_shards_fields zero o = (refl, refl, refl, refl, refl)
  prune_shards_fields (suc n) o = prune_shards_fields n (with_shard n (prune_shard layer) o)

  pub invalidate_layer-IsConsistent :
      (o : Overlay) → IsConsistent o → IsConsistent (invalidate_layer layer o)
  unfolding invalidate_layer
  invalidate_layer-IsConsistent o h =
      bump-IsConsistent _ (prune_shards-IsConsistent layer shard_count o (omega arith) h)

  pub invalidate_layer-layers : (o : Overlay) → (invalidate_layer layer o).layers ≡ o.layers
  unfolding invalidate_layer bump
  invalidate_layer-layers o = (prune_shards_fields shard_count o).0

  pub invalidate_layer-gen : (o : Overlay) → (invalidate_layer layer o).gen ≡ (o.gen + 1) % 2 ^ 64
  unfolding invalidate_layer bump
  invalidate_layer-gen o = ap (λ g. (g + 1) % 2 ^ 64) (prune_shards_fields shard_count o).3

  pub invalidate_layer-max_entries :
      (o : Overlay) → (invalidate_layer layer o).max_entries ≡ o.max_entries
  unfolding invalidate_layer bump
  invalidate_layer-max_entries o = (prune_shards_fields shard_count o).4

  pub remembers-invalidate_layer :
      (q : Text) (o : Overlay)
      → IsConsistent o
      → remembers q (invalidate_layer layer o) ≡ survive layer (remembers q o)
  unfolding invalidate_layer bump
  remembers-invalidate_layer q o h = remembers-prune_shards layer q o h

  module _ (new_fs : Layer) (o o' : Overlay) (done : replace_layer layer new_fs o ≡ some o') where
    with_layer : Overlay
    with_layer = record o { layers = set o.layers (pos_part layer) new_fs }

    replace_layer_lem :
        (ltb_ℤ layer (pos 0) ≡ false)
        × (leb_ℤ (pos (length o.layers)) layer ≡ false)
        × (o' ≡ bump (prune_shards layer shard_count with_layer))
    unfolding replace_layer with_layer
    replace_layer_lem = ground arith

    with_layer-IsConsistent : IsConsistent o → IsConsistent with_layer
    unfolding with_layer
    with_layer-IsConsistent h = set_layers-IsConsistent o _ h

    pub replace_layer-IsConsistent : IsConsistent o → IsConsistent o'
    replace_layer-IsConsistent h = rw replace_layer_lem.2 (
        bump-IsConsistent _ (
          prune_shards-IsConsistent layer shard_count with_layer (omega arith)
            (with_layer-IsConsistent h)))

    pub remembers-replace_layer :
        (q : Text) → IsConsistent o → remembers q o' ≡ survive layer (remembers q o)
    unfolding bump
    remembers-replace_layer q h = rw replace_layer_lem.2 (
        remembers-prune_shards layer q with_layer (with_layer-IsConsistent h)
        ∙ unfold with_layer in refl)

    pub replace_layer-layers : o'.layers ≡ set o.layers (pos_part layer) new_fs
    unfolding bump with_layer
    replace_layer-layers = rw replace_layer_lem.2 (prune_shards_fields shard_count with_layer).0

    pub replace_layer-max_entries : o'.max_entries ≡ o.max_entries
    unfolding bump with_layer
    replace_layer-max_entries =
        rw replace_layer_lem.2 (prune_shards_fields shard_count with_layer).4

    pub replace_layer-gen : o'.gen ≡ (o.gen + 1) % 2 ^ 64
    unfolding bump with_layer
    replace_layer-gen =
        rw replace_layer_lem.2
          (ap (λ g. (g + 1) % 2 ^ 64) (prune_shards_fields shard_count with_layer).3)

pub empty_count : (n : ℕ) → count_entries n (λ _. empty_shard) ≡ 0
unfolding count_entries
empty_count zero = refl
empty_count (suc n) = omega (arith, empty_count n)

pub invalidate_all-IsConsistent : (o : Overlay) → IsConsistent (invalidate_all o)
unfolding invalidate_all bump neg_cache_len
invalidate_all-IsConsistent o = record {
  valid = λ i. record {
    map_distinct = tt;
    list_distinct = tt;
    same_length = refl;
    same_keys = λ k. unfold lookup in refl;
  };
  fits = λ i. omega arith;
  total = ap pos (sym (empty_count shard_count));
}

pub remembers-invalidate_all : (q : Text) (o : Overlay) → remembers q (invalidate_all o) ≡ none
unfolding invalidate_all bump lookup
remembers-invalidate_all q o = refl

pub invalidate_all-gen : (o : Overlay) → (invalidate_all o).gen ≡ (o.gen + 1) % 2 ^ 64
unfolding invalidate_all bump
invalidate_all-gen o = refl
