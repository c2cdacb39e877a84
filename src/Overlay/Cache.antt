-- ===== src/Overlay/Cache.antt =====
-- The state of an OverlayFS, the sharded negative cache and its invalidation
-- (internal/overlayfs/overlayfs.go). The locks make each operation here one step; metrics and the
-- test hooks are left out.
pub mod Invariant
pub mod Steps
pub mod Invalidate
pub mod Sound
use Prim.Native.Nat.{bit_xor}
use blogflow.Base.{
  ℕ, zero, suc, ◌+◌, ◌*◌, ◌/◌, ◌%◌, ◌^◌, Bool, true, false, ◌||◌, List, [], ◌∷◌, ltb, if◌then◌else◌,
  nat_eq, ◌==◌, Option, none, some, length, set,
}
use blogflow.Base.Text.{Text}
use blogflow.Base.Int.{ℤ, pos, pos_part, ltb_ℤ, leb_ℤ}
use blogflow.Overlay.Layers.{Layer, LayerMeta}
use blogflow.Overlay.Shard.{Shard, Counted, empty_shard, shard_lookup, shard_store, prune_shard}

abbrev pub shard_count : ℕ
shard_count = 16

-- The array of shards is a function of the index. `max_entries` is `maxNegCacheEntries`, which is
-- not negative.
pub record Overlay : Type 0 where
  pub layers : List Layer
  pub layer_names : List Text
  pub metas : List LayerMeta
  pub shards : ℕ → Shard
  pub gen : ℕ
  pub size : ℤ
  pub max_entries : ℕ

-- The loop of `negCacheShardIndex`, on uint32.
unfoldable pub fnv : ℕ → Text → ℕ
fnv h [] = h
fnv h (c ∷ name) = fnv ((bit_xor h c * 16777619) % 2 ^ 32) name

unfoldable pub shard_index : Text → ℕ
unfolding fnv
shard_index name = fnv 2166136261 name % shard_count

unfoldable pub update : ℕ → Shard → (ℕ → Shard) → ℕ → Shard
update i s shards j = if i == j then s else shards j

-- `negCacheShardCapacity`
unfoldable pub shard_capacity : ℕ → ℕ
shard_capacity max_entries =
    let capacity = max_entries / shard_count in
    let rounded = if max_entries % shard_count == 0 then capacity else capacity + 1 in
    if ltb rounded 1 then 1 else rounded

-- `negCacheLookup`
unfoldable pub neg_cache_lookup : Text → Overlay → Option ℕ × Overlay
unfolding update
neg_cache_lookup name o =
    let i = shard_index name in
    let (found, s) = shard_lookup name (o.shards i) in
    (found, record o { shards = update i s o.shards })

-- An operation on one shard and the counter.
unfoldable pub with_shard : ℕ → (Counted → Counted) → Overlay → Overlay
unfolding update
with_shard i f o =
    let c = f (record { shard = o.shards i; size = o.size }) in
    record o { shards = update i c.shard o.shards; size = c.size }

-- `negCacheStoreWithGeneration`
unfoldable pub neg_cache_store : Text → ℕ → ℕ → Overlay → Overlay
neg_cache_store name first gen o =
    if o.max_entries == 0
    then o
    else if o.gen == gen
    then with_shard (shard_index name) (shard_store (shard_capacity o.max_entries) name first) o
    else o

-- The loop over the shards, from the last index down.
unfoldable pub prune_shards : ℤ → ℕ → Overlay → Overlay
prune_shards layer_index zero o = o
prune_shards layer_index (suc n) o =
    prune_shards layer_index n (with_shard n (prune_shard layer_index) o)

unfoldable pub bump : Overlay → Overlay
bump o = record o { gen = (o.gen + 1) % 2 ^ 64 }

unfoldable pub invalidate_layer : ℤ → Overlay → Overlay
unfolding prune_shards bump
invalidate_layer layer_index o = bump (prune_shards layer_index shard_count o)

unfoldable pub invalidate_all : Overlay → Overlay
unfolding bump
invalidate_all o = bump (record o { shards = λ _. empty_shard; size = pos 0 })

-- `none` is the error that the index is out of range.
unfoldable pub replace_layer : ℤ → Layer → Overlay → Option Overlay
unfolding prune_shards bump
replace_layer layer_index new_fs o =
    if ltb_ℤ layer_index (pos 0) || leb_ℤ (pos (length o.layers)) layer_index
    then none
    else some (
        bump (
          prune_shards layer_index shard_count
            (record o { layers = set o.layers (pos_part layer_index) new_fs })))

-- The loop of `negCacheLen`.
unfoldable pub count_entries : ℕ → (ℕ → Shard) → ℕ
count_entries zero shards = 0
count_entries (suc n) shards = length (shards n).m + count_entries n shards

unfoldable pub neg_cache_len : Overlay → ℕ
unfolding count_entries
neg_cache_len o = count_entries shard_count o.shards
