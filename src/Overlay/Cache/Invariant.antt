-- ===== src/Overlay/Cache/Invariant.antt =====
-- The cache's invariant: every shard is well formed and within its capacity, holds only the paths
-- that hash to it, and the counter is the number of entries.
use blogflow.Base.{
  List, ℕ, zero, suc, ◌+◌, ◌≤◌, ◌<◌, ◌≡◌, refl, ◌∙◌, sym, ap, nat_eq, list_eq, length, arith,
}
use blogflow.Base.Text.{Text}
use blogflow.Base.Int.{pos}
use blogflow.Overlay.Layers.{Layer}
use blogflow.Overlay.Shard.{Shard, Counted, empty_shard}
use blogflow.Overlay.Shard.Laws.{IsValid, Keeps}
use blogflow.Overlay.Cache.{
  shard_count, Overlay, shard_index, update, shard_capacity, with_shard, count_entries,
  neg_cache_len,
}

pub record IsConsistent (o : Overlay) : Type 0 where
  pub valid : (i : ℕ) → IsValid (o.shards i)
  pub fits : (i : ℕ) → length (o.shards i).lru ≤ shard_capacity o.max_entries
  pub total : o.size ≡ pos (neg_cache_len o)

count_entries-update_beyond :
    (n i : ℕ) (s : Shard) (shards : ℕ → Shard)
    → n ≤ i
    → count_entries n (update i s shards) ≡ count_entries n shards
unfolding count_entries update
count_entries-update_beyond zero i s shards h = refl
count_entries-update_beyond (suc n) i s shards h =
    ground (arith, count_entries-update_beyond n i s shards)

-- Changing one shard changes the number of entries by that shard's.
count_entries-update :
    (n i : ℕ) (s : Shard) (shards : ℕ → Shard)
    → i < n
    → count_entries n (update i s shards) + length (shards i).m
      ≡ count_entries n shards + length s.m
unfolding count_entries update
count_entries-update zero i s shards h = absurd (omega arith)
count_entries-update (suc n) i s shards h =
    ground (arith, count_entries-update n i s shards, count_entries-update_beyond n i s shards)

-- A change of a shard that keeps the size of its map keeps the number of entries.
pub count_entries-same :
    (n i : ℕ) (s : Shard) (shards : ℕ → Shard)
    → length s.m ≡ length (shards i).m
    → count_entries n (update i s shards) ≡ count_entries n shards
unfolding count_entries update
count_entries-same zero i s shards h = refl
count_entries-same (suc n) i s shards h = ground (arith, count_entries-same n i s shards h)

pub shard_index-lt : (name : Text) → shard_index name < shard_count
unfolding shard_index
shard_index-lt name = omega arith

pub shard_capacity_pos : (max_entries : ℕ) → 0 < shard_capacity max_entries
unfolding shard_capacity
shard_capacity_pos max_entries = ground arith

-- The entries of the shards other than `i`.
pub others_of : ℕ → (ℕ → Shard) → ℕ
others_of i shards = count_entries shard_count (update i empty_shard shards)

module _ (i : ℕ) (bound : i < shard_count) (shards : ℕ → Shard) where
  count_entries-others : count_entries shard_count shards ≡ length (shards i).m + others_of i shards
  unfolding others_of
  count_entries-others = omega (arith, count_entries-update shard_count i empty_shard shards bound)

  count_entries-update_others :
      (s : Shard) → count_entries shard_count (update i s shards) ≡ length s.m + others_of i shards
  count_entries-update_others s =
      omega (arith, count_entries-update shard_count i s shards bound, count_entries-others)

-- Shard `i` with the counter, as `with_shard` passes it to its operation.
abbrev pub counted : ℕ → Overlay → Counted
counted i o = record { shard = o.shards i; size = o.size }

pub counted-Keeps :
    (i : ℕ) (o : Overlay)
    → i < shard_count
    → IsConsistent o
    → Keeps (others_of i o.shards) (counted i o)
unfolding neg_cache_len
counted-Keeps i o bound h = record {
  valid = h.valid i;
  total = h.total ∙ ap pos (count_entries-others i bound o.shards);
}

pub with_shard-IsConsistent :
    (i : ℕ) (f : Counted → Counted) (o : Overlay)
    → i < shard_count
    → ((others : ℕ) (c : Counted)
        → Keeps others c
        → length c.shard.lru ≤ shard_capacity o.max_entries
        → Keeps others (f c) × (length (f c).shard.lru ≤ shard_capacity o.max_entries))
    → IsConsistent o
    → IsConsistent (with_shard i f o)
unfolding with_shard update neg_cache_len
with_shard-IsConsistent i f o bound keep h =
    let others = others_of i o.shards in
    let c = counted i o in
    let (kept, small) = keep others c (counted-Keeps i o bound h) (h.fits i) in
    record {
      valid = λ j. ground (arith, kept.valid, h.valid j);
      fits = λ j. ground (arith, small, h.fits j);
      total = kept.total ∙ ap pos (sym (count_entries-update_others i bound o.shards (f c).shard));
    }

-- The invariant does not speak of the layers.
pub set_layers-IsConsistent :
    (o : Overlay) (ls : List Layer) → IsConsistent o → IsConsistent (record o { layers = ls })
unfolding neg_cache_len
set_layers-IsConsistent o ls h = record { valid = h.valid; fits = h.fits; total = h.total }
