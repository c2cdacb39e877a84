-- ===== src/Overlay/Cache/Steps.antt =====
-- Every operation of the cache keeps its invariant, and what each operation makes it remember.
use blogflow.Base.{
  ℕ, zero, suc, ◌≤◌, ◌<◌, ◌≡◌, ◌∙◌, sym, ap, false, if◌then◌else◌, nat_eq, list_eq, ◌==◌, ltb, some,
  none, Option, length, arith, Bool-cases, inl, inr, ◌⊎◌,
}
use blogflow.Base.Text.{Text}
use blogflow.Base.Int.{ℤ, pos}
use blogflow.Overlay.Shard.{shard_lookup, shard_store, prune_shard}
use blogflow.Overlay.Shard.Laws.{
  cached, shard_lookup-IsValid, shard_lookup-cached, cached-shard_lookup, length-shard_lookup,
  shard_lookup-m,
}
use blogflow.Overlay.Shard.Store.{
  shard_store-Keeps, cached-shard_store_self, cached-shard_store_other, length-shard_store,
}
use blogflow.Overlay.Shard.Prune.{
  prune_shard-Keeps, cached-prune_shard, length-prune_shard, survive,
}
use blogflow.Overlay.Cache.{
  shard_count, Overlay, shard_index, update, shard_capacity, neg_cache_lookup, with_shard,
  neg_cache_store, prune_shards, neg_cache_len,
}
use blogflow.Overlay.Cache.Invariant.{
  IsConsistent, shard_index-lt, shard_capacity_pos, with_shard-IsConsistent, count_entries-same,
  counted, counted-Keeps, others_of,
}

-- What the cache remembers of a path.
abbrev pub remembers : Text → Overlay → Option ℕ
remembers name o = cached name (o.shards (shard_index name))

pub neg_cache_lookup-IsConsistent :
    (name : Text) (o : Overlay) → IsConsistent o → IsConsistent (neg_cache_lookup name o).1
unfolding neg_cache_lookup neg_cache_len
neg_cache_lookup-IsConsistent name o h = record {
  valid = λ j. ground (arith, h.valid j, shard_lookup-IsValid name (o.shards i) (h.valid i));
  fits = λ j. ground (arith, h.fits j, h.fits i, length-shard_lookup name (o.shards i) (h.valid i));
  total =
      h.total
      ∙ ap pos (
          sym (
            count_entries-same shard_count i (shard_lookup name (o.shards i)).1 o.shards
              (ap length (shard_lookup-m name (o.shards i)))));
}
  where
    i : ℕ
    i = shard_index name

pub neg_cache_lookup-remembers :
    (name : Text) (o : Overlay) → IsConsistent o → (neg_cache_lookup name o).0 ≡ remembers name o
unfolding neg_cache_lookup
neg_cache_lookup-remembers name o h = shard_lookup-cached name _ (h.valid (shard_index name))

pub remembers-neg_cache_lookup :
    (name q : Text) (o : Overlay) → remembers q (neg_cache_lookup name o).1 ≡ remembers q o
unfolding neg_cache_lookup
remembers-neg_cache_lookup name q o =
    ground (arith, cached-shard_lookup name q (o.shards (shard_index name)))

pub neg_cache_store-IsConsistent :
    (name : Text) (first gen : ℕ) (o : Overlay)
    → IsConsistent o
    → IsConsistent (neg_cache_store name first gen o)
unfolding neg_cache_store
neg_cache_store-IsConsistent name first gen o h = elim (Bool-cases (o.max_entries == 0)) [
  | inl off ↦ rw off h
  | inr on ↦ elim (Bool-cases (o.gen == gen)) [
    | inr stale ↦ rw (on, stale) h
    | inl current ↦
        rw (on, current)
          (with_shard-IsConsistent (shard_index name)
            (shard_store (shard_capacity o.max_entries) name first) o (shard_index-lt name)
            (λ others c k fits. (
              shard_store-Keeps (shard_capacity o.max_entries) others c k name first,
              length-shard_store (shard_capacity o.max_entries) others c k name first
                  (shard_capacity_pos o.max_entries) fits,
            ))
            h)
  ]
]

-- A store makes the cache remember the path if its generation is current, and changes nothing if
-- not.
pub remembers-store_self :
    (name : Text) (first gen : ℕ) (o : Overlay)
    → IsConsistent o
    → remembers name (neg_cache_store name first gen o) ≡ (
        if o.max_entries == 0
        then remembers name o
        else if o.gen == gen
        then some first
        else remembers name o)
unfolding neg_cache_store with_shard update
remembers-store_self name first gen o h =
    let i = shard_index name in
    ground (
      arith,
      cached-shard_store_self (shard_capacity o.max_entries) (others_of i o.shards) (counted i o)
          (counted-Keeps i o (shard_index-lt name) h) name first,
    )

pub remembers-store_other :
    (name q : Text) (first gen : ℕ) (o : Overlay)
    → IsConsistent o
    → (name == q) ≡ false
    → (remembers q (neg_cache_store name first gen o) ≡ none)
      ⊎ (remembers q (neg_cache_store name first gen o) ≡ remembers q o)
unfolding neg_cache_store with_shard update
remembers-store_other name q first gen o h differ =
    let i = shard_index name in
    ground (
      arith,
      cached-shard_store_other (shard_capacity o.max_entries) (others_of i o.shards) (counted i o)
          (counted-Keeps i o (shard_index-lt name) h) name first q differ,
    )

module _ (layer : ℤ) where
  prune_step-IsConsistent :
      (n : ℕ) (o : Overlay)
      → n < shard_count
      → IsConsistent o
      → IsConsistent (with_shard n (prune_shard layer) o)
  prune_step-IsConsistent n o bound h =
      with_shard-IsConsistent n (prune_shard layer) o bound
        (λ others c k fits. (
          prune_shard-Keeps layer others c k,
          omega (arith, length-prune_shard layer others c k, fits),
        ))
        h

  pub prune_shards-IsConsistent :
      (n : ℕ) (o : Overlay)
      → n ≤ shard_count
      → IsConsistent o
      → IsConsistent (prune_shards layer n o)
  unfolding prune_shards
  prune_shards-IsConsistent zero o bound h = h
  prune_shards-IsConsistent (suc n) o bound h =
      prune_shards-IsConsistent n (with_shard n (prune_shard layer) o) (omega arith)
        (prune_step-IsConsistent n o bound h)

  cached-prune_step :
      (n j : ℕ) (q : Text) (o : Overlay)
      → n < shard_count
      → IsConsistent o
      → cached q ((with_shard n (prune_shard layer) o).shards j)
        ≡ (if n == j then survive layer (cached q (o.shards j)) else cached q (o.shards j))
  unfolding with_shard update
  cached-prune_step n j q o bound h = ground (
    arith,
    cached-prune_shard layer (others_of n o.shards) (counted n o) (counted-Keeps n o bound h) q,
  )

  cached-prune_shards :
      (n j : ℕ) (q : Text) (o : Overlay)
      → n ≤ shard_count
      → IsConsistent o
      → cached q ((prune_shards layer n o).shards j)
        ≡ (if ltb j n then survive layer (cached q (o.shards j)) else cached q (o.shards j))
  unfolding prune_shards
  cached-prune_shards zero j q o bound h = ground arith
  cached-prune_shards (suc n) j q o bound h = ground (
    arith,
    cached-prune_shards n j q (with_shard n (prune_shard layer) o) (omega arith)
        (prune_step-IsConsistent n o bound h),
    cached-prune_step n j q o bound h,
  )

  pub remembers-prune_shards :
      (q : Text) (o : Overlay)
      → IsConsistent o
      → remembers q (prune_shards layer shard_count o) ≡ survive layer (remembers q o)
  remembers-prune_shards q o h =
      ground (
        arith,
        cached-prune_shards shard_count (shard_index q) q o (omega arith) h,
        shard_index-lt q,
      )

pub neg_cache_store-gen :
    (name : Text) (first gen : ℕ) (o : Overlay) → (neg_cache_store name first gen o).gen ≡ o.gen
unfolding neg_cache_store with_shard
neg_cache_store-gen name first gen o = ground arith
