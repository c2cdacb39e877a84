-- ===== src/Overlay/Bounds.antt =====
-- The negative cache does not outgrow its limit, whatever operations come in whatever order
-- (internal/overlayfs/overlayfs.go).
use blogflow.Base.{
  subst, ℕ, zero, suc, ◌+◌, ◌*◌, ◌≤◌, ◌≡◌, refl, ◌∙◌, ap, arith, length, inl, inr, Bool-cases,
  nat_eq, ◌==◌, List, Option,
}
use blogflow.Base.Text.{Text}
use blogflow.Base.Int.{pos}
use blogflow.Overlay.Layers.{Layer}
use blogflow.Overlay.Cache.{
  with_shard, Overlay, neg_cache_len, count_entries, shard_capacity, shard_count, neg_cache_lookup,
  neg_cache_store, invalidate_all,
}
use blogflow.Overlay.Cache.Invariant.{IsConsistent}
use blogflow.Overlay.Cache.Sound.{IsSound}
use blogflow.Overlay.Cache.Invalidate.{invalidate_layer-max_entries, replace_layer-max_entries}
use blogflow.Overlay.Resolve.Race.{
  Step, look, store, change, replace, clear, Steps, here, next, Step-Holds,
}
use blogflow.Overlay.New.{new_overlay, new_overlay-IsConsistent, new_overlay-IsSound}

count_entries-le :
    (n bound : ℕ) (o : Overlay)
    → ((i : ℕ) → length (o.shards i).m ≤ bound)
    → count_entries n o.shards ≤ n * bound
unfolding count_entries
count_entries-le zero bound o h = omega arith
count_entries-le (suc n) bound o h = grind (arith, h n, count_entries-le n bound o h)

capacity_bound : (n : ℕ) → shard_count * shard_capacity n ≤ n + shard_count
unfolding shard_capacity
capacity_bound n = ground arith

neg_cache_store-max_entries :
    (name : Text) (first gen : ℕ) (o : Overlay)
    → (neg_cache_store name first gen o).max_entries ≡ o.max_entries
unfolding neg_cache_store with_shard
neg_cache_store-max_entries name first gen o = elim (Bool-cases (o.max_entries == 0)) [
  | inl off ↦ rw (off, neg_cache_store) refl
  | inr on ↦ elim (Bool-cases (o.gen == gen)) [
    | inl same ↦ rw (on, same, neg_cache_store) refl
    | inr late ↦ rw (on, late, neg_cache_store) refl
  ]
]

Step-max_entries : (o o' : Overlay) → Step o o' → o'.max_entries ≡ o.max_entries
unfolding neg_cache_lookup invalidate_all
Step-max_entries o o' (look name e) = ap (λ (x : Overlay). x.max_entries) e
Step-max_entries o o' (store name first gen truth e) =
    ap (λ (x : Overlay). x.max_entries) e ∙ neg_cache_store-max_entries name first gen o
Step-max_entries o o' (change i l e) =
    ap (λ (x : Overlay). x.max_entries) e ∙ invalidate_layer-max_entries (pos i) _
Step-max_entries o o' (replace i l e) = replace_layer-max_entries i l o o' e
Step-max_entries o o' (clear e) = ap (λ (x : Overlay). x.max_entries) e

-- What every step keeps.
abbrev Kept : ℕ → Overlay → Type 0
Kept limit o = (IsConsistent o × IsSound o) × (o.max_entries ≡ limit)

Steps-Kept :
    (limit : ℕ) (o : Overlay) {n : ℕ} (o' : Overlay) → Steps o n o' → Kept limit o → Kept limit o'
Steps-Kept limit o o' here k = k
Steps-Kept limit o o'' (next {o' = o'} before st) k =
    let (holds, same) = Steps-Kept limit o o' before k in
    (Step-Holds o' o'' st holds, Step-max_entries o' o'' st ∙ same)

-- After any sequence of lookups, stores, changes, replacements and invalidations of an overlay that
-- NewOverlayFS made, the counter tells the number of entries of the negative cache, and they are no more
-- than 100000.
pub neg_cache_len-bound :
    (decimal : ℕ → Text) (ls : List (Option Layer)) (n : ℕ) (o : Overlay)
    → Steps (new_overlay decimal ls) n o
    → (o.size ≡ pos (neg_cache_len o)) × (neg_cache_len o ≤ 100_000)
unfolding neg_cache_len new_overlay shard_capacity
neg_cache_len-bound decimal ls n o steps =
    let ((c, s), same) =
      Steps-Kept 100_000 (new_overlay decimal ls) o steps
        ((new_overlay-IsConsistent decimal ls, new_overlay-IsSound decimal ls), refl) in
    (c.total, within c same)
  where
    within : IsConsistent o → o.max_entries ≡ 100_000 → neg_cache_len o ≤ 100_000
    within c same = count_entries-le shard_count 6250 o λ i.
        let v = c.valid i in
        omega (
          arith,
          v.same_length,
          subst (λ m. length (o.shards i).lru ≤ shard_capacity m) same (c.fits i),
        )
